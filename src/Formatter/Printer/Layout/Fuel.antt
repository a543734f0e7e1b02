-- ===== src/Formatter/Printer/Layout/Fuel.antt =====
-- The printer ends: fuel of twice the size of a document is enough.
use luck.Formatter.Ir.{
  Tag, start_group, start_conditional, start_indent_if_group_breaks, start_line_suffix, start_fill,
  LineMode, soft, soft_or_space, hard, empty, PrintMode, flat, expanded, FormatElement, token, text,
  space, line, expand_parent, line_suffix_boundary, best_fitting, tag, Elements, nil, cons,
  Variants, no_variant, variant, drop_elements, start_entry, end_entry, end_fill,
}
use luck.Formatter.Printer.Expand.{propagate_expand}
use luck.Formatter.Printer.Fits.{
  region_end_group, region_end_entry, region_whole, is_start_conditional, is_end_conditional,
  is_start_suffix, is_end_suffix, skip_region, group_mode, fits_region, fits_region_with_extra,
}
use luck.Formatter.Printer.Layout.{
  Outcome, done, panic, out_of_fuel, ◌>>=◌, checked, print_suffix, print_conditional, print_group,
  group_decision, print_plain_tag, print_separator, print_elements, print_element,
  print_best_fitting, print_fill, print_entry, print, push_mode, pop_mode, new_printer,
}
use luck.Formatter.Printer.State.{Printer, PrinterOptions, current_mode}
use luck.Prelude.{
  ℕ, zero, suc, ◌+◌, ◌*◌, ◌≤◌, ◌≢◌, inl, inr, ℕ-cases, Bool, true, false, Option, none, some, arith,
  replicate, if◌then◌else◌, Bytes,
}

abbrev mutual
  pub size_element : FormatElement → ℕ
  size_element (best_fitting vs) = suc (size_variants vs)
  size_element _ = 1

  pub size : Elements → ℕ
  size nil = 0
  size (cons e es) = size_element e + size es

  pub size_variants : Variants → ℕ
  size_variants no_variant = 0
  size_variants (variant es vs) = suc (size es + size_variants vs)

-- A result is no end of the fuel, and what it leaves is no larger than `n`.
abbrev Leaves : ℕ → Outcome (Printer × Elements) → Type 0
Leaves n (done next) = size (next.1) ≤ n
Leaves n panic = Unit
Leaves n out_of_fuel = ⊥

abbrev Returns : {A : Type 0} → Outcome A → Type 0
Returns (done _) = Unit
Returns panic = Unit
Returns out_of_fuel = ⊥

one_le_size : (e : FormatElement) → 1 ≤ size_element e
one_le_size (best_fitting vs) = omega arith
one_le_size _ = omega arith

size-drop : (n : ℕ) (es : Elements) → size (drop_elements n es) ≤ size es
size-drop zero es = omega arith
size-drop (suc n) nil = omega arith
size-drop (suc n) (cons e es) = omega (arith, size-drop n es)

checked-Leaves :
    {A : Type 0} (n : ℕ) (o : Option A) (f : A → Outcome (Printer × Elements))
    → ((a : A) → Leaves n (f a))
    → Leaves n (checked o >>= f)
checked-Leaves n none f h = tt
checked-Leaves n (some a) f h = h a

checked-Returns :
    {A B : Type 0} (o : Option A) (f : A → Outcome B)
    → ((a : A) → Returns (f a))
    → Returns (checked o >>= f)
checked-Returns none f h = tt
checked-Returns (some a) f h = h a

>>=-Leaves :
    (m n : ℕ) (o : Outcome (Printer × Elements))
    (f : Printer × Elements → Outcome (Printer × Elements))
    → Leaves m o
    → ((p : Printer) (rest : Elements) → size rest ≤ m → Leaves n (f (p, rest)))
    → Leaves n (o >>= f)
>>=-Leaves m n (done next) f h k = k (next.0) (next.1) h
>>=-Leaves m n panic f h k = tt
>>=-Leaves m n out_of_fuel f h k = h

>>=-Returns :
    {B : Type 0} (m : ℕ) (o : Outcome (Printer × Elements)) (f : Printer × Elements → Outcome B)
    → Leaves m o
    → ((p : Printer) (rest : Elements) → size rest ≤ m → Returns (f (p, rest)))
    → Returns (o >>= f)
>>=-Returns m (done next) f h k = k (next.0) (next.1) h
>>=-Returns m panic f h k = tt
>>=-Returns m out_of_fuel f h k = h

Returns-bind :
    {A B : Type 0} (o : Outcome A) (f : A → Outcome B)
    → Returns o
    → ((a : A) → Returns (f a))
    → Returns (o >>= f)
Returns-bind (done a) f h k = k a
Returns-bind panic f h k = tt
Returns-bind out_of_fuel f h k = h

Returns-Leaves :
    (n : ℕ) {A : Type 0} (o : Outcome A) (f : A → Outcome (Printer × Elements))
    → Returns o
    → ((a : A) → Leaves n (f a))
    → Leaves n (o >>= f)
Returns-Leaves n (done a) f h k = k a
Returns-Leaves n panic f h k = tt
Returns-Leaves n out_of_fuel f h k = h

print_conditional-Leaves :
    (p : Printer) (mode : PrintMode) (id : ℕ) (rest : Elements)
    → Leaves (size rest) (print_conditional p mode id rest)
unfolding print_conditional
print_conditional-Leaves p mode id rest =
    checked-Leaves _ (group_mode p.group_modes id) _ λ decided.
      ground (arith, size-drop (skip_region is_start_conditional is_end_conditional rest) rest)

print_suffix-Leaves : (p : Printer) (rest : Elements) → Leaves (size rest) (print_suffix p rest)
unfolding print_suffix
print_suffix-Leaves p rest = elim (ℕ-cases (skip_region is_start_suffix is_end_suffix rest)) [
  | inl e ↦ rw (e, print_suffix) tt
  | inr (n, e) ↦ rw (e, print_suffix) (size-drop (suc n) rest)
]

weaken : (m n : ℕ) (o : Outcome (Printer × Elements)) → m ≤ n → Leaves m o → Leaves n o
weaken m n (done next) le h = omega arith
weaken m n panic le h = tt
weaken m n out_of_fuel le h = h

Returns-ne : {A : Type 0} (o : Outcome A) → Returns o → o ≢ out_of_fuel
Returns-ne (done a) h e = cc
Returns-ne panic h e = cc
Returns-ne out_of_fuel h e = h

best_fitting_case :
    {A : Type 0} (x y : Outcome A) (fits : Bool)
    → Returns x
    → Returns y
    → Returns (elim fits as (λ _. Outcome A) [ true ↦ x | false ↦ y ])
best_fitting_case x y true h k = h
best_fitting_case x y false h k = k

module _ (width : Bytes → ℕ) where
  group_decision-Returns :
      (p : Printer) (decided : Option PrintMode) (rest : Elements)
      → Returns (group_decision width p decided rest)
  unfolding group_decision
  group_decision-Returns p (some mode) rest = tt
  group_decision-Returns p none rest = by_mode (current_mode p)
    where
      by_mode :
          (m : PrintMode)
          → Returns (elim m as (λ _. Outcome PrintMode) [
            | flat ↦ done flat
            | expanded ↦ checked (fits_region width p region_end_group rest) >>= λ fits.
                done (if fits then flat else expanded)
          ])
      by_mode flat = tt
      by_mode expanded = checked-Returns (fits_region width p region_end_group rest) _ (λ _. tt)

  print_group-Leaves :
      (p : Printer) (id : ℕ) (rest : Elements) → Leaves (size rest) (print_group width p id rest)
  unfolding print_group
  print_group-Leaves p id rest =
      checked-Leaves (size rest) (group_mode p.group_modes id) _ λ decided.
        Returns-Leaves (size rest) (group_decision width p decided rest) _
          (group_decision-Returns p decided rest) (λ mode. omega arith)

  print_separator-Returns :
      (p : Printer) (mode : LineMode) (rest : Elements)
      → Returns (print_separator width p mode rest)
  unfolding print_separator
  print_separator-Returns p hard rest = tt
  print_separator-Returns p empty rest = tt
  print_separator-Returns p soft rest =
      checked-Returns (fits_region_with_extra width p region_end_entry 0 (drop_elements 1 rest)) _
        (λ _. tt)
  print_separator-Returns p soft_or_space rest =
      checked-Returns (fits_region_with_extra width p region_end_entry 1 (drop_elements 1 rest)) _
        (λ _. tt)

  print_plain_tag-Leaves :
      (p : Printer) (t : Tag) (rest : Elements)
      → Leaves (size rest) (print_plain_tag width p t rest)
  unfolding print_plain_tag
  print_plain_tag-Leaves p (start_group id) rest = print_group-Leaves p id rest
  print_plain_tag-Leaves p (start_conditional mode id) rest =
      print_conditional-Leaves p mode id rest
  print_plain_tag-Leaves p start_line_suffix rest = print_suffix-Leaves p rest
  print_plain_tag-Leaves p (start_indent_if_group_breaks id) rest =
      checked-Leaves (size rest) (group_mode p.group_modes id) _ (λ decided. omega arith)
  print_plain_tag-Leaves p _ rest = omega arith

  mutual
    unfolding print_elements

    print_elements-Returns :
        (f : ℕ) (p : Printer) (es : Elements)
        → 2 * size es + 1 ≤ f
        → Returns (print_elements width f p es)
    print_elements-Returns zero p es h = absurd (omega arith)
    print_elements-Returns (suc f) p nil h = tt
    print_elements-Returns (suc f) p (cons e es) h =
        >>=-Returns (size es) (print_element width f p e es) _
          (print_element-Leaves f p e es (omega arith))
          λ p' rest le. print_elements-Returns f p' rest (omega (arith, one_le_size e))

    print_element-Leaves :
        (f : ℕ) (p : Printer) (e : FormatElement) (rest : Elements)
        → 2 * (size_element e + size rest) ≤ f
        → Leaves (size rest) (print_element width f p e rest)
    print_element-Leaves zero p e rest h = absurd (omega (arith, one_le_size e))
    print_element-Leaves (suc f) p (token content) rest h = omega arith
    print_element-Leaves (suc f) p (text content) rest h = omega arith
    print_element-Leaves (suc f) p space rest h = omega arith
    print_element-Leaves (suc f) p (line mode) rest h = omega arith
    print_element-Leaves (suc f) p expand_parent rest h = omega arith
    print_element-Leaves (suc f) p line_suffix_boundary rest h = omega arith
    print_element-Leaves (suc f) p (best_fitting vs) rest h =
        Returns-Leaves (size rest) (print_best_fitting width f p vs) _
          (print_best_fitting-Returns f p vs (omega arith)) (λ p'. omega arith)
    print_element-Leaves (suc f) p (tag start_fill) rest h =
        print_fill-Leaves f p rest (omega arith)
    print_element-Leaves (suc f) p (tag t) rest h = print_plain_tag-Leaves p t rest

    print_best_fitting-Returns :
        (f : ℕ) (p : Printer) (vs : Variants)
        → 2 * size_variants vs + 1 ≤ f
        → Returns (print_best_fitting width f p vs)
    print_best_fitting-Returns zero p vs h = absurd (omega arith)
    print_best_fitting-Returns (suc f) p no_variant h = tt
    print_best_fitting-Returns (suc f) p (variant es no_variant) h =
        Returns-bind (print_elements width f (push_mode p expanded) es) _
          (print_elements-Returns f (push_mode p expanded) es (omega arith)) (λ p'. tt)
    print_best_fitting-Returns (suc f) p (variant es (variant es' vs)) h =
        checked-Returns (fits_region width p region_whole es) _ λ fits.
          best_fitting_case _ _ fits
            (Returns-bind (print_elements width f (push_mode p flat) es) _
              (print_elements-Returns f (push_mode p flat) es (omega arith)) (λ p'. tt))
            (print_best_fitting-Returns f p (variant es' vs) (omega arith))

    print_fill-Leaves :
        (f : ℕ) (p : Printer) (es : Elements)
        → 2 * size es + 1 ≤ f
        → Leaves (size es) (print_fill width f p es)
    print_fill-Leaves zero p es h = absurd (omega arith)
    print_fill-Leaves (suc f) p nil h = tt
    print_fill-Leaves (suc f) p (cons (tag end_fill) rest) h = omega arith
    print_fill-Leaves (suc f) p (cons (line separator) rest) h =
        Returns-Leaves (1 + size rest) (print_separator width p separator rest) _
          (print_separator-Returns p separator rest)
          λ p'.
            weaken (size rest) (1 + size rest) (print_fill width f p' rest) (omega arith)
              (print_fill-Leaves f p' rest (omega arith))
    print_fill-Leaves (suc f) p (cons (tag start_entry) rest) h =
        checked-Leaves (1 + size rest) (fits_region width p region_end_entry rest) _ λ fits.
          >>=-Leaves (size rest) (1 + size rest)
            (print_entry width f (push_mode p (if fits then flat else expanded)) rest) _
            (print_entry-Leaves f (push_mode p (if fits then flat else expanded)) rest
              (omega arith))
            λ p' r le.
              weaken (size r) (1 + size rest) (print_fill width f (pop_mode p') r) (omega arith)
                (print_fill-Leaves f (pop_mode p') r (omega arith))
    print_fill-Leaves (suc f) p (cons e rest) h =
        >>=-Leaves (size rest) (size (cons e rest)) (print_element width f p e rest) _
          (print_element-Leaves f p e rest (omega arith))
          λ p' r le.
            weaken (size r) (size (cons e rest)) (print_fill width f p' r) (omega arith)
              (print_fill-Leaves f p' r (omega (arith, one_le_size e)))

    print_entry-Leaves :
        (f : ℕ) (p : Printer) (es : Elements)
        → 2 * size es + 1 ≤ f
        → Leaves (size es) (print_entry width f p es)
    print_entry-Leaves zero p es h = absurd (omega arith)
    print_entry-Leaves (suc f) p nil h = tt
    print_entry-Leaves (suc f) p (cons (tag end_entry) rest) h = omega arith
    print_entry-Leaves (suc f) p (cons e rest) h =
        >>=-Leaves (size rest) (size (cons e rest)) (print_element width f p e rest) _
          (print_element-Leaves f p e rest (omega arith))
          λ p' r le.
            weaken (size r) (size (cons e rest)) (print_entry width f p' r) (omega arith)
              (print_entry-Leaves f p' r (omega (arith, one_le_size e)))

  -- With fuel for twice the size of the document the printer comes to an end.
  pub print-ends :
      (fuel : ℕ) (es : Elements) (group_count : ℕ) (options : PrinterOptions)
      → 2 * size es + 1 ≤ fuel
      → print width fuel es group_count options ≢ out_of_fuel
  unfolding print
  print-ends fuel es group_count options h = Returns-ne _ (
      checked-Returns (propagate_expand es (replicate group_count none)) _ λ modes.
        Returns-bind (print_elements width fuel (new_printer options modes) es) _
          (print_elements-Returns fuel (new_printer options modes) es h) (λ p. tt))
