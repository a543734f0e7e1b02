-- ===== src/Formatter/Printer/Layout.antt =====
-- The print loop of crates/luck_formatter/src/printer.rs. Its methods call one another, so they
-- run on fuel; an index into the elements is the stream from there on.
pub mod Fuel
pub mod OneLine
use luck.Formatter.Ir.{
  soft, soft_or_space, hard, empty, LineMode, PrintMode, flat, expanded, start_group, end_group,
  start_indent, end_indent, start_align, end_align, start_conditional, end_conditional,
  start_indent_if_group_breaks, end_indent_if_group_breaks, start_fill, end_fill, start_entry,
  end_entry, start_line_suffix, end_line_suffix, Tag, FormatElement, token, text, space, line,
  expand_parent, line_suffix_boundary, best_fitting, tag, Elements, nil, cons, Variants, no_variant,
  variant, drop_elements, take_elements, append,
}
use luck.Formatter.Printer.Expand.{propagate_expand, set_mode}
use luck.Formatter.Printer.Fits.{
  region_end_group, region_end_entry, region_whole, is_start_conditional, is_end_conditional,
  is_start_suffix, is_end_suffix, skip_region, group_mode, mode_eq, fits_region,
  fits_region_with_extra,
}
use luck.Formatter.Printer.State.{
  PrinterOptions, Indent, level, align, inactive, Printer, current_mode, emit_text, emit_newline,
  flush_suffixes,
}
use luck.Prelude.{
  ℕ, zero, suc, ◌+◌, ◌-◌, ◌*◌, Bool, true, false, Option, none, some, List, [], ◌∷◌, if◌then◌else◌,
  replicate, Bytes,
}

-- A result, an index out of range, or the end of the fuel.
pub data Outcome (A : Type 0) : Type 0 where
  done : A → Outcome A
  panic : Outcome A
  out_of_fuel : Outcome A

infixl 5 ◌>>=◌
abbrev pub ◌>>=◌ : {A B : Type 0} → Outcome A → (A → Outcome B) → Outcome B
done a >>= f = f a
panic >>= f = panic
out_of_fuel >>= f = out_of_fuel

-- What indexes the table of groups panics outside it.
abbrev pub checked : {A : Type 0} → Option A → Outcome A
checked none = panic
checked (some a) = done a

abbrev pop {ℓ} : {A : Type ℓ} → List A → List A
pop [] = []
pop (_ ∷ l) = l

abbrev pub push_mode : Printer → PrintMode → Printer
push_mode p mode = record p { modes = mode ∷ p.modes }

abbrev pub pop_mode : Printer → Printer
pop_mode p = record p { modes = pop p.modes }

abbrev pub push_indent : Printer → Indent → Printer
push_indent p indent = record p { indents = indent ∷ p.indents }

abbrev pop_indent : Printer → Printer
pop_indent p = record p { indents = pop p.indents }

abbrev flat_if : Bool → PrintMode
flat_if fits = if fits then flat else expanded

-- The indent of `StartIndentIfGroupBreaks`.
abbrev indent_if_expanded : Option PrintMode → Indent
indent_if_expanded (some expanded) = level
indent_if_expanded (some flat) = inactive
indent_if_expanded none = inactive

abbrev is_decided : Option PrintMode → PrintMode → Bool
is_decided none mode = false
is_decided (some m) mode = mode_eq m mode

abbrev pub queue_suffix : Printer → Elements → Printer
queue_suffix p body = record p { suffixes = append p.suffixes body }

-- `StartLineSuffix`: the body goes to the queue, `elements[index + 1..end - 1]`.
unfoldable pub print_suffix : Printer → Elements → Outcome (Printer × Elements)
print_suffix p rest = elim (skip_region is_start_suffix is_end_suffix rest) [
  | zero ↦ panic
  | suc n ↦ done (queue_suffix p (take_elements n rest), drop_elements (suc n) rest)
]

unfoldable pub print_conditional : Printer → PrintMode → ℕ → Elements → Outcome (Printer × Elements)
print_conditional p mode id rest = checked (group_mode p.group_modes id) >>= λ decided. done (
  p,
  (if is_decided decided mode
      then rest
      else drop_elements (skip_region is_start_conditional is_end_conditional rest) rest),
)

abbrev pub new_printer : PrinterOptions → List (Option PrintMode) → Printer
new_printer options modes = record {
  options = options;
  output = [];
  line_start = 0;
  column = 0;
  indents = [];
  modes = [];
  group_modes = modes;
  suffixes = nil;
  is_pending_space = false;
  is_pending_indent = false;
}

module _ (width : Bytes → ℕ) where
  unfoldable pub print_line : Printer → LineMode → Printer
  print_line p hard = emit_newline width p false
  print_line p empty = emit_newline width p true
  print_line p soft = elim (current_mode p) [ flat ↦ p | expanded ↦ emit_newline width p false ]
  print_line p soft_or_space = elim (current_mode p) [
    | flat ↦ record p { is_pending_space = true }
    | expanded ↦ emit_newline width p false
  ]

  -- The mode that a group takes: forced, inherited or measured.
  unfoldable pub group_decision : Printer → Option PrintMode → Elements → Outcome PrintMode
  group_decision p (some mode) rest = done mode
  group_decision p none rest = elim (current_mode p) [
    | flat ↦ done flat
    | expanded ↦ checked (fits_region width p region_end_group rest) >>= λ fits. done (flat_if fits)
  ]

  unfoldable pub print_group : Printer → ℕ → Elements → Outcome (Printer × Elements)
  unfolding group_decision
  print_group p id rest = checked (group_mode p.group_modes id) >>= λ decided.
      group_decision p decided rest >>= λ mode.
      done (push_mode (record p { group_modes = set_mode p.group_modes id mode }) mode, rest)

  unfoldable pub print_line_suffix_boundary : Printer → Printer
  print_line_suffix_boundary p = elim p.suffixes [ nil ↦ p | cons _ _ ↦ emit_newline width p false ]

  -- The arms of `print_tag` but for `StartFill`.
  unfoldable pub print_plain_tag : Printer → Tag → Elements → Outcome (Printer × Elements)
  unfolding print_suffix print_conditional print_group
  print_plain_tag p (start_group id) rest = print_group p id rest
  print_plain_tag p end_group rest = done (pop_mode p, rest)
  print_plain_tag p start_indent rest = done (push_indent p level, rest)
  print_plain_tag p end_indent rest = done (pop_indent p, rest)
  print_plain_tag p end_align rest = done (pop_indent p, rest)
  print_plain_tag p end_indent_if_group_breaks rest = done (pop_indent p, rest)
  print_plain_tag p (start_align n) rest = done (push_indent p (align n), rest)
  print_plain_tag p (start_indent_if_group_breaks id) rest =
      checked (group_mode p.group_modes id) >>= λ decided.
      done (push_indent p (indent_if_expanded decided), rest)
  print_plain_tag p (start_conditional mode id) rest = print_conditional p mode id rest
  print_plain_tag p start_line_suffix rest = print_suffix p rest
  print_plain_tag p _ rest = done (p, rest)

  -- The separator of a fill whose next entry stands behind `rest`'s first element.
  unfoldable pub print_separator : Printer → LineMode → Elements → Outcome Printer
  print_separator p hard rest = done (emit_newline width p false)
  print_separator p empty rest = done (emit_newline width p true)
  print_separator p soft rest =
      checked (fits_region_with_extra width p region_end_entry 0 (drop_elements 1 rest)) >>= λ fits.
      done (if fits then p else emit_newline width p false)
  print_separator p soft_or_space rest =
      checked (fits_region_with_extra width p region_end_entry 1 (drop_elements 1 rest)) >>= λ fits.
      done (if fits then record p { is_pending_space = true } else emit_newline width p false)

  unfoldable mutual
    unfolding print_line print_line_suffix_boundary print_plain_tag print_separator

    -- `print_elements`
    pub print_elements : ℕ → Printer → Elements → Outcome Printer
    print_elements zero p es = out_of_fuel
    print_elements (suc f) p nil = done p
    print_elements (suc f) p (cons e es) =
        print_element f p e es >>= λ next. print_elements f (next.0) (next.1)

    -- `print_element` at `e`, with the stream behind it.
    pub print_element : ℕ → Printer → FormatElement → Elements → Outcome (Printer × Elements)
    print_element zero p e rest = out_of_fuel
    print_element (suc f) p (token content) rest = done (emit_text width p content, rest)
    print_element (suc f) p (text content) rest = done (emit_text width p content, rest)
    print_element (suc f) p space rest = done (record p { is_pending_space = true }, rest)
    print_element (suc f) p (line mode) rest = done (print_line p mode, rest)
    print_element (suc f) p expand_parent rest = done (p, rest)
    print_element (suc f) p line_suffix_boundary rest = done (print_line_suffix_boundary p, rest)
    print_element (suc f) p (best_fitting variants) rest =
        print_best_fitting f p variants >>= λ p'. done (p', rest)
    print_element (suc f) p (tag start_fill) rest = print_fill f p rest
    print_element (suc f) p (tag t) rest = print_plain_tag p t rest

    -- `print_best_fitting`, from a variant on.
    pub print_best_fitting : ℕ → Printer → Variants → Outcome Printer
    print_best_fitting zero p vs = out_of_fuel
    print_best_fitting (suc f) p no_variant = done p
    print_best_fitting (suc f) p (variant es no_variant) =
        print_elements f (push_mode p expanded) es >>= λ p'. done (pop_mode p')
    print_best_fitting (suc f) p (variant es (variant es' vs)) =
        checked (fits_region width p region_whole es) >>= λ fits. elim fits [
          | true ↦ print_elements f (push_mode p flat) es >>= λ p'. done (pop_mode p')
          | false ↦ print_best_fitting f p (variant es' vs)
        ]

    -- `print_fill`
    pub print_fill : ℕ → Printer → Elements → Outcome (Printer × Elements)
    print_fill zero p es = out_of_fuel
    print_fill (suc f) p nil = panic
    print_fill (suc f) p (cons (tag end_fill) rest) = done (p, rest)
    print_fill (suc f) p (cons (line separator) rest) =
        print_separator p separator rest >>= λ p'. print_fill f p' rest
    print_fill (suc f) p (cons (tag start_entry) rest) =
        checked (fits_region width p region_end_entry rest) >>= λ fits.
        print_entry f (push_mode p (flat_if fits)) rest >>= λ next.
        print_fill f (pop_mode (next.0)) (next.1)
    print_fill (suc f) p (cons e rest) =
        print_element f p e rest >>= λ next. print_fill f (next.0) (next.1)

    -- The inner `while` of `print_fill`, up to and with the `EndEntry`.
    pub print_entry : ℕ → Printer → Elements → Outcome (Printer × Elements)
    print_entry zero p es = out_of_fuel
    print_entry (suc f) p nil = panic
    print_entry (suc f) p (cons (tag end_entry) rest) = done (p, rest)
    print_entry (suc f) p (cons e rest) =
        print_element f p e rest >>= λ next. print_entry f (next.0) (next.1)

  -- `print`
  unfoldable pub print : ℕ → Elements → ℕ → PrinterOptions → Outcome Bytes
  print fuel es group_count options =
      checked (propagate_expand es (replicate group_count none)) >>= λ modes.
      print_elements fuel (new_printer options modes) es >>= λ p.
      done (flush_suffixes width p).output
