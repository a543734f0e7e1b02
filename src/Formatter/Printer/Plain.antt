-- ===== src/Formatter/Printer/Plain.antt =====
-- Measuring a group of texts, spaces and soft breaks in crates/luck_formatter/src/printer.rs.
use luck.Formatter.Buffer.{has_newline}
use luck.Formatter.Ir.{
  soft, soft_or_space, hard, empty, end_group, FormatElement, token, text, space, line,
  expand_parent, line_suffix_boundary, best_fitting, tag, Elements, nil, cons, append, PrintMode,
}
use luck.Formatter.Printer.Fits.{
  region_end_group, measure, fits_loop, fits_element_flat, fits_region, fits_region_with_extra,
  is_start_suffix, is_end_suffix,
}
use luck.Formatter.Printer.Reach.{reach, sub_sub, sub-is_negative, remaining_width_lem}
use luck.Formatter.Printer.State.{Printer}
use luck.Prelude.Int.{ℤ, pos, negsuc, sub_ℕ, ◌-ℤ◌, is_negative}
use luck.Prelude.{
  leb, leb→le, Bool-cases, ℕ, ◌+◌, ◌≤◌, ◌≡◌, refl, sym, ap, ◌∙◌, inl, inr, true, false, Option,
  some, List, Bytes, arith,
}

-- The elements that can stand on one line by themselves.
abbrev pub IsPlain : FormatElement → Type 0
IsPlain (token content) = has_newline content ≡ false
IsPlain (text content) = has_newline content ≡ false
IsPlain space = Unit
IsPlain (line soft) = Unit
IsPlain (line soft_or_space) = Unit
IsPlain _ = ⊥

abbrev pub ArePlain : Elements → Type 0
ArePlain nil = Unit
ArePlain (cons e es) = IsPlain e × ArePlain es

minus_zero : (b : ℤ) → b -ℤ 0 ≡ b
minus_zero (pos a) = ground arith
minus_zero (negsuc a) = ground arith

module _ (width : Bytes → ℕ) where
  -- The columns of an element without line breaks.
  unfoldable pub cells : FormatElement → ℕ
  cells (token content) = width content
  cells (text content) = width content
  cells space = 1
  cells (line soft_or_space) = 1
  cells _ = 0

  unfoldable pub total_cells : Elements → ℕ
  unfolding cells
  total_cells nil = 0
  total_cells (cons e es) = cells e + total_cells es

  -- One step of the measuring loop.
  fits_loop-cons :
      (modes : List (Option PrintMode)) (b : ℤ) (e : FormatElement) (es : Elements)
      → IsPlain e
      → is_negative (b -ℤ cells e) ≡ false
      → fits_loop width modes region_end_group 1 0 0 b (cons e es)
        ≡ fits_loop width modes region_end_group 1 0 0 (b -ℤ cells e) es
  unfolding fits_loop cells region_end_group measure is_start_suffix is_end_suffix fits_element_flat
  fits_loop-cons modes b (token content) es h n = rw (n, fits_loop) refl
  fits_loop-cons modes b (text content) es h n = rw (h, n, fits_loop) refl
  fits_loop-cons modes b space es h n = rw (n, fits_loop) refl
  fits_loop-cons modes b (line soft) es h n =
      rw (minus_zero b) (rw (ap is_negative (sym (minus_zero b)) ∙ n, fits_loop) refl)
  fits_loop-cons modes b (line soft_or_space) es h n = rw (n, fits_loop) refl
  fits_loop-cons modes b (line hard) es h n = elim h [ ]
  fits_loop-cons modes b (line empty) es h n = elim h [ ]
  fits_loop-cons modes b expand_parent es h n = elim h [ ]
  fits_loop-cons modes b line_suffix_boundary es h n = elim h [ ]
  fits_loop-cons modes b (best_fitting _) es h n = elim h [ ]
  fits_loop-cons modes b (tag _) es h n = elim h [ ]

  fits_loop-plain :
      (modes : List (Option PrintMode)) (limit used : ℕ) (es rest : Elements)
      → ArePlain es
      → used + total_cells es ≤ limit
      → fits_loop width modes region_end_group 1 0 0
          (sub_ℕ limit used)
          (append es (cons (tag end_group) rest))
        ≡ some true
  unfolding total_cells
  fits_loop-plain modes limit used nil rest h le = unfold fits_loop region_end_group in refl
  fits_loop-plain modes limit used (cons e es) rest h le =
      let next = sub_sub limit used (cells e) in
      fits_loop-cons modes (sub_ℕ limit used) e _ h.0
        (ap is_negative next ∙ sub-is_negative limit (used + cells e) (omega (arith, le)))
      ∙ ap
          (λ b.
            fits_loop width modes region_end_group 1 0 0 b (append es (cons (tag end_group) rest)))
          next
      ∙ fits_loop-plain modes limit (used + cells e) es rest h.1 (omega (arith, le))

  pub fits_region-plain :
      (p : Printer) (es rest : Elements)
      → ArePlain es
      → reach p + total_cells es ≤ p.options.line_width
      → fits_region width p region_end_group (append es (cons (tag end_group) rest)) ≡ some true
  unfolding fits_region_with_extra
  fits_region-plain p es rest h le =
      rw (remaining_width_lem p)
        (fits_loop-plain p.group_modes p.options.line_width (reach p) es rest h le)

  -- A step that runs out of columns.
  fits_loop-negative :
      (modes : List (Option PrintMode)) (b : ℤ) (e : FormatElement) (es : Elements)
      → IsPlain e
      → is_negative (b -ℤ cells e) ≡ true
      → fits_loop width modes region_end_group 1 0 0 b (cons e es) ≡ some false
  unfolding fits_loop cells region_end_group measure is_start_suffix is_end_suffix fits_element_flat
  fits_loop-negative modes b (token content) es h n = rw (n, fits_loop) refl
  fits_loop-negative modes b (text content) es h n = rw (h, n, fits_loop) refl
  fits_loop-negative modes b space es h n = rw (n, fits_loop) refl
  fits_loop-negative modes b (line soft) es h n =
      rw (ap is_negative (sym (minus_zero b)) ∙ n, fits_loop) refl
  fits_loop-negative modes b (line soft_or_space) es h n = rw (n, fits_loop) refl
  fits_loop-negative modes b (line hard) es h n = elim h [ ]
  fits_loop-negative modes b (line empty) es h n = elim h [ ]
  fits_loop-negative modes b expand_parent es h n = elim h [ ]
  fits_loop-negative modes b line_suffix_boundary es h n = elim h [ ]
  fits_loop-negative modes b (best_fitting _) es h n = elim h [ ]
  fits_loop-negative modes b (tag _) es h n = elim h [ ]

  fits_loop-wide :
      (modes : List (Option PrintMode)) (limit used : ℕ) (es rest : Elements)
      → ArePlain es
      → used ≤ limit
      → leb (used + total_cells es) limit ≡ false
      → fits_loop width modes region_end_group 1 0 0
          (sub_ℕ limit used)
          (append es (cons (tag end_group) rest))
        ≡ some false
  unfolding total_cells
  fits_loop-wide modes limit used nil rest h room wide = absurd (ground (arith, wide, room))
  fits_loop-wide modes limit used (cons e es) rest h room wide =
      let next = sub_sub limit used (cells e) in
      elim (Bool-cases (leb (used + cells e) limit)) [
        | inr over ↦
            fits_loop-negative modes (sub_ℕ limit used) e _ h.0
              (ap is_negative next ∙ ground (arith, over))
        | inl fits ↦
            let room' = leb→le (used + cells e) limit fits in
            fits_loop-cons modes (sub_ℕ limit used) e _ h.0
              (ap is_negative next ∙ sub-is_negative limit (used + cells e) room')
            ∙ ap
                (λ b.
                  fits_loop width modes region_end_group 1 0 0 b
                    (append es (cons (tag end_group) rest)))
                next
            ∙ fits_loop-wide modes limit (used + cells e) es rest h.1 room' (ground (arith, wide))
      ]

  -- The measuring of a group of texts, spaces and soft breaks compares the columns of all of them
  -- with what the line has left, if the line is not full already.
  pub fits_region-decides :
      (p : Printer) (es rest : Elements)
      → ArePlain es
      → reach p ≤ p.options.line_width
      → fits_region width p region_end_group (append es (cons (tag end_group) rest))
        ≡ some (leb (reach p + total_cells es) p.options.line_width)
  unfolding fits_region_with_extra
  fits_region-decides p es rest h room =
      elim (Bool-cases (leb (reach p + total_cells es) p.options.line_width)) [
        | inl fits ↦ fits_region-plain p es rest h (leb→le _ _ fits) ∙ ap some (sym fits)
        | inr wide ↦ rw (remaining_width_lem p) (
            fits_loop-wide p.group_modes p.options.line_width (reach p) es rest h room wide
            ∙ ap some (sym wide))
      ]
