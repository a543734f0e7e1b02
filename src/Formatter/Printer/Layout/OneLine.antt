-- ===== src/Formatter/Printer/Layout/OneLine.antt =====
-- Printing a group of texts, spaces and soft breaks in crates/luck_formatter/src/printer.rs.
use luck.Formatter.Ir.{
  soft, soft_or_space, hard, empty, flat, expanded, start_group, end_group, FormatElement, token,
  text, space, line, expand_parent, line_suffix_boundary, best_fitting, tag, Elements, nil, cons,
  append, PrintMode,
}
use luck.Formatter.Printer.Expand.{set_mode}
use luck.Formatter.Printer.Fits.{pending_indent_width, group_mode}
use luck.Formatter.Printer.Layout.{
  done, print_elements, print_element, print_line, print_plain_tag, print_group, group_decision,
  push_mode, pop_mode, ◌>>=◌,
}
use luck.Formatter.Printer.Reach.{
  reach, Extends, Extends-trans, same-Extends, pending_space-Extends, emit_text-Extends,
}
use luck.Formatter.Printer.State.{Printer, current_mode, emit_text}
use luck.Prelude.{
  ℕ, suc, ◌+◌, ◌≤◌, ◌≡◌, refl, ap, ◌∙◌, ◌⊎◌, inl, inr, true, Option, none, some, List, Bytes, arith,
}
use luck.Formatter.Printer.Plain.{IsPlain, ArePlain, cells, total_cells, fits_region-plain}

mode-cases : (m : PrintMode) → (m ≡ flat) ⊎ (m ≡ expanded)
mode-cases flat = inl refl
mode-cases expanded = inr refl

module _ (width : Bytes → ℕ) where
  -- What the print loop does at a plain element in a flat group.
  unfoldable pub print_flat_element : Printer → FormatElement → Printer
  print_flat_element p (token content) = emit_text width p content
  print_flat_element p (text content) = emit_text width p content
  print_flat_element p space = record p { is_pending_space = true }
  print_flat_element p (line soft_or_space) = record p { is_pending_space = true }
  print_flat_element p _ = p

  unfoldable pub print_flat : Printer → Elements → Printer
  unfolding print_flat_element
  print_flat p nil = p
  print_flat p (cons e es) = print_flat (print_flat_element p e) es

  print_flat_element-Extends :
      (p : Printer) (e : FormatElement)
      → IsPlain e
      → Extends (cells width e) p (print_flat_element p e)
  unfolding cells print_flat_element
  print_flat_element-Extends p (token content) h = emit_text-Extends width p content h
  print_flat_element-Extends p (text content) h = emit_text-Extends width p content h
  print_flat_element-Extends p space h = pending_space-Extends p
  print_flat_element-Extends p (line soft) h = same-Extends p
  print_flat_element-Extends p (line soft_or_space) h = pending_space-Extends p
  print_flat_element-Extends p (line hard) h = elim h [ ]
  print_flat_element-Extends p (line empty) h = elim h [ ]
  print_flat_element-Extends p expand_parent h = elim h [ ]
  print_flat_element-Extends p line_suffix_boundary h = elim h [ ]
  print_flat_element-Extends p (best_fitting _) h = elim h [ ]
  print_flat_element-Extends p (tag _) h = elim h [ ]

  print_flat-Extends :
      (p : Printer) (es : Elements)
      → ArePlain es
      → Extends (total_cells width es) p (print_flat p es)
  unfolding total_cells print_flat
  print_flat-Extends p nil h = same-Extends p
  print_flat-Extends p (cons e es) h =
      Extends-trans (cells width e) (total_cells width es) (total_cells width (cons e es)) p
        (print_flat_element p e) _ refl (print_flat_element-Extends p e h.0)
        (print_flat-Extends (print_flat_element p e) es h.1)

  -- Fuel for the elements and `f` more.
  abbrev pub more : Elements → ℕ → ℕ
  more nil f = f
  more (cons e es) f = suc (more es f)

  print_element-plain :
      (f : ℕ) (p : Printer) (e : FormatElement) (rest : Elements)
      → IsPlain e
      → current_mode p ≡ flat
      → print_element width (suc f) p e rest ≡ done (print_flat_element p e, rest)
  unfolding print_element print_flat_element print_line
  print_element-plain f p (token content) rest h m = refl
  print_element-plain f p (text content) rest h m = refl
  print_element-plain f p space rest h m = refl
  print_element-plain f p (line soft) rest h m = rw (m, print_line) refl
  print_element-plain f p (line soft_or_space) rest h m = rw (m, print_line) refl
  print_element-plain f p (line hard) rest h m = elim h [ ]
  print_element-plain f p (line empty) rest h m = elim h [ ]
  print_element-plain f p expand_parent rest h m = elim h [ ]
  print_element-plain f p line_suffix_boundary rest h m = elim h [ ]
  print_element-plain f p (best_fitting _) rest h m = elim h [ ]
  print_element-plain f p (tag _) rest h m = elim h [ ]

  print_element-more :
      (es : Elements) (f : ℕ) (p : Printer) (e : FormatElement) (rest : Elements)
      → IsPlain e
      → current_mode p ≡ flat
      → print_element width (more es (suc f)) p e rest ≡ done (print_flat_element p e, rest)
  print_element-more nil f p e rest h m = print_element-plain f p e rest h m
  print_element-more (cons e' es) f p e rest h m =
      print_element-plain (more es (suc f)) p e rest h m

  print_elements-plain :
      (es : Elements) (f : ℕ) (p : Printer) (rest : Elements)
      → ArePlain es
      → current_mode p ≡ flat
      → print_elements width (more es (suc f)) p (append es rest)
        ≡ print_elements width (suc f) (print_flat p es) rest
  unfolding print_elements print_flat
  print_elements-plain nil f p rest h m = refl
  print_elements-plain (cons e es) f p rest h m =
      let next = print_flat_element p e in
      let stays : current_mode next ≡ flat =
        ap (λ ms. current_mode (record p { modes = ms })) (print_flat_element-Extends p e h.0).modes
        ∙ m in
      ap (λ r. r >>= λ n. print_elements width (more es (suc f)) n.0 n.1)
        (print_element-more es f p e (append es rest) h.0 m)
      ∙ print_elements-plain es f next rest h.1 stays

  group_decision-flat :
      (p : Printer) (es rest : Elements)
      → ArePlain es
      → reach p + total_cells width es ≤ p.options.line_width
      → group_decision width p none (append es (cons (tag end_group) rest)) ≡ done flat
  unfolding group_decision
  group_decision-flat p es rest h le = elim (mode-cases (current_mode p)) [
    | inl m ↦ rw (m, group_decision) refl
    | inr m ↦ rw (m, fits_region-plain width p es rest h le, group_decision) refl
  ]

  print_element-group :
      (es : Elements) (f : ℕ) (p : Printer) (id : ℕ) (rest : Elements)
      → print_element width (more es (suc f)) p (tag (start_group id)) rest
        ≡ print_group width p id rest
  unfolding print_element print_plain_tag
  print_element-group nil f p id rest = refl
  print_element-group (cons e es) f p id rest = refl

  print_group-flat :
      (p : Printer) (id : ℕ) (es rest : Elements)
      → group_mode p.group_modes id ≡ some none
      → ArePlain es
      → reach p + total_cells width es ≤ p.options.line_width
      → print_group width p id (append es (cons (tag end_group) rest))
        ≡ done (
          push_mode (record p { group_modes = set_mode p.group_modes id flat }) flat,
          append es (cons (tag end_group) rest),
        )
  unfolding print_group
  print_group-flat p id es rest undecided h le =
      simp (undecided, group_decision-flat p es rest h le) refl

  -- The printer behind the group.
  abbrev pub printed_group : Printer → ℕ → Elements → Printer
  printed_group p id es =
      pop_mode
        (print_flat (push_mode (record p { group_modes = set_mode p.group_modes id flat }) flat) es)

  printed_group-Extends :
      (p : Printer) (id : ℕ) (es : Elements)
      → ArePlain es
      → Extends
          (total_cells width es)
          (record p { group_modes = set_mode p.group_modes id flat })
          (printed_group p id es)
  unfolding reach pending_indent_width
  printed_group-Extends p id es h =
      let p1 = push_mode (record p { group_modes = set_mode p.group_modes id flat }) flat in
      let x = print_flat-Extends p1 es h in
      record {
        options = x.options;
        modes = ap (λ ms. (pop_mode (record p1 { modes = ms })).modes) x.modes;
        group_modes = x.group_modes;
        indents = x.indents;
        within = x.within;
        added = x.added;
        output = x.output;
        no_newline = x.no_newline;
      }

  reach_group_modes :
      (p : Printer) (modes : List (Option PrintMode))
      → reach (record p { group_modes = modes }) ≡ reach p
  unfolding reach pending_indent_width
  reach_group_modes p modes = refl

  print_end_group :
      (f : ℕ) (p : Printer) (rest : Elements)
      → print_elements width (suc (suc f)) p (cons (tag end_group) rest)
        ≡ print_elements width (suc f) (pop_mode p) rest
  unfolding print_elements print_element print_plain_tag
  print_end_group f p rest = refl

  -- A group of texts, spaces and soft breaks that no forced break has decided, and whose columns fit
  -- what the line has left, is laid out on that line, with fuel for its elements: it adds its
  -- columns at most and no line break, stays within the line width, and leaves the stacks of modes
  -- and indents as they were.
  pub print_group_on_one_line :
      (p : Printer) (id f : ℕ) (es rest : Elements)
      → group_mode p.group_modes id ≡ some none
      → ArePlain es
      → reach p + total_cells width es ≤ p.options.line_width
      → (print_elements width
            (suc (more es (suc (suc f))))
            p
            (cons (tag (start_group id)) (append es (cons (tag end_group) rest)))
          ≡ print_elements width (suc f) (printed_group p id es) rest)
        × Extends
            (total_cells width es)
            (record p { group_modes = set_mode p.group_modes id flat })
            (printed_group p id es)
        × (reach (printed_group p id es) ≤ p.options.line_width)
  unfolding print_elements
  print_group_on_one_line p id f es rest undecided h le =
      let p1 = push_mode (record p { group_modes = set_mode p.group_modes id flat }) flat in
      let extends = printed_group-Extends p id es h in
      (
        ap (λ r. r >>= λ n. print_elements width (more es (suc (suc f))) n.0 n.1)
              (print_element-group es (suc f) p id (append es (cons (tag end_group) rest))
                ∙ print_group-flat p id es rest undecided h le)
            ∙ print_elements-plain es (suc f) p1 (cons (tag end_group) rest) h refl
            ∙ print_end_group f (print_flat p1 es) rest,
        extends,
        omega (arith, le, extends.within, reach_group_modes p (set_mode p.group_modes id flat)),
      )
