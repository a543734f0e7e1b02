-- ===== src/Tests/Layouts.antt =====
-- Documents laid out by the printer, each character one column wide.
use luck.Formatter.Ir.{
  soft_or_space, flat, append, expanded, start_group, end_group, start_indent, end_indent,
  start_conditional, end_conditional, FormatElement, token, text, space, line, tag, Elements, nil,
  cons,
}
use luck.Formatter.Printer.Expand.{propagate_expand, mark_elements, mark_stack}
use luck.Formatter.Printer.Fits.{
  fits_region, fits_region_with_extra, fits_loop, region_end_group, skip_region,
  is_start_conditional, is_end_conditional, fits_element_flat,
}
use luck.Formatter.Printer.Newlines.{Newline, emit_newline-Newline}
use luck.Formatter.Printer.Plain.{total_cells, fits_region-decides}
use luck.Formatter.Printer.Reach.{reach, Extends}
use luck.Formatter.Printer.Layout.OneLine.{more, printed_group, print_group_on_one_line}
use luck.Formatter.Printer.Layout.Fuel.{print-ends}
use luck.Formatter.Printer.Layout.{done, out_of_fuel, print, print_elements, new_printer}
use luck.Formatter.Printer.State.{
  Printer, PrinterOptions, emit_text, emit_newline, flush_suffixes, emit_suffixes,
}
use luck.Prelude.{
  ℕ, ◌≡◌, ◌≢◌, refl, List, [], ◌∷◌, codes, length, false, true, none, some, suc, ◌+◌, ◌≤◌, leb,
  arith,
}

abbrev options : ℕ → PrinterOptions
options w = record { line_width = w; use_tabs = false; indent_width = 4 }

abbrev document : List FormatElement → Elements
document [] = nil
document (e ∷ es) = cons e (document es)

abbrev braces : Elements
braces = document (
    tag (start_group 0)
    ∷ token (codes "{")
    ∷ tag start_indent
    ∷ line soft_or_space
    ∷ text (codes "x")
    ∷ tag (start_conditional expanded 0)
    ∷ token (codes ",")
    ∷ tag end_conditional
    ∷ tag end_indent
    ∷ line soft_or_space
    ∷ token (codes "}")
    ∷ tag end_group
    ∷ [])

flat_group : print length 40 braces 1 (options 80) ≡ done (codes "{ x }")
unfolding print print_elements emit_text emit_newline flush_suffixes propagate_expand mark_elements
    mark_stack fits_region_with_extra fits_loop region_end_group skip_region is_start_conditional
    is_end_conditional fits_element_flat
flat_group = refl

wide_group : print length 40 braces 1 (options 4) ≡ done (codes "{\n    x,\n}")
unfolding print print_elements emit_text emit_newline flush_suffixes propagate_expand mark_elements
    mark_stack fits_region_with_extra fits_loop region_end_group skip_region is_start_conditional
    is_end_conditional fits_element_flat
wide_group = refl

print-ends_example : print length 40 braces 1 (options 4) ≢ out_of_fuel
print-ends_example = print-ends length 40 braces 1 (options 4) (omega arith)

-- The elements between the braces of `{ x }`, without a conditional.
abbrev body : Elements
body = document (
    token (codes "{")
    ∷ line soft_or_space
    ∷ text (codes "x")
    ∷ line soft_or_space
    ∷ token (codes "}")
    ∷ [])

abbrev fresh : Printer
fresh = new_printer (options 5) (none ∷ [])

fits_region-decides_example :
    fits_region length fresh region_end_group (append body (cons (tag end_group) nil))
    ≡ some (leb (reach fresh + total_cells length body) 5)
fits_region-decides_example =
    fits_region-decides length fresh body nil (refl, (tt, (refl, (tt, (refl, tt)))))
      (unfold reach in omega arith)

print_group_on_one_line_example :
    (print_elements length
        (suc (more length body 3))
        fresh
        (cons (tag (start_group 0)) (append body (cons (tag end_group) nil)))
      ≡ print_elements length 2 (printed_group length fresh 0 body) nil)
    × Extends
        (total_cells length body)
        (record fresh { group_modes = some flat ∷ [] })
        (printed_group length fresh 0 body)
    × (reach (printed_group length fresh 0 body) ≤ 5)
print_group_on_one_line_example =
    print_group_on_one_line length fresh 0 1 body nil refl (refl, (tt, (refl, (tt, (refl, tt)))))
      (unfold reach total_cells in omega arith)

-- A line with blanks at its end and a comment that waits for the line break.
abbrev waiting : Printer
waiting = record fresh {
  output = codes "x \t";
  column = 3;
  suffixes = document (space ∷ token (codes "--c ") ∷ []);
}

breaks_line : (emit_newline length waiting true).output ≡ codes "x \t --c\n\n"
unfolding emit_newline emit_text flush_suffixes emit_suffixes
breaks_line = refl

emit_newline-Newline_example : Newline length true waiting (emit_newline length waiting true)
emit_newline-Newline_example = emit_newline-Newline length waiting true
