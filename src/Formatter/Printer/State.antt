-- ===== src/Formatter/Printer/State.antt =====
-- The `Printer` of crates/luck_formatter/src/printer.rs, and the methods that emit text and line
-- breaks. The display width of a text, `UnicodeWidthStr::width`, is a parameter. Assertions that
-- only a debug build checks are left out.
use luck.Formatter.Buffer.{ends_with_blank_line, rfind_newline, trimmed_end, print_repeat}
use luck.Formatter.Ir.{PrintMode, expanded, token, text, space, Elements, nil, cons}
use luck.Prelude.{
  ℕ, zero, suc, ◌+◌, ◌-◌, ◌*◌, Bool, true, false, not, Option, none, some, List, [], ◌∷◌, ◌++◌,
  if◌then◌else◌, take, drop, length, Bytes,
}

pub record PrinterOptions : Type 0 where
  pub line_width : ℕ
  pub use_tabs : Bool
  pub indent_width : ℕ

pub data Indent : Type 0 where
  level : Indent
  align : ℕ → Indent
  inactive : Indent

-- The top of the stacks `indents` and `modes` is their head.
pub record Printer : Type 0 where
  pub options : PrinterOptions
  pub output : Bytes
  pub line_start : ℕ
  pub column : ℕ
  pub indents : List Indent
  pub modes : List PrintMode
  pub group_modes : List (Option PrintMode)
  pub suffixes : Elements
  pub is_pending_space : Bool
  pub is_pending_indent : Bool

abbrev mode_on : List PrintMode → PrintMode
mode_on [] = expanded
mode_on (m ∷ _) = m

abbrev pub current_mode : Printer → PrintMode
current_mode p = mode_on p.modes

-- The count of the levels on the stack, and the sum of its alignments.
abbrev pub count_levels : List Indent → ℕ
count_levels [] = 0
count_levels (level ∷ is) = suc (count_levels is)
count_levels (_ ∷ is) = count_levels is

abbrev pub sum_aligns : List Indent → ℕ
sum_aligns [] = 0
sum_aligns (align n ∷ is) = n + sum_aligns is
sum_aligns (_ ∷ is) = sum_aligns is

unfoldable pub flush_indent : Printer → Printer
flush_indent p =
    let width = count_levels p.indents in
    let align_extra = sum_aligns p.indents in
    let spaces = width * p.options.indent_width in
    let indented =
      if p.options.use_tabs
      then print_repeat p.output b'\t' width
      else print_repeat p.output b' ' spaces in
    let cells = if p.options.use_tabs then width else spaces in
    record p {
      is_pending_indent = false;
      output = print_repeat indented b' ' align_extra;
      column = p.column + cells + align_extra;
    }

abbrev pub flush_pending_indent : Printer → Printer
flush_pending_indent p = if p.is_pending_indent then flush_indent p else p

abbrev pub flush_pending_space : Printer → Printer
flush_pending_space p =
    if p.is_pending_space
    then record p {
      is_pending_space = false;
      output = p.output ++ b' ' ∷ [];
      column = p.column + 1;
    }
    else p

unfoldable pub trim_trailing_whitespace : Printer → Printer
unfolding trimmed_end
trim_trailing_whitespace p = record p {
  output = take (trimmed_end p.output p.line_start (length p.output)) p.output;
}

-- `while !output.ends_with("\n\n") { output.push('\n') }`: two rounds end it.
unfoldable pub push_blank_line : ℕ → Bytes → Bytes
push_blank_line zero out = out
push_blank_line (suc f) out =
    let longer = push_blank_line f (out ++ b'\n' ∷ []) in
    if ends_with_blank_line out then out else longer

-- The line breaks that `emit_newline` appends to the trimmed output.
unfoldable pub push_newlines : Bool → Bytes → Bytes
unfolding push_blank_line ends_with_blank_line
push_newlines is_blank_line out =
    if is_blank_line
    then push_blank_line 2 out
    else if not (ends_with_blank_line out)
    then out ++ b'\n' ∷ []
    else out

module _ (width : Bytes → ℕ) where
  unfoldable pub emit_text : Printer → Bytes → Printer
  unfolding flush_indent rfind_newline
  emit_text p0 content =
      let p = flush_pending_space (flush_pending_indent p0) in
      let output = p.output ++ content in
      elim (rfind_newline content) [
        | some last_newline ↦ record p {
          output = output;
          line_start = length output - (length content - last_newline - 1);
          column = width (drop (last_newline + 1) content);
        }
        | none ↦ record p { output = output; column = p.column + width content }
      ]

  -- The loop over the queue that `flush_suffixes` took.
  unfoldable pub emit_suffixes : Printer → Elements → Printer
  emit_suffixes p nil = p
  emit_suffixes p (cons (token content) es) = emit_suffixes (emit_text p content) es
  emit_suffixes p (cons (text content) es) = emit_suffixes (emit_text p content) es
  emit_suffixes p (cons space es) = emit_suffixes (record p { is_pending_space = true }) es
  emit_suffixes p (cons _ es) = emit_suffixes p es

  unfoldable pub flush_suffixes : Printer → Printer
  unfolding emit_suffixes
  flush_suffixes p = emit_suffixes (record p { suffixes = nil }) p.suffixes

  unfoldable pub emit_newline : Printer → Bool → Printer
  unfolding flush_suffixes trim_trailing_whitespace push_newlines
  emit_newline p0 is_blank_line =
      let flushed = flush_suffixes p0 in
      let p = trim_trailing_whitespace (record flushed { is_pending_space = false }) in
      let output = push_newlines is_blank_line p.output in
      record p { output = output; line_start = length output; column = 0; is_pending_indent = true }
