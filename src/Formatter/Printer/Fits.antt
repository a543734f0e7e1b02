-- ===== src/Formatter/Printer/Fits.antt =====
-- Measuring in crates/luck_formatter/src/printer.rs: `fits_region` and what it uses. An index into
-- the elements is the stream from there on; `skip_region` gives the count of elements it passes.
use luck.Formatter.Buffer.{has_newline}
use luck.Formatter.Ir.{
  soft, soft_or_space, PrintMode, flat, expanded, start_group, end_group, start_entry, end_entry,
  start_conditional, end_conditional, start_line_suffix, end_line_suffix, FormatElement, token,
  text, space, line, expand_parent, line_suffix_boundary, best_fitting, tag, Elements, nil, cons,
  Variants, no_variant, variant,
}
use luck.Formatter.Printer.Expand.{GroupModes}
use luck.Formatter.Printer.State.{Indent, level, align, inactive, Printer}
use luck.Prelude.Int.{ℤ, sub_ℕ, ◌-ℤ◌, is_negative}
use luck.Prelude.{
  ℕ, zero, suc, ◌+◌, ◌-◌, Bool, true, false, ◌&&◌, Option, none, some, List, [], ◌∷◌, ◌==◌,
  if◌then◌else◌, ◌>>=◌, get_elem?, Bytes,
}

-- Region trackers take the depth and give whether they may end, and the depth.
unfoldable pub region_end_group : FormatElement → ℕ → Bool × ℕ
region_end_group (tag (start_group _)) depth = (false, depth + 1)
region_end_group (tag end_group) depth = (true, depth - 1)
region_end_group _ depth = (false, depth)

unfoldable pub region_end_entry : FormatElement → ℕ → Bool × ℕ
region_end_entry (tag start_entry) depth = (false, depth + 1)
region_end_entry (tag end_entry) depth = (true, depth - 1)
region_end_entry _ depth = (false, depth)

unfoldable pub region_whole : FormatElement → ℕ → Bool × ℕ
region_whole _ depth = (false, depth)

unfoldable pub is_start_conditional : FormatElement → Bool
is_start_conditional (tag (start_conditional _ _)) = true
is_start_conditional _ = false

unfoldable pub is_end_conditional : FormatElement → Bool
is_end_conditional (tag end_conditional) = true
is_end_conditional _ = false

unfoldable pub is_start_suffix : FormatElement → Bool
is_start_suffix (tag start_line_suffix) = true
is_start_suffix _ = false

unfoldable pub is_end_suffix : FormatElement → Bool
is_end_suffix (tag end_line_suffix) = true
is_end_suffix _ = false

-- The loop of `skip_region` at a depth that has come down to `suc d`.
skip_from : (FormatElement → Bool) → (FormatElement → Bool) → ℕ → Elements → ℕ
skip_from is_open is_close d nil = 0
skip_from is_open is_close d (cons e es) = elim (is_open e) [
  | true ↦ suc (skip_from is_open is_close (suc d) es)
  | false ↦ elim (is_close e) [
    | false ↦ suc (skip_from is_open is_close d es)
    | true ↦ elim d [ zero ↦ 1 | suc d' ↦ suc (skip_from is_open is_close d' es) ]
  ]
]

unfoldable pub skip_region : (FormatElement → Bool) → (FormatElement → Bool) → Elements → ℕ
unfolding skip_from
skip_region is_open is_close es = skip_from is_open is_close 0 es

abbrev pub sum_widths : Bool → ℕ → List Indent → ℕ
sum_widths use_tabs indent_width [] = 0
sum_widths use_tabs indent_width (level ∷ is) =
    (if use_tabs then 1 else indent_width) + sum_widths use_tabs indent_width is
sum_widths use_tabs indent_width (align n ∷ is) = n + sum_widths use_tabs indent_width is
sum_widths use_tabs indent_width (inactive ∷ is) = sum_widths use_tabs indent_width is

unfoldable pub pending_indent_width : Printer → ℕ
pending_indent_width p = sum_widths p.options.use_tabs p.options.indent_width p.indents

-- An `isize`, which does not overflow here.
unfoldable pub remaining_width : Printer → ℤ
unfolding pending_indent_width
remaining_width p =
    let pending_indent = if p.is_pending_indent then pending_indent_width p else 0 in
    sub_ℕ p.options.line_width p.column -ℤ pending_indent -ℤ (if p.is_pending_space then 1 else 0)

abbrev pub non_negative : ℤ → Option ℤ
non_negative b = if is_negative b then none else some b

-- `group_modes[id]`; the outer `none` is an index out of the table.
abbrev pub group_mode : GroupModes → ℕ → Option (Option PrintMode)
group_mode modes id = get_elem? modes id

-- What the `match` of `fits_region_with_extra` does at an element outside line suffixes.
pub data Measured : Type 0 where
  -- `return false`
  broken : Measured
  -- The budget behind the element.
  left : ℤ → Measured
  -- `continue` behind so many more elements.
  skipped : ℕ → Measured
  -- An index out of the table of groups.
  out_of_table : Measured

abbrev left_or_broken : Option ℤ → Measured
left_or_broken none = broken
left_or_broken (some b) = left b

abbrev pub mode_eq : PrintMode → PrintMode → Bool
mode_eq flat flat = true
mode_eq expanded expanded = true
mode_eq _ _ = false

abbrev flat_unless_decided : Option PrintMode → PrintMode
flat_unless_decided none = flat
flat_unless_decided (some m) = m

-- The arm of a conditional: its body counts if the group has the mode, or would have it.
unfoldable pub measure_conditional : GroupModes → PrintMode → ℕ → Elements → ℤ → Measured
unfolding skip_region is_start_conditional is_end_conditional
measure_conditional modes mode id rest budget = elim (group_mode modes id) [
  | none ↦ out_of_table
  | some decided ↦
      if mode_eq (flat_unless_decided decided) mode
      then left budget
      else skipped (skip_region is_start_conditional is_end_conditional rest)
]

module _ (width : Bytes → ℕ) where
  -- `fits_slice_flat`: the budget that is left, or `none` for `false`.
  unfoldable mutual
    pub fits_element_flat : FormatElement → ℤ → Option ℤ
    fits_element_flat (token content) budget = some (budget -ℤ width content)
    fits_element_flat (text content) budget =
        if has_newline content then none else some (budget -ℤ width content)
    fits_element_flat space budget = some (budget -ℤ 1)
    fits_element_flat (line soft_or_space) budget = some (budget -ℤ 1)
    fits_element_flat (line soft) budget = some budget
    fits_element_flat (line _) budget = none
    fits_element_flat expand_parent budget = none
    fits_element_flat line_suffix_boundary budget = some budget
    fits_element_flat (best_fitting variants) budget = fits_first_flat variants budget
    fits_element_flat (tag _) budget = some budget

    pub fits_slice_flat : Elements → ℤ → Option ℤ
    fits_slice_flat nil budget = some budget
    fits_slice_flat (cons e es) budget =
        fits_element_flat e budget >>= λ b. non_negative b >>= λ b'. fits_slice_flat es b'

    pub fits_first_flat : Variants → ℤ → Option ℤ
    fits_first_flat no_variant budget = some budget
    fits_first_flat (variant es _) budget = fits_slice_flat es budget

  -- The arms at an element, with the stream behind it.
  unfoldable pub measure : GroupModes → FormatElement → Elements → ℤ → Measured
  unfolding measure_conditional
  measure modes (tag (start_conditional mode id)) rest budget =
      measure_conditional modes mode id rest budget
  measure modes (tag _) rest budget = left budget
  measure modes (best_fitting variants) rest budget =
      left_or_broken (fits_first_flat variants budget)
  measure modes e rest budget = left_or_broken (fits_element_flat e budget)

  -- The `while` loop; `skip` elements are passed over first. `none` is a panic.
  unfoldable pub fits_loop :
      GroupModes → (FormatElement → ℕ → Bool × ℕ) → ℕ → ℕ → ℕ → ℤ → Elements → Option Bool
  unfolding measure is_start_suffix is_end_suffix
  fits_loop modes region depth suffix_depth skip budget nil = some true
  fits_loop modes region depth suffix_depth (suc skip) budget (cons e es) =
      fits_loop modes region depth suffix_depth skip budget es
  fits_loop modes region depth suffix_depth zero budget (cons e es) =
      let (ends, depth') = region e depth in
      let entered = if is_start_suffix e then suffix_depth + 1 else suffix_depth in
      let behind = if is_end_suffix e then suffix_depth - 1 else entered in
      elim (ends && depth' == 0) [
        | true ↦ some true
        | false ↦ elim (suffix_depth == 0) [
          | true ↦ elim (measure modes e es budget) [
            | broken ↦ some false
            | out_of_table ↦ none
            | skipped n ↦ fits_loop modes region depth' suffix_depth n budget es
            | left b ↦ elim (is_negative b) [
              | true ↦ some false
              | false ↦ fits_loop modes region depth' entered 0 b es
            ]
          ]
          | false ↦ elim (is_negative budget) [
            | true ↦ some false
            | false ↦ fits_loop modes region depth' behind 0 budget es
          ]
        ]
      ]

  unfoldable pub fits_region_with_extra :
      Printer → (FormatElement → ℕ → Bool × ℕ) → ℕ → Elements → Option Bool
  unfolding remaining_width
  fits_region_with_extra p region extra es =
      fits_loop p.group_modes region 1 0 0 (remaining_width p -ℤ extra) es

  abbrev pub fits_region : Printer → (FormatElement → ℕ → Bool × ℕ) → Elements → Option Bool
  fits_region p region es = fits_region_with_extra p region 0 es
