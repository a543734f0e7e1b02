-- ===== src/Formatter/Printer/Expand.antt =====
-- `propagate_expand` of crates/luck_formatter/src/printer.rs. An index out of the table of groups is
-- a panic, `none`; the depth of line suffixes is a `u32` that wraps.
use luck.Formatter.Buffer.{has_newline}
use luck.Formatter.Ir.{
  GroupId, hard, empty, PrintMode, expanded, start_group, end_group, start_line_suffix,
  end_line_suffix, FormatElement, token, text, space, line, expand_parent, line_suffix_boundary,
  best_fitting, tag, Elements, nil, cons, Variants, no_variant, variant, Tag, LineMode,
}
use luck.Prelude.{
  ℕ, zero, suc, ◌+◌, ◌-◌, ◌%◌, ◌^◌, Option, none, some, List, [], ◌∷◌, ◌==◌, ltb, if◌then◌else◌,
  ◌>>=◌, length,
}

abbrev pub GroupModes : Type 0
GroupModes = List (Option PrintMode)

abbrev pub set_mode : GroupModes → ℕ → PrintMode → GroupModes
set_mode [] i m = []
set_mode (_ ∷ ms) zero m = some m ∷ ms
set_mode (o ∷ ms) (suc i) m = o ∷ set_mode ms i m

-- `group_modes[id] = Some(Expanded)` for each group of the stack.
unfoldable pub mark_stack : List GroupId → GroupModes → Option GroupModes
mark_stack [] modes = some modes
mark_stack (id ∷ ids) modes =
    let rest = mark_stack ids (set_mode modes id expanded) in
    if ltb id (length modes) then rest else none

-- The two variables of the loop, and the table.
pub record Marking : Type 0 where
  pub group_stack : List GroupId
  pub suffix_depth : ℕ
  pub group_modes : GroupModes

abbrev pop_group : List GroupId → List GroupId
pop_group [] = []
pop_group (_ ∷ ids) = ids

abbrev pub force_break : Marking → Option Marking
force_break m =
    if m.suffix_depth == 0
    then (mark_stack m.group_stack m.group_modes >>= λ modes.
        some (record m { group_modes = modes }))
    else some m

unfoldable pub mark_tag : Marking → Tag → Marking
mark_tag m (start_group id) = record m { group_stack = id ∷ m.group_stack }
mark_tag m end_group = record m { group_stack = pop_group m.group_stack }
mark_tag m start_line_suffix = record m { suffix_depth = (m.suffix_depth + 1) % 2 ^ 32 }
mark_tag m end_line_suffix = record m { suffix_depth = (m.suffix_depth + 2 ^ 32 - 1) % 2 ^ 32 }
mark_tag m _ = m

unfoldable pub mark_line : Marking → LineMode → Option Marking
mark_line m hard = force_break m
mark_line m empty = force_break m
mark_line m _ = some m

abbrev pub start_marking : GroupModes → Marking
start_marking modes = record { group_stack = []; suffix_depth = 0; group_modes = modes }

abbrev pub with_modes : Marking → GroupModes → Marking
with_modes m modes = record m { group_modes = modes }

-- One element, the loop over a slice, and the loop over variants, which each start anew.
unfoldable mutual
  unfolding mark_tag mark_line

  pub mark_element : Marking → FormatElement → Option Marking
  mark_element m (token _) = some m
  mark_element m (text content) = if has_newline content then force_break m else some m
  mark_element m space = some m
  mark_element m (line mode) = mark_line m mode
  mark_element m expand_parent = force_break m
  mark_element m line_suffix_boundary = some m
  mark_element m (best_fitting variants) =
      mark_variants m.group_modes variants >>= λ modes. some (with_modes m modes)
  mark_element m (tag t) = some (mark_tag m t)

  pub mark_elements : Marking → Elements → Option Marking
  mark_elements m nil = some m
  mark_elements m (cons e es) = mark_element m e >>= λ m'. mark_elements m' es

  pub mark_variants : GroupModes → Variants → Option GroupModes
  mark_variants modes no_variant = some modes
  mark_variants modes (variant es vs) =
      mark_elements (start_marking modes) es >>= λ m. mark_variants m.group_modes vs

unfoldable pub propagate_expand : Elements → GroupModes → Option GroupModes
propagate_expand es modes = mark_elements (start_marking modes) es >>= λ m. some m.group_modes
