-- ===== src/Formatter/Ir.antt =====
-- crates/luck_formatter/src/ir.rs: the element stream of a document.
use luck.Prelude.{ℕ, zero, suc, Bytes}

-- `GroupId`
abbrev pub GroupId : Type 0
GroupId = ℕ

pub data LineMode : Type 0 where
  soft soft_or_space hard empty : LineMode

pub data PrintMode : Type 0 where
  flat expanded : PrintMode

pub data Tag : Type 0 where
  start_group : GroupId → Tag
  end_group : Tag
  start_indent end_indent : Tag
  start_align : ℕ → Tag
  end_align : Tag
  start_conditional : PrintMode → GroupId → Tag
  end_conditional : Tag
  start_indent_if_group_breaks : GroupId → Tag
  end_indent_if_group_breaks : Tag
  start_fill end_fill : Tag
  start_entry end_entry : Tag
  start_line_suffix end_line_suffix : Tag

-- `Vec<FormatElement>` and `Vec<Vec<FormatElement>>` are types of the block.
mutual
  pub data FormatElement : Type 0 where
    token : Bytes → FormatElement
    text : Bytes → FormatElement
    space : FormatElement
    line : LineMode → FormatElement
    expand_parent : FormatElement
    line_suffix_boundary : FormatElement
    best_fitting : Variants → FormatElement
    tag : Tag → FormatElement

  pub data Elements : Type 0 where
    nil : Elements
    cons : FormatElement → Elements → Elements

  pub data Variants : Type 0 where
    no_variant : Variants
    variant : Elements → Variants → Variants

abbrev pub count : Elements → ℕ
count nil = 0
count (cons e es) = suc (count es)

-- `elements[n..]` and `elements[..n]`
abbrev pub drop_elements : ℕ → Elements → Elements
drop_elements zero es = es
drop_elements (suc n) nil = nil
drop_elements (suc n) (cons e es) = drop_elements n es

abbrev pub take_elements : ℕ → Elements → Elements
take_elements zero es = nil
take_elements (suc n) nil = nil
take_elements (suc n) (cons e es) = cons e (take_elements n es)

abbrev pub append : Elements → Elements → Elements
append nil fs = fs
append (cons e es) fs = cons e (append es fs)
