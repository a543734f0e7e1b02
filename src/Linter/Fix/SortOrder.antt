-- ===== src/Linter/Fix/SortOrder.antt =====
-- The order in which the edits of crates/luck_linter/src/fix.rs are sorted is total, and so the
-- sorted edits do not depend on the order in which the rules reported them.
use luck.Linter.Fix.{
  TextEdit, Order, less, equal, greater, u32_max, cmp_bytes, cmp_edits, insert_edit, sort_edits,
  collect_edits, apply_one_pass, apply_edits, LintDiagnostic,
}
use luck.Prelude.{◌≤◌, ◌≡◌, ◌≢◌, refl, sym, ap, ap₂, ◌∙◌, List, [], ◌∷◌, Option, some, arith, Bytes}
use mathlib.Core.List.{Perm, Permᴰ}
use mathlib.Core.Logic.{∥∥₁_elim}

abbrev flip : Order → Order
flip less = greater
flip equal = equal
flip greater = less

cmp_bytes-flip : (x y : Bytes) → cmp_bytes y x ≡ flip (cmp_bytes x y)
unfolding cmp_bytes
cmp_bytes-flip [] [] = refl
cmp_bytes-flip [] (b ∷ y) = refl
cmp_bytes-flip (a ∷ x) [] = refl
cmp_bytes-flip (a ∷ x) (b ∷ y) = ground (arith, cmp_bytes-flip x y)

cmp_bytes-equal : (x y : Bytes) → cmp_bytes x y ≡ equal → x ≡ y
unfolding cmp_bytes
cmp_bytes-equal [] [] h = refl
cmp_bytes-equal [] (b ∷ y) h = cc
cmp_bytes-equal (a ∷ x) [] h = cc
cmp_bytes-equal (a ∷ x) (b ∷ y) h = ground (arith, cmp_bytes-equal x y)

cmp_bytes_refl : (x : Bytes) → cmp_bytes x x ≡ equal
unfolding cmp_bytes
cmp_bytes_refl [] = refl
cmp_bytes_refl (a ∷ x) = ground (arith, cmp_bytes_refl x)

cmp_bytes_trans :
    (x y z : Bytes) → cmp_bytes x y ≢ greater → cmp_bytes y z ≡ less → cmp_bytes x z ≡ less
unfolding cmp_bytes
cmp_bytes_trans [] [] z h k = k
cmp_bytes_trans [] (b ∷ y) [] h k = cc
cmp_bytes_trans [] (b ∷ y) (c ∷ z) h k = refl
cmp_bytes_trans (a ∷ x) [] z h k = absurd (h refl)
cmp_bytes_trans (a ∷ x) (b ∷ y) [] h k = cc
cmp_bytes_trans (a ∷ x) (b ∷ y) (c ∷ z) h k = ground (arith, cmp_bytes_trans x y z)

cmp_edits-flip : (e f : TextEdit) → cmp_edits f e ≡ flip (cmp_edits e f)
unfolding cmp_edits
cmp_edits-flip e f = ground (arith, cmp_bytes-flip e.replacement f.replacement)

cmp_edits-equal : (e f : TextEdit) → cmp_edits e f ≡ equal → e ≡ f
unfolding cmp_edits
cmp_edits-equal e f h = ground (arith, cmp_bytes-equal e.replacement f.replacement)

cmp_edits_trans :
    (e f g : TextEdit) → cmp_edits e f ≢ greater → cmp_edits f g ≡ less → cmp_edits e g ≡ less
unfolding cmp_edits
cmp_edits_trans e f g h k =
    ground (arith, cmp_bytes_trans e.replacement f.replacement g.replacement)

insert_edit_comm :
    (a b : TextEdit) (l : List TextEdit)
    → insert_edit a (insert_edit b l) ≡ insert_edit b (insert_edit a l)
unfolding insert_edit
insert_edit_comm a b [] = ground (arith, cmp_edits-flip a b, cmp_edits-equal a b)
insert_edit_comm a b (f ∷ fs) = ground (
  arith,
  insert_edit_comm a b fs,
  cmp_edits-flip a b,
  cmp_edits-flip a f,
  cmp_edits-flip b f,
  cmp_edits-equal a b,
  cmp_edits_trans b f a,
  cmp_edits_trans a f b,
)

sort_edits-perm_d : {l m : List TextEdit} → Permᴰ l m → sort_edits l ≡ sort_edits m
unfolding sort_edits
sort_edits-perm_d Permᴰ.nil = refl
sort_edits-perm_d (Permᴰ.cons e p) = ap₂ insert_edit e (sort_edits-perm_d p)
sort_edits-perm_d (Permᴰ.swap {a} {b} {l = l} e f) = insert_edit_comm a b (sort_edits l) ∙ rw (e, f)
sort_edits-perm_d (Permᴰ.trans p q) = sort_edits-perm_d p ∙ sort_edits-perm_d q

sort_edits-perm : (l m : List TextEdit) → Perm l m → sort_edits l ≡ sort_edits m
sort_edits-perm l m p = ∥∥₁_elim p (edits_set _ _) sort_edits-perm_d
  where
    edits_set : IsSet (List TextEdit)
    edits_set = hlevel

-- With no edits the loop leaves the source as the early return does.
pub apply_one_pass_lem :
    (source : Bytes) (ds : List LintDiagnostic)
    → apply_one_pass source ds ≡ apply_edits u32_max source (sort_edits (collect_edits ds))
unfolding apply_one_pass
apply_one_pass_lem source ds = by_edits (collect_edits ds)
  where
    by_edits :
        (l : List TextEdit)
        → (elim l as (λ _. Option Bytes) [
          | [] ↦ some source
          | e ∷ es ↦ apply_edits u32_max source (sort_edits (e ∷ es))
        ])
          ≡ apply_edits u32_max source (sort_edits l)
    by_edits [] = unfold apply_edits sort_edits in refl
    by_edits (e ∷ es) = refl

-- The result of a pass depends on which edits were reported, and not on their order.
pub apply_one_pass-perm :
    (source : Bytes) (ds ds' : List LintDiagnostic)
    → Perm (collect_edits ds) (collect_edits ds')
    → apply_one_pass source ds ≡ apply_one_pass source ds'
apply_one_pass-perm source ds ds' p =
    apply_one_pass_lem source ds
    ∙ ap (apply_edits u32_max source) (sort_edits-perm _ _ p)
    ∙ sym (apply_one_pass_lem source ds')

-- An edit that is not sorted behind another does not start before it.
pub cmp_edits-start : (e f : TextEdit) → cmp_edits e f ≢ greater → f.span.start ≤ e.span.start
unfolding cmp_edits
cmp_edits-start e f h = ground arith

pub cmp_edits-greater : (e f : TextEdit) → cmp_edits e f ≡ greater → e.span.start ≤ f.span.start
unfolding cmp_edits
cmp_edits-greater e f h = ground arith
