-- ===== src/Linter/Fix/Accepted.antt =====
-- A pass of crates/luck_linter/src/fix.rs as a whole: which edits it makes, and on which text.
use luck.Linter.Fix.SortOrder.{apply_one_pass_lem, cmp_edits-start, cmp_edits-greater}
use luck.Linter.Fix.Splice.{Fits, accepted, spliced, apply_edits-spliced}
use luck.Linter.Fix.{
  TextEdit, greater, begins_char, cmp_edits, insert_edit, sort_edits, collect_edits, apply_one_pass,
  LintDiagnostic, u32_max,
}
use mathlib.Core.List.{Mem, mem-cons}
use mathlib.Core.Logic.Or
use mathlib.Core.Path.{subst}
use luck.Prelude.{
  ℕ, ◌≤◌, ◌<◌, ◌≡◌, ◌⊎◌, inl, inr, ◌≢◌, refl, sym, ap, ◌∙◌, true, List, [], ◌∷◌, some, arith, leb,
  leb→le, Bool-cases, All, take, length, append-nil, take_prefix, Bytes,
}

-- The two ways an edit is inserted in front of a non-empty list.
insert_edit-cases :
    (e f : TextEdit) (fs : List TextEdit)
    → ((cmp_edits e f ≡ greater) × (insert_edit e (f ∷ fs) ≡ f ∷ insert_edit e fs))
      ⊎ ((cmp_edits e f ≢ greater) × (insert_edit e (f ∷ fs) ≡ e ∷ f ∷ fs))
unfolding insert_edit
insert_edit-cases e f fs = ground arith

insert_edit-All :
    (P : TextEdit → Type 0) (e : TextEdit) (l : List TextEdit)
    → P e
    → All P l
    → All P (insert_edit e l)
insert_edit-All P e [] h k = unfold insert_edit in (h, tt)
insert_edit-All P e (f ∷ fs) h k = elim (insert_edit-cases e f fs) [
  | inl (o, eq) ↦ rw eq (k.0, insert_edit-All P e fs h k.1)
  | inr (o, eq) ↦ rw eq (h, k)
]

sort_edits-All : (P : TextEdit → Type 0) (l : List TextEdit) → All P l → All P (sort_edits l)
unfolding sort_edits
sort_edits-All P [] h = tt
sort_edits-All P (e ∷ l) h = insert_edit-All P e (sort_edits l) h.0 (sort_edits-All P l h.1)

-- Every edit starts where those behind it do, or later.
abbrev Descends : List TextEdit → Type 0
Descends [] = Unit
Descends (e ∷ es) = All (λ f. f.span.start ≤ e.span.start) es × Descends es

All-le :
    (es : List TextEdit) (a b : ℕ)
    → a ≤ b
    → All (λ f. f.span.start ≤ a) es
    → All (λ f. f.span.start ≤ b) es
All-le [] a b h k = tt
All-le (e ∷ es) a b h k = (omega arith, All-le es a b h k.1)

insert_edit-Descends : (e : TextEdit) (l : List TextEdit) → Descends l → Descends (insert_edit e l)
insert_edit-Descends e [] h = unfold insert_edit in (tt, tt)
insert_edit-Descends e (f ∷ fs) h = elim (insert_edit-cases e f fs) [
  | inl (o, eq) ↦ rw eq (
    insert_edit-All (λ g. g.span.start ≤ f.span.start) e fs (cmp_edits-greater e f o) h.0,
    insert_edit-Descends e fs h.1,
  )
  | inr (o, eq) ↦
      let le = cmp_edits-start e f o in rw eq ((le, All-le fs f.span.start e.span.start le h.0), h)
]

sort_edits-Descends : (l : List TextEdit) → Descends (sort_edits l)
unfolding sort_edits
sort_edits-Descends [] = tt
sort_edits-Descends (e ∷ l) = insert_edit-Descends e (sort_edits l) (sort_edits-Descends l)

take_whole : (s : Bytes) → take (length s) s ≡ s
take_whole s = ap (take (length s)) (sym (append-nil s)) ∙ take_prefix s []

-- A pass over edits that lie in the source and cut no character of it, which starts with a whole
-- one, makes the accepted ones, each on the part of the source that is still untouched, and never
-- panics.
pub apply_one_pass-spliced :
    (source : Bytes) (ds : List LintDiagnostic)
    → begins_char source ≡ true
    → All (Fits source) (collect_edits ds)
    → apply_one_pass source ds
      ≡ some (spliced source (accepted u32_max (sort_edits (collect_edits ds))))
apply_one_pass-spliced source ds text fits =
    let es = sort_edits (collect_edits ds) in
    apply_one_pass_lem source ds
    ∙ (simp (take_whole source, append-nil) at
        (apply_edits-spliced source text es u32_max (length source) []
          (sort_edits-All (Fits source) (collect_edits ds) fits) refl
          (λ k _ h. rw (take_whole source) h)))

-- The accepted edits do not overlap: each ends where the one before it starts, or earlier.
abbrev pub Apart : ℕ → List TextEdit → Type 0
Apart last [] = Unit
Apart last (e ∷ es) = (e.span.end ≤ last) × Apart e.span.start es

accepted-Apart : (last : ℕ) (es : List TextEdit) → Apart last (accepted last es)
unfolding accepted
accepted-Apart last [] = tt
accepted-Apart last (e ∷ es) = elim (Bool-cases (leb e.span.end last)) [
  | inl h ↦ rw (h, accepted) (leb→le e.span.end last h, accepted-Apart e.span.start es)
  | inr h ↦ rw (h, accepted) (accepted-Apart last es)
]

-- An edit is made, or gives way to one that is made, starts no earlier and reaches into it.
abbrev pub Settled : List TextEdit → TextEdit → Type 0
Settled [] e = ⊥
Settled (a ∷ as') e =
    ((e ≡ a) ⊎ ((e.span.start ≤ a.span.start) × (a.span.start < e.span.end))) ⊎ Settled as' e

All-zip :
    (P Q R : TextEdit → Type 0) (es : List TextEdit)
    → ((e : TextEdit) → P e → Q e → R e)
    → All P es
    → All Q es
    → All R es
All-zip P Q R [] f p q = tt
All-zip P Q R (e ∷ es) f p q = (f e p.0 q.0, All-zip P Q R es f p.1 q.1)

settle :
    (h : TextEdit) (acc : List TextEdit) (e : TextEdit)
    → Settled acc e ⊎ (h.span.start < e.span.end)
    → e.span.start ≤ h.span.start
    → Settled (h ∷ acc) e
settle h acc e (inl s) le = inr s
settle h acc e (inr lt) le = inl (inr (le, lt))

accepted-Settled :
    (last : ℕ) (es : List TextEdit)
    → Descends es
    → All (λ e. Settled (accepted last es) e ⊎ (last < e.span.end)) es
unfolding accepted
accepted-Settled last [] d = tt
accepted-Settled last (e ∷ es) d = elim (Bool-cases (leb e.span.end last)) [
  | inl h ↦
      let eq : accepted last (e ∷ es) ≡ e ∷ accepted e.span.start es = rw h in
      subst (λ acc. All (λ f. Settled acc f ⊎ (last < f.span.end)) (e ∷ es)) (sym eq)
        (
          inl (inl (inl refl)),
          All-zip _ _ _ es (λ f s le. inl (settle e (accepted e.span.start es) f s le))
              (accepted-Settled e.span.start es d.1) d.0,
        )
  | inr h ↦
      let eq : accepted last (e ∷ es) ≡ accepted last es = rw h in
      subst (λ acc. All (λ f. Settled acc f ⊎ (last < f.span.end)) (e ∷ es)) (sym eq)
        (inr (ground arith), accepted-Settled last es d.1)
]

-- The spans are `u32`, so that no edit ends beyond `u32::MAX`.
settle_top :
    (acc : List TextEdit) (e : TextEdit)
    → Settled acc e ⊎ (u32_max < e.span.end)
    → e.span.end ≤ u32_max
    → Settled acc e
settle_top acc e (inl s) le = s
settle_top acc e (inr lt) le = absurd (omega arith)

insert_edit-All_back :
    (P : TextEdit → Type 0) (e : TextEdit) (l : List TextEdit)
    → All P (insert_edit e l)
    → P e × All P l
insert_edit-All_back P e [] h =
    let alone : insert_edit e [] ≡ e ∷ [] = unfold insert_edit in refl in subst (All P) alone h
insert_edit-All_back P e (f ∷ fs) h = elim (insert_edit-cases e f fs) [
  | inl (o, eq) ↦
      let k = subst (All P) eq h in
      let (first, others) = insert_edit-All_back P e fs k.1 in (first, (k.0, others))
  | inr (o, eq) ↦ subst (All P) eq h
]

sort_edits-All_back : (P : TextEdit → Type 0) (l : List TextEdit) → All P (sort_edits l) → All P l
unfolding sort_edits
sort_edits-All_back P [] h = tt
sort_edits-All_back P (e ∷ l) h =
    let (first, others) = insert_edit-All_back P e (sort_edits l) h in
    (first, sort_edits-All_back P l others)

accepted-All :
    (P : TextEdit → Type 0) (last : ℕ) (es : List TextEdit) → All P es → All P (accepted last es)
unfolding accepted
accepted-All P last [] h = tt
accepted-All P last (e ∷ es) h = elim (Bool-cases (leb e.span.end last)) [
  | inl k ↦ rw (k, accepted) (h.0, accepted-All P e.span.start es h.1)
  | inr k ↦ rw (k, accepted) (accepted-All P last es h.1)
]

All-imp :
    (P Q : TextEdit → Type 0) (es : List TextEdit)
    → ((e : TextEdit) → P e → Q e)
    → All P es
    → All Q es
All-imp P Q [] f p = tt
All-imp P Q (e ∷ es) f p = (f e p.0, All-imp P Q es f p.1)

All-Mem : (es : List TextEdit) → All (λ e. Mem e es) es
All-Mem [] = tt
All-Mem (e ∷ es) = (
  mem-cons.1 (Or.inl refl),
  All-imp (λ f. Mem f es) (λ f. Mem f (e ∷ es)) es (λ f m. mem-cons.1 (Or.inr m)) (All-Mem es),
)

-- The text that a pass gives is the source with a set of edits made.
pub record Resolved (source : Bytes) (ds : List LintDiagnostic) (made : List TextEdit)
    : Type 0 where
  pub text : apply_one_pass source ds ≡ some (spliced source made)
  pub drawn : All (λ e. Mem e (collect_edits ds)) made
  pub apart : Apart u32_max made
  pub settled : All (Settled made) (collect_edits ds)

-- A pass over edits that lie in a source below 4 GB and cut no character of it, which starts with a
-- whole one, chooses some of the edits that the diagnostics carry, and gives the source with exactly
-- these made. They do not overlap, and an edit is left out only for one that is made, starts no earlier and overlaps it.
pub accepted-resolves :
    (source : Bytes) (ds : List LintDiagnostic)
    → length source ≤ u32_max
    → begins_char source ≡ true
    → All (Fits source) (collect_edits ds)
    → (made : List TextEdit) × Resolved source ds made
accepted-resolves source ds small text fits =
    let edits = collect_edits ds in
    let es = sort_edits edits in
    let made = accepted u32_max es in
    (
      made,
      record {
        text = apply_one_pass-spliced source ds text fits;
        drawn =
            accepted-All (λ e. Mem e edits) u32_max es
              (sort_edits-All (λ e. Mem e edits) edits (All-Mem edits));
        apart = accepted-Apart u32_max es;
        settled = sort_edits-All_back (Settled made) edits (
            All-zip _ _ _ es (λ e f s. settle_top made e s (omega (arith, f.in_range, small)))
              (sort_edits-All (Fits source) edits fits)
              (accepted-Settled u32_max es (sort_edits-Descends edits)));
      },
    )
