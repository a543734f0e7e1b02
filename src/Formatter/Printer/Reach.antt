-- ===== src/Formatter/Printer/Reach.antt =====
-- How far the line of the printer of crates/luck_formatter/src/printer.rs reaches, with the indent
-- and the space that it still owes, and what a text without a line break adds to it.
use luck.Formatter.Buffer.{has_newline, rfind_newline, rfind_from}
use luck.Formatter.Printer.Fits.{sum_widths, pending_indent_width, remaining_width}
use luck.Formatter.Printer.State.{
  Indent, level, align, inactive, Printer, count_levels, sum_aligns, flush_indent,
  flush_pending_indent, flush_pending_space, emit_text,
}
use luck.Prelude.Int.{sub_ℕ, ◌-ℤ◌, is_negative}
use luck.Prelude.{
  ℕ, zero, suc, ◌+◌, ◌*◌, ◌≤◌, ◌≡◌, refl, sym, ap, ◌∙◌, true, false, none, List, [], ◌∷◌, ◌++◌,
  ◌==◌, if◌then◌else◌, replicate, append_assoc, append-nil, Bytes, arith, Bool-cases, inl, inr,
}

unfoldable pub reach : Printer → ℕ
reach p =
    p.column
    + (if p.is_pending_indent then pending_indent_width p else 0)
    + (if p.is_pending_space then 1 else 0)

pub sub_sub : (a b n : ℕ) → sub_ℕ a b -ℤ n ≡ sub_ℕ a (b + n)
sub_sub a b n = ground arith

pub sub-is_negative : (a b : ℕ) → b ≤ a → is_negative (sub_ℕ a b) ≡ false
sub-is_negative a b h = ground arith

pub remaining_width_lem :
    (p : Printer) → remaining_width p -ℤ 0 ≡ sub_ℕ p.options.line_width (reach p)
unfolding remaining_width reach
remaining_width_lem p = simp sub_sub (ap (sub_ℕ p.options.line_width) (omega arith))

any-append :
    (x y : Bytes) → has_newline x ≡ false → has_newline y ≡ false → has_newline (x ++ y) ≡ false
any-append [] y h k = k
any-append (b ∷ x) y h k = ground (arith, h, any-append x y (ground (arith, h)) k)

replicate-no_newline : (n b : ℕ) → (b == b'\n') ≡ false → has_newline (replicate n b) ≡ false
replicate-no_newline zero b h = refl
replicate-no_newline (suc n) b h = rw h (replicate-no_newline n b h)

rfind_from-none : (i : ℕ) (s : Bytes) → has_newline s ≡ false → rfind_from i none s ≡ none
rfind_from-none i [] h = refl
rfind_from-none i (b ∷ s) h = ground (arith, h, rfind_from-none (suc i) s (ground (arith, h)))

rfind_newline-none : (s : Bytes) → has_newline s ≡ false → rfind_newline s ≡ none
unfolding rfind_newline
rfind_newline-none s h = rfind_from-none 0 s h

sum_widths-tabs :
    (iw : ℕ) (is : List Indent) → sum_widths true iw is ≡ count_levels is + sum_aligns is
sum_widths-tabs iw [] = refl
sum_widths-tabs iw (level ∷ is) = omega (arith, sum_widths-tabs iw is)
sum_widths-tabs iw (align n ∷ is) = omega (arith, sum_widths-tabs iw is)
sum_widths-tabs iw (inactive ∷ is) = omega (arith, sum_widths-tabs iw is)

sum_widths-spaces :
    (iw : ℕ) (is : List Indent) → sum_widths false iw is ≡ count_levels is * iw + sum_aligns is
sum_widths-spaces iw [] = omega arith
sum_widths-spaces iw (level ∷ is) = ground (arith, sum_widths-spaces iw is)
sum_widths-spaces iw (align n ∷ is) = omega (arith, sum_widths-spaces iw is)
sum_widths-spaces iw (inactive ∷ is) = omega (arith, sum_widths-spaces iw is)

-- `q` is `p` with text appended on the same line, `cells` columns at most. The stacks stay.
pub record Extends (cells : ℕ) (p q : Printer) : Type 0 where
  pub options : q.options ≡ p.options
  pub modes : q.modes ≡ p.modes
  pub group_modes : q.group_modes ≡ p.group_modes
  pub indents : q.indents ≡ p.indents
  pub within : reach q ≤ reach p + cells
  pub added : Bytes
  pub output : q.output ≡ p.output ++ added
  pub no_newline : has_newline added ≡ false

pub Extends-trans :
    (m n k : ℕ) (p q r : Printer) → m + n ≡ k → Extends m p q → Extends n q r → Extends k p r
Extends-trans m n cells p q r sum h k = record {
  options = k.options ∙ h.options;
  modes = k.modes ∙ h.modes;
  group_modes = k.group_modes ∙ h.group_modes;
  indents = k.indents ∙ h.indents;
  within = omega (arith, sum, h.within, k.within);
  added = h.added ++ k.added;
  output = k.output ∙ ap (λ o. o ++ k.added) h.output ∙ append_assoc p.output h.added k.added;
  no_newline = any-append h.added k.added h.no_newline k.no_newline;
}

flush_indent-Extends : (p : Printer) → p.is_pending_indent ≡ true → Extends 0 p (flush_indent p)
unfolding flush_indent reach pending_indent_width
flush_indent-Extends p h = elim (Bool-cases p.options.use_tabs) [
  | inl e ↦ record {
    options = refl;
    modes = refl;
    group_modes = refl;
    indents = refl;
    within = ground (arith, h, e, sum_widths-tabs p.options.indent_width p.indents);
    added = replicate (count_levels p.indents) b'\t' ++ replicate (sum_aligns p.indents) b' ';
    output = simp e (append_assoc p.output _ _);
    no_newline =
        any-append (replicate (count_levels p.indents) b'\t')
          (replicate (sum_aligns p.indents) b' ')
          (replicate-no_newline (count_levels p.indents) b'\t' refl)
          (replicate-no_newline (sum_aligns p.indents) b' ' refl);
  }
  | inr e ↦ record {
    options = refl;
    modes = refl;
    group_modes = refl;
    indents = refl;
    within = ground (arith, h, e, sum_widths-spaces p.options.indent_width p.indents);
    added =
        replicate (count_levels p.indents * p.options.indent_width) b' '
        ++ replicate (sum_aligns p.indents) b' ';
    output = simp e (append_assoc p.output _ _);
    no_newline =
        any-append (replicate (count_levels p.indents * p.options.indent_width) b' ')
          (replicate (sum_aligns p.indents) b' ')
          (replicate-no_newline (count_levels p.indents * p.options.indent_width) b' ' refl)
          (replicate-no_newline (sum_aligns p.indents) b' ' refl);
  }
]

pub same-Extends : (p : Printer) → Extends 0 p p
same-Extends p = record {
  options = refl;
  modes = refl;
  group_modes = refl;
  indents = refl;
  within = omega arith;
  added = [];
  output = sym (append-nil p.output);
  no_newline = refl;
}

flush_pending_indent-Extends : (p : Printer) → Extends 0 p (flush_pending_indent p)
flush_pending_indent-Extends p = elim (Bool-cases p.is_pending_indent) [
  | inl e ↦ simp e (flush_indent-Extends p e)
  | inr e ↦ simp e (same-Extends p)
]

flush_pending_space-Extends : (p : Printer) → Extends 0 p (flush_pending_space p)
unfolding reach pending_indent_width
flush_pending_space-Extends p = elim (Bool-cases p.is_pending_space) [
  | inl e ↦ simp e (record {
    options = refl;
    modes = refl;
    group_modes = refl;
    indents = refl;
    within = ground (arith, e);
    added = b' ' ∷ [];
    output = refl;
    no_newline = refl;
  })
  | inr e ↦ simp e (same-Extends p)
]

pub pending_space-Extends : (p : Printer) → Extends 1 p (record p { is_pending_space = true })
unfolding reach pending_indent_width
pending_space-Extends p = record {
  options = refl;
  modes = refl;
  group_modes = refl;
  indents = refl;
  within = ground arith;
  added = [];
  output = sym (append-nil p.output);
  no_newline = refl;
}

append-Extends :
    (n : ℕ) (content : Bytes) (p : Printer)
    → has_newline content ≡ false
    → Extends n p (record p { output = p.output ++ content; column = p.column + n })
unfolding reach pending_indent_width
append-Extends n content p h = record {
  options = refl;
  modes = refl;
  group_modes = refl;
  indents = refl;
  within = omega arith;
  added = content;
  output = refl;
  no_newline = h;
}

pub emit_text-Extends :
    (width : Bytes → ℕ) (p : Printer) (content : Bytes)
    → has_newline content ≡ false
    → Extends (width content) p (emit_text width p content)
unfolding emit_text
emit_text-Extends width p0 content h =
    let p1 = flush_pending_indent p0 in
    let p = flush_pending_space p1 in
    rw (rfind_newline-none content h, emit_text)
      (Extends-trans 0 (width content) (width content) p0 p _ (omega arith)
        (Extends-trans 0 0 0 p0 p1 p refl (flush_pending_indent-Extends p0)
          (flush_pending_space-Extends p1))
        (append-Extends (width content) content p h))
