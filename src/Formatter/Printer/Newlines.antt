-- ===== src/Formatter/Printer/Newlines.antt =====
-- What a line break of the printer of crates/luck_formatter/src/printer.rs leaves behind.
use luck.Formatter.Buffer.{ends_with_blank_line, trimmed_end, is_blank, rfind_newline}
use luck.Formatter.Ir.{
  token, text, space, line, expand_parent, line_suffix_boundary, best_fitting, tag, Elements, nil,
  cons,
}
use luck.Formatter.Printer.State.{
  Printer, flush_indent, emit_text, emit_suffixes, flush_suffixes, trim_trailing_whitespace,
  push_blank_line, push_newlines, emit_newline,
}
use luck.Prelude.{
  ℕ, zero, suc, ◌-◌, ◌≤◌, ◌<◌, ◌≡◌, inl, inr, refl, sym, ap, ◌∙◌, Bool, true, false, ◌&&◌, [], ◌∷◌,
  ◌++◌, ltb, ◌==◌, all, Bool-cases, ltb→lt, lt→ltb, Option-cases, append_assoc, append-nil,
  get_elem?, take, length, Bytes, arith,
}

-- The last byte is a line break.
unfoldable pub ends_with_newline : Bytes → Bool
ends_with_newline [] = false
ends_with_newline (b ∷ []) = b == b'\n'
ends_with_newline (b ∷ c ∷ r) = ends_with_newline (c ∷ r)

ends_with_newline-snoc : (x : Bytes) → ends_with_newline (x ++ b'\n' ∷ []) ≡ true
unfolding ends_with_newline
ends_with_newline-snoc [] = refl
ends_with_newline-snoc (a ∷ []) = refl
ends_with_newline-snoc (a ∷ b ∷ r) = ends_with_newline-snoc (b ∷ r)

ends_with_blank_line-newline :
    (x : Bytes) → ends_with_blank_line x ≡ true → ends_with_newline x ≡ true
unfolding ends_with_newline ends_with_blank_line
ends_with_blank_line-newline [] h = h
ends_with_blank_line-newline (a ∷ []) h = absurd (ground arith)
ends_with_blank_line-newline (a ∷ b ∷ []) h = ground (arith, h)
ends_with_blank_line-newline (a ∷ b ∷ c ∷ r) h = ends_with_blank_line-newline (b ∷ c ∷ r) h

two_newlines : (x : Bytes) → ends_with_blank_line (x ++ b'\n' ∷ b'\n' ∷ []) ≡ true
unfolding ends_with_blank_line
two_newlines [] = refl
two_newlines (a ∷ []) = refl
two_newlines (a ∷ b ∷ []) = refl
two_newlines (a ∷ b ∷ c ∷ r) = two_newlines (b ∷ c ∷ r)

-- The line breaks added behind a text. Behind a blank line there are none; else there is one, and a
-- second only for a blank line that one break does not make.
pub record Broken (is_blank_line : Bool) (before after : Bytes) : Type 0 where
  pub added : Bytes
  pub output : after ≡ before ++ added
  pub ends : ends_with_newline after ≡ true
  pub blank : is_blank_line ≡ true → ends_with_blank_line after ≡ true
  pub breaks : all (λ b. b == b'\n') added ≡ true
  pub none_missing : ends_with_blank_line before ≡ true → length added ≡ 0
  pub plain : is_blank_line ≡ false → ends_with_blank_line before ≡ false → length added ≡ 1
  pub one_missing :
      ends_with_blank_line before ≡ false
      → ends_with_blank_line (before ++ b'\n' ∷ []) ≡ true
      → length added ≡ 1
  pub two_missing :
      is_blank_line ≡ true
      → ends_with_blank_line before ≡ false
      → ends_with_blank_line (before ++ b'\n' ∷ []) ≡ false
      → length added ≡ 2

already-Broken :
    (is_blank_line : Bool) (out : Bytes)
    → ends_with_blank_line out ≡ true
    → Broken is_blank_line out out
already-Broken b out h = record {
  added = [];
  output = sym (append-nil out);
  ends = ends_with_blank_line-newline out h;
  blank = λ _. h;
  breaks = refl;
  none_missing = λ _. refl;
  plain = λ _ k. absurd (cc (h, k));
  one_missing = λ k _. absurd (cc (h, k));
  two_missing = λ _ k _. absurd (cc (h, k));
}

push_newlines-Broken :
    (is_blank_line : Bool) (out : Bytes)
    → Broken is_blank_line out (push_newlines is_blank_line out)
unfolding push_newlines push_blank_line
push_newlines-Broken false out = elim (Bool-cases (ends_with_blank_line out)) [
  | inl e ↦ rw (e, push_newlines) (already-Broken false out e)
  | inr e ↦
      rw (e, push_newlines)
        (record {
          added = b'\n' ∷ [];
          output = refl;
          ends = ends_with_newline-snoc out;
          blank = λ h. absurd (ground arith);
          breaks = refl;
          none_missing = λ k. absurd (cc (e, k));
          plain = λ _ _. refl;
          one_missing = λ _ _. refl;
          two_missing = λ k _ _. absurd (cc k);
        })
]
push_newlines-Broken true out = elim (Bool-cases (ends_with_blank_line out)) [
  | inl e ↦ rw (e, push_newlines, push_blank_line) (already-Broken true out e)
  | inr e ↦ elim (Bool-cases (ends_with_blank_line (out ++ b'\n' ∷ []))) [
    | inl f ↦
        rw (e, f, push_newlines, push_blank_line)
          (record {
            added = b'\n' ∷ [];
            output = refl;
            ends = ends_with_newline-snoc out;
            blank = λ h. f;
            breaks = refl;
            none_missing = λ k. absurd (cc (e, k));
            plain = λ k _. absurd (cc k);
            one_missing = λ _ _. refl;
            two_missing = λ _ _ k. absurd (cc (f, k));
          })
    | inr f ↦
        rw (e, f, push_newlines, push_blank_line)
          (record {
            added = b'\n' ∷ b'\n' ∷ [];
            output = append_assoc out (b'\n' ∷ []) (b'\n' ∷ []);
            ends = ends_with_newline-snoc (out ++ b'\n' ∷ []);
            blank = λ h.
                ap ends_with_blank_line (append_assoc out (b'\n' ∷ []) (b'\n' ∷ []))
                ∙ two_newlines out;
            breaks = refl;
            none_missing = λ k. absurd (cc (e, k));
            plain = λ k _. absurd (cc k);
            one_missing = λ _ k. absurd (cc (f, k));
            two_missing = λ _ _ _. refl;
          })
  ]
]

-- Where the blanks at the end of the line begin.
pub record Trimmed (bytes : Bytes) (line_start end n : ℕ) : Type 0 where
  pub within : n ≤ end
  pub blanks : (i : ℕ) → n ≤ i → i < end → is_blank (get_elem? bytes i) ≡ true
  pub in_line : line_start ≤ end → line_start ≤ n
  pub last : line_start < n → is_blank (get_elem? bytes (n - 1)) ≡ false

last_index : (e : ℕ) → suc e - 1 ≡ e
last_index e = omega arith

trimmed_end-Trimmed :
    (bytes : Bytes) (line_start end : ℕ)
    → Trimmed bytes line_start end (trimmed_end bytes line_start end)
unfolding trimmed_end
trimmed_end-Trimmed bytes line_start zero = record {
  within = omega arith;
  blanks = λ i a b. absurd (omega arith);
  in_line = λ a. a;
  last = λ a. absurd (omega arith);
}
trimmed_end-Trimmed bytes line_start (suc e) =
    elim (Bool-cases (ltb line_start (suc e) && is_blank (get_elem? bytes e))) [
      | inl h ↦
          let t = trimmed_end-Trimmed bytes line_start e in
          rw (h, trimmed_end)
            (record {
              within = omega (arith, t.within);
              blanks = λ i a b. elim (Bool-cases (ltb i e)) [
                | inl l ↦ t.blanks i a (ltb→lt i e l)
                | inr l ↦
                    let here : i ≡ e = ground (arith, l, b) in
                    ap (λ k. is_blank (get_elem? bytes k)) here ∙ ground (arith, h)
              ];
              in_line = λ c. t.in_line (ground (arith, h));
              last = t.last;
            })
      | inr h ↦
          rw (h, trimmed_end)
            (record {
              within = omega arith;
              blanks = λ i a b. absurd (omega arith);
              in_line = λ c. c;
              last = λ a.
                  ap (λ k. is_blank (get_elem? bytes k)) (last_index e)
                  ∙ ground (arith, h, lt→ltb line_start (suc e) a);
            })
    ]

module _ (width : Bytes → ℕ) where
  emit_text-suffixes :
      (p : Printer) (content : Bytes) → (emit_text width p content).suffixes ≡ p.suffixes
  unfolding emit_text flush_indent
  emit_text-suffixes p content = ground (
    arith,
    Option-cases (rfind_newline content),
    Bool-cases p.is_pending_indent,
    Bool-cases p.is_pending_space,
  )

  emit_suffixes-suffixes :
      (p : Printer) (es : Elements) → (emit_suffixes width p es).suffixes ≡ p.suffixes
  unfolding emit_suffixes
  emit_suffixes-suffixes p nil = refl
  emit_suffixes-suffixes p (cons (token content) es) =
      emit_suffixes-suffixes (emit_text width p content) es ∙ emit_text-suffixes p content
  emit_suffixes-suffixes p (cons (text content) es) =
      emit_suffixes-suffixes (emit_text width p content) es ∙ emit_text-suffixes p content
  emit_suffixes-suffixes p (cons space es) =
      emit_suffixes-suffixes (record p { is_pending_space = true }) es
  emit_suffixes-suffixes p (cons (line _) es) = emit_suffixes-suffixes p es
  emit_suffixes-suffixes p (cons expand_parent es) = emit_suffixes-suffixes p es
  emit_suffixes-suffixes p (cons line_suffix_boundary es) = emit_suffixes-suffixes p es
  emit_suffixes-suffixes p (cons (best_fitting _) es) = emit_suffixes-suffixes p es
  emit_suffixes-suffixes p (cons (tag _) es) = emit_suffixes-suffixes p es

  -- What a line break does: the line suffixes come first, then the blanks at the end of the line go,
  -- then come as many line breaks as are missing.
  pub record Newline (is_blank_line : Bool) (p q : Printer) : Type 0 where
    pub kept : ℕ
    pub trimmed :
        Trimmed
          (flush_suffixes width p).output
          (flush_suffixes width p).line_start
          (length (flush_suffixes width p).output)
          kept
    pub broken : Broken is_blank_line (take kept (flush_suffixes width p).output) q.output
    pub no_suffixes : q.suffixes ≡ nil
    pub at_start : q.line_start ≡ length q.output
    pub column : q.column ≡ 0
    pub no_space : q.is_pending_space ≡ false
    pub indent_due : q.is_pending_indent ≡ true

  -- A line break flushes the line suffixes, cuts exactly the blanks at the end of the line, and
  -- appends nothing but line breaks: none where the output then ends with a blank line, else one,
  -- and for a blank line a second where one does not make it. The output ends with a line break,
  -- and for a blank line with two. The next line starts behind them at column zero, owes its indent
  -- and no space.
  pub emit_newline-Newline :
      (p : Printer) (is_blank_line : Bool)
      → Newline is_blank_line p (emit_newline width p is_blank_line)
  unfolding emit_newline trim_trailing_whitespace
  emit_newline-Newline p is_blank_line = record {
    kept =
        trimmed_end (flush_suffixes width p).output (flush_suffixes width p).line_start
          (length (flush_suffixes width p).output);
    trimmed =
        trimmed_end-Trimmed (flush_suffixes width p).output (flush_suffixes width p).line_start
          (length (flush_suffixes width p).output);
    broken = push_newlines-Broken is_blank_line _;
    no_suffixes =
        unfold flush_suffixes in emit_suffixes-suffixes (record p { suffixes = nil }) p.suffixes;
    at_start = refl;
    column = refl;
    no_space = refl;
    indent_due = refl;
  }
