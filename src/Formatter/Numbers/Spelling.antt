-- ===== src/Formatter/Numbers/Spelling.antt =====
-- What `normalize_number` of crates/luck_formatter/src/numbers.rs keeps of a literal.
use luck.Formatter.Numbers.{
  HexCase, preserve, lower, upper, to_ascii_lowercase, apply_hex_case, normalize_byte,
  normalize_bytes, starts_with_dot, normalize_decimal, normalize_number,
}
use luck.Prelude.{
  ℕ, ◌<◌, ◌≡◌, inl, inr, refl, sym, ap, ap₂, ◌∙◌, ◌⊎◌, Bool, true, false, not, ◌&&◌, ◌||◌, [], ◌∷◌,
  ◌==◌, within, if◌then◌else◌, any, map, All, Bool-cases, Bytes, arith,
}

-- The text in lower case, in which no two spellings of a literal differ.
abbrev pub lowered : Bytes → Bytes
lowered text = map to_ascii_lowercase text

abbrev pub IsAscii : ℕ → Type 0
IsAscii b = b < 128

-- One byte stands for one that is ASCII; its lower case and what becomes of it next are the same.
normalize_byte-IsAscii :
    (is_hex : Bool) (hex_case : HexCase) (b : ℕ)
    → IsAscii b
    → (c : ℕ) × (normalize_byte is_hex hex_case b ≡ c ∷ [])
      × (IsAscii c)
      × (to_ascii_lowercase c ≡ to_ascii_lowercase b)
      × (normalize_byte is_hex hex_case c ≡ c ∷ [])
unfolding normalize_byte apply_hex_case
normalize_byte-IsAscii false hex_case b h = (b, ground (arith, h), h, refl, ground (arith, h))
normalize_byte-IsAscii true hex_case b h = elim (Bool-cases (b == b'p' || b == b'P')) [
  | inl p ↦ (b'p', rw (p) refl, omega arith, ground (arith, p), refl)
  | inr n ↦ elim (Bool-cases (within b'a' b'f' b || within b'A' b'F' b)) [
    | inl d ↦
        let (ascii, low, again) = cased hex_case b n d in
        (apply_hex_case b hex_case, rw (n, d) refl, ascii, low, again)
    | inr o ↦ (b, ground (arith, n, o, h), h, refl, ground (arith, n, o, h))
  ]
]
  where
    cased :
        (hex_case : HexCase) (b : ℕ)
        → (b == b'p' || b == b'P') ≡ false
        → (within b'a' b'f' b || within b'A' b'F' b) ≡ true
        → (IsAscii (apply_hex_case b hex_case))
          × (to_ascii_lowercase (apply_hex_case b hex_case) ≡ to_ascii_lowercase b)
          × (normalize_byte true hex_case (apply_hex_case b hex_case)
              ≡ apply_hex_case b hex_case ∷ [])
    cased preserve b n d = (ground (arith, d), refl, ground (arith, n, d))
    cased lower b n d = (ground (arith, d), ground (arith, d), ground (arith, d))
    cased upper b n d = (ground (arith, d), ground (arith, d), ground (arith, d))

normalize_bytes-IsAscii :
    (is_hex : Bool) (hex_case : HexCase) (r : Bytes)
    → All IsAscii r
    → (lowered (normalize_bytes is_hex hex_case r) ≡ lowered r)
      × (normalize_bytes is_hex hex_case (normalize_bytes is_hex hex_case r)
          ≡ normalize_bytes is_hex hex_case r)
unfolding normalize_bytes
normalize_bytes-IsAscii is_hex hex_case [] h = (refl, refl)
normalize_bytes-IsAscii is_hex hex_case (b ∷ r) h =
    let (c, once, ascii, low, again) = normalize_byte-IsAscii is_hex hex_case b h.0 in
    let (lows, twice) = normalize_bytes-IsAscii is_hex hex_case r h.1 in
    rw (once) (ap₂ ◌∷◌ low lows, rw (again) (ap (◌∷◌ c) twice))

-- The exponent marker in lower case.
abbrev small_e : ℕ → ℕ
small_e b = if b == b'E' then b'e' else b

small_e-lowered : (text : Bytes) → lowered (map small_e text) ≡ lowered text
small_e-lowered [] = refl
small_e-lowered (b ∷ text) = ap₂ ◌∷◌ (ground arith) (small_e-lowered text)

small_e_none : (text : Bytes) → any (◌== b'E') (map small_e text) ≡ false
small_e_none [] = refl
small_e_none (b ∷ text) = ground (arith, small_e_none text)

-- A dot in front gains a zero.
abbrev pub zeroed : Bytes → Bytes
zeroed text = if starts_with_dot text then b'0' ∷ text else text

normalize_decimal-lowered :
    (text : Bytes) → lowered (normalize_decimal text) ≡ lowered (zeroed text)
unfolding normalize_decimal
normalize_decimal-lowered text = elim (Bool-cases (starts_with_dot text)) [
  | inl dot ↦ rw (dot, normalize_decimal) (ap (◌∷◌ b'0') (small_e-lowered text))
  | inr none ↦ elim (Bool-cases (any (◌== b'E') text)) [
    | inl e ↦ rw (none, e, normalize_decimal) (small_e-lowered text)
    | inr e ↦ rw (none, e, normalize_decimal) refl
  ]
]

abbrev is_prefixed : Bytes → Bool
is_prefixed (a ∷ b ∷ r) = a == b'0' && (b == b'x' || b == b'X' || b == b'b' || b == b'B')
is_prefixed _ = false

normalize_number-decimal :
    (text : Bytes) (hex_case : HexCase)
    → is_prefixed text ≡ false
    → normalize_number text hex_case ≡ normalize_decimal text
unfolding normalize_number
normalize_number-decimal [] hex_case h = refl
normalize_number-decimal (a ∷ []) hex_case h = refl
normalize_number-decimal (a ∷ b ∷ r) hex_case h =
    let plain : (not (a == b'0' && (b == b'x' || b == b'X'))
          && not (a == b'0' && (b == b'b' || b == b'B')))
        ≡ true =
      ground (arith, h) in
    rw (plain, normalize_number) refl

-- Without a leading dot and a large E nothing is done.
normalize_decimal-same :
    (text : Bytes)
    → starts_with_dot text ≡ false
    → any (◌== b'E') text ≡ false
    → normalize_decimal text ≡ text
unfolding normalize_decimal
normalize_decimal-same text h k = rw (h, k, normalize_decimal) refl

small_e_head :
    (text : Bytes) → starts_with_dot text ≡ false → starts_with_dot (map small_e text) ≡ false
small_e_head [] h = refl
small_e_head (b ∷ text) h = ground (arith, h)

small_e_prefix : (text : Bytes) → is_prefixed text ≡ false → is_prefixed (map small_e text) ≡ false
small_e_prefix [] h = refl
small_e_prefix (a ∷ []) h = refl
small_e_prefix (a ∷ b ∷ r) h = ground (arith, h)

dot_prefix :
    (text : Bytes) → starts_with_dot text ≡ true → is_prefixed (b'0' ∷ map small_e text) ≡ false
dot_prefix [] h = absurd (cc h)
dot_prefix (b ∷ text) h = ground (arith, h)

-- A numeral without a prefix has none when it is normalized, and is then as it should be.
decimal_twice :
    (text : Bytes)
    → is_prefixed text ≡ false
    → (is_prefixed (normalize_decimal text) ≡ false)
      × (normalize_decimal (normalize_decimal text) ≡ normalize_decimal text)
unfolding normalize_decimal
decimal_twice text h = elim (Bool-cases (starts_with_dot text)) [
  | inl dot ↦
      rw (dot, normalize_decimal)
        (
          dot_prefix text dot,
          normalize_decimal-same (b'0' ∷ map small_e text) refl (small_e_none text),
        )
  | inr none ↦ elim (Bool-cases (any (◌== b'E') text)) [
    | inl e ↦
        rw (none, e, normalize_decimal)
          (
            small_e_prefix text h,
            normalize_decimal-same (map small_e text) (small_e_head text none) (small_e_none text),
          )
    | inr e ↦ rw (none, e, normalize_decimal) (h, normalize_decimal-same text none e)
  ]
]

-- A prefix in lower case stays.
prefixed_twice :
    (is_hex : Bool) (x : ℕ) (hex_case : HexCase) (r : Bytes)
    → ((is_hex ≡ true) × (x ≡ b'x')) ⊎ ((is_hex ≡ false) × (x ≡ b'b'))
    → All IsAscii r
    → normalize_number (b'0' ∷ x ∷ normalize_bytes is_hex hex_case r) hex_case
      ≡ b'0' ∷ x ∷ normalize_bytes is_hex hex_case r
unfolding normalize_number
prefixed_twice is_hex x hex_case r (inl (h, k)) ascii =
    rw (h, k) (ap (λ t. b'0' ∷ b'x' ∷ t) (normalize_bytes-IsAscii true hex_case r ascii).1)
prefixed_twice is_hex x hex_case r (inr (h, k)) ascii =
    rw (h, k) (ap (λ t. b'0' ∷ b'b' ∷ t) (normalize_bytes-IsAscii false hex_case r ascii).1)

prefixed-idempotent :
    (text : Bytes) (hex_case : HexCase)
    → All IsAscii text
    → is_prefixed text ≡ true
    → normalize_number (normalize_number text hex_case) hex_case ≡ normalize_number text hex_case
unfolding normalize_number
prefixed-idempotent [] hex_case h marked = absurd (cc marked)
prefixed-idempotent (a ∷ []) hex_case h marked = absurd (cc marked)
prefixed-idempotent (a ∷ b ∷ r) hex_case h marked =
    let hex = a == b'0' && (b == b'x' || b == b'X') in
    let test : (not hex && not (a == b'0' && (b == b'b' || b == b'B'))) ≡ false =
      ground (arith, marked) in
    rw (test, normalize_number)
      (prefixed_twice hex (to_ascii_lowercase b) hex_case r
        (elim (Bool-cases hex) [
          | inl e ↦ inl (e, ground (arith, e))
          | inr e ↦ inr (e, ground (arith, e, marked))
        ])
        h.1.1)

-- Normalizing a literal of ASCII characters once more changes nothing.
pub normalize_number-idempotent :
    (text : Bytes) (hex_case : HexCase)
    → All IsAscii text
    → normalize_number (normalize_number text hex_case) hex_case ≡ normalize_number text hex_case
normalize_number-idempotent text hex_case h = elim (Bool-cases (is_prefixed text)) [
  | inr plain ↦
      let (still, twice) = decimal_twice text plain in
      rw (normalize_number-decimal text hex_case plain)
        (normalize_number-decimal (normalize_decimal text) hex_case still ∙ twice)
  | inl marked ↦ prefixed-idempotent text hex_case h marked
]

-- A literal of ASCII characters keeps its spelling, but for the case of its letters and for a zero
-- in front of a leading dot.
pub normalize_number-lowered :
    (text : Bytes) (hex_case : HexCase)
    → All IsAscii text
    → lowered (normalize_number text hex_case) ≡ lowered (zeroed text)
unfolding normalize_number
normalize_number-lowered [] hex_case h = normalize_decimal-lowered []
normalize_number-lowered (a ∷ []) hex_case h = normalize_decimal-lowered (a ∷ [])
normalize_number-lowered (a ∷ b ∷ r) hex_case h =
    let hex = a == b'0' && (b == b'x' || b == b'X') in
    let binary = a == b'0' && (b == b'b' || b == b'B') in
    elim (Bool-cases (not hex && not binary)) [
      | inl e ↦ rw (e, normalize_number) (normalize_decimal-lowered (a ∷ b ∷ r))
      | inr e ↦
          let (low, twice) = normalize_bytes-IsAscii hex hex_case r h.1.1 in
          let zero_first : a ≡ b'0' = ground (arith, e) in
          let no_dot : starts_with_dot (a ∷ b ∷ r) ≡ false = ground (arith, e) in
          rw (e, normalize_number, no_dot)
            (ap₂ ◌∷◌ (ap to_ascii_lowercase (sym zero_first)) (ap₂ ◌∷◌ (ground (arith, e)) low))
    ]
