-- ===== src/Prelude/Fuel.antt =====
-- What holds with enough fuel.
use Prim.Native.Nat.{ℕ, zero, suc, ◌+◌, ◌≤◌}
use mathlib.Core.Path.{◌≡◌, refl, ap}
use native.Mathlib.Omega.{arith}

-- From some fuel on.
abbrev pub From : (ℕ → Type 0) → Type 0
From P = (bound : ℕ) × ((n : ℕ) → bound ≤ n → P n)

pub From-map : {P Q : ℕ → Type 0} → ((n : ℕ) → P n → Q n) → From P → From Q
From-map f (bound, p) = (bound, λ n h. f n (p n h))

pub From-both : {P Q : ℕ → Type 0} → From P → From Q → From (λ n. P n × Q n)
From-both (a, p) (b, q) = (a + b, λ n h. (p n (omega arith), q n (omega arith)))

pub From-both3 : {P Q R : ℕ → Type 0} → From P → From Q → From R → From (λ n. P n × Q n × R n)
From-both3 p q r = From-map (λ n (x, (y, z)). (x, y, z)) (From-both p (From-both q r))

pub From-both4 :
    {P Q R S : ℕ → Type 0} → From P → From Q → From R → From S → From (λ n. P n × Q n × R n × S n)
From-both4 p q r s = From-map (λ n (x, (y, z, w)). (x, y, z, w)) (From-both p (From-both3 q r s))

-- One unit of fuel spent in front.
pub From-suc : {P Q : ℕ → Type 0} → ((n : ℕ) → P n → Q (suc n)) → From P → From Q
From-suc {P} {Q} f (bound, p) = (suc bound, spent)
  where
    spent : (n : ℕ) → suc bound ≤ n → Q n
    spent zero h = absurd (omega arith)
    spent (suc n) h = f n (p n (omega arith))

pub From-shift : {P : ℕ → Type 0} → From P → From λ n. P (suc n)
From-shift (bound, f) = (bound, λ n h. f (suc n) (omega arith))

-- What needs a unit of fuel and no more.
pub From-one : {P : ℕ → Type 0} → ((n : ℕ) → P (suc n)) → From P
From-one f = From-suc {P = λ n. Unit} (λ n _. f n) (0, λ n _. tt)

-- `k` units on top of `n`, which computes on `k`.
abbrev pub more : ℕ → ℕ → ℕ
more zero n = n
more (suc k) n = suc (more k n)

pub more-suc : (k n : ℕ) → more k (suc n) ≡ suc (more k n)
more-suc zero n = refl
more-suc (suc k) n = ap {B = ℕ} suc (more-suc k n)

-- A fact at `k` units more is a fact from some fuel on.
pub From-more : {P : ℕ → Type 0} (k : ℕ) → From (λ n. P (more k n)) → From P
From-more {P} zero h = h
From-more {P} (suc k) h = From-suc (λ n p. p) (From-more {P = λ n. P (suc n)} k h)
