-- ===== src/Derive/Loop.antt =====
-- The search for a valid scalar (crates/gp-core/src/derive.rs).
use goblin_pay.Prelude.{
  ℕ, zero, suc, ◌+◌, ◌≤◌, ◌<◌, ◌*◌, ◌++◌, [], ◌∷◌, ◌⊎◌, length, ltb, true, false, ◌≡◌, refl, ap,
  ◌∙◌, leb, leb→le, some, List, Bool-cases, inl, inr, arith,
}
use goblin_pay.Derive.{Curve, counters, concat, to_be_bytes, digest, child_from, child_secret}

-- The reader of a number from its bytes, the highest first.
abbrev pub from_be_bytes : ℕ → List ℕ → ℕ
from_be_bytes acc [] = acc
from_be_bytes acc (b ∷ bs) = from_be_bytes (acc * 256 + b) bs

be_bytes_read : (n : ℕ) → n < counters → from_be_bytes 0 (to_be_bytes 4 n) ≡ n
be_bytes_read n h = omega arith

module _ (curve : Curve) (master : List ℕ) (context : List (List ℕ)) where
  -- The counter whose digest the search returns: the first one, from a start on, that gives a scalar.
  pub record IsFirst (start found : ℕ) : Type 0 where
    pub from : start ≤ found
    pub scalar : curve.is_scalar (digest curve master context found) ≡ true
    pub before :
        (c : ℕ) → start ≤ c → c < found → curve.is_scalar (digest curve master context c) ≡ false

  scalar_at :
      (j k : ℕ)
      → j ≤ k
      → k ≤ j
      → curve.is_scalar (digest curve master context j)
        ≡ curve.is_scalar (digest curve master context k)
  scalar_at j k h l = ap (λ n. curve.is_scalar (digest curve master context n)) (omega arith)

  past :
      (start k : ℕ)
      → start ≤ k
      → curve.is_scalar (digest curve master context k) ≡ true
      → curve.is_scalar (digest curve master context start) ≡ false
      → start + 1 ≤ k
  past start k low e q = elim (Bool-cases (leb k start)) [
    | inl t ↦ absurd (cc (e, q, scalar_at k start (leb→le k start t) low))
    | inr t ↦ ground arith
  ]

  -- Every counter from a start on is the start or behind it.
  before_next :
      (start found : ℕ)
      → curve.is_scalar (digest curve master context start) ≡ false
      → IsFirst (start + 1) found
      → IsFirst start found
  before_next start found q first = record {
    from = omega (arith, first.from);
    scalar = first.scalar;
    before = λ c l h. elim (Bool-cases (leb c start)) [
      | inl t ↦ scalar_at c start (leb→le c start t) l ∙ q
      | inr t ↦ first.before c (ground arith) h
    ];
  }

  child_from-IsFirst :
      (rounds start k : ℕ)
      → start ≤ k
      → k < start + rounds
      → curve.is_scalar (digest curve master context k) ≡ true
      → (found : ℕ) × (child_from curve master context rounds start
          ≡ some (digest curve master context found))
        × IsFirst start found
  unfolding child_from
  child_from-IsFirst zero start k low high e = absurd (omega arith)
  child_from-IsFirst (suc rounds) start k low high e =
      elim (Bool-cases (curve.is_scalar (digest curve master context start))) [
        | inl q ↦ rw q (
          start,
          refl,
          record { from = omega arith; scalar = q; before = λ c l h. absurd (omega arith) },
        )
        | inr q ↦ rw q (
            let rest =
              child_from-IsFirst rounds (start + 1) k (past start k low e q) (omega arith) e in
            (rest.0, rest.1, before_next start rest.0 q rest.2))
      ]

  -- What the digest at a counter hashes: the master secret and the context, and behind them, from the
  -- second counter on, the four bytes of the counter, the highest first.
  abbrev pub IsHashOf : ℕ → Type 0
  IsHashOf counter =
      ((counter ≡ 0)
        × (digest curve master context counter ≡ curve.sha256 (master ++ concat context)))
      ⊎ ((suffix : List ℕ) × (digest curve master context counter
            ≡ curve.sha256 ((master ++ concat context) ++ suffix))
          × (length suffix ≡ 4)
          × (from_be_bytes 0 suffix ≡ counter))

  digest-IsHashOf : (counter : ℕ) → counter < counters → IsHashOf counter
  digest-IsHashOf zero h = inl (refl, refl)
  digest-IsHashOf (suc c) h =
      let counted : ltb 0 (suc c) ≡ true = ground arith in
      inr (to_be_bytes 4 (suc c), rw (counted, digest) refl, refl, be_bytes_read (suc c) h)

  first_below :
      (found k : ℕ)
      → IsFirst 0 found
      → curve.is_scalar (digest curve master context k) ≡ true
      → found ≤ k
  first_below found k first e = elim (Bool-cases (ltb k found)) [
    | inl t ↦ absurd (cc (e, first.before k (omega arith) (ground arith)))
    | inr t ↦ ground arith
  ]

  -- Where some counter of 32 bits gives a valid scalar, the search ends, with the digest of
  -- the first such counter. It is the hash of the master secret and the context, and behind them, if the
  -- counter is not 0, of its four bytes, the highest first.
  pub child_secret-IsFirst :
      (k : ℕ)
      → k < counters
      → curve.is_scalar (digest curve master context k) ≡ true
      → (found : ℕ) × (child_secret curve master context ≡ some (digest curve master context found))
        × IsFirst 0 found
        × IsHashOf found
  unfolding child_secret
  child_secret-IsFirst k h e =
      let (found, found_at, first) = child_from-IsFirst counters 0 k (omega arith) h e in
      let below : found ≤ k = first_below found k first e in
      (found, found_at, first, digest-IsHashOf found (omega arith))
