-- ===== src/Webhook/Decimal.antt =====
-- Amounts read back: `nanogrin_to_grin` loses nothing.
use goblin_pay.Prelude.{
  ℕ, zero, suc, ◌+◌, ◌-◌, ◌*◌, ◌/◌, ◌%◌, ◌^◌, ◌<◌, ◌≡◌, refl, sym, ap, ◌∙◌, true, false, List, [],
  ◌∷◌, append-nil, ◌++◌, if◌then◌else◌, ltb, ◌==◌, Bool-cases, inl, inr, arith,
}
use native.Mathlib.Nat.{pow-suc}
use goblin_pay.Webhook.Amount.{
  grin_base, digit, pad, put_front, trim_zeros, decimal_from, decimal, nanogrin_to_grin,
}

-- A reader of decimal amounts, in nanogrin: digits, then perhaps a point and a fraction, whose first
-- digit has the weight `w`.
read_fraction : ℕ → List ℕ → ℕ
read_fraction w [] = 0
read_fraction w (c ∷ cs) = (c - 48) * w + read_fraction (w / 10) cs

read_amount_from : ℕ → List ℕ → ℕ
read_amount_from whole [] = whole * 1_000_000_000
read_amount_from whole (c ∷ cs) =
    let rest = read_amount_from (whole * 10 + (c - 48)) cs in
    if c == b'.' then whole * 1_000_000_000 + read_fraction 100_000_000 cs else rest

pub read_amount : List ℕ → ℕ
read_amount cs = read_amount_from 0 cs

fraction-put_front :
    (w c : ℕ) (cs : List ℕ)
    → read_fraction w (put_front c cs) ≡ (c - 48) * w + read_fraction (w / 10) cs
unfolding read_fraction
fraction-put_front w c [] = elim (Bool-cases (c == b'0')) [
  | inl e ↦ let q : c ≡ 48 = ground arith in rw (e, q) (omega arith)
  | inr e ↦ rw e
]
fraction-put_front w c (x ∷ xs) = refl

fraction-trim : (w : ℕ) (cs : List ℕ) → read_fraction w (trim_zeros cs) ≡ read_fraction w cs
unfolding read_fraction trim_zeros
fraction-trim w [] = refl
fraction-trim w (c ∷ cs) =
    fraction-put_front w c (trim_zeros cs) ∙ ap (λ r. (c - 48) * w + r) (fraction-trim (w / 10) cs)

digit_value : (d : ℕ) → digit d - 48 ≡ d
digit_value d = omega arith

fraction-pad : (n : ℕ) → n < 1_000_000_000 → read_fraction 100_000_000 (pad 9 n) ≡ n
unfolding read_fraction pad
fraction-pad n h = simp digit_value (omega arith)

read-digit :
    (whole d : ℕ) (cs : List ℕ)
    → d < 10
    → read_amount_from whole (digit d ∷ cs) ≡ read_amount_from (whole * 10 + d) cs
unfolding read_amount_from
read-digit whole d cs h = let e : (digit d == b'.') ≡ false = ground arith in rw (e, digit_value d)

read-digit_first :
    (d : ℕ) (cs : List ℕ) → d < 10 → read_amount_from 0 (digit d ∷ cs) ≡ read_amount_from d cs
read-digit_first d cs h = read-digit 0 d cs h ∙ ap (λ m. read_amount_from m cs) (omega arith)

-- The digits of the whole part, read in front of more text.
read-decimal_from :
    (f n : ℕ) (acc rest : List ℕ)
    → n < 10 ^ suc f
    → read_amount_from 0 (decimal_from (suc f) n acc ++ rest) ≡ read_amount_from n (acc ++ rest)
unfolding decimal_from
read-decimal_from zero n acc rest h =
    let e : ltb n 10 ≡ true = ground arith in rw e (read-digit_first n (acc ++ rest) (omega arith))
read-decimal_from (suc f) n acc rest h = elim (Bool-cases (ltb n 10)) [
  | inl e ↦ rw e (read-digit_first n (acc ++ rest) (ground arith))
  | inr e ↦ rw e (
      read-decimal_from f (n / 10) (digit (n % 10) ∷ acc) rest (omega (arith, pow-suc 10 (suc f)))
      ∙ read-digit (n / 10) (n % 10) (acc ++ rest) (omega arith)
      ∙ ap (λ m. read_amount_from m (acc ++ rest)) (omega arith))
]

read-decimal :
    (n : ℕ) (rest : List ℕ)
    → n < 10 ^ 20
    → read_amount_from 0 (decimal n ++ rest) ≡ read_amount_from n rest
unfolding decimal
read-decimal n rest h = read-decimal_from 19 n [] rest h

read-point :
    (n : ℕ) (cs : List ℕ)
    → read_amount_from n (b'.' ∷ cs) ≡ n * 1_000_000_000 + read_fraction 100_000_000 cs
unfolding read_amount_from
read-point n cs = refl

read-end : (n : ℕ) → read_amount_from n [] ≡ n * 1_000_000_000
unfolding read_amount_from
read-end n = refl

read-whole :
    (nano : ℕ)
    → nano < 2 ^ 64
    → nano % grin_base ≡ 0
    → read_amount_from 0 (decimal (nano / grin_base)) ≡ nano
read-whole nano h e =
    ap (read_amount_from 0) (sym (append-nil (decimal (nano / grin_base))))
    ∙ read-decimal (nano / grin_base) [] (omega arith)
    ∙ read-end (nano / grin_base)
    ∙ omega arith

read-mixed :
    (nano : ℕ)
    → nano < 2 ^ 64
    → read_amount_from 0
        (decimal (nano / grin_base) ++ b'.' ∷ trim_zeros (pad 9 (nano % grin_base)))
      ≡ nano
read-mixed nano h =
    read-decimal (nano / grin_base) _ (omega arith)
    ∙ read-point (nano / grin_base) (trim_zeros (pad 9 (nano % grin_base)))
    ∙ ap (λ r. nano / grin_base * 1_000_000_000 + r)
        (fraction-trim 100_000_000 (pad 9 (nano % grin_base))
          ∙ fraction-pad (nano % grin_base) (omega arith))
    ∙ omega arith

-- Reading the text of any 64-bit amount gives the amount back.
pub read_amount-nanogrin_to_grin :
    (nano : ℕ) → nano < 2 ^ 64 → read_amount (nanogrin_to_grin nano) ≡ nano
unfolding read_amount nanogrin_to_grin
read_amount-nanogrin_to_grin nano h = elim (Bool-cases (nano % grin_base == 0)) [
  | inl e ↦ rw e (read-whole nano h (ground arith))
  | inr e ↦ rw e (read-mixed nano h)
]
