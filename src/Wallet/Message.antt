-- ===== src/Wallet/Message.antt =====
-- What the message of a payment proof binds, and the hexadecimal text of its fields
-- (crates/gp-wallet/src/proof.rs).
use goblin_pay.Prelude.{
  ℕ, ◌*◌, ◌/◌, ◌%◌, ◌^◌, ◌<◌, ◌≡◌, refl, ap, ◌∙◌, true, false, some, [], ◌∷◌, ◌++◌, All, ◌==◌,
  length, is_space, trim, trim_end, keep_end, Text, arith,
}
use goblin_pay.Wallet.Proof.{
  low_digit, encode_hex, digit_value, byte_of, push_byte, bytes_of, decode_trimmed, decode_fixed,
  be_bytes, proof_message,
}

digit_value-low_digit : (d : ℕ) → d < 16 → digit_value (low_digit d) ≡ some d
digit_value-low_digit d h = ground arith

low_digit_plain :
    (d : ℕ) → d < 16 → ((low_digit d == b'+') ≡ false) × (is_space (low_digit d) ≡ false)
low_digit_plain d h = ground arith

byte_of-low_digit : (b : ℕ) → b < 256 → byte_of (low_digit (b / 16)) (low_digit (b % 16)) ≡ some b
byte_of-low_digit b h =
    rw
      (
        (low_digit_plain (b / 16) (omega arith)).0,
        digit_value-low_digit (b / 16) (omega arith),
        digit_value-low_digit (b % 16) (omega arith),
      )
      (ap some (omega arith))

bytes_of-encode_hex : (bs : Text) → All (λ b. b < 256) bs → bytes_of (encode_hex bs) ≡ some bs
unfolding bytes_of encode_hex
bytes_of-encode_hex [] h = refl
bytes_of-encode_hex (b ∷ bs) h =
    ap (λ o. push_byte o (bytes_of (encode_hex bs))) (byte_of-low_digit b h.0)
    ∙ ap (push_byte (some b)) (bytes_of-encode_hex bs h.1)

length-encode_hex : (bs : Text) → length (encode_hex bs) ≡ length bs * 2
unfolding encode_hex
length-encode_hex [] = refl
length-encode_hex (b ∷ bs) = omega (arith, length-encode_hex bs)

trim_end-encode_hex : (bs : Text) → All (λ b. b < 256) bs → trim_end (encode_hex bs) ≡ encode_hex bs
unfolding encode_hex
trim_end-encode_hex [] h = refl
trim_end-encode_hex (b ∷ bs) h = rw (trim_end-encode_hex bs h.1) (kept (encode_hex bs))
  where
    kept :
        (rest : Text)
        → keep_end (low_digit (b / 16)) (keep_end (low_digit (b % 16)) rest)
          ≡ low_digit (b / 16) ∷ low_digit (b % 16) ∷ rest
    kept [] = rw ((low_digit_plain (b % 16) (omega arith)).1) refl
    kept (c ∷ cs) = refl

trim-encode_hex : (bs : Text) → All (λ b. b < 256) bs → trim (encode_hex bs) ≡ encode_hex bs
unfolding encode_hex
trim-encode_hex [] h = refl
trim-encode_hex (b ∷ bs) h =
    rw ((low_digit_plain (b / 16) (omega (arith, h.0))).1) (trim_end-encode_hex (b ∷ bs) h)

-- Bytes written in hexadecimal are read back, if as many are asked for.
pub decode_fixed-encode_hex :
    (bs : Text) → All (λ b. b < 256) bs → decode_fixed (length bs) (encode_hex bs) ≡ some bs
unfolding decode_fixed decode_trimmed
decode_fixed-encode_hex bs h =
    let same : (length bs * 2 == length bs * 2) ≡ true = ground arith in
    rw (trim-encode_hex bs h) (rw (length-encode_hex bs) (rw same (bytes_of-encode_hex bs h)))

cons_inj : (c d : ℕ) (s t : Text) → c ∷ s ≡ d ∷ t → (c ≡ d) × (s ≡ t)
cons_inj c d s t e = (cc e, cc e)

be_bytes_inj : (m n : ℕ) → m < 2 ^ 64 → n < 2 ^ 64 → be_bytes 8 m ≡ be_bytes 8 n → m ≡ n
be_bytes_inj m n h g e =
    let (e7, r7) =
      cons_inj (m / 256 ^ 7 % 256) (n / 256 ^ 7 % 256) (be_bytes 7 m) (be_bytes 7 n) e in
    let (e6, r6) =
      cons_inj (m / 256 ^ 6 % 256) (n / 256 ^ 6 % 256) (be_bytes 6 m) (be_bytes 6 n) r7 in
    let (e5, r5) =
      cons_inj (m / 256 ^ 5 % 256) (n / 256 ^ 5 % 256) (be_bytes 5 m) (be_bytes 5 n) r6 in
    let (e4, r4) =
      cons_inj (m / 256 ^ 4 % 256) (n / 256 ^ 4 % 256) (be_bytes 4 m) (be_bytes 4 n) r5 in
    let (e3, r3) =
      cons_inj (m / 256 ^ 3 % 256) (n / 256 ^ 3 % 256) (be_bytes 3 m) (be_bytes 3 n) r4 in
    let (e2, r2) =
      cons_inj (m / 256 ^ 2 % 256) (n / 256 ^ 2 % 256) (be_bytes 2 m) (be_bytes 2 n) r3 in
    let (e1, r1) =
      cons_inj (m / 256 ^ 1 % 256) (n / 256 ^ 1 % 256) (be_bytes 1 m) (be_bytes 1 n) r2 in
    let (e0, r0) = cons_inj (m / 256 ^ 0 % 256) (n / 256 ^ 0 % 256) [] [] r1 in
    joined m n h g e7 e6 e5 e4 e3 e2 e1 e0
  where
    step : (a b : ℕ) → a / 256 ≡ b / 256 → a % 256 ≡ b % 256 → a ≡ b
    step a b p q = omega arith

    joined :
        (m n : ℕ)
        → m < 2 ^ 64
        → n < 2 ^ 64
        → m / 256 ^ 7 % 256 ≡ n / 256 ^ 7 % 256
        → m / 256 ^ 6 % 256 ≡ n / 256 ^ 6 % 256
        → m / 256 ^ 5 % 256 ≡ n / 256 ^ 5 % 256
        → m / 256 ^ 4 % 256 ≡ n / 256 ^ 4 % 256
        → m / 256 ^ 3 % 256 ≡ n / 256 ^ 3 % 256
        → m / 256 ^ 2 % 256 ≡ n / 256 ^ 2 % 256
        → m / 256 ^ 1 % 256 ≡ n / 256 ^ 1 % 256
        → m / 256 ^ 0 % 256 ≡ n / 256 ^ 0 % 256
        → m ≡ n
    joined m n h g e7 e6 e5 e4 e3 e2 e1 e0 =
        let a7 : m / 256 ^ 7 ≡ n / 256 ^ 7 = omega arith in
        let a6 : m / 256 ^ 6 ≡ n / 256 ^ 6 = step (m / 256 ^ 6) (n / 256 ^ 6) (omega arith) e6 in
        let a5 : m / 256 ^ 5 ≡ n / 256 ^ 5 = step (m / 256 ^ 5) (n / 256 ^ 5) (omega arith) e5 in
        let a4 : m / 256 ^ 4 ≡ n / 256 ^ 4 = step (m / 256 ^ 4) (n / 256 ^ 4) (omega arith) e4 in
        let a3 : m / 256 ^ 3 ≡ n / 256 ^ 3 = step (m / 256 ^ 3) (n / 256 ^ 3) (omega arith) e3 in
        let a2 : m / 256 ^ 2 ≡ n / 256 ^ 2 = step (m / 256 ^ 2) (n / 256 ^ 2) (omega arith) e2 in
        let a1 : m / 256 ≡ n / 256 = step (m / 256) (n / 256) (omega arith) e1 in
        step m n a1 (omega arith)

split_equal : (s t u v : Text) → length s ≡ length t → s ++ u ≡ t ++ v → (s ≡ t) × (u ≡ v)
split_equal [] [] u v h e = (refl, e)
split_equal [] (d ∷ t) u v h e = absurd (cc h)
split_equal (c ∷ s) [] u v h e = absurd (cc h)
split_equal (c ∷ s) (d ∷ t) u v h e =
    let (head, tail) = cons_inj c d (s ++ u) (t ++ v) e in
    let (same, rest) = split_equal s t u v (omega arith) tail in
    (ap (λ x. x ∷ s) head ∙ ap (λ r. d ∷ r) same, rest)

-- The signed message says one thing only: two proofs with the same message state the same amount, the
-- same kernel and the same payer, if their amounts are 64-bit numbers and their kernels are as long
-- as each other.
pub proof_message-binds :
    (amount amount' : ℕ) (kernel kernel' sender sender' : Text)
    → amount < 2 ^ 64
    → amount' < 2 ^ 64
    → length kernel ≡ length kernel'
    → proof_message amount kernel sender ≡ proof_message amount' kernel' sender'
    → (amount ≡ amount') × (kernel ≡ kernel') × (sender ≡ sender')
unfolding proof_message
proof_message-binds amount amount' kernel kernel' sender sender' h g l e =
    let (first, rest) =
      split_equal (be_bytes 8 amount) (be_bytes 8 amount') (kernel ++ sender) (kernel' ++ sender')
        refl e in
    let (middle, last) = split_equal kernel kernel' sender sender' l rest in
    (be_bytes_inj amount amount' h g first, middle, last)
