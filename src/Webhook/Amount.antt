-- ===== src/Webhook/Amount.antt =====
-- Amounts as text: `nanogrin_to_grin` (crates/gp-core/src/webhook.rs). Text is a list of codes.
use goblin_pay.Prelude.{ℕ, zero, suc, ◌+◌, ◌/◌, ◌%◌, List, [], ◌∷◌, ◌++◌, if◌then◌else◌, ltb, ◌==◌}

abbrev pub grin_base : ℕ
grin_base = 1_000_000_000

abbrev pub digit : ℕ → ℕ
digit d = b'0' + d

-- The last `k` decimal digits of `n`: `{n:0k}` where `n < 10 ^ k`.
unfoldable pub pad : ℕ → ℕ → List ℕ
pad zero n = []
pad (suc k) n = pad k (n / 10) ++ digit (n % 10) ∷ []

-- A character in front of what is left of a text after trimming.
abbrev pub put_front : ℕ → List ℕ → List ℕ
put_front c [] = if c == b'0' then [] else c ∷ []
put_front c (x ∷ xs) = c ∷ x ∷ xs

-- `trim_end_matches('0')`
unfoldable pub trim_zeros : List ℕ → List ℕ
trim_zeros [] = []
trim_zeros (c ∷ cs) = put_front c (trim_zeros cs)

-- A number in decimal, on fuel; 20 digits hold every `u64`.
unfoldable pub decimal_from : ℕ → ℕ → List ℕ → List ℕ
decimal_from zero n acc = acc
decimal_from (suc f) n acc =
    let more = decimal_from f (n / 10) (digit (n % 10) ∷ acc) in
    if ltb n 10 then digit n ∷ acc else more

unfoldable pub decimal : ℕ → List ℕ
decimal n = decimal_from 20 n []

unfoldable pub nanogrin_to_grin : ℕ → List ℕ
nanogrin_to_grin nano =
    if nano % grin_base == 0
    then decimal (nano / grin_base)
    else decimal (nano / grin_base) ++ b'.' ∷ trim_zeros (pad 9 (nano % grin_base))
