-- ===== src/Checkout/Uri.antt =====
-- The pay-URI of an invoice (crates/gp-server/src/checkout.rs, pay_uri and percent_encode). A text is
-- the list of its characters.
use goblin_pay.Prelude.{
  ℕ, ◌+◌, ◌-◌, ◌/◌, ◌%◌, String, Bool, ◌&&◌, ◌||◌, Option, none, some, List, [], ◌∷◌, ◌++◌,
  if◌then◌else◌, ltb, leb, ◌==◌, codes, trim, Text, utf8, is_blank,
}
use goblin_pay.Prelude.Int.{ℤ, pos, as_u64, ltb_ℤ}
use goblin_pay.Store.{Invoice}
use goblin_pay.Webhook.Amount.{nanogrin_to_grin}

abbrev pub is_unreserved : ℕ → Bool
is_unreserved b =
    (leb b'A' b && leb b b'Z')
    || (leb b'a' b && leb b b'z')
    || (leb b'0' b && leb b b'9')
    || b == b'-'
    || b == b'.'
    || b == b'_'
    || b == b'~'

-- `{:X}` of a digit
abbrev pub hex_digit : ℕ → ℕ
hex_digit d = if ltb d 10 then b'0' + d else b'A' + (d - 10)

abbrev pub escaped : ℕ → Text
escaped b = b'%' ∷ hex_digit (b / 16) ∷ hex_digit (b % 16) ∷ []

unfoldable pub encode_bytes : List ℕ → Text
encode_bytes [] = []
encode_bytes (b ∷ bs) =
    let rest = encode_bytes bs in if is_unreserved b then b ∷ rest else escaped b ++ rest

unfoldable pub percent_encode : Text → Text
unfolding encode_bytes
percent_encode s = encode_bytes (utf8 s)

-- `uri.push(sep)`, the name with its equals sign, and the value; the next separator is `&`.
abbrev pub push_param : String → Text → Text × ℕ → Text × ℕ
push_param name value (uri, sep) = (uri ++ sep ∷ (codes name ++ value), b'&')

abbrev pub with_amount : Option ℤ → Text × ℕ → Text × ℕ
with_amount none u = u
with_amount (some nano) u =
    if ltb_ℤ (pos 0) nano then push_param "amount=" (nanogrin_to_grin (as_u64 nano)) u else u

abbrev pub with_trimmed : Text → Text × ℕ → Text × ℕ
with_trimmed memo u = if is_blank memo then u else push_param "memo=" (percent_encode memo) u

abbrev pub with_memo : Option String → Text × ℕ → Text × ℕ
with_memo none u = u
with_memo (some memo) u = with_trimmed (trim (codes memo)) u

unfoldable pub pay_uri : Text → Invoice → Text
unfolding percent_encode
pay_uri nprofile inv =
    (with_memo inv.memo_text
      (with_amount inv.expected_amount (codes "goblin:" ++ nprofile, b'?'))).0
