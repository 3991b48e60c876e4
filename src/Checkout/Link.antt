-- ===== src/Checkout/Link.antt =====
-- The pay-URI read back (crates/gp-server/src/checkout.rs).
use goblin_pay.Prelude.{
  ℕ, zero, suc, ◌+◌, ◌-◌, ◌*◌, ◌/◌, ◌%◌, ◌<◌, ◌≡◌, refl, ap, ◌∙◌, String, Bool, true, false, ◌&&◌,
  Option, none, some, List, [], ◌∷◌, ◌++◌, append_assoc, All, if◌then◌else◌, ltb, leb, ◌==◌,
  Bool-cases, inl, inr, codes, trim, Text, utf8, from_utf8, push, IsByte, IsChar, utf8-IsByte,
  from_utf8-utf8, is_blank, split, split_once, split_once-append, split_once-Without, Without,
  split-append, split-Without, keep_some, arith,
}
use goblin_pay.Prelude.Int.{ℤ, pos, as_u64, ltb_ℤ}
use goblin_pay.Store.{Invoice}
use goblin_pay.Webhook.Amount.{
  digit, pad, put_front, trim_zeros, decimal_from, decimal, nanogrin_to_grin,
}
use goblin_pay.Checkout.Uri.{
  is_unreserved, hex_digit, escaped, encode_bytes, percent_encode, with_amount, with_trimmed,
  with_memo, pay_uri,
}

-- The reader of a percent-encoded text (RFC 3986, section 2.1).
abbrev pub hex_value : ℕ → Option ℕ
hex_value c =
    if leb b'0' c && leb c b'9'
    then some (c - b'0')
    else if leb b'A' c && leb c b'F'
    then some (c - b'A' + 10)
    else none

pub data Pending : Type 0 where
  plain high : Pending
  low : ℕ → Pending

abbrev pub on_digit : Option ℕ → (ℕ → Option Text) → Option Text
on_digit none f = none
on_digit (some d) f = f d

abbrev pub decode_from : Text → Pending → Option Text
decode_from [] plain = some []
decode_from [] high = none
decode_from [] (low d) = none
decode_from (c ∷ cs) plain =
    let literal = push c (decode_from cs plain) in
    let escape = decode_from cs high in if c == b'%' then escape else literal
decode_from (c ∷ cs) high = on_digit (hex_value c) (λ d. decode_from cs (low d))
decode_from (c ∷ cs) (low d) =
    on_digit (hex_value c) (λ e. push (16 * d + e) (decode_from cs plain))

abbrev pub percent_decode : Text → Option Text
percent_decode s = decode_from s plain

hex_value-hex_digit : (d : ℕ) → d < 16 → hex_value (hex_digit d) ≡ some d
hex_value-hex_digit d h = ground arith

decode-escaped :
    (b : ℕ) (s : Text)
    → IsByte b
    → decode_from (escaped b ++ s) plain ≡ push b (decode_from s plain)
decode-escaped b s h =
    let q : 16 * (b / 16) + b % 16 ≡ b = omega arith in
    rw (hex_value-hex_digit (b / 16) (omega arith), hex_value-hex_digit (b % 16) (omega arith), q)

unreserved_literal : (b : ℕ) → is_unreserved b ≡ true → (b == b'%') ≡ false
unreserved_literal b h = ground (arith, h)

-- Bytes come back from their percent-encoding.
pub percent_decode-encode_bytes :
    (s : Text) → All IsByte s → percent_decode (encode_bytes s) ≡ some s
unfolding encode_bytes
percent_decode-encode_bytes [] h = refl
percent_decode-encode_bytes (b ∷ bs) h =
    let later = percent_decode-encode_bytes bs h.1 in
    elim (Bool-cases (is_unreserved b)) [
      | inl e ↦ rw (e, unreserved_literal b e, later)
      | inr e ↦ rw e (decode-escaped b (encode_bytes bs) h.0 ∙ ap (push b) later)
    ]

-- What a wallet reads of a link: the text before the query, and the named values of the query.
abbrev pub fields_of : Option (Text × Text) → Text → Text × List (Text × Text)
fields_of none uri = (uri, [])
fields_of (some (path, query)) uri = (path, keep_some (split_once b'=') (split b'&' query))

abbrev pub read_link : Text → Text × List (Text × Text)
read_link uri = fields_of (split_once b'?' uri) uri

abbrev pub amount_field : Option ℤ → List (Text × Text)
amount_field none = []
amount_field (some nano) =
    if ltb_ℤ (pos 0) nano then (codes "amount", nanogrin_to_grin (as_u64 nano)) ∷ [] else []

abbrev pub trimmed_field : Text → List (Text × Text)
trimmed_field memo = if is_blank memo then [] else (codes "memo", percent_encode memo) ∷ []

abbrev pub memo_field : Option String → List (Text × Text)
memo_field none = []
memo_field (some memo) = trimmed_field (trim (codes memo))

-- The codes of amounts: digits and the point.
abbrev is_numeral : ℕ → Bool
is_numeral c = leb b'.' c && leb c b'9'

abbrev IsNumeral : ℕ → Type 0
IsNumeral c = is_numeral c ≡ true

All-append : (s t : Text) → All IsNumeral s → All IsNumeral t → All IsNumeral (s ++ t)
All-append [] t h k = k
All-append (c ∷ cs) t h k = (h.0, All-append cs t h.1 k)

pad_numerals : (k n : ℕ) → All IsNumeral (pad k n)
unfolding pad
pad_numerals zero n = tt
pad_numerals (suc k) n =
    All-append (pad k (n / 10)) (digit (n % 10) ∷ []) (pad_numerals k (n / 10)) (ground arith, tt)

put_front_numerals :
    (c : ℕ) (cs : Text) → IsNumeral c → All IsNumeral cs → All IsNumeral (put_front c cs)
put_front_numerals c [] h k = elim (Bool-cases (c == b'0')) [
  | inl e ↦ rw e tt
  | inr e ↦ rw e (h, tt)
]
put_front_numerals c (x ∷ xs) h k = (h, k)

trim_numerals : (cs : Text) → All IsNumeral cs → All IsNumeral (trim_zeros cs)
unfolding trim_zeros
trim_numerals [] h = tt
trim_numerals (c ∷ cs) h = put_front_numerals c (trim_zeros cs) h.0 (trim_numerals cs h.1)

decimal_from_numerals :
    (f n : ℕ) (acc : Text) → All IsNumeral acc → All IsNumeral (decimal_from f n acc)
unfolding decimal_from
decimal_from_numerals zero n acc h = h
decimal_from_numerals (suc f) n acc h = elim (Bool-cases (ltb n 10)) [
  | inl e ↦ rw e (ground (arith, e), h)
  | inr e ↦ rw e (decimal_from_numerals f (n / 10) (digit (n % 10) ∷ acc) (ground arith, h))
]

decimal_numerals : (n : ℕ) → All IsNumeral (decimal n)
unfolding decimal
decimal_numerals n = decimal_from_numerals 20 n [] tt

amount_numerals : (n : ℕ) → All IsNumeral (nanogrin_to_grin n)
unfolding nanogrin_to_grin
amount_numerals n = elim (Bool-cases (n % 1_000_000_000 == 0)) [
  | inl e ↦ rw e (decimal_numerals (n / 1_000_000_000))
  | inr e ↦ rw e (
      All-append (decimal (n / 1_000_000_000)) (b'.' ∷ trim_zeros (pad 9 (n % 1_000_000_000)))
        (decimal_numerals (n / 1_000_000_000))
        (refl, trim_numerals (pad 9 (n % 1_000_000_000)) (pad_numerals 9 (n % 1_000_000_000))))
]

numerals-Without : (s : Text) → All IsNumeral s → Without b'&' s
numerals-Without [] h = tt
numerals-Without (c ∷ cs) h = (ground (arith, h.0), numerals-Without cs h.1)

encode_bytes-Without : (s : Text) → All IsByte s → Without b'&' (encode_bytes s)
unfolding encode_bytes
encode_bytes-Without [] h = tt
encode_bytes-Without (b ∷ bs) h = elim (Bool-cases (is_unreserved b)) [
  | inl e ↦ rw e (ground (arith, e), encode_bytes-Without bs h.1)
  | inr e ↦ rw e (refl, (ground (arith, h.0), (ground (arith, h.0), encode_bytes-Without bs h.1)))
]

percent_encode-Without : (s : Text) → All IsChar s → Without b'&' (percent_encode s)
unfolding percent_encode
percent_encode-Without s h = encode_bytes-Without (utf8 s) (utf8-IsByte s h)

Without-text : (d : ℕ) (s t : Text) → Without d s → Without d t → Without d (s ++ t)
Without-text d [] t h k = k
Without-text d (c ∷ cs) t h k = (h.0, Without-text d cs t h.1 k)

abbrev amount_query : ℕ → Text
amount_query nano = codes "amount=" ++ nanogrin_to_grin nano

abbrev memo_query : Text → Text
memo_query memo = codes "memo=" ++ percent_encode memo

amount_query-Without : (nano : ℕ) → Without b'&' (amount_query nano)
amount_query-Without nano =
    Without-text b'&' (codes "amount=") (nanogrin_to_grin nano) (ground arith)
      (numerals-Without (nanogrin_to_grin nano) (amount_numerals nano))

memo_query-Without : (memo : Text) → All IsChar memo → Without b'&' (memo_query memo)
memo_query-Without memo h =
    Without-text b'&' (codes "memo=") (percent_encode memo) (ground arith)
      (percent_encode-Without memo h)

read_query :
    (path query : Text) (parts : List Text)
    → Without b'?' path
    → split b'&' query ≡ parts
    → read_link (path ++ b'?' ∷ query) ≡ (path, keep_some (split_once b'=') parts)
read_query path query parts h e =
    ap (λ o. fields_of o (path ++ b'?' ∷ query)) (split_once-append b'?' path query refl h)
    ∙ ap (λ ps. (path, keep_some (split_once b'=') ps)) e

read_plain : (path : Text) → Without b'?' path → read_link path ≡ (path, [])
read_plain path h = ap (λ o. fields_of o path) (split_once-Without b'?' path h)

read_memo :
    (path : Text) (memo : Text)
    → Without b'?' path
    → All IsChar memo
    → read_link (with_trimmed memo (path, b'?')).0 ≡ (path, trimmed_field memo)
read_memo path [] h k = read_plain path h
read_memo path (c ∷ cs) h k =
    read_query path (memo_query (c ∷ cs)) (memo_query (c ∷ cs) ∷ []) h
      (split-Without b'&' (memo_query (c ∷ cs)) (memo_query-Without (c ∷ cs) k))

read_amount_memo :
    (path : Text) (nano : ℕ) (memo : Text)
    → Without b'?' path
    → All IsChar memo
    → read_link (with_trimmed memo (path ++ b'?' ∷ amount_query nano, b'&')).0
      ≡ (path, (codes "amount", nanogrin_to_grin nano) ∷ trimmed_field memo)
read_amount_memo path nano [] h k =
    read_query path (amount_query nano) (amount_query nano ∷ []) h
      (split-Without b'&' (amount_query nano) (amount_query-Without nano))
read_amount_memo path nano (c ∷ cs) h k =
    ap read_link (append_assoc path (b'?' ∷ amount_query nano) (b'&' ∷ memo_query (c ∷ cs)))
    ∙ read_query path (amount_query nano ++ b'&' ∷ memo_query (c ∷ cs))
        (amount_query nano ∷ memo_query (c ∷ cs) ∷ []) h
        (split-append b'&' (amount_query nano) (memo_query (c ∷ cs)) (amount_query-Without nano)
            refl
          ∙ ap (λ ps. amount_query nano ∷ ps)
              (split-Without b'&' (memo_query (c ∷ cs)) (memo_query-Without (c ∷ cs) k)))

-- The characters of a trimmed memo.
abbrev pub memo_chars : Option String → Text
memo_chars none = []
memo_chars (some memo) = trim (codes memo)

read_parts :
    (path : Text) (amount : Option ℤ) (memo : Option String)
    → Without b'?' path
    → All IsChar (memo_chars memo)
    → read_link (with_memo memo (with_amount amount (path, b'?'))).0
      ≡ (path, amount_field amount ++ memo_field memo)
read_parts path none none h k = read_plain path h
read_parts path none (some memo) h k = read_memo path (trim (codes memo)) h k
read_parts path (some nano) none h k = elim (Bool-cases (ltb_ℤ (pos 0) nano)) [
  | inl e ↦ rw e (read_amount_memo path (as_u64 nano) [] h tt)
  | inr e ↦ rw e (read_plain path h)
]
read_parts path (some nano) (some memo) h k = elim (Bool-cases (ltb_ℤ (pos 0) nano)) [
  | inl e ↦ rw e (read_amount_memo path (as_u64 nano) (trim (codes memo)) h k)
  | inr e ↦ rw e (read_memo path (trim (codes memo)) h k)
]

-- A wallet that reads the link of an invoice, at the question mark, the ampersands and the equals
-- signs, finds the profile behind the scheme and exactly these fields: the amount, if it is
-- positive, as a Grin number, then the trimmed memo, if it is not empty, in an encoding that
-- decodes to its UTF-8 bytes, which read as its characters. The profile has no question mark.
pub read_link-pay_uri :
    (nprofile : Text) (inv : Invoice)
    → Without b'?' nprofile
    → All IsChar (memo_chars inv.memo_text)
    → (read_link (pay_uri nprofile inv) ≡ (
      codes "goblin:" ++ nprofile,
      amount_field inv.expected_amount ++ memo_field inv.memo_text,
    ))
      × (percent_decode (percent_encode (memo_chars inv.memo_text))
          ≡ some (utf8 (memo_chars inv.memo_text)))
      × (from_utf8 (utf8 (memo_chars inv.memo_text)) ≡ some (memo_chars inv.memo_text))
unfolding pay_uri percent_encode
read_link-pay_uri nprofile inv h k = (
  read_parts (codes "goblin:" ++ nprofile) inv.expected_amount inv.memo_text
      (Without-text b'?' (codes "goblin:") nprofile (ground arith) h) k,
  percent_decode-encode_bytes (utf8 (memo_chars inv.memo_text)) (utf8-IsByte _ k),
  from_utf8-utf8 (memo_chars inv.memo_text) k,
)
