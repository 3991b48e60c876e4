-- ===== src/Confirm.antt =====
-- On-chain confirmation of one kernel (crates/gp-wallet/src/confirm.rs). The node is a parameter.
-- A text is its list of codes; it is ASCII, since a slice inside a character would panic.
use goblin_pay.Prelude.{
  ℕ, ◌+◌, ◌-◌, ◌*◌, Bool, true, false, ◌&&◌, Option, none, some, List, [], ◌∷◌, if◌then◌else◌, leb,
  ◌==◌, length, String, codes, trim,
}

pub record ConfirmStatus : Type 0 where
  pub confirmed : Bool
  pub height : Option ℕ
  pub confirmations : Option ℕ
  pub kernel_excess : String

-- The node client: the height of the tip, and of a kernel if it is on the chain; `none` is an error.
pub record Node : Type 0 where
  pub chain_tip : Option ℕ
  pub kernel_height : List ℕ → Option (Option ℕ)

unfoldable pub interpret : ℕ → Option ℕ → String → ConfirmStatus
interpret tip none excess = record {
  confirmed = false;
  height = none;
  confirmations = none;
  kernel_excess = excess;
}
interpret tip (some h) excess = record {
  confirmed = true;
  height = some h;
  confirmations = some (tip - h + 1);
  kernel_excess = excess;
}

abbrev pub hex_digit : ℕ → Option ℕ
hex_digit c =
    if leb b'0' c && leb c b'9'
    then some (c - b'0')
    else if leb b'a' c && leb c b'f'
    then some (c - b'a' + 10)
    else if leb b'A' c && leb c b'F'
    then some (c - b'A' + 10)
    else none

abbrev pub two_digits : Option ℕ → Option ℕ → Option ℕ
two_digits (some h) (some l) = some (16 * h + l)
two_digits (some h) none = none
two_digits none l = none

-- `u8::from_str_radix(…, 16)` of two characters: a plus sign may stand before one digit.
abbrev pub hex_byte : ℕ → ℕ → Option ℕ
hex_byte c d = if c == b'+' then hex_digit d else two_digits (hex_digit c) (hex_digit d)

abbrev pub cons_byte : Option ℕ → Option (List ℕ) → Option (List ℕ)
cons_byte (some b) (some bs) = some (b ∷ bs)
cons_byte (some b) none = none
cons_byte none bs = none

-- `none` also where the number of characters is odd.
unfoldable pub decode_hex : List ℕ → Option (List ℕ)
decode_hex [] = some []
decode_hex (c ∷ []) = none
decode_hex (c ∷ d ∷ cs) = cons_byte (hex_byte c d) (decode_hex cs)

abbrev pub commitment_len : ℕ
commitment_len = 33

abbrev pub checked_commitment : Option (List ℕ) → Option (List ℕ)
checked_commitment none = none
checked_commitment (some bytes) = if length bytes == commitment_len then some bytes else none

unfoldable pub parse_commitment : List ℕ → Option (List ℕ)
unfolding decode_hex
parse_commitment hex = checked_commitment (decode_hex (trim hex))

-- Each of the three steps may fail.
abbrev pub status_of : Node → String → Option (List ℕ) → Option ConfirmStatus
status_of node excess none = none
status_of node excess (some commitment) = elim node.chain_tip [
  | none ↦ none
  | some tip ↦ elim (node.kernel_height commitment) [
    | none ↦ none
    | some h ↦ some (interpret tip h excess)
  ]
]

unfoldable pub confirm_status : Node → String → Option ConfirmStatus
unfolding parse_commitment interpret
confirm_status node excess = status_of node excess (parse_commitment (codes excess))
