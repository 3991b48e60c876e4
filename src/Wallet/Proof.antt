-- ===== src/Wallet/Proof.antt =====
-- The receiver's payment proof (crates/gp-wallet/src/proof.rs). Texts are their bytes; the signature
-- check of crate ed25519-dalek is a parameter.
use goblin_pay.Prelude.{
  ℕ, zero, suc, ◌+◌, ◌-◌, ◌*◌, ◌/◌, ◌%◌, ◌^◌, Bool, false, ◌&&◌, Option, none, some, [], ◌∷◌, ◌++◌,
  if◌then◌else◌, leb, ltb, ◌==◌, length, trim, Text,
}

pub record ReceiverProof : Type 0 where
  pub amount : ℕ
  pub kernel_excess : Text
  pub sender_address : Text
  pub recipient_address : Text
  pub recipient_sig : Text

abbrev pub address_len : ℕ
address_len = 32

abbrev pub signature_len : ℕ
signature_len = 64

abbrev pub commitment_len : ℕ
commitment_len = 33

-- `{:x}` of a digit
abbrev pub low_digit : ℕ → ℕ
low_digit d = if ltb d 10 then b'0' + d else b'a' + (d - 10)

unfoldable pub encode_hex : Text → Text
encode_hex [] = []
encode_hex (b ∷ bs) = low_digit (b / 16) ∷ low_digit (b % 16) ∷ encode_hex bs

-- A hexadecimal digit of either case.
abbrev pub digit_value : ℕ → Option ℕ
digit_value c =
    if leb b'0' c && leb c b'9'
    then some (c - b'0')
    else if leb b'a' c && leb c b'f'
    then some (c - b'a' + 10)
    else if leb b'A' c && leb c b'F'
    then some (c - b'A' + 10)
    else none

abbrev pub two_digits : Option ℕ → Option ℕ → Option ℕ
two_digits (some d) (some e) = some (16 * d + e)
two_digits (some d) none = none
two_digits none e = none

-- `u8::from_str_radix(pair, 16)`, which takes a leading plus sign
abbrev pub byte_of : ℕ → ℕ → Option ℕ
byte_of c d = if c == b'+' then digit_value d else two_digits (digit_value c) (digit_value d)

abbrev pub push_byte : Option ℕ → Option Text → Option Text
push_byte (some b) (some bs) = some (b ∷ bs)
push_byte (some b) none = none
push_byte none bs = none

unfoldable pub bytes_of : Text → Option Text
bytes_of [] = some []
bytes_of (c ∷ []) = none
bytes_of (c ∷ d ∷ cs) = push_byte (byte_of c d) (bytes_of cs)

unfoldable pub decode_trimmed : ℕ → Text → Option Text
unfolding bytes_of
decode_trimmed n hex = if length hex == n * 2 then bytes_of hex else none

unfoldable pub decode_fixed : ℕ → Text → Option Text
unfolding decode_trimmed
decode_fixed n hex = decode_trimmed n (trim hex)

-- `u64::to_be_bytes`
abbrev pub be_bytes : ℕ → ℕ → Text
be_bytes zero n = []
be_bytes (suc k) n = n / 256 ^ k % 256 ∷ be_bytes k n

unfoldable pub proof_message : ℕ → Text → Text → Text
proof_message amount kernel_excess sender_address =
    be_bytes 8 amount ++ (kernel_excess ++ sender_address)

-- The signature check: key, message, signature; false also for bytes that are no key or no signature.
abbrev pub Verifier : Type 0
Verifier = Text → Text → Text → Bool

abbrev pub checked : Verifier → ℕ → Option Text → Option Text → Option Text → Option Text → Bool
checked verify amount (some excess) (some sender) (some recipient) (some sig) =
    verify recipient (proof_message amount excess sender) sig
checked verify amount none sender recipient sig = false
checked verify amount (some excess) none recipient sig = false
checked verify amount (some excess) (some sender) none sig = false
checked verify amount (some excess) (some sender) (some recipient) none = false

unfoldable pub verify_receiver_proof : Verifier → ReceiverProof → Bool
unfolding decode_fixed proof_message
verify_receiver_proof verify p =
    checked verify p.amount (decode_fixed commitment_len p.kernel_excess)
      (decode_fixed address_len p.sender_address) (decode_fixed address_len p.recipient_address)
      (decode_fixed signature_len p.recipient_sig)
