-- ===== src/Derive.antt =====
-- Child identities of the server's Nostr secret (crates/gp-core/src/derive.rs). The hash of crate
-- sha2 and the scalars and public keys of crate secp256k1 are arguments; a secret is its 32 bytes.
use goblin_pay.Prelude.{
  ℕ, zero, suc, ◌+◌, ◌/◌, ◌%◌, ◌^◌, String, Bool, Option, none, some, List, [], ◌∷◌, ◌++◌,
  if◌then◌else◌, ltb, codes, utf8,
}
pub mod Loop
use mathlib.Core.Option

pub record Curve : Type 0 where
  pub sha256 : List ℕ → List ℕ
  pub is_scalar : List ℕ → Bool
  pub xonly_hex : List ℕ → String

-- `to_be_bytes` of a number of so many bytes
abbrev pub to_be_bytes : ℕ → ℕ → List ℕ
to_be_bytes zero n = []
to_be_bytes (suc w) n = n / 256 ^ w % 256 ∷ to_be_bytes w n

abbrev pub concat : List (List ℕ) → List ℕ
concat [] = []
concat (part ∷ parts) = part ++ concat parts

-- How many counters a u32 has.
abbrev pub counters : ℕ
counters = 4_294_967_296

module _ (curve : Curve) where
  -- The digest at a counter; the first has no counter appended.
  abbrev pub digest : List ℕ → List (List ℕ) → ℕ → List ℕ
  digest master context counter =
      let base = master ++ concat context in
      curve.sha256 (if ltb 0 counter then base ++ to_be_bytes 4 counter else base)

  -- So many rounds of the loop from a counter on; none where no round finds a scalar.
  unfoldable pub child_from : List ℕ → List (List ℕ) → ℕ → ℕ → Option (List ℕ)
  child_from master context zero counter = none
  child_from master context (suc rounds) counter =
      let rest = child_from master context rounds (counter + 1) in
      if curve.is_scalar (digest master context counter)
      then some (digest master context counter)
      else rest

  -- None is where no 32-bit counter gives a scalar.
  unfoldable pub child_secret : List ℕ → List (List ℕ) → Option (List ℕ)
  child_secret master context = child_from master context counters 0

  unfoldable pub child_pubkey_hex : List ℕ → List (List ℕ) → Option String
  child_pubkey_hex master context = Option.map curve.xonly_hex (child_secret master context)

  abbrev pub invoice_context : String → List (List ℕ)
  invoice_context invoice_id = utf8 (codes invoice_id) ∷ []

  abbrev pub endpub_context : String → ℕ → List (List ℕ)
  endpub_context user_id epoch = utf8 (codes user_id) ∷ to_be_bytes 8 epoch ∷ []

  abbrev pub invoice_secret : List ℕ → String → Option (List ℕ)
  invoice_secret master invoice_id = child_secret master (invoice_context invoice_id)

  abbrev pub invoice_pubkey_hex : List ℕ → String → Option String
  invoice_pubkey_hex master invoice_id = child_pubkey_hex master (invoice_context invoice_id)

  abbrev pub endpub_secret : List ℕ → String → ℕ → Option (List ℕ)
  endpub_secret master user_id epoch = child_secret master (endpub_context user_id epoch)

  abbrev pub endpub_pubkey_hex : List ℕ → String → ℕ → Option String
  endpub_pubkey_hex master user_id epoch = child_pubkey_hex master (endpub_context user_id epoch)
