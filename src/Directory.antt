-- ===== src/Directory.antt =====
-- The directory of keys (crates/gp-server/src/directory.rs): which identity an incoming gift wrap is
-- for. Keys and secrets are those of crate nostr-sdk; the derivation of a child secret and the
-- public key of a secret are arguments.
pub mod Watch
use goblin_pay.Prelude.{
  ℕ, String, Bool, ◌&&◌, Option, none, some, List, [], ◌∷◌, if◌then◌else◌, str_eq, unwrap_or,
  select,
}
use goblin_pay.Prelude.Int.{ℤ, pos, ltb_ℤ}
use goblin_pay.Store.{
  MatchMode, derived, open_status, Invoice, Endpub, Store, Result, ok, err, Action, query, attempt,
}
use goblin_pay.Invoice.{eq_status, eq_mode}
use goblin_pay.Endpub.{rotate_due, watched_pubkeys}

-- `HashMap<String, [u8; 32]>`, from the hex of a public key to its secret.
abbrev pub Snapshot : Type 0 → Type 0
Snapshot S = List (String × S)

module _ {S : Type 0} where
  abbrev pub insert : String → S → Snapshot S → Snapshot S
  insert hex secret [] = (hex, secret) ∷ []
  insert hex secret (e ∷ m) = if str_eq e.0 hex then (hex, secret) ∷ m else e ∷ insert hex secret m

  abbrev pub secret_of : String → Snapshot S → Option S
  secret_of hex [] = none
  secret_of hex (e ∷ m) = if str_eq e.0 hex then some e.1 else secret_of hex m

  abbrev pub insert_each : {A : Type 0} → (A → String × S) → List A → Snapshot S → Snapshot S
  insert_each entry [] m = m
  insert_each entry (x ∷ xs) m = insert_each entry xs (insert (entry x).0 (entry x).1 m)

-- A failed scan is logged and gives no row.
abbrev pub rows : {A : Type 0} → Result (List A) → List A
rows (ok xs) = xs
rows (err _) = []

-- `status = 'open' AND COALESCE(match_mode, ?1) = 'derived'`
abbrev pub is_open_derived : MatchMode → Invoice → Bool
is_open_derived default inv =
    eq_status inv.status open_status && eq_mode (unwrap_or inv.match_mode default) derived

abbrev pub derived_invoices : MatchMode → Action (List Invoice)
derived_invoices default = query (λ s. select (is_open_derived default) s.invoices)

-- gp-core `derive`, for one master secret: the secret of an invoice, the secret of a user at an
-- epoch, and the public key of a secret in hex.
pub record Derivation (S : Type 0) : Type 0 where
  pub invoice_secret : String → S
  pub endpub_secret : String → ℕ → S
  pub pubkey_hex : S → String

module _ {S : Type 0} (derive : Derivation S) where
  abbrev pub invoice_entry : Invoice → String × S
  invoice_entry inv = (
    unwrap_or inv.recipient_pubkey (derive.pubkey_hex (derive.invoice_secret inv.id)),
    derive.invoice_secret inv.id,
  )

  abbrev pub endpub_entry : Endpub → String × S
  endpub_entry a = (a.pubkey, derive.endpub_secret a.user_id a.epoch)

  unfoldable pub build_snapshot : MatchMode → ℤ → Store → Snapshot S × Store
  build_snapshot default overlap s =
      let invoices = derived_invoices default s in
      let endpubs = watched_pubkeys overlap invoices.1 in
      (
        insert_each endpub_entry (rows endpubs.0) (insert_each invoice_entry (rows invoices.0) []),
        endpubs.1,
      )

  -- One round of the maintenance: the store after the rotation of whoever is due, and the new
  -- snapshot. The error of the rotation is only logged.
  unfoldable pub maintain : MatchMode → ℤ → ℤ → Store → Snapshot S × Store
  maintain default rotate_interval overlap s =
      let derive_hex =
        λ (user : String) (epoch : ℕ). derive.pubkey_hex (derive.endpub_secret user epoch) in
      let rotated = (attempt (rotate_due derive_hex rotate_interval) s).1 in
      build_snapshot default overlap (if ltb_ℤ (pos 0) rotate_interval then rotated else s)

-- The keys of crate nostr-sdk, and gp-nostr `keys_from_secret` over its secrets.
pub record KeyApi (S K : Type 0) : Type 0 where
  pub public_hex : K → String
  pub keys_from_secret : S → Option K
  pub is_public_hex : String → Bool

module _ {S K : Type 0} (api : KeyApi S K) where
  abbrev pub open_secret : Option S → Option K
  open_secret none = none
  open_secret (some secret) = api.keys_from_secret secret

  abbrev pub from_snapshot : String → Option (Snapshot S) → Option K
  from_snapshot hex none = none
  from_snapshot hex (some m) = open_secret (secret_of hex m)

  -- The lock of the snapshot is poisoned where the snapshot is none.
  unfoldable pub resolve : K → Option (Snapshot S) → String → Option K
  resolve master snapshot hex =
      if str_eq hex (api.public_hex master) then some master else from_snapshot hex snapshot

  abbrev pub valid_keys : Snapshot S → List String
  valid_keys [] = []
  valid_keys (e ∷ m) = if api.is_public_hex e.0 then e.0 ∷ valid_keys m else valid_keys m

  -- The public keys to subscribe to, in hex.
  unfoldable pub watched : K → Option (Snapshot S) → List String
  watched master none = api.public_hex master ∷ []
  watched master (some m) = api.public_hex master ∷ valid_keys m
