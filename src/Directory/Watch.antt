-- ===== src/Directory/Watch.antt =====
-- Which identities the directory holds (crates/gp-server/src/directory.rs).
use goblin_pay.Prelude.{
  ℕ, String, true, ◌≡◌, refl, sym, ap, Option, some, List, [], ◌∷◌, str_eq, eq_iff, is_some, select,
  subst, All, All-map, All-select, Bool-cases, inl, inr, ◌∙◌,
}
use goblin_pay.Prelude.Int.{ℤ, pos_part}
use goblin_pay.Store.{MatchMode, Invoice, Endpub, Store, query-run}
use goblin_pay.Endpub.{is_watched, watched_pubkeys}
use goblin_pay.Directory.{
  Snapshot, insert, secret_of, insert_each, is_open_derived, Derivation, KeyApi, invoice_entry,
  endpub_entry, build_snapshot, open_secret, resolve,
}

module _ {S : Type 0} where
  abbrev Holds : Snapshot S → String → Type 0
  Holds m hex = is_some (secret_of hex m) ≡ true

  Holds-insert : (hex : String) (secret : S) (m : Snapshot S) → Holds (insert hex secret m) hex
  Holds-insert hex secret [] = rw ((eq_iff hex hex).1 refl) refl
  Holds-insert hex secret (e ∷ m) = elim (Bool-cases (str_eq e.0 hex)) [
    | inl q ↦ rw q (rw ((eq_iff hex hex).1 refl) refl)
    | inr q ↦ rw q (rw q (Holds-insert hex secret m))
  ]

  insert-Holds :
      (hex other : String) (secret : S) (m : Snapshot S)
      → Holds m other
      → Holds (insert hex secret m) other
  insert-Holds hex other secret [] h = absurd (cc)
  insert-Holds hex other secret (e ∷ m) h = elim (Bool-cases (str_eq e.0 hex)) [
    | inl q ↦ elim (Bool-cases (str_eq hex other)) [
      | inl t ↦ rw q (rw t refl)
      | inr t ↦ rw q (rw t (rw (ap (λ k. str_eq k other) ((eq_iff e.0 hex).0 q) ∙ t) at h))
    ]
    | inr q ↦ elim (Bool-cases (str_eq e.0 other)) [
      | inl t ↦ rw q (rw t refl)
      | inr t ↦ rw q (rw t (insert-Holds hex other secret m (rw t at h)))
    ]
  ]

module _ {S : Type 0} (P : String × S → Type 0) where
  insert-All :
      (hex : String) (secret : S) (m : Snapshot S)
      → P (hex, secret)
      → All P m
      → All P (insert hex secret m)
  insert-All hex secret [] p h = (p, tt)
  insert-All hex secret (e ∷ m) p h = elim (Bool-cases (str_eq e.0 hex)) [
    | inl q ↦ rw q (p, h.1)
    | inr q ↦ rw q (h.0, insert-All hex secret m p h.1)
  ]

  insert_each-All :
      {A : Type 0} (entry : A → String × S) (xs : List A) (m : Snapshot S)
      → All (λ x. P (entry x)) xs
      → All P m
      → All P (insert_each entry xs m)
  insert_each-All entry [] m p h = h
  insert_each-All entry (x ∷ xs) m p h =
      insert_each-All entry xs _ p.1 (insert-All (entry x).0 (entry x).1 m p.0 h)

module _ {S A : Type 0} (entry : A → String × S) where
  insert_each-Holds :
      (xs : List A) (m : Snapshot S) (other : String)
      → Holds m other
      → Holds (insert_each entry xs m) other
  insert_each-Holds [] m other h = h
  insert_each-Holds (x ∷ xs) m other h =
      insert_each-Holds xs _ other (insert-Holds (entry x).0 other (entry x).1 m h)

  Holds-insert_each :
      (xs : List A) (m : Snapshot S) → All (λ x. Holds (insert_each entry xs m) (entry x).0) xs
  Holds-insert_each [] m = tt
  Holds-insert_each (x ∷ xs) m = (
    insert_each-Holds xs _ (entry x).0 (Holds-insert (entry x).0 (entry x).1 m),
    Holds-insert_each xs _,
  )

module _ {S K : Type 0} (api : KeyApi S K) where
  -- The keys of an address.
  abbrev pub KeysOf : String → Option K → Type 0
  KeysOf hex found = (k : K) × (found ≡ some k) × (api.public_hex k ≡ hex)

  abbrev IsOpened : String × S → Type 0
  IsOpened e = KeysOf e.0 (api.keys_from_secret e.1)

  secret_of-KeysOf :
      (hex : String) (m : Snapshot S)
      → All IsOpened m
      → Holds m hex
      → KeysOf hex (open_secret api (secret_of hex m))
  secret_of-KeysOf hex [] a h = absurd (cc)
  secret_of-KeysOf hex (e ∷ m) a h = elim (Bool-cases (str_eq e.0 hex)) [
    | inl q ↦ rw q (subst (λ n. KeysOf n (api.keys_from_secret e.1)) ((eq_iff e.0 hex).0 q) a.0)
    | inr q ↦ rw q (secret_of-KeysOf hex m a.1 (rw q at h))
  ]

  resolve-KeysOf :
      (master : K) (m : Snapshot S) (hex : String)
      → All IsOpened m
      → Holds m hex
      → KeysOf hex (resolve api master (some m) hex)
  unfolding resolve
  resolve-KeysOf master m hex a h = elim (Bool-cases (str_eq hex (api.public_hex master))) [
    | inl q ↦ rw q (master, refl, sym ((eq_iff hex _).0 q))
    | inr q ↦ rw q (secret_of-KeysOf hex m a h)
  ]

  module _ (derive : Derivation S) where
    -- What nostr-sdk promises of a derived secret: it is a key, of the public key derived from it.
    pub record OpensDerived : Type 0 where
      pub invoice :
          (id : String)
          → KeysOf
              (derive.pubkey_hex (derive.invoice_secret id))
              (api.keys_from_secret (derive.invoice_secret id))
      pub endpub :
          (user : String) (epoch : ℕ)
          → KeysOf
              (derive.pubkey_hex (derive.endpub_secret user epoch))
              (api.keys_from_secret (derive.endpub_secret user epoch))

    -- The stored public keys, of the open invoices in derived mode and of the endpubs, are those of
    -- the derivation.
    pub record HasDerivedKeys (default : MatchMode) (s : Store) : Type 0 where
      pub invoices :
          All
            (λ (inv : Invoice).
              (invoice_entry derive inv).0 ≡ derive.pubkey_hex (derive.invoice_secret inv.id))
            (select (is_open_derived default) s.invoices)
      pub endpubs :
          All
            (λ (a : Endpub). a.pubkey ≡ derive.pubkey_hex (derive.endpub_secret a.user_id a.epoch))
            s.endpubs

    calm_snapshot :
        (default : MatchMode) (overlap : ℤ) (s : Store)
        → s.faults ≡ []
        → (build_snapshot derive default overlap s).0
          ≡ insert_each
              (endpub_entry derive)
              (select (is_watched (pos_part overlap) s.users) s.endpubs)
              (insert_each (invoice_entry derive) (select (is_open_derived default) s.invoices) [])
    unfolding build_snapshot watched_pubkeys
    calm_snapshot default overlap s calm =
        rw (query-run (λ t. select (is_open_derived default) t.invoices) s calm) (
          rw (query-run (λ t. select (is_watched (pos_part overlap) t.users) t.endpubs) s calm)
            refl)

    module _ (opens : OpensDerived) where
      invoice-IsOpened :
          (inv : Invoice)
          → (invoice_entry derive inv).0 ≡ derive.pubkey_hex (derive.invoice_secret inv.id)
          → IsOpened (invoice_entry derive inv)
      invoice-IsOpened inv e = rw e (opens.invoice inv.id)

      endpub-IsOpened :
          (a : Endpub)
          → a.pubkey ≡ derive.pubkey_hex (derive.endpub_secret a.user_id a.epoch)
          → IsOpened (endpub_entry derive a)
      endpub-IsOpened a e = rw e (opens.endpub a.user_id a.epoch)

      -- The directory over a snapshot that is built while no statement fails, from a store whose
      -- public keys are the derived ones, resolves the address of every open invoice in derived mode
      -- and of every endpub within the overlap, and to keys of this very address.
      pub build_snapshot-KeysOf :
          (default : MatchMode) (overlap : ℤ) (s : Store) (master : K)
          → s.faults ≡ []
          → HasDerivedKeys default s
          → All
              (λ inv. KeysOf (invoice_entry derive inv).0 (
                resolve api master
                  (some (build_snapshot derive default overlap s).0)
                  (invoice_entry derive inv).0))
              (select (is_open_derived default) s.invoices)
            × All
                (λ a.
                  KeysOf a.pubkey (
                    resolve api master (some (build_snapshot derive default overlap s).0) a.pubkey))
                (select (is_watched (pos_part overlap) s.users) s.endpubs)
      build_snapshot-KeysOf default overlap s master calm keyed =
          let invoices = select (is_open_derived default) s.invoices in
          let endpubs = select (is_watched (pos_part overlap) s.users) s.endpubs in
          let taken = insert_each (invoice_entry derive) invoices [] in
          let opened =
            insert_each-All IsOpened (endpub_entry derive) endpubs taken
              (All-map _ _ endpubs endpub-IsOpened (All-select _ _ s.endpubs keyed.endpubs))
              (insert_each-All IsOpened (invoice_entry derive) invoices []
                (All-map _ _ invoices invoice-IsOpened keyed.invoices) tt) in
          rw (calm_snapshot default overlap s calm) (
            All-map _ _ invoices
                (λ inv h.
                  resolve-KeysOf master _ _ opened
                    (insert_each-Holds (endpub_entry derive) endpubs taken _ h))
                (Holds-insert_each (invoice_entry derive) invoices []),
            All-map _ _ endpubs (λ a h. resolve-KeysOf master _ _ opened h)
                (Holds-insert_each (endpub_entry derive) endpubs taken),
          )
