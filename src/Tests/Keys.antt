-- ===== src/Tests/Keys.antt =====
-- The directory of keys over one open invoice in derived mode and a user who has been rotated once.
use goblin_pay.Prelude.{ℕ, zero, suc, refl, String, true, none, some, [], ◌∷◌, All, select}
use goblin_pay.Prelude.Int.{pos}
use goblin_pay.Store.{memo, derived, Invoice, Endpub, User, Store}
use goblin_pay.Directory.{
  Derivation, KeyApi, build_snapshot, invoice_entry, is_open_derived, resolve,
}
use goblin_pay.Endpub.{is_watched}
use goblin_pay.Directory.Watch.{KeysOf, OpensDerived, HasDerivedKeys, build_snapshot-KeysOf}
use goblin_pay.Tests.Data.{sample_invoice, sample_store}

-- A secret is an owner and a number: 0 for an invoice, one more than the epoch for a user.
abbrev hex_of : String × ℕ → String
hex_of (owner, zero) = "a0"
hex_of (owner, suc zero) = "b1"
hex_of (owner, suc (suc _)) = "c2"

abbrev plain_derivation : Derivation (String × ℕ)
plain_derivation = record {
  invoice_secret = λ i. (i, 0);
  endpub_secret = λ user epoch. (user, suc epoch);
  pubkey_hex = hex_of;
}

abbrev plain_keys : KeyApi (String × ℕ) (String × ℕ)
plain_keys = record { public_hex = hex_of; keys_from_secret = some; is_public_hex = λ _. true }

abbrev child_invoice : Invoice
child_invoice = record sample_invoice { match_mode = some derived; recipient_pubkey = some "a0" }

abbrev rotated_user : User
rotated_user = record {
  id = "alice";
  rotate_interval = none;
  epoch = 1;
  last_rotated_at = 1400;
  created_at = 1000;
}

abbrev endpub_at : ℕ → String → Endpub
endpub_at n key = record { user_id = "alice"; epoch = n; pubkey = key; created_at = 1000 }

abbrev tenant_store : Store
tenant_store = record sample_store {
  invoices = child_invoice ∷ sample_invoice ∷ [];
  users = rotated_user ∷ [];
  endpubs = endpub_at 0 "b1" ∷ endpub_at 1 "c2" ∷ [];
}

plain-OpensDerived : OpensDerived plain_keys plain_derivation
plain-OpensDerived = record {
  invoice = λ i. ((i, 0), refl, refl);
  endpub = λ user epoch. ((user, suc epoch), refl, refl);
}

tenant-HasDerivedKeys : HasDerivedKeys plain_keys plain_derivation memo tenant_store
tenant-HasDerivedKeys = record { invoices = (refl, tt); endpubs = (refl, (refl, tt)) }

build_snapshot-KeysOf_example :
    All
      (λ inv. KeysOf plain_keys (invoice_entry plain_derivation inv).0 (
        resolve plain_keys
          ("master", 7)
          (some (build_snapshot plain_derivation memo (pos 1) tenant_store).0)
          (invoice_entry plain_derivation inv).0))
      (select (is_open_derived memo) tenant_store.invoices)
    × All
        (λ a. KeysOf plain_keys a.pubkey (
          resolve plain_keys
            ("master", 7)
            (some (build_snapshot plain_derivation memo (pos 1) tenant_store).0)
            a.pubkey))
        (select (is_watched 1 tenant_store.users) tenant_store.endpubs)
build_snapshot-KeysOf_example =
    build_snapshot-KeysOf plain_keys plain_derivation plain-OpensDerived memo (pos 1) tenant_store
      ("master", 7) refl tenant-HasDerivedKeys
