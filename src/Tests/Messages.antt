-- ===== src/Tests/Messages.antt =====
-- The theorems about the ingest of messages, at a wallet that counts what it was handed.
use goblin_pay.Prelude.{
  Text, All, arith, ℕ, suc, ◌≡◌, refl, ◌≤◌, String, none, some, List, [], ◌∷◌, if◌then◌else◌, codes,
  true, str_eq,
}
use goblin_pay.Config.{bundled}
use goblin_pay.Nostr.Relays.{resolve, IsDistinct, has_relay, resolve-IsDistinct}
use goblin_pay.Nostr.Protocol.{sanitize_note, collapse}
use goblin_pay.Nostr.Protocol.Armor.{IsNoteOf, sanitize_note-IsNoteOf}
use goblin_pay.Nostr.Ingest.{
  ingesting, Services, IngestState, Event, Unwrapped, ReceivedPayment, received_ok, handle_wrap,
  failed_receive,
}
use goblin_pay.Nostr.Ingest.Rate.{accepted, accepted-bound}
use goblin_pay.Nostr.Ingest.Once.{handle_all, handle_wrap-once, handle_wrap-unsettled}

abbrev note : List ℕ
note = codes "two  coffees "

sanitize_note-kept : sanitize_note note ≡ some (codes "two coffees")
unfolding sanitize_note collapse
sanitize_note-kept = refl

sanitize_note-IsNoteOf_example : IsNoteOf note (codes "two coffees")
sanitize_note-IsNoteOf_example =
    sanitize_note-IsNoteOf note (codes "two coffees") sanitize_note-kept

abbrev coffee : Unwrapped
coffee = record {
  sender = "payer";
  rumor = record {
    id = "rumor-1";
    is_dm = true;
    content = codes "BEGINSLATEPACK. abc. ENDSLATEPACK.";
    tags = [];
  };
}

abbrev two_grin : ReceivedPayment
two_grin = record {
  slate_id = "slate-1";
  amount_nano = 2_000_000_000;
  s2_armor = "BEGINSLATEPACK.";
}

abbrev till : Services ℕ
till = record {
  master = "master";
  resolve = λ k. if str_eq k "master" then some k else none;
  unwrap = λ k e. some coffee;
  receive = λ armor ctx n. (received_ok two_grin, suc n);
}

-- Its wallet is out of reach.
abbrev closed_till : Services ℕ
closed_till = record till { receive = λ armor ctx n. (failed_receive, n) }

abbrev fresh : IngestState ℕ
fresh = record { seen = []; rate = []; wallet = 0 }

abbrev wrap : Event
wrap = record {
  id = "wrap-1";
  is_gift_wrap = true;
  content = codes "sealed";
  recipient = some "master";
}

abbrev other_wrap : Event
other_wrap = record wrap { id = "wrap-2" }

abbrev marker : String → String
marker k = k

first-settled : (handle_wrap till marker 1000 wrap fresh).1.wallet ≡ 1
unfolding ingesting
first-settled = refl

handle_wrap-once_example :
    let t =
      handle_all till marker
        ((1001, other_wrap) ∷ [])
        (handle_wrap till marker 1000 wrap fresh).1 in
    ((handle_wrap till marker 1002 wrap t).1.wallet ≡ t.wallet)
    × ((handle_wrap till marker 1002 wrap t).1.rate ≡ t.rate)
unfolding ingesting
handle_wrap-once_example =
    handle_wrap-once till marker 1000 1002 wrap ((1001, other_wrap) ∷ []) fresh refl refl

handle_wrap-unsettled_example : (handle_wrap closed_till marker 1000 wrap fresh).1.seen ≡ []
unfolding ingesting
handle_wrap-unsettled_example = handle_wrap-unsettled closed_till marker 1000 wrap fresh refl refl

abbrev burst : List (ℕ × String)
burst = (1000, "payer") ∷ (1000, "other") ∷ (1002, "payer") ∷ []

accepted-bound_example : accepted "payer" burst [] ≤ 10
accepted-bound_example =
    accepted-bound 1000 "payer" burst []
      ((omega arith, omega arith), ((omega arith, omega arith), ((omega arith, omega arith), tt)))

abbrev first_relay : Text
first_relay = codes "ws://127.0.0.1:7777"

abbrev two_relays : List Text
two_relays = first_relay ∷ codes "wss://relay.example" ∷ []

resolve-IsDistinct_example :
    IsDistinct (resolve bundled first_relay two_relays)
    × (has_relay first_relay (resolve bundled first_relay two_relays) ≡ true)
    × All (λ r. has_relay r (resolve bundled first_relay two_relays) ≡ true) two_relays
resolve-IsDistinct_example = resolve-IsDistinct first_relay two_relays
