-- ===== src/Receiver.antt =====
-- The handoff from the transport to the wallet (crates/gp-server/src/ingest.rs): what `receive` makes
-- of the wallet's answer to a slatepack, and the payments that still wait for their reply.
pub mod Refusal
use goblin_pay.Prelude.{
  ℕ, String, Bool, true, false, Option, none, some, List, [], if◌then◌else◌, keep_some, unwrap_or,
}
use goblin_pay.Store.{
  PaymentStatus, Payment, Store, Result, ok, err, Action, ◌>>=◌, pure, query, attempt,
}
use goblin_pay.Record.{Context, Received, PersistOutcome, matched, rejected, persist_and_match}
use goblin_pay.Nostr.Ingest.{
  ReceivedPayment, ReceiveResult, received_ok, duplicate_slate, rejected_slate, failed_receive,
}

-- `receive_slatepack`: a payment, a bad slatepack, grin's message for a slate it has, another error.
pub data WalletAnswer : Type 0 where
  wallet_received : Received → WalletAnswer
  bad_slatepack already_received wallet_error : WalletAnswer

abbrev pub reply_of : Received → ReceivedPayment
reply_of r = record { slate_id = r.slate_id; amount_nano = r.amount_nano; s2_armor = r.s2_armor }

unfoldable pub answer_to : Received → PersistOutcome → ReceiveResult
answer_to r (matched m) = received_ok (reply_of r)
answer_to r (rejected bad) = rejected_slate

unfoldable pub after_wallet : Context → WalletAnswer → Action ReceiveResult
after_wallet c (wallet_received r) = persist_and_match c r >>= λ o. pure (answer_to r o)
after_wallet c bad_slatepack = pure rejected_slate
after_wallet c already_received = pure duplicate_slate
after_wallet c wallet_error = pure failed_receive

unfoldable pub receive : (List ℕ → WalletAnswer) → Context → List ℕ → Action ReceiveResult
receive wallet c armor = after_wallet c (wallet armor)

pub record UnrepliedPayment : Type 0 where
  pub slate_id : String
  pub payer_hex : String
  pub s2_armor : String
  pub recipient_hex : String

abbrev pub is_received : PaymentStatus → Bool
is_received PaymentStatus.received = true
is_received s = false

-- A row in status `received` with an armor and a payer; a payment row always has its slate id.
abbrev pub unreplied_row : Payment → Option UnrepliedPayment
unreplied_row p =
    if is_received p.status
    then elim p.slate_id [
      | none ↦ none
      | some slate ↦ elim p.payer [
        | none ↦ none
        | some payer ↦ elim p.s2_armor [
          | none ↦ none
          | some armor ↦ some (record {
            slate_id = slate;
            payer_hex = payer;
            s2_armor = armor;
            recipient_hex = unwrap_or p.recipient "";
          })
        ]
      ]
    ]
    else none

abbrev pub or_empty : Result (List UnrepliedPayment) → List UnrepliedPayment
or_empty (ok us) = us
or_empty (err e) = []

unfoldable pub unreplied : Action (List UnrepliedPayment)
unreplied = do
  rows ← attempt (query (λ s. keep_some unreplied_row s.payments))
  pure (or_empty rows)
