-- ===== src/Tests/Money.antt =====
-- The theorems about money and the life of an invoice, at the sample store.
use goblin_pay.Prelude.{first, ◌≡◌, ◌≢◌, refl, none, some, [], ◌∷◌, Zip}
use goblin_pay.Store.{memo, ok, monad}
use goblin_pay.Invoice.{get_by_token, due_grin1_slates, mark_paid, pay}
use goblin_pay.Invoice.Lifecycle.{Evolves}
use goblin_pay.Endpub.{user_for_pubkey}
use goblin_pay.Matching.{AmountMismatch, match_payment, matching}
use goblin_pay.Invoice.Keys.{by_id}
use goblin_pay.Matching.Paying.{match_payment-pays}
use goblin_pay.Matching.Binding.{Bound, match_payment-Bound}
use goblin_pay.Record.{rejected, persist_and_match, recording}
use goblin_pay.Record.Rejection.{
  OnlyPayments, persist_and_match-rejected, persist_and_match-rejected_undone,
}
use goblin_pay.Nostr.Ingest.{rejected_slate}
use goblin_pay.Receiver.{wallet_received, answer_to, after_wallet, receive}
use goblin_pay.Receiver.Refusal.{receive-refused}
use goblin_pay.Foreign.Sweep.{due_grin1_slates-get_by_token}
use goblin_pay.System.{expire_op, wait, run_all}
use goblin_pay.System.Life.{run_all-Evolves}
use goblin_pay.Tests.Data.{
  sample_invoice, sample_store, sample_payment, sample_context, short_payment,
}

match_payment-Bound_example :
    Zip
      (Bound sample_payment)
      sample_store.invoices
      (match_payment memo sample_payment sample_store).1.invoices
match_payment-Bound_example =
    match_payment-Bound memo sample_payment sample_store ((refl, tt), (tt, tt))

match_payment-pays_example :
    ((match_payment memo sample_payment sample_store).0
      ≡ ok (record { invoice_id = some "inv-1"; user_id = none; amount_mismatch = none }))
    × (first (by_id "inv-1") (match_payment memo sample_payment sample_store).1.invoices
        ≡ some (pay "slate-1" 1500 sample_invoice))
match_payment-pays_example =
    match_payment-pays memo sample_payment sample_store sample_invoice refl ((refl, tt), (tt, tt))
      refl refl

match_payment-paid :
    (match_payment memo sample_payment sample_store).0
    ≡ ok (record { invoice_id = some "inv-1"; user_id = none; amount_mismatch = none })
unfolding matching monad user_for_pubkey mark_paid
match_payment-paid = refl

abbrev short : AmountMismatch
short = record { expected = 2_000_000_000; received_nano = 1_999_999_999 }

short-rejected :
    (persist_and_match sample_context short_payment sample_store).0 ≡ ok (rejected short)
unfolding recording matching monad user_for_pubkey mark_paid
short-rejected = refl

persist_and_match-rejected_example :
    OnlyPayments sample_store (persist_and_match sample_context short_payment sample_store).1
    × (short.received_nano ≡ short_payment.amount_nano)
    × (short.expected ≢ short_payment.amount_nano)
persist_and_match-rejected_example =
    persist_and_match-rejected sample_context short_payment sample_store short short-rejected

persist_and_match-rejected_undone_example :
    (persist_and_match sample_context short_payment sample_store).1.payments ≡ []
persist_and_match-rejected_undone_example =
    persist_and_match-rejected_undone sample_context short_payment sample_store short refl refl
      short-rejected

due_grin1_slates-get_by_token_example :
    (due_grin1_slates (get_by_token "tok-1" (record sample_store { clock = 3000 })).1).0 ≡ ok []
due_grin1_slates-get_by_token_example =
    due_grin1_slates-get_by_token "tok-1" (record sample_store { clock = 3000 }) refl

run_all-Evolves_example : Evolves sample_store (run_all (wait 600 ∷ expire_op ∷ []) sample_store)
run_all-Evolves_example = run_all-Evolves (wait 600 ∷ expire_op ∷ []) sample_store

short-refused :
    (receive (λ armor. wallet_received short_payment) sample_context [] sample_store).0
    ≡ ok rejected_slate
unfolding receive after_wallet answer_to recording matching monad user_for_pubkey mark_paid
short-refused = refl

receive-refused_example :
    OnlyPayments sample_store
      (receive (λ armor. wallet_received short_payment) sample_context [] sample_store).1
receive-refused_example =
    receive-refused (λ armor. wallet_received short_payment) sample_context [] sample_store
      rejected_slate short-refused refl
