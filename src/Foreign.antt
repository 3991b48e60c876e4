-- ===== src/Foreign.antt =====
-- The grin1 rail (crates/gp-server/src/foreign.rs): settling the returned invoice slate, and the
-- sweep that cancels the wallet contexts of expired invoices. The wallet's `cancel` is a parameter.
pub mod Kept
pub mod Api
pub mod Again
pub mod Sweep
use goblin_pay.Prelude.{
  ℕ, String, Bool, true, false, Option, none, some, List, [], ◌∷◌, if◌then◌else◌, unwrap_or,
}
use goblin_pay.Prelude.Int.{ℤ, pos, as_i64, clamp_u64}
use goblin_pay.Store.{
  PaymentStatus, Invoice, Payment, Store, Result, ok, err, Action, ◌>>=◌, ◌>>◌, pure, statement,
  attempt, read_clock,
}
use goblin_pay.Invoice.{get_by_slate_id, mark_paid, mark_expired, due_grin1_slates}
use goblin_pay.Webhook.{WebhookPayload, received_payload, enqueue}
use goblin_pay.Record.{insert_payment}

-- gp-wallet `FinalizedInvoice`
pub record FinalizedInvoice : Type 0 where
  pub slate_id : String
  pub amount_nano : ℕ
  pub kernel_excess : String

-- The webhook URL and secret, a fresh event id and the JSON serializer.
pub record Notice : Type 0 where
  pub webhook : Option (String × String)
  pub event_id : String
  pub to_body : WebhookPayload → String

-- The invoice's own amount, and the slate's only where it has none.
abbrev pub ledger_amount : Invoice → FinalizedInvoice → ℕ
ledger_amount inv f = clamp_u64 (unwrap_or inv.expected_amount (as_i64 f.amount_nano))

abbrev pub finalized_row : Invoice → FinalizedInvoice → ℕ → Payment
finalized_row inv f now = record {
  id = f.slate_id;
  amount_nano = as_i64 (ledger_amount inv f);
  payer = none;
  slate_id = some f.slate_id;
  kernel = some f.kernel_excess;
  proof = none;
  status = PaymentStatus.received;
  confirmed_height = none;
  created_at = now;
  s2_armor = none;
  confirmed_at = none;
  invoice_id = some inv.id;
  user_id = none;
  recipient = some "";
  confirmations = pos 0;
}

unfoldable pub notify_settled :
    Notice → Invoice → FinalizedInvoice → Option (String × String) → Action (Unit {0})
notify_settled n inv f none = pure tt
notify_settled n inv f (some (url, secret)) = do
  now ← read_clock
  attempt (
      enqueue n.to_body url (
        received_payload n.event_id now f.slate_id (ledger_amount inv f) none (some inv.id)
          inv.order_ref none))
  pure tt

unfoldable pub after_paid : Notice → Invoice → FinalizedInvoice → Result Bool → Action (Unit {0})
after_paid n inv f (ok true) = notify_settled n inv f n.webhook
after_paid n inv f (ok false) = pure tt
after_paid n inv f (err e) = pure tt

unfoldable pub settle_found :
    Notice → FinalizedInvoice → Result (Option Invoice) → Action (Unit {0})
settle_found n f (err e) = pure tt
settle_found n f (ok none) = pure tt
settle_found n f (ok (some inv)) = do
  attempt (statement (λ s. insert_payment (finalized_row inv f s.clock) s))
  paid ← attempt (mark_paid inv.id f.slate_id)
  after_paid n inv f paid

unfoldable pub settle_finalized : Notice → FinalizedInvoice → Action (Unit {0})
settle_finalized n f = attempt (get_by_slate_id f.slate_id) >>= settle_found n f

-- Cancel first; the invoice expires only once its context is gone.
unfoldable pub cancel_one : (String → Bool) → String × String → Action (Unit {0})
cancel_one cancel (i, slate) =
    if cancel slate then (attempt (mark_expired i) >>= λ _. pure tt) else pure tt

unfoldable pub cancel_each : (String → Bool) → List (String × String) → Action (Unit {0})
cancel_each cancel [] = pure tt
cancel_each cancel (d ∷ ds) = cancel_one cancel d >> cancel_each cancel ds

abbrev pub due_or_none : Result (List (String × String)) → List (String × String)
due_or_none (ok ds) = ds
due_or_none (err e) = []

-- One pass of the sweep, where `cancel` says whether the wallet gave up a context.
unfoldable pub expiry_sweep : (String → Bool) → Action (Unit {0})
expiry_sweep cancel = attempt due_grin1_slates >>= λ r. cancel_each cancel (due_or_none r)
