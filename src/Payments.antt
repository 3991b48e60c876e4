-- ===== src/Payments.antt =====
-- The confirmation poll (crates/gp-server/src/payments.rs): it records the depth of each kernel, and
-- confirms the invoice that a deep enough payment paid. The node is what it answers during a pass.
pub mod Kept
pub mod Depth
use goblin_pay.Prelude.{
  ℕ, String, Bool, true, false, not, ◌&&◌, Option, none, some, List, [], ◌∷◌, if◌then◌else◌, str_eq,
  column_eq, first, keep_some, update_where, unwrap_or,
}
use goblin_pay.Prelude.Int.{ℤ, as_i64, as_u64, ltb_ℤ}
use goblin_pay.Store.{
  PaymentStatus, Invoice, Payment, Store, Result, ok, err, Action, ◌>>=◌, ◌>>◌, pure, query,
  execute, attempt, read_clock,
}
use goblin_pay.Invoice.{mark_confirmed}
use goblin_pay.Confirm.{ConfirmStatus, Node, confirm_status}
use goblin_pay.Webhook.{WebhookPayload, confirmed_payload, enqueue}
use goblin_pay.Record.{of_slate}
use mathlib.Core.Option

-- The depth that is final, where to send the event, a fresh event id and the JSON serializer.
pub record ConfirmPolicy : Type 0 where
  pub required : ℤ
  pub webhook_url : Option String
  pub event_id : String → String
  pub to_body : WebhookPayload → String

pub record Pending : Type 0 where
  pub slate_id : String
  pub kernel : String
  pub invoice_id : Option String

-- `kernel IS NOT NULL AND confirmations < required`; a payment row always has its slate id.
abbrev pub pending_row : ℤ → Payment → Option Pending
pending_row required p =
    if ltb_ℤ p.confirmations required
    then elim p.kernel [
      | none ↦ none
      | some k ↦
          Option.map (λ sl. record { slate_id = sl; kernel = k; invoice_id = p.invoice_id })
            p.slate_id
    ]
    else none

-- What the event says of the payment and of the order it paid.
abbrev pub order_of : List Invoice → Payment → Option String
order_of invoices p = elim p.invoice_id [
  | none ↦ none
  | some i ↦ elim (first (λ (inv : Invoice). str_eq inv.id i) invoices) [
    | none ↦ none
    | some inv ↦ inv.order_ref
  ]
]

abbrev pub event_row : String → Store → Option (Payment × Option String)
event_row slate s = Option.map (λ p. (p, order_of s.invoices p)) (first (of_slate slate) s.payments)

unfoldable pub send_confirmed :
    ConfirmPolicy
    → String
    → String
    → String
    → Option ℤ
    → ℕ
    → Result (Option (Payment × Option String))
    → Action (Unit {0})
send_confirmed policy url slate i height depth (err e) = pure tt
send_confirmed policy url slate i height depth (ok none) = pure tt
send_confirmed policy url slate i height depth (ok (some (p, order_ref))) = do
  now ← read_clock
  attempt (
      enqueue policy.to_body url (
        confirmed_payload (policy.event_id slate) now slate (as_u64 p.amount_nano) p.payer (some i)
          order_ref p.user_id (Option.map as_u64 height) depth))
  pure tt

unfoldable pub notify_confirmed :
    ConfirmPolicy → Option String → String → String → Option ℤ → ℕ → Action (Unit {0})
notify_confirmed policy none slate i height depth = pure tt
notify_confirmed policy (some url) slate i height depth =
    attempt (query (event_row slate)) >>= send_confirmed policy url slate i height depth

-- Only the transition notifies.
unfoldable pub after_confirmed :
    ConfirmPolicy → String → String → Option ℤ → ℕ → Result Bool → Action (Unit {0})
after_confirmed policy slate i height depth (ok true) =
    notify_confirmed policy policy.webhook_url slate i height depth
after_confirmed policy slate i height depth (ok false) = pure tt
after_confirmed policy slate i height depth (err e) = pure tt

unfoldable pub finalize_invoice : ConfirmPolicy → String → String → Option ℤ → ℕ → Action (Unit {0})
finalize_invoice policy slate i height depth =
    attempt (mark_confirmed i) >>= after_confirmed policy slate i height depth

abbrev pub landed : Option ℤ → ℕ → ℕ → Payment → Payment
landed height depth now p = record p {
  status = PaymentStatus.confirmed;
  confirmed_height = height;
  confirmed_at = some (unwrap_or p.confirmed_at now);
  confirmations = as_i64 depth;
}

unfoldable pub record_depth : String → Option ℤ → ℕ → Action (Unit {0})
record_depth slate height depth = execute (λ s. record s {
  payments = update_where (of_slate slate) (landed height depth s.clock) s.payments;
})

-- The threshold: the invoice that the payment paid is confirmed.
unfoldable pub cross : ConfirmPolicy → Pending → Option ℤ → ℕ → Option String → Action (Unit {0})
cross policy p height depth none = pure tt
cross policy p height depth (some i) =
    if ltb_ℤ (as_i64 depth) policy.required
    then pure tt
    else finalize_invoice policy p.slate_id i height depth

-- `Err(e) => { error!(…); continue; }`
unfoldable pub after_depth :
    ConfirmPolicy → Pending → Option ℤ → ℕ → Result (Unit {0}) → Action (Unit {0})
after_depth policy p height depth (err e) = pure tt
after_depth policy p height depth (ok u) = cross policy p height depth p.invoice_id

abbrev pub depth_of : ConfirmStatus → ℕ
depth_of c = unwrap_or c.confirmations 0

abbrev pub height_of : ConfirmStatus → Option ℤ
height_of c = Option.map as_i64 c.height

-- One payment of a pass; a failed read of the node waits for the next pass.
unfoldable pub confirm_one : ConfirmPolicy → Pending → Option ConfirmStatus → Action (Unit {0})
confirm_one policy p none = pure tt
confirm_one policy p (some c) =
    if c.confirmed
    then (attempt (record_depth p.slate_id (height_of c) (depth_of c))
        >>= after_depth policy p (height_of c) (depth_of c))
    else pure tt

unfoldable pub confirm_each : Node → ConfirmPolicy → List Pending → Action (Unit {0})
confirm_each node policy [] = pure tt
confirm_each node policy (p ∷ ps) =
    confirm_one policy p (confirm_status node p.kernel) >> confirm_each node policy ps

unfoldable pub confirm_pending : Node → ConfirmPolicy → Action (Unit {0})
confirm_pending node policy = do
  pending ← query (λ s. keep_some (pending_row policy.required) s.payments)
  confirm_each node policy pending

-- To unfold this is to unfold the module's functions.
unfoldable pub polling : Unit {0}
unfolding send_confirmed notify_confirmed after_confirmed finalize_invoice record_depth cross
    after_depth confirm_one confirm_each confirm_pending
polling = tt
