-- ===== src/Payments/Kept.antt =====
-- The confirmation poll keeps every relation that its writes keep; it moves invoices along their
-- life.
use goblin_pay.Prelude.{ℕ, String, Bool, true, false, Option, none, some, List, [], ◌∷◌}
use goblin_pay.Prelude.Int.{ℤ}
use goblin_pay.Store.{
  Payment, Store, Result, ok, err, IsKept, Keeps, Keeps-bind, Keeps-pure, Keeps-attempt,
  Keeps-execute, Keeps-query, Keeps-if, Keeps-read_clock,
}
use goblin_pay.Invoice.{mark_confirmed}
use goblin_pay.Invoice.Lifecycle.{Evolves, Evolves-IsKept, mark_confirmed-Keeps}
use goblin_pay.Confirm.{ConfirmStatus, Node}
use goblin_pay.Webhook.{WebhookPayload, enqueue}
use goblin_pay.Record.Kept.{enqueue-Evolves}
use goblin_pay.Payments.{
  ConfirmPolicy, Pending, send_confirmed, notify_confirmed, after_confirmed, finalize_invoice,
  record_depth, cross, after_depth, confirm_one, confirm_each, confirm_pending,
}

module _ {R : Store → Store → Type 0} (k : IsKept R)
    (confirms : (i : String) → Keeps R (mark_confirmed i))
    (records : (slate : String) (h : Option ℤ) (n : ℕ) → Keeps R (record_depth slate h n))
    (enqueues : (b : WebhookPayload → String) (u : String) (p : WebhookPayload)
      → Keeps R (enqueue b u p)) where
  send_confirmed-Keeps :
      (policy : ConfirmPolicy) (url slate i : String) (h : Option ℤ) (n : ℕ)
      (r : Result (Option (Payment × Option String)))
      → Keeps R (send_confirmed policy url slate i h n r)
  unfolding send_confirmed
  send_confirmed-Keeps policy url slate i h n (err e) = Keeps-pure k _
  send_confirmed-Keeps policy url slate i h n (ok none) = Keeps-pure k _
  send_confirmed-Keeps policy url slate i h n (ok (some row)) =
      Keeps-bind k (Keeps-read_clock k)
        (λ _. Keeps-bind k (Keeps-attempt k (enqueues _ _ _)) (λ _. Keeps-pure k _))

  notify_confirmed-Keeps :
      (policy : ConfirmPolicy) (w : Option String) (slate i : String) (h : Option ℤ) (n : ℕ)
      → Keeps R (notify_confirmed policy w slate i h n)
  unfolding notify_confirmed
  notify_confirmed-Keeps policy none slate i h n = Keeps-pure k _
  notify_confirmed-Keeps policy (some url) slate i h n =
      Keeps-bind k (Keeps-attempt k (Keeps-query k _))
        (λ r. send_confirmed-Keeps policy url slate i h n r)

  after_confirmed-Keeps :
      (policy : ConfirmPolicy) (slate i : String) (h : Option ℤ) (n : ℕ) (r : Result Bool)
      → Keeps R (after_confirmed policy slate i h n r)
  unfolding after_confirmed
  after_confirmed-Keeps policy slate i h n (ok true) =
      notify_confirmed-Keeps policy policy.webhook_url slate i h n
  after_confirmed-Keeps policy slate i h n (ok false) = Keeps-pure k _
  after_confirmed-Keeps policy slate i h n (err e) = Keeps-pure k _

  finalize_invoice-Keeps :
      (policy : ConfirmPolicy) (slate i : String) (h : Option ℤ) (n : ℕ)
      → Keeps R (finalize_invoice policy slate i h n)
  unfolding finalize_invoice
  finalize_invoice-Keeps policy slate i h n =
      Keeps-bind k (Keeps-attempt k (confirms i)) (λ r. after_confirmed-Keeps policy slate i h n r)

  cross-Keeps :
      (policy : ConfirmPolicy) (p : Pending) (h : Option ℤ) (n : ℕ) (o : Option String)
      → Keeps R (cross policy p h n o)
  unfolding cross
  cross-Keeps policy p h n none = Keeps-pure k _
  cross-Keeps policy p h n (some i) =
      Keeps-if k _ (Keeps-pure k _) (finalize_invoice-Keeps policy p.slate_id i h n)

  after_depth-Keeps :
      (policy : ConfirmPolicy) (p : Pending) (h : Option ℤ) (n : ℕ) (r : Result (Unit {0}))
      → Keeps R (after_depth policy p h n r)
  unfolding after_depth
  after_depth-Keeps policy p h n (err e) = Keeps-pure k _
  after_depth-Keeps policy p h n (ok u) = cross-Keeps policy p h n p.invoice_id

  pub confirm_one-Keeps :
      (policy : ConfirmPolicy) (p : Pending) (o : Option ConfirmStatus)
      → Keeps R (confirm_one policy p o)
  unfolding confirm_one
  confirm_one-Keeps policy p none = Keeps-pure k _
  confirm_one-Keeps policy p (some c) =
      Keeps-if k _
        (Keeps-bind k (Keeps-attempt k (records _ _ _)) (λ r. after_depth-Keeps policy p _ _ r))
        (Keeps-pure k _)

  confirm_each-Keeps :
      (node : Node) (policy : ConfirmPolicy) (ps : List Pending)
      → Keeps R (confirm_each node policy ps)
  unfolding confirm_each
  confirm_each-Keeps node policy [] = Keeps-pure k _
  confirm_each-Keeps node policy (p ∷ ps) =
      Keeps-bind k (confirm_one-Keeps policy p _) (λ _. confirm_each-Keeps node policy ps)

  pub confirm_pending-Keeps :
      (node : Node) (policy : ConfirmPolicy) → Keeps R (confirm_pending node policy)
  unfolding confirm_pending
  confirm_pending-Keeps node policy =
      Keeps-bind k (Keeps-query k _) (λ ps. confirm_each-Keeps node policy ps)

record_depth-Evolves :
    (slate : String) (h : Option ℤ) (n : ℕ) → Keeps Evolves (record_depth slate h n)
unfolding record_depth
record_depth-Evolves slate h n = Keeps-execute Evolves-IsKept _ (λ s. Evolves-IsKept.reflexive s)

pub confirm_pending-Evolves :
    (node : Node) (policy : ConfirmPolicy) → Keeps Evolves (confirm_pending node policy)
confirm_pending-Evolves =
    confirm_pending-Keeps Evolves-IsKept mark_confirmed-Keeps record_depth-Evolves enqueue-Evolves
