-- ===== src/Record/Kept.antt =====
-- `persist_and_match` keeps every relation that its writes keep; it moves invoices along their life.
use goblin_pay.Prelude.{ℕ, String, Option, none, some, any, Bool-cases, inl, inr}
use goblin_pay.Store.{
  DeliveryRow, MatchMode, Payment, Store, statement, IsKept, Keeps, Keeps-bind, Keeps-pure,
  Keeps-attempt, Keeps-execute, Keeps-statement, Keeps-read_clock,
}
use goblin_pay.Invoice.{get}
use goblin_pay.Invoice.Lifecycle.{Evolves, Evolves-IsKept, get-Keeps}
use goblin_pay.Matching.{IncomingPayment, AmountMismatch, MatchResult, match_payment}
use goblin_pay.Matching.Kept.{match_payment-Evolves}
use goblin_pay.Webhook.{WebhookPayload, enqueue, insert_delivery, is_delivery, new_delivery}
use goblin_pay.Record.{
  Received, Context, insert_payment, has_id, order_ref_of, notify, delete_payment, finish,
  persist_and_match,
}

module _ {R : Store → Store → Type 0} (k : IsKept R)
    (matches : (d : MatchMode) (p : IncomingPayment) → Keeps R (match_payment d p))
    (inserts : (row : ℕ → Payment) → Keeps R (statement (λ s. insert_payment (row s.clock) s)))
    (deletes : (i : String) → Keeps R (delete_payment i)) (gets : (i : String) → Keeps R (get i))
    (enqueues : (b : WebhookPayload → String) (u : String) (p : WebhookPayload)
      → Keeps R (enqueue b u p)) where
  order_ref_of-Keeps : (o : Option String) → Keeps R (order_ref_of o)
  unfolding order_ref_of
  order_ref_of-Keeps none = Keeps-pure k _
  order_ref_of-Keeps (some i) = Keeps-bind k (Keeps-attempt k (gets i)) (λ _. Keeps-pure k _)

  notify-Keeps :
      (c : Context) (r : Received) (m : MatchResult) (w : Option (String × String))
      → Keeps R (notify c r m w)
  unfolding notify
  notify-Keeps c r m none = Keeps-pure k _
  notify-Keeps c r m (some w) = Keeps-bind k (order_ref_of-Keeps m.invoice_id) (λ _.
      Keeps-bind k (Keeps-read_clock k)
        (λ _. Keeps-bind k (Keeps-attempt k (enqueues _ _ _)) (λ _. Keeps-pure k _)))

  finish-Keeps :
      (c : Context) (r : Received) (m : MatchResult) (o : Option AmountMismatch)
      → Keeps R (finish c r m o)
  unfolding finish
  finish-Keeps c r m (some bad) =
      Keeps-bind k (Keeps-attempt k (deletes r.slate_id)) (λ _. Keeps-pure k _)
  finish-Keeps c r m none = Keeps-bind k (notify-Keeps c r m c.webhook) (λ _. Keeps-pure k _)

  pub persist_and_match-Keeps : (c : Context) (r : Received) → Keeps R (persist_and_match c r)
  unfolding persist_and_match
  persist_and_match-Keeps c r =
      Keeps-bind k (Keeps-attempt k (inserts _))
        (λ _. Keeps-bind k (Keeps-attempt k (matches _ _)) (λ res. finish-Keeps c r _ _))

insert_payment-Evolves : (p : Payment) (s : Store) → Evolves s (insert_payment p s).1
insert_payment-Evolves p s = elim (Bool-cases (any (has_id p.id) s.payments)) [
  | inl e ↦ rw e (Evolves-IsKept.reflexive s)
  | inr e ↦ rw e (Evolves-IsKept.reflexive s)
]

insert_delivery-Evolves : (d : DeliveryRow) (s : Store) → Evolves s (insert_delivery d s).1
insert_delivery-Evolves d s = elim (Bool-cases (any (is_delivery d.id) s.deliveries)) [
  | inl e ↦ rw e (Evolves-IsKept.reflexive s)
  | inr e ↦ rw e (Evolves-IsKept.reflexive s)
]

pub insert-Evolves :
    (row : ℕ → Payment) → Keeps Evolves (statement (λ s. insert_payment (row s.clock) s))
insert-Evolves row = Keeps-statement Evolves-IsKept _ (λ s. insert_payment-Evolves (row s.clock) s)

pub enqueue-Evolves :
    (b : WebhookPayload → String) (u : String) (p : WebhookPayload) → Keeps Evolves (enqueue b u p)
unfolding enqueue
enqueue-Evolves b u p =
    Keeps-bind Evolves-IsKept
      (Keeps-statement Evolves-IsKept _
        (λ s. insert_delivery-Evolves (new_delivery u b p s.clock) s))
      (λ _. Keeps-pure Evolves-IsKept _)

delete_payment-Evolves : (i : String) → Keeps Evolves (delete_payment i)
unfolding delete_payment
delete_payment-Evolves i = Keeps-execute Evolves-IsKept _ (λ s. Evolves-IsKept.reflexive s)

pub persist_and_match-Evolves : (c : Context) (r : Received) → Keeps Evolves (persist_and_match c r)
persist_and_match-Evolves =
    persist_and_match-Keeps Evolves-IsKept match_payment-Evolves insert-Evolves
      delete_payment-Evolves get-Keeps enqueue-Evolves
