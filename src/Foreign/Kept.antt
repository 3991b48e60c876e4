-- ===== src/Foreign/Kept.antt =====
-- The grin1 rail moves invoices along their life.
use goblin_pay.Prelude.{String, Bool, true, false, Option, none, some, List, [], ◌∷◌}
use goblin_pay.Store.{
  Invoice, Result, ok, err, Keeps, Keeps-bind, Keeps-pure, Keeps-attempt, Keeps-query, Keeps-if,
  Keeps-read_clock,
}
use goblin_pay.Invoice.{get_by_slate_id, due_grin1_slates}
use goblin_pay.Invoice.Lifecycle.{Evolves, Evolves-IsKept, mark_paid-Keeps, mark_expired-Keeps}
use goblin_pay.Record.Kept.{insert-Evolves, enqueue-Evolves}
use goblin_pay.Foreign.{
  FinalizedInvoice, Notice, notify_settled, after_paid, settle_found, settle_finalized, cancel_one,
  cancel_each, expiry_sweep,
}

notify_settled-Evolves :
    (n : Notice) (inv : Invoice) (f : FinalizedInvoice) (w : Option (String × String))
    → Keeps Evolves (notify_settled n inv f w)
unfolding notify_settled
notify_settled-Evolves n inv f none = Keeps-pure Evolves-IsKept _
notify_settled-Evolves n inv f (some w) =
    Keeps-bind Evolves-IsKept (Keeps-read_clock Evolves-IsKept) (λ _.
      Keeps-bind Evolves-IsKept (Keeps-attempt Evolves-IsKept (enqueue-Evolves _ _ _))
        (λ _. Keeps-pure Evolves-IsKept _))

after_paid-Evolves :
    (n : Notice) (inv : Invoice) (f : FinalizedInvoice) (r : Result Bool)
    → Keeps Evolves (after_paid n inv f r)
unfolding after_paid
after_paid-Evolves n inv f (ok true) = notify_settled-Evolves n inv f n.webhook
after_paid-Evolves n inv f (ok false) = Keeps-pure Evolves-IsKept _
after_paid-Evolves n inv f (err e) = Keeps-pure Evolves-IsKept _

settle_found-Evolves :
    (n : Notice) (f : FinalizedInvoice) (r : Result (Option Invoice))
    → Keeps Evolves (settle_found n f r)
unfolding settle_found
settle_found-Evolves n f (err e) = Keeps-pure Evolves-IsKept _
settle_found-Evolves n f (ok none) = Keeps-pure Evolves-IsKept _
settle_found-Evolves n f (ok (some inv)) =
    Keeps-bind Evolves-IsKept (Keeps-attempt Evolves-IsKept (insert-Evolves _)) (λ _.
      Keeps-bind Evolves-IsKept (Keeps-attempt Evolves-IsKept (mark_paid-Keeps _ _))
        (λ r. after_paid-Evolves n inv f r))

pub settle_finalized-Evolves :
    (n : Notice) (f : FinalizedInvoice) → Keeps Evolves (settle_finalized n f)
unfolding settle_finalized get_by_slate_id
settle_finalized-Evolves n f =
    Keeps-bind Evolves-IsKept (Keeps-attempt Evolves-IsKept (Keeps-query Evolves-IsKept _))
      (λ r. settle_found-Evolves n f r)

cancel_one-Evolves :
    (cancel : String → Bool) (d : String × String) → Keeps Evolves (cancel_one cancel d)
unfolding cancel_one
cancel_one-Evolves cancel (i, slate) =
    Keeps-if Evolves-IsKept _
      (Keeps-bind Evolves-IsKept (Keeps-attempt Evolves-IsKept (mark_expired-Keeps i))
        (λ _. Keeps-pure Evolves-IsKept _))
      (Keeps-pure Evolves-IsKept _)

cancel_each-Evolves :
    (cancel : String → Bool) (ds : List (String × String)) → Keeps Evolves (cancel_each cancel ds)
unfolding cancel_each
cancel_each-Evolves cancel [] = Keeps-pure Evolves-IsKept _
cancel_each-Evolves cancel (d ∷ ds) =
    Keeps-bind Evolves-IsKept (cancel_one-Evolves cancel d) (λ _. cancel_each-Evolves cancel ds)

pub expiry_sweep-Evolves : (cancel : String → Bool) → Keeps Evolves (expiry_sweep cancel)
unfolding expiry_sweep due_grin1_slates
expiry_sweep-Evolves cancel =
    Keeps-bind Evolves-IsKept (Keeps-attempt Evolves-IsKept (Keeps-query Evolves-IsKept _))
      (λ r. cancel_each-Evolves cancel _)
