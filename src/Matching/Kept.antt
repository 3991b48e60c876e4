-- ===== src/Matching/Kept.antt =====
-- `match_payment` keeps every relation that its writes keep.
use goblin_pay.Prelude.{String, Option, none, some}
use goblin_pay.Store.{
  MatchMode, Store, execute, IsKept, Keeps, Keeps-bind, Keeps-pure, Keeps-execute, Keeps-statement,
  NoFaults, NoFaults-IsKept,
}
use goblin_pay.Invoice.{mark_paid}
use goblin_pay.Invoice.Lifecycle.{Evolves, Evolves-IsKept, mark_paid-Keeps}
use goblin_pay.Matching.{
  IncomingPayment, AmountMismatch, link_rows, pay_matched, settle, conclude, match_payment,
}
use goblin_pay.Matching.Reads.{resolve-Keeps, user_for_pubkey-Keeps, check_amount-Keeps}

module _ {R : Store → Store → Type 0} (k : IsKept R)
    (pays : (i slate : String) → Keeps R (mark_paid i slate))
    (links : (slate : String) (i u : Option String) → Keeps R (execute (link_rows slate i u))) where
  pay_matched-Keeps : (i : Option String) (slate : String) → Keeps R (pay_matched i slate)
  unfolding pay_matched
  pay_matched-Keeps none slate = Keeps-pure k _
  pay_matched-Keeps (some i) slate = pays i slate

  conclude-Keeps :
      (p : IncomingPayment) (i u : Option String) (o : Option AmountMismatch)
      → Keeps R (conclude p i u o)
  unfolding conclude settle
  conclude-Keeps p i u (some bad) = Keeps-pure k _
  conclude-Keeps p i u none =
      Keeps-bind k (pay_matched-Keeps i p.slate_id)
        (λ _. Keeps-bind k (links p.slate_id i u) (λ _. Keeps-pure k _))

  pub match_payment-Keeps : (d : MatchMode) (p : IncomingPayment) → Keeps R (match_payment d p)
  unfolding match_payment
  match_payment-Keeps d p = Keeps-bind k (user_for_pubkey-Keeps k p.recipient_hex) (λ _.
      Keeps-bind k (resolve-Keeps k d p)
        (λ i. Keeps-bind k (check_amount-Keeps k p.amount_nano i) (λ o. conclude-Keeps p i _ o)))

-- Once no fault is left, none is met.
pub match_payment-NoFaults :
    (d : MatchMode) (p : IncomingPayment) → Keeps NoFaults (match_payment d p)
unfolding mark_paid
match_payment-NoFaults =
    match_payment-Keeps NoFaults-IsKept (λ i slate. mark_paid-NoFaults i slate)
      (λ slate i u. Keeps-execute NoFaults-IsKept _ (λ s e. e))
  where
    mark_paid-NoFaults : (i slate : String) → Keeps NoFaults (mark_paid i slate)
    mark_paid-NoFaults i slate = Keeps-statement NoFaults-IsKept _ (λ s e. e)

-- `match_payment` moves invoices along their life.
pub match_payment-Evolves :
    (d : MatchMode) (p : IncomingPayment) → Keeps Evolves (match_payment d p)
match_payment-Evolves =
    match_payment-Keeps Evolves-IsKept mark_paid-Keeps
      (λ slate i u. Keeps-execute Evolves-IsKept _ (λ s. Evolves-IsKept.reflexive s))
