-- ===== src/Payments/Depth.antt =====
-- No payment below the required depth counts: a pass of the poll
-- (crates/gp-server/src/payments.rs) that finds only shallow kernels confirms nothing.
use goblin_pay.Prelude.{
  ℕ, String, true, Option, none, some, List, [], ◌∷◌, ◌≡◌, refl, Bool-cases, inl, inr,
}
use goblin_pay.Prelude.Int.{ℤ, as_i64, ltb_ℤ}
use goblin_pay.Store.{
  Store, Result, ok, err, Keeps, Keeps-bind, Keeps-pure, Keeps-attempt, Keeps-execute, Keeps-query,
}
use goblin_pay.Confirm.{ConfirmStatus, Node, confirm_status}
use goblin_pay.Record.Rejection.{OnlyPayments, OnlyPayments-IsKept}
use goblin_pay.Payments.{
  ConfirmPolicy, Pending, record_depth, cross, after_depth, depth_of, height_of, confirm_one,
  confirm_each, confirm_pending,
}

abbrev pub IsShallow : ConfirmPolicy → Option ConfirmStatus → Type 0
IsShallow policy none = Unit
IsShallow policy (some c) = c.confirmed ≡ true → ltb_ℤ (as_i64 (depth_of c)) policy.required ≡ true

record_depth-OnlyPayments :
    (slate : String) (h : Option ℤ) (n : ℕ) → Keeps OnlyPayments (record_depth slate h n)
unfolding record_depth
record_depth-OnlyPayments slate h n = Keeps-execute OnlyPayments-IsKept _ (λ s. record {
  same_invoices = refl;
  same_users = refl;
  same_endpubs = refl;
  same_deliveries = refl;
})

cross_shallow :
    (policy : ConfirmPolicy) (p : Pending) (h : Option ℤ) (n : ℕ) (i : Option String)
    → ltb_ℤ (as_i64 n) policy.required ≡ true
    → Keeps OnlyPayments (cross policy p h n i)
unfolding cross
cross_shallow policy p h n none e = Keeps-pure OnlyPayments-IsKept _
cross_shallow policy p h n (some i) e = rw e (Keeps-pure OnlyPayments-IsKept _)

after_depth_shallow :
    (policy : ConfirmPolicy) (p : Pending) (h : Option ℤ) (n : ℕ) (r : Result (Unit {0}))
    → ltb_ℤ (as_i64 n) policy.required ≡ true
    → Keeps OnlyPayments (after_depth policy p h n r)
unfolding after_depth
after_depth_shallow policy p h n (err x) e = Keeps-pure OnlyPayments-IsKept _
after_depth_shallow policy p h n (ok u) e = cross_shallow policy p h n p.invoice_id e

confirm_one_shallow :
    (policy : ConfirmPolicy) (p : Pending) (o : Option ConfirmStatus)
    → IsShallow policy o
    → Keeps OnlyPayments (confirm_one policy p o)
unfolding confirm_one
confirm_one_shallow policy p none e = Keeps-pure OnlyPayments-IsKept _
confirm_one_shallow policy p (some c) e = elim (Bool-cases c.confirmed) [
  | inl t ↦ rw t (
      Keeps-bind OnlyPayments-IsKept
        (Keeps-attempt OnlyPayments-IsKept
          (record_depth-OnlyPayments p.slate_id (height_of c) (depth_of c)))
        (λ r. after_depth_shallow policy p (height_of c) (depth_of c) r (e t)))
  | inr t ↦ rw t (Keeps-pure OnlyPayments-IsKept _)
]

confirm_each_shallow :
    (node : Node) (policy : ConfirmPolicy) (ps : List Pending)
    → ((kernel : String) → IsShallow policy (confirm_status node kernel))
    → Keeps OnlyPayments (confirm_each node policy ps)
unfolding confirm_each
confirm_each_shallow node policy [] e = Keeps-pure OnlyPayments-IsKept _
confirm_each_shallow node policy (p ∷ ps) e =
    Keeps-bind OnlyPayments-IsKept
      (confirm_one_shallow policy p (confirm_status node p.kernel) (e p.kernel))
      (λ _. confirm_each_shallow node policy ps e)

-- While the node shows no kernel at the required depth, a pass of the poll writes to no table but the
-- payments: it confirms no invoice and enqueues no webhook, whatever statements fail.
pub confirm_pending_shallow :
    (node : Node) (policy : ConfirmPolicy) (s : Store)
    → ((kernel : String) → IsShallow policy (confirm_status node kernel))
    → OnlyPayments s (confirm_pending node policy s).1
unfolding confirm_pending
confirm_pending_shallow node policy s e =
    let pass =
      Keeps-bind OnlyPayments-IsKept (Keeps-query OnlyPayments-IsKept _)
        (λ ps. confirm_each_shallow node policy ps e) in
    pass.kept s
