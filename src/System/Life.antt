-- ===== src/System/Life.antt =====
-- The life of every invoice under any sequence of operations.
use goblin_pay.Prelude.{String, List, [], ◌∷◌}
use goblin_pay.Store.{Store, Keeps, Keeps-attempt, Keeps-execute}
use goblin_pay.Invoice.Lifecycle.{
  Evolves, Evolves-IsKept, create-Keeps, get-Keeps, get_by_token-Keeps, list-Keeps,
  expire_due-Keeps, attach_grin1-Keeps,
}
use goblin_pay.Record.{mark_replied}
use goblin_pay.Record.Kept.{persist_and_match-Evolves}
use goblin_pay.Payments.Kept.{confirm_pending-Evolves}
use goblin_pay.Foreign.Kept.{settle_finalized-Evolves, expiry_sweep-Evolves}
use goblin_pay.System.{
  Operation, wait, create_op, get_op, get_by_token_op, list_op, expire_op, attach_op, receive_op,
  replied_op, poll_op, settle_op, sweep_op, run, run_all,
}

mark_replied-Evolves : (slate : String) → Keeps Evolves (mark_replied slate)
unfolding mark_replied
mark_replied-Evolves slate =
    Keeps-attempt Evolves-IsKept (Keeps-execute Evolves-IsKept _ (λ s. Evolves-IsKept.reflexive s))

run-Evolves : (o : Operation) (s : Store) → Evolves s (run o s)
run-Evolves (wait n) s = Evolves-IsKept.reflexive s
run-Evolves (create_op child master d i t p) s = (create-Keeps child master d i t p).kept s
run-Evolves (get_op i) s = (get-Keeps i).kept s
run-Evolves (get_by_token_op t) s = (get_by_token-Keeps t).kept s
run-Evolves (list_op n) s = (list-Keeps n).kept s
run-Evolves expire_op s = expire_due-Keeps.kept s
run-Evolves (attach_op i slate pack) s = (attach_grin1-Keeps i slate pack).kept s
run-Evolves (receive_op c r) s = (persist_and_match-Evolves c r).kept s
run-Evolves (replied_op slate) s = (mark_replied-Evolves slate).kept s
run-Evolves (poll_op node policy) s = (confirm_pending-Evolves node policy).kept s
run-Evolves (settle_op n f) s = (settle_finalized-Evolves n f).kept s
run-Evolves (sweep_op cancel) s = (expiry_sweep-Evolves cancel).kept s

-- Over any sequence of operations, and whatever statements fail, no invoice row is lost, the terms
-- of its sale stay, its status only moves open to paid to confirmed or open to expired, and once it
-- is no longer open its link to the payment that paid it stays.
pub run_all-Evolves : (os : List Operation) (s : Store) → Evolves s (run_all os s)
run_all-Evolves [] s = Evolves-IsKept.reflexive s
run_all-Evolves (o ∷ os) s =
    Evolves-IsKept.transitive s (run o s) (run_all os (run o s)) (run-Evolves o s)
      (run_all-Evolves os (run o s))
