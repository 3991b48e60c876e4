-- ===== src/System.antt =====
-- The operations of the server on its store, in any order: the HTTP handlers, the ingest adapter and
-- the background loops, each run to its end, and the passing of time.
pub mod Life
use goblin_pay.Prelude.{ℕ, ◌+◌, String, Bool, List, [], ◌∷◌}
use goblin_pay.Store.{MatchMode, Store, Action}
use goblin_pay.Invoice.{NewInvoice, get, get_by_token, list, expire_due, attach_grin1}
use goblin_pay.Invoice.Create.{create}
use goblin_pay.Record.{Received, Context, persist_and_match, mark_replied}
use goblin_pay.Confirm.{Node}
use goblin_pay.Payments.{ConfirmPolicy, confirm_pending}
use goblin_pay.Foreign.{FinalizedInvoice, Notice, settle_finalized, expiry_sweep}

pub data Operation : Type 0 where
  wait : ℕ → Operation
  create_op : (String → String) → String → MatchMode → String → String → NewInvoice → Operation
  get_op get_by_token_op : String → Operation
  list_op : ℕ → Operation
  expire_op : Operation
  attach_op : String → String → String → Operation
  receive_op : Context → Received → Operation
  replied_op : String → Operation
  poll_op : Node → ConfirmPolicy → Operation
  settle_op : Notice → FinalizedInvoice → Operation
  sweep_op : (String → Bool) → Operation

abbrev pub run : Operation → Store → Store
run (wait n) s = record s { clock = s.clock + n }
run (create_op child master d i t p) s = (create child master d i t p s).1
run (get_op i) s = (get i s).1
run (get_by_token_op t) s = (get_by_token t s).1
run (list_op n) s = (list n s).1
run expire_op s = (expire_due s).1
run (attach_op i slate pack) s = (attach_grin1 i slate pack s).1
run (receive_op c r) s = (persist_and_match c r s).1
run (replied_op slate) s = (mark_replied slate s).1
run (poll_op node policy) s = (confirm_pending node policy s).1
run (settle_op n f) s = (settle_finalized n f s).1
run (sweep_op cancel) s = (expiry_sweep cancel s).1

abbrev pub run_all : List Operation → Store → Store
run_all [] s = s
run_all (o ∷ os) s = run_all os (run o s)
