-- ===== src/Tests/Poll.antt =====
-- The confirmation poll at a node that has no kernel yet.
use goblin_pay.Prelude.{codes, ℕ, String, refl, Option, none, some, List, [], ◌∷◌}
use goblin_pay.Prelude.Int.{pos}
use goblin_pay.Store.{Store}
use goblin_pay.Confirm.{Node, confirm_status, interpret, parse_commitment, status_of}
use goblin_pay.Record.{payment_row}
use goblin_pay.Record.Rejection.{OnlyPayments}
use goblin_pay.Payments.{ConfirmPolicy, confirm_pending}
use goblin_pay.Payments.Depth.{IsShallow, confirm_pending_shallow}
use goblin_pay.Tests.Data.{sample_store, sample_context, short_payment}

-- It is at block 100 and has seen every kernel at block 98, three deep.
abbrev young_node : Node
young_node = record { chain_tip = some 100; kernel_height = λ c. some (some 98) }

abbrev ten_deep : ConfirmPolicy
ten_deep = record {
  required = pos 10;
  webhook_url = some "https://shop";
  event_id = λ slate. slate;
  to_body = λ p. p.event_id;
}

abbrev waiting_store : Store
waiting_store = record sample_store {
  payments = payment_row sample_context short_payment 1400 ∷ [];
}

young-IsShallow : (kernel : String) → IsShallow ten_deep (confirm_status young_node kernel)
unfolding confirm_status interpret
young-IsShallow kernel = go (parse_commitment (codes kernel))
  where
    go : (o : Option (List ℕ)) → IsShallow ten_deep (status_of young_node kernel o)
    go none = tt
    go (some c) = λ _. refl

confirm_pending_shallow_example :
    OnlyPayments waiting_store (confirm_pending young_node ten_deep waiting_store).1
confirm_pending_shallow_example =
    confirm_pending_shallow young_node ten_deep waiting_store young-IsShallow
