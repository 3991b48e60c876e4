-- ===== src/Webhookd.antt =====
-- The delivery worker (crates/gp-server/src/webhookd.rs): one pass over the due deliveries. What a
-- shop answers to a signed request is a parameter.
pub mod Pass
use goblin_pay.Prelude.{ℕ, String, List, [], ◌∷◌}
use goblin_pay.Store.{DeliveryRow, Action, ◌>>=◌, ◌>>◌, pure}
use goblin_pay.Webhook.{due, mark_delivered, mark_failed}

abbrev pub batch : ℕ
batch = 20

-- A 2xx answer, or the text of the failure.
pub data Answer : Type 0 where
  accepted_answer : Answer
  refused_answer : String → Answer

unfoldable pub report : DeliveryRow → Answer → Action (Unit {0})
report d accepted_answer = mark_delivered d.id
report d (refused_answer error) = mark_failed d.id error

unfoldable pub drain_each : (DeliveryRow → Answer) → List DeliveryRow → Action (Unit {0})
drain_each post [] = pure tt
drain_each post (d ∷ ds) = report d (post d) >> drain_each post ds

unfoldable pub drain : (DeliveryRow → Answer) → Action (Unit {0})
drain post = due batch >>= drain_each post
