-- ===== src/Tests/Queue.antt =====
-- The theorems about the webhook queue, its amounts and its clock, at concrete inputs.
use goblin_pay.Prelude.{
  codes, ◌≡◌, refl, ◌≤◌, ◌*◌, ◌^◌, some, [], ◌∷◌, All, arith, length, min, false,
}
use goblin_pay.Store.{DeliveryRow, Store, ok, monad}
use goblin_pay.Webhook.{due, backoff_secs}
use goblin_pay.Webhook.Amount.{nanogrin_to_grin}
use goblin_pay.Webhook.Civil.{civil_from_days, format_unix_utc, now_iso8601}
use goblin_pay.Webhook.Calendar.{
  days_from_civil, format_unix_utc-eq-now_iso8601, days_from_civil-civil_from_days,
}
use goblin_pay.Webhook.Decimal.{read_amount, read_amount-nanogrin_to_grin}
use goblin_pay.Webhook.Retry.{backoff_secs-doubling}
use goblin_pay.Webhook.Queue.{MayBeSent, due-MayBeSent}
use goblin_pay.Webhookd.{refused_answer, drain}
use goblin_pay.Webhookd.Pass.{OnlyDeliveries, drain-OnlyDeliveries}
use goblin_pay.Tests.Data.{sample_store}

-- It failed twice and is due since the second 1400.
abbrev tried_twice : DeliveryRow
tried_twice = record {
  id = "event-0";
  payment_id = some "slate-0";
  event_type = "payment.received";
  url = "https://shop";
  body = "";
  attempts = 2;
  delivered = false;
  next_attempt_at = 1400;
  last_error = some "status 500";
  created_at = 1000;
  updated_at = 1340;
}

-- It is not due before the second 1600.
abbrev postponed : DeliveryRow
postponed = record tried_twice { id = "event-1"; next_attempt_at = 1600 }

abbrev queue_store : Store
queue_store = record sample_store { deliveries = postponed ∷ tried_twice ∷ [] }

due-found : (due 20 queue_store).0 ≡ ok (tried_twice ∷ [])
unfolding due monad
due-found = refl

due-MayBeSent_example : All (MayBeSent 1500) (tried_twice ∷ []) × (length (tried_twice ∷ []) ≤ 20)
due-MayBeSent_example = due-MayBeSent 20 queue_store (tried_twice ∷ []) due-found

backoff_secs-doubling_example : backoff_secs 5 ≡ min (30 * 2 ^ 4) 3600
backoff_secs-doubling_example = backoff_secs-doubling 4

format_unix_utc-eq-now_iso8601_example : format_unix_utc 1_709_210_096 ≡ now_iso8601 1_709_210_096
format_unix_utc-eq-now_iso8601_example = format_unix_utc-eq-now_iso8601 1_709_210_096

-- A leap day.
leap_day : format_unix_utc 1_709_210_096 ≡ codes "2024-02-29T12:34:56Z"
unfolding format_unix_utc
leap_day = refl

days_from_civil-civil_from_days_example :
    let c = civil_from_days 19782 in
    (days_from_civil c.year c.month c.day ≡ 19782)
    × (1 ≤ c.month)
    × (c.month ≤ 12)
    × (1 ≤ c.day)
    × (c.day ≤ 31)
days_from_civil-civil_from_days_example = days_from_civil-civil_from_days 19782

read_amount-nanogrin_to_grin_example : read_amount (nanogrin_to_grin 2_500_000_000) ≡ 2_500_000_000
read_amount-nanogrin_to_grin_example = read_amount-nanogrin_to_grin 2_500_000_000 (omega arith)

-- The shop answers with an error.
drain-OnlyDeliveries_example :
    OnlyDeliveries queue_store (drain (λ d. refused_answer "HTTP 500") queue_store).1
drain-OnlyDeliveries_example = drain-OnlyDeliveries (λ d. refused_answer "HTTP 500") queue_store
