-- ===== src/Webhook.antt =====
-- Webhook notifications (crates/gp-core/src/webhook.rs): payloads, the retry clock and the queue
-- `webhook_delivery`. The JSON serializer and a fresh event id are arguments.
pub mod Amount
pub mod Decimal
pub mod Civil
pub mod Calendar
pub mod Retry
pub mod Queue
use goblin_pay.Prelude.{
  ℕ, zero, suc, ◌+◌, ◌-◌, ◌*◌, ◌^◌, String, Bool, true, false, not, ◌&&◌, Option, none, some, List,
  [], ◌∷◌, ◌++◌, if◌then◌else◌, ltb, leb, ◌==◌, str_eq, take, select, first, update_where, any, min,
}
use goblin_pay.Store.{
  DeliveryRow, Store, Result, ok, err, constraint, row_not_found, Action, ◌>>=◌, ◌>>◌, pure, ok_or,
  statement, query, execute,
}
use goblin_pay.Webhook.Amount.{nanogrin_to_grin}

pub record PaymentPayload : Type 0 where
  pub slate_id : String
  pub amount_nano : ℕ
  pub amount_grin : List ℕ
  pub status : String
  pub payer : Option String
  pub confirmed_height : Option ℕ
  pub confirmations : Option ℕ

pub record WebhookPayload : Type 0 where
  pub event_id : String
  pub event_type : String
  pub created_at : ℕ
  pub payment : PaymentPayload
  pub invoice_id : Option String
  pub order_ref : Option String
  pub user_id : Option String

-- `WebhookPayload::received`
unfoldable pub received_payload :
    String
    → ℕ
    → String
    → ℕ
    → Option String
    → Option String
    → Option String
    → Option String
    → WebhookPayload
received_payload event now slate nano payer invoice_id order_ref user_id = record {
  event_id = event;
  event_type = "payment.received";
  created_at = now;
  payment = record {
    slate_id = slate;
    amount_nano = nano;
    amount_grin = nanogrin_to_grin nano;
    status = "received";
    payer = payer;
    confirmed_height = none;
    confirmations = none;
  };
  invoice_id = invoice_id;
  order_ref = order_ref;
  user_id = user_id;
}

-- `WebhookPayload::confirmed`
unfoldable pub confirmed_payload :
    String
    → ℕ
    → String
    → ℕ
    → Option String
    → Option String
    → Option String
    → Option String
    → Option ℕ
    → ℕ
    → WebhookPayload
confirmed_payload event now slate nano payer invoice_id order_ref user_id height depth = record {
  event_id = event;
  event_type = "payment.confirmed";
  created_at = now;
  payment = record {
    slate_id = slate;
    amount_nano = nano;
    amount_grin = nanogrin_to_grin nano;
    status = "confirmed";
    payer = payer;
    confirmed_height = height;
    confirmations = some depth;
  };
  invoice_id = invoice_id;
  order_ref = order_ref;
  user_id = user_id;
}

abbrev pub backoff_base : ℕ
backoff_base = 30

abbrev pub backoff_cap : ℕ
backoff_cap = 3600

abbrev pub max_attempts : ℕ
max_attempts = 12

abbrev pub i64_max : ℕ
i64_max = 2 ^ 63 - 1

abbrev pub saturating_mul : ℕ → ℕ → ℕ
saturating_mul a b = min (a * b) i64_max

-- A count of attempts is never negative; `attempts <= 0` is 0.
unfoldable pub backoff_secs : ℕ → ℕ
backoff_secs zero = 0
backoff_secs (suc n) = min (saturating_mul backoff_base (2 ^ min n 20)) backoff_cap

abbrev pub new_delivery : String → (WebhookPayload → String) → WebhookPayload → ℕ → DeliveryRow
new_delivery url to_body p now = record {
  id = p.event_id;
  payment_id = some p.payment.slate_id;
  event_type = p.event_type;
  url = url;
  body = to_body p;
  attempts = 0;
  delivered = false;
  next_attempt_at = now;
  last_error = none;
  created_at = now;
  updated_at = now;
}

abbrev pub is_delivery : String → DeliveryRow → Bool
is_delivery i d = str_eq d.id i

abbrev pub insert_delivery : DeliveryRow → Store → Result (Unit {0}) × Store
insert_delivery d s =
    if any (is_delivery d.id) s.deliveries
    then (err constraint, s)
    else (ok tt, record s { deliveries = s.deliveries ++ d ∷ [] })

unfoldable pub enqueue : (WebhookPayload → String) → String → WebhookPayload → Action String
enqueue to_body url p = do
  statement (λ s. insert_delivery (new_delivery url to_body p s.clock) s)
  pure p.event_id

-- `delivered = 0 AND attempts < MAX AND next_attempt_at <= now`
abbrev pub is_due : ℕ → DeliveryRow → Bool
is_due now d = not d.delivered && ltb d.attempts max_attempts && leb d.next_attempt_at now

-- `ORDER BY next_attempt_at`
unfoldable pub insert_soonest : DeliveryRow → List DeliveryRow → List DeliveryRow
insert_soonest d [] = d ∷ []
insert_soonest d (x ∷ xs) =
    if leb d.next_attempt_at x.next_attempt_at then d ∷ x ∷ xs else x ∷ insert_soonest d xs

unfoldable pub soonest_first : List DeliveryRow → List DeliveryRow
unfolding insert_soonest
soonest_first [] = []
soonest_first (x ∷ xs) = insert_soonest x (soonest_first xs)

unfoldable pub due : ℕ → Action (List DeliveryRow)
unfolding soonest_first
due limit = query (λ s. take limit (soonest_first (select (is_due s.clock) s.deliveries)))

abbrev pub deliver : ℕ → DeliveryRow → DeliveryRow
deliver now d = record d {
  delivered = true;
  attempts = d.attempts + 1;
  last_error = none;
  updated_at = now;
}

unfoldable pub mark_delivered : String → Action (Unit {0})
mark_delivered i =
    execute
      (λ s. record s { deliveries = update_where (is_delivery i) (deliver s.clock) s.deliveries })

abbrev pub postpone : ℕ → String → ℕ → DeliveryRow → DeliveryRow
postpone attempts error now d = record d {
  attempts = attempts;
  last_error = some error;
  next_attempt_at = now + backoff_secs attempts;
  updated_at = now;
}

-- The row is read with `fetch_one`, and then rescheduled.
unfoldable pub mark_failed : String → String → Action (Unit {0})
mark_failed i error = do
  row ← query (λ s. first (is_delivery i) s.deliveries)
  d ← ok_or row row_not_found
  execute (λ s. record s {
    deliveries =
        update_where (is_delivery i) (postpone (d.attempts + 1) error s.clock) s.deliveries;
  })
