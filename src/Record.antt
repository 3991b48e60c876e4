-- ===== src/Record.antt =====
-- Recording a received payment with its matching and webhook side effects
-- (crates/gp-server/src/record.rs), and the receiver's payment statements
-- (crates/gp-server/src/ingest.rs). A logged error leaves no trace in the store.
pub mod Rejection
pub mod Kept
use goblin_pay.Prelude.{
  ℕ, String, Bool, true, false, ◌&&◌, Option, none, some, List, [], ◌∷◌, ◌++◌, if◌then◌else◌,
  str_eq, column_eq, update_where, delete_where, any,
}
use goblin_pay.Prelude.Int.{ℤ, pos, as_i64}
use goblin_pay.Store.{
  MatchMode, PaymentStatus, replied, Invoice, Payment, Store, Result, ok, err, constraint, Action,
  ◌>>=◌, ◌>>◌, pure, statement, read_clock, execute, attempt,
}
use goblin_pay.Invoice.{get}
use goblin_pay.Matching.{IncomingPayment, AmountMismatch, MatchResult, match_payment}
use goblin_pay.Webhook.{WebhookPayload, received_payload, enqueue}
use mathlib.Core.Option

-- gp-wallet `Received`
pub record Received : Type 0 where
  pub slate_id : String
  pub amount_nano : ℕ
  pub kernel_excess : String
  pub proof : Option String
  pub s2_armor : String

pub data PersistOutcome : Type 0 where
  matched : MatchResult → PersistOutcome
  rejected : AmountMismatch → PersistOutcome

-- What a call is given besides the payment: the sender, the identity that received it, the memo,
-- the default mode, the webhook URL and secret, a fresh event id and the JSON serializer.
pub record Context : Type 0 where
  pub payer_hex : Option String
  pub recipient_hex : String
  pub memo_text : Option String
  pub default_mode : MatchMode
  pub webhook : Option (String × String)
  pub event_id : String
  pub to_body : WebhookPayload → String

abbrev pub payment_row : Context → Received → ℕ → Payment
payment_row c r now = record {
  id = r.slate_id;
  amount_nano = as_i64 r.amount_nano;
  payer = c.payer_hex;
  slate_id = some r.slate_id;
  kernel = some r.kernel_excess;
  proof = r.proof;
  status = PaymentStatus.received;
  confirmed_height = none;
  created_at = now;
  s2_armor = some r.s2_armor;
  confirmed_at = none;
  invoice_id = none;
  user_id = none;
  recipient = some c.recipient_hex;
  confirmations = pos 0;
}

abbrev pub has_id : String → Payment → Bool
has_id i p = str_eq p.id i

abbrev pub insert_payment : Payment → Store → Result (Unit {0}) × Store
insert_payment p s =
    if any (has_id p.id) s.payments
    then (err constraint, s)
    else (ok tt, record s { payments = s.payments ++ p ∷ [] })

abbrev pub incoming : Context → Received → IncomingPayment
incoming c r = record {
  slate_id = r.slate_id;
  amount_nano = r.amount_nano;
  recipient_hex = c.recipient_hex;
  memo_text = c.memo_text;
}

-- `Err(e) => { warn!(…); MatchResult::default() }`
abbrev pub or_default : Result MatchResult → MatchResult
or_default (ok m) = m
or_default (err e) = record { invoice_id = none; user_id = none; amount_mismatch = none }

-- `invoice::get(…).await.ok().flatten().and_then(|inv| inv.order_ref)`
abbrev pub ref_of : Result (Option Invoice) → Option String
ref_of (ok (some inv)) = inv.order_ref
ref_of (ok none) = none
ref_of (err e) = none

unfoldable pub order_ref_of : Option String → Action (Option String)
order_ref_of none = pure none
order_ref_of (some i) = attempt (get i) >>= λ r. pure (ref_of r)

-- The `payment.received` event, if a webhook is configured.
unfoldable pub notify :
    Context → Received → MatchResult → Option (String × String) → Action (Unit {0})
notify c r m none = pure tt
notify c r m (some (url, secret)) = do
  order_ref ← order_ref_of m.invoice_id
  now ← read_clock
  attempt (
      enqueue c.to_body url (
        received_payload c.event_id now r.slate_id r.amount_nano c.payer_hex m.invoice_id order_ref
          m.user_id))
  pure tt

unfoldable pub delete_payment : String → Action (Unit {0})
delete_payment i = execute (λ s. record s { payments = delete_where (has_id i) s.payments })

-- The rejection undoes the record; anything else notifies the store.
unfoldable pub finish :
    Context → Received → MatchResult → Option AmountMismatch → Action PersistOutcome
finish c r m (some bad) = attempt (delete_payment r.slate_id) >>= λ _. pure (rejected bad)
finish c r m none = notify c r m c.webhook >>= λ _. pure (matched m)

unfoldable pub persist_and_match : Context → Received → Action PersistOutcome
persist_and_match c r = do
  attempt (statement (λ s. insert_payment (payment_row c r s.clock) s))
  result ← attempt (match_payment c.default_mode (incoming c r))
  let m = or_default result
  finish c r m m.amount_mismatch

abbrev pub of_slate : String → Payment → Bool
of_slate i p = column_eq p.slate_id i

-- `SlatepackReceiver::mark_replied`
unfoldable pub mark_replied : String → Action (Result (Unit {0}))
mark_replied slate = attempt (
    execute (λ s. record s {
      payments = update_where (of_slate slate) (λ p. record p { status = replied }) s.payments;
    }))

-- To unfold this is to unfold the module's functions.
unfoldable pub recording : Unit {0}
unfolding order_ref_of notify delete_payment finish persist_and_match mark_replied
recording = tt
