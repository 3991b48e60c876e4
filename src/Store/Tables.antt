-- ===== src/Store/Tables.antt =====
-- The rows of the SQLite database (migrations/*.sql) and the store that a statement runs on.
-- Tables are lists in insertion (rowid) order. A timestamp is a number of seconds since 1970.
use goblin_pay.Prelude.{ℕ, String, Bool, Option, List}
use goblin_pay.Prelude.Int.{ℤ}

-- gp-core `config::MatchMode`
pub data MatchMode : Type 0 where
  memo derived amount : MatchMode

-- gp-core `invoice::InvoiceStatus`
pub data InvoiceStatus : Type 0 where
  open_status paid confirmed expired : InvoiceStatus

-- The values that the code writes to `payment.status`.
pub data PaymentStatus : Type 0 where
  received replied confirmed : PaymentStatus

-- gp-core `invoice::Invoice`
pub record Invoice : Type 0 where
  pub id : String
  pub order_ref : Option String
  pub expected_amount : Option ℤ
  pub expiry : Option ℕ
  pub status : InvoiceStatus
  pub created_at : ℕ
  pub token : Option String
  pub memo_text : Option String
  pub recipient_pubkey : Option String
  pub fiat_amount : Option String
  pub fiat_currency : Option String
  pub match_mode : Option MatchMode
  pub paid_payment_id : Option String
  pub paid_at : Option ℕ
  pub quote_rate : Option String
  pub quote_source : Option String
  pub confirmed_at : Option ℕ
  pub rail : Option String
  pub slate_id : Option String
  pub slatepack : Option String

pub record Payment : Type 0 where
  pub id : String
  pub amount_nano : ℤ
  pub payer : Option String
  pub slate_id : Option String
  pub kernel : Option String
  pub proof : Option String
  pub status : PaymentStatus
  pub confirmed_height : Option ℤ
  pub created_at : ℕ
  pub s2_armor : Option String
  pub confirmed_at : Option ℕ
  pub invoice_id : Option String
  pub user_id : Option String
  pub recipient : Option String
  pub confirmations : ℤ

-- gp-core `endpub::User`
pub record User : Type 0 where
  pub id : String
  pub rotate_interval : Option ℤ
  pub epoch : ℕ
  pub last_rotated_at : ℕ
  pub created_at : ℕ

-- gp-core `endpub::Endpub`
pub record Endpub : Type 0 where
  pub user_id : String
  pub epoch : ℕ
  pub pubkey : String
  pub created_at : ℕ

-- A row of `webhook_delivery`.
pub record DeliveryRow : Type 0 where
  pub id : String
  pub payment_id : Option String
  pub event_type : String
  pub url : String
  pub body : String
  pub attempts : ℕ
  pub delivered : Bool
  pub next_attempt_at : ℕ
  pub last_error : Option String
  pub created_at : ℕ
  pub updated_at : ℕ

-- The database, the clock that its statements read, and the faults to come: the statement that
-- meets `true` at the head fails and changes nothing; past the end of the list none fails.
pub record Store : Type 0 where
  pub invoices : List Invoice
  pub payments : List Payment
  pub users : List User
  pub endpubs : List Endpub
  pub deliveries : List DeliveryRow
  pub clock : ℕ
  pub faults : List Bool
