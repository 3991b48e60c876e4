-- ===== src/Invoice.antt =====
-- Invoices (crates/gp-core/src/invoice.rs): the order-matching layer over received payments.
-- The random id and checkout token of a new invoice are arguments.
use goblin_pay.Prelude.{
  ℕ, ◌+◌, ◌-◌, ◌≤◌, String, Bool, true, false, not, ◌&&◌, ◌||◌, Option, none, some, List, [], ◌∷◌,
  ◌++◌, if◌then◌else◌, ltb, leb, ◌==◌, str_eq, column_eq, is_some, unwrap_or, select, first,
  update_where, take, keep_some, count_where, any, length,
}
pub mod Create
pub mod Lifecycle
pub mod Keys
use mathlib.Core.Option
use goblin_pay.Prelude.Int.{sql_eq_ℤ, ℤ, pos, negsuc, as_i64, eq_ℤ, ltb_ℤ}
use goblin_pay.Store.{
  MatchMode, memo, derived, amount, InvoiceStatus, open_status, Invoice, Payment, Store, SqlError,
  constraint, row_not_found, Result, ok, err, Action, ◌>>=◌, ◌>>◌, pure, throw, ok_or, statement,
  query, execute,
}

-- The value of the status column.
pub as_str : InvoiceStatus → String
as_str open_status = "open"
as_str InvoiceStatus.paid = "paid"
as_str InvoiceStatus.confirmed = "confirmed"
as_str InvoiceStatus.expired = "expired"

pub parse : String → InvoiceStatus
parse s =
    if str_eq s "paid"
    then InvoiceStatus.paid
    else if str_eq s "confirmed"
    then InvoiceStatus.confirmed
    else if str_eq s "expired"
    then InvoiceStatus.expired
    else open_status

abbrev pub eq_status : InvoiceStatus → InvoiceStatus → Bool
eq_status open_status open_status = true
eq_status InvoiceStatus.paid InvoiceStatus.paid = true
eq_status InvoiceStatus.confirmed InvoiceStatus.confirmed = true
eq_status InvoiceStatus.expired InvoiceStatus.expired = true
eq_status _ _ = false

abbrev pub eq_mode : MatchMode → MatchMode → Bool
eq_mode memo memo = true
eq_mode derived derived = true
eq_mode amount amount = true
eq_mode _ _ = false

pub data AmountSpec : Type 0 where
  grin : ℕ → AmountSpec
  fiat : String → String → AmountSpec
  -- amount, currency, nanogrin, rate, source
  fiat_quoted : String → String → ℕ → String → String → AmountSpec

pub record NewInvoice : Type 0 where
  pub order_ref : Option String
  pub spec : AmountSpec
  pub memo_text : Option String
  pub match_mode : Option MatchMode
  pub expiry_secs : Option ℤ

-- The per-invoice override, else the default.
abbrev pub effective_mode : Invoice → MatchMode → MatchMode
effective_mode inv default = unwrap_or inv.match_mode default

-- `strftime('now', '+N seconds')`
abbrev pub shift : ℕ → ℤ → ℕ
shift now (pos n) = now + n
shift now (negsuc n) = now - (n + 1)

-- `expiry IS NOT NULL AND expiry <= now`
abbrev pub past : ℕ → Option ℕ → Bool
past now none = false
past now (some t) = leb t now

abbrev pub is_open : Invoice → Bool
is_open inv = eq_status inv.status open_status

-- `status = 'open' AND expiry IS NOT NULL AND expiry <= now`
abbrev pub is_due : ℕ → Invoice → Bool
is_due now inv = is_open inv && past now inv.expiry

abbrev pub set_invoices : Store → List Invoice → Store
set_invoices s rows = record s { invoices = rows }

abbrev pub expire : Invoice → Invoice
expire inv = record inv { status = InvoiceStatus.expired }

abbrev pub expired_rows : (Invoice → Bool) → Store → Store
expired_rows scope s =
    set_invoices s (update_where (λ inv. scope inv && is_due s.clock inv) expire s.invoices)

unfoldable pub expire_due : Action (Unit {0})
expire_due = execute (expired_rows (λ _. true))

unfoldable pub expire_if_due_id : String → Action (Unit {0})
expire_if_due_id i = execute (expired_rows (λ inv. str_eq inv.id i))

unfoldable pub get : String → Action (Option Invoice)
unfolding expire_if_due_id
get i = do expire_if_due_id i; query (λ s. first (λ inv. str_eq inv.id i) s.invoices)

unfoldable pub get_by_token : String → Action (Option Invoice)
get_by_token t = do
  execute (expired_rows (λ inv. column_eq inv.token t))
  query (λ s. first (λ inv. column_eq inv.token t) s.invoices)

-- The newest rows first; a row stays behind the rows of its second that stand before it.
pub insert_newest : Invoice → List Invoice → List Invoice
insert_newest inv [] = inv ∷ []
insert_newest inv (x ∷ xs) =
    if ltb inv.created_at x.created_at then x ∷ insert_newest inv xs else inv ∷ x ∷ xs

pub newest_first : List Invoice → List Invoice
unfolding insert_newest
newest_first [] = []
newest_first (x ∷ xs) = insert_newest x (newest_first xs)

unfoldable pub list : ℕ → Action (List Invoice)
unfolding expire_due newest_first
list limit = do expire_due; query (λ s. take limit (newest_first s.invoices))

-- An `UPDATE` of invoices whose number of rows is read: whether it touched any.
abbrev pub updated_invoices :
    (ℕ → Invoice → Bool) → (ℕ → Invoice → Invoice) → Store → Result Bool × Store
updated_invoices p f s = (
  ok (any (p s.clock) s.invoices),
  set_invoices s (update_where (p s.clock) (f s.clock) s.invoices),
)

-- `id = ?1 AND status = …`
abbrev pub open_row : String → Invoice → Bool
open_row i inv = str_eq inv.id i && is_open inv

abbrev pub paid_row : String → Invoice → Bool
paid_row i inv = str_eq inv.id i && eq_status inv.status InvoiceStatus.paid

abbrev pub pay : String → ℕ → Invoice → Invoice
pay payment_id now inv = record inv {
  status = InvoiceStatus.paid;
  paid_payment_id = some payment_id;
  paid_at = some now;
}

unfoldable pub mark_paid : String → String → Action Bool
mark_paid invoice_id payment_id =
    statement (updated_invoices (λ now. open_row invoice_id) (pay payment_id))

abbrev pub confirm : ℕ → Invoice → Invoice
confirm now inv = record inv { status = InvoiceStatus.confirmed; confirmed_at = some now }

unfoldable pub mark_confirmed : String → Action Bool
mark_confirmed invoice_id = statement (updated_invoices (λ now. paid_row invoice_id) confirm)

unfoldable pub mark_expired : String → Action Bool
mark_expired invoice_id = statement (updated_invoices (λ now. open_row invoice_id) (λ now. expire))

abbrev pub rail_grin1 : String
rail_grin1 = "grin1"

abbrev pub is_grin1 : Invoice → Bool
is_grin1 inv = column_eq inv.rail rail_grin1

abbrev pub arm : String → String → Invoice → Invoice
arm slate pack inv = record inv {
  rail = some rail_grin1;
  slate_id = some slate;
  slatepack = some pack;
}

unfoldable pub attach_grin1 : String → String → String → Action (Unit {0})
attach_grin1 invoice_id slate pack = execute (λ s.
    set_invoices s (update_where (λ inv. str_eq inv.id invoice_id) (arm slate pack) s.invoices))

unfoldable pub get_by_slate_id : String → Action (Option Invoice)
get_by_slate_id slate = query (λ s. first (λ inv. column_eq inv.slate_id slate) s.invoices)

-- The rows inserted before the row with an id: `rowid < (SELECT rowid … WHERE id = ?3)`.
abbrev pub rows_before : String → List Invoice → Option (List Invoice)
rows_before i [] = none
rows_before i (x ∷ xs) =
    if str_eq x.id i then some [] else Option.map (λ r. x ∷ r) (rows_before i xs)

-- `rail = 'grin1' AND status = 'open' AND expected_amount = ?2 AND id <> ?3`
abbrev pub claims : ℤ → String → Invoice → Bool
claims z i inv =
    is_grin1 inv && is_open inv && sql_eq_ℤ inv.expected_amount z && not (str_eq inv.id i)

unfoldable pub plain_send_allowed : Invoice → Action Bool
plain_send_allowed inv = if not (is_grin1 inv) then pure false else elim inv.expected_amount [
  | none ↦ pure false
  | some z ↦
      if ltb_ℤ (pos 0) z
      then query
          (λ s. count_where (claims z inv.id) (unwrap_or (rows_before inv.id s.invoices) []) == 0)
      else pure false
]

-- The slates of the open grin1 invoices whose expiry has passed.
abbrev pub due_slate : ℕ → Invoice → Option (String × String)
due_slate now inv =
    if is_grin1 inv && is_due now inv then Option.map (λ sl. (inv.id, sl)) inv.slate_id else none

unfoldable pub due_grin1_slates : Action (List (String × String))
due_grin1_slates = query (λ s. keep_some (due_slate s.clock) s.invoices)

-- The depth of the payment that paid an invoice.
abbrev pub paid_depth : List Payment → Option Invoice → ℤ
paid_depth ps none = pos 0
paid_depth ps (some inv) = elim inv.paid_payment_id [
  | none ↦ pos 0
  | some pid ↦ elim (first (λ (p : Payment). column_eq p.slate_id pid) ps) [
    | none ↦ pos 0
    | some p ↦ p.confirmations
  ]
]

unfoldable pub confirmations : String → Action ℤ
confirmations i = query (λ s. paid_depth s.payments (first (λ inv. str_eq inv.id i) s.invoices))
