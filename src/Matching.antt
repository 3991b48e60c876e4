-- ===== src/Matching.antt =====
-- The matching layer (crates/gp-core/src/matching.rs): one received payment to an open invoice and
-- a tenant user. A tie of `created_at` goes to the row that was inserted first.
use goblin_pay.Prelude.{
  ℕ, ◌+◌, String, Bool, true, false, not, ◌&&◌, ◌||◌, Option, none, some, List, [], ◌∷◌,
  if◌then◌else◌, ltb, ◌==◌, str_eq, column_eq, unwrap_or, select, first, least_by, update_where,
}
pub mod Reads
pub mod Binding
pub mod Outcome
pub mod Kept
pub mod Paying
use goblin_pay.Prelude.Int.{ℤ, as_i64, clamp_u64, sql_eq_ℤ}
use goblin_pay.Store.{
  MatchMode, memo, derived, amount, Invoice, Payment, Store, Result, ok, err, row_not_found, Action,
  ◌>>=◌, ◌>>◌, pure, ok_or, statement, query, execute,
}
use goblin_pay.Invoice.{effective_mode, eq_mode, is_open, mark_paid}
use goblin_pay.Endpub.{user_for_pubkey}
use mathlib.Core.Option

pub record IncomingPayment : Type 0 where
  pub slate_id : String
  pub amount_nano : ℕ
  pub recipient_hex : String
  pub memo_text : Option String

pub record AmountMismatch : Type 0 where
  pub expected : ℕ
  pub received_nano : ℕ

pub record MatchResult : Type 0 where
  pub invoice_id : Option String
  pub user_id : Option String
  pub amount_mismatch : Option AmountMismatch

-- `ORDER BY created_at LIMIT 1`, its id
abbrev pub oldest : (Invoice → Bool) → List Invoice → Option Invoice
oldest p rows = least_by (λ (inv : Invoice). inv.created_at) (select p rows)

-- `status = 'open' AND COALESCE(match_mode, default) = mode`
abbrev pub in_mode : MatchMode → MatchMode → Invoice → Bool
in_mode mode default inv = is_open inv && eq_mode (effective_mode inv default) mode

abbrev pub fits_derived : MatchMode → String → Invoice → Bool
fits_derived default key inv = column_eq inv.recipient_pubkey key && in_mode derived default inv

abbrev pub fits_memo : MatchMode → String → Invoice → Bool
fits_memo default text inv = column_eq inv.order_ref text && in_mode memo default inv

-- `expiry IS NULL OR expiry > now`
abbrev pub unexpired : ℕ → Option ℕ → Bool
unexpired now none = true
unexpired now (some t) = ltb now t

abbrev pub fits_amount : MatchMode → ℕ → ℕ → Invoice → Bool
fits_amount default nano now inv =
    sql_eq_ℤ inv.expected_amount (as_i64 nano)
    && in_mode amount default inv
    && unexpired now inv.expiry

abbrev pub id_of : Option Invoice → Option String
id_of = Option.map (λ (inv : Invoice). inv.id)

unfoldable pub resolve_derived : MatchMode → String → Action (Option String)
resolve_derived default key = query (λ s. id_of (oldest (fits_derived default key) s.invoices))

unfoldable pub resolve_memo : MatchMode → String → Action (Option String)
resolve_memo default text = query (λ s. id_of (oldest (fits_memo default text) s.invoices))

unfoldable pub resolve_amount : MatchMode → ℕ → Action (Option String)
resolve_amount default nano =
    query (λ s. id_of (oldest (fits_amount default nano s.clock) s.invoices))

-- The three modes in turn: the first hit wins.
unfoldable pub or_memo : MatchMode → Option String → Option String → Action (Option String)
or_memo default text (some i) = pure (some i)
or_memo default (some text) none = resolve_memo default text
or_memo default none none = pure none

unfoldable pub or_amount : MatchMode → ℕ → Option String → Action (Option String)
or_amount default nano (some i) = pure (some i)
or_amount default nano none = resolve_amount default nano

unfoldable pub resolve : MatchMode → IncomingPayment → Action (Option String)
resolve default p = do
  by_key ← resolve_derived default p.recipient_hex
  by_memo ← or_memo default p.memo_text by_key
  or_amount default p.amount_nano by_memo

-- `SELECT expected_amount FROM invoice WHERE id = ?1`, `fetch_one`
unfoldable pub expected_of : String → Action (Option ℤ)
expected_of i = do
  row ← query (λ s. first (λ (inv : Invoice). str_eq inv.id i) s.invoices)
  inv ← ok_or row row_not_found
  pure inv.expected_amount

-- The amount binding: what is wrong with the amount, if anything is.
abbrev pub mismatch_of : ℕ → Option ℤ → Option AmountMismatch
mismatch_of nano none = none
mismatch_of nano (some z) =
    if nano == clamp_u64 z
    then none
    else some (record { expected = clamp_u64 z; received_nano = nano })

unfoldable pub check_amount : ℕ → Option String → Action (Option AmountMismatch)
check_amount nano none = pure none
check_amount nano (some i) = do expected ← expected_of i; pure (mismatch_of nano expected)

abbrev pub link_rows : String → Option String → Option String → Store → Store
link_rows slate i u s = record s {
  payments =
      update_where (λ (p : Payment). str_eq p.id slate)
        (λ p. record p { invoice_id = i; user_id = u }) s.payments;
}

-- `if let Some(id) = &invoice_id { mark_paid(…)?; }`
unfoldable pub pay_matched : Option String → String → Action Bool
pay_matched none slate = pure false
pay_matched (some i) slate = mark_paid i slate

-- Mark the invoice paid and link the payment row.
unfoldable pub settle : IncomingPayment → Option String → Option String → Action MatchResult
settle p i u = do
  pay_matched i p.slate_id
  execute (link_rows p.slate_id i u)
  pure (record { invoice_id = i; user_id = u; amount_mismatch = none })

unfoldable pub conclude :
    IncomingPayment → Option String → Option String → Option AmountMismatch → Action MatchResult
conclude p i u (some bad) =
    pure (record { invoice_id = none; user_id = none; amount_mismatch = some bad })
conclude p i u none = settle p i u

unfoldable pub match_payment : MatchMode → IncomingPayment → Action MatchResult
match_payment default p = do
  credited ← user_for_pubkey p.recipient_hex
  i ← resolve default p
  bad ← check_amount p.amount_nano i
  conclude p i (Option.map (λ (c : String × ℕ). c.0) credited) bad

-- To unfold this is to unfold the module's functions.
unfoldable pub matching : Unit {0}
unfolding resolve_derived resolve_memo resolve_amount or_memo or_amount resolve expected_of
    check_amount pay_matched settle conclude match_payment
matching = tt
