-- ===== src/Invoice/Create.antt =====
-- `invoice::create` (crates/gp-core/src/invoice.rs): a new invoice row.
use goblin_pay.Prelude.{
  ℕ, String, ◌||◌, Option, none, some, [], ◌∷◌, ◌++◌, any, str_eq, column_eq, if◌then◌else◌,
  unwrap_or,
}
use goblin_pay.Prelude.Int.{ℤ, as_i64}
use goblin_pay.Store.{
  MatchMode, derived, Invoice, Store, open_status, Result, ok, err, constraint, row_not_found,
  Action, ◌>>=◌, ◌>>◌, statement, ok_or,
}
use goblin_pay.Invoice.{
  NewInvoice, AmountSpec, grin, fiat, fiat_quoted, eq_mode, shift, set_invoices, get,
}
use mathlib.Core.Option

-- expected amount, fiat amount, fiat currency, rate, source
abbrev pub columns :
    AmountSpec → Option ℤ × Option String × Option String × Option String × Option String
columns (grin nano) = (some (as_i64 nano), none, none, none, none)
columns (fiat amount currency) = (none, some amount, some currency, none, none)
columns (fiat_quoted amount currency nano rate source) =
    (some (as_i64 nano), some amount, some currency, some rate, some source)

-- A derived child in derived mode, else the server's own identity.
abbrev pub recipient : (String → String) → String → MatchMode → String → String
recipient child_pubkey master mode i = if eq_mode mode derived then child_pubkey i else master

abbrev pub new_row :
    (String → String) → String → MatchMode → String → String → NewInvoice → ℕ → Invoice
new_row child_pubkey master default i token p now =
    let (amount, fiat_amount, currency, rate, source) = columns p.spec in
    record {
      id = i;
      order_ref = p.order_ref;
      expected_amount = amount;
      expiry = Option.map (shift now) p.expiry_secs;
      status = open_status;
      created_at = now;
      token = some token;
      memo_text = p.memo_text;
      recipient_pubkey = some (recipient child_pubkey master (unwrap_or p.match_mode default) i);
      fiat_amount = fiat_amount;
      fiat_currency = currency;
      match_mode = p.match_mode;
      paid_payment_id = none;
      paid_at = none;
      quote_rate = rate;
      quote_source = source;
      confirmed_at = none;
      rail = none;
      slate_id = none;
      slatepack = none;
    }

-- `id` is the primary key, and `token` has a unique index.
abbrev pub insert_row : (ℕ → Invoice) → String → String → Store → Result (Unit {0}) × Store
insert_row row i token s =
    if any (λ (x : Invoice). str_eq x.id i || column_eq x.token token) s.invoices
    then (err constraint, s)
    else (ok tt, set_invoices s (s.invoices ++ row s.clock ∷ []))

unfoldable pub create :
    (String → String) → String → MatchMode → String → String → NewInvoice → Action Invoice
create child_pubkey master default i token p = do
  statement (insert_row (new_row child_pubkey master default i token p) i token)
  found ← get i
  ok_or found row_not_found
