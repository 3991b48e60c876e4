-- ===== src/Connector.antt =====
-- The connector's invoice API (crates/gp-server/src/invoices.rs), with its bearer token
-- (crates/gp-server/src/auth.rs) and the store connector (crates/gp-core/src/store.rs). An error response
-- is its status and kind; randomness, key derivation and the wallet's task are parameters.
pub mod Endpoint
pub mod Locked
use goblin_pay.Prelude.{
  ℕ, String, Bool, true, false, not, ◌&&◌, Option, none, some, List, [], if◌then◌else◌, codes,
  trim_start, trim, Text, text_eq, starts_with, drop, str_eq,
}
use goblin_pay.Prelude.Int.{ℤ, pos, ltb_ℤ, as_u64}
use goblin_pay.Store.{
  MatchMode, memo, derived, amount, Invoice, Store, Result, ok, err, Action, ◌>>=◌, pure, attempt,
}
use goblin_pay.Config.{Config, RateSource, coin_gecko}
use goblin_pay.Invoice.{
  AmountSpec, grin, fiat, fiat_quoted, NewInvoice, get, attach_grin1, confirmations,
}
use goblin_pay.Invoice.Create.{create}
use goblin_pay.Rates.{
  RateError, unsupported_currency, bad_amount, source_unavailable, misconfigured, Rated, rated,
  unrated, Floats, HttpAnswer, Quote, Oracle, format_rate, quote,
}
use goblin_pay.Wallet.{Fallible, fine, failed, Call}
use goblin_pay.Checkout.{Encoders, CheckoutInfo, build_info}
use goblin_pay.Checkout.Page.{value_or}

-- `bearer`: the token behind `Bearer ` or `bearer `
abbrev pub token_behind : Text → Option Text
token_behind v =
    if starts_with (codes "Bearer ") v
    then some (trim (drop 7 v))
    else if starts_with (codes "bearer ") v
    then some (trim (drop 7 v))
    else none

unfoldable pub bearer : Option Text → Option Text
bearer none = none
bearer (some value) = token_behind value

abbrev pub tokens_agree : Option Text → Option Text → Bool
tokens_agree (some expected) (some got) = text_eq got expected
tokens_agree (some expected) none = false
tokens_agree none got = false

-- A token that is not configured authorizes nobody.
unfoldable pub authorized : Option Text → Option Text → Bool
unfolding bearer
authorized header expected = tokens_agree expected (bearer header)

pub record CreateInvoiceBody : Type 0 where
  pub order_ref : Option String
  pub amount_grin : Option ℕ
  pub amount_fiat : Option String
  pub currency : Option String
  pub memo_text : Option String
  pub match_mode : Option Text
  pub expiry_secs : Option ℤ

-- The response: 200, 400, 401, 404, 500, 502, 503.
pub data Answer : Type 0 where
  checkout : CheckoutInfo → ℤ → ℤ → Answer
  bad_request unauthorized missing internal bad_gateway no_identity : Answer

unfoldable pub parse_mode : Text → Option MatchMode
parse_mode s =
    if text_eq s (codes "memo")
    then some memo
    else if text_eq s (codes "derived")
    then some derived
    else if text_eq s (codes "amount")
    then some amount
    else none

abbrev pub amount_of : Option ℕ → Option String → Option String → Option AmountSpec
amount_of (some nano) fiat_amount currency = some (grin nano)
amount_of none (some a) (some c) = some (fiat a c)
amount_of none (some a) none = none
amount_of none none currency = none

-- A mode that is given must be one.
abbrev pub known_mode : Option MatchMode → Option (Option MatchMode)
known_mode none = none
known_mode (some m) = some (some m)

abbrev pub mode_of : Option Text → Option (Option MatchMode)
mode_of none = some none
mode_of (some s) = known_mode (parse_mode s)

-- `RestConnector::new_invoice`, the identity mapping
abbrev pub new_invoice : CreateInvoiceBody → AmountSpec → Option MatchMode → NewInvoice
new_invoice body spec mode = record {
  order_ref = body.order_ref;
  spec = spec;
  memo_text = body.memo_text;
  match_mode = mode;
  expiry_secs = body.expiry_secs;
}

unfoldable pub rate_error_response : RateError → Answer
rate_error_response unsupported_currency = bad_request
rate_error_response bad_amount = bad_request
rate_error_response source_unavailable = bad_gateway
rate_error_response misconfigured = internal

-- `Some(secs) if secs > 0 && secs < ttl => secs, _ => ttl`
abbrev pub clamp_expiry : ℤ → Option ℤ → ℤ
clamp_expiry ttl none = ttl
clamp_expiry ttl (some secs) = if ltb_ℤ (pos 0) secs && ltb_ℤ secs ttl then secs else ttl

abbrev pub source_name : RateSource → String
source_name coin_gecko = "coingecko"

pub data Priced : Type 0 where
  priced : NewInvoice → Priced
  unpriced : Answer → Priced

-- What the wallet issues for an exact amount; its task may panic.
pub record Issuer (W : Type 0) : Type 0 where
  pub issue_invoice : ℕ → Call W (String × String)
  pub panics : W → Bool

module _ {F : Type 0} (num : Floats F) (to_string : Text → String) where
  abbrev pub with_quote : NewInvoice → String → String → ℤ → Rated (Quote F) → Priced
  with_quote p fiat_amount currency ttl (rated q) = priced (record p {
    spec =
        fiat_quoted fiat_amount currency q.nanogrin (to_string (format_rate num q.fiat_per_grin))
          (source_name q.source);
    expiry_secs = some (clamp_expiry ttl p.expiry_secs);
  })
  with_quote p fiat_amount currency ttl (unrated e) = unpriced (rate_error_response e)

  abbrev pub quoted :
      NewInvoice → String → String → ℤ → Rated (Quote F) × Oracle F → Priced × Oracle F
  quoted p fiat_amount currency ttl (r, o) = (with_quote p fiat_amount currency ttl r, o)

  abbrev pub price_spec :
      AmountSpec → Oracle F → (Text → Option HttpAnswer) → ℕ → NewInvoice → Priced × Oracle F
  price_spec (grin nano) o http now p = (priced p, o)
  price_spec (fiat_quoted a c nano rate source) o http now p = (priced p, o)
  price_spec (fiat a c) o http now p =
      quoted p a c o.quote_ttl_secs (quote num o http now (codes a) (codes c))

  unfoldable pub price_if_fiat :
      Oracle F → (Text → Option HttpAnswer) → ℕ → NewInvoice → Priced × Oracle F
  unfolding quote format_rate rate_error_response
  price_if_fiat o http now p = price_spec p.spec o http now p

abbrev pub found_or : Result (Option Invoice) → Invoice → Invoice
found_or (ok (some x)) inv = x
found_or (ok none) inv = inv
found_or (err e) inv = inv

module _ {W : Type 0} (issuer : Issuer W) where
  unfoldable pub attached : Invoice → Result (Unit {0}) → Action Invoice
  attached inv (err e) = pure inv
  attached inv (ok u) = attempt (get inv.id) >>= λ r. pure (found_or r inv)

  unfoldable pub issued_for : Invoice → Fallible (String × String) → Action Invoice
  unfolding attached
  issued_for inv (failed e) = pure inv
  issued_for inv (fine (slate_id, i1_armor)) =
      attempt (attach_grin1 inv.id slate_id i1_armor) >>= attached inv

  abbrev pub arm_amount : Invoice → Option ℤ → W → Action (Invoice × W)
  arm_amount inv none w = pure (inv, w)
  arm_amount inv (some nano) w =
      let r = issuer.issue_invoice (as_u64 nano) w in
      if not (ltb_ℤ (pos 0) nano)
      then pure (inv, w)
      else if issuer.panics w
      then pure (inv, r.1)
      else issued_for inv r.0 >>= λ x. pure (x, r.1)

  unfoldable pub arm_grin1_rail : Config → Bool → Invoice → W → Action (Invoice × W)
  unfolding issued_for
  arm_grin1_rail cfg loaded inv w =
      if not cfg.grin1_rail
      then pure (inv, w)
      else if loaded
      then arm_amount inv inv.expected_amount w
      else pure (inv, w)
