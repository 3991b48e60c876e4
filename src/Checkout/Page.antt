-- ===== src/Checkout/Page.antt =====
-- The pay page and its status (crates/gp-server/src/checkout.rs, pay_page and pay_status). What the
-- template and the JSON show is a record.
use goblin_pay.Prelude.{String, Bool, false, Option, none, some, List, ◌++◌, codes, Text}
use goblin_pay.Prelude.Int.{ℤ, pos}
use goblin_pay.Store.{
  InvoiceStatus, open_status, Invoice, Result, ok, err, Action, ◌>>=◌, pure, attempt,
}
use goblin_pay.Config.{Config}
use goblin_pay.Invoice.{eq_status, get_by_token, confirmations, plain_send_allowed}
use goblin_pay.Checkout.{Encoders, CheckoutInfo, build_info}
use goblin_pay.Checkout.Tabs.{MethodTab, build_tabs}
use goblin_pay.Checkout.Paste.{Response, shown, not_found, internal_error}

pub record PayPage : Type 0 where
  pub info : CheckoutInfo
  pub shows_open : Bool
  pub shows_paid : Bool
  pub shows_confirmed : Bool
  pub shows_expired : Bool
  pub depth : ℤ
  pub depth_required : ℤ
  pub tabs : List MethodTab
  pub active_method : Text
  pub refresh_url : Text

-- `.await.unwrap_or(default)`
abbrev pub value_or : {A : Type 0} → Result A → A → A
value_or (ok a) default = a
value_or (err e) default = default

abbrev pub text_of : Option String → Option Text
text_of none = none
text_of (some s) = some (codes s)

abbrev pub page_with : Invoice → Config → ℤ → CheckoutInfo → List MethodTab × Text → PayPage
page_with inv cfg depth info (tabs, active) = record {
  info = info;
  shows_open = eq_status inv.status open_status;
  shows_paid = eq_status inv.status InvoiceStatus.paid;
  shows_confirmed = eq_status inv.status InvoiceStatus.confirmed;
  shows_expired = eq_status inv.status InvoiceStatus.expired;
  depth = depth;
  depth_required = cfg.confirmations_required;
  tabs = tabs;
  active_method = active;
  refresh_url = info.base ++ codes "/pay/" ++ info.token ++ codes "?method=" ++ active;
}

unfoldable pub page_for :
    Encoders
    → Option Text
    → Config
    → Option Text
    → Result (Option Invoice)
    → Action (Response PayPage)
unfolding build_info build_tabs
page_for e addr cfg method (err x) = pure internal_error
page_for e addr cfg method (ok none) = pure not_found
page_for e addr cfg method (ok (some inv)) = do
  depth ← attempt (confirmations inv.id)
  plain ← attempt (plain_send_allowed inv)
  let info = build_info e inv cfg addr (text_of inv.slatepack) (value_or plain false)
  pure (shown (page_with inv cfg (value_or depth (pos 0)) info (build_tabs info method)))

-- GET /pay/{token}, with the address of the wallet if one is loaded and tells it.
unfoldable pub pay_page :
    Encoders → Option Text → Config → String → Option Text → Action (Response PayPage)
unfolding page_for
pay_page e addr cfg token method = attempt (get_by_token token) >>= page_for e addr cfg method

pub record PayStatus : Type 0 where
  pub invoice_id : String
  pub status : InvoiceStatus
  pub expected_amount : Option ℤ
  pub paid_payment_id : Option String
  pub depth : ℤ
  pub depth_required : ℤ

unfoldable pub status_for : Config → Result (Option Invoice) → Action (Response PayStatus)
status_for cfg (err x) = pure internal_error
status_for cfg (ok none) = pure not_found
status_for cfg (ok (some inv)) = do
  depth ← attempt (confirmations inv.id)
  pure (
      shown (record {
        invoice_id = inv.id;
        status = inv.status;
        expected_amount = inv.expected_amount;
        paid_payment_id = inv.paid_payment_id;
        depth = value_or depth (pos 0);
        depth_required = cfg.confirmations_required;
      }))

-- GET /pay/{token}/status
unfoldable pub pay_status : Config → String → Action (Response PayStatus)
unfolding status_for
pay_status cfg token = attempt (get_by_token token) >>= status_for cfg
