-- ===== src/Checkout.antt =====
-- The hosted checkout (crates/gp-server/src/checkout.rs): what a page shows of an invoice. The public
-- key encodings of the Nostr library and the QR renderer are parameters.
pub mod Uri
pub mod Link
pub mod Tabs
pub mod Gates
pub mod Paste
pub mod Sealed
pub mod Page
use goblin_pay.Prelude.{
  ℕ, String, Bool, true, false, not, ◌&&◌, Option, none, some, List, [], ◌∷◌, ◌++◌, if◌then◌else◌,
  unwrap_or, codes, Text, text_eq, is_blank,
}
use goblin_pay.Prelude.Int.{ℤ, as_u64}
use goblin_pay.Store.{InvoiceStatus, Invoice}
use goblin_pay.Config.{Config, qr_logo_builtin}
use goblin_pay.Setup.{base_path}
use goblin_pay.Webhook.Amount.{nanogrin_to_grin}
use goblin_pay.Checkout.Uri.{pay_uri}
use goblin_pay.Nostr.Relays.{resolve}

-- gp-core `qr::Logo`
pub data Logo : Type 0 where
  no_logo builtin : Logo
  href : Text → Logo

-- The npub and the nprofile of a key in hex, if it is one; and the SVG of a QR code, if it fits.
pub record Encoders : Type 0 where
  pub profile : Text → List Text → Option (Text × Text)
  pub svg : Text → Logo → Option Text

pub record CheckoutInfo : Type 0 where
  pub invoice_id : String
  pub token : Text
  pub base : Text
  pub pay_url : Text
  pub recipient_pubkey : Text
  pub npub : Text
  pub nprofile : Text
  pub qr_svg : Text
  pub pay_link : Text
  pub slatepack_manual : Bool
  pub slatepack_address : Option Text
  pub slatepack_qr_svg : Option Text
  pub invoice_slatepack : Option Text
  pub invoice_slatepack_qr_svg : Option Text
  pub amount_display : Text
  pub status : InvoiceStatus
  pub memo_text : Option String
  pub order_ref : Option String

-- `Config::qr_logo`
abbrev pub logo_of : Option Text → Logo
logo_of none = no_logo
logo_of (some v) = if text_eq v qr_logo_builtin then builtin else href v

abbrev pub pay_logo : Logo → Logo
pay_logo no_logo = builtin
pay_logo builtin = builtin
pay_logo (href url) = href url

abbrev pub text_or_blank : Option String → Text
text_or_blank none = []
text_or_blank (some s) = codes s

abbrev pub blank_pair : Text × Text
blank_pair = ([], [])

abbrev pub uri_of : Text → Invoice → Text
uri_of nprofile inv = if is_blank nprofile then nprofile else pay_uri nprofile inv

abbrev pub in_grin : ℤ → Text
in_grin nano = nanogrin_to_grin (as_u64 nano)

unfoldable pub amount_text : Option ℤ → Option String → Option String → Text
amount_text (some nano) (some amount) (some currency) =
    codes amount ++ codes " " ++ codes currency ++ codes " (~" ++ in_grin nano ++ codes " GRIN)"
amount_text (some nano) none currency = in_grin nano ++ codes " GRIN"
amount_text (some nano) (some amount) none = in_grin nano ++ codes " GRIN"
amount_text none (some amount) (some currency) =
    codes amount ++ codes " " ++ codes currency ++ codes " (Grin quote pending)"
amount_text none none currency = codes "any amount"
amount_text none (some amount) none = codes "any amount"

unfoldable pub amount_display : Invoice → Text
unfolding amount_text
amount_display inv = amount_text inv.expected_amount inv.fiat_amount inv.fiat_currency

abbrev pub is_loaded : Option Text → Bool
is_loaded none = false
is_loaded (some addr) = not (is_blank addr)

-- A value that is shown with its QR code: it is there, not empty, and its gate is open.
abbrev pub shown : Encoders → Logo → Bool → Option Text → Option (Text × Text)
shown e logo gate none = none
shown e logo gate (some v) =
    if gate && not (is_blank v) then some (v, unwrap_or (e.svg v logo) []) else none

abbrev pub value_shown : Option (Text × Text) → Option Text
value_shown none = none
value_shown (some (v, svg)) = some v

abbrev pub svg_shown : Option (Text × Text) → Option Text
svg_shown none = none
svg_shown (some (v, svg)) = some svg

unfoldable pub build_info :
    Encoders → Invoice → Config → Option Text → Option Text → Bool → CheckoutInfo
unfolding pay_uri base_path amount_display resolve
build_info e inv cfg slatepack_addr invoice_slatepack plain_send_allowed =
    let relays = resolve cfg.relay_mode cfg.bundled_relay_url cfg.relays in
    let recipient = text_or_blank inv.recipient_pubkey in
    let names =
      if cfg.checkout_nostr
      then unwrap_or (e.profile recipient relays) blank_pair
      else blank_pair in
    let qr_payload = uri_of names.1 inv in
    let logo = pay_logo (logo_of cfg.qr_logo) in
    let manual = cfg.checkout_slatepack && is_loaded slatepack_addr in
    let address = shown e logo (manual && plain_send_allowed) slatepack_addr in
    let pack = shown e logo (cfg.grin1_rail && cfg.checkout_slatepack) invoice_slatepack in
    let token = text_or_blank inv.token in
    record {
      invoice_id = inv.id;
      token = token;
      base = base_path cfg.public_url;
      pay_url = cfg.public_url ++ codes "/pay/" ++ token;
      recipient_pubkey = recipient;
      npub = names.0;
      nprofile = names.1;
      qr_svg = unwrap_or (e.svg qr_payload logo) [];
      pay_link = qr_payload;
      slatepack_manual = manual;
      slatepack_address = value_shown address;
      slatepack_qr_svg = svg_shown address;
      invoice_slatepack = value_shown pack;
      invoice_slatepack_qr_svg = svg_shown pack;
      amount_display = amount_display inv;
      status = inv.status;
      memo_text = inv.memo_text;
      order_ref = inv.order_ref;
    }
