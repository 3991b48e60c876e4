-- ===== src/Connector/Endpoint.antt =====
-- POST /invoice and GET /invoice/{id} (crates/gp-server/src/invoices.rs).
use goblin_pay.Prelude.{ℕ, String, Bool, false, not, Option, none, some, if◌then◌else◌, Text}
use goblin_pay.Prelude.Int.{ℤ, pos}
use goblin_pay.Store.{MatchMode, Invoice, Result, ok, err, Action, ◌>>=◌, pure, attempt}
use goblin_pay.Config.{Config}
use goblin_pay.Invoice.{AmountSpec, get, confirmations}
use goblin_pay.Invoice.Create.{create}
use goblin_pay.Rates.{Floats, HttpAnswer, Oracle}
use goblin_pay.Checkout.{Encoders, build_info}
use goblin_pay.Checkout.Page.{value_or}
use goblin_pay.Connector.{
  authorized, CreateInvoiceBody, Answer, checkout, bad_request, unauthorized, missing, internal,
  no_identity, parse_mode, amount_of, mode_of, new_invoice, Priced, priced, unpriced, price_if_fiat,
  Issuer, arm_grin1_rail,
}

-- The server's identity: the public key of an invoice's child, and the master key in hex.
pub record Identity : Type 0 where
  pub child_pubkey : String → String
  pub master_hex : String

-- What a request meets: the clock of the oracle, the price source, and a fresh id and token.
pub record Surroundings : Type 0 where
  pub now : ℕ
  pub http : Text → Option HttpAnswer
  pub fresh_id : String
  pub fresh_token : String

module _ {F W : Type 0} (num : Floats F) (to_string : Text → String) (e : Encoders)
    (issuer : Issuer W) (cfg : Config) (x : Surroundings) (loaded : Bool) where
  abbrev pub Reply : Type 0
  Reply = Answer × (Oracle F × W)

  abbrev pub stop : Answer → Oracle F → W → Action (Answer × (Oracle F × W))
  stop a o w = pure (a, (o, w))

  abbrev pub shown_invoice : Invoice → ℤ → Answer
  shown_invoice inv depth =
      checkout (build_info e inv cfg none none false) depth cfg.confirmations_required

  unfoldable pub armed : Oracle F → W → Result Invoice → Action (Answer × (Oracle F × W))
  unfolding arm_grin1_rail build_info
  armed o w (err x) = stop internal o w
  armed o w (ok inv) =
      arm_grin1_rail issuer cfg loaded inv w >>= λ r. stop (shown_invoice r.0 (pos 0)) o r.1

  unfoldable pub created : Identity → Priced × Oracle F → W → Action (Answer × (Oracle F × W))
  unfolding armed
  created identity (unpriced a, o) w = stop a o w
  created identity (priced p, o) w =
      attempt
        (create identity.child_pubkey identity.master_hex cfg.match_mode x.fresh_id x.fresh_token p)
      >>= armed o w

  unfoldable pub requested :
      Identity
      → CreateInvoiceBody
      → Option AmountSpec
      → Option (Option MatchMode)
      → Oracle F
      → W
      → Action (Answer × (Oracle F × W))
  unfolding created price_if_fiat
  requested identity body none mode o w = stop bad_request o w
  requested identity body (some spec) none o w = stop bad_request o w
  requested identity body (some spec) (some mode) o w =
      created identity (price_if_fiat num to_string o x.http x.now (new_invoice body spec mode)) w

  abbrev pub with_identity :
      Option Identity → CreateInvoiceBody → Oracle F → W → Action (Answer × (Oracle F × W))
  with_identity none body o w = stop no_identity o w
  with_identity (some identity) body o w =
      requested identity body (amount_of body.amount_grin body.amount_fiat body.currency)
        (mode_of body.match_mode) o w

  unfoldable pub create_invoice :
      Option Text
      → Option Identity
      → CreateInvoiceBody
      → Oracle F
      → W
      → Action (Answer × (Oracle F × W))
  unfolding authorized requested parse_mode
  create_invoice header identity body o w =
      if not (authorized header cfg.api_token)
      then stop unauthorized o w
      else with_identity identity body o w

  unfoldable pub found_invoice : Result (Option Invoice) → Action Answer
  unfolding build_info
  found_invoice (err x) = pure internal
  found_invoice (ok none) = pure missing
  found_invoice (ok (some inv)) =
      attempt (confirmations inv.id) >>= λ depth. pure (shown_invoice inv (value_or depth (pos 0)))

  unfoldable pub get_invoice : Option Text → String → Action Answer
  unfolding authorized found_invoice
  get_invoice header id =
      if not (authorized header cfg.api_token)
      then pure unauthorized
      else (attempt (get id) >>= found_invoice)
