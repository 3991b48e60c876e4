-- ===== src/Checkout/Paste.antt =====
-- The paste form of the pay page (crates/gp-server/src/checkout.rs, route_paste and manual_slatepack).
-- A message is its kind, with the figures that it names. The wallet is an interface over its state.
use goblin_pay.Prelude.{
  ℕ, String, Bool, true, false, not, ◌&&◌, Option, none, some, if◌then◌else◌, unwrap_or, column_eq,
  trim, Text,
}
use goblin_pay.Store.{open_status, Invoice, Result, ok, err, Action, ◌>>=◌, pure, attempt}
use goblin_pay.Config.{Config}
use goblin_pay.Setup.{base_path}
use goblin_pay.Invoice.{eq_status, is_grin1, get_by_token}
use goblin_pay.Record.{Received, Context, PersistOutcome, matched, rejected, persist_and_match}
use goblin_pay.Foreign.{FinalizedInvoice, Notice, settle_finalized}
use goblin_pay.Wallet.{SlateState, standard1, invoice2, WalletError, Fallible, fine, failed, Call}

-- What the form asks of the wallet; the finalizing task may panic.
pub record PasteWallet (W : Type 0) : Type 0 where
  pub slatepack_kind : W → Text → Fallible (String × SlateState)
  pub receive_slatepack : Text → Call W Received
  pub finalize_invoice_slatepack : Text → Call W FinalizedInvoice
  pub panics : W → Bool

pub data Message : Type 0 where
  not_loaded not_open other_invoice received_not_complete finalized_and_posted task_panicked :
      Message
  unexpected_state : SlateState → Message
  unreadable not_received not_finalized : WalletError → Message
  must_be_in_full : ℕ → ℕ → Message

pub data PasteRoute : Type 0 where
  receive_s1 finalize_i2 : PasteRoute
  reject : Message → PasteRoute

abbrev pub i2_route : String → Invoice → PasteRoute
i2_route slate_id inv =
    if not (eq_status inv.status open_status)
    then reject not_open
    else if is_grin1 inv && column_eq inv.slate_id slate_id
    then finalize_i2
    else reject other_invoice

unfoldable pub route_paste : SlateState → String → Invoice → PasteRoute
route_paste standard1 slate_id inv = receive_s1
route_paste invoice2 slate_id inv = i2_route slate_id inv
route_paste other slate_id inv = reject (unexpected_state other)

abbrev pub route_of : Fallible (String × SlateState) → Invoice → PasteRoute
route_of (fine (slate_id, state)) inv = route_paste state slate_id inv
route_of (failed e) inv = reject (unreadable e)

pub record PayResultPage : Type 0 where
  pub base : Text
  pub token : String
  pub okay : Bool
  pub message : Message
  pub s2_armor : String

pub data Response (A : Type 0) : Type 0 where
  shown : A → Response A
  not_found internal_error : Response A

-- What the wallet did with the paste.
pub data Done : Type 0 where
  turned_away : Message → Done
  took_payment : Received → Done
  finished_invoice : FinalizedInvoice → Done

abbrev pub took : {W : Type 0} → Fallible Received × W → Done × W
took (fine r, w) = (took_payment r, w)
took (failed e, w) = (turned_away (not_received e), w)

abbrev pub finished : {W : Type 0} → Fallible FinalizedInvoice × W → Done × W
finished (fine f, w) = (finished_invoice f, w)
finished (failed e, w) = (turned_away (not_finalized e), w)

-- The outcome, as (ok, message, S2 to copy).
abbrev pub Outcome : Type 0
Outcome = Bool × Message × String

abbrev pub after_persist : Received → PersistOutcome → Outcome
after_persist r (matched m) = (true, received_not_complete, r.s2_armor)
after_persist r (rejected bad) = (false, must_be_in_full bad.expected bad.received_nano, "")

-- The parts of the context of `persist_and_match` that a request brings: the webhook, a fresh event id
-- and the JSON serializer.
abbrev pub paste_context : Config → Notice → Invoice → Context
paste_context cfg n inv = record {
  payer_hex = none;
  recipient_hex = unwrap_or inv.recipient_pubkey "";
  memo_text = inv.order_ref;
  default_mode = cfg.match_mode;
  webhook = n.webhook;
  event_id = n.event_id;
  to_body = n.to_body;
}

unfoldable pub settle_paste : Config → Notice → Invoice → Done → Action Outcome
settle_paste cfg n inv (turned_away m) = pure (false, m, "")
settle_paste cfg n inv (took_payment r) =
    persist_and_match (paste_context cfg n inv) r >>= λ o. pure (after_persist r o)
settle_paste cfg n inv (finished_invoice f) =
    settle_finalized n f >>= λ _. pure (true, finalized_and_posted, "")

abbrev pub result_page : Config → String → Outcome → Response PayResultPage
result_page cfg token (okay, message, s2) = shown (record {
  base = base_path cfg.public_url;
  token = token;
  okay = okay;
  message = message;
  s2_armor = s2;
})

module _ {W : Type 0} (wallet : PasteWallet W) where
  unfoldable pub act : Text → PasteRoute → W → Done × W
  act armor (reject m) w = (turned_away m, w)
  act armor receive_s1 w = took (wallet.receive_slatepack armor w)
  act armor finalize_i2 w =
      let done = finished (wallet.finalize_invoice_slatepack armor w) in
      if wallet.panics w then (turned_away task_panicked, done.1) else done

  unfoldable pub paste_in_wallet : Invoice → Text → W → Done × W
  unfolding act route_paste
  paste_in_wallet inv armor w = act armor (route_of (wallet.slatepack_kind w armor) inv) w

  unfoldable pub paste_for :
      Config
      → Notice
      → String
      → Text
      → Bool
      → W
      → Result (Option Invoice)
      → Action (Response PayResultPage × W)
  unfolding settle_paste paste_in_wallet
  paste_for cfg n token form loaded w (err e) = pure (internal_error, w)
  paste_for cfg n token form loaded w (ok none) = pure (not_found, w)
  paste_for cfg n token form false w (ok (some inv)) =
      pure (result_page cfg token (false, not_loaded, ""), w)
  paste_for cfg n token form true w (ok (some inv)) =
      let done = paste_in_wallet inv (trim form) w in
      settle_paste cfg n inv done.0 >>= λ o. pure (result_page cfg token o, done.1)

  -- POST /pay/{token}/slatepack, with the wallet loaded or not.
  unfoldable pub manual_slatepack :
      Config → Notice → String → Text → Bool → W → Action (Response PayResultPage × W)
  unfolding paste_for
  manual_slatepack cfg n token form loaded w =
      attempt (get_by_token token) >>= paste_for cfg n token form loaded w
