-- ===== src/Foreign/Api.antt =====
-- The Foreign API (crates/gp-server/src/foreign.rs): the JSON-RPC methods. The JSON of a slate is a
-- parameter; an error text is its kind.
use goblin_pay.Prelude.{
  ℕ, Bool, true, false, Option, none, some, if◌then◌else◌, codes, Text, text_eq,
}
use goblin_pay.Store.{amount, Action, ◌>>=◌, pure}
use goblin_pay.Config.{Config}
use goblin_pay.Record.{Received, Context, persist_and_match}
use goblin_pay.Foreign.{FinalizedInvoice, Notice, settle_finalized}
use goblin_pay.Wallet.{VersionedSlate, WalletError, Fallible, fine, failed, Call}

pub data RpcError : Type 0 where
  bad_params wallet_not_loaded receive_panicked finalize_panicked : RpcError
  method_not_found : Text → RpcError
  receive_failed finalize_failed : WalletError → RpcError

-- The code of an error in the envelope, without its sign.
abbrev pub error_code : RpcError → ℕ
error_code bad_params = 32602
error_code wallet_not_loaded = 32603
error_code receive_panicked = 32603
error_code finalize_panicked = 32603
error_code (method_not_found m) = 32601
error_code (receive_failed e) = 32603
error_code (finalize_failed e) = 32603

-- The result of a call: the version info, a slate, or an error.
pub data RpcResult : Type 0 where
  version_info : RpcResult
  slate_result : VersionedSlate → RpcResult
  rpc_error : RpcError → RpcResult

-- What the API asks of the wallet; a task that runs it may panic.
pub record SlateWallet (W : Type 0) : Type 0 where
  pub receive_slate : VersionedSlate → Call W (VersionedSlate × Received)
  pub finalize_slate : VersionedSlate → Call W (VersionedSlate × FinalizedInvoice)
  pub panics : W → Bool

-- The parsed parameters: the slate at position 0, if there is one.
abbrev pub Params : Type 0
Params = Option VersionedSlate

-- The (url, secret) pair when both are configured.
abbrev pub pair_of : Option Text → Option Text → Option (Text × Text)
pair_of (some url) (some secret) = some (url, secret)
pair_of (some url) none = none
pair_of none secret = none

unfoldable pub webhook_pair : Config → Option (Text × Text)
webhook_pair cfg = pair_of cfg.webhook_url cfg.webhook_secret

-- `persist_and_match(…, None, "", None, MatchMode::Amount, …)`
abbrev pub amount_context : Notice → Context
amount_context n = record {
  payer_hex = none;
  recipient_hex = "";
  memo_text = none;
  default_mode = amount;
  webhook = n.webhook;
  event_id = n.event_id;
  to_body = n.to_body;
}

module _ {W : Type 0} (wallet : SlateWallet W) (n : Notice) where
  unfoldable pub record_received :
      Bool → Fallible (VersionedSlate × Received) × W → Action (RpcResult × W)
  record_received true (r, w) = pure (rpc_error receive_panicked, w)
  record_received false (failed e, w) = pure (rpc_error (receive_failed e), w)
  record_received false (fine (out, r), w) =
      persist_and_match (amount_context n) r >>= λ _. pure (slate_result out, w)

  unfoldable pub receive_tx : Params → W → Action (RpcResult × W)
  unfolding record_received
  receive_tx none w = pure (rpc_error bad_params, w)
  receive_tx (some slate) w = record_received (wallet.panics w) (wallet.receive_slate slate w)

  unfoldable pub settle_slate :
      Bool → Fallible (VersionedSlate × FinalizedInvoice) × W → Action (RpcResult × W)
  settle_slate true (r, w) = pure (rpc_error finalize_panicked, w)
  settle_slate false (failed e, w) = pure (rpc_error (finalize_failed e), w)
  settle_slate false (fine (out, f), w) = settle_finalized n f >>= λ _. pure (slate_result out, w)

  unfoldable pub finalize_tx : Params → W → Action (RpcResult × W)
  unfolding settle_slate
  finalize_tx none w = pure (rpc_error bad_params, w)
  finalize_tx (some slate) w = settle_slate (wallet.panics w) (wallet.finalize_slate slate w)

  unfoldable pub dispatch : Text → Params → W → Action (RpcResult × W)
  unfolding receive_tx finalize_tx
  dispatch method params w =
      if text_eq method (codes "receive_tx")
      then receive_tx params w
      else if text_eq method (codes "finalize_tx")
      then finalize_tx params w
      else pure (rpc_error (method_not_found method), w)

  -- The handler, with the wallet loaded or not.
  unfoldable pub handle : Text → Params → Bool → W → Action (RpcResult × W)
  unfolding dispatch
  handle method params loaded w =
      if text_eq method (codes "check_version")
      then pure (version_info, w)
      else if loaded
      then dispatch method params w
      else pure (rpc_error wallet_not_loaded, w)
