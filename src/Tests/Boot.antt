-- ===== src/Tests/Boot.antt =====
-- The wizard's file and the configuration at concrete values.
use goblin_pay.Prelude.{
  ◌≡◌, refl, true, false, none, some, [], ◌∷◌, if◌then◌else◌, codes, Text, text_eq, arith,
}
use goblin_pay.Prelude.Int.{pos}
use goblin_pay.Store.{memo}
use goblin_pay.Config.{
  Config, off, mainnet, bundled, coin_gecko, loaded, refused, unreadable, Lookup, default_bind,
  default_db_path, default_data_dir, default_node_url, default_bundled_relay, default_rate_currency,
  default_rate_cache_ttl, default_quote_ttl, default_confirmations, default_grin1_foreign_port,
  parse_bool, parse_i64, secret, parse_checkout_methods,
}
use goblin_pay.Config.Valid.{first_failure, validate}
use goblin_pay.Config.Load.{
  tls_of, chain_of, relay_mode_of, ingest_of, match_mode_of, rate_source_of, qr_logo_of,
  currencies_of, port_of, read_config, from_lookup,
}
use goblin_pay.Config.Guarantees.{IsValid, from_lookup-IsValid}
use goblin_pay.Setup.{unattended}
use goblin_pay.Setup.Env.{SetupParams, parse_env_file, render_env}
use goblin_pay.Setup.Parts.{IsClean}
use goblin_pay.Setup.File.{AreClean, settings, parse_env_file-render_env}
use goblin_pay.Setup.Boot.{
  AreChosen, chosen_config, secret_file, config_from_written_env,
  config_from_written_env-render_env, config_from_written_env_sealed,
}

abbrev pub default_config : Config
default_config = record {
  bind = default_bind;
  tls = off;
  db_path = default_db_path;
  data_dir = default_data_dir;
  node_url = default_node_url;
  chain = mainnet;
  relay_mode = bundled;
  relays = [];
  bundled_relay_url = default_bundled_relay;
  ingest = true;
  checkout_nostr = true;
  checkout_slatepack = true;
  match_mode = memo;
  mnemonic = none;
  wallet_password = none;
  nsec = none;
  ncryptsec = none;
  public_url = codes "http://127.0.0.1:8080";
  api_token = none;
  admin_token = none;
  webhook_url = none;
  webhook_secret = none;
  qr_logo = none;
  merchant_npub = none;
  notify_merchant_dm = false;
  notify_payer_receipt = false;
  endpub_rotate_interval = pos 0;
  endpub_overlap_epochs = pos 1;
  rate_source = coin_gecko;
  rate_currencies = default_rate_currency ∷ [];
  rate_cache_ttl = default_rate_cache_ttl;
  quote_ttl = default_quote_ttl;
  rate_stale_max = pos 0;
  confirmations_required = default_confirmations;
  grin1_rail = false;
  grin1_foreign_port = default_grin1_foreign_port;
  inline_secret_vars = [];
}

abbrev nothing : Lookup
nothing key = none

loads_defaults : from_lookup nothing nothing ≡ loaded default_config
unfolding from_lookup read_config validate first_failure tls_of chain_of relay_mode_of ingest_of
    match_mode_of rate_source_of qr_logo_of currencies_of port_of parse_bool parse_i64 secret
    parse_checkout_methods
loads_defaults = refl

from_lookup-IsValid_example : IsValid default_config
from_lookup-IsValid_example = from_lookup-IsValid nothing nothing default_config loads_defaults

abbrev sample_params : SetupParams
sample_params = record {
  bind = codes "127.0.0.1:8080";
  public_url = codes "https://shop.example/pay";
  webhook_url = codes "https://shop.example/wp-json/goblinpay/v1/webhook";
  node_url = codes "https://main.gri.mw";
  relays = codes "wss://relay.floonet.dev" ∷ codes "wss://offchain.pub" ∷ [];
  currencies = codes "usd" ∷ codes "eur" ∷ [];
  grin1_rail = true;
  api_token = codes "api";
  admin_token = codes "admin";
  webhook_secret = codes "hook";
  data_dir = codes "/var/lib/goblinpay";
  db_path = codes "/var/lib/goblinpay/db";
  wallet_password_file = codes "/run/pw";
  restart_mode = unattended;
  unattended_encrypted = true;
}

bind-IsClean : IsClean (codes "127.0.0.1:8080")
bind-IsClean = record { starts = refl; ends = refl; one_line = ground arith }

public_url-IsClean : IsClean (codes "https://shop.example/pay")
public_url-IsClean = record { starts = refl; ends = refl; one_line = ground arith }

webhook_url-IsClean : IsClean (codes "https://shop.example/wp-json/goblinpay/v1/webhook")
webhook_url-IsClean = record { starts = refl; ends = refl; one_line = ground arith }

node_url-IsClean : IsClean (codes "https://main.gri.mw")
node_url-IsClean = record { starts = refl; ends = refl; one_line = ground arith }

api_token-IsClean : IsClean (codes "api")
api_token-IsClean = record { starts = refl; ends = refl; one_line = ground arith }

admin_token-IsClean : IsClean (codes "admin")
admin_token-IsClean = record { starts = refl; ends = refl; one_line = ground arith }

webhook_secret-IsClean : IsClean (codes "hook")
webhook_secret-IsClean = record { starts = refl; ends = refl; one_line = ground arith }

data_dir-IsClean : IsClean (codes "/var/lib/goblinpay")
data_dir-IsClean = record { starts = refl; ends = refl; one_line = ground arith }

db_path-IsClean : IsClean (codes "/var/lib/goblinpay/db")
db_path-IsClean = record { starts = refl; ends = refl; one_line = ground arith }

wallet_password_file-IsClean : IsClean (codes "/run/pw")
wallet_password_file-IsClean = record { starts = refl; ends = refl; one_line = ground arith }

floonet-IsClean : IsClean (codes "wss://relay.floonet.dev")
floonet-IsClean = record { starts = refl; ends = refl; one_line = ground arith }

offchain-IsClean : IsClean (codes "wss://offchain.pub")
offchain-IsClean = record { starts = refl; ends = refl; one_line = ground arith }

usd-IsClean : IsClean (codes "usd")
usd-IsClean = record { starts = refl; ends = refl; one_line = ground arith }

eur-IsClean : IsClean (codes "eur")
eur-IsClean = record { starts = refl; ends = refl; one_line = ground arith }

sample_clean : AreClean sample_params
sample_clean = record {
  bind = bind-IsClean;
  public_url = public_url-IsClean;
  webhook_url = webhook_url-IsClean;
  node_url = node_url-IsClean;
  relays = (floonet-IsClean, (offchain-IsClean, tt));
  currencies = (usd-IsClean, (eur-IsClean, tt));
  api_token = api_token-IsClean;
  admin_token = admin_token-IsClean;
  webhook_secret = webhook_secret-IsClean;
  data_dir = data_dir-IsClean;
  db_path = db_path-IsClean;
  wallet_password_file = wallet_password_file-IsClean;
}

parse_env_file-render_env_example :
    parse_env_file (render_env sample_params) ≡ settings sample_params
parse_env_file-render_env_example = parse_env_file-render_env sample_params sample_clean

sample_chosen : AreChosen sample_params
sample_chosen = record {
  clean = sample_clean;
  places = (refl, refl, refl);
  node = refl;
  reached = (refl, refl);
  shop = refl;
  some_relay = λ e. cc e;
  relay_parts = ((refl, ground arith), ((refl, ground arith), tt));
  some_currency = λ e. cc e;
  currency_parts = ((refl, ground arith, refl), ((refl, ground arith, refl), tt));
}

abbrev env_path : Text
env_path = codes "/etc/gp.env"

-- The disk after the wizard: the environment file, and the password file beside it or not.
abbrev written : Lookup
written path =
    if text_eq path env_path
    then some (render_env sample_params)
    else if text_eq path (codes "/run/pw")
    then some (secret_file (codes "pw"))
    else none

abbrev sealed : Lookup
sealed path = if text_eq path env_path then some (render_env sample_params) else none

config_from_written_env-render_env_example :
    config_from_written_env written env_path ≡ loaded (chosen_config sample_params (codes "pw"))
config_from_written_env-render_env_example =
    config_from_written_env-render_env written env_path sample_params (codes "pw") sample_chosen
      refl refl refl refl

config_from_written_env_sealed_example :
    config_from_written_env sealed env_path ≡ refused (unreadable (codes "GP_WALLET_PASSWORD_FILE"))
config_from_written_env_sealed_example =
    config_from_written_env_sealed sealed env_path sample_params sample_clean refl refl
