-- ===== src/Config/Load.antt =====
-- `Config::from_lookup`: every variable in the order in which the code reads them, so that the first
-- one that is wrong decides the error.
use goblin_pay.Prelude.{
  ℕ, Bool, true, false, not, Option, none, some, is_some, List, [], ◌∷◌, ◌++◌, if◌then◌else◌, ◌==◌,
  unwrap_or, codes, trim, Text, text_eq, is_blank, lowercase, trim_end_matches, split, select, map,
}
use goblin_pay.Prelude.Int.{pos}
use goblin_pay.Store.{MatchMode, memo, derived, amount}
use goblin_pay.Config.{
  Tls, off, rustls, Chain, mainnet, testnet, RelayMode, bundled, external, RateSource, coin_gecko,
  Config, bad_value, required, no_currency, Loaded, loaded, refused, ◌>>=◌, Lookup, default_bind,
  default_db_path, default_data_dir, default_node_url, default_bundled_relay, default_rate_currency,
  default_rate_cache_ttl, default_quote_ttl, default_confirmations, default_grin1_foreign_port,
  qr_logo_builtin, deprecated_inline_secrets, u16_of, parse_bool, parse_i64, secret,
  parse_checkout_methods, comma_list,
}
use goblin_pay.Config.Valid.{validate}

abbrev pub or_required : Text → Option Text → Loaded Text
or_required key none = refused (required key)
or_required key (some v) = loaded v

unfoldable pub tls_of : Lookup → Text → Loaded Tls
tls_of get v =
    if text_eq v (codes "off")
    then loaded off
    else if text_eq v (codes "rustls")
    then (or_required (codes "GP_TLS_CERT") (get (codes "GP_TLS_CERT")) >>= λ cert.
        or_required (codes "GP_TLS_KEY") (get (codes "GP_TLS_KEY")) >>= λ key.
        loaded (rustls cert key))
    else refused (bad_value (codes "GP_TLS"))

unfoldable pub chain_of : Text → Loaded Chain
chain_of v =
    if text_eq v (codes "mainnet")
    then loaded mainnet
    else if text_eq v (codes "testnet")
    then loaded testnet
    else refused (bad_value (codes "GP_CHAIN"))

unfoldable pub relay_mode_of : Text → Loaded RelayMode
relay_mode_of v =
    if text_eq v (codes "bundled")
    then loaded bundled
    else if text_eq v (codes "external")
    then loaded external
    else refused (bad_value (codes "GP_RELAY_MODE"))

unfoldable pub ingest_of : Text → Loaded Bool
ingest_of v =
    if text_eq v (codes "on")
    then loaded true
    else if text_eq v (codes "off")
    then loaded false
    else refused (bad_value (codes "GP_INGEST"))

unfoldable pub match_mode_of : Text → Loaded MatchMode
match_mode_of v =
    if text_eq v (codes "memo")
    then loaded memo
    else if text_eq v (codes "derived")
    then loaded derived
    else if text_eq v (codes "amount")
    then loaded amount
    else refused (bad_value (codes "GP_MATCH_MODE"))

unfoldable pub rate_source_of : Text → Loaded RateSource
rate_source_of v =
    if text_eq v (codes "coingecko")
    then loaded coin_gecko
    else refused (bad_value (codes "GP_RATE_SOURCE"))

-- `.filter(|s| !s.is_empty()).unwrap_or(default)`
abbrev pub or_if_blank : Text → Text → Text
or_if_blank s default = if is_blank s then default else s

abbrev pub trimmed_or : Option Text → Text → Text
trimmed_or none default = default
trimmed_or (some s) default = or_if_blank (trim s) default

abbrev pub is_slash : ℕ → Bool
is_slash c = c == b'/'

abbrev pub url_or : Option Text → Text → Text
url_or none default = default
url_or (some u) default = or_if_blank (trim_end_matches is_slash u) default

-- `.filter(|s| !s.trim().is_empty())`
abbrev pub unless_blank : Option Text → Option Text
unless_blank none = none
unless_blank (some s) = if is_blank (trim s) then none else some s

unfoldable pub qr_logo_of : Option Text → Option Text
qr_logo_of none = none
qr_logo_of (some v) =
    if text_eq v (codes "off")
    then none
    else if text_eq v (codes "none")
    then none
    else if is_blank v
    then none
    else if text_eq v (codes "builtin")
    then some qr_logo_builtin
    else if text_eq v (codes "goblin")
    then some qr_logo_builtin
    else some v

abbrev pub at_least_one : List Text → Loaded (List Text)
at_least_one [] = refused no_currency
at_least_one (x ∷ xs) = loaded (x ∷ xs)

-- Trimmed and lowercased parts, without the empty ones; `usd` if the variable is unset.
unfoldable pub currencies_of : Option Text → Loaded (List Text)
currencies_of none = loaded (default_rate_currency ∷ [])
currencies_of (some raw) =
    at_least_one (select (λ s. not (is_blank s)) (map (λ s. lowercase (trim s)) (split b',' raw)))

abbrev pub port_or_bad : Option ℕ → Loaded ℕ
port_or_bad none = refused (bad_value (codes "GP_GRIN1_FOREIGN_PORT"))
port_or_bad (some n) = loaded n

unfoldable pub port_of : Option Text → Loaded ℕ
unfolding u16_of
port_of none = loaded default_grin1_foreign_port
port_of (some v) = port_or_bad (u16_of (trim v))

abbrev pub inline_vars : Lookup → List Text
inline_vars get = select (λ k. is_some (get k)) deprecated_inline_secrets

unfoldable pub read_config : Lookup → Lookup → Loaded Config
unfolding tls_of chain_of relay_mode_of ingest_of match_mode_of secret parse_bool parse_i64
    rate_source_of currencies_of qr_logo_of port_of parse_checkout_methods
read_config files get = do
  let bind = unwrap_or (get (codes "GP_BIND")) default_bind
  tls ← tls_of get (unwrap_or (get (codes "GP_TLS")) (codes "off"))
  chain ← chain_of (unwrap_or (get (codes "GP_CHAIN")) (codes "mainnet"))
  relay_mode ← relay_mode_of (unwrap_or (get (codes "GP_RELAY_MODE")) (codes "bundled"))
  ingest ← ingest_of (unwrap_or (get (codes "GP_INGEST")) (codes "on"))
  let methods = parse_checkout_methods (get (codes "GP_CHECKOUT_METHODS"))
  match_mode ← match_mode_of (unwrap_or (get (codes "GP_MATCH_MODE")) (codes "memo"))
  mnemonic ← secret files get (codes "GP_MNEMONIC")
  wallet_password ← secret files get (codes "GP_WALLET_PASSWORD")
  nsec ← secret files get (codes "GP_NSEC")
  ncryptsec ← secret files get (codes "GP_NCRYPTSEC")
  api_token ← secret files get (codes "GP_API_TOKEN")
  admin_token ← secret files get (codes "GP_ADMIN_TOKEN")
  webhook_secret ← secret files get (codes "GP_WEBHOOK_SECRET")
  notify_merchant_dm ← parse_bool get (codes "GP_NOTIFY_MERCHANT_DM") false
  notify_payer_receipt ← parse_bool get (codes "GP_NOTIFY_PAYER_RECEIPT") false
  endpub_rotate_interval ← parse_i64 get (codes "GP_ENDPUB_ROTATE_INTERVAL") (pos 0)
  endpub_overlap_epochs ← parse_i64 get (codes "GP_ENDPUB_OVERLAP_EPOCHS") (pos 1)
  rate_source ← rate_source_of (unwrap_or (get (codes "GP_RATE_SOURCE")) (codes "coingecko"))
  rate_currencies ← currencies_of (get (codes "GP_RATE_CURRENCIES"))
  rate_cache_ttl ← parse_i64 get (codes "GP_RATE_CACHE_TTL") default_rate_cache_ttl
  quote_ttl ← parse_i64 get (codes "GP_QUOTE_TTL") default_quote_ttl
  rate_stale_max ← parse_i64 get (codes "GP_RATE_STALE_MAX") (pos 0)
  confirmations_required ← parse_i64 get (codes "GP_CONFIRMATIONS") default_confirmations
  grin1_rail ← parse_bool get (codes "GP_GRIN1_RAIL") false
  grin1_foreign_port ← port_of (get (codes "GP_GRIN1_FOREIGN_PORT"))
  loaded (record {
    bind = bind;
    tls = tls;
    db_path = unwrap_or (get (codes "GP_DB_PATH")) default_db_path;
    data_dir = unwrap_or (get (codes "GP_DATA_DIR")) default_data_dir;
    node_url = unwrap_or (get (codes "GP_NODE_URL")) default_node_url;
    chain = chain;
    relay_mode = relay_mode;
    relays = comma_list (unwrap_or (get (codes "GP_RELAYS")) []);
    bundled_relay_url = trimmed_or (get (codes "GP_BUNDLED_RELAY_URL")) default_bundled_relay;
    ingest = ingest;
    checkout_nostr = methods.0;
    checkout_slatepack = methods.1;
    match_mode = match_mode;
    mnemonic = mnemonic;
    wallet_password = wallet_password;
    nsec = nsec;
    ncryptsec = ncryptsec;
    public_url = url_or (get (codes "GP_PUBLIC_URL")) (codes "http://" ++ bind);
    api_token = api_token;
    admin_token = admin_token;
    webhook_url = unless_blank (get (codes "GP_WEBHOOK_URL"));
    webhook_secret = webhook_secret;
    qr_logo = qr_logo_of (get (codes "GP_QR_LOGO"));
    merchant_npub = unless_blank (get (codes "GP_MERCHANT_NPUB"));
    notify_merchant_dm = notify_merchant_dm;
    notify_payer_receipt = notify_payer_receipt;
    endpub_rotate_interval = endpub_rotate_interval;
    endpub_overlap_epochs = endpub_overlap_epochs;
    rate_source = rate_source;
    rate_currencies = rate_currencies;
    rate_cache_ttl = rate_cache_ttl;
    quote_ttl = quote_ttl;
    rate_stale_max = rate_stale_max;
    confirmations_required = confirmations_required;
    grin1_rail = grin1_rail;
    grin1_foreign_port = grin1_foreign_port;
    inline_secret_vars = inline_vars get;
  })

unfoldable pub from_lookup : Lookup → Lookup → Loaded Config
unfolding read_config validate
from_lookup files get = do c ← read_config files get; _ ← validate c; loaded c
