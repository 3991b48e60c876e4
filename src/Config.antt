-- ===== src/Config.antt =====
-- The configuration of an instance (crates/gp-core/src/config.rs): its fields, what can be wrong with
-- them, and how single values are read. Texts are ASCII, without carriage returns.
pub mod Load
pub mod Valid
pub mod Guarantees
use goblin_pay.Prelude.{
  ℕ, zero, suc, ◌+◌, ◌-◌, ◌*◌, ◌^◌, Bool, true, false, not, ◌&&◌, ◌||◌, Option, none, some, List,
  [], ◌∷◌, ◌++◌, if◌then◌else◌, ltb, leb, ◌==◌, unwrap_or, codes, trim, Text, text_eq, is_blank,
  lowercase, trim_end_matches, split, select, map,
}
use goblin_pay.Prelude.Int.{ℤ, pos, negsuc}
use goblin_pay.Store.{MatchMode, memo, derived, amount}

pub data Tls : Type 0 where
  off : Tls
  rustls : Text → Text → Tls

pub data Chain : Type 0 where
  mainnet testnet : Chain

pub data RelayMode : Type 0 where
  bundled external : RelayMode

pub data RateSource : Type 0 where
  coin_gecko : RateSource

pub record Config : Type 0 where
  pub bind : Text
  pub tls : Tls
  pub db_path : Text
  pub data_dir : Text
  pub node_url : Text
  pub chain : Chain
  pub relay_mode : RelayMode
  pub relays : List Text
  pub bundled_relay_url : Text
  pub ingest : Bool
  pub checkout_nostr : Bool
  pub checkout_slatepack : Bool
  pub match_mode : MatchMode
  pub mnemonic : Option Text
  pub wallet_password : Option Text
  pub nsec : Option Text
  pub ncryptsec : Option Text
  pub public_url : Text
  pub api_token : Option Text
  pub admin_token : Option Text
  pub webhook_url : Option Text
  pub webhook_secret : Option Text
  pub qr_logo : Option Text
  pub merchant_npub : Option Text
  pub notify_merchant_dm : Bool
  pub notify_payer_receipt : Bool
  pub endpub_rotate_interval : ℤ
  pub endpub_overlap_epochs : ℤ
  pub rate_source : RateSource
  pub rate_currencies : List Text
  pub rate_cache_ttl : ℤ
  pub quote_ttl : ℤ
  pub rate_stale_max : ℤ
  pub confirmations_required : ℤ
  pub grin1_rail : Bool
  pub grin1_foreign_port : ℕ
  pub inline_secret_vars : List Text

-- Why a configuration is refused: a value that is none of a variable's words, a variable that
-- another one needs, two that exclude each other, a file that cannot be used, and the failures of
-- `validate`.
pub data ConfigError : Type 0 where
  bad_value required both_set unreadable empty_file not_an_integer : Text → ConfigError
  no_currency : ConfigError
  empty_bind empty_db_path empty_data_dir bad_node_url no_relays no_bundled_relay : ConfigError
  two_identities unsigned_webhook negative_overlap negative_rotation : ConfigError
  bad_quote_ttl negative_cache_ttl negative_stale_max bad_confirmations : ConfigError

pub data Loaded {ℓ} (A : Type ℓ) : Type ℓ where
  loaded : A → Loaded A
  refused : ConfigError → Loaded A

infixl 5 ◌>>=◌
abbrev pub ◌>>=◌ {ℓ κ} : {A : Type ℓ} {B : Type κ} → Loaded A → (A → Loaded B) → Loaded B
loaded a >>= f = f a
refused e >>= f = refused e

-- The process environment, or a map; and the readable files by their paths.
abbrev pub Lookup : Type 0
Lookup = Text → Option Text

abbrev pub default_bind : Text
default_bind = codes "127.0.0.1:8080"

abbrev pub default_db_path : Text
default_db_path = codes "./goblinpay.db"

abbrev pub default_data_dir : Text
default_data_dir = codes "./gp-data"

abbrev pub default_node_url : Text
default_node_url = codes "https://main.gri.mw"

abbrev pub default_bundled_relay : Text
default_bundled_relay = codes "ws://127.0.0.1:7777"

abbrev pub default_rate_currency : Text
default_rate_currency = codes "usd"

abbrev pub default_rate_cache_ttl : ℤ
default_rate_cache_ttl = pos 60

abbrev pub default_quote_ttl : ℤ
default_quote_ttl = pos 900

abbrev pub default_confirmations : ℤ
default_confirmations = pos 10

abbrev pub default_grin1_foreign_port : ℕ
default_grin1_foreign_port = 3416

abbrev pub qr_logo_builtin : Text
qr_logo_builtin = codes "builtin"

abbrev pub deprecated_inline_secrets : List Text
deprecated_inline_secrets = codes "GP_MNEMONIC" ∷ codes "GP_WALLET_PASSWORD" ∷ codes "GP_NSEC" ∷ []

-- The decimal digits of a text, all of it and at least one.
abbrev pub is_digit : ℕ → Bool
is_digit c = leb b'0' c && leb c b'9'

unfoldable pub digits_from : ℕ → Text → Option ℕ
digits_from acc [] = some acc
digits_from acc (c ∷ cs) =
    let rest = digits_from (acc * 10 + (c - b'0')) cs in if is_digit c then rest else none

unfoldable pub digits : Text → Option ℕ
unfolding digits_from
digits [] = none
digits (c ∷ cs) = digits_from 0 (c ∷ cs)

abbrev pub in_range : ℕ → Option ℕ → Option ℕ
in_range top none = none
in_range top (some n) = if ltb n top then some n else none

abbrev pub negative : Option ℕ → Option ℤ
negative none = none
negative (some zero) = some (pos 0)
negative (some (suc n)) = some (negsuc n)

abbrev pub positive : Option ℕ → Option ℤ
positive none = none
positive (some n) = some (pos n)

-- `str::parse::<i64>` and `str::parse::<u16>`
unfoldable pub i64_of : Text → Option ℤ
unfolding digits
i64_of [] = none
i64_of (c ∷ cs) =
    if c == b'-'
    then negative (in_range (2 ^ 63 + 1) (digits cs))
    else if c == b'+'
    then positive (in_range (2 ^ 63) (digits cs))
    else positive (in_range (2 ^ 63) (digits (c ∷ cs)))

unfoldable pub u16_of : Text → Option ℕ
unfolding digits
u16_of [] = none
u16_of (c ∷ cs) =
    if c == b'+' then in_range (2 ^ 16) (digits cs) else in_range (2 ^ 16) (digits (c ∷ cs))

-- `parse_bool`
abbrev pub on_or_off : Text → Bool → Option Text → Loaded Bool
on_or_off key default none = loaded default
on_or_off key default (some v) =
    if text_eq v (codes "on")
    then loaded true
    else if text_eq v (codes "off")
    then loaded false
    else refused (bad_value key)

unfoldable pub parse_bool : Lookup → Text → Bool → Loaded Bool
parse_bool get key default = on_or_off key default (get key)

abbrev pub integer_or : Text → Option ℤ → Loaded ℤ
integer_or key none = refused (not_an_integer key)
integer_or key (some z) = loaded z

abbrev pub i64_or : Text → ℤ → Option Text → Loaded ℤ
i64_or key default none = loaded default
i64_or key default (some v) = integer_or key (i64_of (trim v))

unfoldable pub parse_i64 : Lookup → Text → ℤ → Loaded ℤ
unfolding i64_of
parse_i64 get key default = i64_or key default (get key)

abbrev pub is_line_end : ℕ → Bool
is_line_end c = c == b'\n' || c == b'\r'

abbrev pub usable : Text → Text → Loaded (Option Text)
usable key value = if is_blank value then refused (empty_file key) else loaded (some value)

abbrev pub file_secret : Text → Option Text → Loaded (Option Text)
file_secret key none = refused (unreadable key)
file_secret key (some text) = usable key (trim_end_matches is_line_end text)

abbrev pub file_key : Text → Text
file_key key = key ++ codes "_FILE"

abbrev pub secret_from : Lookup → Text → Option Text → Option Text → Loaded (Option Text)
secret_from read_file key (some value) (some path) = refused (both_set key)
secret_from read_file key (some value) none = loaded (some value)
secret_from read_file key none (some path) = file_secret (file_key key) (read_file path)
secret_from read_file key none none = loaded none

unfoldable pub secret : Lookup → Lookup → Text → Loaded (Option Text)
secret read_file get key = secret_from read_file key (get key) (get (file_key key))

-- The flags that the words of a list set: nostr, slatepack.
abbrev pub set_method : Text → Bool × Bool → Bool × Bool
set_method word (nostr, slatepack) =
    if text_eq word (codes "nostr")
    then (true, slatepack)
    else if text_eq word (codes "slatepack")
    then (nostr, true)
    else (nostr, slatepack)

unfoldable pub set_methods : List Text → Bool × Bool → Bool × Bool
set_methods [] flags = flags
set_methods (word ∷ words) flags = set_methods words (set_method (lowercase (trim word)) flags)

abbrev pub both_if_none : Bool × Bool → Bool × Bool
both_if_none (nostr, slatepack) =
    if not nostr && not slatepack then (true, true) else (nostr, slatepack)

unfoldable pub parse_checkout_methods : Option Text → Bool × Bool
unfolding set_methods
parse_checkout_methods none = (true, true)
parse_checkout_methods (some raw) = both_if_none (set_methods (split b',' raw) (false, false))

-- The parts of a comma list, trimmed, without the empty ones.
abbrev pub comma_list : Text → List Text
comma_list raw = select (λ s. not (is_blank s)) (map trim (split b',' raw))
