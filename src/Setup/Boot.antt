-- ===== src/Setup/Boot.antt =====
-- The first boot after the wizard (crates/gp-server/src/setup.rs): the configuration is loaded from the
-- environment file just written, in which a later line of a variable counts.
use goblin_pay.Prelude.{
  ◌≡◌, ◌≢◌, refl, ap, ◌∙◌, Bool-cases, inl, inr, Bool, true, false, not, ◌&&◌, Option, none, some,
  is_none, List, [], ◌∷◌, ◌++◌, All, if◌then◌else◌, codes, Text, text_eq, is_blank, Without,
  lowercase, trim, trim_end_matches, join, split-join, map, select,
}
use goblin_pay.Prelude.Int.{pos}
use goblin_pay.Store.{derived}
use goblin_pay.Config.{
  Config, off, mainnet, external, coin_gecko, Loaded, loaded, refused, unreadable, ◌>>=◌, Lookup,
  default_bundled_relay, default_rate_cache_ttl, default_quote_ttl, default_confirmations,
  default_grin1_foreign_port, is_line_end, comma_list, parse_bool, parse_i64, secret,
  parse_checkout_methods,
}
use goblin_pay.Config.Valid.{is_http, is_empty, validate}
use goblin_pay.Config.Load.{
  is_slash, url_or, unless_blank, tls_of, chain_of, relay_mode_of, ingest_of, match_mode_of,
  rate_source_of, qr_logo_of, currencies_of, at_least_one, port_of, read_config, from_lookup,
}
use goblin_pay.Setup.Env.{SetupParams, parse_env_file, render_env}
use goblin_pay.Setup.Parts.{IsClean, trim_clean}
use goblin_pay.Setup.File.{AreClean, settings, parse_env_file-render_env}

-- No seed, no way to it in the configuration, and no environment file.
unfoldable pub needs_first_run_setup : Config → Bool → Bool → Bool
needs_first_run_setup cfg seed_exists env_file_exists =
    cfg.ingest
    && is_none cfg.mnemonic
    && is_none cfg.wallet_password
    && not seed_exists
    && not env_file_exists

abbrev pub later_or : Option Text → Option Text → Option Text
later_or (some v) earlier = some v
later_or none earlier = earlier

-- `.collect::<HashMap<…>>()`, looked up
unfoldable pub value_of : List (Text × Text) → Text → Option Text
value_of [] key = none
value_of ((k, v) ∷ rest) key = later_or (value_of rest key) (if text_eq k key then some v else none)

abbrev pub from_contents : Lookup → Text → Option Text → Loaded Config
from_contents files path none = refused (unreadable path)
from_contents files path (some contents) = from_lookup files (value_of (parse_env_file contents))

unfoldable pub config_from_written_env : Lookup → Text → Loaded Config
config_from_written_env files path = from_contents files path (files path)

-- What the wizard makes sure of before it writes the file.
pub record AreChosen (p : SetupParams) : Type 0 where
  pub clean : AreClean p
  pub places :
      (is_blank p.bind ≡ false) × (is_blank p.db_path ≡ false) × (is_blank p.data_dir ≡ false)
  pub node : is_http p.node_url ≡ true
  pub reached :
      (trim_end_matches is_slash p.public_url ≡ p.public_url) × (is_blank p.public_url ≡ false)
  pub shop : is_blank p.webhook_url ≡ false
  pub some_relay : p.relays ≢ []
  pub relay_parts : All (λ r. (is_blank r ≡ false) × Without b',' r) p.relays
  pub some_currency : p.currencies ≢ []
  pub currency_parts :
      All (λ c. (is_blank c ≡ false) × Without b',' c × (lowercase c ≡ c)) p.currencies

-- The configuration that the wizard's choices stand for.
abbrev pub chosen_config : SetupParams → Text → Config
chosen_config p password = record {
  bind = p.bind;
  tls = off;
  db_path = p.db_path;
  data_dir = p.data_dir;
  node_url = p.node_url;
  chain = mainnet;
  relay_mode = external;
  relays = p.relays;
  bundled_relay_url = default_bundled_relay;
  ingest = true;
  checkout_nostr = true;
  checkout_slatepack = true;
  match_mode = derived;
  mnemonic = none;
  wallet_password = some password;
  nsec = none;
  ncryptsec = none;
  public_url = p.public_url;
  api_token = some p.api_token;
  admin_token = some p.admin_token;
  webhook_url = some p.webhook_url;
  webhook_secret = some p.webhook_secret;
  qr_logo = none;
  merchant_npub = none;
  notify_merchant_dm = false;
  notify_payer_receipt = false;
  endpub_rotate_interval = pos 0;
  endpub_overlap_epochs = pos 1;
  rate_source = coin_gecko;
  rate_currencies = p.currencies;
  rate_cache_ttl = default_rate_cache_ttl;
  quote_ttl = default_quote_ttl;
  rate_stale_max = pos 0;
  confirmations_required = default_confirmations;
  grin1_rail = p.grin1_rail;
  grin1_foreign_port = default_grin1_foreign_port;
  inline_secret_vars = [];
}

map-trim : (xs : List Text) → All IsClean xs → map trim xs ≡ xs
map-trim [] h = refl
map-trim (x ∷ xs) h = rw (trim_clean x h.0) (ap (λ r. x ∷ r) (map-trim xs h.1))

select-All :
    (xs : List Text)
    → All (λ r. (is_blank r ≡ false) × Without b',' r) xs
    → select (λ s. not (is_blank s)) xs ≡ xs
select-All [] h = refl
select-All (x ∷ xs) h = rw h.0.0 (ap (λ r. x ∷ r) (select-All xs h.1))

parts_of :
    (xs : List Text) → All (λ r. (is_blank r ≡ false) × Without b',' r) xs → All (Without b',') xs
parts_of [] h = tt
parts_of (x ∷ xs) h = (h.0.1, parts_of xs h.1)

comma_list-join :
    (xs : List Text)
    → xs ≢ []
    → All IsClean xs
    → All (λ r. (is_blank r ≡ false) × Without b',' r) xs
    → comma_list (join b',' xs) ≡ xs
comma_list-join [] n c h = absurd (n refl)
comma_list-join (x ∷ xs) n c h =
    ap (λ ls. select (λ s. not (is_blank s)) (map trim ls))
      (split-join b',' x xs (parts_of (x ∷ xs) h))
    ∙ ap (select (λ s. not (is_blank s))) (map-trim (x ∷ xs) c)
    ∙ select-All (x ∷ xs) h

map_lower :
    (xs : List Text)
    → All IsClean xs
    → All (λ c. (is_blank c ≡ false) × Without b',' c × (lowercase c ≡ c)) xs
    → map (λ s. lowercase (trim s)) xs ≡ xs
map_lower [] h k = refl
map_lower (x ∷ xs) h k = rw (trim_clean x h.0) (rw k.0.2 (ap (λ r. x ∷ r) (map_lower xs h.1 k.1)))

plain_parts :
    (xs : List Text)
    → All (λ c. (is_blank c ≡ false) × Without b',' c × (lowercase c ≡ c)) xs
    → All (λ r. (is_blank r ≡ false) × Without b',' r) xs
plain_parts [] h = tt
plain_parts (x ∷ xs) h = ((h.0.0, h.0.1), plain_parts xs h.1)

currencies_join :
    (xs : List Text)
    → xs ≢ []
    → All IsClean xs
    → All (λ c. (is_blank c ≡ false) × Without b',' c × (lowercase c ≡ c)) xs
    → currencies_of (some (join b',' xs)) ≡ loaded xs
unfolding currencies_of
currencies_join [] n c h = absurd (n refl)
currencies_join (x ∷ xs) n c h =
    ap (λ ls. at_least_one (select (λ s. not (is_blank s)) (map (λ s. lowercase (trim s)) ls)))
      (split-join b',' x xs (parts_of (x ∷ xs) (plain_parts (x ∷ xs) h)))
    ∙ ap (λ ls. at_least_one (select (λ s. not (is_blank s)) ls)) (map_lower (x ∷ xs) c h)
    ∙ ap at_least_one (select-All (x ∷ xs) (plain_parts (x ∷ xs) h))

-- What `write_secret_file` leaves in the file of a password.
abbrev pub secret_file : Text → Text
secret_file password = password ++ 10 ∷ []

-- The choices, with the four values that are cleaned up as they are read.
with_cleaned :
    SetupParams → Text → Loaded (List Text) → List Text → Text → Option Text → Loaded Config
with_cleaned p password currencies relays public_url webhook_url = currencies >>= λ cs.
    loaded (record (chosen_config p password) {
      relays = relays;
      public_url = public_url;
      webhook_url = webhook_url;
      rate_currencies = cs;
    })

read_values :
    (files : Lookup) (p : SetupParams) (rail : Bool) (password : Text)
    → p.grin1_rail ≡ rail
    → files p.wallet_password_file ≡ some (secret_file password)
    → trim_end_matches is_line_end (secret_file password) ≡ password
    → is_blank password ≡ false
    → read_config files (value_of (settings p))
      ≡ with_cleaned p password
          (currencies_of (some (join b',' p.currencies)))
          (comma_list (join b',' p.relays))
          (url_or (some p.public_url) (codes "http://" ++ p.bind))
          (unless_blank (some p.webhook_url))
unfolding read_config value_of tls_of chain_of relay_mode_of ingest_of match_mode_of rate_source_of
    qr_logo_of port_of parse_bool parse_i64 secret parse_checkout_methods currencies_of with_cleaned
read_values files p true password r f t b = rw r (rw f (rw t (rw b refl)))
read_values files p false password r f t b = rw r (rw f (rw t (rw b refl)))

cleaned :
    (p : SetupParams) (password : Text)
    → AreChosen p
    → with_cleaned p password
        (currencies_of (some (join b',' p.currencies)))
        (comma_list (join b',' p.relays))
        (url_or (some p.public_url) (codes "http://" ++ p.bind))
        (unless_blank (some p.webhook_url))
      ≡ loaded (chosen_config p password)
unfolding with_cleaned
cleaned p password c =
    rw (currencies_join p.currencies c.some_currency c.clean.currencies c.currency_parts) (
      rw (comma_list-join p.relays c.some_relay c.clean.relays c.relay_parts) (
        rw c.reached.0
          (rw c.reached.1 (rw (trim_clean p.webhook_url c.clean.webhook_url) (rw c.shop refl)))))

not_empty : (xs : List Text) → xs ≢ [] → is_empty xs ≡ false
not_empty [] n = absurd (n refl)
not_empty (x ∷ xs) n = refl

chosen_valid :
    (p : SetupParams) (password : Text)
    → AreChosen p
    → validate (chosen_config p password) ≡ loaded tt
unfolding validate
chosen_valid p password c = rw c.places.0 (
    rw c.places.1 (
      rw c.places.2 (
        rw c.node (
          rw (not_empty p.relays c.some_relay)
            (rw (not_empty p.currencies c.some_currency) refl)))))

-- The file that the wizard writes for its choices, with the password file beside it, loads as the
-- configuration of exactly these choices: the addresses, node, relays, currencies, tokens, webhook
-- and rail that were chosen, the matching mode `derived`, the external relays, the password of the
-- file, and the defaults for everything else. It is accepted, whichever the restart mode.
pub config_from_written_env-render_env :
    (files : Lookup) (path : Text) (p : SetupParams) (password : Text)
    → AreChosen p
    → files path ≡ some (render_env p)
    → files p.wallet_password_file ≡ some (secret_file password)
    → trim_end_matches is_line_end (secret_file password) ≡ password
    → is_blank password ≡ false
    → config_from_written_env files path ≡ loaded (chosen_config p password)
unfolding config_from_written_env from_lookup
config_from_written_env-render_env files path p password c e f t b =
    ap (from_contents files path) e
    ∙ ap (λ ss. from_lookup files (value_of ss)) (parse_env_file-render_env p c.clean)
    ∙ ap (λ r. r >>= λ d. validate d >>= λ _. loaded d)
        (read_values files p p.grin1_rail password refl f t b ∙ cleaned p password c)
    ∙ ap (λ v. v >>= λ _. loaded (chosen_config p password)) (chosen_valid p password c)

refused_without :
    (files : Lookup) (p : SetupParams)
    → files p.wallet_password_file ≡ none
    → read_config files (value_of (settings p))
      ≡ refused (unreadable (codes "GP_WALLET_PASSWORD_FILE"))
unfolding read_config value_of tls_of chain_of relay_mode_of ingest_of match_mode_of secret
    parse_checkout_methods
refused_without files p f = elim (Bool-cases p.grin1_rail) [
  | inl e ↦ rw e (rw f refl)
  | inr e ↦ rw e (rw f refl)
]

-- While the password file of the wizard's choices is not there, as in restart mode manual, the boot
-- from the written file is refused for that file.
pub config_from_written_env_sealed :
    (files : Lookup) (path : Text) (p : SetupParams)
    → AreClean p
    → files path ≡ some (render_env p)
    → files p.wallet_password_file ≡ none
    → config_from_written_env files path ≡ refused (unreadable (codes "GP_WALLET_PASSWORD_FILE"))
unfolding config_from_written_env from_lookup
config_from_written_env_sealed files path p c e f =
    ap (from_contents files path) e
    ∙ ap (λ ss. from_lookup files (value_of ss)) (parse_env_file-render_env p c)
    ∙ ap (λ r. r >>= λ d. validate d >>= λ _. loaded d) (refused_without files p f)
