-- ===== src/Config/Valid.antt =====
-- `Config::validate`, and what a configuration that passes it guarantees.
use goblin_pay.Prelude.{
  ℕ, Bool, true, false, not, ◌&&◌, ◌||◌, is_some, is_none, List, [], ◌∷◌, if◌then◌else◌, codes,
  trim, Text, is_blank, starts_with,
}
use goblin_pay.Prelude.Int.{ℤ, pos, ltb_ℤ}
use goblin_pay.Config.{
  Config, RelayMode, bundled, external, ConfigError, Loaded, loaded, refused, empty_bind,
  empty_db_path, empty_data_dir, bad_node_url, no_relays, no_bundled_relay, two_identities,
  unsigned_webhook, negative_overlap, negative_rotation, no_currency, bad_quote_ttl,
  negative_cache_ttl, negative_stale_max, bad_confirmations,
}

abbrev pub is_external : RelayMode → Bool
is_external external = true
is_external bundled = false

abbrev pub is_empty : List Text → Bool
is_empty [] = true
is_empty (x ∷ xs) = false

abbrev pub is_http : Text → Bool
is_http url = starts_with (codes "http://") url || starts_with (codes "https://") url

-- `x < 0`, `x <= 0`, `x < 1`
abbrev pub below : ℤ → ℕ → Bool
below x n = ltb_ℤ x (pos n)

-- The checks in turn: the first that fails refuses the configuration.
abbrev pub checks : Config → List (Bool × ConfigError)
checks c =
    (is_blank c.bind, empty_bind)
    ∷ (is_blank c.db_path, empty_db_path)
    ∷ (is_blank c.data_dir, empty_data_dir)
    ∷ (not (is_http c.node_url), bad_node_url)
    ∷ (is_external c.relay_mode && is_empty c.relays, no_relays)
    ∷ (not (is_external c.relay_mode) && is_blank (trim c.bundled_relay_url), no_bundled_relay)
    ∷ (is_some c.nsec && is_some c.ncryptsec, two_identities)
    ∷ (is_some c.webhook_url && is_none c.webhook_secret, unsigned_webhook)
    ∷ (below c.endpub_overlap_epochs 0, negative_overlap)
    ∷ (below c.endpub_rotate_interval 0, negative_rotation)
    ∷ (is_empty c.rate_currencies, no_currency)
    ∷ (below c.quote_ttl 1, bad_quote_ttl)
    ∷ (below c.rate_cache_ttl 0, negative_cache_ttl)
    ∷ (below c.rate_stale_max 0, negative_stale_max)
    ∷ (below c.confirmations_required 1, bad_confirmations)
    ∷ []

unfoldable pub first_failure : List (Bool × ConfigError) → Loaded (Unit {0})
first_failure [] = loaded tt
first_failure ((failed, e) ∷ cs) = let rest = first_failure cs in if failed then refused e else rest

unfoldable pub validate : Config → Loaded (Unit {0})
unfolding first_failure
validate c = first_failure (checks c)
