-- ===== src/Config/Guarantees.antt =====
-- What every configuration that loads guarantees to the rest of the program.
use goblin_pay.Prelude.{
  ℕ, ◌≤◌, ◌≡◌, ◌≢◌, refl, Bool, true, false, not, ◌&&◌, ◌⊎◌, inl, inr, Option, none, some, is_some,
  is_none, List, [], ◌∷◌, All, trim, Text, is_blank, arith, subst, ◌+◌,
}
use goblin_pay.Prelude.Int.{ℤ, pos, negsuc, pos_part, neg_part}
use goblin_pay.Config.{
  Config, RelayMode, bundled, external, ConfigError, Loaded, loaded, refused, ◌>>=◌, Lookup,
}
use goblin_pay.Config.Valid.{is_external, is_empty, is_http, below, checks, first_failure, validate}
use goblin_pay.Config.Load.{read_config, from_lookup}

-- `n ≤ z`
abbrev pub AtLeast : ℕ → ℤ → Type 0
AtLeast n z = n + neg_part z ≤ pos_part z

pub record IsValid (c : Config) : Type 0 where
  pub has_addresses : (c.bind ≢ []) × (c.db_path ≢ []) × (c.data_dir ≢ [])
  pub has_node : is_http c.node_url ≡ true
  pub has_relays :
      ((c.relay_mode ≡ external) × (c.relays ≢ []))
      ⊎ ((c.relay_mode ≡ bundled) × (trim c.bundled_relay_url ≢ []))
  pub has_one_identity : (c.nsec ≡ none) ⊎ (c.ncryptsec ≡ none)
  pub signs_webhooks : (c.webhook_url ≡ none) ⊎ (is_some c.webhook_secret ≡ true)
  pub has_windows :
      AtLeast 0 c.endpub_overlap_epochs
      × AtLeast 0 c.endpub_rotate_interval
      × AtLeast 1 c.quote_ttl
      × AtLeast 0 c.rate_cache_ttl
      × AtLeast 0 c.rate_stale_max
  pub has_currency : c.rate_currencies ≢ []
  pub waits_for_depth : AtLeast 1 c.confirmations_required

first_failure-none :
    (cs : List (Bool × ConfigError))
    → first_failure cs ≡ loaded tt
    → All (λ check. check.0 ≡ false) cs
unfolding first_failure
first_failure-none [] e = tt
first_failure-none ((true, x) ∷ cs) e = absurd (cc e)
first_failure-none ((false, x) ∷ cs) e = (refl, first_failure-none cs e)

not_blank : (s : Text) → is_blank s ≡ false → s ≢ []
not_blank [] h = absurd (cc h)
not_blank (c ∷ cs) h = λ e. cc e

not_empty : (xs : List Text) → is_empty xs ≡ false → xs ≢ []
not_empty [] h = absurd (cc h)
not_empty (x ∷ xs) h = λ e. cc e

not_below : (n : ℕ) (z : ℤ) → below z n ≡ false → AtLeast n z
not_below n (pos m) h = ground arith
not_below n (negsuc m) h = ground arith

relays_there :
    (m : RelayMode) (relays : List Text) (url : Text)
    → (is_external m && is_empty relays) ≡ false
    → (not (is_external m) && is_blank url) ≡ false
    → ((m ≡ external) × (relays ≢ [])) ⊎ ((m ≡ bundled) × (url ≢ []))
relays_there external relays url h k = inl (refl, not_empty relays h)
relays_there bundled relays url h k = inr (refl, not_blank url k)

one_of : (a b : Option Text) → (is_some a && is_some b) ≡ false → (a ≡ none) ⊎ (b ≡ none)
one_of none b h = inl refl
one_of (some x) none h = inr refl
one_of (some x) (some y) h = absurd (cc h)

signed : (a b : Option Text) → (is_some a && is_none b) ≡ false → (a ≡ none) ⊎ (is_some b ≡ true)
signed none b h = inl refl
signed (some x) none h = absurd (cc h)
signed (some x) (some y) h = inr refl

loaded_inj : {c d : Config} → loaded c ≡ loaded d → c ≡ d
loaded_inj e = cc e

pub validate-IsValid : (c : Config) → validate c ≡ loaded tt → IsValid c
unfolding validate
validate-IsValid c e =
    let (
      bind,
      (
        db,
        (
          dir,
          (
            node,
            (ext, (bun, (ids, (hook, (over, (rot, (cur, (ttl, (cache, (stale, (conf, _))))))))))),
          ),
        ),
      ),
    ) =
      first_failure-none (checks c) e in
    record {
      has_addresses = (not_blank c.bind bind, not_blank c.db_path db, not_blank c.data_dir dir);
      has_node = ground (arith, node);
      has_relays = relays_there c.relay_mode c.relays (trim c.bundled_relay_url) ext bun;
      has_one_identity = one_of c.nsec c.ncryptsec ids;
      signs_webhooks = signed c.webhook_url c.webhook_secret hook;
      has_windows = (
        not_below 0 c.endpub_overlap_epochs over,
        not_below 0 c.endpub_rotate_interval rot,
        not_below 1 c.quote_ttl ttl,
        not_below 0 c.rate_cache_ttl cache,
        not_below 0 c.rate_stale_max stale,
      );
      has_currency = not_empty c.rate_currencies cur;
      waits_for_depth = not_below 1 c.confirmations_required conf;
    }

-- Whatever the environment and the readable files are, a configuration that loads is consistent: its
-- addresses are not empty, its node speaks HTTP, it has a relay to listen on, at most one form of the
-- identity, a secret for every webhook, at least one currency, windows that are not negative, a quote
-- that lasts and a depth of at least one confirmation.
pub from_lookup-IsValid :
    (files get : Lookup) (c : Config) → from_lookup files get ≡ loaded c → IsValid c
unfolding from_lookup
from_lookup-IsValid files get c e = go (read_config files get) e
  where
    accepted :
        (d : Config) (v : Loaded (Unit {0}))
        → validate d ≡ v
        → (v >>= λ _. loaded d) ≡ loaded c
        → IsValid c
    accepted d (loaded tt) h q = subst IsValid (loaded_inj q) (validate-IsValid d h)
    accepted d (refused x) h q = absurd (cc q)

    go : (r : Loaded Config) → (r >>= λ d. validate d >>= λ _. loaded d) ≡ loaded c → IsValid c
    go (loaded d) q = accepted d (validate d) refl q
    go (refused x) q = absurd (cc q)
