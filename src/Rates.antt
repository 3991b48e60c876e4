-- ===== src/Rates.antt =====
-- Conversion rates (crates/gp-core/src/rates.rs): the price oracle. Floating-point numbers, JSON and HTTP
-- are parameters; a time is a number of nanoseconds. Error texts are cut down to their kind.
pub mod Served
use goblin_pay.Prelude.{
  ℕ, ◌+◌, ◌-◌, ◌*◌, String, Bool, true, false, not, ◌&&◌, Option, none, some, List, [], ◌∷◌, ◌++◌,
  if◌then◌else◌, leb, ltb, ◌==◌, codes, trim, Text, text_eq, text_mem, is_blank, lowercase,
  trim_end_matches, map,
}
use goblin_pay.Prelude.Int.{ℤ, pos, negsuc, pos_part}
use goblin_pay.Config.{Config, RateSource, coin_gecko}

pub data RateError : Type 0 where
  unsupported_currency bad_amount source_unavailable misconfigured : RateError

pub data Rated (A : Type 0) : Type 0 where
  rated : A → Rated A
  unrated : RateError → Rated A

abbrev pub then_rated : {A B : Type 0} → Rated A → (A → Rated B) → Rated B
then_rated (rated a) f = f a
then_rated (unrated e) f = unrated e

-- `f64`: parsing, the two tests, the rounded quotient in nanogrin with its test and its cast, and the text
-- with ten places. `price` reads the field of a JSON answer.
pub record Floats (F : Type 0) : Type 0 where
  pub parse : Text → Option F
  pub is_finite : F → Bool
  pub is_negative : F → Bool
  pub is_positive : F → Bool
  pub quotient : F → F → F
  pub overflows : F → Bool
  pub as_nano : F → ℕ
  pub ten_places : F → Text
  pub price : Text → Text → Option F

-- An HTTP answer: its status, and its body if it could be read.
pub record HttpAnswer : Type 0 where
  pub status : ℕ
  pub body : Option Text

pub record CachedRate (F : Type 0) : Type 0 where
  pub fiat_per_grin : F
  pub fetched : ℕ

pub record Quote (F : Type 0) : Type 0 where
  pub nanogrin : ℕ
  pub currency : Text
  pub fiat_per_grin : F
  pub source : RateSource
  pub stale : Bool

pub record Oracle (F : Type 0) : Type 0 where
  pub source : RateSource
  pub currencies : List Text
  pub cache_ttl : ℕ
  pub stale_max : ℕ
  pub quote_ttl_secs : ℤ
  pub cache : List (Text × CachedRate F)
  pub has_client : Bool

-- `Duration::from_secs`
abbrev pub from_secs : ℕ → ℕ
from_secs n = n * 1_000_000_000

unfoldable pub from_config : {F : Type 0} → Config → Bool → Oracle F
from_config cfg has_client = record {
  source = cfg.rate_source;
  currencies = cfg.rate_currencies;
  cache_ttl = from_secs (pos_part cfg.rate_cache_ttl);
  stale_max = from_secs (pos_part cfg.rate_stale_max);
  quote_ttl_secs = cfg.quote_ttl;
  cache = [];
  has_client = has_client;
}

-- A zero TTL is never fresh.
abbrev pub is_fresh : ℕ → ℕ → Bool
is_fresh age ttl = not (ttl == 0) && leb age ttl

-- The cache, a map: the newest entry of a key stands first and counts.
abbrev pub cache_get : {F : Type 0} → Text → List (Text × CachedRate F) → Option (CachedRate F)
cache_get cur [] = none
cache_get cur ((k, entry) ∷ rest) =
    let later = cache_get cur rest in if text_eq k cur then some entry else later

abbrev pub cache_put : {F : Type 0} → Text → F → ℕ → Oracle F → Oracle F
cache_put cur rate now o = record o {
  cache = (cur, record { fiat_per_grin = rate; fetched = now }) ∷ o.cache;
}

-- `saturating_add` of an `i64`, and the lock of a quote
abbrev pub lock_ends : ℕ → ℕ → ℕ
lock_ends quoted_at ttl =
    if ltb (quoted_at + ttl) 9_223_372_036_854_775_807
    then quoted_at + ttl
    else 9_223_372_036_854_775_807

unfoldable pub quote_valid : ℕ → ℕ → ℕ → Bool
quote_valid quoted_at ttl now = leb quoted_at now && ltb now (lock_ends quoted_at ttl)

abbrev pub is_zero_code : ℕ → Bool
is_zero_code c = c == b'0'

abbrev pub is_point : ℕ → Bool
is_point c = c == b'.'

abbrev pub or_zero : Text → Text
or_zero t = if is_blank t then codes "0" else t

module _ {F : Type 0} (num : Floats F) where
  abbrev pub fiat_or_bad : Option F → Rated F
  fiat_or_bad none = unrated bad_amount
  fiat_or_bad (some v) =
      if not (num.is_finite v)
      then unrated bad_amount
      else if num.is_negative v
      then unrated bad_amount
      else rated v

  unfoldable pub parse_fiat_amount : Text → Rated F
  parse_fiat_amount amount = fiat_or_bad (num.parse (trim amount))

  abbrev pub is_rate : F → Bool
  is_rate p = num.is_finite p && num.is_positive p

  abbrev pub nano_of : F → Rated ℕ
  nano_of nano =
      if not (num.is_finite nano)
      then unrated bad_amount
      else if num.is_negative nano
      then unrated bad_amount
      else if num.overflows nano
      then unrated bad_amount
      else rated (num.as_nano nano)

  unfoldable pub fiat_to_nanogrin : F → F → Rated ℕ
  fiat_to_nanogrin fiat rate =
      if not (is_rate rate)
      then unrated source_unavailable
      else if not (num.is_finite fiat)
      then unrated bad_amount
      else if num.is_negative fiat
      then unrated bad_amount
      else nano_of (num.quotient fiat rate)

  unfoldable pub format_rate : F → Text
  format_rate rate =
      or_zero (trim_end_matches is_point (trim_end_matches is_zero_code (num.ten_places rate)))

  abbrev pub rate_or_none : Option F → Rated F
  rate_or_none none = unrated source_unavailable
  rate_or_none (some p) = if is_rate p then rated p else unrated source_unavailable

  unfoldable pub parse_coingecko : Text → Text → Rated F
  parse_coingecko json currency = rate_or_none (num.price json (lowercase currency))

  -- `reqwest`: the answer to a GET, if there is one.
  abbrev pub Http : Type 0
  Http = Text → Option HttpAnswer

  abbrev pub is_success : ℕ → Bool
  is_success status = leb 200 status && ltb status 300

  abbrev pub body_rate : Text → Option Text → Rated F
  body_rate cur none = unrated source_unavailable
  body_rate cur (some body) = parse_coingecko body cur

  abbrev pub answer_rate : Text → Option HttpAnswer → Rated F
  answer_rate cur none = unrated source_unavailable
  answer_rate cur (some answer) =
      if not (is_success answer.status)
      then unrated source_unavailable
      else body_rate cur answer.body

  abbrev pub price_url : Text → Text
  price_url cur =
      codes "https://api.coingecko.com/api/v3/simple/price?ids=grin&vs_currencies=" ++ cur

  unfoldable pub fetch : Oracle F → (Text → Option HttpAnswer) → Text → Rated F
  unfolding parse_coingecko
  fetch o http cur =
      if o.has_client then answer_rate cur (http (price_url cur)) else unrated source_unavailable

  abbrev pub stale_or :
      Oracle F → ℕ → RateError → Option (CachedRate F) → Rated (F × Bool) × Oracle F
  stale_or o now e none = (unrated e, o)
  stale_or o now e (some entry) =
      if not (o.stale_max == 0) && is_fresh (now - entry.fetched) o.stale_max
      then (rated (entry.fiat_per_grin, true), o)
      else (unrated e, o)

  abbrev pub fetched_or_stale : Oracle F → ℕ → Text → Rated F → Rated (F × Bool) × Oracle F
  fetched_or_stale o now cur (rated rate) = (rated (rate, false), cache_put cur rate now o)
  fetched_or_stale o now cur (unrated e) = stale_or o now e (cache_get cur o.cache)

  unfoldable pub refetch :
      Oracle F → (Text → Option HttpAnswer) → ℕ → Text → Rated (F × Bool) × Oracle F
  unfolding fetch
  refetch o http now cur = fetched_or_stale o now cur (fetch o http cur)

  abbrev pub hit_or_refetch :
      Oracle F
      → (Text → Option HttpAnswer)
      → ℕ
      → Text
      → Option (CachedRate F)
      → Rated (F × Bool) × Oracle F
  hit_or_refetch o http now cur none = refetch o http now cur
  hit_or_refetch o http now cur (some entry) =
      if is_fresh (now - entry.fetched) o.cache_ttl
      then (rated (entry.fiat_per_grin, false), o)
      else refetch o http now cur

  unfoldable pub rate_for :
      Oracle F → (Text → Option HttpAnswer) → ℕ → Text → Rated (F × Bool) × Oracle F
  unfolding refetch
  rate_for o http now cur = hit_or_refetch o http now cur (cache_get cur o.cache)

  unfoldable pub supports : Oracle F → Text → Bool
  supports o currency = text_mem (lowercase currency) o.currencies

  abbrev pub quote_at : Oracle F → Text → F → F × Bool → Rated (Quote F)
  quote_at o cur amount (rate, stale) = then_rated (fiat_to_nanogrin amount rate) (λ nano.
      rated (record {
        nanogrin = nano;
        currency = cur;
        fiat_per_grin = rate;
        source = o.source;
        stale = stale;
      }))

  abbrev pub with_rate :
      Oracle F → Text → F → Rated (F × Bool) × Oracle F → Rated (Quote F) × Oracle F
  with_rate o cur amount (r, o') = (then_rated r (quote_at o cur amount), o')

  abbrev pub quote_amount :
      Oracle F → (Text → Option HttpAnswer) → ℕ → Text → Rated F → Rated (Quote F) × Oracle F
  quote_amount o http now cur (unrated e) = (unrated e, o)
  quote_amount o http now cur (rated amount) = with_rate o cur amount (rate_for o http now cur)

  unfoldable pub quote :
      Oracle F → (Text → Option HttpAnswer) → ℕ → Text → Text → Rated (Quote F) × Oracle F
  unfolding supports parse_fiat_amount fiat_to_nanogrin rate_for
  quote o http now fiat_amount currency =
      if not (supports o currency)
      then (unrated unsupported_currency, o)
      else quote_amount o http now (lowercase currency) (parse_fiat_amount fiat_amount)
