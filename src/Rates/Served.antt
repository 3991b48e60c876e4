-- ===== src/Rates/Served.antt =====
-- Which rates the oracle serves (crates/gp-core/src/rates.rs, quote and rate_for).
use goblin_pay.Prelude.{
  ℕ, ◌-◌, ◌≤◌, ◌≡◌, refl, subst, Bool, true, false, not, ◌&&◌, ◌⊎◌, inl, inr, Option, none, some,
  some_inj, List, [], ◌∷◌, Bool-cases, leb, leb→le, ◌==◌, Text, text_eq, text_eq_iff, lowercase,
  &&-true,
}
use goblin_pay.Rates.{
  RateError, Rated, rated, unrated, Floats, HttpAnswer, CachedRate, Oracle, is_fresh, cache_get,
  is_rate, rate_or_none, parse_coingecko, body_rate, answer_rate, is_success, fetch, price_url,
  stale_or, fetched_or_stale, refetch, hit_or_refetch, rate_for,
}

module _ {F : Type 0} (num : Floats F) where
  rated_inj : {A : Type 0} {a b : A} → rated a ≡ rated b → a ≡ b
  rated_inj e = cc e

  -- Every cached rate is a finite, positive number.
  abbrev pub AreRates : List (Text × CachedRate F) → Type 0
  AreRates [] = Unit
  AreRates ((k, entry) ∷ rest) = (is_rate num entry.fiat_per_grin ≡ true) × AreRates rest

  cached_rate :
      (cur : Text) (cache : List (Text × CachedRate F)) (entry : CachedRate F)
      → AreRates cache
      → cache_get cur cache ≡ some entry
      → is_rate num entry.fiat_per_grin ≡ true
  cached_rate cur [] entry h e = absurd (cc e)
  cached_rate cur ((k, x) ∷ rest) entry h e = elim (Bool-cases (text_eq k cur)) [
    | inl t ↦
        let same : x ≡ entry = some_inj (rw t at e) in
        subst (λ (y : CachedRate F). is_rate num y.fiat_per_grin ≡ true) same h.0
    | inr t ↦ cached_rate cur rest entry h.1 (rw t at e)
  ]

  -- A rate that is served: a number that may be divided by, found in the cache afterwards under the
  -- currency, and either of this moment, or young enough for a fresh hit, or, if it is marked stale,
  -- young enough for the fallback.
  pub record IsServed (o o' : Oracle F) (now : ℕ) (cur : Text) (rate : F) (stale : Bool)
      : Type 0 where
    pub entry : CachedRate F
    pub is_cached : cache_get cur o'.cache ≡ some entry
    pub same_rate : entry.fiat_per_grin ≡ rate
    pub usable : is_rate num rate ≡ true
    pub is_young :
        (entry.fetched ≡ now)
        ⊎ (((stale ≡ false) × (now - entry.fetched ≤ o.cache_ttl))
            ⊎ ((stale ≡ true) × (now - entry.fetched ≤ o.stale_max)))
    pub still_rates : AreRates o'.cache

  ServedBy : Oracle F → ℕ → Text → Rated (F × Bool) × Oracle F → Type 0
  ServedBy o now cur (rated (rate, stale), o') = IsServed o o' now cur rate stale
  ServedBy o now cur (unrated e, o') = AreRates o'.cache

  fresh_age : (age ttl : ℕ) → is_fresh age ttl ≡ true → age ≤ ttl
  fresh_age age ttl h = leb→le age ttl (&&-true (not (ttl == 0)) (leb age ttl) h).1

  rate_kept : (p : Option F) (rate : F) → rate_or_none num p ≡ rated rate → is_rate num rate ≡ true
  rate_kept none rate e = absurd (cc e)
  rate_kept (some p) rate e = elim (Bool-cases (is_rate num p)) [
    | inl t ↦ subst (λ q. is_rate num q ≡ true) (rated_inj (rw t at e)) t
    | inr t ↦ absurd (cc (rw t at e))
  ]

  body_kept :
      (cur : Text) (b : Option Text) (rate : F)
      → body_rate num cur b ≡ rated rate
      → is_rate num rate ≡ true
  unfolding parse_coingecko
  body_kept cur none rate e = absurd (cc e)
  body_kept cur (some body) rate e = rate_kept (num.price body (lowercase cur)) rate e

  answer_kept :
      (cur : Text) (a : Option HttpAnswer) (rate : F)
      → answer_rate num cur a ≡ rated rate
      → is_rate num rate ≡ true
  answer_kept cur none rate e = absurd (cc e)
  answer_kept cur (some a) rate e = elim (Bool-cases (is_success num a.status)) [
    | inl t ↦ body_kept cur a.body rate (rw t at e)
    | inr t ↦ absurd (cc (rw t at e))
  ]

  fetch_rate :
      (o : Oracle F) (http : Text → Option HttpAnswer) (cur : Text) (rate : F)
      → fetch num o http cur ≡ rated rate
      → is_rate num rate ≡ true
  unfolding fetch
  fetch_rate o http cur rate e = elim (Bool-cases o.has_client) [
    | inl t ↦ answer_kept cur (http (price_url num cur)) rate (rw t at e)
    | inr t ↦ absurd (cc (rw t at e))
  ]

  stale_served :
      (o : Oracle F) (now : ℕ) (cur : Text) (x : RateError) (entry : Option (CachedRate F))
      → AreRates o.cache
      → cache_get cur o.cache ≡ entry
      → ServedBy o now cur (stale_or num o now x entry)
  unfolding ServedBy
  stale_served o now cur x none h e = h
  stale_served o now cur x (some entry) h e =
      elim (Bool-cases (not (o.stale_max == 0) && is_fresh (now - entry.fetched) o.stale_max)) [
        | inr t ↦ rw t h
        | inl t ↦ rw t (record {
          entry = entry;
          is_cached = e;
          same_rate = refl;
          usable = cached_rate cur o.cache entry h e;
          is_young = inr (
              inr (
                refl,
                fresh_age (now - entry.fetched) o.stale_max
                    (&&-true (not (o.stale_max == 0)) (is_fresh (now - entry.fetched) o.stale_max)
                      t).1,
              ));
          still_rates = h;
        })
      ]

  refetch_served :
      (o : Oracle F) (now : ℕ) (cur : Text) (r : Rated F)
      → AreRates o.cache
      → ((rate : F) → r ≡ rated rate → is_rate num rate ≡ true)
      → ServedBy o now cur (fetched_or_stale num o now cur r)
  unfolding ServedBy
  refetch_served o now cur (rated rate) h k = record {
    entry = record { fiat_per_grin = rate; fetched = now };
    is_cached = rw ((text_eq_iff cur cur).1 refl) refl;
    same_rate = refl;
    usable = k rate refl;
    is_young = inl refl;
    still_rates = (k rate refl, h);
  }
  refetch_served o now cur (unrated x) h k = stale_served o now cur x (cache_get cur o.cache) h refl

  hit_served :
      (o : Oracle F) (http : Text → Option HttpAnswer) (now : ℕ) (cur : Text)
      (entry : Option (CachedRate F))
      → AreRates o.cache
      → cache_get cur o.cache ≡ entry
      → ServedBy o now cur (hit_or_refetch num o http now cur entry)
  unfolding ServedBy refetch
  hit_served o http now cur none h e =
      refetch_served o now cur (fetch num o http cur) h (λ rate q. fetch_rate o http cur rate q)
  hit_served o http now cur (some entry) h e =
      elim (Bool-cases (is_fresh (now - entry.fetched) o.cache_ttl)) [
        | inr t ↦ rw t (
            refetch_served o now cur (fetch num o http cur) h
              (λ rate q. fetch_rate o http cur rate q))
        | inl t ↦ rw t (record {
          entry = entry;
          is_cached = e;
          same_rate = refl;
          usable = cached_rate cur o.cache entry h e;
          is_young = inr (inl (refl, fresh_age (now - entry.fetched) o.cache_ttl t));
          still_rates = h;
        })
      ]

  -- Every rate that the oracle serves, whatever the price source answers, is a finite, positive number
  -- that it has cached: fetched at this moment, or at most the cache TTL ago, or, and then it is
  -- marked stale, at most the stale limit ago. The cache goes on holding such numbers only.
  pub rate_for-IsServed :
      (o o' : Oracle F) (http : Text → Option HttpAnswer) (now : ℕ) (cur : Text) (rate : F)
      (stale : Bool)
      → AreRates o.cache
      → rate_for num o http now cur ≡ (rated (rate, stale), o')
      → IsServed o o' now cur rate stale
  unfolding rate_for ServedBy
  rate_for-IsServed o o' http now cur rate stale h e =
      subst (ServedBy o now cur) e (hit_served o http now cur (cache_get cur o.cache) h refl)
