-- ===== src/Connector/Locked.antt =====
-- The locked price of a fiat invoice (crates/gp-server/src/invoices.rs, price_if_fiat).
use goblin_pay.Prelude.{
  ℕ, ◌≤◌, ◌≡◌, refl, sym, ap, subst, String, false, ◌&&◌, Bool-cases, inl, inr, Option, none, some,
  Text, codes, arith,
}
use goblin_pay.Prelude.Int.{ℤ, pos, negsuc, ltb_ℤ}
use goblin_pay.Invoice.{AmountSpec, grin, fiat, fiat_quoted, NewInvoice}
use goblin_pay.Rates.{Rated, rated, unrated, Floats, HttpAnswer, Quote, Oracle, format_rate, quote}
use goblin_pay.Connector.{
  clamp_expiry, Priced, priced, unpriced, source_name, with_quote, price_spec, price_if_fiat,
}

-- The price is locked for at most `ttl` seconds, and for one at least.
pub record IsLocked (ttl : ℕ) (p : NewInvoice) : Type 0 where
  pub seconds : ℕ
  pub expires : p.expiry_secs ≡ some (pos seconds)
  pub in_window : (1 ≤ seconds) × (seconds ≤ ttl)

-- An invoice that can be paid by amount: in Grin as it was asked for, or in fiat with a locked price.
clamp_in_window :
    (ttl : ℕ) (requested : Option ℤ)
    → 1 ≤ ttl
    → (s : ℕ) × (clamp_expiry (pos ttl) requested ≡ pos s) × (1 ≤ s) × (s ≤ ttl)
clamp_in_window ttl none h = (ttl, refl, h, omega arith)
clamp_in_window ttl (some (negsuc m)) h =
    let never : ltb_ℤ (pos 0) (negsuc m) ≡ false = ground arith in
    (ttl, rw never refl, h, omega arith)
clamp_in_window ttl (some (pos m)) h =
    elim (Bool-cases (ltb_ℤ (pos 0) (pos m) && ltb_ℤ (pos m) (pos ttl))) [
      | inl e ↦ (m, rw e refl, ground (arith, e), ground (arith, e))
      | inr e ↦ (ttl, rw e refl, h, omega arith)
    ]

module _ {F : Type 0} (num : Floats F) (to_string : Text → String) where
  -- With the quote that the oracle gives, if it is asked for one.
  unfoldable pub IsPriced :
      ℕ → (Text → Text → Rated (Quote F)) → NewInvoice → NewInvoice → AmountSpec → Type 0
  IsPriced ttl ask p p' (grin nano) = p' ≡ p
  IsPriced ttl ask p p' (fiat_quoted a c nano rate source) = p' ≡ p
  IsPriced ttl ask p p' (fiat a c) =
      (q : Quote F) × (ask (codes a) (codes c) ≡ rated q)
      × (p' ≡ record p {
        spec =
            fiat_quoted a c q.nanogrin (to_string (format_rate num q.fiat_per_grin))
              (source_name q.source);
        expiry_secs = p'.expiry_secs;
      })
      × IsLocked ttl p'

  PricedAs : ℕ → (Text → Text → Rated (Quote F)) → NewInvoice → AmountSpec → Priced → Type 0
  PricedAs ttl ask p spec (priced p') = IsPriced ttl ask p p' spec
  PricedAs ttl ask p spec (unpriced a) = Unit

  quoted_locked :
      (ttl : ℕ) (ask : Text → Text → Rated (Quote F)) (p : NewInvoice) (a c : String)
      (r : Rated (Quote F))
      → 1 ≤ ttl
      → ask (codes a) (codes c) ≡ r
      → PricedAs ttl ask p (fiat a c) (with_quote num to_string p a c (pos ttl) r)
  unfolding PricedAs IsPriced
  quoted_locked ttl ask p a c (unrated e) h k = tt
  quoted_locked ttl ask p a c (rated q) h k =
      let (s, e, lower, upper) = clamp_in_window ttl p.expiry_secs h in
      (q, k, refl, record { seconds = s; expires = ap some e; in_window = (lower, upper) })

  priced_spec :
      (ttl : ℕ) (o : Oracle F) (http : Text → Option HttpAnswer) (now : ℕ) (p : NewInvoice)
      (spec : AmountSpec)
      → o.quote_ttl_secs ≡ pos ttl
      → 1 ≤ ttl
      → PricedAs ttl
          (λ a c. (quote num o http now a c).0)
          p
          spec
          (price_spec num to_string spec o http now p).0
  unfolding PricedAs IsPriced
  priced_spec ttl o http now p (grin nano) e h = refl
  priced_spec ttl o http now p (fiat_quoted a c nano rate source) e h = refl
  priced_spec ttl o http now p (fiat a c) e h =
      subst
        (λ t.
          PricedAs ttl (λ a' c'. (quote num o http now a' c').0) p (fiat a c)
            (with_quote num to_string p a c t (quote num o http now (codes a) (codes c)).0))
        (sym e)
        (quoted_locked ttl (λ a' c'. (quote num o http now a' c').0) p a c
          (quote num o http now (codes a) (codes c)).0 h refl)

  -- No invoice leaves the pricing step without a Grin amount: one in Grin passes through as it is; one in
  -- fiat gets the amount, rate and source of the oracle's quote for its amount and currency, is
  -- otherwise as it was asked for, and expires within the quote lock, whatever expiry was asked for (none,
  -- negative, or too long). The lock lasts at least a second.
  pub price_if_fiat-IsPriced :
      (ttl : ℕ) (o : Oracle F) (http : Text → Option HttpAnswer) (now : ℕ) (p p' : NewInvoice)
      → o.quote_ttl_secs ≡ pos ttl
      → 1 ≤ ttl
      → (price_if_fiat num to_string o http now p).0 ≡ priced p'
      → IsPriced ttl (λ a c. (quote num o http now a c).0) p p' p.spec
  unfolding price_if_fiat PricedAs
  price_if_fiat-IsPriced ttl o http now p p' e h q =
      subst (PricedAs ttl (λ a c. (quote num o http now a c).0) p p.spec) q
        (priced_spec ttl o http now p p.spec e h)
