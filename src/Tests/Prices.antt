-- ===== src/Tests/Prices.antt =====
-- The price oracle at concrete values: prices are numbers of thousandths.
use goblin_pay.Prelude.{
  ℕ, ◌*◌, ◌/◌, ◌≡◌, refl, String, true, false, Option, none, some, [], ◌∷◌, codes, Text, arith, ltb,
}
use goblin_pay.Prelude.Int.{pos}
use goblin_pay.Config.{coin_gecko}
use goblin_pay.Invoice.{fiat, fiat_quoted, NewInvoice}
use goblin_pay.Rates.{
  rated, Floats, HttpAnswer, Oracle, rate_for, supports, parse_fiat_amount, fiat_to_nanogrin, quote,
}
use goblin_pay.Rates.Served.{IsServed, rate_for-IsServed}
use goblin_pay.Connector.{priced, price_if_fiat}
use goblin_pay.Connector.Locked.{IsPriced, price_if_fiat-IsPriced}

abbrev thousandths : Floats ℕ
thousandths = record {
  parse = λ t. some 21;
  is_finite = λ v. true;
  is_negative = λ v. false;
  is_positive = λ v. ltb 0 v;
  quotient = λ a r. a * 1_000_000_000 / r;
  overflows = λ v. false;
  as_nano = λ v. v;
  ten_places = λ v. codes "0.0210000000";
  price = λ body cur. some 21;
}

abbrev dollars : Text
dollars = codes "usd"

abbrev sample_oracle : Oracle ℕ
sample_oracle = record {
  source = coin_gecko;
  currencies = dollars ∷ [];
  cache_ttl = 60;
  stale_max = 0;
  quote_ttl_secs = pos 900;
  cache = (dollars, record { fiat_per_grin = 21; fetched = 970 }) ∷ [];
  has_client = false;
}

abbrev no_answer : Text → Option HttpAnswer
no_answer url = none

serves_cached :
    rate_for thousandths sample_oracle no_answer 1000 dollars ≡ (rated (21, false), sample_oracle)
unfolding rate_for
serves_cached = refl

rate_for-IsServed_example : IsServed thousandths sample_oracle sample_oracle 1000 dollars 21 false
rate_for-IsServed_example =
    rate_for-IsServed thousandths sample_oracle sample_oracle no_answer 1000 dollars 21 false
      (refl, tt) serves_cached

abbrev fiat_order : NewInvoice
fiat_order = record {
  order_ref = some "order-1";
  spec = fiat "0.021" "usd";
  memo_text = none;
  match_mode = none;
  expiry_secs = some (pos 86_400);
}

abbrev as_text : Text → String
as_text t = "0.021"

abbrev quoted_order : NewInvoice
quoted_order = record fiat_order {
  spec = fiat_quoted "0.021" "usd" 1_000_000_000 "0.021" "coingecko";
  expiry_secs = some (pos 900);
}

prices_order :
    (price_if_fiat thousandths as_text sample_oracle no_answer 1000 fiat_order).0
    ≡ priced quoted_order
unfolding price_if_fiat quote supports parse_fiat_amount fiat_to_nanogrin rate_for
prices_order = refl

price_if_fiat-IsPriced_example :
    IsPriced thousandths as_text 900
      (λ a c. (quote thousandths sample_oracle no_answer 1000 a c).0)
      fiat_order
      quoted_order
      fiat_order.spec
price_if_fiat-IsPriced_example =
    price_if_fiat-IsPriced thousandths as_text 900 sample_oracle no_answer 1000 fiat_order
      quoted_order refl (omega arith) prices_order
