-- ===== src/Checkout/Gates.antt =====
-- What the operator's settings keep off a page (crates/gp-server/src/checkout.rs, build_info and
-- method_available).
use goblin_pay.Prelude.{
  ◌≡◌, refl, Bool, true, false, not, ◌&&◌, inl, inr, Option, none, some, is_some, if◌then◌else◌,
  Bool-cases, codes, Text, text_eq, is_blank, All, All-map,
}
use goblin_pay.Store.{Invoice}
use goblin_pay.Config.{Config}
use goblin_pay.Checkout.{Encoders, Logo, blank_pair, shown, value_shown, is_loaded, build_info}
use goblin_pay.Checkout.Tabs.{MethodTab, method_available, build_tabs, tabs_available}

-- The settings that a method needs, with the answer of the collision check for plain sends.
abbrev pub permitted : Config → Bool → Text → Bool
permitted cfg plain_send_allowed key =
    if text_eq key (codes "goblin")
    then cfg.checkout_nostr
    else if text_eq key (codes "invoice")
    then cfg.grin1_rail && cfg.checkout_slatepack
    else if text_eq key (codes "address")
    then cfg.checkout_slatepack && plain_send_allowed
    else if text_eq key (codes "slatepack")
    then cfg.checkout_slatepack
    else false

named_gate :
    (b : Bool) (names : Text × Text)
    → not (is_blank (if b then names else blank_pair).1) ≡ true
    → b ≡ true
named_gate true names h = refl
named_gate false names h = absurd (cc h)

shown_gate :
    (e : Encoders) (logo : Logo) (gate : Bool) (v : Option Text)
    → is_some (value_shown (shown e logo gate v)) ≡ true
    → gate ≡ true
shown_gate e logo gate none h = absurd (cc h)
shown_gate e logo true (some v) h = refl
shown_gate e logo false (some v) h = absurd (cc h)

and_of_three : (a b c : Bool) → (a && b && c) ≡ true → (a && c) ≡ true
and_of_three true true c h = h
and_of_three true false c h = absurd (cc h)
and_of_three false b c h = absurd (cc h)

first_of : (a b : Bool) → (a && b) ≡ true → a ≡ true
first_of true b h = refl
first_of false b h = absurd (cc h)

module _ (e : Encoders) (inv : Invoice) (cfg : Config) (addr pack : Option Text)
    (plain : Bool) where
  available_permitted :
      (key : Text)
      → method_available (build_info e inv cfg addr pack plain) key ≡ true
      → permitted cfg plain key ≡ true
  unfolding method_available build_info
  available_permitted key h = elim (Bool-cases (text_eq key (codes "goblin"))) [
    | inl t ↦ rw t (named_gate cfg.checkout_nostr _ (rw t at h))
    | inr t ↦ elim (Bool-cases (text_eq key (codes "invoice"))) [
      | inl u ↦ rw t (
          rw u
            (shown_gate e _ (cfg.grin1_rail && cfg.checkout_slatepack) pack (rw u at (rw t at h))))
      | inr u ↦ elim (Bool-cases (text_eq key (codes "address"))) [
        | inl v ↦ rw t (
            rw u (
              rw v (
                and_of_three cfg.checkout_slatepack (is_loaded addr) plain (
                  shown_gate e _ (cfg.checkout_slatepack && is_loaded addr && plain) addr
                    (rw v at (rw u at (rw t at h)))))))
        | inr v ↦ elim (Bool-cases (text_eq key (codes "slatepack"))) [
          | inl w ↦ rw t (
              rw u (
                rw v (
                  rw w (
                    first_of cfg.checkout_slatepack (is_loaded addr)
                      (rw w at (rw v at (rw u at (rw t at h))))))))
          | inr w ↦ absurd (cc (rw w at (rw v at (rw u at (rw t at h)))))
        ]
      ]
    ]
  ]

  -- A page has a tab only for what the operator switched on: the Goblin tab needs the nostr method, the
  -- native invoice the grin1 rail and the slatepack method, the plain send the slatepack method and the
  -- collision check, and pasting the slatepack method. This holds for every invoice, with and without a
  -- wallet.
  pub build_tabs-permitted :
      (requested : Option Text)
      → All
          (λ (t : MethodTab). permitted cfg plain t.key ≡ true)
          (build_tabs (build_info e inv cfg addr pack plain) requested).0
  build_tabs-permitted requested =
      All-map
        (λ (t : MethodTab). method_available (build_info e inv cfg addr pack plain) t.key ≡ true)
        (λ (t : MethodTab). permitted cfg plain t.key ≡ true)
        (build_tabs (build_info e inv cfg addr pack plain) requested).0
        (λ t h. available_permitted t.key h)
        (tabs_available (build_info e inv cfg addr pack plain) requested)
