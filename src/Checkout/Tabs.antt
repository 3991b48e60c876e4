-- ===== src/Checkout/Tabs.antt =====
-- The payment methods of a page (crates/gp-server/src/checkout.rs, build_tabs): which are offered, and
-- which is shown.
use goblin_pay.Prelude.{
  ℕ, suc, ◌≡◌, refl, ap, subst, ◌∙◌, Bool, true, false, not, ◌⊎◌, inl, inr, Option, none, some,
  is_some, List, [], ◌∷◌, if◌then◌else◌, Bool-cases, codes, Text, text_eq, text_eq_iff, is_blank,
  any, select, map, count_where, All,
}
use goblin_pay.Checkout.{CheckoutInfo}

pub record MethodTab : Type 0 where
  pub key : Text
  pub label : Text
  pub active : Bool

abbrev pub methods : List (Text × Text)
methods =
    (codes "goblin", codes "Pay with Goblin")
    ∷ (codes "invoice", codes "Grin invoice")
    ∷ (codes "address", codes "Send to address")
    ∷ (codes "slatepack", codes "Paste a slatepack")
    ∷ []

unfoldable pub method_available : CheckoutInfo → Text → Bool
method_available info key =
    if text_eq key (codes "goblin")
    then not (is_blank info.nprofile)
    else if text_eq key (codes "invoice")
    then is_some info.invoice_slatepack
    else if text_eq key (codes "address")
    then is_some info.slatepack_address
    else if text_eq key (codes "slatepack")
    then info.slatepack_manual
    else false

abbrev pub available : CheckoutInfo → List (Text × Text)
available info = select (λ m. method_available info m.0) methods

abbrev pub first_key : List (Text × Text) → Text
first_key [] = []
first_key (m ∷ ms) = m.0

abbrev pub chosen : List (Text × Text) → Option Text → Text
chosen ms none = first_key ms
chosen ms (some r) = if any (λ m. text_eq m.0 r) ms then r else first_key ms

abbrev pub tab : Text → Text × Text → MethodTab
tab active m = record { key = m.0; label = m.1; active = text_eq m.0 active }

unfoldable pub build_tabs : CheckoutInfo → Option Text → List MethodTab × Text
unfolding method_available
build_tabs info requested =
    let active = chosen (available info) requested in (map (tab active) (available info), active)

-- No two methods have one key.
abbrev is_listed : Text → List (Text × Text) → Bool
is_listed k ms = any (λ m. text_eq m.0 k) ms

abbrev AreDistinct : List (Text × Text) → Type 0
AreDistinct [] = Unit
AreDistinct (m ∷ ms) = (is_listed m.0 ms ≡ false) × AreDistinct ms

text_eq_refl : (s : Text) → text_eq s s ≡ true
text_eq_refl s = (text_eq_iff s s).1 refl

is_listed-select :
    (k : Text) (p : Text × Text → Bool) (ms : List (Text × Text))
    → is_listed k ms ≡ false
    → is_listed k (select p ms) ≡ false
is_listed-select k p [] h = refl
is_listed-select k p (m ∷ ms) h = elim (Bool-cases (text_eq m.0 k)) [
  | inl e ↦ absurd (cc (rw e at h))
  | inr e ↦ elim (Bool-cases (p m)) [
    | inl t ↦ rw t (rw e (is_listed-select k p ms (rw e at h)))
    | inr t ↦ rw t (is_listed-select k p ms (rw e at h))
  ]
]

select-AreDistinct :
    (p : Text × Text → Bool) (ms : List (Text × Text)) → AreDistinct ms → AreDistinct (select p ms)
select-AreDistinct p [] h = tt
select-AreDistinct p (m ∷ ms) h = elim (Bool-cases (p m)) [
  | inl t ↦ rw t (is_listed-select m.0 p ms h.0, select-AreDistinct p ms h.1)
  | inr t ↦ rw t (select-AreDistinct p ms h.1)
]

abbrev pub active_tabs : List MethodTab → ℕ
active_tabs tabs = count_where (λ (t : MethodTab). t.active) tabs

none_active :
    (k : Text) (ms : List (Text × Text)) → is_listed k ms ≡ false → active_tabs (map (tab k) ms) ≡ 0
none_active k [] h = refl
none_active k (m ∷ ms) h = elim (Bool-cases (text_eq m.0 k)) [
  | inl e ↦ absurd (cc (rw e at h))
  | inr e ↦ rw e (none_active k ms (rw e at h))
]

one_active :
    (k : Text) (ms : List (Text × Text))
    → AreDistinct ms
    → is_listed k ms ≡ true
    → active_tabs (map (tab k) ms) ≡ 1
one_active k [] h l = absurd (cc l)
one_active k (m ∷ ms) h l = elim (Bool-cases (text_eq m.0 k)) [
  | inl e ↦ rw e (
      ap suc (none_active k ms (subst (λ x. is_listed x ms ≡ false) ((text_eq_iff m.0 k).0 e) h.0)))
  | inr e ↦ rw e (one_active k ms h.1 (rw e at l))
]

listed_choice :
    (r : Text) (m : Text × Text) (ms : List (Text × Text)) (b : Bool)
    → is_listed r (m ∷ ms) ≡ b
    → is_listed (if b then r else m.0) (m ∷ ms) ≡ true
listed_choice r m ms true e = e
listed_choice r m ms false e = rw (text_eq_refl m.0) refl

chosen_listed :
    (ms : List (Text × Text)) (requested : Option Text)
    → (ms ≡ []) ⊎ (is_listed (chosen ms requested) ms ≡ true)
chosen_listed [] requested = inl refl
chosen_listed (m ∷ ms) none = inr (rw (text_eq_refl m.0) refl)
chosen_listed (m ∷ ms) (some r) = inr (listed_choice r m ms (is_listed r (m ∷ ms)) refl)

one_tab :
    (ms : List (Text × Text)) (requested : Option Text)
    → AreDistinct ms
    → (map (tab (chosen ms requested)) ms ≡ [])
      ⊎ (active_tabs (map (tab (chosen ms requested)) ms) ≡ 1)
one_tab ms requested h = elim (chosen_listed ms requested) [
  | inl e ↦ inl (ap (λ xs. map (tab (chosen ms requested)) xs) e)
  | inr e ↦ inr (one_active (chosen ms requested) ms h e)
]

select-passes :
    (p : Text × Text → Bool) (ms : List (Text × Text)) → All (λ m. p m ≡ true) (select p ms)
select-passes p [] = tt
select-passes p (m ∷ ms) = elim (Bool-cases (p m)) [
  | inl t ↦ rw t (t, select-passes p ms)
  | inr t ↦ rw t (select-passes p ms)
]

All-tab :
    (p : Text → Bool) (k : Text) (ms : List (Text × Text))
    → All (λ m. p m.0 ≡ true) ms
    → All (λ (t : MethodTab). p t.key ≡ true) (map (tab k) ms)
All-tab p k [] h = tt
All-tab p k (m ∷ ms) h = (h.0, All-tab p k ms h.1)

tab_listed :
    (r k : Text) (ms : List (Text × Text))
    → any (λ (t : MethodTab). text_eq t.key r) (map (tab k) ms) ≡ is_listed r ms
tab_listed r k [] = refl
tab_listed r k (m ∷ ms) = ap (λ b. if text_eq m.0 r then true else b) (tab_listed r k ms)

-- A requested method that has a tab is the one shown.
abbrev pub Honoured : Option Text → List MethodTab → Text → Type 0
Honoured none tabs active = Unit
Honoured (some r) tabs active =
    (any (λ (t : MethodTab). text_eq t.key r) tabs ≡ false) ⊎ (active ≡ r)

requested_kept :
    (requested : Option Text) (ms : List (Text × Text))
    → Honoured requested (map (tab (chosen ms requested)) ms) (chosen ms requested)
requested_kept none ms = tt
requested_kept (some r) ms = elim (Bool-cases (is_listed r ms)) [
  | inl e ↦ inr (rw e refl)
  | inr e ↦ inl (tab_listed r (chosen ms (some r)) ms ∙ e)
]

pub tabs_available :
    (info : CheckoutInfo) (requested : Option Text)
    → All (λ (t : MethodTab). method_available info t.key ≡ true) (build_tabs info requested).0
unfolding build_tabs
tabs_available info requested =
    All-tab (method_available info) (chosen (available info) requested) (available info)
      (select-passes (λ m. method_available info m.0) methods)

-- The panel of a method has something to show: a profile, an issued slatepack, an address, or the
-- paste form.
abbrev pub HasPanel : CheckoutInfo → Text → Type 0
HasPanel info key =
    ((key ≡ codes "goblin") × (is_blank info.nprofile ≡ false))
    ⊎ ((key ≡ codes "invoice") × ((pack : Text) × (info.invoice_slatepack ≡ some pack)))
    ⊎ ((key ≡ codes "address") × ((address : Text) × (info.slatepack_address ≡ some address)))
    ⊎ ((key ≡ codes "slatepack") × (info.slatepack_manual ≡ true))

not_blank : (b : Bool) → not b ≡ true → b ≡ false
not_blank true h = absurd (cc h)
not_blank false h = refl

value_of : (v : Option Text) → is_some v ≡ true → (t : Text) × (v ≡ some t)
value_of none h = absurd (cc h)
value_of (some t) h = (t, refl)

available-HasPanel :
    (info : CheckoutInfo) (key : Text) → method_available info key ≡ true → HasPanel info key
unfolding method_available
available-HasPanel info key h = elim (Bool-cases (text_eq key (codes "goblin"))) [
  | inl t ↦ inl ((text_eq_iff key _).0 t, not_blank _ (rw t at h))
  | inr t ↦ elim (Bool-cases (text_eq key (codes "invoice"))) [
    | inl u ↦ inr (inl ((text_eq_iff key _).0 u, value_of _ (rw u at (rw t at h))))
    | inr u ↦ elim (Bool-cases (text_eq key (codes "address"))) [
      | inl v ↦
          inr (inr (inl ((text_eq_iff key _).0 v, value_of _ (rw v at (rw u at (rw t at h))))))
      | inr v ↦ elim (Bool-cases (text_eq key (codes "slatepack"))) [
        | inl w ↦ inr (inr (inr ((text_eq_iff key _).0 w, rw w at (rw v at (rw u at (rw t at h))))))
        | inr w ↦ absurd (cc (rw w at (rw v at (rw u at (rw t at h)))))
      ]
    ]
  ]
]

All-tabs :
    (info : CheckoutInfo) (tabs : List MethodTab)
    → All (λ (t : MethodTab). method_available info t.key ≡ true) tabs
    → All (λ (t : MethodTab). HasPanel info t.key) tabs
All-tabs info [] h = tt
All-tabs info (t ∷ ts) h = (available-HasPanel info t.key h.0, All-tabs info ts h.1)

-- Every tab of a page leads to a panel that has something to show; if there is a tab, exactly one is
-- active; and a requested method that has a tab is the one shown.
pub build_tabs-active :
    (info : CheckoutInfo) (requested : Option Text)
    → All (λ (t : MethodTab). HasPanel info t.key) (build_tabs info requested).0
      × (((build_tabs info requested).0 ≡ []) ⊎ (active_tabs (build_tabs info requested).0 ≡ 1))
      × Honoured requested (build_tabs info requested).0 (build_tabs info requested).1
unfolding build_tabs
build_tabs-active info requested = (
  All-tabs info (build_tabs info requested).0 (tabs_available info requested),
  one_tab (available info) requested (
      select-AreDistinct (λ m. method_available info m.0) methods
        (refl, (refl, (refl, (refl, tt))))),
  requested_kept requested (available info),
)
