-- ===== src/Nostr/Relays.antt =====
-- The relay set (crates/gp-nostr/src/relays.rs): the bundled relay first, then the configured ones
-- that are not there yet; or the configured ones alone.
use goblin_pay.Prelude.{
  ◌≡◌, refl, Text, Bool, true, false, List, [], ◌∷◌, ◌++◌, if◌then◌else◌, any, All, text_eq,
  text_eq_iff, Bool-cases, inl, inr, sym,
}
use goblin_pay.Config.{RelayMode, bundled, external}

abbrev pub has_relay : Text → List Text → Bool
has_relay r = any (λ x. text_eq x r)

abbrev pub push_new : List Text → Text → List Text
push_new relays r = if has_relay r relays then relays else relays ++ r ∷ []

unfoldable pub push_all : List Text → List Text → List Text
push_all relays [] = relays
push_all relays (r ∷ rs) = push_all (push_new relays r) rs

unfoldable pub resolve : RelayMode → Text → List Text → List Text
resolve bundled url configured = push_all (url ∷ []) configured
resolve external url configured = configured

-- No relay stands twice.
abbrev pub IsDistinct : List Text → Type 0
IsDistinct [] = Unit
IsDistinct (x ∷ xs) = (has_relay x xs ≡ false) × IsDistinct xs

has-append :
    (r x : Text) (xs : List Text) → has_relay r xs ≡ true → has_relay r (xs ++ x ∷ []) ≡ true
has-append r x [] h = absurd (cc h)
has-append r x (y ∷ ys) h = elim (Bool-cases (text_eq y r)) [
  | inl e ↦ rw e refl
  | inr e ↦ rw e (has-append r x ys (rw e at h))
]

has-append_last : (r : Text) (xs : List Text) → has_relay r (xs ++ r ∷ []) ≡ true
has-append_last r [] = rw ((text_eq_iff r r).1 refl) refl
has-append_last r (y ∷ ys) = elim (Bool-cases (text_eq y r)) [
  | inl e ↦ rw e refl
  | inr e ↦ rw e (has-append_last r ys)
]

has-append_not :
    (r x : Text) (xs : List Text)
    → has_relay r xs ≡ false
    → text_eq x r ≡ false
    → has_relay r (xs ++ x ∷ []) ≡ false
has-append_not r x [] h n = rw n refl
has-append_not r x (y ∷ ys) h n = elim (Bool-cases (text_eq y r)) [
  | inl e ↦ absurd (cc (rw e at h))
  | inr e ↦ rw e (has-append_not r x ys (rw e at h) n)
]

flip : (a b : Text) → text_eq a b ≡ false → text_eq b a ≡ false
flip a b e = elim (Bool-cases (text_eq b a)) [
  | inl t ↦ absurd (cc (e, (text_eq_iff a b).1 (sym ((text_eq_iff b a).0 t))))
  | inr t ↦ t
]

append-IsDistinct :
    (x : Text) (xs : List Text) → IsDistinct xs → has_relay x xs ≡ false → IsDistinct (xs ++ x ∷ [])
append-IsDistinct x [] h n = (refl, tt)
append-IsDistinct x (y ∷ ys) h n = elim (Bool-cases (text_eq y x)) [
  | inl e ↦ absurd (cc (rw e at n))
  | inr e ↦ (has-append_not y x ys h.0 (flip y x e), append-IsDistinct x ys h.1 (rw e at n))
]

push_new-IsDistinct : (xs : List Text) (r : Text) → IsDistinct xs → IsDistinct (push_new xs r)
push_new-IsDistinct xs r h = elim (Bool-cases (has_relay r xs)) [
  | inl e ↦ rw e h
  | inr e ↦ rw e (append-IsDistinct r xs h e)
]

push_new-has : (xs : List Text) (r : Text) → has_relay r (push_new xs r) ≡ true
push_new-has xs r = elim (Bool-cases (has_relay r xs)) [
  | inl e ↦ rw e e
  | inr e ↦ rw e (has-append_last r xs)
]

push_new-keeps :
    (xs : List Text) (r x : Text) → has_relay x xs ≡ true → has_relay x (push_new xs r) ≡ true
push_new-keeps xs r x h = elim (Bool-cases (has_relay r xs)) [
  | inl e ↦ rw e h
  | inr e ↦ rw e (has-append x r xs h)
]

push_all-keeps :
    (rs xs : List Text) (x : Text) → has_relay x xs ≡ true → has_relay x (push_all xs rs) ≡ true
unfolding push_all
push_all-keeps [] xs x h = h
push_all-keeps (r ∷ rs) xs x h = push_all-keeps rs (push_new xs r) x (push_new-keeps xs r x h)

push_all-has : (rs xs : List Text) → All (λ r. has_relay r (push_all xs rs) ≡ true) rs
unfolding push_all
push_all-has [] xs = tt
push_all-has (r ∷ rs) xs =
    (push_all-keeps rs (push_new xs r) r (push_new-has xs r), push_all-has rs (push_new xs r))

push_all-IsDistinct : (rs xs : List Text) → IsDistinct xs → IsDistinct (push_all xs rs)
unfolding push_all
push_all-IsDistinct [] xs h = h
push_all-IsDistinct (r ∷ rs) xs h =
    push_all-IsDistinct rs (push_new xs r) (push_new-IsDistinct xs r h)

-- In bundled mode no relay stands twice in the set, and it has the bundled relay and every
-- configured one.
pub resolve-IsDistinct :
    (url : Text) (configured : List Text)
    → IsDistinct (resolve bundled url configured)
      × (has_relay url (resolve bundled url configured) ≡ true)
      × All (λ r. has_relay r (resolve bundled url configured) ≡ true) configured
unfolding resolve
resolve-IsDistinct url configured = (
  push_all-IsDistinct configured (url ∷ []) (refl, tt),
  push_all-keeps configured (url ∷ []) url (rw ((text_eq_iff url url).1 refl) refl),
  push_all-has configured (url ∷ []),
)
