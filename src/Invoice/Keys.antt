-- ===== src/Invoice/Keys.antt =====
-- The primary key of the invoices: a row is determined by its id.
use goblin_pay.Prelude.{
  ◌≡◌, sym, ◌∙◌, String, Bool, true, false, some, List, [], ◌∷◌, ◌++◌, str_eq, eq_iff, first, All,
  some_inj, Bool-cases, inl, inr,
}
use goblin_pay.Store.{Invoice}

-- No two rows have one id.
abbrev pub HasUniqueIds : List Invoice → Type 0
HasUniqueIds [] = Unit
HasUniqueIds (x ∷ xs) = All (λ y. str_eq y.id x.id ≡ false) xs × HasUniqueIds xs

abbrev pub by_id : String → Invoice → Bool
by_id i inv = str_eq inv.id i

no_other :
    (i : String) (x : Invoice) (P : Invoice → Type 0) (xs : List Invoice)
    → str_eq x.id i ≡ true
    → All (λ y. str_eq y.id x.id ≡ false) xs
    → All (λ y. by_id i y ≡ true → P y) xs
no_other i x P [] e h = tt
no_other i x P (y ∷ ys) e h = (
  (λ q. absurd (cc (h.0, (eq_iff y.id x.id).1 ((eq_iff y.id i).0 q ∙ sym ((eq_iff x.id i).0 e))))),
  no_other i x P ys e h.1,
)

-- Every row with an id is the one that a `SELECT … WHERE id = ?` finds.
pub first_unique :
    (i : String) (xs : List Invoice) (a : Invoice)
    → HasUniqueIds xs
    → first (by_id i) xs ≡ some a
    → All (λ x. by_id i x ≡ true → x ≡ a) xs
first_unique i [] a h e = tt
first_unique i (x ∷ xs) a h e = elim (Bool-cases (by_id i x)) [
  | inl t ↦ (λ _. some_inj (rw t at e), no_other i x (λ y. y ≡ a) xs t h.0)
  | inr t ↦ (λ q. absurd (cc (t, q)), first_unique i xs a h.1 (rw t at e))
]

distinct_append :
    (i : String) (xs ys : List Invoice)
    → All (λ y. str_eq y.id i ≡ false) xs
    → All (λ y. str_eq y.id i ≡ false) ys
    → All (λ y. str_eq y.id i ≡ false) (xs ++ ys)
distinct_append i [] ys h k = k
distinct_append i (x ∷ xs) ys h k = (h.0, distinct_append i xs ys h.1 k)
