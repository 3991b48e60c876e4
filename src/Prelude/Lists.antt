-- ===== src/Prelude/Lists.antt =====
-- Lists measured by native numbers, and the row operations of a table: update and delete the
-- rows that pass a test, select, and the first row by an order.
use Prim.Native.Nat.{ℕ, zero, suc, ◌+◌, ◌≤◌}
use mathlib.Core.Path.{◌≡◌, refl, ap, subst}
use mathlib.Core.Logic.{inl, inr}
use mathlib.Core.Bool.{Bool, true, false}
use mathlib.Core.List.{List, [], ◌∷◌, ◌++◌}
use mathlib.Core.Option.{Option, none, some}
use native.Mathlib.Omega.{arith}
use goblin_pay.Prelude.Tests.{if◌then◌else◌, leb, leb→le, Bool-cases, Option-cases}

pub some_inj {ℓ} : {A : Type ℓ} {a b : A} → some a ≡ some b → a ≡ b
some_inj e = cc

module _ {ℓ} {A : Type ℓ} where
  abbrev pub length : List A → ℕ
  length [] = 0
  length (x ∷ xs) = suc (length xs)

  abbrev pub take : ℕ → List A → List A
  take zero xs = []
  take (suc n) [] = []
  take (suc n) (x ∷ xs) = x ∷ take n xs

  abbrev pub drop : ℕ → List A → List A
  drop zero xs = xs
  drop (suc n) [] = []
  drop (suc n) (x ∷ xs) = drop n xs

  abbrev pub get_elem? : List A → ℕ → Option A
  get_elem? [] i = none
  get_elem? (x ∷ xs) zero = some x
  get_elem? (x ∷ xs) (suc i) = get_elem? xs i

  -- Every element has the property; it computes to tuples.
  abbrev pub All {κ} : (A → Type κ) → List A → Type κ
  All P [] = Unit
  All P (x ∷ xs) = P x × All P xs

  -- `SELECT … WHERE p`
  abbrev pub select : (A → Bool) → List A → List A
  select p [] = []
  select p (x ∷ xs) = if p x then x ∷ select p xs else select p xs

  -- `SELECT … WHERE p LIMIT 1`, in the order of the list
  abbrev pub first : (A → Bool) → List A → Option A
  first p [] = none
  first p (x ∷ xs) = if p x then some x else first p xs

  -- `UPDATE … SET … WHERE p`
  abbrev pub update_where : (A → Bool) → (A → A) → List A → List A
  update_where p f [] = []
  update_where p f (x ∷ xs) = (if p x then f x else x) ∷ update_where p f xs

  -- `DELETE … WHERE p`
  abbrev pub delete_where : (A → Bool) → List A → List A
  delete_where p [] = []
  delete_where p (x ∷ xs) = if p x then delete_where p xs else x ∷ delete_where p xs

  abbrev pub prepend : Option A → List A → List A
  prepend none xs = xs
  prepend (some x) xs = x ∷ xs

  -- `SELECT f … WHERE f IS NOT NULL`
  abbrev pub keep_some {κ} : {B : Type κ} → (B → Option A) → List B → List A
  keep_some f [] = []
  keep_some f (y ∷ ys) = prepend (f y) (keep_some f ys)

  -- `SELECT COUNT(*) … WHERE p`
  abbrev pub count_where : (A → Bool) → List A → ℕ
  count_where p [] = 0
  count_where p (x ∷ xs) = if p x then suc (count_where p xs) else count_where p xs

  abbrev pub any : (A → Bool) → List A → Bool
  any p [] = false
  any p (x ∷ xs) = if p x then true else any p xs

  -- The better of a row and the best of the rows behind it; the earlier row wins a tie.
  abbrev pub prefer : (A → ℕ) → A → Option A → A
  prefer key x none = x
  prefer key x (some y) = if leb (key x) (key y) then x else y

  -- `SELECT … ORDER BY key LIMIT 1`
  abbrev pub least_by : (A → ℕ) → List A → Option A
  least_by key [] = none
  least_by key (x ∷ xs) = some (prefer key x (least_by key xs))

  pub length-append : (xs ys : List A) → length (xs ++ ys) ≡ length xs + length ys
  length-append [] ys = omega arith
  length-append (x ∷ xs) ys = omega (arith, length-append xs ys)

  pub take-append-drop : (n : ℕ) (xs : List A) → take n xs ++ drop n xs ≡ xs
  take-append-drop zero xs = refl
  take-append-drop (suc n) [] = refl
  take-append-drop (suc n) (x ∷ xs) = ap (λ r. x ∷ r) (take-append-drop n xs)

  pub length-take : (n : ℕ) (xs : List A) → length (take n xs) ≤ n
  length-take zero xs = omega arith
  length-take (suc n) [] = omega arith
  length-take (suc n) (x ∷ xs) = omega (arith, length-take n xs)

  pub length-select : (p : A → Bool) (xs : List A) → length (select p xs) ≤ length xs
  length-select p [] = omega arith
  length-select p (x ∷ xs) = ground (arith, length-select p xs)

  pub All-select {κ} :
      (P : A → Type κ) (p : A → Bool) (xs : List A) → All P xs → All P (select p xs)
  All-select P p [] h = tt
  All-select P p (x ∷ xs) h = elim (Bool-cases (p x)) [
    | inl e ↦ rw e (h.0, All-select P p xs h.1)
    | inr e ↦ rw e (All-select P p xs h.1)
  ]

  pub All-map {κ μ} :
      (P : A → Type κ) (Q : A → Type μ) (xs : List A) → ((x : A) → P x → Q x) → All P xs → All Q xs
  All-map P Q [] f h = tt
  All-map P Q (x ∷ xs) f h = (f x h.0, All-map P Q xs f h.1)

  pub first-test : (p : A → Bool) (xs : List A) (a : A) → first p xs ≡ some a → p a ≡ true
  first-test p [] a e = absurd (cc)
  first-test p (x ∷ xs) a e = elim (Bool-cases (p x)) [
    | inl t ↦ subst (λ b. p b ≡ true) (some_inj (rw t at e)) t
    | inr t ↦ first-test p xs a (rw t at e)
  ]

  pub first-All {κ} :
      (P : A → Type κ) (p : A → Bool) (xs : List A) (a : A) → All P xs → first p xs ≡ some a → P a
  first-All P p [] a h e = absurd (cc)
  first-All P p (x ∷ xs) a h e = elim (Bool-cases (p x)) [
    | inl t ↦ subst P (some_inj (rw t at e)) h.0
    | inr t ↦ first-All P p xs a h.1 (rw t at e)
  ]

  pub prefer-All {κ} :
      (P : A → Type κ) (key : A → ℕ) (x : A) (o : Option A)
      → P x
      → ((y : A) → o ≡ some y → P y)
      → P (prefer key x o)
  prefer-All P key x none h k = h
  prefer-All P key x (some y) h k = elim (Bool-cases (leb (key x) (key y))) [
    | inl t ↦ rw t h
    | inr t ↦ rw t (k y refl)
  ]

  pub least_by-All {κ} :
      (P : A → Type κ) (key : A → ℕ) (xs : List A) (a : A)
      → All P xs
      → least_by key xs ≡ some a
      → P a
  least_by-All P key [] a h e = absurd (cc)
  least_by-All P key (x ∷ xs) a h e =
      subst P (some_inj e)
        (prefer-All P key x (least_by key xs) h.0 (λ y q. least_by-All P key xs y h.1 q))

  prefer_right : (key : A → ℕ) (x y : A) → key (prefer key x (some y)) ≤ key y
  prefer_right key x y = elim (Bool-cases (leb (key x) (key y))) [
    | inl t ↦ rw t (leb→le (key x) (key y) t)
    | inr t ↦ rw t (omega arith)
  ]

  prefer_left : (key : A → ℕ) (x y : A) → key (prefer key x (some y)) ≤ key x
  prefer_left key x y = elim (Bool-cases (leb (key x) (key y))) [
    | inl t ↦ rw t (omega arith)
    | inr t ↦ rw t (ground arith)
  ]

  pub least_by-none : (key : A → ℕ) (xs : List A) → least_by key xs ≡ none → xs ≡ []
  least_by-none key [] e = refl
  least_by-none key (x ∷ xs) e = absurd (cc)

  prefer-le :
      (key : A → ℕ) (x : A) (o : Option A)
      → (key (prefer key x o) ≤ key x) × ((y : A) → o ≡ some y → key (prefer key x o) ≤ key y)
  prefer-le key x none = (omega arith, λ y e. absurd (cc))
  prefer-le key x (some y) = (
    prefer_left key x y,
    λ z e. subst (λ b. key (prefer key x (some y)) ≤ key b) (some_inj e) (prefer_right key x y),
  )

  All-le_trans :
      (key : A → ℕ) (m n : ℕ) (xs : List A)
      → m ≤ n
      → All (λ y. n ≤ key y) xs
      → All (λ y. m ≤ key y) xs
  All-le_trans key m n [] h k = tt
  All-le_trans key m n (x ∷ xs) h k = (omega arith, All-le_trans key m n xs h k.1)

  -- No row stands before the one that an order selects.
  pub least_by-le :
      (key : A → ℕ) (xs : List A) (a : A) → least_by key xs ≡ some a → All (λ y. key a ≤ key y) xs
  least_by-le key [] a e = absurd (cc)
  least_by-le key (x ∷ xs) a e =
      subst (λ b. All (λ y. key b ≤ key y) (x ∷ xs)) (some_inj e)
        (
          (prefer-le key x (least_by key xs)).0,
          elim (Option-cases (least_by key xs)) [
            | inl q ↦ rw (least_by-none key xs q) tt
            | inr (b, q) ↦
                All-le_trans key _ (key b) xs ((prefer-le key x (least_by key xs)).1 b q)
                  (least_by-le key xs b q)
          ],
        )

  -- A row relation that every update keeps holds between a table and its update.
  pub length-update_where :
      (p : A → Bool) (f : A → A) (xs : List A) → length (update_where p f xs) ≡ length xs
  length-update_where p f [] = refl
  length-update_where p f (x ∷ xs) = ap suc (length-update_where p f xs)

  pub update_where-none :
      (p : A → Bool) (f : A → A) (xs : List A)
      → All (λ x. p x ≡ false) xs
      → update_where p f xs ≡ xs
  update_where-none p f [] h = refl
  update_where-none p f (x ∷ xs) h = rw (h.0, update_where-none p f xs h.1)

  pub delete_where-none :
      (p : A → Bool) (xs : List A) → All (λ x. p x ≡ false) xs → delete_where p xs ≡ xs
  delete_where-none p [] h = refl
  delete_where-none p (x ∷ xs) h = rw (h.0, delete_where-none p xs h.1)

  pub any-false : (p : A → Bool) (xs : List A) → any p xs ≡ false → All (λ x. p x ≡ false) xs
  any-false p [] e = tt
  any-false p (x ∷ xs) e = elim (Bool-cases (p x)) [
    | inl t ↦ absurd (cc (rw t at e))
    | inr t ↦ (t, any-false p xs (rw t at e))
  ]

-- The rows of a table, each related to the row in its place; `Extends` lets new rows follow.
module _ {ℓ} {A : Type ℓ} (R : A → A → Type 0) where
  abbrev pub Zip : List A → List A → Type 0
  Zip [] [] = Unit
  Zip [] (y ∷ ys) = ⊥
  Zip (x ∷ xs) [] = ⊥
  Zip (x ∷ xs) (y ∷ ys) = R x y × Zip xs ys

  abbrev pub Extends : List A → List A → Type 0
  Extends [] ys = Unit
  Extends (x ∷ xs) [] = ⊥
  Extends (x ∷ xs) (y ∷ ys) = R x y × Extends xs ys

  pub Zip-refl : ((x : A) → R x x) → (xs : List A) → Zip xs xs
  Zip-refl h [] = tt
  Zip-refl h (x ∷ xs) = (h x, Zip-refl h xs)

  pub Zip-update_where :
      (p : A → Bool) (f : A → A) (xs : List A)
      → ((x : A) → p x ≡ false → R x x)
      → All (λ x. p x ≡ true → R x (f x)) xs
      → Zip xs (update_where p f xs)
  Zip-update_where p f [] h k = tt
  Zip-update_where p f (x ∷ xs) h k = (go (p x) refl, Zip-update_where p f xs h k.1)
    where
      go : (b : Bool) → p x ≡ b → R x (if b then f x else x)
      go true e = k.0 e
      go false e = h x e

  pub Extends-refl : ((x : A) → R x x) → (xs : List A) → Extends xs xs
  Extends-refl h [] = tt
  Extends-refl h (x ∷ xs) = (h x, Extends-refl h xs)

  pub Extends-trans :
      ((x y z : A) → R x y → R y z → R x z)
      → (xs ys zs : List A) → Extends xs ys
      → Extends ys zs
      → Extends xs zs
  Extends-trans h [] ys zs p q = tt
  Extends-trans h (x ∷ xs) [] zs p q = absurd p
  Extends-trans h (x ∷ xs) (y ∷ ys) [] p q = absurd q
  Extends-trans h (x ∷ xs) (y ∷ ys) (z ∷ zs) p q =
      (h x y z p.0 q.0, Extends-trans h xs ys zs p.1 q.1)

  pub Extends-append : ((x : A) → R x x) → (xs ys : List A) → Extends xs (xs ++ ys)
  Extends-append h [] ys = tt
  Extends-append h (x ∷ xs) ys = (h x, Extends-append h xs ys)

  pub Extends-update_where :
      (p : A → Bool) (f : A → A) (xs : List A)
      → ((x : A) → R x x)
      → ((x : A) → p x ≡ true → R x (f x))
      → Extends xs (update_where p f xs)
  Extends-update_where p f [] h k = tt
  Extends-update_where p f (x ∷ xs) h k = (go (p x) refl, Extends-update_where p f xs h k)
    where
      go : (b : Bool) → p x ≡ b → R x (if b then f x else x)
      go true e = k x e
      go false e = h x
