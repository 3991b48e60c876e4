-- ===== src/Webhook/Queue.antt =====
-- The queue of deliveries: what a pass of the dispatcher is handed.
use goblin_pay.Prelude.{
  ℕ, zero, suc, ◌≤◌, ◌<◌, ◌≡◌, subst, Bool, true, false, List, [], ◌∷◌, All, All-map, take, length,
  length-take, select, Bool-cases, leb, arith, inl, inr,
}
use goblin_pay.Store.{DeliveryRow, Store, ok, query, statement-ok, ok_inj}
use goblin_pay.Webhook.{is_due, insert_soonest, soonest_first, due}

All-insert :
    (P : DeliveryRow → Type 0) (d : DeliveryRow) (xs : List DeliveryRow)
    → P d
    → All P xs
    → All P (insert_soonest d xs)
unfolding insert_soonest
All-insert P d [] h k = (h, tt)
All-insert P d (x ∷ xs) h k = elim (Bool-cases (leb d.next_attempt_at x.next_attempt_at)) [
  | inl e ↦ rw e (h, k)
  | inr e ↦ rw e (k.0, All-insert P d xs h k.1)
]

All-soonest :
    (P : DeliveryRow → Type 0) (xs : List DeliveryRow) → All P xs → All P (soonest_first xs)
unfolding soonest_first
All-soonest P [] h = tt
All-soonest P (x ∷ xs) h = All-insert P x (soonest_first xs) h.0 (All-soonest P xs h.1)

All-take : (P : DeliveryRow → Type 0) (n : ℕ) (xs : List DeliveryRow) → All P xs → All P (take n xs)
All-take P zero xs h = tt
All-take P (suc n) [] h = tt
All-take P (suc n) (x ∷ xs) h = (h.0, All-take P n xs h.1)

select-All : (p : DeliveryRow → Bool) (xs : List DeliveryRow) → All (λ d. p d ≡ true) (select p xs)
select-All p [] = tt
select-All p (x ∷ xs) = elim (Bool-cases (p x)) [
  | inl e ↦ rw e (e, select-All p xs)
  | inr e ↦ rw e (select-All p xs)
]

-- A row that may be sent now.
pub record MayBeSent (now : ℕ) (d : DeliveryRow) : Type 0 where
  pub undelivered : d.delivered ≡ false
  pub below_ceiling : d.attempts < 12
  pub past_its_time : d.next_attempt_at ≤ now

is_due-MayBeSent : (now : ℕ) (d : DeliveryRow) → is_due now d ≡ true → MayBeSent now d
is_due-MayBeSent now d h = ground arith

due_list : ℕ → ℕ → List DeliveryRow → List DeliveryRow
due_list limit now rows = take limit (soonest_first (select (is_due now) rows))

-- A pass is handed at most `limit` deliveries, all of them undelivered, tried fewer than twelve times
-- and past their next attempt.
pub due-MayBeSent :
    (limit : ℕ) (s : Store) (ds : List DeliveryRow)
    → (due limit s).0 ≡ ok ds
    → All (MayBeSent s.clock) ds × (length ds ≤ limit)
unfolding due query
due-MayBeSent limit s ds e =
    let (bs, found, _) =
      statement-ok
        (λ t. (ok (take limit (soonest_first (select (is_due t.clock) t.deliveries))), t)) s ds e in
    let rows = select (is_due s.clock) s.deliveries in
    (
      subst (All (MayBeSent s.clock)) (ok_inj found) (
          All-take _ limit (soonest_first rows) (
            All-soonest _ rows (
              All-map _ (MayBeSent s.clock) rows (is_due-MayBeSent s.clock)
                (select-All (is_due s.clock) s.deliveries)))),
      subst (λ xs. length xs ≤ limit) (ok_inj found) (length-take limit (soonest_first rows)),
    )
