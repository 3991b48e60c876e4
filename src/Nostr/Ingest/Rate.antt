-- ===== src/Nostr/Ingest/Rate.antt =====
-- The sliding window of `allow_sender` (crates/gp-nostr/src/ingest.rs): what one sender gets through
-- in an hour, whatever the others do.
use goblin_pay.Prelude.{
  ℕ, suc, ◌+◌, ◌-◌, ◌≤◌, ◌<◌, ◌≡◌, refl, sym, subst, ap, String, Bool, true, false, ◌&&◌, List, [],
  ◌∷◌, ◌++◌, if◌then◌else◌, ltb, leb, length, select, any, count_where, All, str_eq, eq_iff,
  Bool-cases, inl, inr, ◌⊎◌, arith,
}
use goblin_pay.Nostr.Ingest.{
  rate_per_sender_per_hour, rate_map_cap, RateMap, hits_of, set_hits, within, recent, prune,
  allow_sender,
}

-- The hits from a second on.
abbrev pub since : ℕ → List ℕ → ℕ
since t = count_where (leb t)

since-recent :
    (t now : ℕ) (hs : List ℕ) → now < t + 3600 → since t (recent now 3600 hs) ≡ since t hs
since-recent t now [] h = refl
since-recent t now (x ∷ hs) h = ground (arith, since-recent t now hs h)

since-length : (t : ℕ) (hs : List ℕ) → since t hs ≤ length hs
since-length t [] = omega arith
since-length t (x ∷ hs) = ground (arith, since-length t hs)

since-append : (t now : ℕ) (hs : List ℕ) → t ≤ now → since t (hs ++ now ∷ []) ≡ since t hs + 1
since-append t now [] h = ground arith
since-append t now (x ∷ hs) h = ground (arith, since-append t now hs h)

since_stale :
    (t now : ℕ) (hs : List ℕ) → now < t + 3600 → any (within now 3600) hs ≡ false → since t hs ≡ 0
since_stale t now [] h e = refl
since_stale t now (x ∷ hs) h e = elim (Bool-cases (within now 3600 x)) [
  | inl w ↦ absurd (cc (rw w at e))
  | inr w ↦ ground (arith, since_stale t now hs h (rw w at e))
]

hits_of-set_hits : (k : String) (hs : List ℕ) (m : RateMap) → hits_of k (set_hits k hs m) ≡ hs
hits_of-set_hits k hs [] = rw ((eq_iff k k).1 refl) refl
hits_of-set_hits k hs ((j, gs) ∷ m) = elim (Bool-cases (str_eq j k)) [
  | inl e ↦ rw e (rw e refl)
  | inr e ↦ rw e (rw e (hits_of-set_hits k hs m))
]

hits_of_other :
    (j k : String) (hs : List ℕ) (m : RateMap)
    → str_eq j k ≡ false
    → hits_of k (set_hits j hs m) ≡ hits_of k m
hits_of_other j k hs [] e = rw e refl
hits_of_other j k hs ((i, gs) ∷ m) e = elim (Bool-cases (str_eq i j)) [
  | inl q ↦
      let n : str_eq i k ≡ false = subst (λ x. str_eq x k ≡ false) (sym ((eq_iff i j).0 q)) e in
      rw q (rw n refl)
  | inr q ↦ rw q (elim (Bool-cases (str_eq i k)) [
    | inl p ↦ rw p refl
    | inr p ↦ rw p (hits_of_other j k hs m e)
  ])
]

-- Pruning forgets no hit of the window.
since-select :
    (t now : ℕ) (k : String) (m : RateMap)
    → now < t + 3600
    → since t (hits_of k m) ≤ since t (hits_of k (select (λ e. any (within now 3600) e.1) m))
since-select t now k [] h = omega arith
since-select t now k ((j, hs) ∷ m) h = elim (Bool-cases (str_eq j k)) [
  | inl e ↦ elim (Bool-cases (any (within now 3600) hs)) [
    | inl a ↦ rw e (rw a (rw e (omega arith)))
    | inr a ↦ rw e (rw a (rw (since_stale t now hs h a) (omega arith)))
  ]
  | inr e ↦ elim (Bool-cases (any (within now 3600) hs)) [
    | inl a ↦ rw e (rw a (rw e (since-select t now k m h)))
    | inr a ↦ rw e (rw a (since-select t now k m h))
  ]
]

since-prune :
    (t now : ℕ) (k : String) (m : RateMap)
    → now < t + 3600
    → since t (hits_of k m) ≤ since t (hits_of k (prune now m))
since-prune t now k m h = elim (Bool-cases (ltb rate_map_cap (length m))) [
  | inl e ↦ rw e (since-select t now k m h)
  | inr e ↦ rw e (omega arith)
]

-- What a call of the limiter does to the hits of the window, for its own sender.
abbrev pub Counts : ℕ → String → RateMap → Bool × RateMap → Type 0
Counts t k m (allowed, new) =
    ((allowed ≡ true)
      × (since t (hits_of k m) < 10)
      × (since t (hits_of k m) + 1 ≤ since t (hits_of k new)))
    ⊎ ((allowed ≡ false) × (since t (hits_of k m) ≤ since t (hits_of k new)))

allow_sender-Counts :
    (t now : ℕ) (k : String) (m : RateMap)
    → t ≤ now
    → now < t + 3600
    → Counts t k m (allow_sender now k m)
unfolding allow_sender
allow_sender-Counts t now k m lo hi =
    let hs = recent now 3600 (hits_of k m) in
    let kept = since-recent t now (hits_of k m) hi in
    elim (Bool-cases (leb rate_per_sender_per_hour (length hs))) [
      | inl e ↦ inr (rw e (refl, rw (hits_of-set_hits k hs m) (omega (arith, kept))))
      | inr e ↦
          let pruned = since-prune t now k (set_hits k (hs ++ now ∷ []) m) hi in
          let added = since-append t now hs lo in
          let stored = ap (since t) (hits_of-set_hits k (hs ++ now ∷ []) m) in
          inl (
            rw e (
              refl,
              ground (arith, kept, since-length t hs),
              omega (arith, kept, added, stored, pruned),
            ))
    ]

allow_sender_other :
    (t now : ℕ) (j k : String) (m : RateMap)
    → now < t + 3600
    → str_eq j k ≡ false
    → since t (hits_of k m) ≤ since t (hits_of k (allow_sender now j m).1)
unfolding allow_sender
allow_sender_other t now j k m hi n =
    let hs = recent now 3600 (hits_of j m) in
    elim (Bool-cases (leb rate_per_sender_per_hour (length hs))) [
      | inl e ↦ rw e (rw (hits_of_other j k hs m n) (omega arith))
      | inr e ↦
          let pruned = since-prune t now k (set_hits j (hs ++ now ∷ []) m) hi in
          let stored = ap (since t) (hits_of_other j k (hs ++ now ∷ []) m n) in
          rw e (omega (arith, stored, pruned))
    ]

-- How many of a sequence of calls, each with its second and its sender, let a sender through.
unfoldable pub accepted : String → List (ℕ × String) → RateMap → ℕ
accepted k [] m = 0
accepted k ((now, j) ∷ cs) m =
    let rest = accepted k cs (allow_sender now j m).1 in
    if str_eq j k && (allow_sender now j m).0 then suc rest else rest

abbrev pub InHour : ℕ → ℕ × String → Type 0
InHour t c = (t ≤ c.0) × (c.0 < t + 3600)

accepted-room :
    (t : ℕ) (k : String) (cs : List (ℕ × String)) (m : RateMap)
    → All (InHour t) cs
    → accepted k cs m ≤ 10 - since t (hits_of k m)
unfolding accepted
accepted-room t k [] m h = omega arith
accepted-room t k ((now, j) ∷ cs) m h = elim (Bool-cases (str_eq j k)) [
  | inl e ↦
      let same = (eq_iff j k).0 e in
      let rest = accepted-room t k cs (allow_sender now j m).1 h.1 in
      let own : Counts t k m (allow_sender now j m) =
        subst (λ x. Counts t k m (allow_sender now x m)) (sym same)
          (allow_sender-Counts t now k m h.0.0 h.0.1) in
      elim own [
        | inl a ↦ rw e (rw a.0 (omega (arith, a.1, a.2, rest)))
        | inr a ↦ rw e (rw a.0 (omega (arith, a.1, rest)))
      ]
  | inr e ↦
      let rest = accepted-room t k cs (allow_sender now j m).1 h.1 in
      rw e (omega (arith, rest, allow_sender_other t now j k m h.0.1 e))
]

-- In any hour at most ten messages of one sender are let through, whatever other senders do in
-- between and whatever the limiter remembers from before.
pub accepted-bound :
    (t : ℕ) (k : String) (cs : List (ℕ × String)) (m : RateMap)
    → All (InHour t) cs
    → accepted k cs m ≤ rate_per_sender_per_hour
accepted-bound t k cs m h = omega (arith, accepted-room t k cs m h)
