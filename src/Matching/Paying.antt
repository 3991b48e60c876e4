-- ===== src/Matching/Paying.antt =====
-- What `match_payment` does where no statement fails: it pays the oldest open invoice that the first
-- hit of the three modes names, if the amount is exact.
use goblin_pay.Prelude.{
  ℕ, ◌≡◌, refl, sym, ap, subst, ◌∙◌, String, Bool, true, false, Option, none, some, List, [], ◌∷◌,
  first, select, All, least_by-All, some_inj, update_where, str_eq, eq_iff, Bool-cases, inl, inr,
  arith,
}
use goblin_pay.Prelude.Int.{ℤ}
use goblin_pay.Store.{
  MatchMode, Invoice, Endpub, Store, ok, ◌>>=◌, ok_or, pure, execute, query, statement, query-run,
  execute-run, statement-calm, >>=-run,
}
use goblin_pay.Invoice.{is_open, open_row, pay, mark_paid, updated_invoices}
use goblin_pay.Invoice.Keys.{HasUniqueIds, by_id}
use goblin_pay.Endpub.{user_for_pubkey}
use goblin_pay.Matching.{
  IncomingPayment, oldest, fits_derived, fits_memo, fits_amount, id_of, resolve_derived,
  resolve_memo, resolve_amount, or_memo, or_amount, resolve, expected_of, mismatch_of, check_amount,
  link_rows, pay_matched, settle, conclude, match_payment,
}
use goblin_pay.Matching.Binding.{IsExact}
use mathlib.Core.Option

abbrev or_else : Option Invoice → Option Invoice → Option Invoice
or_else none o = o
or_else (some a) o = some a

abbrev by_memo : MatchMode → Option String → Store → Option Invoice
by_memo d none s = none
by_memo d (some text) s = oldest (fits_memo d text) s.invoices

-- The first hit: by the derived key, by the memo, by the amount; the oldest open row of each.
abbrev pub chosen : MatchMode → IncomingPayment → Store → Option Invoice
chosen d p s =
    or_else (oldest (fits_derived d p.recipient_hex) s.invoices)
      (or_else (by_memo d p.memo_text s) (oldest (fits_amount d p.amount_nano s.clock) s.invoices))

or_amount_run :
    (d : MatchMode) (n : ℕ) (o : Option Invoice) (s : Store)
    → s.faults ≡ []
    → or_amount d n (id_of o) s
      ≡ (ok (id_of (or_else o (oldest (fits_amount d n s.clock) s.invoices))), s)
unfolding or_amount resolve_amount pure
or_amount_run d n none s calm =
    query-run (λ t. id_of (oldest (fits_amount d n t.clock) t.invoices)) s calm
or_amount_run d n (some a) s calm = refl

or_memo_run :
    (d : MatchMode) (m : Option String) (o : Option Invoice) (s : Store)
    → s.faults ≡ []
    → or_memo d m (id_of o) s ≡ (ok (id_of (or_else o (by_memo d m s))), s)
unfolding or_memo resolve_memo pure
or_memo_run d m (some a) s calm = refl
or_memo_run d none none s calm = refl
or_memo_run d (some text) none s calm =
    query-run (λ t. id_of (oldest (fits_memo d text) t.invoices)) s calm

or_else_assoc : (a b c : Option Invoice) → or_else (or_else a b) c ≡ or_else a (or_else b c)
or_else_assoc none b c = refl
or_else_assoc (some x) b c = refl

resolve_run :
    (d : MatchMode) (p : IncomingPayment) (s : Store)
    → s.faults ≡ []
    → resolve d p s ≡ (ok (id_of (chosen d p s)), s)
unfolding resolve resolve_derived
resolve_run d p s calm =
    let by_key = oldest (fits_derived d p.recipient_hex) s.invoices in
    >>=-run (resolve_derived d p.recipient_hex) _ s (id_of by_key) s
      (query-run (λ t. id_of (oldest (fits_derived d p.recipient_hex) t.invoices)) s calm)
    ∙ >>=-run (or_memo d p.memo_text (id_of by_key)) _ s
        (id_of (or_else by_key (by_memo d p.memo_text s))) s
        (or_memo_run d p.memo_text by_key s calm)
    ∙ or_amount_run d p.amount_nano (or_else by_key (by_memo d p.memo_text s)) s calm
    ∙ ap (λ o. (ok (id_of o), s))
        (or_else_assoc by_key (by_memo d p.memo_text s)
          (oldest (fits_amount d p.amount_nano s.clock) s.invoices))

differ : (a b : String) → str_eq a b ≡ false → str_eq b a ≡ false
differ a b e = elim (Bool-cases (str_eq b a)) [
  | inl t ↦ absurd (cc (e, (eq_iff a b).1 (sym ((eq_iff b a).0 t))))
  | inr t ↦ t
]

-- What is known of each row of a table of unique ids: the lookup of its id finds it.
rows_found : (xs : List Invoice) → HasUniqueIds xs → All (λ x. first (by_id x.id) xs ≡ some x) xs
rows_found [] h = tt
rows_found (x ∷ xs) h = (rw ((eq_iff x.id x.id).1 refl) refl, later xs h.0 (rows_found xs h.1))
  where
    later :
        (ys : List Invoice)
        → All (λ y. str_eq y.id x.id ≡ false) ys
        → All (λ y. first (by_id y.id) xs ≡ some y) ys
        → All (λ y. first (by_id y.id) (x ∷ xs) ≡ some y) ys
    later [] h k = tt
    later (y ∷ ys) h k = (rw (differ y.id x.id h.0) k.0, later ys h.1 k.1)

oldest-All :
    (P : Invoice → Type 0) (q : Invoice → Bool) (xs : List Invoice) (a : Invoice)
    → All P xs
    → oldest q xs ≡ some a
    → P a × (q a ≡ true)
oldest-All P q xs a h e = least_by-All (λ x. P x × (q x ≡ true)) _ (select q xs) a (tested xs h) e
  where
    tested : (ys : List Invoice) → All P ys → All (λ x. P x × (q x ≡ true)) (select q ys)
    tested [] k = tt
    tested (y ∷ ys) k = elim (Bool-cases (q y)) [
      | inl t ↦ rw t ((k.0, t), tested ys k.1)
      | inr t ↦ rw t (tested ys k.1)
    ]

or_else-elim :
    (P : Invoice → Type 0) (o o' : Option Invoice)
    → ((a : Invoice) → o ≡ some a → P a)
    → ((a : Invoice) → o' ≡ some a → P a)
    → (a : Invoice) → or_else o o' ≡ some a
    → P a
or_else-elim P none o' f g a e = g a e
or_else-elim P (some b) o' f g a e = f a e

chosen_row :
    (d : MatchMode) (p : IncomingPayment) (s : Store) (inv : Invoice)
    → HasUniqueIds s.invoices
    → chosen d p s ≡ some inv
    → (first (by_id inv.id) s.invoices ≡ some inv) × (is_open inv ≡ true)
chosen_row d p s inv h e =
    let rows = rows_found s.invoices h in
    or_else-elim IsFound _ _
      (λ a q. found (fits_derived d p.recipient_hex) a rows q (λ t. ground arith))
      (λ a q.
        or_else-elim IsFound (by_memo d p.memo_text s) _ (λ b r. memo_row p.memo_text b rows r)
          (λ b r. found (fits_amount d p.amount_nano s.clock) b rows r (λ t. ground arith)) a q)
      inv e
  where
    IsFound : Invoice → Type 0
    IsFound a = (first (by_id a.id) s.invoices ≡ some a) × (is_open a ≡ true)

    found :
        (q : Invoice → Bool) (a : Invoice)
        → All (λ x. first (by_id x.id) s.invoices ≡ some x) s.invoices
        → oldest q s.invoices ≡ some a
        → (q a ≡ true → is_open a ≡ true)
        → IsFound a
    found q a rows e opens =
        let (row, fits) =
          oldest-All (λ x. first (by_id x.id) s.invoices ≡ some x) q s.invoices a rows e in
        (row, opens fits)

    memo_row :
        (m : Option String) (a : Invoice)
        → All (λ x. first (by_id x.id) s.invoices ≡ some x) s.invoices
        → by_memo d m s ≡ some a
        → IsFound a
    memo_row none a rows e = absurd (cc e)
    memo_row (some text) a rows e = found (fits_memo d text) a rows e (λ t. ground arith)

expected_run :
    (i : String) (inv : Invoice) (s : Store)
    → s.faults ≡ []
    → first (by_id i) s.invoices ≡ some inv
    → expected_of i s ≡ (ok inv.expected_amount, s)
unfolding expected_of ok_or pure ◌>>=◌
expected_run i inv s calm f =
    >>=-run (query (λ t. first (by_id i) t.invoices)) _ s (some inv) s
      (query-run (λ t. first (by_id i) t.invoices) s calm ∙ ap (λ o. (ok o, s)) f)

exact_amount : (nano : ℕ) (o : Option ℤ) → IsExact nano o → mismatch_of nano o ≡ none
exact_amount nano none e = refl
exact_amount nano (some z) e = ground arith

check_run :
    (nano : ℕ) (inv : Invoice) (s : Store)
    → s.faults ≡ []
    → first (by_id inv.id) s.invoices ≡ some inv
    → IsExact nano inv.expected_amount
    → check_amount nano (some inv.id) s ≡ (ok none, s)
unfolding check_amount pure
check_run nano inv s calm f e =
    >>=-run (expected_of inv.id) _ s inv.expected_amount s (expected_run inv.id inv s calm f)
    ∙ ap (λ o. (ok o, s)) (exact_amount nano inv.expected_amount e)

abbrev paid_store : String → String → Store → Store
paid_store i slate s = (updated_invoices (λ now. open_row i) (pay slate) s).1

settle_run :
    (p : IncomingPayment) (i : String) (u : Option String) (s : Store)
    → s.faults ≡ []
    → settle p (some i) u s ≡ (
      ok (record { invoice_id = some i; user_id = u; amount_mismatch = none }),
      link_rows p.slate_id (some i) u (paid_store i p.slate_id s),
    )
unfolding settle pay_matched mark_paid pure
settle_run p i u s calm =
    >>=-run (statement (updated_invoices (λ now. open_row i) (pay p.slate_id))) _ s _
      (paid_store i p.slate_id s)
      (statement-calm (updated_invoices (λ now. open_row i) (pay p.slate_id)) s calm)
    ∙ >>=-run (execute (link_rows p.slate_id (some i) u)) _ (paid_store i p.slate_id s) tt
        (link_rows p.slate_id (some i) u (paid_store i p.slate_id s))
        (execute-run (link_rows p.slate_id (some i) u) (paid_store i p.slate_id s) calm)

abbrev credited : IncomingPayment → Store → Option (String × ℕ)
credited p s =
    Option.map (λ (a : Endpub). (a.user_id, a.epoch))
      (first (λ (a : Endpub). str_eq a.pubkey p.recipient_hex) s.endpubs)

-- The row that was found is open, so the update reaches it.
pay-found :
    (i slate : String) (now : ℕ) (inv : Invoice) (xs : List Invoice)
    → first (by_id i) xs ≡ some inv
    → is_open inv ≡ true
    → first (by_id i) (update_where (open_row i) (pay slate now) xs) ≡ some (pay slate now inv)
pay-found i slate now inv [] f o = absurd (cc f)
pay-found i slate now inv (x ∷ xs) f o = elim (Bool-cases (by_id i x)) [
  | inl t ↦
      let same : x ≡ inv = some_inj (rw t at f) in
      let opened : is_open x ≡ true = subst (λ y. is_open y ≡ true) (sym same) o in
      let q : open_row i x ≡ true = rw t opened in
      rw q (rw t (ap (λ y. some (pay slate now y)) same))
  | inr t ↦
      let q : open_row i x ≡ false = rw t refl in
      rw q (rw t (pay-found i slate now inv xs (rw t at f) o))
]

-- Where no statement fails and the ids of the invoices are unique, a payment of exactly what the
-- chosen invoice asks for (or of any amount, if it asks for none) is matched to it: the result names
-- it and the payee of the key, and its row is paid by this payment now. The invoice chosen is the
-- oldest open one of the first mode that has a hit: the derived key, the memo, the amount.
pub match_payment-pays :
    (d : MatchMode) (p : IncomingPayment) (s : Store) (inv : Invoice)
    → s.faults ≡ []
    → HasUniqueIds s.invoices
    → chosen d p s ≡ some inv
    → IsExact p.amount_nano inv.expected_amount
    → ((match_payment d p s).0
        ≡ ok (record {
          invoice_id = some inv.id;
          user_id = Option.map (λ (c : String × ℕ). c.0) (credited p s);
          amount_mismatch = none;
        }))
      × (first (by_id inv.id) (match_payment d p s).1.invoices ≡ some (pay p.slate_id s.clock inv))
unfolding match_payment user_for_pubkey conclude
match_payment-pays d p s inv calm unique hit exact =
    let (found, opened) = chosen_row d p s inv unique hit in
    let u = Option.map (λ (c : String × ℕ). c.0) (credited p s) in
    let run =
      >>=-run (user_for_pubkey p.recipient_hex) _ s (credited p s) s
        (query-run (λ t. credited p t) s calm)
      ∙ >>=-run (resolve d p) _ s (some inv.id) s
          (resolve_run d p s calm ∙ ap (λ o. (ok (id_of o), s)) hit)
      ∙ >>=-run (check_amount p.amount_nano (some inv.id)) _ s none s
          (check_run p.amount_nano inv s calm found exact)
      ∙ settle_run p inv.id u s calm in
    (
      ap (λ r. r.0) run,
      ap (λ r. first (by_id inv.id) r.1.invoices) run
          ∙ pay-found inv.id p.slate_id s.clock inv s.invoices found opened,
    )
