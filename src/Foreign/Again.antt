-- ===== src/Foreign/Again.antt =====
-- A settlement that is replayed (crates/gp-server/src/foreign.rs, settle_finalized).
use goblin_pay.Prelude.{
  ℕ, ◌≡◌, refl, sym, ap, ◌∙◌, String, Bool, true, false, inl, inr, Option, none, some, List, [],
  ◌∷◌, ◌++◌, Bool-cases, Option-cases, any, any-false, first, update_where, update_where-none,
  str_eq, eq_iff, column_eq,
}
use goblin_pay.Store.{Invoice, Payment, Store, ok, Action, ◌>>=◌, attempt, monad}
use goblin_pay.Invoice.{open_row, pay, mark_paid, get_by_slate_id}
use goblin_pay.Webhook.{is_delivery, received_payload, enqueue}
use goblin_pay.Record.{has_id}
use goblin_pay.Foreign.{
  FinalizedInvoice, Notice, finalized_row, notify_settled, after_paid, settle_found,
  settle_finalized,
}

-- A store in which no statement to come fails.
abbrev pub calm : Store → Store
calm s = record s { faults = [] }

of_slate : String → Invoice → Bool
of_slate slate inv = column_eq inv.slate_id slate

-- A settled slate: its invoice is there and no longer open, and its payment is recorded.
record IsSettled (slate : String) (u : Store) : Type 0 where
  found : Invoice
  is_first : first (of_slate slate) u.invoices ≡ some found
  is_recorded : any (has_id slate) u.payments ≡ true
  is_closed : any (open_row found.id) u.invoices ≡ false

replay_settled :
    (n : Notice) (f : FinalizedInvoice) (u : Store)
    → IsSettled f.slate_id u
    → settle_finalized n f (calm u) ≡ (ok tt, calm u)
unfolding settle_finalized settle_found after_paid get_by_slate_id mark_paid monad of_slate
replay_settled n f u h = rw h.is_first (
    rw h.is_recorded (
      rw h.is_closed (
        rw
          (update_where-none (open_row h.found.id) (pay f.slate_id u.clock) u.invoices
            (any-false _ u.invoices h.is_closed))
          refl)))

module _ (i p : String) (now : ℕ) where
  paid_rows : List Invoice → List Invoice
  paid_rows rows = update_where (open_row i) (pay p now) rows

  paid_row_closed : (x : Invoice) → open_row i (pay p now x) ≡ false
  paid_row_closed x = elim (Bool-cases (str_eq x.id i)) [ inl e ↦ rw e refl | inr e ↦ rw e refl ]

  paid_rows_closed : (rows : List Invoice) → any (open_row i) (paid_rows rows) ≡ false
  unfolding paid_rows
  paid_rows_closed [] = refl
  paid_rows_closed (x ∷ xs) = elim (Bool-cases (open_row i x)) [
    | inl e ↦ rw e (rw (paid_row_closed x) (paid_rows_closed xs))
    | inr e ↦ rw e (rw e (paid_rows_closed xs))
  ]

  first_paid :
      (slate : String) (rows : List Invoice) (inv : Invoice)
      → first (of_slate slate) rows ≡ some inv
      → (x : Invoice) × (first (of_slate slate) (paid_rows rows) ≡ some x) × (x.id ≡ inv.id)
  unfolding paid_rows of_slate
  first_paid slate [] inv h = absurd (cc h)
  first_paid slate (x ∷ xs) inv h = elim (Bool-cases (column_eq x.slate_id slate)) [
    | inl e ↦
        let same : x ≡ inv = cc (rw e at h) in
        elim (Bool-cases (open_row i x)) [
          | inl t ↦ (pay p now x, rw t (rw e refl), ap (λ (y : Invoice). y.id) same)
          | inr t ↦ (x, rw t (rw e refl), ap (λ (y : Invoice). y.id) same)
        ]
    | inr e ↦
        let (y, found, same) = first_paid slate xs inv (rw e at h) in
        elim (Bool-cases (open_row i x)) [
          | inl t ↦ (y, rw t (rw e found), same)
          | inr t ↦ (y, rw t (rw e found), same)
        ]
  ]

any_last :
    (i : String) (p : Payment) (ps : List Payment)
    → has_id i p ≡ true
    → any (has_id i) (ps ++ p ∷ []) ≡ true
any_last i p [] h = rw h refl
any_last i p (x ∷ xs) h = elim (Bool-cases (has_id i x)) [
  | inl e ↦ rw e refl
  | inr e ↦ rw e (any_last i p xs h)
]

-- Telling the store about a settled invoice changes only the deliveries.
record SameRows (s t : Store) : Type 0 where
  same_invoices : t.invoices ≡ s.invoices
  same_payments : t.payments ≡ s.payments
  still_calm : t.faults ≡ s.faults

notify_same :
    (n : Notice) (inv : Invoice) (f : FinalizedInvoice) (w : Option (String × String)) (s : Store)
    → SameRows (calm s) (notify_settled n inv f w (calm s)).1
unfolding notify_settled enqueue monad received_payload
notify_same n inv f none s = record {
  same_invoices = refl;
  same_payments = refl;
  still_calm = refl;
}
notify_same n inv f (some w) s = elim (Bool-cases (any (is_delivery n.event_id) s.deliveries)) [
  | inl e ↦ rw e (record { same_invoices = refl; same_payments = refl; still_calm = refl })
  | inr e ↦ rw e (record { same_invoices = refl; same_payments = refl; still_calm = refl })
]

IsSettled-SameRows :
    (slate : String) (s t : Store) → SameRows s t → IsSettled slate s → IsSettled slate t
IsSettled-SameRows slate s t r h = record {
  found = h.found;
  is_first = ap (first (of_slate slate)) r.same_invoices ∙ h.is_first;
  is_recorded = ap (any (has_id slate)) r.same_payments ∙ h.is_recorded;
  is_closed = ap (any (open_row h.found.id)) r.same_invoices ∙ h.is_closed;
}

-- Marking the invoice paid and telling the store, from a recorded payment.
pay_and_tell : Notice → Invoice → FinalizedInvoice → Action (Unit {0})
pay_and_tell n inv f = attempt (mark_paid inv.id f.slate_id) >>= after_paid n inv f

pay_and_tell-IsSettled :
    (n : Notice) (inv : Invoice) (f : FinalizedInvoice) (s : Store)
    → first (of_slate f.slate_id) s.invoices ≡ some inv
    → any (has_id f.slate_id) s.payments ≡ true
    → IsSettled f.slate_id (pay_and_tell n inv f (calm s)).1
      × ((pay_and_tell n inv f (calm s)).1.faults ≡ [])
unfolding pay_and_tell mark_paid after_paid monad paid_rows
pay_and_tell-IsSettled n inv f s h k =
    let (x, found, same) = first_paid inv.id f.slate_id s.clock f.slate_id s.invoices inv h in
    let paid : Store =
      calm (record s { invoices = paid_rows inv.id f.slate_id s.clock s.invoices }) in
    let settled : IsSettled f.slate_id paid = record {
      found = x;
      is_first = found;
      is_recorded = k;
      is_closed =
          ap (λ j. any (open_row j) paid.invoices) same
          ∙ paid_rows_closed inv.id f.slate_id s.clock s.invoices;
    } in
    let told : SameRows paid (notify_settled n inv f n.webhook paid).1 =
      notify_same n inv f n.webhook
        (record s { invoices = paid_rows inv.id f.slate_id s.clock s.invoices }) in
    elim (Bool-cases (any (open_row inv.id) s.invoices)) [
      | inl e ↦ rw e (IsSettled-SameRows f.slate_id paid _ told settled, told.still_calm)
      | inr e ↦ rw e (settled, refl)
    ]

found-IsSettled :
    (n : Notice) (inv : Invoice) (f : FinalizedInvoice) (s : Store)
    → first (of_slate f.slate_id) s.invoices ≡ some inv
    → IsSettled f.slate_id (settle_found n f (ok (some inv)) (calm s)).1
      × ((settle_found n f (ok (some inv)) (calm s)).1.faults ≡ [])
unfolding settle_found pay_and_tell monad
found-IsSettled n inv f s h = elim (Bool-cases (any (has_id f.slate_id) s.payments)) [
  | inl e ↦ rw e (pay_and_tell-IsSettled n inv f s h e)
  | inr e ↦ rw e (
      pay_and_tell-IsSettled n inv f
        (record s { payments = s.payments ++ finalized_row inv f s.clock ∷ [] }) h
        (any_last f.slate_id (finalized_row inv f s.clock) s.payments
          ((eq_iff f.slate_id f.slate_id).1 refl)))
]

calm_same : (u : Store) → u.faults ≡ [] → calm u ≡ u
calm_same u e = ap (λ bs. record u { faults = bs }) (sym e)

settle_none :
    (n : Notice) (f : FinalizedInvoice) (s : Store)
    → first (of_slate f.slate_id) s.invoices ≡ none
    → (settle_finalized n f (calm s)).1 ≡ calm s
unfolding settle_finalized settle_found get_by_slate_id monad of_slate
settle_none n f s e = rw e refl

settle_some :
    (n : Notice) (f : FinalizedInvoice) (s : Store) (inv : Invoice)
    → first (of_slate f.slate_id) s.invoices ≡ some inv
    → (settle_finalized n f (calm s)).1 ≡ (settle_found n f (ok (some inv)) (calm s)).1
unfolding settle_finalized get_by_slate_id monad of_slate
settle_some n f s inv e = rw e refl

replayed :
    (again : Notice) (f : FinalizedInvoice) (u : Store)
    → IsSettled f.slate_id u
    → u.faults ≡ []
    → (settle_finalized again f u).1 ≡ u
replayed again f u h e =
    ap (λ t. (settle_finalized again f t).1) (sym (calm_same u e))
    ∙ ap (λ x. x.1) (replay_settled again f u h)
    ∙ calm_same u e

-- Settling is idempotent: where no statement fails, a second settlement of the same slate, under
-- whatever event id, changes nothing. There is no second payment row, no second change of the
-- invoice and no second webhook.
pub settle_finalized-again :
    (n again : Notice) (f : FinalizedInvoice) (s : Store)
    → (settle_finalized again f (settle_finalized n f (calm s)).1).1
      ≡ (settle_finalized n f (calm s)).1
settle_finalized-again n again f s = elim (Option-cases (first (of_slate f.slate_id) s.invoices)) [
  | inl e ↦
      ap (λ t. (settle_finalized again f t).1) (settle_none n f s e)
      ∙ settle_none again f s e
      ∙ sym (settle_none n f s e)
  | inr (inv, e) ↦
      let (settled, quiet) = found-IsSettled n inv f s e in
      ap (λ t. (settle_finalized again f t).1) (settle_some n f s inv e)
      ∙ replayed again f (settle_found n f (ok (some inv)) (calm s)).1 settled quiet
      ∙ sym (settle_some n f s inv e)
]
