-- ===== src/Record/Rejection.antt =====
-- The rejected payment: `persist_and_match` undoes its record and tells nobody.
use goblin_pay.Prelude.{
  ◌≡◌, ◌≢◌, refl, sym, subst, ap, ◌∙◌, String, true, false, Option, none, some, List, [], ◌∷◌, ◌++◌,
  any, any-false, All, delete_where, eq_iff, Bool-cases, inl, inr,
}
use goblin_pay.Store.{
  Payment, Store, Result, ok, err, Action, ◌>>=◌, pure, attempt, statement, Untouched, bind-ok,
  statement-calm, execute-calm, ok_inj, IsKept, Keeps, Keeps-execute, Keeps-attempt,
  Keeps-statement,
}
use goblin_pay.Matching.{AmountMismatch, MatchResult, match_payment}
use goblin_pay.Matching.Kept.{match_payment-NoFaults}
use goblin_pay.Matching.Outcome.{match_payment-mismatch}
use goblin_pay.Record.{
  Received, Context, matched, rejected, payment_row, has_id, insert_payment, incoming, or_default,
  notify, delete_payment, finish, persist_and_match,
}

-- All but the payments is as it was.
pub record OnlyPayments (s t : Store) : Type 0 where
  pub same_invoices : t.invoices ≡ s.invoices
  pub same_users : t.users ≡ s.users
  pub same_endpubs : t.endpubs ≡ s.endpubs
  pub same_deliveries : t.deliveries ≡ s.deliveries

OnlyPayments-trans : (s t u : Store) → OnlyPayments s t → OnlyPayments t u → OnlyPayments s u
OnlyPayments-trans s t u p q = record {
  same_invoices = q.same_invoices ∙ p.same_invoices;
  same_users = q.same_users ∙ p.same_users;
  same_endpubs = q.same_endpubs ∙ p.same_endpubs;
  same_deliveries = q.same_deliveries ∙ p.same_deliveries;
}

OnlyPayments-refl : (s : Store) → OnlyPayments s s
OnlyPayments-refl s = record {
  same_invoices = refl;
  same_users = refl;
  same_endpubs = refl;
  same_deliveries = refl;
}

pub OnlyPayments-IsKept : IsKept OnlyPayments
OnlyPayments-IsKept = record {
  reflexive = OnlyPayments-refl;
  transitive = OnlyPayments-trans;
  faultless = λ s b bs e. record {
    same_invoices = refl;
    same_users = refl;
    same_endpubs = refl;
    same_deliveries = refl;
  };
}

insert_payment-OnlyPayments : (p : Payment) (s : Store) → OnlyPayments s (insert_payment p s).1
insert_payment-OnlyPayments p s = elim (Bool-cases (any (has_id p.id) s.payments)) [
  | inl e ↦ rw e (OnlyPayments-refl s)
  | inr e ↦ rw e (record {
    same_invoices = refl;
    same_users = refl;
    same_endpubs = refl;
    same_deliveries = refl;
  })
]

pub record_step : Context → Received → Action (Result (Unit {0}))
record_step c r = attempt (statement (λ s. insert_payment (payment_row c r s.clock) s))

finish-rejected :
    (c : Context) (r : Received) (m : MatchResult) (o : Option AmountMismatch) (s : Store)
    (bad : AmountMismatch)
    → (finish c r m o s).0 ≡ ok (rejected bad)
    → (o ≡ some bad) × ((finish c r m o s).1 ≡ (delete_payment r.slate_id s).1)
unfolding finish attempt pure ◌>>=◌
finish-rejected c r m none s bad e =
    let (_, _, q) = bind-ok (notify c r m c.webhook) (λ _. pure (matched m)) s (rejected bad) e in
    absurd (cc (ok_inj q))
finish-rejected c r m (some b) s bad e = (cc (ok_inj e), refl)

abbrev recorded : Context → Received → Store → Store
recorded c r s = (record_step c r s).1

abbrev matching_run : Context → Received → Store → Result MatchResult × Store
matching_run c r s = match_payment c.default_mode (incoming c r) (recorded c r s)

-- A matching result that names a mismatch is a result, and no swallowed error.
or_default-mismatch :
    (res : Result MatchResult) (bad : AmountMismatch)
    → (or_default res).amount_mismatch ≡ some bad
    → (m : MatchResult) × (res ≡ ok m) × (m.amount_mismatch ≡ some bad)
or_default-mismatch (ok m) bad e = (m, refl, e)
or_default-mismatch (err x) bad e = absurd (cc e)

-- The course of a rejection: record, match with nothing touched, delete.
rejection_run :
    (c : Context) (r : Received) (s : Store) (bad : AmountMismatch)
    → (persist_and_match c r s).0 ≡ ok (rejected bad)
    → Untouched (recorded c r s) (matching_run c r s).1
      × ((persist_and_match c r s).1 ≡ (delete_payment r.slate_id (matching_run c r s).1).1)
      × (bad.received_nano ≡ r.amount_nano)
      × (bad.expected ≢ r.amount_nano)
unfolding persist_and_match record_step attempt ◌>>=◌
rejection_run c r s bad e =
    let res = (matching_run c r s).0 in
    let m = or_default res in
    let (is_bad, ends) = finish-rejected c r m m.amount_mismatch (matching_run c r s).1 bad e in
    let (m', is_ok, bad') = or_default-mismatch res bad is_bad in
    let (same, reported, differs) =
      match_payment-mismatch c.default_mode (incoming c r) (recorded c r s) m' bad is_ok bad' in
    (same, ends, reported, differs)

record_step-Keeps : (c : Context) (r : Received) → Keeps OnlyPayments (record_step c r)
unfolding record_step
record_step-Keeps c r = Keeps-attempt OnlyPayments-IsKept (
    Keeps-statement OnlyPayments-IsKept _
      (λ s. insert_payment-OnlyPayments (payment_row c r s.clock) s))

delete_payment-Keeps : (i : String) → Keeps OnlyPayments (delete_payment i)
unfolding delete_payment
delete_payment-Keeps i = Keeps-execute OnlyPayments-IsKept _ (λ s. record {
  same_invoices = refl;
  same_users = refl;
  same_endpubs = refl;
  same_deliveries = refl;
})

Untouched→OnlyPayments : (s t : Store) → Untouched s t → OnlyPayments s t
Untouched→OnlyPayments s t u = record {
  same_invoices = u.same_invoices;
  same_users = u.same_users;
  same_endpubs = u.same_endpubs;
  same_deliveries = u.same_deliveries;
}

-- A rejection touches nothing but the payments, whatever statements fail: no invoice is paid and no
-- webhook enqueued. It reports the amount received and a different expected amount.
pub persist_and_match-rejected :
    (c : Context) (r : Received) (s : Store) (bad : AmountMismatch)
    → (persist_and_match c r s).0 ≡ ok (rejected bad)
    → OnlyPayments s (persist_and_match c r s).1
      × (bad.received_nano ≡ r.amount_nano)
      × (bad.expected ≢ r.amount_nano)
persist_and_match-rejected c r s bad e =
    let (same, ends, reported, differs) = rejection_run c r s bad e in
    let course : OnlyPayments s _ = OnlyPayments-trans _ _ _ ((record_step-Keeps c r).kept s) (
      OnlyPayments-trans _ _ _ (Untouched→OnlyPayments _ _ same)
        ((delete_payment-Keeps r.slate_id).kept (matching_run c r s).1)) in
    (subst (OnlyPayments s) (sym ends) course, reported, differs)

recorded-row :
    (c : Context) (r : Received) (s : Store)
    → s.faults ≡ []
    → any (has_id r.slate_id) s.payments ≡ false
    → ((recorded c r s).payments ≡ s.payments ++ payment_row c r s.clock ∷ [])
      × ((recorded c r s).faults ≡ [])
unfolding record_step attempt
recorded-row c r s calm fresh =
    let e = statement-calm (λ t. insert_payment (payment_row c r t.clock) t) s calm in
    (ap (λ x. x.1.payments) e ∙ rw fresh, ap (λ x. x.1.faults) e ∙ rw fresh calm)

delete_where-append :
    (i : String) (p : Payment) (ps : List Payment)
    → All (λ x. has_id i x ≡ false) ps
    → has_id i p ≡ true
    → delete_where (has_id i) (ps ++ p ∷ []) ≡ ps
delete_where-append i p [] h e = rw e
delete_where-append i p (x ∷ xs) h e = rw (h.0, delete_where-append i p xs h.1 e)

-- Where no statement fails and the slate is new, a rejection leaves the payments as they were.
pub persist_and_match-rejected_undone :
    (c : Context) (r : Received) (s : Store) (bad : AmountMismatch)
    → s.faults ≡ []
    → any (has_id r.slate_id) s.payments ≡ false
    → (persist_and_match c r s).0 ≡ ok (rejected bad)
    → (persist_and_match c r s).1.payments ≡ s.payments
unfolding delete_payment
persist_and_match-rejected_undone c r s bad calm fresh e =
    let (same, ends, _, _) = rejection_run c r s bad e in
    let (inserted, still_calm) = recorded-row c r s calm fresh in
    let t = (matching_run c r s).1 in
    let calm' : t.faults ≡ [] =
      (match_payment-NoFaults c.default_mode (incoming c r)).kept (recorded c r s) still_calm in
    ap (λ (x : Store). x.payments) (ends ∙ execute-calm _ t calm')
    ∙ ap (delete_where (has_id r.slate_id)) (same.same_payments ∙ inserted)
    ∙ delete_where-append r.slate_id _ s.payments (any-false (has_id r.slate_id) s.payments fresh)
        ((eq_iff r.slate_id r.slate_id).1 refl)
