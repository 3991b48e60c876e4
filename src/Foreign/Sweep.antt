-- ===== src/Foreign/Sweep.antt =====
-- The expiry of grin1 invoices and the sweep that cancels their wallet contexts.
use goblin_pay.Prelude.{
  ℕ, ◌≡◌, refl, ap, ◌∙◌, String, Bool, ◌&&◌, none, List, [], ◌∷◌, if◌then◌else◌, Bool-cases, inl,
  inr, keep_some, update_where, prepend, delete_where, column_eq, first, arith,
}
use goblin_pay.Store.{Invoice, Store, ok, execute-run, query-run, >>=-run}
use goblin_pay.Invoice.{is_due, due_slate, expire, expired_rows, get_by_token, due_grin1_slates}

not_due-expired :
    (now : ℕ) (inv : Invoice) → due_slate now (if is_due now inv then expire inv else inv) ≡ none
not_due-expired now inv = elim (Bool-cases (is_due now inv)) [
  | inl e ↦ rw e (ground arith)
  | inr e ↦ rw e (ground arith)
]

-- The slates due after the rows of a scope were expired are those due outside the scope.
due_outside :
    (now : ℕ) (scope : Invoice → Bool) (xs : List Invoice)
    → keep_some (due_slate now) (update_where (λ inv. scope inv && is_due now inv) expire xs)
      ≡ keep_some (due_slate now) (delete_where scope xs)
due_outside now scope [] = refl
due_outside now scope (x ∷ xs) = elim (Bool-cases (scope x)) [
  | inl e ↦ rw e (rw (not_due-expired now x, keep_some) (due_outside now scope xs))
  | inr e ↦ rw e (ap (prepend (due_slate now x)) (due_outside now scope xs))
]

-- Once the hosted page has loaded an invoice by its token, `due_grin1_slates` names exactly the due
-- slates of the other invoices: the page's lazy expiry takes the invoice off the list of those whose
-- wallet contexts the sweep cancels. No statement fails.
pub due_grin1_slates-get_by_token :
    (t : String) (s : Store)
    → s.faults ≡ []
    → (due_grin1_slates (get_by_token t s).1).0
      ≡ ok (keep_some (due_slate s.clock) (delete_where (λ inv. column_eq inv.token t) s.invoices))
unfolding get_by_token due_grin1_slates
due_grin1_slates-get_by_token t s calm =
    let scope = λ (inv : Invoice). column_eq inv.token t in
    let swept = expired_rows scope s in
    let loaded : get_by_token t s ≡ (ok (first scope swept.invoices), swept) =
      >>=-run _ _ s tt swept (execute-run (expired_rows scope) s calm)
      ∙ query-run (λ u. first scope u.invoices) swept calm in
    ap (λ x. (due_grin1_slates x.1).0) loaded
    ∙ ap (λ x. x.0) (query-run (λ u. keep_some (due_slate u.clock) u.invoices) swept calm)
    ∙ ap ok (due_outside s.clock scope s.invoices)
