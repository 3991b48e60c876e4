-- ===== src/Matching/Binding.antt =====
-- The amount binding of `match_payment`: an invoice is paid only by exactly what it asks for.
use goblin_pay.Prelude.{
  ℕ, ◌≡◌, ◌⊎◌, inl, inr, refl, sym, ap, subst, ◌∙◌, String, Bool, true, false, Option, none, some,
  List, [], ◌∷◌, first, All, All-map, Zip, Zip-refl, Zip-update_where, &&-true, arith,
}
use goblin_pay.Prelude.Int.{ℤ, clamp_u64}
use goblin_pay.Store.{
  MatchMode, Invoice, Store, ok, ◌>>=◌, Keeps, Keeps-bind, Keeps-execute, Keeps-pure, SameInvoices,
  SameInvoices-IsKept, bind_post, bind-ok, statement-ok, row_not_found, ok_or, pure, ok_inj,
  execute, query, statement, with_faults,
}
use goblin_pay.Invoice.{is_open, open_row, pay, mark_paid, updated_invoices}
use goblin_pay.Invoice.Keys.{HasUniqueIds, by_id, first_unique}
use goblin_pay.Endpub.{user_for_pubkey}
use goblin_pay.Matching.Reads.{resolve-Keeps, user_for_pubkey-Keeps, check_amount-Keeps}
use goblin_pay.Matching.{
  IncomingPayment, AmountMismatch, MatchResult, resolve, expected_of, mismatch_of, check_amount,
  link_rows, pay_matched, settle, conclude, match_payment,
}

-- The amount is what the invoice asks for; an open-amount invoice asks for nothing.
abbrev pub IsExact : ℕ → Option ℤ → Type 0
IsExact nano none = Unit
IsExact nano (some z) = nano ≡ clamp_u64 z

mismatch_of-none : (nano : ℕ) (o : Option ℤ) → mismatch_of nano o ≡ none → IsExact nano o
mismatch_of-none nano none e = tt
mismatch_of-none nano (some z) e = ground arith

-- What `expected_of` reads is the expected amount of a row with the id.
expected_of-ok :
    (i : String) (s : Store) (o : Option ℤ)
    → (expected_of i s).0 ≡ ok o
    → (inv : Invoice) × (first (by_id i) s.invoices ≡ some inv) × (inv.expected_amount ≡ o)
unfolding expected_of query ok_or pure ◌>>=◌
expected_of-ok i s o e =
    let (row, read, rest) = bind-ok (query (λ t. first (by_id i) t.invoices)) _ s o e in
    let (bs, found, _) = statement-ok (λ t. (ok (first (by_id i) t.invoices), t)) s row read in
    go row (ok_inj found) (query (λ t. first (by_id i) t.invoices) s).1 rest
  where
    go :
        (row : Option Invoice)
        → first (by_id i) s.invoices ≡ row
        → (t : Store) → ((ok_or row row_not_found >>= (λ inv. pure inv.expected_amount)) t).0 ≡ ok o
        → (inv : Invoice) × (first (by_id i) s.invoices ≡ some inv) × (inv.expected_amount ≡ o)
    go none f t q = absurd (cc q)
    go (some inv) f t q = (inv, f, ok_inj q)

check_amount-IsExact :
    (n : ℕ) (i : String) (s : Store)
    → HasUniqueIds s.invoices
    → (check_amount n (some i) s).0 ≡ ok none
    → All (λ x. by_id i x ≡ true → IsExact n x.expected_amount) s.invoices
unfolding check_amount pure
check_amount-IsExact n i s u e =
    let (o, read, rest) = bind-ok (expected_of i) (λ z. pure (mismatch_of n z)) s none e in
    let (inv, found, amount) = expected_of-ok i s o read in
    All-map (λ x. by_id i x ≡ true → x ≡ inv) _ s.invoices
      (λ x h q.
        subst (λ y. IsExact n y.expected_amount) (sym (h q))
          (subst (IsExact n) (sym amount) (mismatch_of-none n o (ok_inj rest))))
      (first_unique i s.invoices inv u found)

-- What one payment does to a row: nothing, or it pays an open row that asks for just this amount.
abbrev pub Bound : IncomingPayment → Invoice → Invoice → Type 0
Bound p x y =
    (y ≡ x)
    ⊎ ((now : ℕ) × (is_open x ≡ true)
        × IsExact p.amount_nano x.expected_amount
        × (y ≡ pay p.slate_id now x))

abbrev BoundStores : IncomingPayment → Store → Store → Type 0
BoundStores p s t = Zip (Bound p) s.invoices t.invoices

pay-Bound :
    (p : IncomingPayment) (i : String) (s : Store)
    → All (λ x. by_id i x ≡ true → IsExact p.amount_nano x.expected_amount) s.invoices
    → BoundStores p s (mark_paid i p.slate_id s).1
unfolding mark_paid statement
pay-Bound p i s h = go s.faults
  where
    changed :
        Zip
          (Bound p)
          s.invoices
          (updated_invoices (λ now. open_row i) (pay p.slate_id) s).1.invoices
    changed =
        Zip-update_where (Bound p) (open_row i) (pay p.slate_id s.clock) s.invoices
          (λ x _. inl refl)
          (All-map (λ x. by_id i x ≡ true → IsExact p.amount_nano x.expected_amount) _ s.invoices
            (λ x k q.
              inr (s.clock, (&&-true (by_id i x) _ q).1, k (&&-true (by_id i x) _ q).0, refl))
            h)

    go :
        (bs : List Bool)
        → BoundStores p s
            (with_faults bs (updated_invoices (λ now. open_row i) (pay p.slate_id)) s).1
    go [] = changed
    go (true ∷ bs) = Zip-refl (Bound p) (λ x. inl refl) s.invoices
    go (false ∷ bs) = changed

settle-Bound :
    (p : IncomingPayment) (i u : Option String) (s : Store)
    → (((j : String)
        → i ≡ some j
        → All (λ x. by_id j x ≡ true → IsExact p.amount_nano x.expected_amount) s.invoices))
    → BoundStores p s (settle p i u s).1
unfolding settle pay_matched pure
settle-Bound p i u s h =
    bind_post (λ r. BoundStores p s r.1) (pay_matched i p.slate_id) _ s
      (λ paid _.
        subst (Zip (Bound p) s.invoices) (sym (rest.kept (pay_matched i p.slate_id s).1))
          (first_step i h))
      (λ e _. first_step i h)
  where
    rest : Keeps SameInvoices {A = MatchResult} (
        execute (link_rows p.slate_id i u)
        >>= (λ _. pure (record { invoice_id = i; user_id = u; amount_mismatch = none })))
    rest =
        Keeps-bind SameInvoices-IsKept (Keeps-execute SameInvoices-IsKept _ (λ t. refl))
          (λ _. Keeps-pure SameInvoices-IsKept _)

    first_step :
        (o : Option String)
        → ((j : String)
            → o ≡ some j
            → All (λ x. by_id j x ≡ true → IsExact p.amount_nano x.expected_amount) s.invoices)
        → BoundStores p s (pay_matched o p.slate_id s).1
    first_step none k = Zip-refl (Bound p) (λ x. inl refl) s.invoices
    first_step (some j) k = pay-Bound p j s (k j refl)

conclude-Bound :
    (p : IncomingPayment) (i u : Option String) (s : Store) (o : Option AmountMismatch)
    → ((j : String)
        → o ≡ none
        → i ≡ some j
        → All (λ x. by_id j x ≡ true → IsExact p.amount_nano x.expected_amount) s.invoices)
    → BoundStores p s (conclude p i u o s).1
unfolding conclude pure
conclude-Bound p i u s none h = settle-Bound p i u s (λ j. h j refl)
conclude-Bound p i u s (some bad) h = Zip-refl (Bound p) (λ x. inl refl) s.invoices

-- Whatever statements fail, `match_payment` leaves every invoice row as it was, but for open rows
-- that ask for exactly the amount received (or for no amount), which it marks paid by this payment.
-- The ids of the invoices are unique.
pub match_payment-Bound :
    (d : MatchMode) (p : IncomingPayment) (s : Store)
    → HasUniqueIds s.invoices
    → Zip (Bound p) s.invoices (match_payment d p s).1.invoices
unfolding match_payment
match_payment-Bound d p s u =
    bind_post (λ r. BoundStores p s r.1) (user_for_pubkey p.recipient_hex) _ s
      (λ credited _.
        bind_post (λ r. BoundStores p s r.1) (resolve d p) _ (s₁)
          (λ i _.
            bind_post (λ r. BoundStores p s r.1) (check_amount p.amount_nano i) _ (s₂)
              (λ bad checked. back (s₃ i) (same₃ i) _ (
                conclude-Bound p i _ (s₃ i) bad (λ j none_bad some_j.
                  subst (All (λ x. by_id j x ≡ true → IsExact p.amount_nano x.expected_amount))
                    (sym (same i))
                    (check_amount-IsExact p.amount_nano j s₂ (subst HasUniqueIds (sym same₂) u) (
                      subst (λ o. (check_amount p.amount_nano o s₂).0 ≡ ok none) some_j
                        (checked ∙ ap ok none_bad))))))
              (λ e _. unchanged (s₃ i) (same₃ i)))
          (λ e _. unchanged s₂ same₂))
      (λ e _. unchanged s₁ same₁)
  where
    s₁ : Store
    s₁ = (user_for_pubkey p.recipient_hex s).1

    same₁ : s₁.invoices ≡ s.invoices
    same₁ = (user_for_pubkey-Keeps SameInvoices-IsKept p.recipient_hex).kept s

    s₂ : Store
    s₂ = (resolve d p s₁).1

    same₂ : s₂.invoices ≡ s.invoices
    same₂ = (resolve-Keeps SameInvoices-IsKept d p).kept s₁ ∙ same₁

    s₃ : Option String → Store
    s₃ i = (check_amount p.amount_nano i s₂).1

    same : (i : Option String) → (s₃ i).invoices ≡ s₂.invoices
    same i = (check_amount-Keeps SameInvoices-IsKept p.amount_nano i).kept s₂

    same₃ : (i : Option String) → (s₃ i).invoices ≡ s.invoices
    same₃ i = same i ∙ same₂

    back :
        (t : Store)
        → t.invoices ≡ s.invoices
        → (ys : List Invoice) → Zip (Bound p) t.invoices ys
        → Zip (Bound p) s.invoices ys
    back t e ys h = subst (λ xs. Zip (Bound p) xs ys) e h

    unchanged : (t : Store) → t.invoices ≡ s.invoices → BoundStores p s t
    unchanged t e =
        subst (λ xs. Zip (Bound p) s.invoices xs) (sym e)
          (Zip-refl (Bound p) (λ x. inl refl) s.invoices)
