-- ===== src/Invoice/Lifecycle.antt =====
-- The life of an invoice: `open` to `paid` to `confirmed`, or `open` to `expired`. Every operation
-- on invoices moves each row along it, whatever statements fail.
use goblin_pay.Prelude.{
  ℕ, ◌≡◌, refl, sym, subst, ◌∙◌, inl, inr, Bool-cases, column_eq, ◌||◌, ◌≢◌, String, Bool, true,
  str_eq, any, &&-true, Extends, Extends-refl, Extends-trans, Extends-append, Extends-update_where,
  arith,
}
use goblin_pay.Store.{
  MatchMode, InvoiceStatus, open_status, Invoice, Store, IsKept, Keeps, Keeps-bind, Keeps-query,
  Keeps-execute, Keeps-statement, Keeps-ok_or,
}
use goblin_pay.Invoice.{
  open_row, paid_row, eq_status, is_open, expire, pay, confirm, arm, expired_rows, updated_invoices,
  expire_due, get, get_by_token, list, mark_paid, mark_confirmed, mark_expired, attach_grin1,
  NewInvoice,
}
use goblin_pay.Invoice.Create.{create, insert_row}

pub data Step : InvoiceStatus → InvoiceStatus → Type 0 where
  settle : Step open_status InvoiceStatus.paid
  finish : Step InvoiceStatus.paid InvoiceStatus.confirmed
  lapse : Step open_status InvoiceStatus.expired

pub data Reach : InvoiceStatus → InvoiceStatus → Type 0 where
  here : {a : InvoiceStatus} → Reach a a
  next : {a b c : InvoiceStatus} → Step a b → Reach b c → Reach a c

pub Reach-trans : {a b c : InvoiceStatus} → Reach a b → Reach b c → Reach a c
Reach-trans here q = q
Reach-trans (next st r) q = next st (Reach-trans r q)

-- A later version of a row: the terms of the sale stay, the status moves along the life, and once
-- the invoice is no longer open its link to the payment stays.
pub record Later (x y : Invoice) : Type 0 where
  pub same_id : y.id ≡ x.id
  pub same_ref : y.order_ref ≡ x.order_ref
  pub same_amount : y.expected_amount ≡ x.expected_amount
  pub same_expiry : y.expiry ≡ x.expiry
  pub same_token : y.token ≡ x.token
  pub same_recipient : y.recipient_pubkey ≡ x.recipient_pubkey
  pub same_mode : y.match_mode ≡ x.match_mode
  pub moves : Reach x.status y.status
  pub closed_link :
      x.status ≢ open_status → (y.paid_payment_id ≡ x.paid_payment_id) × (y.status ≢ open_status)

pub Later-refl : (x : Invoice) → Later x x
Later-refl x = record {
  same_id = refl;
  same_ref = refl;
  same_amount = refl;
  same_expiry = refl;
  same_token = refl;
  same_recipient = refl;
  same_mode = refl;
  moves = here;
  closed_link = λ n. (refl, n);
}

pub Later-trans : (x y z : Invoice) → Later x y → Later y z → Later x z
Later-trans x y z p q = record {
  same_id = q.same_id ∙ p.same_id;
  same_ref = q.same_ref ∙ p.same_ref;
  same_amount = q.same_amount ∙ p.same_amount;
  same_expiry = q.same_expiry ∙ p.same_expiry;
  same_token = q.same_token ∙ p.same_token;
  same_recipient = q.same_recipient ∙ p.same_recipient;
  same_mode = q.same_mode ∙ p.same_mode;
  moves = Reach-trans p.moves q.moves;
  closed_link = λ n.
      let (link, closed) = p.closed_link n in
      ((q.closed_link closed).0 ∙ link, (q.closed_link closed).1);
}

-- The invoices of a later store: every row is a later version of itself, and rows may follow.
abbrev pub Evolves : Store → Store → Type 0
Evolves s t = Extends Later s.invoices t.invoices

pub Evolves-IsKept : IsKept Evolves
Evolves-IsKept = record {
  reflexive = λ s. Extends-refl Later Later-refl s.invoices;
  transitive = λ s t u. Extends-trans Later Later-trans s.invoices t.invoices u.invoices;
  faultless = λ s b bs e. Extends-refl Later Later-refl s.invoices;
}

eq_status→eq : (a b : InvoiceStatus) → eq_status a b ≡ true → a ≡ b
eq_status→eq a b h = ground arith

expire-Later : (x : Invoice) → is_open x ≡ true → Later x (expire x)
expire-Later x h =
    let e : x.status ≡ open_status = eq_status→eq _ _ h in
    record {
      same_id = refl;
      same_ref = refl;
      same_amount = refl;
      same_expiry = refl;
      same_token = refl;
      same_recipient = refl;
      same_mode = refl;
      moves = subst (λ a. Reach a InvoiceStatus.expired) (sym e) (next lapse here);
      closed_link = λ n. absurd (n e);
    }

pub pay-Later : (i : String) (now : ℕ) (x : Invoice) → is_open x ≡ true → Later x (pay i now x)
pay-Later i now x h =
    let e : x.status ≡ open_status = eq_status→eq _ _ h in
    record {
      same_id = refl;
      same_ref = refl;
      same_amount = refl;
      same_expiry = refl;
      same_token = refl;
      same_recipient = refl;
      same_mode = refl;
      moves = subst (λ a. Reach a InvoiceStatus.paid) (sym e) (next settle here);
      closed_link = λ n. absurd (n e);
    }

confirm-Later :
    (now : ℕ) (x : Invoice) → eq_status x.status InvoiceStatus.paid ≡ true → Later x (confirm now x)
confirm-Later now x h =
    let e : x.status ≡ InvoiceStatus.paid = eq_status→eq _ _ h in
    record {
      same_id = refl;
      same_ref = refl;
      same_amount = refl;
      same_expiry = refl;
      same_token = refl;
      same_recipient = refl;
      same_mode = refl;
      moves = subst (λ a. Reach a InvoiceStatus.confirmed) (sym e) (next finish here);
      closed_link = λ n. (refl, λ c. cc c);
    }

arm-Later : (slate pack : String) (x : Invoice) → Later x (arm slate pack x)
arm-Later slate pack x = record {
  same_id = refl;
  same_ref = refl;
  same_amount = refl;
  same_expiry = refl;
  same_token = refl;
  same_recipient = refl;
  same_mode = refl;
  moves = here;
  closed_link = λ n. (refl, n);
}

expired_rows-Evolves : (scope : Invoice → Bool) (s : Store) → Evolves s (expired_rows scope s)
expired_rows-Evolves scope s =
    Extends-update_where Later _ expire s.invoices Later-refl
      (λ x h. expire-Later x (&&-true _ _ (&&-true _ _ h).1).0)

updated_invoices-Evolves :
    (p : ℕ → Invoice → Bool) (f : ℕ → Invoice → Invoice) (s : Store)
    → ((now : ℕ) (x : Invoice) → p now x ≡ true → Later x (f now x))
    → Evolves s (updated_invoices p f s).1
updated_invoices-Evolves p f s h =
    Extends-update_where Later (p s.clock) (f s.clock) s.invoices Later-refl (h s.clock)

pub expire_due-Keeps : Keeps Evolves expire_due
unfolding expire_due
expire_due-Keeps = Keeps-execute Evolves-IsKept _ (expired_rows-Evolves (λ _. true))

pub get-Keeps : (i : String) → Keeps Evolves (get i)
unfolding get
get-Keeps i =
    Keeps-bind Evolves-IsKept (Keeps-execute Evolves-IsKept _ (expired_rows-Evolves _))
      (λ _. Keeps-query Evolves-IsKept _)

pub get_by_token-Keeps : (t : String) → Keeps Evolves (get_by_token t)
unfolding get_by_token
get_by_token-Keeps t =
    Keeps-bind Evolves-IsKept (Keeps-execute Evolves-IsKept _ (expired_rows-Evolves _))
      (λ _. Keeps-query Evolves-IsKept _)

pub list-Keeps : (n : ℕ) → Keeps Evolves (list n)
unfolding list
list-Keeps n = Keeps-bind Evolves-IsKept expire_due-Keeps (λ _. Keeps-query Evolves-IsKept _)

pub mark_paid-Keeps : (i p : String) → Keeps Evolves (mark_paid i p)
unfolding mark_paid
mark_paid-Keeps i p = Keeps-statement Evolves-IsKept _ (λ s.
    updated_invoices-Evolves (λ now. open_row i) (pay p) s
      (λ now x h. pay-Later p now x (&&-true (str_eq x.id i) _ h).1))

pub mark_confirmed-Keeps : (i : String) → Keeps Evolves (mark_confirmed i)
unfolding mark_confirmed
mark_confirmed-Keeps i = Keeps-statement Evolves-IsKept _ (λ s.
    updated_invoices-Evolves (λ now. paid_row i) confirm s
      (λ now x h. confirm-Later now x (&&-true (str_eq x.id i) _ h).1))

pub mark_expired-Keeps : (i : String) → Keeps Evolves (mark_expired i)
unfolding mark_expired
mark_expired-Keeps i = Keeps-statement Evolves-IsKept _ (λ s.
    updated_invoices-Evolves (λ now. open_row i) (λ now. expire) s
      (λ now x h. expire-Later x (&&-true (str_eq x.id i) _ h).1))

pub attach_grin1-Keeps : (i slate pack : String) → Keeps Evolves (attach_grin1 i slate pack)
unfolding attach_grin1
attach_grin1-Keeps i slate pack =
    Keeps-execute Evolves-IsKept _
      (λ s. Extends-update_where Later _ _ s.invoices Later-refl (λ x h. arm-Later slate pack x))

insert_row-Evolves :
    (row : ℕ → Invoice) (i t : String) (s : Store) → Evolves s (insert_row row i t s).1
insert_row-Evolves row i t s =
    elim (Bool-cases (any (λ (x : Invoice). str_eq x.id i || column_eq x.token t) s.invoices)) [
      | inl e ↦ rw e (Extends-refl Later Later-refl s.invoices)
      | inr e ↦ rw e (Extends-append Later Later-refl s.invoices _)
    ]

pub create-Keeps :
    (child : String → String) (master : String) (d : MatchMode) (i t : String) (p : NewInvoice)
    → Keeps Evolves (create child master d i t p)
unfolding create
create-Keeps child master d i t p =
    Keeps-bind Evolves-IsKept (Keeps-statement Evolves-IsKept _ (insert_row-Evolves _ i t))
      (λ _. Keeps-bind Evolves-IsKept (get-Keeps i) (λ _. Keeps-ok_or Evolves-IsKept _ _))
