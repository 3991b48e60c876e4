-- ===== src/Store/Preserve.antt =====
-- A relation between stores that every statement of an operation keeps is kept by the operation,
-- whatever statements fail.
use goblin_pay.Prelude.{
  ◌≡◌, refl, ap, ◌∙◌, Bool, Option, none, some, true, false, List, [], ◌∷◌, if◌then◌else◌,
}
use goblin_pay.Store.Tables.{Store}
use goblin_pay.Store.Monad.{
  Result, ok, err, SqlError, Action, after, ◌>>=◌, pure, throw, ok_or, statement, with_faults,
  query, attempt, execute, read_clock,
}

pub record IsKept (R : Store → Store → Type 0) : Type 0 where
  pub reflexive : (s : Store) → R s s
  pub transitive : (s t u : Store) → R s t → R t u → R s u
  -- It is kept where a fault is taken from the schedule.
  pub faultless :
      (s : Store) (b : Bool) (bs : List Bool) → s.faults ≡ b ∷ bs → R s (record s { faults = bs })

pub record Keeps (R : Store → Store → Type 0) {A : Type 0} (m : Action A) : Type 0 where
  pub kept : (s : Store) → R s (m s).1

module _ {R : Store → Store → Type 0} (k : IsKept R) where
  pub Keeps-pure : {A : Type 0} (a : A) → Keeps R (pure a)
  unfolding pure
  Keeps-pure a = record { kept = λ s. k.reflexive s }

  pub Keeps-throw : {A : Type 0} (e : SqlError) → Keeps R (throw {A = A} e)
  unfolding throw
  Keeps-throw e = record { kept = λ s. k.reflexive s }

  pub Keeps-ok_or : {A : Type 0} (o : Option A) (e : SqlError) → Keeps R (ok_or o e)
  unfolding ok_or
  Keeps-ok_or none e = record { kept = λ s. k.reflexive s }
  Keeps-ok_or (some a) e = record { kept = λ s. k.reflexive s }

  pub Keeps-bind :
      {A B : Type 0} {m : Action A} {f : A → Action B}
      → Keeps R m
      → ((a : A) → Keeps R (f a))
      → Keeps R (m >>= f)
  unfolding ◌>>=◌
  Keeps-bind {A = A} {m = m} {f = f} h g = record { kept = λ s. go s (m s).0 (m s).1 (h.kept s) }
    where
      go : (s : Store) (r : Result A) (t : Store) → R s t → R s (after r f t).1
      go s (ok a) t p = k.transitive s t _ p ((g a).kept t)
      go s (err e) t p = p

  pub Keeps-attempt : {A : Type 0} {m : Action A} → Keeps R m → Keeps R (attempt m)
  unfolding attempt
  Keeps-attempt h = record { kept = λ s. h.kept s }

  pub Keeps-statement :
      {A : Type 0} (f : Store → Result A × Store)
      → ((s : Store) → R s (f s).1)
      → Keeps R (statement f)
  unfolding statement
  Keeps-statement f h = record { kept = λ s. go s s.faults refl }
    where
      go : (s : Store) (bs : List Bool) → s.faults ≡ bs → R s (with_faults bs f s).1
      go s [] e = h s
      go s (true ∷ bs) e = k.faultless s true bs e
      go s (false ∷ bs) e =
          k.transitive s (record s { faults = bs }) _ (k.faultless s false bs e) (h _)

  pub Keeps-query : {A : Type 0} (f : Store → A) → Keeps R (query f)
  unfolding query
  Keeps-query f = Keeps-statement _ (λ s. k.reflexive s)

  pub Keeps-read_clock : Keeps R read_clock
  unfolding read_clock
  Keeps-read_clock = record { kept = λ s. k.reflexive s }

  pub Keeps-execute : (f : Store → Store) → ((s : Store) → R s (f s)) → Keeps R (execute f)
  unfolding execute
  Keeps-execute f h = Keeps-statement _ h

  pub Keeps-if :
      {A : Type 0} {m n : Action A} (b : Bool)
      → Keeps R m
      → Keeps R n
      → Keeps R (if b then m else n)
  Keeps-if true h g = h
  Keeps-if false h g = g

pub ok_inj : {A : Type 0} {a b : A} → ok a ≡ ok b → a ≡ b
ok_inj e = cc

-- A postcondition of a chain, from each way in which its first step can end.
pub bind_post :
    {A B : Type 0} (P : Result B × Store → Type 0) (m : Action A) (f : A → Action B) (s : Store)
    → ((a : A) → (m s).0 ≡ ok a → P (f a (m s).1))
    → ((e : SqlError) → (m s).0 ≡ err e → P (err e, (m s).1))
    → P ((m >>= f) s)
unfolding ◌>>=◌
bind_post P m f s h g = go (m s).0 refl
  where
    go : (r : Result _) → (m s).0 ≡ r → P (after r f (m s).1)
    go (ok a) e = h a e
    go (err x) e = g x e

-- A chain that succeeds: its first step does, and so does the rest.
pub bind-ok :
    {A B : Type 0} (m : Action A) (f : A → Action B) (s : Store) (b : B)
    → ((m >>= f) s).0 ≡ ok b
    → (a : A) × ((m s).0 ≡ ok a) × ((f a (m s).1).0 ≡ ok b)
unfolding ◌>>=◌
bind-ok {A = A} m f s b e = go (m s).0 refl e
  where
    go :
        (r : Result A)
        → (m s).0 ≡ r
        → (after r f (m s).1).0 ≡ ok b
        → (a : A) × ((m s).0 ≡ ok a) × ((f a (m s).1).0 ≡ ok b)
    go (ok a) q h = (a, q, h)
    go (err x) q h = absurd (cc h)

-- The same with the store in which it ends.
pub bind-run :
    {A B : Type 0} (m : Action A) (f : A → Action B) (s : Store) (b : B)
    → ((m >>= f) s).0 ≡ ok b
    → (a : A) × ((m s).0 ≡ ok a) × ((f a (m s).1).0 ≡ ok b) × (((m >>= f) s).1 ≡ (f a (m s).1).1)
unfolding ◌>>=◌
bind-run {A = A} m f s b e = go (m s).0 refl e
  where
    go :
        (r : Result A)
        → (m s).0 ≡ r
        → (after r f (m s).1).0 ≡ ok b
        → (a : A) × ((m s).0 ≡ ok a)
          × ((f a (m s).1).0 ≡ ok b)
          × ((after r f (m s).1).1 ≡ (f a (m s).1).1)
    go (ok a) q h = (a, q, h, refl)
    go (err x) q h = absurd (cc h)

-- A statement that succeeds has run, behind some of the faults.
pub statement-ok :
    {A : Type 0} (f : Store → Result A × Store) (s : Store) (a : A)
    → (statement f s).0 ≡ ok a
    → (bs : List Bool) × ((f (record s { faults = bs })).0 ≡ ok a)
      × ((statement f s).1 ≡ (f (record s { faults = bs })).1)
unfolding statement
statement-ok f s a e = go s.faults refl e
  where
    go :
        (bs : List Bool)
        → s.faults ≡ bs
        → (with_faults bs f s).0 ≡ ok a
        → (cs : List Bool) × ((f (record s { faults = cs })).0 ≡ ok a)
          × ((with_faults bs f s).1 ≡ (f (record s { faults = cs })).1)
    go [] q h = (s.faults, h, refl)
    go (true ∷ bs) q h = absurd (cc h)
    go (false ∷ bs) q h = (bs, h, refl)

-- No statement of an operation touches the invoices.
abbrev pub SameInvoices : Store → Store → Type 0
SameInvoices s t = t.invoices ≡ s.invoices

pub SameInvoices-IsKept : IsKept SameInvoices
SameInvoices-IsKept = record {
  reflexive = λ s. refl;
  transitive = λ s t u p q. q ∙ p;
  faultless = λ s b bs e. refl;
}

pub Keeps-weaken :
    {R Q : Store → Store → Type 0} {A : Type 0} {m : Action A}
    → ((s t : Store) → R s t → Q s t)
    → Keeps R m
    → Keeps Q m
Keeps-weaken {m = m} h q = record { kept = λ s. h s (m s).1 (q.kept s) }

-- No statement of an operation touches a table.
pub record Untouched (s t : Store) : Type 0 where
  pub same_invoices : t.invoices ≡ s.invoices
  pub same_payments : t.payments ≡ s.payments
  pub same_users : t.users ≡ s.users
  pub same_endpubs : t.endpubs ≡ s.endpubs
  pub same_deliveries : t.deliveries ≡ s.deliveries
  pub same_clock : t.clock ≡ s.clock

Untouched-trans : (s t u : Store) → Untouched s t → Untouched t u → Untouched s u
Untouched-trans s t u p q = record {
  same_invoices = q.same_invoices ∙ p.same_invoices;
  same_payments = q.same_payments ∙ p.same_payments;
  same_users = q.same_users ∙ p.same_users;
  same_endpubs = q.same_endpubs ∙ p.same_endpubs;
  same_deliveries = q.same_deliveries ∙ p.same_deliveries;
  same_clock = q.same_clock ∙ p.same_clock;
}

unchanged : (s : Store) (bs : List Bool) → Untouched s (record s { faults = bs })
unchanged s bs = record {
  same_invoices = refl;
  same_payments = refl;
  same_users = refl;
  same_endpubs = refl;
  same_deliveries = refl;
  same_clock = refl;
}

pub Untouched-IsKept : IsKept Untouched
Untouched-IsKept = record {
  reflexive = λ s. unchanged s s.faults;
  transitive = Untouched-trans;
  faultless = λ s b bs e. unchanged s bs;
}

-- A schedule with no faults left stays so.
abbrev pub NoFaults : Store → Store → Type 0
NoFaults s t = s.faults ≡ [] → t.faults ≡ []

pub NoFaults-IsKept : IsKept NoFaults
NoFaults-IsKept = record {
  reflexive = λ s e. e;
  transitive = λ s t u p q e. q (p e);
  faultless = λ s b bs q e. absurd (cc (q, e));
}

pub statement-calm :
    {A : Type 0} (f : Store → Result A × Store) (s : Store) → s.faults ≡ [] → statement f s ≡ f s
unfolding statement
statement-calm f s calm = ap (λ bs. with_faults bs f s) calm

pub execute-calm : (f : Store → Store) (s : Store) → s.faults ≡ [] → (execute f s).1 ≡ f s
unfolding execute
execute-calm f s calm = ap (λ x. x.1) (statement-calm (λ t. (ok tt, f t)) s calm)

-- How operations run where no statement fails.
pub execute-run : (f : Store → Store) (s : Store) → s.faults ≡ [] → execute f s ≡ (ok tt, f s)
unfolding execute
execute-run f s calm = statement-calm (λ t. (ok tt, f t)) s calm

pub query-run : {A : Type 0} (f : Store → A) (s : Store) → s.faults ≡ [] → query f s ≡ (ok (f s), s)
unfolding query
query-run f s calm = statement-calm (λ t. (ok (f t), t)) s calm

pub >>=-run :
    {A B : Type 0} (m : Action A) (f : A → Action B) (s : Store) (a : A) (t : Store)
    → m s ≡ (ok a, t)
    → (m >>= f) s ≡ f a t
unfolding ◌>>=◌
>>=-run m f s a t e = ap (λ x. after x.0 f x.1) e
