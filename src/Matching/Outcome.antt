-- ===== src/Matching/Outcome.antt =====
-- What the result of `match_payment` says of the store.
use goblin_pay.Prelude.{ℕ, ◌≡◌, ◌≢◌, sym, subst, ap, ◌∙◌, String, Option, none, some, arith}
use goblin_pay.Prelude.Int.{ℤ}
use goblin_pay.Store.{
  MatchMode, Store, ok, pure, execute, Untouched, Untouched-IsKept, bind-ok, bind-run, ok_inj,
}
use goblin_pay.Endpub.{user_for_pubkey}
use goblin_pay.Matching.{
  IncomingPayment, AmountMismatch, MatchResult, resolve, mismatch_of, expected_of, check_amount,
  link_rows, pay_matched, settle, conclude, match_payment,
}
use goblin_pay.Matching.Reads.{resolve-Keeps, user_for_pubkey-Keeps, check_amount-Keeps}

settle-no_mismatch :
    (p : IncomingPayment) (i u : Option String) (s : Store) (m : MatchResult)
    → (settle p i u s).0 ≡ ok m
    → m.amount_mismatch ≡ none
unfolding settle pure
settle-no_mismatch p i u s m e =
    let (a, _, rest) = bind-ok (pay_matched i p.slate_id) _ s m e in
    let (b, _, last) = bind-ok (execute (link_rows p.slate_id i u)) _ _ m rest in
    sym (ap (λ (r : MatchResult). r.amount_mismatch) (ok_inj last))

conclude-mismatch :
    (p : IncomingPayment) (i u : Option String) (o : Option AmountMismatch) (s : Store)
    (m : MatchResult) (bad : AmountMismatch)
    → (conclude p i u o s).0 ≡ ok m
    → m.amount_mismatch ≡ some bad
    → (o ≡ some bad) × Untouched s (conclude p i u o s).1
unfolding conclude pure
conclude-mismatch p i u none s m bad e h = absurd (cc (settle-no_mismatch p i u s m e, h))
conclude-mismatch p i u (some b) s m bad e h =
    (ap (λ (r : MatchResult). r.amount_mismatch) (ok_inj e) ∙ h, Untouched-IsKept.reflexive s)

check_amount-mismatch :
    (n : ℕ) (i : Option String) (s : Store) (bad : AmountMismatch)
    → (check_amount n i s).0 ≡ ok (some bad)
    → (bad.received_nano ≡ n) × (bad.expected ≢ n)
unfolding check_amount pure
check_amount-mismatch n none s bad e = absurd (cc (ok_inj e))
check_amount-mismatch n (some i) s bad e =
    let (o, _, rest) = bind-ok (expected_of i) _ s (some bad) e in go o (ok_inj rest)
  where
    go : (o : Option ℤ) → mismatch_of n o ≡ some bad → (bad.received_nano ≡ n) × (bad.expected ≢ n)
    go none q = absurd (cc q)
    go (some z) q = ground arith

-- A payment that `match_payment` rejects has touched no table: no invoice is paid, no payment row
-- linked. The rejection reports the amount received and a different expected amount.
pub match_payment-mismatch :
    (d : MatchMode) (p : IncomingPayment) (s : Store) (m : MatchResult) (bad : AmountMismatch)
    → (match_payment d p s).0 ≡ ok m
    → m.amount_mismatch ≡ some bad
    → Untouched s (match_payment d p s).1
      × (bad.received_nano ≡ p.amount_nano)
      × (bad.expected ≢ p.amount_nano)
unfolding match_payment
match_payment-mismatch d p s m bad e h =
    let (credited, _, e₁, t₁) = bind-run (user_for_pubkey p.recipient_hex) _ s m e in
    let (i, _, e₂, t₂) = bind-run (resolve d p) _ _ m e₁ in
    let (o, checked, e₃, t₃) = bind-run (check_amount p.amount_nano i) _ _ m e₂ in
    let (is_bad, same) = conclude-mismatch p i _ o _ m bad e₃ h in
    let read : Untouched s _ =
      Untouched-IsKept.transitive _ _ _ ((user_for_pubkey-Keeps Untouched-IsKept _).kept s) (
        Untouched-IsKept.transitive _ _ _ ((resolve-Keeps Untouched-IsKept d p).kept _) (
          Untouched-IsKept.transitive _ _ _ ((check_amount-Keeps Untouched-IsKept _ i).kept _)
            same)) in
    let (reported, differs) =
      check_amount-mismatch p.amount_nano i _ bad (checked ∙ ap ok is_bad) in
    (subst (Untouched s) (sym (t₁ ∙ t₂ ∙ t₃)) read, reported, differs)
