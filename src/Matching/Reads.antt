-- ===== src/Matching/Reads.antt =====
-- The steps of `match_payment` that only read: they keep every relation that statements keep.
use goblin_pay.Prelude.{ℕ, String, Option, none, some}
use goblin_pay.Store.{
  MatchMode, Store, IsKept, Keeps, Keeps-bind, Keeps-query, Keeps-ok_or, Keeps-pure,
}
use goblin_pay.Endpub.{user_for_pubkey}
use goblin_pay.Matching.{
  IncomingPayment, resolve, resolve_derived, or_memo, or_amount, resolve_memo, resolve_amount,
  expected_of, check_amount,
}

module _ {R : Store → Store → Type 0} (k : IsKept R) where
  or_memo-Keeps : (d : MatchMode) (m o : Option String) → Keeps R (or_memo d m o)
  unfolding or_memo resolve_memo
  or_memo-Keeps d m (some i) = Keeps-pure k _
  or_memo-Keeps d (some t) none = Keeps-query k _
  or_memo-Keeps d none none = Keeps-pure k _

  or_amount-Keeps : (d : MatchMode) (n : ℕ) (o : Option String) → Keeps R (or_amount d n o)
  unfolding or_amount resolve_amount
  or_amount-Keeps d n (some i) = Keeps-pure k _
  or_amount-Keeps d n none = Keeps-query k _

  pub resolve-Keeps : (d : MatchMode) (p : IncomingPayment) → Keeps R (resolve d p)
  unfolding resolve resolve_derived
  resolve-Keeps d p =
      Keeps-bind k (Keeps-query k _) (λ o.
        Keeps-bind k (or_memo-Keeps d p.memo_text o) (λ o'. or_amount-Keeps d p.amount_nano o'))

  pub user_for_pubkey-Keeps : (key : String) → Keeps R (user_for_pubkey key)
  unfolding user_for_pubkey
  user_for_pubkey-Keeps key = Keeps-query k _

  expected_of-Keeps : (i : String) → Keeps R (expected_of i)
  unfolding expected_of
  expected_of-Keeps i =
      Keeps-bind k (Keeps-query k _) (λ o. Keeps-bind k (Keeps-ok_or k o _) (λ _. Keeps-pure k _))

  pub check_amount-Keeps : (n : ℕ) (o : Option String) → Keeps R (check_amount n o)
  unfolding check_amount
  check_amount-Keeps n none = Keeps-pure k _
  check_amount-Keeps n (some i) = Keeps-bind k (expected_of-Keeps i) (λ _. Keeps-pure k _)
