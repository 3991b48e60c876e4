-- ===== src/Receiver/Refusal.antt =====
-- A slatepack that is refused moves no money.
use goblin_pay.Prelude.{Bool, true, false, ℕ, ◌≡◌, refl, subst, sym, List}
use goblin_pay.Store.{Store, ok, pure, bind-run, ok_inj}
use goblin_pay.Record.{Context, Received, PersistOutcome, matched, rejected, persist_and_match}
use goblin_pay.Record.Rejection.{OnlyPayments, OnlyPayments-IsKept, persist_and_match-rejected}
use goblin_pay.Nostr.Ingest.{
  ReceiveResult, received_ok, duplicate_slate, rejected_slate, failed_receive,
}
use goblin_pay.Receiver.{
  WalletAnswer, wallet_received, bad_slatepack, already_received, wallet_error, answer_to,
  after_wallet, receive,
}

-- The answer that sends a reply to the payer.
abbrev pub sends_reply : ReceiveResult → Bool
sends_reply (received_ok p) = true
sends_reply duplicate_slate = false
sends_reply rejected_slate = false
sends_reply failed_receive = false

after_persist :
    (c : Context) (x : Received) (o : PersistOutcome) (s : Store) (r : ReceiveResult)
    → (persist_and_match c x s).0 ≡ ok o
    → answer_to x o ≡ r
    → sends_reply r ≡ false
    → OnlyPayments s (persist_and_match c x s).1
unfolding answer_to
after_persist c x (matched m) s r e a q = absurd (cc (q, subst (λ t. sends_reply t ≡ true) a refl))
after_persist c x (rejected bad) s r e a q = (persist_and_match-rejected c x s bad e).0

after_wallet_refused :
    (c : Context) (w : WalletAnswer) (s : Store) (r : ReceiveResult)
    → (after_wallet c w s).0 ≡ ok r
    → sends_reply r ≡ false
    → OnlyPayments s (after_wallet c w s).1
unfolding after_wallet pure
after_wallet_refused c (wallet_received x) s r e q =
    let (o, persisted, answered, ends) =
      bind-run (persist_and_match c x) (λ o. pure (answer_to x o)) s r e in
    subst (OnlyPayments s) (sym ends) (after_persist c x o s r persisted (ok_inj answered) q)
after_wallet_refused c bad_slatepack s r e q = OnlyPayments-IsKept.reflexive s
after_wallet_refused c already_received s r e q = OnlyPayments-IsKept.reflexive s
after_wallet_refused c wallet_error s r e q = OnlyPayments-IsKept.reflexive s

-- Whenever the receiver answers a slatepack without a reply for the payer, whatever the wallet said
-- and whatever statements fail, no invoice is touched and no webhook enqueued.
pub receive-refused :
    (wallet : List ℕ → WalletAnswer) (c : Context) (armor : List ℕ) (s : Store) (r : ReceiveResult)
    → (receive wallet c armor s).0 ≡ ok r
    → sends_reply r ≡ false
    → OnlyPayments s (receive wallet c armor s).1
unfolding receive
receive-refused wallet c armor s r e q = after_wallet_refused c (wallet armor) s r e q
