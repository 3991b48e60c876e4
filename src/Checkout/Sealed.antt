-- ===== src/Checkout/Sealed.antt =====
-- What a pasted slatepack cannot do (crates/gp-server/src/checkout.rs, manual_slatepack).
use goblin_pay.Prelude.{
  ◌≡◌, refl, sym, ap, subst, ◌∙◌, String, Bool, true, false, not, inl, inr, Option, none, some,
  ◌&&◌, ◌⊎◌, Bool-cases, column_eq, trim, Text,
}
use goblin_pay.Store.{open_status, Invoice, Store, Result, ok, err, pure, attempt, bind-run, ok_inj}
use goblin_pay.Config.{Config}
use goblin_pay.Invoice.{eq_status, is_grin1, get_by_token}
use goblin_pay.Record.{Received, PersistOutcome, matched, rejected, persist_and_match}
use goblin_pay.Record.Rejection.{OnlyPayments, OnlyPayments-IsKept, persist_and_match-rejected}
use goblin_pay.Foreign.{FinalizedInvoice, Notice, settle_finalized}
use goblin_pay.Wallet.{
  SlateState, unknown, standard1, standard2, standard3, invoice1, invoice2, invoice3, Fallible,
  fine, failed,
}
use goblin_pay.Checkout.Paste.{
  PasteWallet, PasteRoute, receive_s1, reject, route_paste, route_of, i2_route, Message, not_open,
  other_invoice, PayResultPage, Response, shown, not_found, internal_error, Done, turned_away,
  took_payment, finished_invoice, Outcome, after_persist, paste_context, settle_paste, result_page,
  act, paste_in_wallet, paste_for, manual_slatepack,
}

Withheld : Outcome → Store → Store → Type 0
Withheld o s t = (o.2 ≡ "") × OnlyPayments s t

persist-Withheld :
    (cfg : Config) (n : Notice) (inv : Invoice) (r : Received) (s : Store) (p : PersistOutcome)
    → (persist_and_match (paste_context cfg n inv) r s).0 ≡ ok p
    → (after_persist r p).0 ≡ false
    → Withheld (after_persist r p) s (persist_and_match (paste_context cfg n inv) r s).1
unfolding Withheld
persist-Withheld cfg n inv r s (matched m) e q = absurd (cc q)
persist-Withheld cfg n inv r s (rejected bad) e q =
    (refl, (persist_and_match-rejected (paste_context cfg n inv) r s bad e).0)

settle-Withheld :
    (cfg : Config) (n : Notice) (inv : Invoice) (d : Done) (s : Store) (o : Outcome)
    → (settle_paste cfg n inv d s).0 ≡ ok o
    → o.0 ≡ false
    → Withheld o s (settle_paste cfg n inv d s).1
unfolding settle_paste pure Withheld
settle-Withheld cfg n inv (turned_away m) s o e q =
    (ap (λ (x : Outcome). x.2) (sym (ok_inj e)), OnlyPayments-IsKept.reflexive s)
settle-Withheld cfg n inv (finished_invoice f) s o e q =
    let (_, _, answered, _) = bind-run (settle_finalized n f) _ s o e in
    absurd (cc (q, ap (λ (x : Outcome). x.0) (ok_inj answered)))
settle-Withheld cfg n inv (took_payment r) s o e q =
    let (p, persisted, answered, ends) =
      bind-run (persist_and_match (paste_context cfg n inv) r) (λ p. pure (after_persist r p)) s o
        e in
    let same : after_persist r p ≡ o = ok_inj answered in
    let (blank, kept) =
      persist-Withheld cfg n inv r s p persisted (ap (λ (x : Outcome). x.0) same ∙ q) in
    (ap (λ (x : Outcome). x.2) (sym same) ∙ blank, subst (OnlyPayments s) (sym ends) kept)

-- A response without success, and the reply slatepack of a response.
abbrev pub is_refused : Response PayResultPage → Bool
is_refused (shown page) = not page.okay
is_refused not_found = true
is_refused internal_error = true

abbrev pub handed_out : Response PayResultPage → String
handed_out (shown page) = page.s2_armor
handed_out not_found = ""
handed_out internal_error = ""

PageWithheld : Response PayResultPage → Store → Store → Type 0
PageWithheld r s t = is_refused r ≡ true → (handed_out r ≡ "") × OnlyPayments s t

module _ {W : Type 0} (wallet : PasteWallet W) (cfg : Config) (n : Notice) (token : String) where
  Reply : Type 0
  Reply = Response PayResultPage × W

  result-Withheld :
      (o : Outcome) (s t : Store)
      → (o.0 ≡ false → Withheld o s t)
      → PageWithheld (result_page cfg token o) s t
  unfolding Withheld PageWithheld
  result-Withheld o s t h q = elim (Bool-cases o.0) [
    | inl e ↦ absurd (cc (rw e at q))
    | inr e ↦ h e
  ]

  same_reply :
      (a b : Response PayResultPage × W) (s t : Store)
      → ok a ≡ ok b
      → PageWithheld a.0 s t
      → PageWithheld b.0 s t
  same_reply a b s t e h =
      subst (λ (x : Response PayResultPage × W). PageWithheld x.0 s t) (ok_inj e) h

  answer_of : W → Outcome → Response PayResultPage × W
  answer_of w o = (result_page cfg token o, w)

  paste_for_withheld :
      (form : Text) (loaded : Bool) (w : W) (found : Result (Option Invoice)) (s : Store)
      (reply : Response PayResultPage × W)
      → (paste_for wallet cfg n token form loaded w found s).0 ≡ ok reply
      → PageWithheld reply.0 s (paste_for wallet cfg n token form loaded w found s).1
  unfolding paste_for pure answer_of PageWithheld
  paste_for_withheld form loaded w (err e) s reply q =
      same_reply (internal_error, w) reply s s q (λ h. (refl, OnlyPayments-IsKept.reflexive s))
  paste_for_withheld form loaded w (ok none) s reply q =
      same_reply (not_found, w) reply s s q (λ h. (refl, OnlyPayments-IsKept.reflexive s))
  paste_for_withheld form false w (ok (some inv)) s reply q =
      same_reply _ reply s s q (λ h. (refl, OnlyPayments-IsKept.reflexive s))
  paste_for_withheld form true w (ok (some inv)) s reply q =
      let d = paste_in_wallet wallet inv (trim form) w in
      let (o, settled, answered, ends) =
        bind-run (settle_paste cfg n inv d.0) (λ o. pure (answer_of d.1 o)) s reply q in
      subst (PageWithheld reply.0 s) (sym ends) (
        same_reply (answer_of d.1 o) reply s (settle_paste cfg n inv d.0 s).1 answered (
          result-Withheld o s (settle_paste cfg n inv d.0 s).1
            (settle-Withheld cfg n inv d.0 s o settled)))

  -- Whatever is pasted, whatever the wallet answers and whatever statements fail: a paste that does not
  -- end in success hands out no reply slatepack, and after the invoice was looked up it pays no invoice
  -- and enqueues no webhook.
  pub manual_slatepack-withheld :
      (form : Text) (loaded : Bool) (w : W) (s : Store) (reply : Response PayResultPage × W)
      → (manual_slatepack wallet cfg n token form loaded w s).0 ≡ ok reply
      → is_refused reply.0 ≡ true
      → (handed_out reply.0 ≡ "")
        × OnlyPayments
            (get_by_token token s).1
            (manual_slatepack wallet cfg n token form loaded w s).1
  unfolding manual_slatepack attempt PageWithheld
  manual_slatepack-withheld form loaded w s reply q r =
      let (found, looked, answered, ends) =
        bind-run (attempt (get_by_token token)) (paste_for wallet cfg n token form loaded w) s reply
          q in
      subst (λ t. (handed_out reply.0 ≡ "") × OnlyPayments (get_by_token token s).1 t) (sym ends)
        (paste_for_withheld form loaded w found (get_by_token token s).1 reply answered r)

-- The slatepack is the payer's answer to this invoice: the page's invoice is open, was issued on the
-- grin1 rail, and for this very slate.
abbrev pub is_answer : Invoice → Fallible (String × SlateState) → Bool
is_answer inv (fine (slate_id, invoice2)) =
    eq_status inv.status open_status && (is_grin1 inv && column_eq inv.slate_id slate_id)
is_answer inv _ = false

abbrev pub is_payment : Fallible (String × SlateState) → Bool
is_payment (fine (_, standard1)) = true
is_payment _ = false

module _ {W : Type 0} (wallet : PasteWallet W) where
  -- The same wallet with any other way to finalize.
  abbrev pub finalizing_by : (Text → W → Fallible FinalizedInvoice × W) → PasteWallet W
  finalizing_by finalize = record wallet { finalize_invoice_slatepack = finalize }

  -- The paste went to the receiving side, or was turned away with the wallet as it was.
  abbrev pub NotFinalized : Invoice → Text → W → Type 0
  NotFinalized inv armor w =
      (is_payment (wallet.slatepack_kind w armor) ≡ true)
      ⊎ ((m : Message) × (paste_in_wallet wallet inv armor w ≡ (turned_away m, w)))

  -- A route that does not finalize.
  Harmless : PasteRoute → Fallible (String × SlateState) → Type 0
  Harmless route kind =
      ((route ≡ receive_s1) × (is_payment kind ≡ true)) ⊎ ((m : Message) × (route ≡ reject m))

  i2_route-Harmless :
      (slate_id : String) (inv : Invoice)
      → is_answer inv (fine (slate_id, invoice2)) ≡ false
      → Harmless (i2_route slate_id inv) (fine (slate_id, invoice2))
  unfolding Harmless
  i2_route-Harmless slate_id inv h = elim (Bool-cases (eq_status inv.status open_status)) [
    | inr t ↦ inr (not_open, rw t refl)
    | inl t ↦ elim (Bool-cases (is_grin1 inv && column_eq inv.slate_id slate_id)) [
      | inr u ↦ inr (other_invoice, rw t (rw u refl))
      | inl u ↦ absurd (cc (rw u at (rw t at h)))
    ]
  ]

  route_of-Harmless :
      (kind : Fallible (String × SlateState)) (inv : Invoice)
      → is_answer inv kind ≡ false
      → Harmless (route_of kind inv) kind
  unfolding route_paste Harmless
  route_of-Harmless (failed x) inv h = inr (_, refl)
  route_of-Harmless (fine (slate_id, standard1)) inv h = inl (refl, refl)
  route_of-Harmless (fine (slate_id, invoice2)) inv h = i2_route-Harmless slate_id inv h
  route_of-Harmless (fine (slate_id, unknown)) inv h = inr (_, refl)
  route_of-Harmless (fine (slate_id, standard2)) inv h = inr (_, refl)
  route_of-Harmless (fine (slate_id, standard3)) inv h = inr (_, refl)
  route_of-Harmless (fine (slate_id, invoice1)) inv h = inr (_, refl)
  route_of-Harmless (fine (slate_id, invoice3)) inv h = inr (_, refl)

  act-Harmless :
      (finalize : Text → W → Fallible FinalizedInvoice × W) (kind : Fallible (String × SlateState))
      (armor : Text) (route : PasteRoute) (w : W)
      → Harmless route kind
      → (act wallet armor route w ≡ act (finalizing_by finalize) armor route w)
        × ((is_payment kind ≡ true)
            ⊎ ((m : Message) × (act wallet armor route w ≡ (turned_away m, w))))
  unfolding act Harmless
  act-Harmless finalize kind armor route w (inl (e, p)) = (rw e refl, inl p)
  act-Harmless finalize kind armor route w (inr (m, e)) = (rw e refl, inr (m, rw e refl))

  -- A paste that is not the payer's answer to the open grin1 invoice of its page never reaches the
  -- finalizing side of the wallet: the outcome and the wallet are the same whatever that side does.
  -- If the slatepack is no payment in its first state either, the paste is turned away and the
  -- wallet stays as it was.
  pub paste_in_wallet-unanswered :
      (finalize : Text → W → Fallible FinalizedInvoice × W) (inv : Invoice) (armor : Text) (w : W)
      → is_answer inv (wallet.slatepack_kind w armor) ≡ false
      → (paste_in_wallet wallet inv armor w ≡ paste_in_wallet (finalizing_by finalize) inv armor w)
        × NotFinalized inv armor w
  unfolding paste_in_wallet
  paste_in_wallet-unanswered finalize inv armor w h =
      act-Harmless finalize (wallet.slatepack_kind w armor) armor
        (route_of (wallet.slatepack_kind w armor) inv) w
        (route_of-Harmless (wallet.slatepack_kind w armor) inv h)
