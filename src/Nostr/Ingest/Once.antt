-- ===== src/Nostr/Ingest/Once.antt =====
-- A gift wrap is taken once (crates/gp-nostr/src/ingest.rs, `handle_wrap`): what ends for good marks
-- the wrap, and what may be tried again does not.
use goblin_pay.Prelude.{
  ℕ, String, Bool, true, false, Option, none, some, List, [], ◌∷◌, ◌≡◌, refl, ltb, eq_iff, byte_len,
  Bool-cases, inl, inr, arith,
}
use goblin_pay.Nostr.Protocol.{max_wrap_content}
use goblin_pay.Nostr.Ingest.{
  RateMap, IngestDecision, auto_receive, drop_it, Event, Unwrapped, ReceiveResult, received_ok,
  duplicate_slate, rejected_slate, failed_receive, Services, IngestState, IngestOutcome,
  received_outcome, dropped, rate_limited, failed, is_seen, allow_sender, allow_global_unwrap,
  after_receive, hand_over, judge, opened, addressed, admitted, handle_wrap,
}

-- The outcomes that are for good.
abbrev pub is_settled : IngestOutcome → Bool
is_settled (received_outcome p key payer) = true
is_settled (dropped r) = true
is_settled rate_limited = false
is_settled failed = false

abbrev pub Grows : List String → List String → Type 0
Grows old new = (k : String) → is_seen k old ≡ true → is_seen k new ≡ true

module _ {W : Type 0} (v : Services W) (slate_key : String → String) where
  -- What a handler promises for the wrap it was given, by its outcome.
  unfoldable pub Handled : String → List String → W → IngestOutcome × IngestState W → Type 0
  Handled wrap seen w (received_outcome p key payer, t) =
      Grows seen t.seen × (is_seen wrap t.seen ≡ true)
  Handled wrap seen w (dropped r, t) = Grows seen t.seen × (is_seen wrap t.seen ≡ true)
  Handled wrap seen w (rate_limited, t) = (t.seen ≡ seen) × (t.wallet ≡ w)
  Handled wrap seen w (failed, t) = t.seen ≡ seen

  is_seen-here : (k : String) (seen : List String) → is_seen k (k ∷ seen) ≡ true
  is_seen-here k seen = rw ((eq_iff k k).1 refl) refl

  is_seen-there : (j : String) (seen : List String) → Grows seen (j ∷ seen)
  is_seen-there j seen k h = ground arith

  -- The markers that a handler leaves, the wrap's first.
  mark_one :
      (wrap : String) (seen : List String)
      → Grows seen (wrap ∷ seen) × (is_seen wrap (wrap ∷ seen) ≡ true)
  mark_one wrap seen = (is_seen-there wrap seen, is_seen-here wrap seen)

  mark_more :
      (j wrap : String) (old new : List String)
      → Grows old new × (is_seen wrap new ≡ true)
      → Grows old (j ∷ new) × (is_seen wrap (j ∷ new) ≡ true)
  mark_more j wrap old new h =
      (λ k m. is_seen-there j new k (h.0 k m), is_seen-there j new wrap h.1)

  after_receive-Handled :
      (wrap : String) (u : Unwrapped) (key : String) (r : ReceiveResult) (w : W) (s : IngestState W)
      → Handled wrap s.seen w (after_receive v slate_key wrap u key r s)
  unfolding Handled after_receive
  after_receive-Handled wrap u key (received_ok p) w s =
      mark_more (slate_key p.slate_id) wrap s.seen (u.rumor.id ∷ wrap ∷ s.seen)
        (mark_more u.rumor.id wrap s.seen (wrap ∷ s.seen) (mark_one wrap s.seen))
  after_receive-Handled wrap u key duplicate_slate w s =
      mark_more u.rumor.id wrap s.seen (wrap ∷ s.seen) (mark_one wrap s.seen)
  after_receive-Handled wrap u key rejected_slate w s =
      mark_more u.rumor.id wrap s.seen (wrap ∷ s.seen) (mark_one wrap s.seen)
  after_receive-Handled wrap u key failed_receive w s = refl

  hand_over-Handled :
      (now : ℕ) (wrap key : String) (u : Unwrapped) (armor : List ℕ) (s : IngestState W)
      → Handled wrap s.seen s.wallet (hand_over v slate_key now wrap key u armor s)
  unfolding hand_over Handled
  hand_over-Handled now wrap key u armor s =
      elim (Bool-cases (allow_sender now u.sender s.rate).0) [
        | inl e ↦ rw e (after_receive-Handled wrap u key _ s.wallet _)
        | inr e ↦ rw e (refl, refl)
      ]

  judge-Handled :
      (now : ℕ) (wrap key : String) (u : Unwrapped) (d : IngestDecision) (armor : Option (List ℕ))
      (s : IngestState W)
      → Handled wrap s.seen s.wallet (judge v slate_key now wrap key u d armor s)
  unfolding judge Handled
  judge-Handled now wrap key u (drop_it r) armor s =
      mark_more u.rumor.id wrap s.seen (wrap ∷ s.seen) (mark_one wrap s.seen)
  judge-Handled now wrap key u auto_receive none s = refl
  judge-Handled now wrap key u auto_receive (some armor) s =
      hand_over-Handled now wrap key u armor s

  opened-Handled :
      (now : ℕ) (wrap key : String) (u : Option Unwrapped) (s : IngestState W)
      → Handled wrap s.seen s.wallet (opened v slate_key now wrap key u s)
  unfolding opened Handled
  opened-Handled now wrap key none s = mark_one wrap s.seen
  opened-Handled now wrap key (some u) s = judge-Handled now wrap key u _ _ s

  addressed-Handled :
      (now : ℕ) (e : Event) (key : Option String) (s : IngestState W)
      → Handled e.id s.seen s.wallet (addressed v slate_key now e key s)
  unfolding addressed Handled
  addressed-Handled now e none s = mark_one e.id s.seen
  addressed-Handled now e (some key) s = opened-Handled now e.id key (v.unwrap key e) s

  admitted-Handled :
      (now : ℕ) (e : Event) (r : Bool × RateMap) (s : IngestState W)
      → Handled e.id s.seen s.wallet (admitted v slate_key now e r s)
  unfolding admitted Handled
  admitted-Handled now e (true, rate) s = addressed-Handled now e _ (record s { rate = rate })
  admitted-Handled now e (false, rate) s = (refl, refl)

  handle_wrap-Handled :
      (now : ℕ) (e : Event) (s : IngestState W)
      → e.is_gift_wrap ≡ true
      → Handled e.id s.seen s.wallet (handle_wrap v slate_key now e s)
  unfolding handle_wrap Handled
  handle_wrap-Handled now e s h =
      rw h (elim (Bool-cases (ltb max_wrap_content (byte_len e.content))) [
        | inl p ↦ rw p (mark_one e.id s.seen)
        | inr p ↦ rw p (elim (Bool-cases (is_seen e.id s.seen)) [
          | inl q ↦ rw q (λ k m. m, q)
          | inr q ↦ rw q (
              admitted-Handled now (record e { is_gift_wrap = true })
                (allow_global_unwrap now s.rate) s)
        ])
      ])

  Handled-Grows :
      (wrap : String) (seen : List String) (w : W) (r : IngestOutcome × IngestState W)
      → Handled wrap seen w r
      → Grows seen r.1.seen
  unfolding Handled
  Handled-Grows wrap seen w (received_outcome p key payer, t) h = h.0
  Handled-Grows wrap seen w (dropped r, t) h = h.0
  Handled-Grows wrap seen w (rate_limited, t) h = λ k m. rw h.0 m
  Handled-Grows wrap seen w (failed, t) h = λ k m. rw h m

  Handled-is_seen :
      (wrap : String) (seen : List String) (w : W) (r : IngestOutcome × IngestState W)
      → Handled wrap seen w r
      → is_settled r.0 ≡ true
      → is_seen wrap r.1.seen ≡ true
  unfolding Handled
  Handled-is_seen wrap seen w (received_outcome p key payer, t) h e = h.1
  Handled-is_seen wrap seen w (dropped r, t) h e = h.1
  Handled-is_seen wrap seen w (rate_limited, t) h e = absurd (cc e)
  Handled-is_seen wrap seen w (failed, t) h e = absurd (cc e)

  Handled-unsettled :
      (wrap : String) (seen : List String) (w : W) (r : IngestOutcome × IngestState W)
      → Handled wrap seen w r
      → is_settled r.0 ≡ false
      → r.1.seen ≡ seen
  unfolding Handled
  Handled-unsettled wrap seen w (received_outcome p key payer, t) h e = absurd (cc e)
  Handled-unsettled wrap seen w (dropped r, t) h e = absurd (cc e)
  Handled-unsettled wrap seen w (rate_limited, t) h e = h.0
  Handled-unsettled wrap seen w (failed, t) h e = h

  unmarked :
      (now : ℕ) (e : Event) (s : IngestState W) (k : String)
      → e.is_gift_wrap ≡ false
      → is_seen k s.seen ≡ true
      → is_seen k (handle_wrap v slate_key now e s).1.seen ≡ true
  unfolding handle_wrap
  unmarked now e s k h m = rw h m

  handle_wrap-Grows :
      (now : ℕ) (e : Event) (s : IngestState W)
      → Grows s.seen (handle_wrap v slate_key now e s).1.seen
  handle_wrap-Grows now e s = elim (Bool-cases e.is_gift_wrap) [
    | inl h ↦ Handled-Grows e.id s.seen s.wallet _ (handle_wrap-Handled now e s h)
    | inr h ↦ λ k m. unmarked now e s k h m
  ]

  -- A stream of events, each at its second.
  unfoldable pub handle_all : List (ℕ × Event) → IngestState W → IngestState W
  handle_all [] s = s
  handle_all ((now, e) ∷ es) s = handle_all es (handle_wrap v slate_key now e s).1

  handle_all-Grows :
      (es : List (ℕ × Event)) (s : IngestState W) → Grows s.seen (handle_all es s).seen
  unfolding handle_all
  handle_all-Grows [] s k m = m
  handle_all-Grows ((now, e) ∷ es) s k m =
      handle_all-Grows es (handle_wrap v slate_key now e s).1 k (handle_wrap-Grows now e s k m)

  handle_wrap-seen :
      (now : ℕ) (e : Event) (s : IngestState W)
      → e.is_gift_wrap ≡ true
      → is_seen e.id s.seen ≡ true
      → ((handle_wrap v slate_key now e s).1.wallet ≡ s.wallet)
        × ((handle_wrap v slate_key now e s).1.rate ≡ s.rate)
  unfolding handle_wrap
  handle_wrap-seen now e s h q = rw h (
      rw q (elim (Bool-cases (ltb max_wrap_content (byte_len e.content))) [
        | inl p ↦ rw p (refl, refl)
        | inr p ↦ rw p (refl, refl)
      ]))

  -- Once a gift wrap has ended for good (received or dropped), delivering it again, after any
  -- further events, leaves the wallet and the rate limits as they are.
  pub handle_wrap-once :
      (now later : ℕ) (e : Event) (between : List (ℕ × Event)) (s : IngestState W)
      → e.is_gift_wrap ≡ true
      → is_settled (handle_wrap v slate_key now e s).0 ≡ true
      → ((handle_wrap v slate_key later e
            (handle_all between (handle_wrap v slate_key now e s).1)).1.wallet
          ≡ (handle_all between (handle_wrap v slate_key now e s).1).wallet)
        × ((handle_wrap v slate_key later e
              (handle_all between (handle_wrap v slate_key now e s).1)).1.rate
            ≡ (handle_all between (handle_wrap v slate_key now e s).1).rate)
  handle_wrap-once now later e between s h q =
      let t = (handle_wrap v slate_key now e s).1 in
      handle_wrap-seen later e (handle_all between t) h (
        handle_all-Grows between t e.id (
          Handled-is_seen e.id s.seen s.wallet (handle_wrap v slate_key now e s)
            (handle_wrap-Handled now e s h) q))

  -- A gift wrap that met a rate limit or a failure of the wallet leaves no marker, so that a later
  -- delivery of it is handled anew.
  pub handle_wrap-unsettled :
      (now : ℕ) (e : Event) (s : IngestState W)
      → e.is_gift_wrap ≡ true
      → is_settled (handle_wrap v slate_key now e s).0 ≡ false
      → (handle_wrap v slate_key now e s).1.seen ≡ s.seen
  handle_wrap-unsettled now e s h q =
      Handled-unsettled e.id s.seen s.wallet (handle_wrap v slate_key now e s)
        (handle_wrap-Handled now e s h) q
