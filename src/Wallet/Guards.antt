-- ===== src/Wallet/Guards.antt =====
-- The guards of the wallet (crates/gp-wallet/src/lib.rs): which slates it acts on, and what it keeps of
-- them.
use goblin_pay.Prelude.{
  ℕ, ◌≡◌, refl, sym, ap, subst, ◌∙◌, true, ◌⊎◌, inl, inr, Option, none, some, Bool-cases,
  if◌then◌else◌, trim, Text,
}
use goblin_pay.Wallet.Proof.{ReceiverProof, verify_receiver_proof}
use goblin_pay.Wallet.{
  standard1, WalletError, slatepack_error, Fallible, fine, failed, eq_state, ProofInfo, Slate,
  VersionedSlate, Received, Library, Call, ◌>>=◌, give, fail, reading, proof_of, verified_json,
  proof_from, slate_of, slate_kernel_excess, build_proof, expect_state, receive_slatepack,
  receive_slate, excess_of,
}

fine_inj : {A : Type 0} {a b : A} → fine a ≡ fine b → a ≡ b
fine_inj e = cc e

pub Fallible_cases :
    {A : Type 0} (r : Fallible A) → ((a : A) × (r ≡ fine a)) ⊎ ((x : WalletError) × (r ≡ failed x))
Fallible_cases (fine a) = inl (a, refl)
Fallible_cases (failed x) = inr (x, refl)

-- A chain of calls that succeeds: its first call succeeded, and so did the rest after it.
bind_fine :
    {W A B : Type 0} (m : Call W A) (f : A → Call W B) (w : W) (b : B)
    → ((m >>= f) w).0 ≡ fine b
    → (a : A) × ((m w).0 ≡ fine a) × ((f a (m w).1).0 ≡ fine b)
unfolding ◌>>=◌
bind_fine m f w b e = elim (Fallible_cases (m w).0) [
  | inl (a, q) ↦ (a, q, rw q at e)
  | inr (x, q) ↦ absurd (cc (rw q at e))
]

module _ {W : Type 0} (lib : Library W) where
  -- What follows the guards on the slatepack path: the receiving, and what is kept of it.
  ledger : Slate → Call W Received
  unfolding ◌>>=◌ give reading slate_kernel_excess build_proof
  ledger slate = do
    s2 ← λ w. lib.receive_tx w slate
    kernel_excess ← slate_kernel_excess lib slate.id
    proof ← build_proof lib s2 slate.amount kernel_excess
    s2_armor ← reading (λ w. lib.armor w s2)
    give (record {
      slate_id = s2.id;
      amount = slate.amount;
      s2_armor = s2_armor;
      kernel_excess = kernel_excess;
      proof = proof;
    })

  -- A read slatepack in the first state goes to the ledger; any other is refused.
  guarded :
      (armor : Text) (slate : Slate) (w : W)
      → lib.read_slatepack w (trim armor) ≡ fine slate
      → receive_slatepack lib armor w
        ≡ (if eq_state slate.state standard1 then ledger slate w else (failed slatepack_error, w))
  unfolding receive_slatepack ledger ◌>>=◌ slate_of reading expect_state fail give
  guarded armor slate w e = elim (Bool-cases (eq_state slate.state standard1)) [
    | inl t ↦ rw e (rw t refl)
    | inr t ↦ rw e (rw t refl)
  ]

  -- The JSON path behind its guard agrees with the ledger.
  json_ledger :
      (slate : Slate) (version : ℕ) (w : W)
      → eq_state slate.state standard1 ≡ true
      → ((s2 : Slate) → (out : VersionedSlate) × (lib.into_version s2 version ≡ fine out))
      → (receive_slate lib (record { version = version; content = slate }) >>= λ pair. give pair.1)
          w
        ≡ ledger slate w
  unfolding receive_slate ledger ◌>>=◌ reading expect_state fail give slate_kernel_excess
      build_proof
  json_ledger slate version w t v = rw t (elim (Fallible_cases (lib.receive_tx w slate).0) [
    | inr (x, e) ↦ rw e refl
    | inl (s2, e) ↦
        rw e (elim (Fallible_cases (excess_of (lib.tx_log (lib.receive_tx w slate).1 slate.id))) [
          | inr (x, e1) ↦ rw e1 refl
          | inl (kernel, e1) ↦
              rw e1 (elim (Fallible_cases (proof_from lib s2.payment_proof slate.amount kernel)) [
                | inr (x, e2) ↦ rw e2 refl
                | inl (proof, e2) ↦
                    rw e2 (elim (Fallible_cases (lib.armor (lib.receive_tx w slate).1 s2)) [
                      | inr (x, e3) ↦ rw e3 refl
                      | inl (text, e3) ↦ let (out, q) = v s2 in rw e3 (rw q refl)
                    ])
              ])
        ])
  ])

  -- The two receive paths agree: a slate that arrives as JSON is received, recorded and kept by the
  -- wallet just like the slatepack that holds it, if the reply can be written in the sender's version.
  pub receive_slate-eq-receive_slatepack :
      (armor : Text) (slate : Slate) (version : ℕ) (w : W)
      → lib.read_slatepack w (trim armor) ≡ fine slate
      → ((s2 : Slate) → (out : VersionedSlate) × (lib.into_version s2 version ≡ fine out))
      → (receive_slate lib (record { version = version; content = slate }) >>= λ pair. give pair.1)
          w
        ≡ receive_slatepack lib armor w
  unfolding receive_slate ◌>>=◌ expect_state fail give
  receive_slate-eq-receive_slatepack armor slate version w e v =
      elim (Bool-cases (eq_state slate.state standard1)) [
        | inl t ↦ json_ledger slate version w t v ∙ sym (guarded armor slate w e ∙ rw t refl)
        | inr t ↦ rw t (sym (guarded armor slate w e ∙ rw t refl))
      ]

  -- A stored proof verifies, and states the amount and the kernel.
  abbrev pub ProofHolds : ℕ → Text → Option Text → Type 0
  ProofHolds amount kernel o =
      (o ≡ none)
      ⊎ ((p : ReceiverProof) × (verify_receiver_proof lib.verify p ≡ true)
          × (p.amount ≡ amount)
          × (p.kernel_excess ≡ kernel)
          × ((t : Text) × (lib.proof_json p ≡ fine t) × (o ≡ some t)))

  -- What a received payment records of its slate.
  pub record IsRecorded (slate : Slate) (r : Received) : Type 0 where
    pub first_state : eq_state slate.state standard1 ≡ true
    pub own_amount : r.amount ≡ slate.amount
    pub proof_holds : ProofHolds slate.amount r.kernel_excess r.proof

  json_holds :
      (p : ReceiverProof) (o : Option Text)
      → verified_json lib p ≡ fine o
      → ProofHolds p.amount p.kernel_excess o
  json_holds p o e = elim (Bool-cases (verify_receiver_proof lib.verify p)) [
    | inl t ↦ elim (Fallible_cases (lib.proof_json p)) [
      | inl (text, q) ↦ inr (p, t, refl, refl, (text, q, sym (fine_inj (rw q at (rw t at e)))))
      | inr (x, q) ↦ absurd (cc (rw q at (rw t at e)))
    ]
    | inr t ↦ absurd (cc (rw t at e))
  ]

  proof_from-ProofHolds :
      (info : Option ProofInfo) (amount : ℕ) (kernel : Text) (o : Option Text)
      → proof_from lib info amount kernel ≡ fine o
      → ProofHolds amount kernel o
  proof_from-ProofHolds none amount kernel o e = inl (sym (fine_inj e))
  proof_from-ProofHolds (some info) amount kernel o e = go info.receiver_signature refl
    where
      go : (sig : Option Text) → info.receiver_signature ≡ sig → ProofHolds amount kernel o
      go none q = inl (sym (fine_inj (rw q at e)))
      go (some sig) q = json_holds (proof_of lib info amount kernel sig) o (rw q at e)

  ledger-IsRecorded :
      (slate : Slate) (r : Received) (w : W)
      → eq_state slate.state standard1 ≡ true
      → (ledger slate w).0 ≡ fine r
      → IsRecorded slate r
  unfolding ledger slate_kernel_excess build_proof reading give
  ledger-IsRecorded slate r w t e =
      let (s2, q1, e1) = bind_fine (λ w0. lib.receive_tx w0 slate) _ w r e in
      let (kernel, q2, e2) =
        bind_fine (slate_kernel_excess lib slate.id) _ (lib.receive_tx w slate).1 r e1 in
      let (proof, q3, e3) =
        bind_fine (build_proof lib s2 slate.amount kernel) _ (lib.receive_tx w slate).1 r e2 in
      let (armor, q4, e4) =
        bind_fine (reading (λ w0. lib.armor w0 s2)) _ (lib.receive_tx w slate).1 r e3 in
      subst (IsRecorded slate) (fine_inj e4) (record {
        first_state = t;
        own_amount = refl;
        proof_holds = proof_from-ProofHolds s2.payment_proof slate.amount kernel proof q3;
      })

  -- A payment that the wallet takes from a slatepack was a payment in its first state; it is recorded
  -- with that slate's own amount, and with a proof only if the proof verifies and states this amount
  -- and the kernel recorded.
  pub receive_slatepack-IsRecorded :
      (armor : Text) (w : W) (r : Received)
      → (receive_slatepack lib armor w).0 ≡ fine r
      → (slate : Slate) × (lib.read_slatepack w (trim armor) ≡ fine slate) × IsRecorded slate r
  unfolding receive_slatepack ◌>>=◌ slate_of reading give
  receive_slatepack-IsRecorded armor w r e =
      elim (Fallible_cases (lib.read_slatepack w (trim armor))) [
        | inl (slate, q) ↦
            (slate, q, taken slate (sym (ap (λ x. x.0) (guarded armor slate w q)) ∙ e))
        | inr (x, q) ↦ absurd (cc (rw q at e))
      ]
    where
      taken :
          (slate : Slate)
          → (if eq_state slate.state standard1
              then ledger slate w
              else (failed slatepack_error, w)).0
            ≡ fine r
          → IsRecorded slate r
      taken slate h = elim (Bool-cases (eq_state slate.state standard1)) [
        | inl t ↦ ledger-IsRecorded slate r w t (rw t at h)
        | inr t ↦ absurd (cc (rw t at h))
      ]
