-- ===== src/Wallet/Open.antt =====
-- Opening the wallet (crates/gp-wallet/src/lib.rs, open_at): the seed is consumed once, on the first
-- run. The library's wallet life cycle is a parameter.
use goblin_pay.Prelude.{
  ◌≡◌, refl, ap, ◌∙◌, Bool, true, false, inl, inr, Option, none, some, is_some, if◌then◌else◌,
  Bool-cases, Text, text_eq, text_eq_iff,
}
use goblin_pay.Config.{Config}
use goblin_pay.Wallet.{config_error, Fallible, fine, Call, ◌>>=◌, give, fail, reading}
use goblin_pay.Wallet.Guards.{Fallible_cases}

-- The calls: `prepare` is everything before the wallet is asked for (the chain type, the directories and
-- their permissions, the node client), `restrict` the permissions of the files at the end.
pub record Lifecycle (W : Type 0) : Type 0 where
  pub prepare : W → Fallible (Unit {0}) × W
  pub wallet_exists : W → Fallible Bool
  pub get_mnemonic : W → Text → Fallible Text
  pub create_wallet : W → Text → Text → Fallible (Unit {0}) × W
  pub open_wallet : W → Text → Fallible (Unit {0}) × W
  pub restrict : W → Fallible (Unit {0}) × W

module _ {W : Type 0} (lc : Lifecycle W) where
  -- The wallet is there: a seed that is given must be the one at rest.
  unfoldable pub cross_check : Option Text → Text → Call W (Unit {0})
  unfolding ◌>>=◌ give fail reading
  cross_check none password = give tt
  cross_check (some mnemonic) password = reading (λ w. lc.get_mnemonic w password) >>= λ existing.
      if text_eq existing mnemonic then give tt else fail config_error

  -- The first run needs the seed.
  unfoldable pub create_from : Option Text → Text → Call W (Unit {0})
  unfolding fail
  create_from none password = fail config_error
  create_from (some mnemonic) password = λ w. lc.create_wallet w mnemonic password

  unfoldable pub open_at : Option Text → Text → Call W (Unit {0})
  unfolding ◌>>=◌ reading cross_check create_from
  open_at mnemonic password = do
    _ ← lc.prepare
    exists ← reading lc.wallet_exists
    _ ← if exists then cross_check mnemonic password else create_from mnemonic password
    _ ← λ w. lc.open_wallet w password
    lc.restrict

  abbrev pub open_with : Option Text → Option Text → Call W (Unit {0})
  open_with mnemonic none = fail config_error
  open_with mnemonic (some password) = open_at mnemonic password

  -- `GpWallet::open`
  unfoldable pub open_configured : Config → Call W (Unit {0})
  unfolding fail open_at
  open_configured cfg = open_with cfg.mnemonic cfg.wallet_password

-- How the library's life cycle treats the seed at rest, which `seed` reads off the state: only creation
-- writes it, and asking for it tells it.
pub record IsSeedStore {W : Type 0} (lc : Lifecycle W) (seed : W → Option Text) : Type 0 where
  pub prepare_keeps : (w : W) → seed (lc.prepare w).1 ≡ seed w
  pub open_keeps : (w : W) (p : Text) → seed (lc.open_wallet w p).1 ≡ seed w
  pub restrict_keeps : (w : W) → seed (lc.restrict w).1 ≡ seed w
  pub exists_tells : (w : W) (b : Bool) → lc.wallet_exists w ≡ fine b → is_some (seed w) ≡ b
  pub mnemonic_tells : (w : W) (p m : Text) → lc.get_mnemonic w p ≡ fine m → seed w ≡ some m
  pub create_done :
      (w : W) (m p : Text)
      → (lc.create_wallet w m p).0 ≡ fine tt
      → seed (lc.create_wallet w m p).1 ≡ some m

module _ {W : Type 0} (lc : Lifecycle W) (seed : W → Option Text) (laws : IsSeedStore lc seed) where
  then_keeps :
      (m f : Call W (Unit {0})) (w : W)
      → ((w' : W) → seed (f w').1 ≡ seed w')
      → seed ((m >>= λ _. f) w).1 ≡ seed (m w).1
  unfolding ◌>>=◌
  then_keeps m f w h = elim (Fallible_cases (m w).0) [
    | inl (a, e) ↦ rw e (h (m w).1)
    | inr (x, e) ↦ rw e refl
  ]

  then_fine : (m f : Call W (Unit {0})) (w : W) → ((m >>= λ _. f) w).0 ≡ fine tt → (m w).0 ≡ fine tt
  unfolding ◌>>=◌
  then_fine m f w h = elim (Fallible_cases (m w).0) [
    | inl (a, e) ↦ e
    | inr (x, e) ↦ absurd (cc (rw e at h))
  ]

  -- What follows the settled seed.
  ending : Text → Call W (Unit {0})
  ending password = (λ w. lc.open_wallet w password) >>= λ _. lc.restrict

  ending_keeps : (password : Text) (w : W) → seed (ending password w).1 ≡ seed w
  unfolding ending
  ending_keeps password w =
      then_keeps (λ w0. lc.open_wallet w0 password) lc.restrict w laws.restrict_keeps
      ∙ laws.open_keeps w password

  cross_check_same :
      (mnemonic : Option Text) (password : Text) (w : W)
      → (cross_check lc mnemonic password w).1 ≡ w
  unfolding cross_check ◌>>=◌ give fail reading
  cross_check_same none password w = refl
  cross_check_same (some m) password w = elim (Fallible_cases (lc.get_mnemonic w password)) [
    | inr (x, e) ↦ rw e refl
    | inl (existing, e) ↦ elim (Bool-cases (text_eq existing m)) [
      | inl t ↦ rw e (rw t refl)
      | inr t ↦ rw e (rw t refl)
    ]
  ]

  cross_check_tells :
      (m password : Text) (w : W)
      → (cross_check lc (some m) password w).0 ≡ fine tt
      → seed w ≡ some m
  unfolding cross_check ◌>>=◌ give fail reading
  cross_check_tells m password w h = elim (Fallible_cases (lc.get_mnemonic w password)) [
    | inr (x, e) ↦ absurd (cc (rw e at h))
    | inl (existing, e) ↦ elim (Bool-cases (text_eq existing m)) [
      | inl t ↦ laws.mnemonic_tells w password existing e ∙ ap some ((text_eq_iff existing m).0 t)
      | inr t ↦ absurd (cc (rw t at (rw e at h)))
    ]
  ]

  seeding : Bool → Option Text → Text → Call W (Unit {0})
  seeding exists mnemonic password =
      (if exists then cross_check lc mnemonic password else create_from lc mnemonic password)
      >>= λ _. ending password

  seeding_keeps :
      (exists : Bool) (mnemonic : Option Text) (password : Text) (w : W)
      → is_some (seed w) ≡ exists
      → is_some (seed w) ≡ true
      → seed (seeding exists mnemonic password w).1 ≡ seed w
  unfolding seeding
  seeding_keeps true mnemonic password w t h =
      then_keeps (cross_check lc mnemonic password) (ending password) w (ending_keeps password)
      ∙ ap seed (cross_check_same mnemonic password w)
  seeding_keeps false mnemonic password w t h = absurd (cc (t, h))

  seeding_done :
      (exists : Bool) (m password : Text) (w : W)
      → (seeding exists (some m) password w).0 ≡ fine tt
      → seed (seeding exists (some m) password w).1 ≡ some m
  unfolding seeding create_from
  seeding_done true m password w h =
      then_keeps (cross_check lc (some m) password) (ending password) w (ending_keeps password)
      ∙ ap seed (cross_check_same (some m) password w)
      ∙ cross_check_tells m password w
          (then_fine (cross_check lc (some m) password) (ending password) w h)
  seeding_done false m password w h =
      then_keeps (λ w0. lc.create_wallet w0 m password) (ending password) w (ending_keeps password)
      ∙ laws.create_done w m password
          (then_fine (λ w0. lc.create_wallet w0 m password) (ending password) w h)

  -- A seed at rest is never written over, however the opening ends.
  pub open_at-keeps :
      (mnemonic : Option Text) (password : Text) (w : W)
      → is_some (seed w) ≡ true
      → seed (open_at lc mnemonic password w).1 ≡ seed w
  unfolding open_at ◌>>=◌ reading seeding ending
  open_at-keeps mnemonic password w h = elim (Fallible_cases (lc.prepare w).0) [
    | inr (x, e) ↦ rw e (laws.prepare_keeps w)
    | inl (u, e) ↦ elim (Fallible_cases (lc.wallet_exists (lc.prepare w).1)) [
      | inr (x, p) ↦ rw e (rw p (laws.prepare_keeps w))
      | inl (b, p) ↦ rw e (
          rw p (
            let k : is_some (seed (lc.prepare w).1) ≡ true =
              ap is_some (laws.prepare_keeps w) ∙ h in
            seeding_keeps b mnemonic password (lc.prepare w).1
              (laws.exists_tells (lc.prepare w).1 b p) k
            ∙ laws.prepare_keeps w))
    ]
  ]

  -- An opening with a seed that succeeds leaves exactly this seed at rest, on the first run and on every
  -- later one.
  pub open_at-seeds :
      (m password : Text) (w : W)
      → (open_at lc (some m) password w).0 ≡ fine tt
      → seed (open_at lc (some m) password w).1 ≡ some m
  unfolding open_at ◌>>=◌ reading seeding ending
  open_at-seeds m password w h = elim (Fallible_cases (lc.prepare w).0) [
    | inr (x, e) ↦ absurd (cc (rw e at h))
    | inl (u, e) ↦ elim (Fallible_cases (lc.wallet_exists (lc.prepare w).1)) [
      | inr (x, p) ↦ absurd (cc (rw p at (rw e at h)))
      | inl (b, p) ↦ rw e (rw p (seeding_done b m password (lc.prepare w).1 (rw p at (rw e at h))))
    ]
  ]
