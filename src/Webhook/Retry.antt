-- ===== src/Webhook/Retry.antt =====
-- The retry clock and the queue: how long a failed delivery waits, and which deliveries are due.
use goblin_pay.Prelude.{ℕ, zero, suc, ◌+◌, ◌-◌, ◌*◌, ◌^◌, ◌≤◌, ◌≡◌, refl, subst, min, arith}
use goblin_pay.Webhook.{backoff_secs}
use native.Mathlib.Nat.{pow-suc}
use native.Mathlib.Numerals.{towards_suc}

pow_pos : (k : ℕ) → 1 ≤ 2 ^ k
pow_pos zero = omega arith
pow_pos (suc k) = omega (arith, pow-suc 2 k, pow_pos k)

pow_large : (k : ℕ) → 128 ≤ 2 ^ (k + 7)
pow_large k =
    let e : 2 ^ (k + 7) ≡ 128 * 2 ^ k = simp towards_suc (omega arith) in
    omega (arith, e, pow_pos k)

pow_large_at : (n : ℕ) → 7 ≤ n → 128 ≤ 2 ^ n
pow_large_at n h = subst (λ m. 128 ≤ 2 ^ m) (omega arith) (pow_large (n - 7))

-- The delay doubles from 30 seconds with each attempt up to an hour: neither the limit on the shift
-- nor the saturation of the product ever shows.
pub backoff_secs-doubling : (n : ℕ) → backoff_secs (suc n) ≡ min (30 * 2 ^ n) 3600
unfolding backoff_secs
backoff_secs-doubling zero = refl
backoff_secs-doubling (suc zero) = refl
backoff_secs-doubling (suc (suc zero)) = refl
backoff_secs-doubling (suc (suc (suc zero))) = refl
backoff_secs-doubling (suc (suc (suc (suc zero)))) = refl
backoff_secs-doubling (suc (suc (suc (suc (suc zero))))) = refl
backoff_secs-doubling (suc (suc (suc (suc (suc (suc zero)))))) = refl
backoff_secs-doubling (suc (suc (suc (suc (suc (suc (suc n))))))) =
    let m = suc (suc (suc (suc (suc (suc (suc n)))))) in
    omega (arith, pow_large_at m (omega arith), pow_large_at (min m 20) (omega arith))
