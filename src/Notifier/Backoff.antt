-- ===== src/Notifier/Backoff.antt =====
-- backoff of apps/worker/notifier/internal/consumer/consumer.go, on durations in nanoseconds.
use native.Mathlib.Nat as Nat
use native.Mathlib.Omega.{pow_step}
use openllm_metrics.Prelude.{
  ℕ, zero, suc, ◌*◌, ◌^◌, ◌≤◌, ◌≡◌, sym, min, ltb, Bool-cases, inl, inr, arith, if◌then◌else◌,
}

backoff_loop : ℕ → ℕ → ℕ → ℕ
backoff_loop zero d max = d
backoff_loop (suc n) d max =
    let rest = backoff_loop n (d * 2) max in if ltb max (d * 2) then max else rest

unfoldable pub backoff : ℕ → ℕ → ℕ → ℕ
unfolding backoff_loop
backoff n initial max = backoff_loop n initial max

pow_pos : (n : ℕ) → 1 ≤ 2 ^ n
pow_pos zero = omega arith
pow_pos (suc n) = rw (pow_step 2 n) (omega (arith, pow_pos n))

doubled : (n d max : ℕ) → d ≤ max → backoff_loop n d max ≡ min (d * 2 ^ n) max
unfolding backoff_loop
doubled zero d max h = ground arith
doubled (suc n) d max h =
    let step : d * 2 ^ suc n ≡ d * 2 * 2 ^ n =
      rw (pow_step 2 n) (sym (Nat.mul_assoc d 2 (2 ^ n))) in
    elim (Bool-cases (ltb max (d * 2))) [
      | inl over ↦
          let big : d * 2 ≤ d * 2 * 2 ^ n =
            omega (arith, Nat.mul-le-mul_left (d * 2) (pow_pos n)) in
          rw (over, step) (ground arith)
      | inr room ↦ rw (room, step) (doubled n (d * 2) max (ground arith))
    ]

-- The wait doubles from the initial one at each retry, up to the largest.
pub backoff_lem :
    (n initial max : ℕ) → initial ≤ max → backoff n initial max ≡ min (initial * 2 ^ n) max
unfolding backoff
backoff_lem n initial max h = doubled n initial max h
