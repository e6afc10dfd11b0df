-- ===== src/Reconciler/Windows.antt =====
-- windowsInPeriod of apps/worker/reconciler/internal/consumer/consumer.go: the windows over which a
-- billing period's cost is spread. Its loop is cut at a year's windows, which is the fuel here.
use native.Mathlib.Nat as Nat
use openllm_metrics.Prelude.{
  ℕ, zero, suc, ◌+◌, ◌-◌, ◌*◌, ◌/◌, ◌%◌, ◌≤◌, ◌<◌, ◌≡◌, refl, subst, true, false, ◌&&◌, List, [],
  ◌∷◌, ltb, leb, ◌==◌, if◌then◌else◌, Bool-cases, inl, inr, arith,
}
use openllm_metrics.Reconciler.Joiner.{window_of}

pub record Window : Type 0 where
  pub start : ℕ
  pub end : ℕ

unfoldable pub windows_from : ℕ → ℕ → ℕ → ℕ → List Window
windows_from zero size start period_end = []
windows_from (suc n) size start period_end =
    let rest = windows_from n size (start + size) period_end in
    if ltb start period_end then record { start = start; end = start + size } ∷ rest else []

-- 365 days in nanoseconds.
abbrev pub year : ℕ
year = 31536000000000000

unfoldable pub max_iters : ℕ → ℕ
max_iters size = if ltb (year / size) 1 then 1 else year / size

unfoldable pub windows_in_period : ℕ → ℕ → ℕ → List Window
windows_in_period size period_start period_end =
    if ltb period_start period_end
    then (if size == 0
        then []
        else windows_from (max_iters size) size (window_of size period_start).0 period_end)
    else []

-- How many of the windows a time lies in.
unfoldable pub covering : ℕ → List Window → ℕ
covering t [] = 0
covering t (w ∷ ws) =
    let rest = covering t ws in if leb w.start t && ltb t w.end then suc rest else rest

before_windows :
    (n size start period_end t : ℕ)
    → t < start
    → covering t (windows_from n size start period_end) ≡ 0
unfolding windows_from covering
before_windows zero size start period_end t h = refl
before_windows (suc n) size start period_end t h =
    ground (arith, before_windows n size (start + size) period_end t)

step_bound : (n size start : ℕ) → start + suc n * size ≡ start + size + n * size
step_bound n size start = omega (arith, Nat.suc-mul n size)

in_windows :
    (n size start period_end t : ℕ)
    → period_end ≤ start + n * size
    → start ≤ t
    → t < period_end
    → covering t (windows_from n size start period_end) ≡ 1
unfolding windows_from covering
in_windows zero size start period_end t h l m = absurd (omega (arith, Nat.zero-mul size))
in_windows (suc n) size start period_end t h l m = elim (Bool-cases (ltb t (start + size))) [
  | inl here ↦ ground (arith, before_windows n size (start + size) period_end t)
  | inr later ↦
      let rest =
        in_windows n size (start + size) period_end t
          (subst (λ x. period_end ≤ x) (step_bound n size start) h) (ground arith) m in
      ground (arith, rest)
]

-- Every time of a billing period lies in exactly one of the windows over which the period's cost is
-- spread, where the period ends within a year's windows from the first window's start.
pub windows_in_period-covering :
    (size period_start period_end t : ℕ)
    → 0 < size
    → period_end ≤ (window_of size period_start).0 + max_iters size * size
    → period_start ≤ t
    → t < period_end
    → covering t (windows_in_period size period_start period_end) ≡ 1
unfolding windows_in_period window_of
windows_in_period-covering size period_start period_end t some_size fits l m =
    let start = period_start - period_start % size in
    let nonempty : ltb period_start period_end ≡ true = ground arith in
    let sized : (size == 0) ≡ false = ground arith in
    rw (nonempty, sized, windows_in_period)
      (in_windows (max_iters size) size start period_end t fits (omega arith) m)
