-- ===== src/Metrics/Series/Order.antt =====
-- The counters do not depend on the order in which the events arrive
-- (apps/api/metrics-endpoint/internal/aggregator/aggregator.go).
use openllm_metrics.Prelude.{
  ℕ, ◌+◌, ◌≡◌, refl, ap, sym, ◌∙◌, ◌⊎◌, inl, inr, false, Option, List, [], ◌∷◌, Text, arith,
  if◌then◌else◌,
}
use mathlib.Core.List.{Permᴰ}
use openllm_metrics.Audit.Json.{Fields}
use openllm_metrics.Metrics.{Floats}
use openllm_metrics.Metrics.Projection.{Contribution}
use openllm_metrics.Metrics.Aggregator.{
  RejectReason, State, apply, bump_reject, commit, same_reason,
}
use openllm_metrics.Metrics.Verdict.{Event, apply-settle, apply_all, settle, verdict}
use openllm_metrics.Metrics.Series.{sum_of}
use openllm_metrics.Metrics.Series.Whole.{IsExact, is_small, plus, values-Perm, whole_total}

-- 1 where the event is rejected for this reason, else 0.
unfoldable pub against : {C : Type 0} → RejectReason → RejectReason ⊎ List (Contribution C) → ℕ
against r (inl q) = if same_reason q r then 1 else 0
against r (inr cs) = 0

unfoldable pub counted_one : {C : Type 0} → RejectReason ⊎ List (Contribution C) → ℕ
counted_one (inl q) = 0
counted_one (inr cs) = 1

module _ {C : Type 0} (floats : Floats C) (unmarshal : Text → Option Fields) where
  unfoldable pub rejections : RejectReason → List Event → ℕ
  rejections r [] = 0
  rejections r (e ∷ es) = against r (verdict floats unmarshal e) + rejections r es

  unfoldable pub acceptances : List Event → ℕ
  acceptances [] = 0
  acceptances (e ∷ es) = counted_one (verdict floats unmarshal e) + acceptances es

  counts-settle :
      (r : RejectReason) (v : RejectReason ⊎ List (Contribution C)) (s : State C)
      → ((settle floats unmarshal v s).rejected r ≡ against r v + s.rejected r)
        × ((settle floats unmarshal v s).processed ≡ counted_one v + s.processed)
  unfolding settle against counted_one bump_reject commit
  counts-settle r (inl q) s = ground arith
  counts-settle r (inr cs) s = ground arith

  pub counts-apply_all :
      (r : RejectReason) (es : List Event) (s : State C)
      → ((apply_all floats unmarshal es s).rejected r ≡ rejections r es + s.rejected r)
        × ((apply_all floats unmarshal es s).processed ≡ acceptances es + s.processed)
  unfolding apply_all rejections acceptances
  counts-apply_all r [] s = (omega arith, omega arith)
  counts-apply_all r (e ∷ es) s =
      let rest = counts-apply_all r es (apply floats unmarshal e.topic e.payload s) in
      let now = counts-settle r (verdict floats unmarshal e) s in
      let step = apply-settle floats unmarshal e s in
      let one = ap (λ t. t.rejected r) step in
      let two = ap (λ t. t.processed) step in
      (omega (arith, rest.0, now.0, one), omega (arith, rest.1, now.1, two))

  counts-Perm :
      (r : RejectReason) {es fs : List Event}
      → Permᴰ es fs
      → (rejections r es ≡ rejections r fs) × (acceptances es ≡ acceptances fs)
  unfolding rejections acceptances
  counts-Perm r Permᴰ.nil = (refl, refl)
  counts-Perm r (Permᴰ.cons {a} {b} {l₁} {l₂} e p) =
      let rest = counts-Perm r p in
      let one = ap (λ x. against r (verdict floats unmarshal x)) e in
      let two = ap (λ x. counted_one (verdict floats unmarshal x)) e in
      (omega (arith, rest.0, one), omega (arith, rest.1, two))
  counts-Perm r (Permᴰ.swap {a} {b} {a'} {b'} {l} d e) =
      let one = ap (λ x. against r (verdict floats unmarshal x)) d in
      let one' = ap (λ x. against r (verdict floats unmarshal x)) e in
      let two = ap (λ x. counted_one (verdict floats unmarshal x)) d in
      let two' = ap (λ x. counted_one (verdict floats unmarshal x)) e in
      (omega (arith, one, one'), omega (arith, two, two'))
  counts-Perm r (Permᴰ.trans p q) =
      let (a, b) = counts-Perm r p in let (c, d) = counts-Perm r q in (a ∙ c, b ∙ d)

-- Two aggregators that start alike and receive the same events in two orders count the same rejected
-- events, by reason, and the same processed ones, and hold the same value in every series whose
-- value and contributions are whole numbers with a sum of at most 2 ^ 53, up to which float64 adds
-- whole numbers exactly.
pub apply_all-Perm :
    {C : Type 0} (floats : Floats C) (size : C → Option ℕ) (unmarshal : Text → Option Fields)
    → IsExact floats size
    → {es fs : List Event} → Permᴰ es fs
    → (s : State C)
    → ((name key : Text)
        → (is_small (
              plus
                (size (sum_of floats name key s.counters))
                (whole_total floats size name key unmarshal es))
            ≡ false)
          ⊎ (sum_of floats name key (apply_all floats unmarshal es s).counters
              ≡ sum_of floats name key (apply_all floats unmarshal fs s).counters))
      × ((r : RejectReason)
          → (apply_all floats unmarshal es s).rejected r
            ≡ (apply_all floats unmarshal fs s).rejected r)
      × ((apply_all floats unmarshal es s).processed ≡ (apply_all floats unmarshal fs s).processed)
apply_all-Perm floats size unmarshal exact {es} {fs} p s = (
  λ name key. values-Perm floats size name key unmarshal exact s p,
  λ r.
      (counts-apply_all floats unmarshal r es s).0
      ∙ ap (λ n. n + s.rejected r) (counts-Perm floats unmarshal r p).0
      ∙ sym (counts-apply_all floats unmarshal r fs s).0,
  (counts-apply_all floats unmarshal RejectReason.decode es s).1
      ∙ ap (λ n. n + s.processed) (counts-Perm floats unmarshal RejectReason.decode p).1
      ∙ sym (counts-apply_all floats unmarshal RejectReason.decode fs s).1,
)
