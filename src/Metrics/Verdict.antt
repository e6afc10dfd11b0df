-- ===== src/Metrics/Verdict.antt =====
-- What the aggregator does with an event does not depend on its state, and each event is counted
-- once (apps/api/metrics-endpoint/internal/aggregator/aggregator.go).
use openllm_metrics.Prelude.{
  ℕ, suc, ◌+◌, ◌≡◌, refl, ap, ◌⊎◌, inl, inr, Option, none, some, List, [], ◌∷◌, Text, length, arith,
  if◌then◌else◌,
}
use openllm_metrics.Audit.Json.{Fields}
use openllm_metrics.Contracts.{has_schema}
use openllm_metrics.Contracts.Lint.{lint_event, ok}
use openllm_metrics.Metrics.{Floats}
use openllm_metrics.Metrics.Projection.{Contribution, projections_for}
use openllm_metrics.Metrics.Aggregator.{
  RejectReason, decode, schema, forbidden, cardinality, unknown_topic, State, all_linted,
  all_reject_reasons, apply, apply_decoded, apply_projected, bump_reject, commit, commit_all,
  has_forbidden_field, same_reason,
}

-- A topic and a payload.
pub record Event : Type 0 where
  pub topic : Text
  pub payload : Text

unfoldable pub rejected_in : {C : Type 0} → List RejectReason → State C → ℕ
rejected_in [] s = 0
rejected_in (r ∷ rs) s = s.rejected r + rejected_in rs s

module _ {C : Type 0} (floats : Floats C) (unmarshal : Text → Option Fields) where
  -- The events of a topic list in turn.
  unfoldable pub apply_all : List Event → State C → State C
  apply_all [] s = s
  apply_all (e ∷ es) s = apply_all es (apply floats unmarshal e.topic e.payload s)

  unfoldable pub linted_or : List (Contribution C) → RejectReason ⊎ List (Contribution C)
  linted_or cs = if all_linted cs then inr cs else inl cardinality

  unfoldable pub projected_or :
      Option (List (Contribution C)) → RejectReason ⊎ List (Contribution C)
  unfolding linted_or
  projected_or none = inl unknown_topic
  projected_or (some cs) = linted_or cs

  unfoldable pub decoded_or : Event → Option Fields → RejectReason ⊎ List (Contribution C)
  unfolding projected_or
  decoded_or e none = inl decode
  decoded_or e (some event) =
      if has_forbidden_field event
      then inl forbidden
      else if ok (lint_event unmarshal e.topic e.payload)
      then projected_or (projections_for floats e.topic event)
      else inl schema

  -- The first reason against an event, or what it contributes.
  unfoldable pub verdict : Event → RejectReason ⊎ List (Contribution C)
  unfolding decoded_or
  verdict e = if has_schema e.topic then decoded_or e (unmarshal e.payload) else inl unknown_topic

  unfoldable pub settle : RejectReason ⊎ List (Contribution C) → State C → State C
  settle (inl r) s = bump_reject r s
  settle (inr cs) s = commit floats cs s

  settle_projected :
      (cs : Option (List (Contribution C))) (s : State C)
      → apply_projected floats cs s ≡ settle (projected_or cs) s
  unfolding apply_projected projected_or linted_or settle commit commit_all all_linted
  settle_projected none s = refl
  settle_projected (some []) s = refl
  settle_projected (some (c ∷ cs)) s = ground arith

  settle_decoded :
      (e : Event) (event : Option Fields) (s : State C)
      → apply_decoded floats unmarshal e.topic e.payload event s ≡ settle (decoded_or e event) s
  unfolding apply_decoded decoded_or settle
  settle_decoded e none s = refl
  settle_decoded e (some event) s =
      ground (arith, settle_projected (projections_for floats e.topic event) s)

  pub apply-settle :
      (e : Event) (s : State C) → apply floats unmarshal e.topic e.payload s ≡ settle (verdict e) s
  unfolding apply verdict settle
  apply-settle e s = ground (arith, settle_decoded e (unmarshal e.payload) s)

rejected-bump_reject :
    {C : Type 0} (r : RejectReason) (s : State C)
    → rejected_in all_reject_reasons (bump_reject r s) ≡ suc (rejected_in all_reject_reasons s)
unfolding rejected_in all_reject_reasons bump_reject same_reason
rejected-bump_reject decode s = omega arith
rejected-bump_reject schema s = omega arith
rejected-bump_reject forbidden s = omega arith
rejected-bump_reject cardinality s = omega arith
rejected-bump_reject unknown_topic s = omega arith

rejected-commit :
    {C : Type 0} (floats : Floats C) (cs : List (Contribution C)) (s : State C)
    → rejected_in all_reject_reasons (commit floats cs s) ≡ rejected_in all_reject_reasons s
unfolding commit rejected_in all_reject_reasons
rejected-commit floats cs s = refl

-- The events counted so far, whatever became of them.
abbrev pub total : {C : Type 0} → State C → ℕ
total s = s.processed + rejected_in all_reject_reasons s

module _ {C : Type 0} (floats : Floats C) (unmarshal : Text → Option Fields) where
  total-settle :
      (v : RejectReason ⊎ List (Contribution C)) (s : State C)
      → total (settle floats unmarshal v s) ≡ suc (total s)
  unfolding settle bump_reject rejected_in commit all_reject_reasons
  total-settle (inl r) s = omega (arith, rejected-bump_reject r s)
  total-settle (inr cs) s = omega (arith, rejected-commit floats cs s)

  -- Every event is either processed or rejected under one reason of the closed set, once: over any
  -- sequence of events the processed count and the counts of all reasons grow together by its length.
  pub apply_all-total :
      (es : List Event) (s : State C)
      → total (apply_all floats unmarshal es s) ≡ length es + total s
  unfolding apply_all
  apply_all-total [] s = omega arith
  apply_all-total (e ∷ es) s = omega (
    arith,
    apply_all-total es (apply floats unmarshal e.topic e.payload s),
    total-settle (verdict floats unmarshal e) s,
    ap total (apply-settle floats unmarshal e s),
  )
