-- ===== src/Metrics/Accepted/Projected.antt =====
-- Whatever is projected from an event that names its provider, model, tenant and environment passes
-- the linter of metrics (apps/api/metrics-endpoint/internal/aggregator/projection.go).
use openllm_metrics.Prelude.{
  ◌≡◌, refl, true, false, some, List, [], ◌∷◌, ◌++◌, Text, Text-discrete, text, arith, ite, is_in,
}
use openllm_metrics.Audit.Json.{Fields}
use openllm_metrics.Contracts.{find_by_name}
use openllm_metrics.Contracts.Lint.{is_banned}
use openllm_metrics.Metrics.{Floats}
use openllm_metrics.Metrics.Projection.{
  Contribution, Labels, add_cost, add_counted, add_if_non_empty, base_labels, cost, counted,
  failures, get_str, project_runtime, project_usage, projections_for, request_labels, status_code,
  once,
}
use openllm_metrics.Metrics.Aggregator.{all_linted, lint_contribution, lint_labels}
use openllm_metrics.Metrics.Accepted.{
  IsNamed, add-Conforms, allowed_by, base-Conforms, lint_labels_of_Conforms,
}
use openllm_metrics.Metrics.Accepted.Registered.{
  Based, Based-requests, Based-input_tokens, Based-output_tokens, Based-total_tokens,
  Based-cost_usd, Based-errors, Based-retries, Based-timeouts, Based-rate_limit_events,
  requests_allow_error_type, requests_allow_status_code, errors_allow_error_type,
  errors_allow_status_code, retries_allow_error_type, rate_limit_events_allow_status_code,
  error_type_clean, status_code_clean,
}

module _ (event : Fields) (named : IsNamed event) where
  lint_base : (name : Text) → Based name → lint_labels name (base_labels event) ≡ true
  lint_base name (m, e, a) =
      lint_labels_of_Conforms name (base_labels event) (base-Conforms name m event e a named)

  lint_with :
      (name k v : Text)
      → Based name
      → is_in k (allowed_by (find_by_name name)) ≡ true
      → is_banned k ≡ false
      → lint_labels name (add_if_non_empty k v (base_labels event)) ≡ true
  lint_with name k v (m, e, a) i b =
      lint_labels_of_Conforms name (add_if_non_empty k v (base_labels event))
        (add-Conforms name k v (base_labels event) (base-Conforms name m event e a named) i b)

  lint_with_both :
      (name j u k v : Text)
      → Based name
      → is_in j (allowed_by (find_by_name name)) ≡ true
      → is_banned j ≡ false
      → is_in k (allowed_by (find_by_name name)) ≡ true
      → is_banned k ≡ false
      → lint_labels name (add_if_non_empty j u (add_if_non_empty k v (base_labels event))) ≡ true
  lint_with_both name j u k v (m, e, a) i b i' b' =
      lint_labels_of_Conforms name (add_if_non_empty j u (add_if_non_empty k v (base_labels event)))
        (add-Conforms name j u (add_if_non_empty k v (base_labels event))
          (add-Conforms name k v (base_labels event) (base-Conforms name m event e a named) i' b') i
          b)

  module _ {C : Type 0} (floats : Floats C) where
    linted_append :
        (cs ds : List (Contribution C))
        → all_linted cs ≡ true
        → all_linted ds ≡ true
        → all_linted (cs ++ ds) ≡ true
    unfolding all_linted
    linted_append [] ds h k = k
    linted_append (c ∷ cs) ds h k = ground (arith, linted_append cs ds)

    linted_counted :
        (name key : Text) (labels : Labels)
        → lint_labels name labels ≡ true
        → all_linted (counted floats name key labels event) ≡ true
    unfolding counted add_counted all_linted lint_contribution
    linted_counted name key labels h = ground arith

    linted_cost :
        (labels : Labels)
        → lint_labels (text "llm_cost_usd_total") labels ≡ true
        → all_linted (cost floats labels event) ≡ true
    unfolding cost add_cost all_linted lint_contribution
    linted_cost labels h = ground arith

    linted_once :
        (name : Text) (labels : Labels)
        → lint_labels name labels ≡ true
        → all_linted (once floats name labels ∷ []) ≡ true
    unfolding all_linted lint_contribution
    linted_once name labels h = rw h refl

    linted_usage : all_linted (project_usage floats event) ≡ true
    unfolding project_usage
    linted_usage =
        let labels : Labels = base_labels event in
        let count : (name key : Text)
            → Based name
            → all_linted (counted floats name key labels event) ≡ true =
          λ name key m. linted_counted name key labels (lint_base name m) in
        linted_append _ _ (count _ _ Based-requests) (
          linted_append _ _ (count _ _ Based-input_tokens) (
            linted_append _ _ (count _ _ Based-output_tokens) (
              linted_append _ _ (count _ _ Based-total_tokens)
                (linted_cost labels (lint_base _ Based-cost_usd)))))

    linted_ite :
        {P : Type 0} (d : Dec P) (cs ds : List (Contribution C))
        → all_linted cs ≡ true
        → all_linted ds ≡ true
        → all_linted (ite d cs ds) ≡ true
    linted_ite (yes p) cs ds h k = h
    linted_ite (no p) cs ds h k = k

    linted_failures : (status : Text) → all_linted (failures floats status event) ≡ true
    unfolding failures request_labels all_linted
    linted_failures status =
        let error = linted_once (text "llm_errors_total") (request_labels floats event) (
          lint_with_both _ _ _ _ _ Based-errors errors_allow_error_type error_type_clean
            errors_allow_status_code status_code_clean) in
        let timeout =
          linted_once (text "llm_timeouts_total") (base_labels event)
            (lint_base _ Based-timeouts) in
        let limited = linted_once (text "llm_rate_limit_events_total") _ (
          lint_with _ (text "status_code") (status_code floats event) Based-rate_limit_events
            rate_limit_events_allow_status_code status_code_clean) in
        linted_ite (Text-discrete status (text "error")) _ _ error (
          linted_ite (Text-discrete status (text "timeout")) _ _ timeout
            (linted_ite (Text-discrete status (text "rate_limited")) _ [] limited refl))

    linted_runtime : all_linted (project_runtime floats event) ≡ true
    unfolding project_runtime request_labels
    linted_runtime =
        let labels : Labels = base_labels event in
        let count : (name key : Text)
            → Based name
            → all_linted (counted floats name key labels event) ≡ true =
          λ name key m. linted_counted name key labels (lint_base name m) in
        linted_append (once floats (text "llm_requests_total") (request_labels floats event) ∷ []) _
          (linted_once _ _ (
            lint_with_both _ _ _ _ _ Based-requests requests_allow_error_type error_type_clean
              requests_allow_status_code status_code_clean))
          (linted_append _ _ (count _ _ Based-input_tokens) (
            linted_append _ _ (count _ _ Based-output_tokens) (
              linted_append _ _ (count _ _ Based-total_tokens) (
                linted_append _ _ (linted_failures (get_str event (text "status"))) (
                  linted_counted _ _ _
                    (lint_with _ _ _ Based-retries retries_allow_error_type error_type_clean))))))

    -- Whatever is projected from a named event passes the linter of metrics.
    pub projected_linted :
        (topic : Text) (cs : List (Contribution C))
        → projections_for floats topic event ≡ some cs
        → all_linted cs ≡ true
    unfolding projections_for
    projected_linted topic cs h = ground (arith, linted_usage, linted_runtime)
