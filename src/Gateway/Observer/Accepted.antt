-- ===== src/Gateway/Observer/Accepted.antt =====
-- The gateway's events pass the linter that the metrics endpoint runs
-- (apps/gateway/internal/observer/observer.go, packages/telemetry/schema-lint/go/lint.go,
-- apps/api/metrics-endpoint/internal/aggregator/aggregator.go).
use openllm_metrics.Prelude.{
  ◌≡◌, refl, true, false, some, List, [], ◌∷◌, ◌++◌, Text, Text-discrete, text, is_empty, arith,
}
use openllm_metrics.Prelude.Int.{ℤ}
use openllm_metrics.Audit.Json.{Value, Fields, lookup}
use openllm_metrics.Contracts.{topic_runtime_normalized}
use openllm_metrics.Contracts.Lint.{
  Issue, check_forbidden_fields, check_mandatory_fields, check_request_id_hash, check_required,
  check_schema_version, hash_issues, is_absent, is_hex64, is_zero, lint_decoded, ok, required_of,
  runtime_normalized_required, version_issues,
}
use openllm_metrics.Contracts.Lint.Observations.{ok-append}
use openllm_metrics.Metrics.Forbidden.{has_forbidden_field_lem}
use openllm_metrics.Gateway.Observer.Events.{RuntimeEvent, marshal}
use openllm_metrics.Gateway.Observer.Members.{
  lookup_env, lookup_latency, lookup_recorded, lookup_status, marshal_clean,
}

-- No required member of the event is empty, and its hash has the form of a SHA-256 in hex.
pub record IsComplete (ev : RuntimeEvent) : Type 0 where
  pub event_id : is_empty ev.event_id ≡ false
  pub request_id_hash : is_hex64 ev.request_id_hash ≡ true
  pub provider : is_empty ev.provider ≡ false
  pub model : is_empty ev.model ≡ false
  pub operation : is_empty ev.operation ≡ false
  pub tenant : is_empty ev.tenant ≡ false
  pub team : is_empty ev.team ≡ false
  pub env : is_empty ev.env ≡ false
  pub status : is_empty ev.status ≡ false
  pub recorded_at : is_empty ev.recorded_at ≡ false

hex_not_empty : (s : Text) → is_hex64 s ≡ true → is_empty s ≡ false
unfolding is_hex64
hex_not_empty [] h = cc
hex_not_empty (c ∷ s) h = refl

-- Every key of the list is there, with a value that is not empty.
data Present (event : Fields) : List Text → Type 0 where
  nothing : Present event []
  there :
      (k : Text) {v : Value} {ks : List Text}
      → lookup k event ≡ some v
      → is_zero v ≡ false
      → Present event ks
      → Present event (k ∷ ks)

required_of_Present :
    (event : Fields) (ks : List Text) → Present event ks → ok (check_required ks event) ≡ true
unfolding check_required is_absent
required_of_Present event ks nothing = refl
required_of_Present event ks (there k {v = v} {ks = js} l z rest) =
    rw (l, is_absent, z, required_of_Present event js rest) refl

module _ (shown : ℤ → Text) (ev : RuntimeEvent) (complete : IsComplete ev) where
  present : Present (marshal shown ev) runtime_normalized_required
  unfolding runtime_normalized_required is_zero Text-discrete marshal lookup
  present = there (text "schema_version") refl refl (
      there (text "event_id") refl complete.event_id (
        there (text "source_mode") refl refl (
          there (text "source_service") refl refl (
            there (text "request_id_hash") refl
              (hex_not_empty ev.request_id_hash complete.request_id_hash)
              (there (text "provider") refl complete.provider (
                there (text "model") refl complete.model (
                  there (text "operation") refl complete.operation (
                    there (text "tenant") refl complete.tenant (
                      there (text "team") refl complete.team (
                        there (text "env") (lookup_env shown ev) complete.env (
                          there (text "status") (lookup_status shown ev) complete.status (
                            there (text "latency_us") (lookup_latency shown ev) refl (
                              there (text "recorded_at") (lookup_recorded shown ev)
                                complete.recorded_at nothing)))))))))))))

  required_there : ok (check_mandatory_fields topic_runtime_normalized (marshal shown ev)) ≡ true
  unfolding check_mandatory_fields required_of Text-discrete
  required_there = required_of_Present (marshal shown ev) runtime_normalized_required present

  version_fine : ok (check_schema_version (marshal shown ev)) ≡ true
  unfolding check_schema_version version_issues marshal lookup Text-discrete
  version_fine = refl

  hash_fine : ok (check_request_id_hash (marshal shown ev)) ≡ true
  unfolding check_request_id_hash hash_issues marshal lookup Text-discrete
  hash_fine = rw (complete.request_id_hash) refl

  none_forbidden : ok (check_forbidden_fields (marshal shown ev) []) ≡ true
  none_forbidden =
      ground (arith, has_forbidden_field_lem (marshal shown ev) [], marshal_clean shown ev)

  pub marshal-linted : ok (lint_decoded topic_runtime_normalized (some (marshal shown ev))) ≡ true
  unfolding lint_decoded
  marshal-linted =
      let f : List Issue = check_forbidden_fields (marshal shown ev) [] in
      let m : List Issue = check_mandatory_fields topic_runtime_normalized (marshal shown ev) in
      let v : List Issue = check_schema_version (marshal shown ev) in
      let r : List Issue = check_request_id_hash (marshal shown ev) in
      rw
        (
          ok-append f (m ++ (v ++ r)),
          ok-append m (v ++ r),
          ok-append v r,
          none_forbidden,
          required_there,
          version_fine,
          hash_fine,
        )
        refl
