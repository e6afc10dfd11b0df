-- ===== src/Gateway/Observer/Counted.antt =====
-- A request through the gateway is counted by the metrics endpoint
-- (apps/gateway/internal/observer/observer.go, apps/api/metrics-endpoint/internal/aggregator/aggregator.go).
use openllm_metrics.Prelude.{
  ◌≡◌, refl, ap, ◌∙◌, true, false, Option, some, List, [], ◌∷◌, Text, Text-discrete, text, is_empty,
  inr, trim_space, arith,
}
use openllm_metrics.Prelude.Int.{ℤ}
use openllm_metrics.Audit.Json.{Fields, lookup}
use openllm_metrics.Contracts.{topic_runtime_normalized}
use openllm_metrics.Contracts.Lint.{is_hex64, lint_decoded, ok}
use openllm_metrics.Metrics.{Floats}
use openllm_metrics.Metrics.Projection.{Contribution, projections_for}
use openllm_metrics.Metrics.Aggregator.{State, apply, commit}
use openllm_metrics.Metrics.Accepted.Events.{
  HasTexts, apply-accepts, is_str, lint_event-decoded, schema_there,
}
use openllm_metrics.Gateway.Usage.{Decoders}
use openllm_metrics.Gateway.Observer.Routes.{
  by_prefix, classify_route, classify_status, first_non_empty,
}
use openllm_metrics.Gateway.Observer.Events.{
  Completion, Defaults, Outside, Request, RequestContext, RuntimeEvent, build_event, classify,
  completion_event, hash_request_id, marshal,
}
use openllm_metrics.Gateway.Observer.Accepted.{IsComplete, marshal-linted}
use openllm_metrics.Gateway.Observer.Members.{lookup_env}

status_never_empty :
    (code : ℤ) (error_type : Text) → is_empty (classify_status code error_type) ≡ false
unfolding classify_status
status_never_empty code error_type = ground arith

operation_never_empty : (path : Text) → is_empty (classify_route path).operation ≡ false
unfolding classify_route by_prefix
operation_never_empty path = ground arith

model_never_empty : (m : Text) → is_empty (first_non_empty (m ∷ text "unknown" ∷ [])) ≡ false
unfolding first_non_empty trim_space
model_never_empty [] = refl
model_never_empty (c ∷ m) = ground arith

-- What the gateway takes from outside: a UUID, a time and SHA-256 in hex.
pub record IsProper (outside : Outside) : Type 0 where
  pub uuid : is_empty outside.event_uuid ≡ false
  pub time : is_empty outside.recorded_at ≡ false
  pub hash : (s : Text) → is_hex64 (outside.sha256_hex s) ≡ true

-- The request's route is one of a provider and its tenant, team and environment are known.
pub record IsAttributed (rc : RequestContext) : Type 0 where
  pub provider : is_empty rc.provider ≡ false
  pub tenant : is_empty rc.tenant ≡ false
  pub team : is_empty rc.team ≡ false
  pub env : is_empty rc.env ≡ false

completion-IsComplete :
    (outside : Outside) (decoders : Decoders) (defaults : Defaults) (r : Request)
    (comp : Completion)
    → IsProper outside
    → IsAttributed (classify outside defaults r)
    → IsComplete (completion_event outside decoders (classify outside defaults r) comp)
unfolding completion_event build_event classify hash_request_id
completion-IsComplete outside decoders defaults r comp p a = record {
  event_id = p.uuid;
  request_id_hash = p.hash _;
  provider = a.provider;
  model = model_never_empty _;
  operation = operation_never_empty r.path;
  tenant = a.tenant;
  team = a.team;
  env = a.env;
  status = status_never_empty comp.status_code comp.error_type;
  recorded_at = p.time;
}

marshal-HasTexts : (shown : ℤ → Text) (ev : RuntimeEvent) → HasTexts (marshal shown ev)
unfolding marshal lookup is_str Text-discrete
marshal-HasTexts shown ev = record {
  provider = refl;
  model = refl;
  tenant = refl;
  env = ap is_str (lookup_env shown ev);
}

-- A request on a provider's route, with a tenant, a team and an environment from its headers or the
-- defaults, is counted whatever its response was: the runtime event that the gateway builds of it, read
-- back from the bus, is never rejected by the aggregator, which commits all that is projected from it.
-- The hypotheses on the outside are that UUIDs and times are not empty and a SHA-256 is 64 hex digits.
pub completion-counted :
    {C : Type 0} (floats : Floats C) (shown : ℤ → Text) (unmarshal : Text → Option Fields)
    (payload : Text) (outside : Outside) (decoders : Decoders) (defaults : Defaults) (r : Request)
    (comp : Completion) (s : State C)
    → IsProper outside
    → IsAttributed (classify outside defaults r)
    → unmarshal payload
      ≡ some (marshal shown (completion_event outside decoders (classify outside defaults r) comp))
    → (cs : List (Contribution C)) × (projections_for floats topic_runtime_normalized
          (marshal shown (completion_event outside decoders (classify outside defaults r) comp))
        ≡ some cs)
      × (apply floats unmarshal topic_runtime_normalized payload s ≡ commit floats cs s)
completion-counted floats shown unmarshal payload outside decoders defaults r comp s p a d =
    let ev : RuntimeEvent = completion_event outside decoders (classify outside defaults r) comp in
    apply-accepts floats unmarshal topic_runtime_normalized payload (marshal shown ev) s (inr refl)
      d
      (ap ok (
          lint_event-decoded unmarshal topic_runtime_normalized payload
            (schema_there topic_runtime_normalized (inr refl)))
        ∙ ap (λ o. ok (lint_decoded topic_runtime_normalized o)) d
        ∙ marshal-linted shown ev (completion-IsComplete outside decoders defaults r comp p a))
      (marshal-HasTexts shown ev)
