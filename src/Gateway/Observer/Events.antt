-- ===== src/Gateway/Observer/Events.antt =====
-- From a request and its completion to the runtime event: Classify, ObserveCompletion and buildEvent of
-- apps/gateway/internal/observer/observer.go, RuntimeEvent and Emit of
-- apps/gateway/internal/busproducer/busproducer.go. The metrics registry is what it is given.
use openllm_metrics.Prelude.{
  Bool, true, false, Option, none, some, [], ◌∷◌, Text, Text-discrete, text, is_empty, ite,
  if◌then◌else◌,
}
use openllm_metrics.Prelude.Int.{ℤ}
use openllm_metrics.Audit.Json.{Value, bool, str, num, Fields, end, field}
use openllm_metrics.Contracts.{schema_version}
use openllm_metrics.Gateway.Usage.{
  Decoders, Tokens, is_naught, openai, anthropic, gemini, bedrock, azure_openai, parse_anthropic,
  parse_azure_openai, parse_bedrock, parse_gemini, parse_model, parse_openai,
}
use openllm_metrics.Gateway.Observer.Routes.{
  Route, classify_route, classify_status, first_non_empty, parse_traceparent,
}

-- The fallback labels of the configuration.
pub record Defaults : Type 0 where
  pub tenant : Text
  pub team : Text
  pub app : Text
  pub env : Text
  pub project : Text

-- A request with its Header.Get.
pub record Request : Type 0 where
  pub path : Text
  pub header : Text → Text

-- A fresh UUID for a request without an id, the id of the event, SHA-256 in hex, and the time.
pub record Outside : Type 0 where
  pub request_uuid : Text
  pub event_uuid : Text
  pub sha256_hex : Text → Text
  pub recorded_at : Text
  pub latency_us : ℤ

pub record RequestContext : Type 0 where
  pub provider : Text
  pub operation : Text
  pub model : Text
  pub route : Text
  pub tenant : Text
  pub team : Text
  pub app : Text
  pub env : Text
  pub project : Text
  pub request_id_hash : Text
  pub trace_id : Text
  pub span_id : Text

unfoldable pub hash_request_id : Outside → Request → Text
hash_request_id outside r =
    let id : Text = r.header (text "X-Request-ID") in
    outside.sha256_hex (if is_empty id then outside.request_uuid else id)

unfoldable pub classify : Outside → Defaults → Request → RequestContext
classify outside defaults r =
    let route : Route = classify_route r.path in
    let ids : Text × Text = parse_traceparent (r.header (text "traceparent")) in
    record {
      provider = route.provider;
      operation = route.operation;
      model = route.model;
      route = r.path;
      tenant = first_non_empty (r.header (text "X-OLM-Tenant") ∷ defaults.tenant ∷ []);
      team = first_non_empty (r.header (text "X-OLM-Team") ∷ defaults.team ∷ []);
      app = first_non_empty (r.header (text "X-OLM-App") ∷ defaults.app ∷ []);
      env = first_non_empty (r.header (text "X-OLM-Env") ∷ defaults.env ∷ []);
      project = first_non_empty (r.header (text "X-OLM-Project") ∷ defaults.project ∷ []);
      request_id_hash = hash_request_id outside r;
      trace_id = ids.0;
      span_id = ids.1;
    }

pub record Completion : Type 0 where
  pub status_code : ℤ
  pub error_type : Text
  pub retry_count : ℤ
  pub is_streaming : Bool
  pub bytes_sampled : Text
  pub model_override : Text

-- The fields region and ttfb_us, which nothing sets, are left out.
pub record RuntimeEvent : Type 0 where
  pub event_id : Text
  pub request_id_hash : Text
  pub provider : Text
  pub model : Text
  pub operation : Text
  pub tenant : Text
  pub team : Text
  pub app : Text
  pub env : Text
  pub project : Text
  pub status : Text
  pub status_code : ℤ
  pub error_type : Text
  pub latency_us : ℤ
  pub tokens : Option Tokens
  pub retry_count : ℤ
  pub is_streaming : Bool
  pub recorded_at : Text
  pub trace_id : Text
  pub span_id : Text

unfoldable pub parse_usage : Decoders → Text → Text → Option Tokens
parse_usage decoders provider body =
    if is_empty body
    then none
    else ite (Text-discrete provider openai) (parse_openai decoders body) (
        ite (Text-discrete provider anthropic) (parse_anthropic decoders body) (
          ite (Text-discrete provider gemini) (parse_gemini decoders body) (
            ite (Text-discrete provider bedrock) (parse_bedrock decoders body)
              (ite (Text-discrete provider azure_openai) (parse_azure_openai decoders body) none))))

unfoldable pub body_model : Decoders → Text → Text → Text
body_model decoders provider body = if is_empty body then [] else parse_model decoders provider body

unfoldable pub build_event :
    Outside → RequestContext → Completion → Text → Text → Option Tokens → RuntimeEvent
build_event outside rc comp model status tokens = record {
  event_id = outside.event_uuid;
  request_id_hash = rc.request_id_hash;
  provider = rc.provider;
  model = first_non_empty (model ∷ text "unknown" ∷ []);
  operation = rc.operation;
  tenant = rc.tenant;
  team = rc.team;
  app = rc.app;
  env = rc.env;
  project = rc.project;
  status = status;
  status_code = comp.status_code;
  error_type = comp.error_type;
  latency_us = outside.latency_us;
  tokens = tokens;
  retry_count = comp.retry_count;
  is_streaming = comp.is_streaming;
  recorded_at = outside.recorded_at;
  trace_id = rc.trace_id;
  span_id = rc.span_id;
}

-- The event that ObserveCompletion builds.
unfoldable pub completion_event : Outside → Decoders → RequestContext → Completion → RuntimeEvent
completion_event outside decoders rc comp =
    build_event outside rc comp
      (first_non_empty
        (comp.model_override ∷ body_model decoders rc.provider comp.bytes_sampled ∷ rc.model ∷ []))
      (classify_status comp.status_code comp.error_type)
      (parse_usage decoders rc.provider comp.bytes_sampled)

-- omitempty: the field is there where it has a value.
unfoldable pub optional : Text → Option Value → Fields → Fields
optional k none rest = rest
optional k (some v) rest = field k v rest

unfoldable pub text_value : Text → Option Value
text_value s = if is_empty s then none else some (str s)

-- json.Marshal of the event, as the members of the object; `shown` writes an integer.
module _ (shown : ℤ → Text) where
  unfoldable pub int_value : ℤ → Option Value
  int_value n = if is_naught n then none else some (num (shown n))

  unfoldable pub count_value : Option ℤ → Option Value
  count_value none = none
  count_value (some n) = some (num (shown n))

  unfoldable pub trace_fields : RuntimeEvent → Fields
  trace_fields ev = field (text "recorded_at") (str ev.recorded_at) (
      optional (text "trace_id") (text_value ev.trace_id)
        (optional (text "span_id") (text_value ev.span_id) end))

  unfoldable pub token : (Tokens → ℤ) → Option Tokens → Option ℤ
  token f none = none
  token f (some t) = some (f t)

  unfoldable pub count_fields : RuntimeEvent → Fields
  unfolding token
  count_fields ev = field (text "latency_us") (num (shown ev.latency_us)) (
      optional (text "input_tokens") (count_value (token (λ t. t.input) ev.tokens)) (
        optional (text "output_tokens") (count_value (token (λ t. t.output) ev.tokens)) (
          optional (text "total_tokens") (count_value (token (λ t. t.total) ev.tokens)) (
            optional (text "retry_count") (int_value ev.retry_count) (
              optional (text "is_streaming") (if ev.is_streaming then some (bool true) else none)
                (trace_fields ev))))))

  unfoldable pub status_fields : RuntimeEvent → Fields
  unfolding count_fields
  status_fields ev = field (text "status") (str ev.status) (
      optional (text "status_code") (int_value ev.status_code)
        (optional (text "error_type") (text_value ev.error_type) (count_fields ev)))

  unfoldable pub env_fields : RuntimeEvent → Fields
  env_fields ev =
      field (text "env") (str ev.env)
        (optional (text "project") (text_value ev.project) (status_fields ev))

  unfoldable pub marshal : RuntimeEvent → Fields
  unfolding env_fields
  marshal ev = field (text "schema_version") (str schema_version) (
      field (text "event_id") (str ev.event_id) (
        field (text "source_mode") (str (text "proxy")) (
          field (text "source_service") (str (text "apps/gateway")) (
            field (text "request_id_hash") (str ev.request_id_hash) (
              field (text "provider") (str ev.provider) (
                field (text "model") (str ev.model) (
                  field (text "operation") (str ev.operation) (
                    field (text "tenant") (str ev.tenant) (
                      field (text "team") (str ev.team)
                        (optional (text "app") (text_value ev.app) (env_fields ev)))))))))))

  -- Emit, with whether it succeeds; `produce` is the bus producer.
  unfoldable pub emit : (Fields → Bool) → RuntimeEvent → Bool
  emit produce ev =
      if is_empty ev.event_id
      then false
      else if is_empty ev.tenant
      then false
      else produce (marshal ev)

-- What ObserveCompletion tells the metrics registry: whether the response had usage, and whether the
-- event was published, with the event.
pub record Observed : Type 0 where
  pub event : RuntimeEvent
  pub has_usage : Bool
  pub published : Bool

unfoldable pub observe_completion :
    (ℤ → Text) → (Fields → Bool) → Outside → Decoders → RequestContext → Completion → Observed
observe_completion shown produce outside decoders rc comp =
    let ev : RuntimeEvent = completion_event outside decoders rc comp in
    record {
      event = ev;
      has_usage = elim (ev.tokens) [ none ↦ false | some t ↦ true ];
      published = emit shown produce ev;
    }
