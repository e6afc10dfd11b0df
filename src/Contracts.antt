-- ===== src/Contracts.antt =====
-- The contracts that every service shares: the metric registry
-- packages/contracts/metrics/go/registry.go and the topics of
-- packages/contracts/telemetry/go/schemas.go. The schema bytes themselves are left out.
pub mod Lint
use openllm_metrics.Prelude.{
  ℕ, Bool, true, false, Option, none, some, List, [], ◌∷◌, Text, Text-discrete, text, ite, map,
}
use openllm_metrics.Prelude.Maps.{is_in}

pub data MetricType : Type 0 where
  counter : MetricType
  gauge : MetricType
  histogram : MetricType

pub data MetricUnit : Type 0 where
  one : MetricUnit
  tokens : MetricUnit
  usd : MetricUnit
  milliseconds : MetricUnit
  seconds : MetricUnit
  ratio : MetricUnit

abbrev pub label_provider : Text
label_provider = text "provider"

abbrev pub label_model : Text
label_model = text "model"

abbrev pub label_operation : Text
label_operation = text "operation"

abbrev pub label_app : Text
label_app = text "app"

abbrev pub label_team : Text
label_team = text "team"

abbrev pub label_env : Text
label_env = text "env"

abbrev pub label_tenant : Text
label_tenant = text "tenant"

abbrev pub label_project : Text
label_project = text "project"

abbrev pub label_status_code : Text
label_status_code = text "status_code"

abbrev pub label_error_type : Text
label_error_type = text "error_type"

abbrev pub label_region : Text
label_region = text "region"

abbrev pub label_routing_reason : Text
label_routing_reason = text "routing_reason"

abbrev pub label_policy_name : Text
label_policy_name = text "policy_name"

abbrev pub label_fallback_reason : Text
label_fallback_reason = text "fallback_reason"

abbrev pub label_from_model : Text
label_from_model = text "from_model"

abbrev pub label_to_model : Text
label_to_model = text "to_model"

unfoldable pub labels : List Text
labels =
    label_provider ∷ label_model ∷ label_operation ∷ label_app ∷ label_team ∷ label_env
    ∷ label_tenant ∷ label_project ∷ label_status_code ∷ label_error_type ∷ label_region
    ∷ label_routing_reason ∷ label_policy_name ∷ label_fallback_reason ∷ label_from_model
    ∷ label_to_model ∷ []

unfoldable pub mandatory_labels : List Text
mandatory_labels = label_provider ∷ label_model ∷ label_tenant ∷ label_env ∷ []

unfoldable pub forbidden_fields : List Text
forbidden_fields =
    text "prompt"
    ∷ text "completion"
    ∷ text "input"
    ∷ text "output"
    ∷ text "messages"
    ∷ text "embedding"
    ∷ text "content"
    ∷ text "request_body"
    ∷ text "response_body"
    ∷ []

pub record Metric : Type 0 where
  pub name : Text
  pub kind : MetricType
  pub unit : MetricUnit
  pub description : Text
  pub allowed_labels : List Text
  pub cardinality_budget : ℕ
  pub introduced : Text

unfoldable pub requests_total : Metric
requests_total = record {
  name = text "llm_requests_total";
  kind = counter;
  unit = one;
  description = text "Total LLM API requests observed by the platform.";
  allowed_labels =
      label_provider ∷ label_model ∷ label_operation ∷ label_app ∷ label_team ∷ label_env
      ∷ label_tenant ∷ label_project ∷ label_status_code ∷ label_error_type ∷ label_region ∷ [];
  cardinality_budget = 50000;
  introduced = text "F008";
}

unfoldable pub input_tokens_total : Metric
input_tokens_total = record {
  name = text "llm_input_tokens_total";
  kind = counter;
  unit = tokens;
  description = text "Cumulative input tokens consumed across all providers.";
  allowed_labels =
      label_provider ∷ label_model ∷ label_operation ∷ label_app ∷ label_team ∷ label_env
      ∷ label_tenant ∷ label_project ∷ label_region ∷ [];
  cardinality_budget = 30000;
  introduced = text "F008";
}

unfoldable pub output_tokens_total : Metric
output_tokens_total = record {
  name = text "llm_output_tokens_total";
  kind = counter;
  unit = tokens;
  description = text "Cumulative output tokens generated across all providers.";
  allowed_labels =
      label_provider ∷ label_model ∷ label_operation ∷ label_app ∷ label_team ∷ label_env
      ∷ label_tenant ∷ label_project ∷ label_region ∷ [];
  cardinality_budget = 30000;
  introduced = text "F008";
}

unfoldable pub total_tokens_total : Metric
total_tokens_total = record {
  name = text "llm_total_tokens_total";
  kind = counter;
  unit = tokens;
  description = text "Cumulative total tokens (input + output) across all providers.";
  allowed_labels =
      label_provider ∷ label_model ∷ label_operation ∷ label_app ∷ label_team ∷ label_env
      ∷ label_tenant ∷ label_project ∷ label_region ∷ [];
  cardinality_budget = 30000;
  introduced = text "F008";
}

unfoldable pub cost_usd_total : Metric
cost_usd_total = record {
  name = text "llm_cost_usd_total";
  kind = counter;
  unit = usd;
  description = text "Cumulative cost in USD (float). Event payloads carry integer minor units.";
  allowed_labels =
      label_provider ∷ label_model ∷ label_operation ∷ label_app ∷ label_team ∷ label_env
      ∷ label_tenant ∷ label_project ∷ label_region ∷ [];
  cardinality_budget = 30000;
  introduced = text "F008";
}

unfoldable pub errors_total : Metric
errors_total = record {
  name = text "llm_errors_total";
  kind = counter;
  unit = one;
  description = text "Provider API errors normalized into the canonical error_type set.";
  allowed_labels =
      label_provider ∷ label_model ∷ label_operation ∷ label_app ∷ label_team ∷ label_env
      ∷ label_tenant ∷ label_project ∷ label_status_code ∷ label_error_type ∷ label_region ∷ [];
  cardinality_budget = 60000;
  introduced = text "F008";
}

unfoldable pub retries_total : Metric
retries_total = record {
  name = text "llm_retries_total";
  kind = counter;
  unit = one;
  description = text "Number of retried provider requests, by reason.";
  allowed_labels =
      label_provider ∷ label_model ∷ label_operation ∷ label_app ∷ label_team ∷ label_env
      ∷ label_tenant ∷ label_project ∷ label_error_type ∷ label_region ∷ [];
  cardinality_budget = 40000;
  introduced = text "F008";
}

unfoldable pub timeouts_total : Metric
timeouts_total = record {
  name = text "llm_timeouts_total";
  kind = counter;
  unit = one;
  description = text "Number of provider requests that timed out.";
  allowed_labels =
      label_provider ∷ label_model ∷ label_operation ∷ label_app ∷ label_team ∷ label_env
      ∷ label_tenant ∷ label_project ∷ label_region ∷ [];
  cardinality_budget = 30000;
  introduced = text "F008";
}

unfoldable pub rate_limit_events_total : Metric
rate_limit_events_total = record {
  name = text "llm_rate_limit_events_total";
  kind = counter;
  unit = one;
  description = text "Provider rate-limit events (HTTP 429 / quota exceeded).";
  allowed_labels =
      label_provider ∷ label_model ∷ label_operation ∷ label_app ∷ label_team ∷ label_env
      ∷ label_tenant ∷ label_project ∷ label_status_code ∷ label_region ∷ [];
  cardinality_budget = 30000;
  introduced = text "F008";
}

unfoldable pub provider_api_errors_total : Metric
provider_api_errors_total = record {
  name = text "llm_provider_api_errors_total";
  kind = counter;
  unit = one;
  description =
      text "Provider API and pipeline errors observed by pollers / aggregators, by reason.";
  allowed_labels = label_provider ∷ label_model ∷ label_tenant ∷ label_env ∷ label_error_type ∷ [];
  cardinality_budget = 200;
  introduced = text "F009";
}

unfoldable pub registry : List Metric
unfolding requests_total input_tokens_total output_tokens_total total_tokens_total cost_usd_total
    errors_total retries_total timeouts_total rate_limit_events_total provider_api_errors_total
registry =
    requests_total ∷ input_tokens_total ∷ output_tokens_total ∷ total_tokens_total ∷ cost_usd_total
    ∷ errors_total ∷ retries_total ∷ timeouts_total ∷ rate_limit_events_total
    ∷ provider_api_errors_total ∷ []

unfoldable pub find_in : Text → List Metric → Option Metric
find_in n [] = none
find_in n (m ∷ ms) = ite (Text-discrete m.name n) (some m) (find_in n ms)

-- FindByName, with `none` for ErrUnknownMetric; the indices that the clients build over the
-- registry answer the same, since no two metrics share a name.
unfoldable pub find_by_name : Text → Option Metric
unfolding find_in registry
find_by_name n = find_in n registry

unfoldable pub is_allowed_label : Metric → Text → Bool
is_allowed_label m l = is_in l m.allowed_labels

abbrev pub topic_usage_normalized : Text
topic_usage_normalized = text "llm.usage.normalized"

abbrev pub topic_runtime_normalized : Text
topic_runtime_normalized = text "llm.runtime.normalized"

abbrev pub topic_usage_reconciled : Text
topic_usage_reconciled = text "llm.usage.reconciled"

abbrev pub topic_cost_estimated : Text
topic_cost_estimated = text "llm.cost.estimated"

abbrev pub topic_reconciliation_window : Text
topic_reconciliation_window = text "llm.reconciliation.window"

abbrev pub topic_quota_risk_v1 : Text
topic_quota_risk_v1 = text "llm.quota.risk.v1"

abbrev pub schema_version : Text
schema_version = text "1"

unfoldable pub topics : List Text
topics =
    topic_usage_normalized ∷ topic_runtime_normalized ∷ topic_usage_reconciled
    ∷ topic_cost_estimated ∷ topic_reconciliation_window ∷ topic_quota_risk_v1 ∷ []

-- Whether Schema has bytes for the topic; its only error is ErrUnknownTopic.
unfoldable pub has_schema : Text → Bool
unfolding topics
has_schema t = is_in t topics
