-- ===== src/Metrics/Accepted/Registered.antt =====
-- What the registry (packages/contracts/metrics/go/registry.go) allows the metrics that the
-- projections name.
use openllm_metrics.Prelude.{
  ◌≡◌, refl, true, false, some, Text, Text-discrete, text, is_in, to_lower, lower_byte,
}
use openllm_metrics.Contracts.{
  Metric, find_by_name, find_in, forbidden_fields, registry, requests_total, input_tokens_total,
  output_tokens_total, total_tokens_total, cost_usd_total, errors_total, retries_total,
  timeouts_total, rate_limit_events_total,
}
use openllm_metrics.Contracts.Lint.{is_banned}
use openllm_metrics.Metrics.Accepted.{all_in, allowed_by, base_keys}

-- A registered metric that allows the labels of every event.
abbrev pub Based : Text → Type 0
Based name =
    (m : Metric) × (find_by_name name ≡ some m) × (all_in base_keys m.allowed_labels ≡ true)

pub Based-requests : Based (text "llm_requests_total")
unfolding find_by_name find_in registry Text-discrete all_in is_in requests_total
Based-requests = (requests_total, refl, refl)

pub Based-input_tokens : Based (text "llm_input_tokens_total")
unfolding find_by_name find_in registry Text-discrete all_in is_in requests_total input_tokens_total
Based-input_tokens = (input_tokens_total, refl, refl)

pub Based-output_tokens : Based (text "llm_output_tokens_total")
unfolding find_by_name find_in registry Text-discrete all_in is_in requests_total input_tokens_total
    output_tokens_total
Based-output_tokens = (output_tokens_total, refl, refl)

pub Based-total_tokens : Based (text "llm_total_tokens_total")
unfolding find_by_name find_in registry Text-discrete all_in is_in requests_total input_tokens_total
    output_tokens_total total_tokens_total
Based-total_tokens = (total_tokens_total, refl, refl)

pub Based-cost_usd : Based (text "llm_cost_usd_total")
unfolding find_by_name find_in registry Text-discrete all_in is_in requests_total input_tokens_total
    output_tokens_total total_tokens_total cost_usd_total
Based-cost_usd = (cost_usd_total, refl, refl)

pub Based-errors : Based (text "llm_errors_total")
unfolding find_by_name find_in registry Text-discrete all_in is_in requests_total input_tokens_total
    output_tokens_total total_tokens_total cost_usd_total errors_total
Based-errors = (errors_total, refl, refl)

pub Based-retries : Based (text "llm_retries_total")
unfolding find_by_name find_in registry Text-discrete all_in is_in requests_total input_tokens_total
    output_tokens_total total_tokens_total cost_usd_total errors_total retries_total
Based-retries = (retries_total, refl, refl)

pub Based-timeouts : Based (text "llm_timeouts_total")
unfolding find_by_name find_in registry Text-discrete all_in is_in requests_total input_tokens_total
    output_tokens_total total_tokens_total cost_usd_total errors_total retries_total timeouts_total
Based-timeouts = (timeouts_total, refl, refl)

pub Based-rate_limit_events : Based (text "llm_rate_limit_events_total")
unfolding find_by_name find_in registry Text-discrete all_in is_in requests_total input_tokens_total
    output_tokens_total total_tokens_total cost_usd_total errors_total retries_total timeouts_total
    rate_limit_events_total
Based-rate_limit_events = (rate_limit_events_total, refl, refl)

pub requests_allow_error_type :
    is_in (text "error_type") (allowed_by (find_by_name (text "llm_requests_total"))) ≡ true
unfolding find_by_name find_in registry Text-discrete allowed_by is_in requests_total
    input_tokens_total output_tokens_total total_tokens_total cost_usd_total errors_total
    retries_total timeouts_total rate_limit_events_total
requests_allow_error_type = refl

pub requests_allow_status_code :
    is_in (text "status_code") (allowed_by (find_by_name (text "llm_requests_total"))) ≡ true
unfolding find_by_name find_in registry Text-discrete allowed_by is_in requests_total
    input_tokens_total output_tokens_total total_tokens_total cost_usd_total errors_total
    retries_total timeouts_total rate_limit_events_total
requests_allow_status_code = refl

pub errors_allow_error_type :
    is_in (text "error_type") (allowed_by (find_by_name (text "llm_errors_total"))) ≡ true
unfolding find_by_name find_in registry Text-discrete allowed_by is_in requests_total
    input_tokens_total output_tokens_total total_tokens_total cost_usd_total errors_total
    retries_total timeouts_total rate_limit_events_total
errors_allow_error_type = refl

pub errors_allow_status_code :
    is_in (text "status_code") (allowed_by (find_by_name (text "llm_errors_total"))) ≡ true
unfolding find_by_name find_in registry Text-discrete allowed_by is_in requests_total
    input_tokens_total output_tokens_total total_tokens_total cost_usd_total errors_total
    retries_total timeouts_total rate_limit_events_total
errors_allow_status_code = refl

pub retries_allow_error_type :
    is_in (text "error_type") (allowed_by (find_by_name (text "llm_retries_total"))) ≡ true
unfolding find_by_name find_in registry Text-discrete allowed_by is_in requests_total
    input_tokens_total output_tokens_total total_tokens_total cost_usd_total errors_total
    retries_total timeouts_total rate_limit_events_total
retries_allow_error_type = refl

pub rate_limit_events_allow_status_code :
    is_in (text "status_code") (allowed_by (find_by_name (text "llm_rate_limit_events_total")))
    ≡ true
unfolding find_by_name find_in registry Text-discrete allowed_by is_in requests_total
    input_tokens_total output_tokens_total total_tokens_total cost_usd_total errors_total
    retries_total timeouts_total rate_limit_events_total
rate_limit_events_allow_status_code = refl

pub error_type_clean : is_banned (text "error_type") ≡ false
unfolding is_banned is_in Text-discrete to_lower lower_byte forbidden_fields
error_type_clean = refl

pub status_code_clean : is_banned (text "status_code") ≡ false
unfolding is_banned is_in Text-discrete to_lower lower_byte forbidden_fields
status_code_clean = refl
