-- ===== src/Gateway/Observer/Tests.antt =====
-- The gateway's observer at concrete requests.
use openllm_metrics.Prelude.{
  ℕ, ◌+◌, ◌≡◌, refl, true, Option, none, some, List, [], ◌++◌, Text, Text-discrete, text, ltb,
  length, trim_space, replicate, strip_prefix, ℕ_discrete,
}
use openllm_metrics.Prelude.Int.{ℤ, pos, pos_part, wrap, ◌+ℤ◌}
use openllm_metrics.Audit.Json.{Fields}
use openllm_metrics.Contracts.{topic_runtime_normalized}
use openllm_metrics.Contracts.Lint.{is_hex64, is_lower_hex}
use openllm_metrics.Metrics.{Floats}
use openllm_metrics.Metrics.Projection.{Contribution, projections_for}
use openllm_metrics.Metrics.Aggregator.{apply, commit, new_state}
use openllm_metrics.Gateway.Usage.{
  Decoders, gemini, bedrock, azure_openai, parse_openai, json_body, strip_sse_prefix, finalize,
  if_any, is_naught, pick_positive,
}
use openllm_metrics.Gateway.Observer.Routes.{
  azure_prefix, bedrock_prefix, classify_route, first_non_empty, gemini_prefix, parse_traceparent,
  split,
}
use openllm_metrics.Gateway.Observer.Events.{
  Completion, Defaults, Outside, Request, classify, completion_event, marshal,
}
use openllm_metrics.Gateway.Observer.Counted.{IsAttributed, IsProper, completion-counted}
use openllm_metrics.Gateway.Observer.Models.{IsNamed, classify_route-model, without}

abbrev counts : Floats ℕ
counts = record {
  nought = 0;
  unit = 1;
  add = λ x y. x + y;
  cents = λ x. x;
  is_positive = λ x. ltb 0 x;
  equal = λ x y. true;
  of_number = length;
  to_int64 = pos;
  of_int64 = pos_part;
  format_float = λ x. text "0.5";
  format_int = λ n. text "1";
}

abbrev outside : Outside
outside = record {
  request_uuid = text "r";
  event_uuid = text "e";
  sha256_hex = λ s. replicate 64 b'0';
  recorded_at = text "2026-01-01T00:00:00Z";
  latency_us = pos 7;
}

abbrev defaults : Defaults
defaults = record {
  tenant = text "acme";
  team = text "core";
  app = [];
  env = text "prod";
  project = [];
}

abbrev request : Request
request = record { path = text "/v1/chat/completions"; header = λ name. [] }

abbrev timeout : Completion
timeout = record {
  status_code = pos 504;
  error_type = text "timeout";
  retry_count = pos 1;
  is_streaming = true;
  bytes_sampled = [];
  model_override = [];
}

abbrev decoders : Decoders
decoders = record {
  openai = λ b. some (
      some (record {
        prompt_tokens = pos 3;
        completion_tokens = pos 4;
        total_tokens = pos 0;
        input_tokens = pos 0;
        output_tokens = pos 0;
      }));
  anthropic = λ b. none;
  bedrock = λ b. none;
  gemini = λ b. none;
  model = λ b. none;
}

abbrev shown : ℤ → Text
shown n = text "1"

abbrev read_back : Text → Option Fields
read_back p =
    some (
      marshal shown (completion_event outside decoders (classify outside defaults request) timeout))

proper : IsProper outside
unfolding is_hex64 is_lower_hex
proper = record { uuid = refl; time = refl; hash = λ s. refl }

attributed : IsAttributed (classify outside defaults request)
unfolding classify classify_route first_non_empty trim_space Text-discrete
attributed = record { provider = refl; tenant = refl; team = refl; env = refl }

completion-counted_example :
    (cs : List (Contribution ℕ)) × (projections_for counts topic_runtime_normalized (
        marshal shown
          (completion_event outside decoders (classify outside defaults request) timeout))
      ≡ some cs)
    × (apply counts read_back topic_runtime_normalized [] new_state ≡ commit counts cs new_state)
completion-counted_example =
    completion-counted counts shown read_back [] outside decoders defaults request timeout new_state
      proper attributed refl

abbrev NamedHere : Text → Text → Text → Type 0
NamedHere = IsNamed outside decoders defaults request.header timeout

classify_route-model_example :
    NamedHere
      (gemini_prefix ++ (text "gemini-pro" ++ text ":generateContent"))
      gemini
      (text "gemini-pro")
    × NamedHere
        (gemini_prefix ++ (text "gemini-pro" ++ text ":streamGenerateContent"))
        gemini
        (text "gemini-pro")
    × NamedHere (bedrock_prefix ++ (text "claude:0" ++ text "/invoke")) bedrock (text "claude:0")
    × NamedHere
        (bedrock_prefix ++ (text "claude:0" ++ text "/invoke-with-response-stream"))
        bedrock
        (text "claude:0")
    × NamedHere
        (azure_prefix ++ (text "claude:0" ++ text "/chat/completions"))
        azure_openai
        (text "claude:0")
unfolding without
classify_route-model_example =
    classify_route-model outside decoders defaults request.header timeout (text "gemini-pro")
      (text "claude:0") refl refl

-- The total that OpenAI leaves out is the sum.
usage_line :
    parse_openai decoders (text "data: {}")
    ≡ some (record { input = pos 3; output = pos 4; total = pos 7 })
unfolding parse_openai json_body strip_sse_prefix trim_space strip_prefix ℕ_discrete if_any finalize
    is_naught pick_positive wrap ◌+ℤ◌ Text-discrete
usage_line = refl

trace_ids : parse_traceparent (text "00-ab-cd-01") ≡ (text "ab", text "cd")
unfolding parse_traceparent split
trace_ids = refl
