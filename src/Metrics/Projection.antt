-- ===== src/Metrics/Projection.antt =====
-- What one event adds to the counters:
-- apps/api/metrics-endpoint/internal/aggregator/projection.go.
use openllm_metrics.Prelude.{
  Option, none, some, List, [], ◌∷◌, ◌++◌, Text, Text-discrete, text, is_empty, ite, if◌then◌else◌,
  put,
}
use openllm_metrics.Audit.Json.{Value, str, num, Fields, lookup}
use openllm_metrics.Contracts.{topic_runtime_normalized, topic_usage_normalized}
use openllm_metrics.Metrics.{Floats}

-- A map[string]string.
abbrev pub Labels : Type 0
Labels = List (Text × Text)

pub record Contribution (C : Type 0) : Type 0 where
  pub metric : Text
  pub labels : Labels
  pub value : C

unfoldable pub str_of : Option Value → Text
str_of none = []
str_of (some (str s)) = s
str_of (some v) = []

unfoldable pub get_str : Fields → Text → Text
unfolding str_of
get_str event key = str_of (lookup key event)

unfoldable pub add_if_non_empty : Text → Text → Labels → Labels
add_if_non_empty k v labels = if is_empty v then labels else put k v labels

-- The labels of the map literal.
unfoldable pub literal_labels : Fields → Labels
literal_labels event =
    (text "provider", get_str event (text "provider"))
    ∷ (text "model", get_str event (text "model"))
    ∷ (text "operation", get_str event (text "operation"))
    ∷ (text "tenant", get_str event (text "tenant"))
    ∷ (text "team", get_str event (text "team"))
    ∷ (text "env", get_str event (text "env"))
    ∷ []

unfoldable pub base_labels : Fields → Labels
base_labels event = add_if_non_empty (text "region") (get_str event (text "region")) (
    add_if_non_empty (text "project") (get_str event (text "project"))
      (add_if_non_empty (text "app") (get_str event (text "app")) (literal_labels event)))

module _ {C : Type 0} (floats : Floats C) where
  num_of : Option Value → Option C
  num_of none = none
  num_of (some (num n)) = some (floats.of_number n)
  num_of (some v) = none

  -- A JSON number decodes to a float64 alone, so the cases int and int64 never arise.
  unfoldable pub get_num : Fields → Text → Option C
  unfolding num_of
  get_num event key = num_of (lookup key event)

  unfoldable pub add_counted : Text → Labels → Option C → List (Contribution C)
  add_counted name labels none = []
  add_counted name labels (some v) =
      if floats.is_positive v then record { metric = name; labels = labels; value = v } ∷ [] else []

  -- if v, ok := getNum(event, key); ok && v > 0
  unfoldable pub counted : Text → Text → Labels → Fields → List (Contribution C)
  unfolding add_counted
  counted name key labels event = add_counted name labels (get_num event key)

  unfoldable pub add_cost : Labels → Option C → List (Contribution C)
  add_cost labels none = []
  add_cost labels (some v) =
      if floats.is_positive v
      then record { metric = text "llm_cost_usd_total"; labels = labels; value = floats.cents v }
        ∷ []
      else []

  unfoldable pub cost : Labels → Fields → List (Contribution C)
  unfolding add_cost
  cost labels event = add_cost labels (get_num event (text "cost_usd_minor_units"))

  unfoldable pub project_usage : Fields → List (Contribution C)
  project_usage event =
      let labels : Labels = base_labels event in
      counted (text "llm_requests_total") (text "request_count") labels event
      ++ (counted (text "llm_input_tokens_total") (text "input_tokens") labels event
          ++ (counted (text "llm_output_tokens_total") (text "output_tokens") labels event
              ++ (counted (text "llm_total_tokens_total") (text "total_tokens") labels event
                  ++ cost labels event)))

  status_text : Option C → Text
  status_text none = []
  status_text (some v) = floats.format_int (floats.to_int64 v)

  unfoldable pub status_code : Fields → Text
  unfolding status_text
  status_code event = status_text (get_num event (text "status_code"))

  -- A count of one.
  abbrev pub once : Text → Labels → Contribution C
  once name labels = record { metric = name; labels = labels; value = floats.unit }

  unfoldable pub request_labels : Fields → Labels
  request_labels event =
      add_if_non_empty (text "error_type") (get_str event (text "error_type"))
        (add_if_non_empty (text "status_code") (status_code event) (base_labels event))

  -- The switch on the event's status.
  unfoldable pub failures : Text → Fields → List (Contribution C)
  failures status event =
      ite (Text-discrete status (text "error"))
        (once (text "llm_errors_total") (request_labels event) ∷ [])
        (ite (Text-discrete status (text "timeout"))
          (once (text "llm_timeouts_total") (base_labels event) ∷ [])
          (ite (Text-discrete status (text "rate_limited"))
            (once (text "llm_rate_limit_events_total")
                (add_if_non_empty (text "status_code") (status_code event) (base_labels event))
              ∷ [])
            []))

  unfoldable pub project_runtime : Fields → List (Contribution C)
  project_runtime event =
      let labels : Labels = base_labels event in
      once (text "llm_requests_total") (request_labels event)
      ∷ (counted (text "llm_input_tokens_total") (text "input_tokens") labels event
          ++ (counted (text "llm_output_tokens_total") (text "output_tokens") labels event
              ++ (counted (text "llm_total_tokens_total") (text "total_tokens") labels event
                  ++ (failures (get_str event (text "status")) event
                      ++ counted (text "llm_retries_total") (text "retry_count")
                          (add_if_non_empty (text "error_type") (get_str event (text "error_type"))
                            labels)
                          event))))

  -- `none` is the reason unknown_topic.
  unfoldable pub projections_for : Text → Fields → Option (List (Contribution C))
  projections_for topic event =
      ite (Text-discrete topic topic_usage_normalized) (some (project_usage event))
        (ite (Text-discrete topic topic_runtime_normalized) (some (project_runtime event)) none)
