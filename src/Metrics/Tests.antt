-- ===== src/Metrics/Tests.antt =====
-- The metrics endpoint at concrete events, with natural numbers for floats.
use openllm_metrics.Prelude.{◌⊎◌}
use openllm_metrics.Prelude.{
  is_empty, ℕ, ◌+◌, ◌≡◌, ◌↔◌, refl, true, false, Option, none, some, List, [], ◌∷◌, ◌++◌, Text,
  Text-discrete, text, ltb, ite, inl, length, map, arith, is_in, get, sort_strings, insert_string,
  text_leb, all_distinct, to_lower, lower_byte,
}
use openllm_metrics.Prelude.Int.{pos, pos_part}
use mathlib.Core.List.{Permᴰ}
use openllm_metrics.Audit.Json.{str, num, obj, Fields, end, field, lookup}
use openllm_metrics.Contracts.{forbidden_fields, has_schema, topics, topic_usage_normalized}
use openllm_metrics.Contracts.Lint.{
  ok, lint_event, lint_metric, lint_decoded, check_forbidden_fields, check_forbidden_value,
  check_mandatory_fields, check_required, required_of, usage_normalized_required, is_absent,
  is_zero, check_schema_version, version_issues, check_request_id_hash, hash_issues, is_banned,
  join_path,
}
use openllm_metrics.Contracts.Lint.Observations.{Conforms, lint_metric_iff}
use openllm_metrics.Metrics.{Floats}
use openllm_metrics.Metrics.Projection.{Contribution, Labels, projections_for}
use openllm_metrics.Metrics.Aggregator.{
  apply, bump_reject, commit, forbidden, label_fingerprint, label_of, write_pairs, new_state,
  snapshot, RejectReason,
}
use openllm_metrics.Metrics.Forbidden.{apply-forbidden}
use openllm_metrics.Metrics.Verdict.{Event, apply_all, total}
use openllm_metrics.Metrics.Accepted.Events.{HasTexts, apply-accepts, is_str}
use openllm_metrics.Metrics.Series.{sum_of}
use openllm_metrics.Metrics.Series.Linted.{FitAll, apply_all-Fit}
use openllm_metrics.Metrics.Series.Whole.{IsExact, is_small, plus, whole_total}
use openllm_metrics.Metrics.Series.Order.{apply_all-Perm}
use openllm_metrics.Metrics.Fingerprint.{is_plain, lacks}
use openllm_metrics.Metrics.Fingerprint.SameMap.{label_fingerprint_iff}
use openllm_metrics.Metrics.Exposition.{escape_label_value, write}
use openllm_metrics.Metrics.Exposition.Values.{read_from, read_from-escape_label_value}
use openllm_metrics.Metrics.Exposition.Lines.{FlatNumbers, line_count, lines_of}
use openllm_metrics.Metrics.Exposition.Scrape.{scrape_lines}
use openllm_metrics.Metrics.Consumer.{BusEvent, Next, event, broken, dedup_key, new_consumer, run}
use openllm_metrics.Metrics.Consumer.Replay.{after, all_identified, kept, replay_once, run-fresh}
use openllm_metrics.Metrics.Consumer.Counts.{run-counted, delivered_count, stream_error}
use openllm_metrics.Dedup.{new_lru}
use openllm_metrics.Dedup.Replay.{subset}
use openllm_metrics.Dedup.Lists.{mem}
use openllm_metrics.Dedup.Window.{spec}
use openllm_metrics.Metrics.Config.{
  Config, IsSound, apply_defaults, is_nought, loaded, or_default, parse, parse_decoded, parse_iff,
  result_of, validate,
}
use openllm_metrics.Metrics.Stream.{
  Fetches, Record, calls, calls-stream, events_of, record_count, stream_of,
}

-- A number is as long as its text.
abbrev counts : Floats ℕ
counts = record {
  nought = 0;
  unit = 1;
  add = λ x y. x + y;
  cents = λ x. x;
  is_positive = λ x. ltb 0 x;
  equal = λ x y. true;
  of_number = length;
  to_int64 = pos;
  of_int64 = pos_part;
  format_float = λ x. text "0.5";
  format_int = λ n. text "1";
}

abbrev tail_fields : Fields
tail_fields = field (text "cost_usd_minor_units") (num (text "1")) (
    field (text "period_start") (str (text "a")) (
      field (text "period_end") (str (text "b"))
        (field (text "normalized_at") (str (text "c")) end)))

abbrev usage_event : Fields
usage_event = field (text "schema_version") (str (text "1")) (
    field (text "event_id") (str (text "e")) (
      field (text "source_event_id") (str (text "s")) (
        field (text "source_mode") (str (text "pull")) (
          field (text "source_service") (str (text "x")) (
            field (text "provider") (str (text "openai")) (
              field (text "model") (str (text "m")) (
                field (text "operation") (str (text "chat")) (
                  field (text "tenant") (str (text "t")) (
                    field (text "team") (str (text "q")) (
                      field (text "env") (str (text "prod")) (
                        field (text "input_tokens") (num (text "77")) (
                          field (text "output_tokens") (num (text "8"))
                            (field (text "total_tokens") (num (text "85")) tail_fields)))))))))))))

abbrev tainted_event : Fields
tainted_event =
    field (text "extra") (obj (field (text "Prompt") (str (text "hello")) end)) usage_event

abbrev unmarshal : Text → Option Fields
unmarshal p =
    ite (Text-discrete p (text "u")) (some usage_event)
      (ite (Text-discrete p (text "t")) (some tainted_event) none)

abbrev usage : Event
usage = record { topic = topic_usage_normalized; payload = text "u" }

abbrev odd : Event
odd = record { topic = text "llm.other"; payload = text "u" }

apply-forbidden_example :
    apply counts unmarshal topic_usage_normalized (text "t") new_state
    ≡ bump_reject forbidden new_state
unfolding has_schema topics is_in Text-discrete check_forbidden_fields check_forbidden_value
    is_banned forbidden_fields to_lower lower_byte
apply-forbidden_example =
    apply-forbidden counts unmarshal topic_usage_normalized (text "t") [] tainted_event new_state
      refl refl refl

apply_all-Fit_example : FitAll (apply_all counts unmarshal (usage ∷ odd ∷ []) new_state).counters
apply_all-Fit_example = apply_all-Fit counts unmarshal (usage ∷ odd ∷ [])

whole_counts : IsExact counts some
whole_counts = record { added = λ x y m n a b h. ground arith; same = λ x y n a b. ground arith }

read_from-escape_label_value_example :
    read_from false (escape_label_value (b'"' ∷ 10 ∷ b'\\' ∷ []) ++ (b'"' ∷ text "} 1"))
    ≡ some (b'"' ∷ 10 ∷ b'\\' ∷ [], text "} 1")
read_from-escape_label_value_example =
    read_from-escape_label_value (b'"' ∷ 10 ∷ b'\\' ∷ []) (text "} 1")

usage_texts : HasTexts usage_event
unfolding is_str lookup Text-discrete
usage_texts = record { provider = refl; model = refl; tenant = refl; env = refl }

usage_linted : ok (lint_event unmarshal topic_usage_normalized (text "u")) ≡ true
unfolding lint_event lint_decoded has_schema topics is_in Text-discrete check_forbidden_fields
    check_forbidden_value is_banned forbidden_fields to_lower lower_byte check_mandatory_fields
    check_required required_of usage_normalized_required is_absent is_zero check_schema_version
    version_issues check_request_id_hash hash_issues lookup join_path
usage_linted = refl

apply-accepts_example :
    (cs : List (Contribution ℕ)) × (projections_for counts topic_usage_normalized usage_event
      ≡ some cs)
    × (apply counts unmarshal topic_usage_normalized (text "u") new_state
        ≡ commit counts cs new_state)
unfolding Text-discrete
apply-accepts_example =
    apply-accepts counts unmarshal topic_usage_normalized (text "u") usage_event new_state
      (inl refl) refl usage_linted usage_texts

apply_all-Perm_example :
    ((name key : Text)
      → (is_small (
            plus
              (some (sum_of counts name key new_state.counters))
              (whole_total counts some name key unmarshal (usage ∷ odd ∷ [])))
          ≡ false)
        ⊎ (sum_of counts name key (apply_all counts unmarshal (usage ∷ odd ∷ []) new_state).counters
            ≡ sum_of counts name key
                (apply_all counts unmarshal (odd ∷ usage ∷ []) new_state).counters))
    × ((r : RejectReason)
        → (apply_all counts unmarshal (usage ∷ odd ∷ []) new_state).rejected r
          ≡ (apply_all counts unmarshal (odd ∷ usage ∷ []) new_state).rejected r)
    × ((apply_all counts unmarshal (usage ∷ odd ∷ []) new_state).processed
        ≡ (apply_all counts unmarshal (odd ∷ usage ∷ []) new_state).processed)
apply_all-Perm_example =
    apply_all-Perm counts some unmarshal whole_counts (Permᴰ.swap refl refl) new_state

abbrev app_labels : Labels
app_labels = (text "app", text "x") ∷ (text "team", text "y") ∷ []

abbrev team_labels : Labels
team_labels = (text "team", text "y") ∷ (text "app", text "x") ∷ []

label_fingerprint_iff_example :
    (label_fingerprint app_labels ≡ label_fingerprint team_labels)
    ↔ ((k : Text) → get k app_labels ≡ get k team_labels)
unfolding is_plain lacks all_distinct is_in Text-discrete
label_fingerprint_iff_example = label_fingerprint_iff app_labels team_labels refl refl refl refl

-- A label with a NUL passes for two labels.
fingerprint_clash :
    label_fingerprint ((text "app", text "x" ++ (0 ∷ text "project=y")) ∷ [])
    ≡ label_fingerprint ((text "app", text "x") ∷ (text "project", text "y") ∷ [])
unfolding label_fingerprint write_pairs sort_strings insert_string text_leb label_of get
    Text-discrete
fingerprint_clash = refl

flat_numbers : FlatNumbers counts
unfolding line_count
flat_numbers = record { float = λ v. refl; int = λ n. refl }

scrape_lines_example :
    line_count (
      write counts
        (snapshot counts (apply_all counts unmarshal (usage ∷ []) new_state))
        (record { rejected = λ r. 0; processed = 1; series_count = 4 }))
    ≡ lines_of (snapshot counts (apply_all counts unmarshal (usage ∷ []) new_state)).counters + 13
scrape_lines_example =
    scrape_lines counts flat_numbers unmarshal (usage ∷ [])
      (record { rejected = λ r. 0; processed = 1; series_count = 4 })

abbrev first_event : BusEvent
first_event = record { topic = topic_usage_normalized; event_id = text "1"; payload = text "u" }

abbrev second_event : BusEvent
second_event = record { topic = topic_usage_normalized; event_id = text "2"; payload = text "u" }

run-fresh_example :
    (after counts unmarshal (first_event ∷ first_event ∷ []) (new_consumer (pos 2))).aggregator
    ≡ apply_all counts unmarshal
        (kept
          (spec (new_lru (pos 2)).capacity [] (map dedup_key (first_event ∷ first_event ∷ [])))
          (first_event ∷ first_event ∷ []))
        new_state
unfolding all_identified
run-fresh_example = run-fresh counts unmarshal (pos 2) (first_event ∷ first_event ∷ []) refl

replay_once_example :
    (after counts unmarshal
      ((first_event ∷ second_event ∷ []) ++ (second_event ∷ first_event ∷ second_event ∷ []))
      (new_consumer (pos 2))).aggregator
    ≡ (after counts unmarshal (first_event ∷ second_event ∷ []) (new_consumer (pos 2))).aggregator
unfolding all_identified new_lru subset mem Text-discrete dedup_key
replay_once_example =
    replay_once counts unmarshal (pos 2) (first_event ∷ second_event ∷ [])
      (second_event ∷ first_event ∷ second_event ∷ []) refl refl (omega arith) refl

abbrev stream : List Next
stream = event first_event ∷ event first_event ∷ broken (text "gone") ∷ []

run-counted_example :
    ((run counts unmarshal stream (new_consumer (pos 2))).1.consumed
        + (run counts unmarshal stream (new_consumer (pos 2))).1.deduped
      ≡ 2)
    × (total (run counts unmarshal stream (new_consumer (pos 2))).1.aggregator + 0
        ≡ total {C = ℕ} new_state + (run counts unmarshal stream (new_consumer (pos 2))).1.consumed)
    × ((run counts unmarshal stream (new_consumer (pos 2))).0 ≡ some (text "gone"))
unfolding delivered_count stream_error new_consumer
run-counted_example = run-counted counts unmarshal stream (new_consumer (pos 2))

lint_metric_iff_example :
    (ok (lint_metric (text "llm_requests_total") app_labels) ≡ true)
    ↔ Conforms (text "llm_requests_total") app_labels
lint_metric_iff_example = lint_metric_iff (text "llm_requests_total") app_labels

abbrev plain_config : Config
plain_config = record {
  port = pos 0;
  brokers = text "b:9092" ∷ [];
  client_id = [];
  group = [];
  topics = [];
  window_hours = pos 0;
}

abbrev no_yaml : Text → Option Config
no_yaml raw = some plain_config

parse_iff_example :
    ((d : Config)
      → (parse no_yaml [] ≡ loaded d) ↔ (
          (c : Config) × (no_yaml [] ≡ some c)
          × (d ≡ apply_defaults c)
          × IsSound (apply_defaults c)))
    × ((d : Config) → parse no_yaml [] ≡ loaded d → is_empty d.group ≡ false)
parse_iff_example = parse_iff no_yaml []

-- A configuration that leaves everything to the defaults but its brokers is accepted.
plain_accepted : parse no_yaml [] ≡ loaded (apply_defaults plain_config)
unfolding parse parse_decoded result_of validate apply_defaults or_default is_nought
plain_accepted = refl

abbrev bus_record : Record
bus_record = record {
  topic = topic_usage_normalized;
  headers = (text "x-event-id", text "1") ∷ [];
  value = text "u";
}

abbrev polls : List Fetches
polls =
    record { closed = false; context_error = false; errors = []; records = [] }
    ∷ record { closed = false; context_error = false; errors = []; records = bus_record ∷ [] }
    ∷ record { closed = true; context_error = false; errors = []; records = [] }
    ∷ []

calls-stream_example :
    calls 3 (bus_record ∷ []) polls ≡ events_of (bus_record ∷ []) ++ stream_of polls
unfolding record_count
calls-stream_example = calls-stream 3 (bus_record ∷ []) polls (omega arith)
