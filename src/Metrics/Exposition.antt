-- ===== src/Metrics/Exposition.antt =====
-- The text format of /metrics: apps/api/metrics-endpoint/internal/exposition/exposition.go. What is
-- modelled is the text that a writer which takes every write receives.
pub mod Values
pub mod Lines
pub mod Scrape
use openllm_metrics.Prelude.{
  ℕ, ◌==◌, Bool, true, false, Option, none, some, List, [], ◌∷◌, ◌++◌, Text, text, if◌then◌else◌,
  keys, sort_strings,
}
use openllm_metrics.Prelude.Int.{ℤ, pos}
use openllm_metrics.Contracts.{Metric, MetricType, counter, gauge, histogram}
use openllm_metrics.Metrics.{Floats}
use openllm_metrics.Metrics.Projection.{Labels}
use openllm_metrics.Metrics.Aggregator.{
  CounterSeries, RejectReason, decode, schema, forbidden, cardinality, unknown_topic, Snapshot,
  SnapshotMetric, all_reject_reasons, label_of,
}

pub record SelfMetrics : Type 0 where
  pub rejected : RejectReason → ℕ
  pub processed : ℕ
  pub series_count : ℕ

-- strings.ReplaceAll(s, string(b), r)
unfoldable pub replace_all : ℕ → Text → Text → Text
replace_all b r [] = []
replace_all b r (c ∷ s) = (if c == b then r else c ∷ []) ++ replace_all b r s

abbrev pub newline : ℕ
newline = 10

abbrev pub escaped : ℕ → Text
escaped c = b'\\' ∷ c ∷ []

unfoldable pub escape_help : Text → Text
escape_help s = replace_all newline (escaped b'n') (replace_all b'\\' (escaped b'\\') s)

unfoldable pub escape_label_value : Text → Text
escape_label_value s =
    replace_all newline (escaped b'n')
      (replace_all b'"' (escaped b'"') (replace_all b'\\' (escaped b'\\') s))

unfoldable pub write_metric_header : Text → Text → Text → Text
write_metric_header name help typ =
    text "# HELP "
    ++ (name
        ++ (b' '
            ∷ (escape_help help
                ++ (newline ∷ (text "# TYPE " ++ (name ++ (b' ' ∷ (typ ++ (newline ∷ [])))))))))

-- k="v"
unfoldable pub write_pair : Text → Labels → Text
write_pair k labels = k ++ (b'=' ∷ b'"' ∷ (escape_label_value (label_of k labels) ++ (b'"' ∷ [])))

unfoldable pub write_labels : List Text → Labels → Text
write_labels [] labels = []
write_labels (k ∷ []) labels = write_pair k labels
write_labels (k ∷ j ∷ ks) labels = write_pair k labels ++ (b',' ∷ write_labels (j ∷ ks) labels)

unfoldable pub write_series : Text → Labels → Text → Text
write_series name [] value = name ++ (b' ' ∷ (value ++ (newline ∷ [])))
write_series name (l ∷ ls) value =
    name
    ++ (b'{'
        ∷ (write_labels (sort_strings (keys (l ∷ ls))) (l ∷ ls)
            ++ (b'}' ∷ b' ' ∷ (value ++ (newline ∷ [])))))

unfoldable pub reason_text : RejectReason → Text
reason_text decode = text "decode"
reason_text schema = text "schema"
reason_text forbidden = text "forbidden"
reason_text cardinality = text "cardinality"
reason_text unknown_topic = text "unknown_topic"

unfoldable pub type_text : MetricType → Text
type_text counter = text "counter"
type_text gauge = text "gauge"
type_text histogram = text "histogram"

-- The zero Metric where the registry has none.
unfoldable pub type_of : Option Metric → Text
type_of none = []
type_of (some m) = type_text m.kind

unfoldable pub description_of : Option Metric → Text
description_of none = []
description_of (some m) = m.description

module _ {C : Type 0} (floats : Floats C) where
  unfoldable pub format_value : C → Text
  format_value v =
      if floats.equal v (floats.of_int64 (floats.to_int64 v))
      then floats.format_int (floats.to_int64 v)
      else floats.format_float v

  unfoldable pub write_reasons : List RejectReason → SelfMetrics → Text
  write_reasons [] self = []
  write_reasons (r ∷ rs) self =
      write_series (text "llm_aggregator_rejected_events_total")
        ((text "reason", reason_text r) ∷ []) (floats.format_int (pos (self.rejected r)))
      ++ write_reasons rs self

  unfoldable pub write_self_metrics : SelfMetrics → Text
  write_self_metrics self =
      write_metric_header (text "llm_aggregator_rejected_events_total")
        (text "Events the aggregator rejected before counting them, by reason.") (text "counter")
      ++ (write_reasons all_reject_reasons self
          ++ (write_metric_header (text "llm_aggregator_processed_events_total")
                (text "Events the aggregator successfully applied to its in-memory state.")
                (text "counter")
              ++ (write_series (text "llm_aggregator_processed_events_total") []
                    (floats.format_int (pos self.processed))
                  ++ (write_metric_header (text "llm_aggregator_series_total")
                        (text "Distinct (metric, labelset) pairs currently held in memory.")
                        (text "gauge")
                      ++ write_series (text "llm_aggregator_series_total") []
                          (floats.format_int (pos self.series_count))))))

  unfoldable pub write_all_series : Text → List (CounterSeries C) → Text
  write_all_series name [] = []
  write_all_series name (s ∷ ss) =
      write_series name s.labels (format_value s.sum) ++ write_all_series name ss

  unfoldable pub write_counters : List (SnapshotMetric C) → Text
  write_counters [] = []
  write_counters (m ∷ ms) =
      write_metric_header m.name (description_of m.meta) (type_of m.meta)
      ++ (write_all_series m.name m.series ++ write_counters ms)

  -- Write
  unfoldable pub write : Snapshot C → SelfMetrics → Text
  write snap self = write_counters snap.counters ++ write_self_metrics self
