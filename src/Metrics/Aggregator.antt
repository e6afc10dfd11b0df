-- ===== src/Metrics/Aggregator.antt =====
-- The in-memory rollup: apps/api/metrics-endpoint/internal/aggregator/aggregator.go. The lock
-- covers each change of state whole, so a call is one step. The per-reason and processed counts
-- are natural numbers: an int64 does not wrap within 2^63 events.
use openllm_metrics.Prelude.{
  ℕ, suc, ◌+◌, ◌++◌, Bool, true, false, ◌||◌, Option, none, some, List, [], ◌∷◌, Text, is_empty,
  length, if◌then◌else◌, is_in, get, put, keys, to_lower, sort_strings, map,
}
use openllm_metrics.Audit.Json.{
  Value, null, bool, str, num, arr, obj, Items, nil, cons, Fields, end, field,
}
use openllm_metrics.Contracts.{Metric, find_by_name, forbidden_fields, has_schema}
use openllm_metrics.Contracts.Lint.{lint_event, lint_metric, ok}
use openllm_metrics.Metrics.{Floats}
use openllm_metrics.Metrics.Projection.{Contribution, Labels, projections_for}

pub data RejectReason : Type 0 where
  decode : RejectReason
  schema : RejectReason
  forbidden : RejectReason
  cardinality : RejectReason
  unknown_topic : RejectReason

unfoldable pub all_reject_reasons : List RejectReason
all_reject_reasons = decode ∷ schema ∷ forbidden ∷ cardinality ∷ unknown_topic ∷ []

unfoldable pub same_reason : RejectReason → RejectReason → Bool
same_reason decode decode = true
same_reason schema schema = true
same_reason forbidden forbidden = true
same_reason cardinality cardinality = true
same_reason unknown_topic unknown_topic = true
same_reason r q = false

pub record CounterSeries (C : Type 0) : Type 0 where
  pub labels : Labels
  pub sum : C

-- The series of one metric, by fingerprint.
abbrev pub Family : Type 0 → Type 0
Family C = List (Text × CounterSeries C)

-- A reason that was never counted is absent from the source's map and reads as 0. The index
-- metricByName is `find_by_name`.
pub record State (C : Type 0) : Type 0 where
  pub counters : List (Text × Family C)
  pub rejected : RejectReason → ℕ
  pub processed : ℕ

-- New, and what Reset leaves
unfoldable pub new_state : {C : Type 0} → State C
new_state = record { counters = []; rejected = λ r. 0; processed = 0 }

unfoldable pub bump_reject : {C : Type 0} → RejectReason → State C → State C
bump_reject reason s = record s {
  rejected = λ r. if same_reason reason r then suc (s.rejected r) else s.rejected r;
}

unfoldable mutual
  pub has_forbidden_value : Value → Bool
  has_forbidden_value null = false
  has_forbidden_value (bool b) = false
  has_forbidden_value (str s) = false
  has_forbidden_value (num n) = false
  has_forbidden_value (arr xs) = has_forbidden_items xs
  has_forbidden_value (obj fs) = has_forbidden_field fs

  pub has_forbidden_items : Items → Bool
  has_forbidden_items nil = false
  has_forbidden_items (cons v xs) = has_forbidden_value v || has_forbidden_items xs

  pub has_forbidden_field : Fields → Bool
  has_forbidden_field end = false
  has_forbidden_field (field k v fs) =
      is_in (to_lower k) forbidden_fields || (has_forbidden_value v || has_forbidden_field fs)

-- labels[k], the empty text where k is absent
unfoldable pub label_of : Text → Labels → Text
label_of k labels = elim (get k labels) [ none ↦ [] | some v ↦ v ]

-- k1=v1 NUL k2=v2 ..., the first argument being the keys left and the second the text before them
unfoldable pub write_pairs : List Text → Labels → Text
write_pairs [] labels = []
write_pairs (k ∷ []) labels = k ++ (b'=' ∷ label_of k labels)
write_pairs (k ∷ j ∷ ks) labels =
    k ++ (b'=' ∷ (label_of k labels ++ (0 ∷ write_pairs (j ∷ ks) labels)))

unfoldable pub label_fingerprint : Labels → Text
label_fingerprint labels = write_pairs (sort_strings (keys labels)) labels

unfoldable pub is_registered : Text → Bool
is_registered name = elim (find_by_name name) [ none ↦ false | some m ↦ true ]

unfoldable pub lint_labels : Text → Labels → Bool
lint_labels name labels = if is_registered name then ok (lint_metric name labels) else false

-- Whether lintContribution returns nil.
unfoldable pub lint_contribution : {C : Type 0} → Contribution C → Bool
lint_contribution c = lint_labels c.metric c.labels

unfoldable pub all_linted : {C : Type 0} → List (Contribution C) → Bool
all_linted [] = true
all_linted (c ∷ cs) = if lint_contribution c then all_linted cs else false

module _ {C : Type 0} (floats : Floats C) where
  -- The series of a key, a fresh one where there is none.
  unfoldable pub series_of : Text → Labels → Family C → CounterSeries C
  series_of key labels by = elim (get key by) [
    | none ↦ record { labels = labels; sum = floats.nought }
    | some series ↦ series
  ]

  unfoldable pub family_of : Text → List (Text × Family C) → Family C
  family_of name counters = elim (get name counters) [ none ↦ [] | some by ↦ by ]

  -- One turn of the loop that commits.
  unfoldable pub commit_one : Contribution C → List (Text × Family C) → List (Text × Family C)
  commit_one c counters =
      let by : Family C = family_of c.metric counters in
      let key : Text = label_fingerprint c.labels in
      let series : CounterSeries C = series_of key c.labels by in
      put c.metric (put key (record series { sum = floats.add series.sum c.value }) by) counters

  unfoldable pub commit_all :
      List (Contribution C) → List (Text × Family C) → List (Text × Family C)
  commit_all [] counters = counters
  commit_all (c ∷ cs) counters = commit_all cs (commit_one c counters)

  unfoldable pub commit : List (Contribution C) → State C → State C
  commit cs s = record s { counters = commit_all cs s.counters; processed = suc s.processed }

  unfoldable pub apply_projected : Option (List (Contribution C)) → State C → State C
  apply_projected none s = bump_reject unknown_topic s
  apply_projected (some contribs) s =
      if is_empty contribs
      then record s { processed = suc s.processed }
      else if all_linted contribs
      then commit contribs s
      else bump_reject cardinality s

  unfoldable pub apply_decoded :
      (Text → Option Fields) → Text → Text → Option Fields → State C → State C
  unfolding apply_projected
  apply_decoded unmarshal topic payload none s = bump_reject decode s
  apply_decoded unmarshal topic payload (some event) s =
      if has_forbidden_field event
      then bump_reject forbidden s
      else if ok (lint_event unmarshal topic payload)
      then apply_projected (projections_for floats topic event) s
      else bump_reject schema s

  -- Apply. The only error of Schema is that of an unknown topic.
  unfoldable pub apply : (Text → Option Fields) → Text → Text → State C → State C
  unfolding apply_decoded
  apply unmarshal topic payload s =
      if has_schema topic
      then apply_decoded unmarshal topic payload (unmarshal payload) s
      else bump_reject unknown_topic s

-- SeriesCount
unfoldable pub series_count : {C : Type 0} → List (Text × Family C) → ℕ
series_count [] = 0
series_count ((n, by) ∷ counters) = length by + series_count counters

pub record SnapshotMetric (C : Type 0) : Type 0 where
  pub name : Text
  pub meta : Option Metric
  pub series : List (CounterSeries C)

pub record Snapshot (C : Type 0) : Type 0 where
  pub counters : List (SnapshotMetric C)
  pub rejected : RejectReason → ℕ
  pub processed : ℕ

module _ {C : Type 0} (floats : Floats C) where
  -- One family of the snapshot; by[k] is there for each key k.
  unfoldable pub snapshot_metric : List (Text × Family C) → Text → SnapshotMetric C
  snapshot_metric counters name =
      let by : Family C = family_of floats name counters in
      record {
        name = name;
        meta = find_by_name name;
        series = map (λ k. series_of floats k [] by) (sort_strings (keys by));
      }

  unfoldable pub snapshot : State C → Snapshot C
  snapshot s = record {
    counters = map (snapshot_metric s.counters) (sort_strings (keys s.counters));
    rejected = s.rejected;
    processed = s.processed;
  }
