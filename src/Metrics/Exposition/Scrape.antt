-- ===== src/Metrics/Exposition/Scrape.antt =====
-- /metrics of an aggregator, line by line: apps/api/metrics-endpoint/internal/aggregator/aggregator.go
-- with apps/api/metrics-endpoint/internal/exposition/exposition.go.
use openllm_metrics.Prelude.{
  ℕ, ◌+◌, ◌≡◌, refl, sym, ◌∙◌, Bool, true, false, Option, some, List, [], ◌∷◌, ◌++◌, Text, text,
  Text-discrete, if◌then◌else◌, arith, length, is_in, keys, sort_strings, is_in-sort_strings, map,
  inl, inr, Option-cases, get, if_pos, if_neg,
}
use openllm_metrics.Prelude.Int.{pos}
use openllm_metrics.Audit.Json.{Fields}
use openllm_metrics.Contracts.{
  Metric, find_by_name, find_in, registry, requests_total, input_tokens_total, output_tokens_total,
  total_tokens_total, cost_usd_total, errors_total, retries_total, timeouts_total,
  rate_limit_events_total, provider_api_errors_total,
}
use openllm_metrics.Contracts.Lint.Observations.{Conforms, lint_metric-Conforms}
use openllm_metrics.Metrics.{Floats}
use openllm_metrics.Metrics.Aggregator.{
  CounterSeries, Family, RejectReason, State, all_reject_reasons, family_of, is_registered,
  lint_labels, new_state, series_of, snapshot, snapshot_metric,
}
use openllm_metrics.Metrics.Verdict.{Event, apply_all}
use openllm_metrics.Metrics.Series.Linted.{FitAll, FitFamily, apply_all-Fit, family-Fit}
use openllm_metrics.Metrics.Exposition.{
  SelfMetrics, reason_text, write, write_reasons, write_self_metrics, write_series,
}
use openllm_metrics.Metrics.Exposition.Lines.{
  Flat, FlatNumbers, all_flat, counters_lines, flat_metrics, flat_series, is_flat, line_count,
  line_count-append, line_count-write_metric_header, line_count-write_series, lines_of,
}

-- A metric's name and its labels hold no newline.
unfoldable flat_registered : List Metric → Bool
flat_registered [] = true
flat_registered (m ∷ ms) =
    if is_flat m.name
    then (if all_flat m.allowed_labels then flat_registered ms else false)
    else false

flat_found :
    (n : Text) (ms : List Metric) (m : Metric)
    → flat_registered ms ≡ true
    → find_in n ms ≡ some m
    → (is_flat n ≡ true) × (all_flat m.allowed_labels ≡ true)
unfolding flat_registered find_in
flat_found n [] m h e = cc
flat_found n (x ∷ ms) m h e = ground (arith, flat_found n ms m)

registry_flat : flat_registered registry ≡ true
unfolding flat_registered all_flat is_flat line_count registry requests_total input_tokens_total
    output_tokens_total total_tokens_total cost_usd_total errors_total retries_total timeouts_total
    rate_limit_events_total provider_api_errors_total
registry_flat = refl

flat_metric :
    (n : Text) (m : Metric)
    → find_by_name n ≡ some m
    → (is_flat n ≡ true) × (all_flat m.allowed_labels ≡ true)
unfolding find_by_name
flat_metric n m e = flat_found n registry m registry_flat e

flat_member :
    (ks : List Text) (k : Text) → all_flat ks ≡ true → is_in k ks ≡ true → is_flat k ≡ true
unfolding all_flat is_in
flat_member [] k h i = cc
flat_member (j ∷ ks) k h i = ground (arith, flat_member ks k)

all_flat_within :
    (ks ls : List Text)
    → all_flat ls ≡ true
    → ((k : Text) → is_in k ks ≡ true → is_in k ls ≡ true)
    → all_flat ks ≡ true
unfolding all_flat is_in
all_flat_within [] ls h f = refl
all_flat_within (k ∷ ks) ls h f =
    let here = flat_member ls k h (f k (ground arith)) in
    let rest = all_flat_within ks ls h (λ i e. f i (ground arith)) in rw (here, rest) refl

-- Labels that the linter accepts hold no newline in their names.
linted_keys :
    (name : Text) (labels : List (Text × Text))
    → lint_labels name labels ≡ true
    → all_flat (keys labels) ≡ true
unfolding lint_labels
linted_keys name labels h =
    let c : Conforms name labels = lint_metric-Conforms name labels (ground arith) in
    all_flat_within (keys labels) c.metric.allowed_labels (flat_metric name c.metric c.found).1
      c.allowed

registered_flat : (name : Text) → is_registered name ≡ true → is_flat name ≡ true
unfolding is_registered
registered_flat name h = elim (Option-cases (find_by_name name)) [
  | inl e ↦ absurd (ground (arith, h, e))
  | inr (m, e) ↦ (flat_metric name m e).0
]

found_of_is_in :
    {A : Type 0} (k : Text) (m : List (Text × A))
    → is_in k (keys m) ≡ true
    → (v : A) × (get k m ≡ some v)
unfolding is_in get
found_of_is_in k [] h = cc
found_of_is_in k ((j, v) ∷ m) h = elim (Text-discrete k j) [
  | yes e ↦ (v, if_pos _ e (some v) (get k m))
  | no n ↦
      let (w, e) = found_of_is_in k m (sym (if_neg _ n true (is_in k (keys m))) ∙ h) in
      (w, if_neg _ n (some v) (get k m) ∙ e)
]

module _ {C : Type 0} (floats : Floats C) where
  series_found :
      (k : Text) (by : Family C) (v : CounterSeries C)
      → get k by ≡ some v
      → series_of floats k [] by ≡ v
  unfolding series_of
  series_found k by v e = rw (e, series_of) refl

  family_found :
      (n : Text) (counters : List (Text × Family C)) (by : Family C)
      → get n counters ≡ some by
      → family_of floats n counters ≡ by
  unfolding family_of
  family_found n counters by e = rw (e, family_of) refl

  flat_family :
      (name : Text) (by : Family C) (ks : List Text)
      → FitFamily name by
      → ((k : Text) → is_in k ks ≡ true → is_in k (keys by) ≡ true)
      → flat_series (map (λ k. series_of floats k [] by) ks) ≡ true
  unfolding flat_series is_in
  flat_family name by [] f g = refl
  flat_family name by (k ∷ ks) f g =
      let (v, e) = found_of_is_in k by (g k (ground arith)) in
      let rest = flat_family name by ks f (λ i h. g i (ground arith)) in
      rw (series_found k by v e, linted_keys name v.labels (f k v e).0, rest) refl

  flat_snapshot :
      (counters : List (Text × Family C)) (ns : List Text)
      → FitAll counters
      → ((n : Text) → is_in n ns ≡ true → is_in n (keys counters) ≡ true)
      → flat_metrics (map (snapshot_metric floats counters) ns) ≡ true
  unfolding flat_metrics snapshot_metric is_in
  flat_snapshot counters [] f g = refl
  flat_snapshot counters (n ∷ ns) f g =
      let (by, e) = found_of_is_in n counters (g n (ground arith)) in
      let (known, fit) = f n by e in
      let rest = flat_snapshot counters ns f (λ i h. g i (ground arith)) in
      let here =
        flat_family n (family_of floats n counters)
          (sort_strings (keys (family_of floats n counters))) (family-Fit floats n counters f)
          (λ k h. sym (is_in-sort_strings k (keys (family_of floats n counters))) ∙ h) in
      rw (registered_flat n known, here, rest) refl

self-Flat :
    Flat (text "llm_aggregator_rejected_events_total")
    × Flat (text "llm_aggregator_processed_events_total")
    × Flat (text "llm_aggregator_series_total")
    × Flat (text "counter")
    × Flat (text "gauge")
unfolding line_count
self-Flat = (refl, refl, refl, refl, refl)

not_there : (k : Text) → is_in k [] ≡ true → Flat k
unfolding is_in
not_there k i = cc

joined : (s t : Text) {a b : ℕ} → line_count s ≡ a → line_count t ≡ b → line_count (s ++ t) ≡ a + b
joined s t {a} {b} h k = omega (arith, line_count-append s t)

module _ {C : Type 0} (floats : Floats C) (numbers : FlatNumbers floats) where
  reason_line :
      (r : RejectReason) (self : SelfMetrics)
      → line_count (
          write_series
            (text "llm_aggregator_rejected_events_total")
            ((text "reason", reason_text r) ∷ [])
            (floats.format_int (pos (self.rejected r))))
        ≡ 1
  unfolding line_count is_in Text-discrete
  reason_line r self =
      line_count-write_series _ ((text "reason", reason_text r) ∷ []) _ refl
        (numbers.int (pos (self.rejected r))) (λ k h. ground arith)

  reasons_lines :
      (rs : List RejectReason) (self : SelfMetrics)
      → line_count (write_reasons floats rs self) ≡ length rs
  unfolding write_reasons line_count
  reasons_lines [] self = refl
  reasons_lines (r ∷ rs) self = omega (
    arith,
    line_count-append
        (write_series (text "llm_aggregator_rejected_events_total")
          ((text "reason", reason_text r) ∷ []) (floats.format_int (pos (self.rejected r))))
        (write_reasons floats rs self),
    reason_line r self,
    reasons_lines rs self,
  )

  self_lines : (self : SelfMetrics) → line_count (write_self_metrics floats self) ≡ 13
  unfolding write_self_metrics all_reject_reasons
  self_lines self =
      let bare : (name : Text) (n : ℕ)
          → Flat name
          → line_count (write_series name [] (floats.format_int (pos n))) ≡ 1 =
        λ name n h.
          line_count-write_series name [] _ h (numbers.int (pos n)) (λ k i. not_there k i) in
      let (rejected, processed, held, counter_flat, gauge_flat) = self-Flat in
      joined _ _ (line_count-write_metric_header _ _ _ rejected counter_flat) (
        joined _ _ (reasons_lines all_reject_reasons self) (
          joined _ _ (line_count-write_metric_header _ _ _ processed counter_flat) (
            joined _ _ (bare _ self.processed processed) (
              joined _ _ (line_count-write_metric_header _ _ _ held gauge_flat)
                (bare _ self.series_count held)))))

  -- Whatever events arrived, with whatever text in their labels, /metrics is two lines for each family,
  -- one for each series, and the thirteen of the aggregator's own metrics, if no number is written with
  -- a newline: no label value starts a line.
  pub scrape_lines :
      (unmarshal : Text → Option Fields) (es : List Event) (self : SelfMetrics)
      → line_count (write floats (snapshot floats (apply_all floats unmarshal es new_state)) self)
        ≡ lines_of (snapshot floats (apply_all floats unmarshal es new_state)).counters + 13
  unfolding write snapshot
  scrape_lines unmarshal es self =
      let s : State C = apply_all floats unmarshal es new_state in
      let flat =
        flat_snapshot floats s.counters (sort_strings (keys s.counters))
          (apply_all-Fit floats unmarshal es)
          (λ n h. sym (is_in-sort_strings n (keys s.counters)) ∙ h) in
      joined _ _
        (counters_lines floats numbers
          (map (snapshot_metric floats s.counters) (sort_strings (keys s.counters))) flat)
        (self_lines self)
