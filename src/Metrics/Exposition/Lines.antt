-- ===== src/Metrics/Exposition/Lines.antt =====
-- What /metrics writes is one line for each series, whatever text the labels hold
-- (apps/api/metrics-endpoint/internal/exposition/exposition.go).
use openllm_metrics.Prelude.{
  ℕ, suc, ◌+◌, ◌==◌, ◌≡◌, refl, ap, sym, ◌∙◌, Bool, true, false, Option, none, some, List, [], ◌∷◌,
  ◌++◌, Text, text, if◌then◌else◌, arith, length, is_in, keys, sort_strings, is_in-sort_strings,
}
use openllm_metrics.Prelude.Int.{ℤ}
use openllm_metrics.Contracts.{counter, gauge, histogram, Metric}
use openllm_metrics.Metrics.{Floats}
use openllm_metrics.Metrics.Projection.{Labels}
use openllm_metrics.Metrics.Aggregator.{CounterSeries, SnapshotMetric, label_of}
use openllm_metrics.Metrics.Exposition.{
  escape_help, escape_label_value, escaped, newline, replace_all, write_metric_header, write_pair,
  write_labels, write_series, format_value, write_all_series, write_counters, type_of, type_text,
  description_of,
}
use openllm_metrics.Metrics.Exposition.Values.{escape_each, escape_one, escape_label_value-each}

-- How many newlines the text holds.
unfoldable pub line_count : Text → ℕ
line_count [] = 0
line_count (c ∷ s) = if c == newline then suc (line_count s) else line_count s

pub line_count-append : (s t : Text) → line_count (s ++ t) ≡ line_count s + line_count t
unfolding line_count
line_count-append [] t = omega arith
line_count-append (c ∷ s) t = ground (arith, line_count-append s t)

flat_escape_one : (c : ℕ) → line_count (escape_one c) ≡ 0
unfolding line_count escape_one
flat_escape_one c = ground arith

flat_escape_each : (s : Text) → line_count (escape_each s) ≡ 0
unfolding line_count escape_each
flat_escape_each [] = refl
flat_escape_each (c ∷ s) =
    omega (
      arith,
      line_count-append (escape_one c) (escape_each s),
      flat_escape_one c,
      flat_escape_each s,
    )

-- An escaped value holds no newline.
pub line_count-escape_label_value : (s : Text) → line_count (escape_label_value s) ≡ 0
line_count-escape_label_value s = ap line_count (escape_label_value-each s) ∙ flat_escape_each s

flat_one : (c : ℕ) → line_count (if c == newline then escaped b'n' else c ∷ []) ≡ 0
unfolding line_count
flat_one c = ground arith

flat_last : (s : Text) → line_count (replace_all newline (escaped b'n') s) ≡ 0
unfolding line_count replace_all
flat_last [] = refl
flat_last (c ∷ s) = omega (
  arith,
  line_count-append (if c == newline then escaped b'n' else c ∷ [])
      (replace_all newline (escaped b'n') s),
  flat_last s,
  flat_one c,
)

-- Names that no newline breaks.
abbrev pub Flat : Text → Type 0
Flat s = line_count s ≡ 0

Flat-append : (s t : Text) → Flat s → line_count (s ++ t) ≡ line_count t
Flat-append s t h = omega (arith, line_count-append s t)

pub line_count-write_metric_header :
    (name help typ : Text)
    → Flat name
    → Flat typ
    → line_count (write_metric_header name help typ) ≡ 2
unfolding write_metric_header line_count escape_help
line_count-write_metric_header name help typ n t =
    let last : Text = text "# TYPE " ++ (name ++ (b' ' ∷ (typ ++ (newline ∷ [])))) in
    let final =
      Flat-append name (b' ' ∷ (typ ++ (newline ∷ []))) n ∙ Flat-append typ (newline ∷ []) t in
    let front =
      Flat-append name (b' ' ∷ (escape_help help ++ (newline ∷ last))) n
      ∙ Flat-append (escape_help help) (newline ∷ last)
          (flat_last (replace_all b'\\' (escaped b'\\') help)) in
    front ∙ ap suc final

write_pair-Flat : (k : Text) (labels : Labels) → Flat k → Flat (write_pair k labels)
unfolding write_pair line_count
write_pair-Flat k labels h =
    Flat-append k (b'=' ∷ b'"' ∷ (escape_label_value (label_of k labels) ++ (b'"' ∷ []))) h
    ∙ Flat-append (escape_label_value (label_of k labels)) (b'"' ∷ [])
        (line_count-escape_label_value (label_of k labels))

write_labels-Flat :
    (ks : List Text) (labels : Labels)
    → ((k : Text) → is_in k ks ≡ true → Flat k)
    → Flat (write_labels ks labels)
unfolding write_labels line_count is_in
write_labels-Flat [] labels f = refl
write_labels-Flat (k ∷ []) labels f = write_pair-Flat k labels (f k (ground arith))
write_labels-Flat (k ∷ j ∷ ks) labels f =
    Flat-append (write_pair k labels) (b',' ∷ write_labels (j ∷ ks) labels)
      (write_pair-Flat k labels (f k (ground arith)))
    ∙ write_labels-Flat (j ∷ ks) labels (λ i h. f i (ground arith))

pub line_count-write_series :
    (name : Text) (labels : Labels) (value : Text)
    → Flat name
    → Flat value
    → ((k : Text) → is_in k (keys labels) ≡ true → Flat k)
    → line_count (write_series name labels value) ≡ 1
unfolding write_series line_count
line_count-write_series name [] value n v f =
    Flat-append name (b' ' ∷ (value ++ (newline ∷ []))) n ∙ Flat-append value (newline ∷ []) v
line_count-write_series name (l ∷ ls) value n v f =
    let ks : List Text = sort_strings (keys (l ∷ ls)) in
    Flat-append name
      (b'{' ∷ (write_labels ks (l ∷ ls) ++ (b'}' ∷ b' ' ∷ (value ++ (newline ∷ []))))) n
    ∙ Flat-append (write_labels ks (l ∷ ls)) (b'}' ∷ b' ' ∷ (value ++ (newline ∷ []))) (
        write_labels-Flat ks (l ∷ ls) (λ k h. f k (sym (is_in-sort_strings k (keys (l ∷ ls))) ∙ h)))
    ∙ Flat-append value (newline ∷ []) v

unfoldable pub is_flat : Text → Bool
is_flat s = line_count s == 0

unfoldable pub all_flat : List Text → Bool
all_flat [] = true
all_flat (s ∷ ss) = if is_flat s then all_flat ss else false

unfoldable pub flat_series : {C : Type 0} → List (CounterSeries C) → Bool
flat_series [] = true
flat_series (s ∷ ss) = if all_flat (keys s.labels) then flat_series ss else false

unfoldable pub flat_metrics : {C : Type 0} → List (SnapshotMetric C) → Bool
flat_metrics [] = true
flat_metrics (m ∷ ms) =
    if is_flat m.name then (if flat_series m.series then flat_metrics ms else false) else false

all_flat-is_in : (ks : List Text) (k : Text) → all_flat ks ≡ true → is_in k ks ≡ true → Flat k
unfolding all_flat is_flat is_in
all_flat-is_in [] k h i = cc
all_flat-is_in (j ∷ ks) k h i = ground (arith, all_flat-is_in ks k)

-- Two lines for each family's header and one for each of its series.
unfoldable pub lines_of : {C : Type 0} → List (SnapshotMetric C) → ℕ
lines_of [] = 0
lines_of (m ∷ ms) = 2 + (length m.series + lines_of ms)

-- Numbers are written without a newline.
pub record FlatNumbers {C : Type 0} (floats : Floats C) : Type 0 where
  pub float : (v : C) → Flat (floats.format_float v)
  pub int : (n : ℤ) → Flat (floats.format_int n)

module _ {C : Type 0} (floats : Floats C) (numbers : FlatNumbers floats) where
  format_value-Flat : (v : C) → Flat (format_value floats v)
  unfolding format_value
  format_value-Flat v = ground (arith, numbers.float v, numbers.int (floats.to_int64 v))

  series_lines :
      (name : Text) (ss : List (CounterSeries C))
      → Flat name
      → flat_series ss ≡ true
      → line_count (write_all_series floats name ss) ≡ length ss
  unfolding write_all_series flat_series line_count
  series_lines name [] n h = refl
  series_lines name (s ∷ ss) n h = omega (
    arith,
    line_count-append (write_series name s.labels (format_value floats s.sum))
        (write_all_series floats name ss),
    line_count-write_series name s.labels (format_value floats s.sum) n (format_value-Flat s.sum)
        (λ k. all_flat-is_in (keys s.labels) k (ground arith)),
    series_lines name ss n (ground arith),
  )

  type_of-Flat : (m : Option Metric) → Flat (type_of m)
  unfolding type_of type_text line_count
  type_of-Flat none = refl
  type_of-Flat (some m) = elim (m.kind) as (λ k. line_count (type_text k) ≡ 0) [
    | counter ↦ refl
    | gauge ↦ refl
    | histogram ↦ refl
  ]

  pub counters_lines :
      (ms : List (SnapshotMetric C))
      → flat_metrics ms ≡ true
      → line_count (write_counters floats ms) ≡ lines_of ms
  unfolding write_counters flat_metrics line_count lines_of is_flat
  counters_lines [] h = refl
  counters_lines (m ∷ ms) h =
      let name : Flat m.name = ground arith in
      omega (
        arith,
        line_count-append (write_metric_header m.name (description_of m.meta) (type_of m.meta))
            (write_all_series floats m.name m.series ++ write_counters floats ms),
        line_count-append (write_all_series floats m.name m.series) (write_counters floats ms),
        line_count-write_metric_header m.name (description_of m.meta) (type_of m.meta) name
            (type_of-Flat m.meta),
        series_lines m.name m.series name (ground arith),
        counters_lines ms (ground arith),
      )
