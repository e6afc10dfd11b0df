-- ===== src/Metrics/Series/Linted.antt =====
-- Every series that the aggregator holds has labels that the registry allows
-- (apps/api/metrics-endpoint/internal/aggregator/aggregator.go).
use openllm_metrics.Prelude.{
  ◌≡◌, ◌∙◌, refl, ap, sym, true, ◌⊎◌, inl, inr, Option-cases, Option, some, List, [], ◌∷◌, Text,
  arith, get, put, get-put_cases, subst,
}
use openllm_metrics.Audit.Json.{Fields}
use openllm_metrics.Metrics.{Floats}
use openllm_metrics.Metrics.Projection.{Contribution, Labels}
use openllm_metrics.Metrics.Aggregator.{
  RejectReason, CounterSeries, Family, State, all_linted, is_registered, apply, bump_reject, commit,
  commit_all, commit_one, family_of, label_fingerprint, lint_contribution, lint_labels, new_state,
  series_of,
}
use openllm_metrics.Metrics.Verdict.{
  Event, apply-settle, apply_all, decoded_or, linted_or, projected_or, settle, verdict,
}

-- The linter accepts the series's labels on this metric, and it stands under their fingerprint.
abbrev pub FitSeries : {C : Type 0} → Text → Text → CounterSeries C → Type 0
FitSeries name key series =
    (lint_labels name series.labels ≡ true) × (key ≡ label_fingerprint series.labels)

abbrev pub FitFamily : {C : Type 0} → Text → Family C → Type 0
FitFamily {C} name by =
    (key : Text) (series : CounterSeries C) → get key by ≡ some series → FitSeries name key series

-- Each family stands under a registered metric.
abbrev pub FitAll : {C : Type 0} → List (Text × Family C) → Type 0
FitAll {C} counters =
    (name : Text) (by : Family C)
    → get name counters ≡ some by
    → (is_registered name ≡ true) × FitFamily name by

registered_of_linted :
    (name : Text) (labels : Labels) → lint_labels name labels ≡ true → is_registered name ≡ true
unfolding lint_labels
registered_of_linted name labels h = ground arith

module _ {C : Type 0} (floats : Floats C) where
  pub family-Fit :
      (name : Text) (counters : List (Text × Family C))
      → FitAll counters
      → FitFamily name (family_of floats name counters)
  unfolding family_of get
  family-Fit name counters f = elim (Option-cases (get name counters)) [
    | inl e ↦ rw (e, family_of) (λ key series h. cc)
    | inr (by, e) ↦ rw (e, family_of) (f name by e).1
  ]

  series-Fit :
      (name : Text) (labels : Labels) (by : Family C)
      → FitFamily name by
      → lint_labels name labels ≡ true
      → FitSeries name
          (label_fingerprint labels)
          (series_of floats (label_fingerprint labels) labels by)
  unfolding series_of
  series-Fit name labels by f h = elim (Option-cases (get (label_fingerprint labels) by)) [
    | inl e ↦ rw (e, series_of) (h, refl)
    | inr (series, e) ↦ rw (e, series_of) (f (label_fingerprint labels) series e)
  ]

  put-FitFamily :
      (name k : Text) (v : CounterSeries C) (by : Family C)
      → FitSeries name k v
      → FitFamily name by
      → FitFamily name (put k v by)
  put-FitFamily name k v by one f key series h = elim (get-put_cases key k v series by h) [
    | inl (e, w) ↦ subst (λ x. FitSeries name x series) (sym e) (subst (FitSeries name k) w one)
    | inr there ↦ f key series there
  ]

  put-FitAll :
      (m : Text) (by : Family C) (counters : List (Text × Family C))
      → is_registered m ≡ true
      → FitFamily m by
      → FitAll counters
      → FitAll (put m by counters)
  put-FitAll m by counters known one f name fam h = elim (get-put_cases name m by fam counters h) [
    | inl (e, w) ↦ (
      ap is_registered e ∙ known,
      subst (λ x. FitFamily x fam) (sym e) (subst (FitFamily m) w one),
    )
    | inr there ↦ f name fam there
  ]

  commit_one-Fit :
      (c : Contribution C) (counters : List (Text × Family C))
      → lint_contribution c ≡ true
      → FitAll counters
      → FitAll (commit_one floats c counters)
  unfolding commit_one lint_contribution
  commit_one-Fit c counters h f =
      let by : Family C = family_of floats c.metric counters in
      let old = series-Fit c.metric c.labels by (family-Fit c.metric counters f) h in
      put-FitAll c.metric _ counters (registered_of_linted c.metric c.labels h)
        (put-FitFamily c.metric (label_fingerprint c.labels) _ by old
          (family-Fit c.metric counters f))
        f

  commit_all-Fit :
      (cs : List (Contribution C)) (counters : List (Text × Family C))
      → all_linted cs ≡ true
      → FitAll counters
      → FitAll (commit_all floats cs counters)
  unfolding commit_all all_linted
  commit_all-Fit [] counters h f = f
  commit_all-Fit (c ∷ cs) counters h f =
      commit_all-Fit cs (commit_one floats c counters) (ground arith)
        (commit_one-Fit c counters (ground arith) f)

module _ {C : Type 0} (floats : Floats C) (unmarshal : Text → Option Fields) where
  -- What the linter lets through, it has linted.
  pub verdict-linted :
      (e : Event) (cs : List (Contribution C))
      → verdict floats unmarshal e ≡ inr cs
      → all_linted cs ≡ true
  unfolding verdict decoded_or projected_or linted_or
  verdict-linted e cs h = ground arith

  settle-Fit :
      (v : RejectReason ⊎ List (Contribution C)) (s : State C)
      → ((cs : List (Contribution C)) → v ≡ inr cs → all_linted cs ≡ true)
      → FitAll s.counters
      → FitAll (settle floats unmarshal v s).counters
  unfolding settle bump_reject commit
  settle-Fit (inl r) s l f = f
  settle-Fit (inr cs) s l f = commit_all-Fit floats cs s.counters (l cs refl) f

  apply_all-Fit_from :
      (es : List Event) (s : State C)
      → FitAll s.counters
      → FitAll (apply_all floats unmarshal es s).counters
  unfolding apply_all
  apply_all-Fit_from [] s f = f
  apply_all-Fit_from (e ∷ es) s f =
      apply_all-Fit_from es (apply floats unmarshal e.topic e.payload s) (
        subst (λ t. FitAll t.counters) (sym (apply-settle floats unmarshal e s))
          (settle-Fit (verdict floats unmarshal e) s (verdict-linted e) f))

  -- After any sequence of events, whatever they carry, every family that the aggregator holds is that
  -- of a registered metric, and every series in it has labels that the linter accepts on the metric
  -- and is stored under the fingerprint of its labels.
  pub apply_all-Fit : (es : List Event) → FitAll (apply_all floats unmarshal es new_state).counters
  unfolding new_state get
  apply_all-Fit es = apply_all-Fit_from es new_state (λ name by h. cc)
