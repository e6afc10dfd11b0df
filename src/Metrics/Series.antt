-- ===== src/Metrics/Series.antt =====
-- The counters after a sequence of events, as sums over the events
-- (apps/api/metrics-endpoint/internal/aggregator/aggregator.go).
pub mod Whole
pub mod Order
pub mod Linted
use openllm_metrics.Prelude.{
  ℕ, suc, ◌+◌, ◌≡◌, refl, ap, sym, ◌∙◌, Bool, true, false, ◌⊎◌, inl, inr, Option, none, some, List,
  [], ◌∷◌, ◌++◌, Text, Text-discrete, arith, ite, if◌then◌else◌, get, put, get-put,
}
use openllm_metrics.Audit.Json.{Fields}
use openllm_metrics.Metrics.{Floats}
use openllm_metrics.Metrics.Projection.{Contribution, Labels}
use openllm_metrics.Metrics.Aggregator.{
  RejectReason, CounterSeries, Family, State, apply, bump_reject, commit, commit_all, commit_one,
  family_of, label_fingerprint, new_state, same_reason, series_of,
}
use openllm_metrics.Metrics.Verdict.{Event, apply-settle, apply_all, settle, verdict}

-- What an event adds.
unfoldable pub gains :
    {C : Type 0} → (v : RejectReason ⊎ List (Contribution C)) → List (Contribution C)
gains (inl r) = []
gains (inr cs) = cs

module _ {C : Type 0} (floats : Floats C) where
  -- The value of one series, zero where it is not held.
  unfoldable pub sum_of : Text → Text → List (Text × Family C) → C
  sum_of name key counters = (series_of floats key [] (family_of floats name counters)).sum

  unfoldable pub add_one : Text → Text → Contribution C → C → C
  add_one name key c acc =
      ite (Text-discrete name c.metric)
        (ite (Text-discrete key (label_fingerprint c.labels)) (floats.add acc c.value) acc) acc

  -- The contributions to one series, added in turn.
  unfoldable pub add_up : Text → Text → List (Contribution C) → C → C
  add_up name key [] acc = acc
  add_up name key (c ∷ cs) acc = add_up name key cs (add_one name key c acc)

  sum-series_of :
      (key : Text) (labels : Labels) (by : Family C)
      → (series_of floats key labels by).sum ≡ (series_of floats key [] by).sum
  unfolding series_of
  sum-series_of key labels by = ground arith

  family-put :
      (name m : Text) (by : Family C) (counters : List (Text × Family C))
      → family_of floats name (put m by counters)
        ≡ ite (Text-discrete name m) by (family_of floats name counters)
  unfolding family_of
  family-put name m by counters = ground (arith, get-put name m by counters)

  series-put :
      (key k : Text) (labels : Labels) (v : CounterSeries C) (by : Family C)
      → series_of floats key labels (put k v by)
        ≡ ite (Text-discrete key k) v (series_of floats key labels by)
  unfolding series_of
  series-put key k labels v by = ground (arith, get-put key k v by)

  sum-commit_one :
      (name key : Text) (c : Contribution C) (counters : List (Text × Family C))
      → sum_of name key (commit_one floats c counters)
        ≡ add_one name key c (sum_of name key counters)
  unfolding commit_one sum_of add_one
  sum-commit_one name key c counters =
      let by : Family C = family_of floats c.metric counters in
      let fp : Text = label_fingerprint c.labels in
      let old : CounterSeries C = series_of floats fp c.labels by in
      let new : CounterSeries C = record old { sum = floats.add old.sum c.value } in
      ground (
        arith,
        family-put name c.metric (put fp new by) counters,
        series-put key fp [] new by,
        sum-series_of fp c.labels by,
      )

  pub sum-commit_all :
      (name key : Text) (cs : List (Contribution C)) (counters : List (Text × Family C))
      → sum_of name key (commit_all floats cs counters)
        ≡ add_up name key cs (sum_of name key counters)
  unfolding commit_all add_up
  sum-commit_all name key [] counters = refl
  sum-commit_all name key (c ∷ cs) counters =
      sum-commit_all name key cs (commit_one floats c counters)
      ∙ ap (add_up name key cs) (sum-commit_one name key c counters)

module _ {C : Type 0} (floats : Floats C) (unmarshal : Text → Option Fields) where
  sum-settle :
      (name key : Text) (v : RejectReason ⊎ List (Contribution C)) (s : State C)
      → sum_of floats name key (settle floats unmarshal v s).counters
        ≡ add_up floats name key (gains v) (sum_of floats name key s.counters)
  unfolding settle gains bump_reject commit add_up
  sum-settle name key (inl r) s = refl
  sum-settle name key (inr cs) s = sum-commit_all floats name key cs s.counters

  -- All that a sequence of events adds, in order.
  unfoldable pub all_gains : List Event → List (Contribution C)
  all_gains [] = []
  all_gains (e ∷ es) = gains (verdict floats unmarshal e) ++ all_gains es

  pub add_up-append :
      (name key : Text) (cs ds : List (Contribution C)) (acc : C)
      → add_up floats name key (cs ++ ds) acc
        ≡ add_up floats name key ds (add_up floats name key cs acc)
  unfolding add_up
  add_up-append name key [] ds acc = refl
  add_up-append name key (c ∷ cs) ds acc =
      add_up-append name key cs ds (add_one floats name key c acc)

  -- The value of every series after any sequence of events is what stood there before it plus, one
  -- after another, the contributions to that metric and label fingerprint of the events not rejected.
  pub sum-apply_all :
      (name key : Text) (es : List Event) (s : State C)
      → sum_of floats name key (apply_all floats unmarshal es s).counters
        ≡ add_up floats name key (all_gains es) (sum_of floats name key s.counters)
  unfolding apply_all all_gains add_up
  sum-apply_all name key [] s = refl
  sum-apply_all name key (e ∷ es) s =
      let v : RejectReason ⊎ List (Contribution C) = verdict floats unmarshal e in
      sum-apply_all name key es (apply floats unmarshal e.topic e.payload s)
      ∙ ap (add_up floats name key (all_gains es)) (
          ap (λ t. sum_of floats name key t.counters) (apply-settle floats unmarshal e s)
          ∙ sum-settle name key v s)
      ∙ sym (add_up-append name key (gains v) (all_gains es) (sum_of floats name key s.counters))
