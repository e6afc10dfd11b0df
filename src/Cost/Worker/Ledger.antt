-- ===== src/Cost/Worker/Ledger.antt =====
-- What the cost mapper holds and writes against what it published (apps/worker/cost-mapper).
use mathlib.Core.List.{Memᴰ}
use openllm_metrics.Prelude.{
  ℕ, ◌≡◌, refl, ap, sym, inl, inr, Bool-cases, Bool, ◌&&◌, false, Option, none, some, List, [], ◌∷◌,
  Text, Text-discrete, is_empty, ite, get, subst,
}
use openllm_metrics.Prelude.Int.{◌-ℤ◌, wrap}
use openllm_metrics.Cost.{Floats}
use openllm_metrics.Cost.Catalog.{Catalog}
use openllm_metrics.Cost.Mapper.{RuntimeEvent}
use openllm_metrics.Cost.Drift.{
  CorrelationKey, Reconciled, DriftRow, key_string, drift_row, apply_reconciled, read_bucket,
}
use openllm_metrics.Cost.Drift.Totals.{held, upsert_drift-mem}
use openllm_metrics.Cost.Worker.Owed.{owed, owed_from, IsSettled, price-IsSettled}
use openllm_metrics.Cost.Worker.Run.{Step, deliver, reload, handle, step, run}
use openllm_metrics.Cost.Worker.{
  ReconciledEvent, State, HandlerError, parse_time, is_zero, is_runtime, handle_decoded,
  handle_runtime, handle_reconciled, apply_event, start, count_runtime, count_reconciled,
  bump_skipped,
}

-- The key of a reconciled event with these times.
abbrev pub period_key : ReconciledEvent → ℕ → ℕ → CorrelationKey
period_key ev t u = record {
  tenant_id = ev.tenant;
  provider = ev.provider;
  model = ev.model;
  period_start = t;
  period_end = u;
}

module _ (format_unix : ℕ → Text) (parse_rfc3339 : Text → Option ℕ) {C : Type 0} (floats : Floats C)
    (sha256_hex : Text → Text) where
  handle_decoded-IsSettled :
      (fails : Bool) (now : Text) (ev : RuntimeEvent) (s : State C)
      → IsSettled format_unix parse_rfc3339 s
      → IsSettled format_unix parse_rfc3339
          (handle_decoded floats format_unix parse_rfc3339 sha256_hex fails now ev s).0
  unfolding handle_decoded bump_skipped
  handle_decoded-IsSettled fails now ev s v = elim (Bool-cases (is_runtime ev.source)) [
    | inr n ↦ rw n v
    | inl y ↦ elim (Bool-cases (is_zero ev.input_tokens && is_zero ev.output_tokens)) [
      | inl z ↦ rw (y, z) v
      | inr z ↦
          rw (y, z) (price-IsSettled format_unix parse_rfc3339 floats sha256_hex fails now ev s v)
    ]
  ]

  handle_runtime-IsSettled :
      (fails : Bool) (now : Text) (o : Option RuntimeEvent) (s : State C)
      → IsSettled format_unix parse_rfc3339 s
      → IsSettled format_unix parse_rfc3339
          (handle_runtime floats format_unix parse_rfc3339 sha256_hex fails now o s).0
  unfolding handle_runtime count_runtime
  handle_runtime-IsSettled fails now none s v = v
  handle_runtime-IsSettled fails now (some ev) s v =
      handle_decoded-IsSettled fails now ev (count_runtime s) v

  apply_event-IsSettled :
      (fails : Bool) (ev : ReconciledEvent) (o q : Option ℕ) (s : State C)
      → IsSettled format_unix parse_rfc3339 s
      → IsSettled format_unix parse_rfc3339
          (apply_event floats format_unix parse_rfc3339 sha256_hex fails ev o q s).0
  unfolding apply_event
  apply_event-IsSettled fails ev (some t) (some u) s v = v
  apply_event-IsSettled fails ev (some t) none s v = v
  apply_event-IsSettled fails ev none q s v = v

  handle_reconciled-IsSettled :
      (fails : Bool) (o : Option ReconciledEvent) (s : State C)
      → IsSettled format_unix parse_rfc3339 s
      → IsSettled format_unix parse_rfc3339
          (handle_reconciled floats format_unix parse_rfc3339 sha256_hex fails o s).0
  unfolding handle_reconciled count_reconciled
  handle_reconciled-IsSettled fails none s v = v
  handle_reconciled-IsSettled fails (some ev) s v = elim (Bool-cases (is_empty ev.tenant)) [
    | inl e ↦ rw e v
    | inr e ↦ rw e (
        apply_event-IsSettled fails ev (parse_time parse_rfc3339 ev.period_start)
          (parse_time parse_rfc3339 ev.period_end) (count_reconciled s) v)
  ]

  ite-IsSettled :
      {P : Type 0}
      → (d : Dec P) (a b : State C × Option HandlerError) → IsSettled format_unix parse_rfc3339 a.0
      → IsSettled format_unix parse_rfc3339 b.0
      → IsSettled format_unix parse_rfc3339 (ite d a b).0
  ite-IsSettled (yes p) a b v w = v
  ite-IsSettled (no n) a b v w = w

  module _ (decode_runtime : Text → Option RuntimeEvent)
      (decode_reconciled : Text → Option ReconciledEvent)
      (runtime_topic reconciled_topic : Text) where
    step-IsSettled :
        (x : Step C) (s : State C)
        → IsSettled format_unix parse_rfc3339 s
        → IsSettled format_unix parse_rfc3339 (
            step floats format_unix parse_rfc3339 sha256_hex decode_runtime decode_reconciled
              runtime_topic reconciled_topic x s)
    unfolding step handle
    step-IsSettled (reload files read unmarshal) s v = v
    step-IsSettled (deliver topic value now fails) s v =
        ite-IsSettled (Text-discrete topic runtime_topic) _ _
          (handle_runtime-IsSettled fails now (decode_runtime value) s v)
          (ite-IsSettled (Text-discrete topic reconciled_topic) _ _
            (handle_reconciled-IsSettled fails (decode_reconciled value) s v) v)

    run-IsSettled :
        (xs : List (Step C)) (s : State C)
        → IsSettled format_unix parse_rfc3339 s
        → IsSettled format_unix parse_rfc3339 (
            run floats format_unix parse_rfc3339 sha256_hex decode_runtime decode_reconciled
              runtime_topic reconciled_topic xs s)
    unfolding run
    run-IsSettled [] s v = v
    run-IsSettled (x ∷ xs) s v = run-IsSettled xs _ (step-IsSettled x s v)

    abbrev pub after : List (Step C) → Catalog C → State C
    after xs cat =
        run floats format_unix parse_rfc3339 sha256_hex decode_runtime decode_reconciled
          runtime_topic reconciled_topic xs (start cat)

    reconciled_rows :
        (s : State C) (ev : ReconciledEvent) (t u : ℕ)
        → is_empty ev.tenant ≡ false
        → parse_time parse_rfc3339 ev.period_start ≡ some t
        → parse_time parse_rfc3339 ev.period_end ≡ some u
        → (handle_reconciled floats format_unix parse_rfc3339 sha256_hex false (some ev) s).0.rows
          ≡ apply_reconciled floats format_unix false
              (record { key = period_key ev t u; cost_minor = ev.cost_minor })
              s.buckets
              s.rows
    unfolding handle_reconciled apply_event count_reconciled
    reconciled_rows s ev t u e p q = rw (e, p, q) refl

    -- After any run of the worker, and with it each reload of the catalog and each failure of the
    -- bus and of the database, a reconciled event with a tenant and a period whose times can be
    -- read, if the database takes its row, leaves in the table a row of its key whose drift is the
    -- vendor's cost less the sum of the costs that the bus took for that key, in int64.
    pub reconciled-owed :
        (xs : List (Step C)) (cat : Catalog C) (ev : ReconciledEvent) (t u : ℕ)
        → is_empty ev.tenant ≡ false
        → parse_time parse_rfc3339 ev.period_start ≡ some t
        → parse_time parse_rfc3339 ev.period_end ≡ some u
        → (row : DriftRow C) × Memᴰ row
            (handle_reconciled floats format_unix parse_rfc3339 sha256_hex false
              (some ev)
              (after xs cat)).0.rows
          × (row.correlation_key ≡ key_string format_unix (period_key ev t u))
          × (row.drift_minor
              ≡ wrap (
                  ev.cost_minor
                  -ℤ owed format_unix parse_rfc3339
                      (key_string format_unix (period_key ev t u))
                      (after xs cat).emitted))
    unfolding apply_reconciled key_string drift_row owed held owed_from read_bucket start get
    reconciled-owed xs cat ev t u e p q =
        let s = after xs cat in
        let rec : Reconciled = record { key = period_key ev t u; cost_minor = ev.cost_minor } in
        let key = key_string format_unix (period_key ev t u) in
        let row = drift_row floats format_unix rec (read_bucket (get key s.buckets)) in
        (
          row,
          subst (Memᴰ row) (sym (reconciled_rows s ev t u e p q)) (upsert_drift-mem row s.rows),
          refl,
          ap (λ x. wrap (ev.cost_minor -ℤ x)) (run-IsSettled xs (start cat) (λ k. refl) key),
        )
