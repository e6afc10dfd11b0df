-- ===== src/Cost/Worker.antt =====
-- The worker: the handlers of apps/worker/cost-mapper/cmd/cost-mapper/main.go, Emit of
-- internal/busproducer/busproducer.go and the counters of internal/metrics/metrics.go. Decoding JSON
-- and RFC 3339 times and the outside's answers are parameters.
pub mod Run
pub mod Owed
pub mod Ledger
pub mod Priced
use openllm_metrics.Prelude.{
  ℕ, zero, suc, ◌+◌, ◌-◌, ◌%◌, Bool, true, false, ◌&&◌, Option, none, some, List, [], ◌∷◌, ◌++◌,
  Text, Text-discrete, text, is_empty, ite, if◌then◌else◌,
}
use openllm_metrics.Prelude.Int.{ℤ, pos, negsuc}
use openllm_metrics.Cost.{Floats}
use openllm_metrics.Cost.Catalog.{Catalog, ProviderFile, load_dir}
use openllm_metrics.Cost.Mapper.{
  RuntimeEvent, EstimatedEvent, EstimateError, not_priced, missing_event_id, missing_tenant,
  estimated, refused, Estimated, estimate,
}
use openllm_metrics.Cost.Drift.{
  CorrelationKey, Estimate, Reconciled, Buckets, DriftRow, record_estimate, apply_reconciled,
}

-- The counters; the time of the last success is left out.
pub record Registry : Type 0 where
  pub runtime_consumed : ℕ
  pub estimates_emitted : ℕ
  pub estimates_skipped : ℕ
  pub unpriced_events : ℕ
  pub reconciled_consumed : ℕ
  pub drift_rows_written : ℕ
  pub drift_errors : ℕ

pub record ReconciledEvent : Type 0 where
  pub tenant : Text
  pub provider : Text
  pub model : Text
  pub cost_minor : ℤ
  pub period_start : Text
  pub period_end : Text

-- `emitted` is what the bus took, in order.
pub record State (C : Type 0) : Type 0 where
  pub catalog : Catalog C
  pub buckets : Buckets
  pub rows : List (DriftRow C)
  pub emitted : List EstimatedEvent
  pub registry : Registry

pub data HandlerError : Type 0 where
  bad_payload : HandlerError
  not_estimated : EstimateError → HandlerError
  not_emitted : HandlerError
  not_upserted : HandlerError
  unexpected_topic : HandlerError

unfoldable pub new_registry : Registry
new_registry = record {
  runtime_consumed = 0;
  estimates_emitted = 0;
  estimates_skipped = 0;
  unpriced_events = 0;
  reconciled_consumed = 0;
  drift_rows_written = 0;
  drift_errors = 0;
}

unfoldable pub is_zero : ℤ → Bool
is_zero (pos zero) = true
is_zero (pos (suc n)) = false
is_zero (negsuc n) = false

-- Of the gateway or of the SDK.
unfoldable pub is_runtime : Text → Bool
is_runtime source =
    ite (Text-discrete source (text "gateway")) true
      (ite (Text-discrete source (text "sdk")) true false)

-- Emit: what the bus holds after it, and whether it failed; `fails` where the producer does.
unfoldable pub emit : Bool → EstimatedEvent → List EstimatedEvent → List EstimatedEvent × Bool
emit fails ev sent =
    if is_empty ev.event_id
    then (sent, true)
    else if is_empty ev.tenant
    then (sent, true)
    else if fails
    then (sent, true)
    else (sent ++ ev ∷ [], false)

unfoldable pub parse_time : (Text → Option ℕ) → Text → Option ℕ
parse_time parse_rfc3339 s = if is_empty s then none else parse_rfc3339 s

abbrev pub hour : ℕ
hour = 3600000000000

-- The bucket that a runtime event of this time belongs to.
unfoldable pub hour_key : Text → Text → Text → ℕ → CorrelationKey
hour_key tenant provider model t = record {
  tenant_id = tenant;
  provider = provider;
  model = model;
  period_start = t - t % hour;
  period_end = t - t % hour + hour;
}

unfoldable pub estimate_of : RuntimeEvent → EstimatedEvent → ℕ → Estimate
estimate_of ev est t = record {
  key = hour_key ev.tenant ev.provider ev.model t;
  labels = record { team = ev.team; app = ev.app; env = ev.env; project = ev.project };
  cost_minor = est.cost_minor;
  catalog_version = est.catalog_version;
}

-- The estimate of an event whose time can be read joins its bucket.
unfoldable pub keep_estimate :
    (ℕ → Text) → RuntimeEvent → EstimatedEvent → Option ℕ → Buckets → Buckets
keep_estimate format_unix ev est none bs = bs
keep_estimate format_unix ev est (some t) bs = record_estimate format_unix (estimate_of ev est t) bs

module _ {C : Type 0} where
  -- A worker that has started, with the catalog it loaded.
  unfoldable pub start : Catalog C → State C
  start c = record { catalog = c; buckets = []; rows = []; emitted = []; registry = new_registry }

  unfoldable pub bump_skipped : State C → State C
  bump_skipped s = record s {
    registry = record (s.registry) { estimates_skipped = suc s.registry.estimates_skipped };
  }

  unfoldable pub count_runtime : State C → State C
  count_runtime s = record s {
    registry = record (s.registry) { runtime_consumed = suc s.registry.runtime_consumed };
  }

  unfoldable pub count_reconciled : State C → State C
  count_reconciled s = record s {
    registry = record (s.registry) { reconciled_consumed = suc s.registry.reconciled_consumed };
  }

  unfoldable pub bump_unpriced : State C → State C
  bump_unpriced s = record s {
    registry = record (s.registry) { unpriced_events = suc s.registry.unpriced_events };
  }

  module _ (floats : Floats C) (format_unix : ℕ → Text) (parse_rfc3339 : Text → Option ℕ)
      (sha256_hex : Text → Text) where
    -- What follows Emit.
    unfoldable pub after_emit :
        RuntimeEvent
        → EstimatedEvent
        → State C
        → List EstimatedEvent × Bool
        → State C × Option HandlerError
    after_emit ev est s (sent, true) = (s, some not_emitted)
    after_emit ev est s (sent, false) = (
      record {
        catalog = s.catalog;
        buckets =
            keep_estimate format_unix ev est (parse_time parse_rfc3339 ev.recorded_at) s.buckets;
        rows = s.rows;
        emitted = sent;
        registry = record (s.registry) { estimates_emitted = suc s.registry.estimates_emitted };
      },
      none,
    )

    -- What follows Estimate.
    unfoldable pub price : Bool → RuntimeEvent → Estimated → State C → State C × Option HandlerError
    price fails ev (estimated est) s = after_emit ev est s (emit fails est s.emitted)
    price fails ev (refused not_priced) s = (bump_unpriced s, none)
    price fails ev (refused missing_event_id) s = (s, some (not_estimated missing_event_id))
    price fails ev (refused missing_tenant) s = (s, some (not_estimated missing_tenant))

    unfoldable pub handle_decoded :
        Bool → Text → RuntimeEvent → State C → State C × Option HandlerError
    handle_decoded fails now ev s =
        if is_runtime ev.source
        then if is_zero ev.input_tokens && is_zero ev.output_tokens
          then (bump_skipped s, none)
          else price fails ev (estimate floats sha256_hex now s.catalog ev) s
        else (bump_skipped s, none)

    -- handleRuntime on what the payload decodes to.
    unfoldable pub handle_runtime :
        Bool → Text → Option RuntimeEvent → State C → State C × Option HandlerError
    handle_runtime fails now none s = (count_runtime s, some bad_payload)
    handle_runtime fails now (some ev) s = handle_decoded fails now ev (count_runtime s)

    -- The ApplyReconciled of a period whose times are read.
    unfoldable pub apply_event :
        Bool → ReconciledEvent → Option ℕ → Option ℕ → State C → State C × Option HandlerError
    apply_event fails ev (some start) (some end) s =
        let key : CorrelationKey = record {
          tenant_id = ev.tenant;
          provider = ev.provider;
          model = ev.model;
          period_start = start;
          period_end = end;
        } in
        let rec : Reconciled = record { key = key; cost_minor = ev.cost_minor } in
        let r = s.registry in
        (
          record s {
            rows = apply_reconciled floats format_unix fails rec s.buckets s.rows;
            registry =
                if fails
                then record r { drift_errors = suc r.drift_errors }
                else record r { drift_rows_written = suc r.drift_rows_written };
          },
          if fails then some not_upserted else none,
        )
    apply_event fails ev (some start) none s = (s, none)
    apply_event fails ev none end s = (s, none)

    -- handleReconciled on what the payload decodes to.
    unfoldable pub handle_reconciled :
        Bool → Option ReconciledEvent → State C → State C × Option HandlerError
    handle_reconciled fails none s = (count_reconciled s, some bad_payload)
    handle_reconciled fails (some ev) s =
        if is_empty ev.tenant
        then (count_reconciled s, none)
        else apply_event fails ev (parse_time parse_rfc3339 ev.period_start)
            (parse_time parse_rfc3339 ev.period_end) (count_reconciled s)
