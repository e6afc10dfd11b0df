-- ===== src/Reconciler/Closer.antt =====
-- The closer, apps/worker/reconciler/internal/closer/closer.go, and the worker's run of events and
-- close-out cycles. Which outside calls fail is the record `Failures`.
pub mod Frozen
pub mod Cycle
use openllm_metrics.Prelude.{
  ℕ, suc, Bool, true, false, ◌&&◌, Option, none, some, List, [], ◌∷◌, Text, length, if◌then◌else◌,
}
use openllm_metrics.Prelude.Int.{ℤ, pos, pos_part, ltb_ℤ, ◌-ℤ◌}
use openllm_metrics.Reconciler.Store.{
  Status, status_open, status_closed, status_reconciled, status_unreconciled, Row, Table,
  scan_closable, mark_status,
}
use openllm_metrics.Reconciler.Joiner.{
  Floats, WindowKey, Labels, Entry, record_estimate, record_reconciled, forget,
}

pub record Result : Type 0 where
  pub scanned : ℕ
  pub reconciled : ℕ
  pub unreconciled : ℕ
  pub errors : ℕ

-- The joiner's buckets, the table, the rows emitted to the bus and those shown to the metrics, each
-- most recent first.
pub record World (C : Type 0) : Type 0 where
  pub buckets : List (Entry C)
  pub table : Table C
  pub emitted : List (Row C)
  pub observed : List (Row C)

pub record Failures : Type 0 where
  pub scan_fails : Bool
  pub mark_fails : ℕ → Bool
  pub emit_fails : ℕ → Bool

unfoldable pub new_batch_size : ℤ → ℕ
new_batch_size batch = if ltb_ℤ (pos 0) batch then pos_part batch else 256

abbrev no_result : Result
no_result = record { scanned = 0; reconciled = 0; unreconciled = 0; errors = 0 }

module _ {C : Type 0} where
  abbrev key_of : Row C → WindowKey
  key_of r = record {
    tenant_id = r.tenant_id;
    provider = r.provider;
    model = r.model;
    window_start = r.window_start;
    window_end = r.window_end;
  }

-- What the consumer handles: an estimate or a vendor's cost, and whether the database refuses.
pub data Arrival (C : Type 0) : Type 0 where
  estimate : Bool → WindowKey → Labels → C → Arrival C
  reconciled_usage : Bool → WindowKey → Labels → C → Arrival C

-- What the consumer handles while a cycle runs, by row: before the row's status is written, and
-- between that and the row's Forget.
pub record Meanwhile (C : Type 0) : Type 0 where
  pub before_mark : ℕ → List (Arrival C)
  pub before_forget : ℕ → List (Arrival C)

-- What the worker meets: an arrival, a close-out cycle.
pub data Event (C : Type 0) : Type 0 where
  arrival : Arrival C → Event C
  close_out : Failures → Meanwhile C → ℕ → ℤ → Event C

unfoldable pub count_outcome : Status → Result → Result
count_outcome status_open res = res
count_outcome status_closed res = res
count_outcome status_reconciled res = record res { reconciled = suc res.reconciled }
count_outcome status_unreconciled res = record res { unreconciled = suc res.unreconciled }

module _ (format_unix : ℕ → Text) {C : Type 0} (f : Floats C) where
  unfoldable pub terminal_status : Row C → Status
  terminal_status r =
      if f.less f.zero_usd r.estimated_cost_usd && f.less f.zero_usd r.reconciled_cost_usd
      then status_reconciled
      else status_unreconciled

  joined : List (Entry C) × Table C → World C → World C
  joined s w = record w { buckets = s.0; table = s.1 }

  unfoldable pub arrive : Arrival C → World C → World C
  unfolding joined
  arrive (estimate fails key labels cost) w =
      joined (record_estimate format_unix f fails key labels cost (w.buckets, w.table)) w
  arrive (reconciled_usage fails key labels cost) w =
      joined (record_reconciled format_unix f fails key labels cost (w.buckets, w.table)) w

  unfoldable pub arrive_all : List (Arrival C) → World C → World C
  arrive_all [] w = w
  arrive_all (a ∷ xs) w = arrive_all xs (arrive a w)

  -- A row's status is written, and its event and metrics are given with the scanned columns.
  unfoldable pub mark : Bool → Row C → World C → World C
  mark emit_fails r w =
      let last = record r { status = terminal_status r } in
      record w {
        table = mark_status r.id (terminal_status r) w.table;
        emitted = if emit_fails then w.emitted else last ∷ w.emitted;
        observed = last ∷ w.observed;
      }

  unfoldable pub forget_row : Row C → World C → World C
  forget_row r w = record w { buckets = forget format_unix f (key_of r) w.buckets }

  unfoldable pub close_row : Failures → Meanwhile C → Row C → World C → World C
  close_row fs mw r w =
      let before = arrive_all (mw.before_mark r.id) w in
      if fs.mark_fails r.id
      then before
      else forget_row r (arrive_all (mw.before_forget r.id) (mark (fs.emit_fails r.id) r before))

  unfoldable pub count_row : Failures → Row C → Result → Result
  count_row fs r res =
      if fs.mark_fails r.id
      then record res { errors = suc res.errors }
      else count_outcome (terminal_status r)
          (if fs.emit_fails r.id then record res { errors = suc res.errors } else res)

  unfoldable pub close_rows :
      Failures → Meanwhile C → List (Row C) → World C × Result → World C × Result
  close_rows fs mw [] (w, res) = (w, res)
  close_rows fs mw (r ∷ rs) (w, res) = close_rows fs mw rs (close_row fs mw r w, count_row fs r res)

  -- `now` and `grace` in nanoseconds; a scan that fails ends the cycle.
  unfoldable pub run_once : Failures → Meanwhile C → ℕ → ℤ → ℕ → World C → World C × Result
  run_once fs mw now grace batch w =
      if fs.scan_fails
      then (w, no_result)
      else let rows = scan_closable (pos now -ℤ grace) batch w.table in
        close_rows fs mw rows (w, record no_result { scanned = length rows })

  unfoldable pub step : ℕ → Event C → World C → World C
  step batch (arrival a) w = arrive a w
  step batch (close_out fs mw now grace) w = (run_once fs mw now grace batch w).0

  unfoldable pub run : ℕ → List (Event C) → World C → World C
  run batch [] w = w
  run batch (e ∷ es) w = run batch es (step batch e w)
