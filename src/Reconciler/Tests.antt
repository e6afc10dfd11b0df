-- ===== src/Reconciler/Tests.antt =====
-- The reconciler's theorems on costs in whole dollars.
use mathlib.Core.List.{Memᴰ}
use mathlib.Core.List.Memᴰ as In
use openllm_metrics.Prelude.{Text-discrete, is_space, lower_byte, to_lower, trim_left, trim_space}
use openllm_metrics.Prelude.{
  ℕ, ◌+◌, ◌-◌, ◌/◌, ◌≡◌, refl, ap, sym, ◌∙◌, true, false, List, [], ◌∷◌, map, Text, text, ltb,
  arith,
}
use openllm_metrics.Prelude.Int.{pos, ◌-ℤ◌}
use openllm_metrics.Reconciler.Store as Store
use openllm_metrics.Reconciler.Joiner as Joiner
use openllm_metrics.Reconciler.Closer as Closer
use openllm_metrics.Reconciler.Store.{
  Row, status_open, status_reconciled, status_unreconciled, closable, closable_rows,
}
use openllm_metrics.Reconciler.Store.Rows.{IsKeyed}
use openllm_metrics.Reconciler.Joiner.{Floats, WindowKey, Labels}
use openllm_metrics.Reconciler.Joiner.Totals.{
  estimated, billed, contribute, contribute_all, total, fresh_bucket, row_of, sum_estimated,
  sum_billed, contribute_all-totals, contribute-restarted,
}
use openllm_metrics.Reconciler.Windows.{
  max_iters, covering, windows_in_period, windows_in_period-covering,
}
use openllm_metrics.Reconciler.Closer.{
  World, Failures, Meanwhile, estimate, reconciled_usage, arrival, close_out, run, run_once,
}
use openllm_metrics.Reconciler.Closer.Frozen.{run-frozen}
use openllm_metrics.Reconciler.Closer.Cycle.{IsClosed, run_once-closes}

abbrev dollars : Floats ℕ
dollars = record { zero_usd = 0; min_denominator = 1; add = ◌+◌; sub = ◌-◌; div = ◌/◌; less = ltb }

abbrev print : ℕ → Text
print n = n ∷ []

abbrev window : WindowKey
window = record {
  tenant_id = text "t1";
  provider = text " OpenAI";
  model = text "gpt-4o";
  window_start = 3600;
  window_end = 7200;
}

abbrev core : Labels
core = record { team = text "core"; app = []; env = []; project = [] }

contribute_all-totals_example :
    (r : Row ℕ) × ((contribute_all print dollars window
        (estimated core 5 ∷ billed core 7 ∷ estimated core 1 ∷ [])
        ([], record { rows = []; next_id = 1 })).1.rows
      ≡ r ∷ [])
    × (r.estimated_cost_usd
        ≡ sum_estimated print dollars (estimated core 5 ∷ billed core 7 ∷ estimated core 1 ∷ []) 0)
    × (r.reconciled_cost_usd
        ≡ sum_billed print dollars (estimated core 5 ∷ billed core 7 ∷ estimated core 1 ∷ []) 0)
    × (r.drift_usd ≡ r.reconciled_cost_usd - r.estimated_cost_usd)
    × (r.status ≡ status_open)
contribute_all-totals_example =
    contribute_all-totals print dollars window (estimated core 5)
      (billed core 7 ∷ estimated core 1 ∷ []) 1

contribute-restarted_example :
    (contribute print dollars window (billed core 7) (
      [],
      record {
        rows =
            row_of print dollars window 1
              (total print dollars (estimated core 5) (fresh_bucket print dollars window))
            ∷ [];
        next_id = 2;
      },
    )).1.rows
    ≡ row_of print dollars window 1
        (total print dollars (billed core 7) (fresh_bucket print dollars window))
      ∷ []
contribute-restarted_example =
    contribute-restarted print dollars window
      (total print dollars (estimated core 5) (fresh_bucket print dollars window)) (billed core 7) 1
      2

abbrev due : Row ℕ
due = record {
  id = 1;
  tenant_id = text "t1";
  team = [];
  app = [];
  env = [];
  project = [];
  provider = text "openai";
  model = text "gpt-4o";
  window_start = 3600;
  window_end = 7200;
  estimated_cost_usd = 5;
  reconciled_cost_usd = 7;
  drift_usd = 2;
  drift_ratio = 0;
  status = status_open;
}

abbrev world_of : Row ℕ → World ℕ
world_of r = record {
  buckets = [];
  table = record { rows = r ∷ []; next_id = 2 };
  emitted = [];
  observed = [];
}

world_of-IsKeyed : (r : Row ℕ) → r.id ≡ 1 → IsKeyed (world_of r).table
world_of-IsKeyed r i = record {
  unique = λ x y a b e. In.eq_of_singleton a ∙ sym (In.eq_of_singleton b);
  fresh = λ x m. omega (arith, ap Row.id (In.eq_of_singleton m));
}

abbrev no_failures : Failures
no_failures = record { scan_fails = false; mark_fails = λ id. false; emit_fails = λ id. true }

-- A vendor's cost that arrives after the scan.
abbrev late : Meanwhile ℕ
late = record {
  before_mark = λ id. reconciled_usage false window core 7 ∷ [];
  before_forget = λ id. estimate false window core 9 ∷ [];
}

abbrev unbilled : Row ℕ
unbilled = record due { reconciled_cost_usd = 0 }

run_once-closes_example :
    IsClosed print dollars unbilled
      (run_once print dollars no_failures late 10000 (pos 100) 256 (world_of unbilled)).0.table
unfolding closable closable_rows ◌-ℤ◌
run_once-closes_example =
    run_once-closes print dollars no_failures late 10000 (pos 100) 256 (world_of unbilled) unbilled
      (world_of-IsKeyed unbilled refl) refl (omega arith) (In.head refl) refl refl

-- The row holds the vendor's cost and is unreconciled: the status is that of the scanned costs.
abbrev settled : List (Row ℕ)
settled =
    (run_once print dollars no_failures late 10000 (pos 100) 256 (world_of unbilled)).0.table.rows

late_cost_unreconciled :
    (map Row.reconciled_cost_usd settled ≡ 7 ∷ [])
    × (map Row.status settled ≡ status_unreconciled ∷ [])
unfolding run_once Closer.close_rows Store.scan_closable Store.sort_by_end closable_rows closable
    ◌-ℤ◌ Store.insert_by_end Closer.close_row Closer.forget_row Closer.arrive_all Closer.arrive
    Joiner.record_estimate Joiner.keep Store.upsert_result Store.find_slot Closer.mark Text-discrete
    is_space lower_byte to_lower trim_left trim_space Closer.terminal_status Joiner.adopt_labels
    Joiner.bucket_locked Joiner.canonical Joiner.forget Joiner.key_string Joiner.lookup
    Joiner.record_reconciled Joiner.remove Joiner.snapshot Joiner.store_bucket Joiner.with_estimate
    Joiner.with_reconciled Store.mark_row Store.mark_rows Store.mark_status Store.same_slot
    Store.take_over Store.update_row Store.update_rows
late_cost_unreconciled = (refl, refl)

run-frozen_example :
    Memᴰ
      (record due { status = status_reconciled })
      (run print dollars 256
        (arrival (estimate false window core 9) ∷ close_out no_failures late 20000 (pos 100) ∷ [])
        (world_of (record due { status = status_reconciled }))).table.rows
run-frozen_example =
    run-frozen print dollars (record due { status = status_reconciled }) refl 256
      (arrival (estimate false window core 9) ∷ close_out no_failures late 20000 (pos 100) ∷ [])
      (world_of (record due { status = status_reconciled }))
      (world_of-IsKeyed (record due { status = status_reconciled }) refl) (In.head refl)

-- A period of two hours and a half, from half past one.
windows_in_period-covering_example :
    covering 9000000000000 (windows_in_period 3600000000000 5400000000000 14400000000000) ≡ 1
unfolding max_iters
windows_in_period-covering_example =
    windows_in_period-covering 3600000000000 5400000000000 14400000000000 9000000000000
      (omega arith) (omega arith) (omega arith) (omega arith)
