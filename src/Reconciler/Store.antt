-- ===== src/Reconciler/Store.antt =====
-- UpsertResult, ScanClosable and MarkStatus of apps/worker/reconciler/internal/store/store.go, over
-- the rows of reconciliation_results with its unique key (tenant_id, provider, model, window_start).
-- Times are nanoseconds since Go's zero time, costs of a type `C`.
pub mod Rows
pub mod Scans
use openllm_metrics.Prelude.{
  ℕ, zero, suc, Bool, true, false, ◌&&◌, not, Option, none, some, List, [], ◌∷◌, ◌++◌, map, Text,
  Text-discrete, ◌==◌, leb, take, ite, if◌then◌else◌,
}
use openllm_metrics.Prelude.Int.{ℤ, pos, ltb_ℤ}

pub data Status : Type 0 where
  status_open status_closed status_reconciled status_unreconciled : Status

pub record Row (C : Type 0) : Type 0 where
  pub id : ℕ
  pub tenant_id : Text
  pub team : Text
  pub app : Text
  pub env : Text
  pub project : Text
  pub provider : Text
  pub model : Text
  pub window_start : ℕ
  pub window_end : ℕ
  pub estimated_cost_usd : C
  pub reconciled_cost_usd : C
  pub drift_usd : C
  pub drift_ratio : C
  pub status : Status

pub record Table (C : Type 0) : Type 0 where
  pub rows : List (Row C)
  pub next_id : ℕ

abbrev pub is_open : Status → Bool
is_open status_open = true
is_open status_closed = false
is_open status_reconciled = false
is_open status_unreconciled = false

text_eq : Text → Text → Bool
text_eq a b = ite (Text-discrete a b) true false

module _ {C : Type 0} where
  -- The unique key of the two rows is the same.
  unfoldable pub same_slot : Row C → Row C → Bool
  unfolding text_eq
  same_slot a b =
      text_eq a.tenant_id b.tenant_id
      && (text_eq a.provider b.provider
          && (text_eq a.model b.model && a.window_start == b.window_start))

  unfoldable pub find_slot : Row C → List (Row C) → Option (Row C)
  find_slot new [] = none
  find_slot new (r ∷ rs) = let rest = find_slot new rs in if same_slot new r then some r else rest

  -- The columns that an upsert takes over; the status is not among them.
  unfoldable pub take_over : Row C → Row C → Row C
  take_over new old = record old {
    team = new.team;
    app = new.app;
    env = new.env;
    project = new.project;
    window_end = new.window_end;
    estimated_cost_usd = new.estimated_cost_usd;
    reconciled_cost_usd = new.reconciled_cost_usd;
    drift_usd = new.drift_usd;
    drift_ratio = new.drift_ratio;
  }

  unfoldable pub update_row : Row C → Row C → Row C
  update_row new old =
      if same_slot new old then (if is_open old.status then take_over new old else old) else old

  unfoldable pub update_rows : Row C → List (Row C) → List (Row C)
  update_rows new = map (update_row new)

  -- The insert takes an id also where the row is there already.
  unfoldable pub upsert_result : Row C → Table C → Table C
  upsert_result new t = record {
    rows = elim (find_slot new t.rows) [
      | none ↦ t.rows ++ record new { id = t.next_id } ∷ []
      | some r ↦ update_rows new t.rows
    ];
    next_id = suc t.next_id;
  }

  unfoldable pub closable : ℤ → Row C → Bool
  closable cutoff r = is_open r.status && not (ltb_ℤ cutoff (pos r.window_end))

  unfoldable pub closable_rows : ℤ → List (Row C) → List (Row C)
  closable_rows cutoff [] = []
  closable_rows cutoff (r ∷ rs) =
      let rest = closable_rows cutoff rs in if closable cutoff r then r ∷ rest else rest

  -- ORDER BY window_end ASC
  unfoldable pub insert_by_end : Row C → List (Row C) → List (Row C)
  insert_by_end r [] = r ∷ []
  insert_by_end r (s ∷ ss) =
      let rest = insert_by_end r ss in
      if leb r.window_end s.window_end then r ∷ s ∷ ss else s ∷ rest

  unfoldable pub sort_by_end : List (Row C) → List (Row C)
  sort_by_end [] = []
  sort_by_end (r ∷ rs) = insert_by_end r (sort_by_end rs)

  unfoldable pub scan_closable : ℤ → ℕ → Table C → List (Row C)
  scan_closable cutoff limit t = take limit (sort_by_end (closable_rows cutoff t.rows))

  unfoldable pub mark_row : ℕ → Status → Row C → Row C
  mark_row id status r = if r.id == id then record r { status = status } else r

  unfoldable pub mark_rows : ℕ → Status → List (Row C) → List (Row C)
  mark_rows id status = map (mark_row id status)

  unfoldable pub mark_status : ℕ → Status → Table C → Table C
  mark_status id status t = record t { rows = mark_rows id status t.rows }
