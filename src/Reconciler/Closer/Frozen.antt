-- ===== src/Reconciler/Closer/Frozen.antt =====
-- A window that left the state open is final
-- (apps/worker/reconciler/internal/closer/closer.go, joiner/joiner.go, store/store.go).
use mathlib.Core.List.{Memᴰ}
use mathlib.Core.List.Memᴰ as In
use openllm_metrics.Prelude.{
  ℕ, ◌≡◌, ◌≢◌, refl, ap, sym, ◌∙◌, subst, Bool, true, false, List, [], ◌∷◌, Text, length,
  if◌then◌else◌, Bool-cases, inl, inr,
}
use openllm_metrics.Prelude.Int.{ℤ, pos, ◌-ℤ◌}
use openllm_metrics.Reconciler.Store.{Row, Table, is_open, scan_closable}
use openllm_metrics.Reconciler.Store.Rows.{
  IsKeyed, upsert_result-IsKeyed, upsert_result-frozen, mark_status-IsKeyed, mark_status-other,
}
use openllm_metrics.Reconciler.Store.Scans.{of_scan, closable-is_open}
use openllm_metrics.Reconciler.Joiner.{
  Floats, WindowKey, Bucket, Entry, bucket_locked, snapshot, with_estimate, with_reconciled, keep,
  record_estimate, record_reconciled,
}
use openllm_metrics.Reconciler.Closer.{
  Result, World, Failures, terminal_status, mark, forget_row, close_row, count_row, close_rows,
  run_once, Event, Arrival, Meanwhile, estimate, reconciled_usage, arrival, close_out, arrive,
  arrive_all, step, run,
}

-- The table is keyed, and has the row.
record IsKept {C : Type 0} (r : Row C) (t : Table C) : Type 0 where
  keyed : IsKeyed t
  present : Memᴰ r t.rows

module _ (format_unix : ℕ → Text) {C : Type 0} (f : Floats C) where
  module _ (fs : Failures) (mw : Meanwhile C) (now : ℕ) (grace : ℤ) (batch : ℕ) (w : World C) where
    abbrev pub scanned_rows : List (Row C)
    scanned_rows = scan_closable (pos now -ℤ grace) batch w.table

    abbrev pub start_result : Result
    start_result = record {
      scanned = length scanned_rows;
      reconciled = 0;
      unreconciled = 0;
      errors = 0;
    }

    abbrev none_scanned : Result
    none_scanned = record { scanned = 0; reconciled = 0; unreconciled = 0; errors = 0 }

    pub run_once_scanned :
        fs.scan_fails ≡ false
        → run_once format_unix f fs mw now grace batch w
          ≡ close_rows format_unix f fs mw scanned_rows (w, start_result)
    unfolding run_once
    run_once_scanned e =
        ap
          (λ b.
            if b
            then (w, none_scanned)
            else close_rows format_unix f fs mw scanned_rows (w, start_result))
          e

    run_once_failed :
        fs.scan_fails ≡ true → run_once format_unix f fs mw now grace batch w ≡ (w, none_scanned)
    unfolding run_once
    run_once_failed e =
        ap
          (λ b.
            if b
            then (w, none_scanned)
            else close_rows format_unix f fs mw scanned_rows (w, start_result))
          e

  module _ (r : Row C) (gone : is_open r.status ≡ false) where
    keep-IsKept :
        (fails : Bool) (key : WindowKey) (b : Bucket C) (s : List (Entry C) × Table C)
        → IsKept r s.1
        → IsKept r (keep format_unix f fails key b s).1
    unfolding keep
    keep-IsKept true key b s v = v
    keep-IsKept false key b s v = record {
      keyed = upsert_result-IsKeyed (snapshot format_unix f key b) s.1 v.keyed;
      present = upsert_result-frozen (snapshot format_unix f key b) r s.1 gone v.present;
    }

    arrive_all-IsKept :
        (xs : List (Arrival C)) (w : World C)
        → IsKept r w.table
        → IsKept r (arrive_all format_unix f xs w).table
    unfolding arrive_all arrive record_estimate record_reconciled
    arrive_all-IsKept [] w v = v
    arrive_all-IsKept (estimate fails key labels cost ∷ xs) w v =
        arrive_all-IsKept xs (arrive format_unix f (estimate fails key labels cost) w) (
          keep-IsKept fails key
            (with_estimate format_unix f labels cost (bucket_locked format_unix f key w.buckets))
            (w.buckets, w.table) v)
    arrive_all-IsKept (reconciled_usage fails key labels cost ∷ xs) w v =
        arrive_all-IsKept xs (arrive format_unix f (reconciled_usage fails key labels cost) w) (
          keep-IsKept fails key
            (with_reconciled format_unix f labels cost (bucket_locked format_unix f key w.buckets))
            (w.buckets, w.table) v)

    -- Another row's close-out.
    close_row-IsKept :
        (fs : Failures) (mw : Meanwhile C) (s : Row C) (w : World C)
        → s.id ≢ r.id
        → IsKept r w.table
        → IsKept r (close_row format_unix f fs mw s w).table
    unfolding close_row mark forget_row
    close_row-IsKept fs mw s w h v =
        let before = arrive_all-IsKept (mw.before_mark s.id) w v in
        let w' : World C = arrive_all format_unix f (mw.before_mark s.id) w in
        elim (Bool-cases (fs.mark_fails s.id)) [
          | inl e ↦ rw e before
          | inr e ↦ rw e (
              arrive_all-IsKept (mw.before_forget s.id)
                (mark format_unix f (fs.emit_fails s.id) s w')
                (record {
                  keyed =
                      mark_status-IsKeyed s.id (terminal_status format_unix f s) w'.table
                        before.keyed;
                  present =
                      mark_status-other s.id (terminal_status format_unix f s) r w'.table h
                        before.present;
                }))
        ]

    close_rows-IsKept :
        (fs : Failures) (mw : Meanwhile C) (rs : List (Row C)) (w : World C) (res : Result)
        → ((s : Row C) → Memᴰ s rs → s.id ≢ r.id)
        → IsKept r w.table
        → IsKept r (close_rows format_unix f fs mw rs (w, res)).0.table
    unfolding close_rows
    close_rows-IsKept fs mw [] w res h v = v
    close_rows-IsKept fs mw (s ∷ rs) w res h v =
        close_rows-IsKept fs mw rs (close_row format_unix f fs mw s w)
          (count_row format_unix f fs s res) (λ x m. h x (In.tail m))
          (close_row-IsKept fs mw s w (h s (In.head refl)) v)

    run_once-IsKept :
        (fs : Failures) (mw : Meanwhile C) (now : ℕ) (grace : ℤ) (batch : ℕ) (w : World C)
        → IsKept r w.table
        → IsKept r (run_once format_unix f fs mw now grace batch w).0.table
    run_once-IsKept fs mw now grace batch w v = elim (Bool-cases fs.scan_fails) [
      | inl e ↦
          subst (λ x. IsKept r (World.table x.0)) (sym (run_once_failed fs mw now grace batch w e))
            v
      | inr e ↦
          subst (λ x. IsKept r (World.table x.0)) (sym (run_once_scanned fs mw now grace batch w e))
            (close_rows-IsKept fs mw (scanned_rows fs mw now grace batch w) w
              (start_result fs mw now grace batch w)
              (λ s m same.
                let (there, c) = of_scan (pos now -ℤ grace) batch w.table s m in
                let eq = v.keyed.unique s r there v.present same in
                false-true (
                  sym gone
                  ∙ sym (ap (λ x. is_open (Row.status x)) eq)
                  ∙ closable-is_open (pos now -ℤ grace) s c))
              v)
    ]
      where
        false-true : false ≡ true → ⊥
        false-true e = cc

    step-IsKept :
        (batch : ℕ) (e : Event C) (w : World C)
        → IsKept r w.table
        → IsKept r (step format_unix f batch e w).table
    unfolding step arrive_all
    step-IsKept batch (arrival a) w v = arrive_all-IsKept (a ∷ []) w v
    step-IsKept batch (close_out fs mw now grace) w v = run_once-IsKept fs mw now grace batch w v

    run-IsKept :
        (batch : ℕ) (es : List (Event C)) (w : World C)
        → IsKept r w.table
        → IsKept r (run format_unix f batch es w).table
    unfolding run
    run-IsKept batch [] w v = v
    run-IsKept batch (e ∷ es) w v =
        run-IsKept batch es (step format_unix f batch e w) (step-IsKept batch e w v)

    -- A row whose status is not open any more stays in the table exactly as it is, whatever late
    -- estimates and vendor costs come, also while a cycle runs, whichever close-out cycles run and
    -- whatever fails.
    pub run-frozen :
        (batch : ℕ) (es : List (Event C)) (w : World C)
        → IsKeyed w.table
        → Memᴰ r w.table.rows
        → Memᴰ r (run format_unix f batch es w).table.rows
    run-frozen batch es w v m = (run-IsKept batch es w (record { keyed = v; present = m })).present
