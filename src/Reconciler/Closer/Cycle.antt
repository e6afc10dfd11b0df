-- ===== src/Reconciler/Closer/Cycle.antt =====
-- A close-out cycle (apps/worker/reconciler/internal/closer/closer.go).
use mathlib.Core.List.{Memᴰ}
use mathlib.Core.List.Memᴰ as In
use openllm_metrics.Prelude.{
  ℕ, ◌≤◌, ℕ_discrete, ◌≡◌, ◌≢◌, refl, ap, sym, ◌∙◌, subst, Bool, true, false, List, [], ◌∷◌, Text,
  length, inl, inr, Bool-cases, arith,
}
use openllm_metrics.Prelude.Int.{ℤ, pos, ◌-ℤ◌}
use openllm_metrics.Reconciler.Store.{
  Row, Table, Status, is_open, mark_status, closable, closable_rows,
}
use openllm_metrics.Reconciler.Store.Rows.{
  IsSame, IsThere, IsKeyed, mark_status-self, mark_status-other, mark_status-IsThere,
  upsert_result-IsThere, upsert_result-frozen,
}
use openllm_metrics.Reconciler.Store.Scans.{of_scan, to_scan}
use openllm_metrics.Reconciler.Joiner.{
  Floats, WindowKey, Bucket, Entry, bucket_locked, snapshot, with_estimate, with_reconciled, keep,
  record_estimate, record_reconciled,
}
use openllm_metrics.Reconciler.Closer.{
  Result, World, Failures, Arrival, Meanwhile, estimate, reconciled_usage, terminal_status, arrive,
  arrive_all, mark, forget_row, close_row, count_row, close_rows, run_once,
}
use openllm_metrics.Reconciler.Closer.Frozen.{run_once_scanned, scanned_rows, start_result}

module _ (format_unix : ℕ → Text) {C : Type 0} (f : Floats C) where
  terminal_status-closed : (r : Row C) → is_open (terminal_status format_unix f r) ≡ false
  unfolding terminal_status
  terminal_status-closed r = ground arith

  -- What holds of the table through all that arrives.
  record IsStable (P : Table C → Type 0) : Type 0 where
    upserts :
        (key : WindowKey) (b : Bucket C) (s : List (Entry C) × Table C)
        → P s.1
        → P (keep format_unix f false key b s).1

  module _ (P : Table C → Type 0) (stable : IsStable P) where
    keep_stable :
        (fails : Bool) (key : WindowKey) (b : Bucket C) (s : List (Entry C) × Table C)
        → P s.1
        → P (keep format_unix f fails key b s).1
    unfolding keep
    keep_stable true key b s v = v
    keep_stable false key b s v = stable.upserts key b s v

    arrive_all_stable :
        (xs : List (Arrival C)) (w : World C) → P w.table → P (arrive_all format_unix f xs w).table
    unfolding arrive_all arrive record_estimate record_reconciled
    arrive_all_stable [] w v = v
    arrive_all_stable (estimate fails key labels cost ∷ xs) w v =
        arrive_all_stable xs (arrive format_unix f (estimate fails key labels cost) w) (
          keep_stable fails key
            (with_estimate format_unix f labels cost (bucket_locked format_unix f key w.buckets))
            (w.buckets, w.table) v)
    arrive_all_stable (reconciled_usage fails key labels cost ∷ xs) w v =
        arrive_all_stable xs (arrive format_unix f (reconciled_usage fails key labels cost) w) (
          keep_stable fails key
            (with_reconciled format_unix f labels cost (bucket_locked format_unix f key w.buckets))
            (w.buckets, w.table) v)

    -- A close-out of a row: what its change of status keeps or brings about.
    close_row_stable :
        (fs : Failures) (mw : Meanwhile C) (x : Row C) (w : World C)
        → ((t : Table C) → P t → P (mark_status x.id (terminal_status format_unix f x) t))
        → P w.table
        → P (close_row format_unix f fs mw x w).table
    unfolding close_row mark forget_row
    close_row_stable fs mw x w h v =
        let before = arrive_all_stable (mw.before_mark x.id) w v in
        let w' : World C = arrive_all format_unix f (mw.before_mark x.id) w in
        elim (Bool-cases (fs.mark_fails x.id)) [
          | inl e ↦ rw e before
          | inr e ↦ rw e (
              arrive_all_stable (mw.before_forget x.id)
                (mark format_unix f (fs.emit_fails x.id) x w') (h w'.table before))
        ]

  -- The row is in the table, with the outcome of the costs that were scanned.
  abbrev pub IsClosed : Row C → Table C → Type 0
  IsClosed r t =
      (s : Row C) × Memᴰ s t.rows × IsSame r s × (s.status ≡ terminal_status format_unix f r)

  IsThere-stable : (r : Row C) → IsStable (IsThere r)
  unfolding keep
  IsThere-stable r = record {
    upserts = λ key b s v. upsert_result-IsThere (snapshot format_unix f key b) r s.1 v;
  }

  IsClosed-stable : (r : Row C) → IsStable (IsClosed r)
  unfolding keep
  IsClosed-stable r = record {
    upserts = λ key b t v.
        let (s, m, same, e) = v in
        (
          s,
          upsert_result-frozen (snapshot format_unix f key b) s t.1
              (ap is_open e ∙ terminal_status-closed r) m,
          same,
          e,
        );
  }

  -- The row's own change of status.
  mark-IsClosed :
      (r : Row C) (t : Table C)
      → IsThere r t
      → IsClosed r (mark_status r.id (terminal_status format_unix f r) t)
  mark-IsClosed r t (s, m, same) =
      let status = terminal_status format_unix f r in
      (
        record s { status = status },
        subst (λ i. Memᴰ (record s { status = status }) (mark_status i status t).rows) same.id
            (mark_status-self status s t m),
        record {
          id = same.id;
          tenant = same.tenant;
          provider = same.provider;
          model = same.model;
          start = same.start;
        },
        refl,
      )

  mark-IsClosed_other :
      (r : Row C) (i : ℕ) (status : Status) (t : Table C)
      → i ≢ r.id
      → IsClosed r t
      → IsClosed r (mark_status i status t)
  mark-IsClosed_other r i status t h (s, m, same, e) =
      (s, mark_status-other i status s t (λ k. h (k ∙ same.id)) m, same, e)

  module _ (fs : Failures) (mw : Meanwhile C) (r : Row C) (works : fs.mark_fails r.id ≡ false) where
    -- Rows of the scan with the row's id are the row.
    abbrev Single : List (Row C) → Type 0
    Single rs = (s : Row C) → Memᴰ s rs → s.id ≡ r.id → s ≡ r

    close_row_self :
        (s : Row C) (w : World C)
        → s ≡ r
        → IsThere r w.table
        → IsClosed r (close_row format_unix f fs mw s w).table
    unfolding close_row mark forget_row
    close_row_self s w e v =
        let w' : World C = arrive_all format_unix f (mw.before_mark r.id) w in
        let before = arrive_all_stable (IsThere r) (IsThere-stable r) (mw.before_mark r.id) w v in
        subst (λ x. IsClosed r (close_row format_unix f fs mw x w).table) (sym e)
          (rw works (
            arrive_all_stable (IsClosed r) (IsClosed-stable r) (mw.before_forget r.id)
              (mark format_unix f (fs.emit_fails r.id) r w') (mark-IsClosed r w'.table before)))

    close_row-IsClosed :
        (s : Row C) (w : World C)
        → (s.id ≡ r.id → s ≡ r)
        → IsClosed r w.table
        → IsClosed r (close_row format_unix f fs mw s w).table
    close_row-IsClosed s w single v = elim (ℕ_discrete s.id r.id) [
      | yes same ↦ close_row_self s w (single same) (let (x, m, k, e) = v in (x, m, k))
      | no differ ↦
          close_row_stable (IsClosed r) (IsClosed-stable r) fs mw s w
            (λ t. mark-IsClosed_other r s.id (terminal_status format_unix f s) t differ) v
    ]

    -- Once closed, the row stays so for the rest of the cycle.
    close_rows-IsClosed :
        (rs : List (Row C)) (w : World C) (res : Result)
        → Single rs
        → IsClosed r w.table
        → IsClosed r (close_rows format_unix f fs mw rs (w, res)).0.table
    unfolding close_rows
    close_rows-IsClosed [] w res h v = v
    close_rows-IsClosed (s ∷ rs) w res h v =
        close_rows-IsClosed rs (close_row format_unix f fs mw s w)
          (count_row format_unix f fs s res) (λ x k. h x (In.tail k))
          (close_row-IsClosed s w (h s (In.head refl)) v)

    close_rows-reaches :
        (rs : List (Row C)) (w : World C) (res : Result)
        → Single rs
        → IsThere r w.table
        → Memᴰ r rs
        → IsClosed r (close_rows format_unix f fs mw rs (w, res)).0.table
    unfolding close_rows
    close_rows-reaches [] w res h v k = absurd (In.not-nil k)
    close_rows-reaches (s ∷ rs) w res h v k =
        let w' = close_row format_unix f fs mw s w in
        let res' = count_row format_unix f fs s res in
        let rest = λ (x : Row C) (l : Memᴰ x rs). h x (In.tail l) in
        elim (In.cases_cons k) [
          | inl here ↦ close_rows-IsClosed rs w' res' rest (close_row_self s w (sym here) v)
          | inr later ↦
              close_rows-reaches rs w' res' rest
                (close_row_stable (IsThere r) (IsThere-stable r) fs mw s w
                  (λ t. mark_status-IsThere s.id (terminal_status format_unix f s) r t) v)
                later
        ]

  -- In a table whose rows have ids of their own, a close-out cycle whose scan goes through and finds
  -- no more rows than the batch size closes every open row whose window ended a grace period ago or
  -- earlier, if its status can be written, whatever the consumer handles meanwhile: the row becomes
  -- reconciled where both costs were positive at the scan and unreconciled otherwise, its id and its
  -- window's key kept.
  pub run_once-closes :
      (fs : Failures) (mw : Meanwhile C) (now : ℕ) (grace : ℤ) (batch : ℕ) (w : World C) (r : Row C)
      → IsKeyed w.table
      → fs.scan_fails ≡ false
      → length (closable_rows (pos now -ℤ grace) w.table.rows) ≤ batch
      → Memᴰ r w.table.rows
      → closable (pos now -ℤ grace) r ≡ true
      → fs.mark_fails r.id ≡ false
      → IsClosed r (run_once format_unix f fs mw now grace batch w).0.table
  run_once-closes fs mw now grace batch w r v scans fits m due works =
      let rows = scanned_rows format_unix f fs mw now grace batch w in
      let single = λ (s : Row C) (k : Memᴰ s rows) (same : s.id ≡ r.id).
        v.unique s r (of_scan (pos now -ℤ grace) batch w.table s k).0 m same in
      subst (λ x. IsClosed r (World.table x.0))
        (sym (run_once_scanned format_unix f fs mw now grace batch w scans))
        (close_rows-reaches fs mw r works rows w
          (start_result format_unix f fs mw now grace batch w) single
          (r, m, record { id = refl; tenant = refl; provider = refl; model = refl; start = refl })
          (to_scan (pos now -ℤ grace) batch w.table r fits m due))
