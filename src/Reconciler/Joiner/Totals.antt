-- ===== src/Reconciler/Joiner/Totals.antt =====
-- The totals that the joiner writes (apps/worker/reconciler/internal/joiner/joiner.go).
use openllm_metrics.Prelude.{
  ℕ, suc, ◌≡◌, refl, ap, ◌∙◌, true, false, some, List, [], ◌∷◌, Text, Text-discrete, if_pos, arith,
}
use openllm_metrics.Reconciler.Store.{
  Row, Table, status_open, same_slot, find_slot, update_rows, update_row, take_over, upsert_result,
}
use openllm_metrics.Reconciler.Joiner.{
  Floats, WindowKey, Labels, Bucket, Entry, lookup, store_bucket, key_string, bucket_locked,
  snapshot, with_estimate, with_reconciled, keep, record_estimate, record_reconciled,
}

module _ (format_unix : ℕ → Text) {C : Type 0} (f : Floats C) where
  -- One contribution to a window.
  pub data Contribution : Type 0 where
    estimated : Labels → C → Contribution
    billed : Labels → C → Contribution

  unfoldable pub contribute :
      WindowKey → Contribution → List (Entry C) × Table C → List (Entry C) × Table C
  contribute key (estimated labels cost) s = record_estimate format_unix f false key labels cost s
  contribute key (billed labels cost) s = record_reconciled format_unix f false key labels cost s

  unfoldable pub contribute_all :
      WindowKey → List Contribution → List (Entry C) × Table C → List (Entry C) × Table C
  contribute_all key [] s = s
  contribute_all key (c ∷ cs) s = contribute_all key cs (contribute key c s)

  -- The bucket after a contribution, and after some.
  unfoldable pub total : Contribution → Bucket C → Bucket C
  total (estimated labels cost) b = with_estimate format_unix f labels cost b
  total (billed labels cost) b = with_reconciled format_unix f labels cost b

  unfoldable pub totals : List Contribution → Bucket C → Bucket C
  totals [] b = b
  totals (c ∷ cs) b = totals cs (total c b)

  contribute_lem :
      (key : WindowKey) (c : Contribution) (s : List (Entry C) × Table C)
      → contribute key c s
        ≡ keep format_unix f false key (total c (bucket_locked format_unix f key s.0)) s
  unfolding contribute total record_estimate record_reconciled
  contribute_lem key (estimated labels cost) s = refl
  contribute_lem key (billed labels cost) s = refl

  lookup-store :
      (k : Text) (b : Bucket C) (es : List (Entry C)) → lookup k (store_bucket k b es) ≡ some b
  unfolding store_bucket lookup
  lookup-store k b es = rw (if_pos (Text-discrete k k) refl) refl

  -- The bucket that was kept is the one that is found.
  bucket_kept :
      (key : WindowKey) (b : Bucket C) (es : List (Entry C))
      → bucket_locked format_unix f key (store_bucket (key_string format_unix key) b es) ≡ b
  unfolding bucket_locked
  bucket_kept key b es = rw (lookup-store (key_string format_unix key) b es, bucket_locked) refl

  same_slot_lem :
      (r r' : Row C)
      → r.tenant_id ≡ r'.tenant_id
      → r.provider ≡ r'.provider
      → r.model ≡ r'.model
      → r.window_start ≡ r'.window_start
      → same_slot r r' ≡ true
  unfolding same_slot
  same_slot_lem r r' a b c d = rw (if_pos _ a, if_pos _ b, if_pos _ c) (ground arith)

  -- The one row of a window's bucket.
  abbrev pub row_of : WindowKey → ℕ → Bucket C → Row C
  row_of key id b = record (snapshot format_unix f key b) { id = id }

  upsert_new :
      (key : WindowKey) (b : Bucket C) (n : ℕ)
      → upsert_result (snapshot format_unix f key b) (record { rows = []; next_id = n })
        ≡ record { rows = row_of key n b ∷ []; next_id = suc n }
  unfolding upsert_result find_slot
  upsert_new key b n = refl

  update_one :
      (key : WindowKey) (b b' : Bucket C) (id : ℕ)
      → update_row (snapshot format_unix f key b') (row_of key id b) ≡ row_of key id b'
  unfolding update_row take_over snapshot
  update_one key b b' id =
      rw (same_slot_lem (snapshot format_unix f key b') (row_of key id b) refl refl refl refl) refl

  upsert_found :
      (new r : Row C) (n : ℕ)
      → same_slot new r ≡ true
      → upsert_result new (record { rows = r ∷ []; next_id = n })
        ≡ record { rows = update_row new r ∷ []; next_id = suc n }
  unfolding upsert_result find_slot update_rows
  upsert_found new r n h = rw (h, upsert_result) refl

  upsert_again :
      (key : WindowKey) (b b' : Bucket C) (id n : ℕ)
      → upsert_result
          (snapshot format_unix f key b')
          (record { rows = row_of key id b ∷ []; next_id = n })
        ≡ record { rows = row_of key id b' ∷ []; next_id = suc n }
  unfolding snapshot
  upsert_again key b b' id n =
      upsert_found (snapshot format_unix f key b') (row_of key id b) n
        (same_slot_lem (snapshot format_unix f key b') (row_of key id b) refl refl refl refl)
      ∙ ap (λ r. record { rows = r ∷ []; next_id = suc n }) (update_one key b b' id)

  -- The bucket of a window that nothing was recorded for.
  abbrev pub fresh_bucket : WindowKey → Bucket C
  fresh_bucket key = bucket_locked format_unix f key []

  -- A state whose only row is that of the bucket.
  record IsTotal (key : WindowKey) (id : ℕ) (b : Bucket C) (s : List (Entry C) × Table C)
      : Type 0 where
    bucket : bucket_locked format_unix f key s.0 ≡ b
    only : s.1.rows ≡ row_of key id b ∷ []

  IsTotal-contribute :
      (key : WindowKey) (id : ℕ) (b : Bucket C) (c : Contribution) (s : List (Entry C) × Table C)
      → IsTotal key id b s
      → IsTotal key id (total c b) (contribute key c s)
  unfolding keep
  IsTotal-contribute key id b c s v =
      let b' = total c (bucket_locked format_unix f key s.0) in
      let same : b' ≡ total c b = ap (total c) v.bucket in
      let whole : s.1 ≡ record { rows = row_of key id b ∷ []; next_id = s.1.next_id } =
        λ i. record { rows = v.only i; next_id = s.1.next_id } in
      rw (contribute_lem key c s) (record {
        bucket = bucket_kept key b' s.0 ∙ same;
        only =
            ap Table.rows (
              ap (upsert_result (snapshot format_unix f key b')) whole
              ∙ upsert_again key b b' id s.1.next_id)
            ∙ ap (λ x. row_of key id x ∷ []) same;
      })

  IsTotal-all :
      (key : WindowKey) (id : ℕ) (b : Bucket C) (cs : List Contribution)
      (s : List (Entry C) × Table C)
      → IsTotal key id b s
      → IsTotal key id (totals cs b) (contribute_all key cs s)
  unfolding totals contribute_all
  IsTotal-all key id b [] s v = v
  IsTotal-all key id b (c ∷ cs) s v =
      IsTotal-all key id (total c b) cs (contribute key c s) (IsTotal-contribute key id b c s v)

  IsTotal-first :
      (key : WindowKey) (c : Contribution) (n : ℕ)
      → IsTotal key n
          (total c (fresh_bucket key))
          (contribute key c ([], record { rows = []; next_id = n }))
  unfolding keep
  IsTotal-first key c n =
      let b = total c (fresh_bucket key) in
      rw (contribute_lem key c ([], record { rows = []; next_id = n }))
        (record { bucket = bucket_kept key b []; only = ap Table.rows (upsert_new key b n) })

  -- The sums, in order, of the estimates and of the vendor's costs.
  unfoldable pub sum_estimated : List Contribution → C → C
  sum_estimated [] x = x
  sum_estimated (estimated labels cost ∷ cs) x = sum_estimated cs (f.add x cost)
  sum_estimated (billed labels cost ∷ cs) x = sum_estimated cs x

  unfoldable pub sum_billed : List Contribution → C → C
  sum_billed [] x = x
  sum_billed (estimated labels cost ∷ cs) x = sum_billed cs x
  sum_billed (billed labels cost ∷ cs) x = sum_billed cs (f.add x cost)

  totals-sums :
      (cs : List Contribution) (b : Bucket C)
      → ((totals cs b).estimated ≡ sum_estimated cs b.estimated)
        × ((totals cs b).reconciled ≡ sum_billed cs b.reconciled)
  unfolding totals total with_estimate with_reconciled sum_estimated sum_billed
  totals-sums [] b = (refl, refl)
  totals-sums (estimated labels cost ∷ cs) b = totals-sums cs (total (estimated labels cost) b)
  totals-sums (billed labels cost ∷ cs) b = totals-sums cs (total (billed labels cost) b)

  -- Estimates and vendor costs of one window, in any order and number, leave exactly one row, an
  -- open one, with the sum of the estimates, the sum of the vendor's costs, and their difference.
  pub contribute_all-totals :
      (key : WindowKey) (c : Contribution) (cs : List Contribution) (n : ℕ)
      → (r : Row C) × ((contribute_all key (c ∷ cs) ([], record { rows = []; next_id = n })).1.rows
          ≡ r ∷ [])
        × (r.estimated_cost_usd ≡ sum_estimated (c ∷ cs) f.zero_usd)
        × (r.reconciled_cost_usd ≡ sum_billed (c ∷ cs) f.zero_usd)
        × (r.drift_usd ≡ f.sub r.reconciled_cost_usd r.estimated_cost_usd)
        × (r.status ≡ status_open)
  unfolding contribute_all totals snapshot bucket_locked lookup
  contribute_all-totals key c cs n =
      let sums = totals-sums (c ∷ cs) (fresh_bucket key) in
      (
        row_of key n (totals (c ∷ cs) (fresh_bucket key)),
        (IsTotal-all key n (total c (fresh_bucket key)) cs
            (contribute key c ([], record { rows = []; next_id = n }))
            (IsTotal-first key c n)).only,
        sums.0,
        sums.1,
        refl,
        refl,
      )

  -- A contribution after a restart, when the joiner has no buckets, overwrites the window's open row
  -- by a row of that contribution alone: what the row had summed up before is lost.
  pub contribute-restarted :
      (key : WindowKey) (before : Bucket C) (c : Contribution) (id n : ℕ)
      → (contribute key c ([], record { rows = row_of key id before ∷ []; next_id = n })).1.rows
        ≡ row_of key id (total c (fresh_bucket key)) ∷ []
  unfolding keep
  contribute-restarted key before c id n =
      rw (contribute_lem key c ([], record { rows = row_of key id before ∷ []; next_id = n }))
        (ap Table.rows (upsert_again key before (total c (fresh_bucket key)) id n))
