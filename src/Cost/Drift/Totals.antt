-- ===== src/Cost/Drift/Totals.antt =====
-- The buckets and the rows of the cost mapper's reconciler
-- (apps/worker/cost-mapper/internal/reconciler/reconciler.go).
use mathlib.Core.List.{Memᴰ}
use mathlib.Core.List.Memᴰ as In
use openllm_metrics.Prelude.{
  ℕ, ◌≡◌, refl, ap, sym, ◌∙◌, inl, inr, Bool-cases, Option, none, some, List, [], ◌∷◌, Text,
  Text-discrete, ite, if_pos, if_neg, get, put, get-put,
}
use openllm_metrics.Prelude.Int.{ℤ, ◌+ℤ◌, wrap}
use openllm_metrics.Cost.Drift.{
  Estimate, Bucket, Buckets, DriftRow, key_string, new_bucket, accumulate, join_bucket, read_bucket,
  record_estimate, same_period, upsert_drift,
}

-- The sum that is held for a key; 0 where there is no bucket.
unfoldable pub held : Text → Buckets → ℤ
held k bs = (read_bucket (get k bs)).estimated_minor

join_bucket_lem :
    (e : Estimate) (o : Option Bucket)
    → (join_bucket e o).estimated_minor ≡ wrap ((read_bucket o).estimated_minor +ℤ e.cost_minor)
unfolding join_bucket accumulate new_bucket read_bucket
join_bucket_lem e none = refl
join_bucket_lem e (some b) = refl

-- An estimate adds its cost to its key's sum, and to no other.
pub held-record_estimate :
    (format_unix : ℕ → Text) (k : Text) (e : Estimate) (bs : Buckets)
    → held k (record_estimate format_unix e bs)
      ≡ ite
          (Text-discrete k (key_string format_unix e.key))
          (wrap (held k bs +ℤ e.cost_minor))
          (held k bs)
unfolding held record_estimate read_bucket
held-record_estimate format_unix k e bs =
    let key = key_string format_unix e.key in
    let b = join_bucket e (get key bs) in
    let after : get k (put key b bs) ≡ ite (Text-discrete k key) (some b) (get k bs) =
      get-put k key b bs in
    let sum : b.estimated_minor
        ≡ wrap ((read_bucket (get key bs)).estimated_minor +ℤ e.cost_minor) =
      join_bucket_lem e (get key bs) in
    elim (Text-discrete k key) [
      | yes same ↦
          ap (λ o. (read_bucket o).estimated_minor)
            (after ∙ if_pos (Text-discrete k key) same (some b) (get k bs))
          ∙ sum
          ∙ ap (λ x. wrap ((read_bucket (get x bs)).estimated_minor +ℤ e.cost_minor)) (sym same)
          ∙ sym (if_pos (Text-discrete k key) same _ _)
      | no other ↦
          ap (λ o. (read_bucket o).estimated_minor)
            (after ∙ if_neg (Text-discrete k key) other (some b) (get k bs))
          ∙ sym (if_neg (Text-discrete k key) other _ _)
    ]

module _ {C : Type 0} where
  pub upsert_drift-mem :
      (new : DriftRow C) (rows : List (DriftRow C)) → Memᴰ new (upsert_drift new rows)
  unfolding upsert_drift
  upsert_drift-mem new [] = In.head refl
  upsert_drift-mem new (r ∷ rs) = elim (Bool-cases (same_period new r)) [
    | inl e ↦ rw e (In.head refl)
    | inr e ↦ rw e (In.tail (upsert_drift-mem new rs))
  ]
