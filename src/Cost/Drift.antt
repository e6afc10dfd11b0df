-- ===== src/Cost/Drift.antt =====
-- The cost mapper's reconciler and its table: apps/worker/cost-mapper/internal/reconciler/reconciler.go
-- and UpsertDrift of internal/store/store.go. Times are nanoseconds since Go's zero time and
-- `format_unix` prints one's Unix seconds; a map of pointers to buckets is a map of buckets, since a
-- bucket is reached through the map only.
pub mod Totals
use openllm_metrics.Prelude.{
  ℕ, Bool, true, false, ◌&&◌, Option, none, some, List, [], ◌∷◌, ◌++◌, Text, Text-discrete, text,
  is_empty, ite, if◌then◌else◌, ◌==◌, get, put,
}
use openllm_metrics.Prelude.Int.{ℤ, pos, ltb_ℤ, ◌+ℤ◌, ◌-ℤ◌, wrap}
use openllm_metrics.Cost.{Floats, canonical}

pub record CorrelationKey : Type 0 where
  pub tenant_id : Text
  pub provider : Text
  pub model : Text
  pub period_start : ℕ
  pub period_end : ℕ

pub record Labels : Type 0 where
  pub team : Text
  pub app : Text
  pub env : Text
  pub project : Text

pub record Estimate : Type 0 where
  pub key : CorrelationKey
  pub labels : Labels
  pub cost_minor : ℤ
  pub catalog_version : Text

pub record Reconciled : Type 0 where
  pub key : CorrelationKey
  pub cost_minor : ℤ

pub record Bucket : Type 0 where
  pub labels : Labels
  pub estimated_minor : ℤ
  pub catalog_version : Text

pub record DriftRow (C : Type 0) : Type 0 where
  pub tenant_id : Text
  pub labels : Labels
  pub provider : Text
  pub model : Text
  pub period_start : ℕ
  pub period_end : ℕ
  pub estimated_minor : ℤ
  pub reconciled_minor : ℤ
  pub drift_minor : ℤ
  pub drift_ratio : C
  pub catalog_version : Text
  pub correlation_key : Text

abbrev pub Buckets : Type 0
Buckets = List (Text × Bucket)

unfoldable pub key_string : (ℕ → Text) → CorrelationKey → Text
key_string format_unix k =
    k.tenant_id
    ++ text ":"
    ++ canonical k.provider
    ++ text ":"
    ++ canonical k.model
    ++ text ":"
    ++ format_unix k.period_start
    ++ text ":"
    ++ format_unix k.period_end

-- The bucket of an estimate that is the first of its key.
unfoldable pub new_bucket : Estimate → Bucket
new_bucket e = record {
  labels = e.labels;
  estimated_minor = pos 0;
  catalog_version = e.catalog_version;
}

unfoldable pub accumulate : Estimate → Bucket → Bucket
accumulate e b = record {
  labels = b.labels;
  estimated_minor = wrap (b.estimated_minor +ℤ e.cost_minor);
  catalog_version = if is_empty e.catalog_version then b.catalog_version else e.catalog_version;
}

-- An estimate joins what there is of its key.
unfoldable pub join_bucket : Estimate → Option Bucket → Bucket
join_bucket e none = accumulate e (new_bucket e)
join_bucket e (some b) = accumulate e b

unfoldable pub record_estimate : (ℕ → Text) → Estimate → Buckets → Buckets
record_estimate format_unix e bs =
    let key = key_string format_unix e.key in put key (join_bucket e (get key bs)) bs

unfoldable pub non_negative : ℤ → ℤ
non_negative v = if ltb_ℤ v (pos 0) then pos 0 else v

-- What ApplyReconciled reads where there is no bucket.
unfoldable pub read_bucket : Option Bucket → Bucket
read_bucket (some b) = b
read_bucket none = record {
  labels = record { team = []; app = []; env = []; project = [] };
  estimated_minor = pos 0;
  catalog_version = [];
}

module _ {C : Type 0} where
  -- The columns of the UNIQUE constraint.
  unfoldable pub same_period : DriftRow C → DriftRow C → Bool
  same_period r s =
      ite (Text-discrete r.tenant_id s.tenant_id) true false
      && ite (Text-discrete r.provider s.provider) true false
      && ite (Text-discrete r.model s.model) true false
      && r.period_start == s.period_start
      && r.period_end == s.period_end

  unfoldable pub upsert_drift : DriftRow C → List (DriftRow C) → List (DriftRow C)
  upsert_drift new [] = new ∷ []
  upsert_drift new (r ∷ rs) =
      let rest = upsert_drift new rs in if same_period new r then new ∷ rs else r ∷ rest

  module _ (floats : Floats C) (format_unix : ℕ → Text) where
    unfoldable pub drift_row : Reconciled → Bucket → DriftRow C
    drift_row rec b =
        let drift = wrap (rec.cost_minor -ℤ b.estimated_minor) in
        let den = if ltb_ℤ rec.cost_minor (pos 1) then pos 1 else rec.cost_minor in
        record {
          tenant_id = rec.key.tenant_id;
          labels = b.labels;
          provider = canonical rec.key.provider;
          model = canonical rec.key.model;
          period_start = rec.key.period_start;
          period_end = rec.key.period_end;
          estimated_minor = non_negative b.estimated_minor;
          reconciled_minor = non_negative rec.cost_minor;
          drift_minor = drift;
          drift_ratio = floats.div (floats.of_int64 drift) (floats.of_int64 den);
          catalog_version = b.catalog_version;
          correlation_key = key_string format_unix rec.key;
        }

    -- The table after ApplyReconciled; `fails` where the database refuses, which is returned.
    unfoldable pub apply_reconciled :
        Bool → Reconciled → Buckets → List (DriftRow C) → List (DriftRow C)
    apply_reconciled fails rec bs rows =
        let row = drift_row rec (read_bucket (get (key_string format_unix rec.key) bs)) in
        if fails then rows else upsert_drift row rows
