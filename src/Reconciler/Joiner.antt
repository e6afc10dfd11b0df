-- ===== src/Reconciler/Joiner.antt =====
-- The joiner, apps/worker/reconciler/internal/joiner/joiner.go. float64 is a type `C` with the
-- operations of the record `Floats`, of which no law is used; printing a time is `format_unix`.
pub mod Totals
use openllm_metrics.Prelude.{
  ℕ, ◌+◌, ◌-◌, ◌%◌, Bool, true, false, Option, none, some, List, [], ◌∷◌, ◌++◌, Text, Text-discrete,
  text, is_empty, trim_space, to_lower, ite, if◌then◌else◌,
}
use openllm_metrics.Prelude.Int.{ℤ, pos, pos_part, ltb_ℤ}
use openllm_metrics.Reconciler.Store.{Row, Table, status_open, upsert_result}

pub record Floats (C : Type 0) : Type 0 where
  pub zero_usd : C
  pub min_denominator : C
  pub add : C → C → C
  pub sub : C → C → C
  pub div : C → C → C
  pub less : C → C → Bool

pub record WindowKey : Type 0 where
  pub tenant_id : Text
  pub provider : Text
  pub model : Text
  pub window_start : ℕ
  pub window_end : ℕ

pub record Labels : Type 0 where
  pub team : Text
  pub app : Text
  pub env : Text
  pub project : Text

-- The flags estimateSeen and reconciledSeen are written and never read.
pub record Bucket (C : Type 0) : Type 0 where
  pub labels : Labels
  pub estimated : C
  pub reconciled : C
  pub estimate_seen : Bool
  pub reconciled_seen : Bool

pub record Entry (C : Type 0) : Type 0 where
  pub key : Text
  pub bucket : Bucket C

unfoldable pub canonical : Text → Text
canonical s = to_lower (trim_space s)

abbrev no_labels : Labels
no_labels = record { team = []; app = []; env = []; project = [] }

adopt : Text → Text → Text
adopt mine theirs = if is_empty mine then theirs else mine

-- A label is adopted where the bucket has none.
unfoldable pub adopt_labels : Labels → Labels → Labels
unfolding adopt
adopt_labels mine theirs = record {
  team = adopt mine.team theirs.team;
  app = adopt mine.app theirs.app;
  env = adopt mine.env theirs.env;
  project = adopt mine.project theirs.project;
}

-- One hour where none is configured.
unfoldable pub new_window_size : ℤ → ℕ
new_window_size size = if ltb_ℤ (pos 0) size then pos_part size else 3600000000000

-- The start and end of a time's window.
unfoldable pub window_of : ℕ → ℕ → ℕ × ℕ
window_of size t = (t - t % size, t - t % size + size)

module _ {C : Type 0} where
  unfoldable pub lookup : Text → List (Entry C) → Option (Bucket C)
  lookup k [] = none
  lookup k (e ∷ es) = let rest = lookup k es in ite (Text-discrete e.key k) (some e.bucket) rest

  unfoldable pub remove : Text → List (Entry C) → List (Entry C)
  remove k [] = []
  remove k (e ∷ es) = let rest = remove k es in ite (Text-discrete e.key k) rest (e ∷ rest)

  unfoldable pub store_bucket : Text → Bucket C → List (Entry C) → List (Entry C)
  store_bucket k b es = record { key = k; bucket = b } ∷ remove k es

module _ (format_unix : ℕ → Text) where
  unfoldable pub key_string : WindowKey → Text
  key_string k =
      k.tenant_id
      ++ text ":"
      ++ canonical k.provider
      ++ text ":"
      ++ canonical k.model
      ++ text ":"
      ++ format_unix k.window_start
      ++ text "-"
      ++ format_unix k.window_end

  module _ {C : Type 0} (f : Floats C) where
    unfoldable pub bucket_locked : WindowKey → List (Entry C) → Bucket C
    bucket_locked key es = elim (lookup (key_string key) es) [
      | some b ↦ b
      | none ↦ record {
        labels = no_labels;
        estimated = f.zero_usd;
        reconciled = f.zero_usd;
        estimate_seen = false;
        reconciled_seen = false;
      }
    ]

    unfoldable pub snapshot : WindowKey → Bucket C → Row C
    snapshot key b =
        let drift = f.sub b.reconciled b.estimated in
        let denom =
          if f.less b.estimated f.min_denominator then f.min_denominator else b.estimated in
        record {
          id = 0;
          tenant_id = key.tenant_id;
          team = b.labels.team;
          app = b.labels.app;
          env = b.labels.env;
          project = b.labels.project;
          provider = canonical key.provider;
          model = canonical key.model;
          window_start = key.window_start;
          window_end = key.window_end;
          estimated_cost_usd = b.estimated;
          reconciled_cost_usd = b.reconciled;
          drift_usd = drift;
          drift_ratio = f.div drift denom;
          status = status_open;
        }

    unfoldable pub with_estimate : Labels → C → Bucket C → Bucket C
    with_estimate labels cost b = record b {
      estimate_seen = true;
      estimated = f.add b.estimated cost;
      labels = adopt_labels b.labels labels;
    }

    unfoldable pub with_reconciled : Labels → C → Bucket C → Bucket C
    with_reconciled labels cost b = record b {
      reconciled_seen = true;
      reconciled = f.add b.reconciled cost;
      labels = adopt_labels b.labels labels;
    }

    -- Keeps the bucket and writes its row; `fails` where the database refuses, which is returned.
    unfoldable pub keep :
        Bool → WindowKey → Bucket C → List (Entry C) × Table C → List (Entry C) × Table C
    keep fails key b (es, t) =
        (store_bucket (key_string key) b es, if fails then t else upsert_result (snapshot key b) t)

    unfoldable pub record_estimate :
        Bool → WindowKey → Labels → C → List (Entry C) × Table C → List (Entry C) × Table C
    record_estimate fails key labels cost s =
        keep fails key (with_estimate labels cost (bucket_locked key s.0)) s

    unfoldable pub record_reconciled :
        Bool → WindowKey → Labels → C → List (Entry C) × Table C → List (Entry C) × Table C
    record_reconciled fails key labels cost s =
        keep fails key (with_reconciled labels cost (bucket_locked key s.0)) s

    unfoldable pub forget : WindowKey → List (Entry C) → List (Entry C)
    forget key es = remove (key_string key) es
