-- ===== src/Metrics/Accepted.antt =====
-- What the projections emit passes the linter of metrics, so an event that the linter of events
-- accepts is counted (apps/api/metrics-endpoint/internal/aggregator/projection.go and aggregator.go,
-- packages/telemetry/schema-lint/go/lint.go).
pub mod Registered
pub mod Projected
pub mod Events
use openllm_metrics.Prelude.{
  to_lower, lower_byte, inl, inr, Bool-cases, ◌≡◌, refl, ap, sym, ◌∙◌, Bool, true, false, ◌&&◌,
  Option, none, some, List, [], ◌∷◌, ◌++◌, Text, Text-discrete, text, is_empty, arith, ite,
  if◌then◌else◌, is_in, get, put, keys, get-put, is_in-keys-put,
}
use openllm_metrics.Audit.Json.{Fields}
use openllm_metrics.Contracts.{forbidden_fields, Metric, find_by_name, mandatory_labels}
use openllm_metrics.Contracts.Lint.{
  check_authorized, check_mandatory, check_banned, is_banned, is_missing, lint_metric, ok,
}
use openllm_metrics.Contracts.Lint.Observations.{
  Conforms, authorized_all, ok-lint_metric, ok_of_Conforms, lint_metric-Conforms,
}
use openllm_metrics.Metrics.Projection.{
  Labels, add_if_non_empty, base_labels, get_str, literal_labels,
}
use openllm_metrics.Metrics.Aggregator.{is_registered, lint_labels}

-- The event names its provider, model, tenant and environment.
pub record IsNamed (event : Fields) : Type 0 where
  pub provider : is_empty (get_str event (text "provider")) ≡ false
  pub model : is_empty (get_str event (text "model")) ≡ false
  pub tenant : is_empty (get_str event (text "tenant")) ≡ false
  pub env : is_empty (get_str event (text "env")) ≡ false

unfoldable pub all_in : List Text → List Text → Bool
all_in [] ls = true
all_in (k ∷ ks) ls = if is_in k ls then all_in ks ls else false

all_in-is_in :
    (ks ls : List Text) (k : Text) → all_in ks ls ≡ true → is_in k ks ≡ true → is_in k ls ≡ true
unfolding all_in is_in
all_in-is_in [] ls k h i = cc
all_in-is_in (j ∷ ks) ls k h i = ground (arith, all_in-is_in ks ls k)

abbrev pub base_keys : List Text
base_keys =
    text "provider"
    ∷ text "model"
    ∷ text "operation"
    ∷ text "tenant"
    ∷ text "team"
    ∷ text "env"
    ∷ text "app"
    ∷ text "project"
    ∷ text "region"
    ∷ []

literal_base :
    (k : Text)
    → is_in k (
        text "provider"
        ∷ text "model"
        ∷ text "operation"
        ∷ text "tenant"
        ∷ text "team"
        ∷ text "env"
        ∷ [])
      ≡ true
    → is_in k base_keys ≡ true
unfolding is_in
literal_base k i = ground arith

literal_mandatory :
    (name : Text) (event : Fields)
    → IsNamed event
    → ok (check_mandatory name mandatory_labels (literal_labels event)) ≡ true
unfolding check_mandatory mandatory_labels literal_labels is_missing get Text-discrete
literal_mandatory name event n = rw (n.provider, n.model, n.tenant, n.env) refl

literal_clean :
    (name : Text) (event : Fields) → ok (check_banned name (literal_labels event)) ≡ true
unfolding check_banned literal_labels is_banned is_in Text-discrete to_lower lower_byte
    forbidden_fields
literal_clean name event = refl

unfoldable pub allowed_by : Option Metric → List Text
allowed_by none = []
allowed_by (some m) = m.allowed_labels

literal-Conforms :
    (name : Text) (m : Metric) (event : Fields)
    → find_by_name name ≡ some m
    → all_in base_keys m.allowed_labels ≡ true
    → IsNamed event
    → Conforms name (literal_labels event)
unfolding literal_labels is_in Text-discrete
literal-Conforms name m event e a n = lint_metric-Conforms name (literal_labels event) (
    rw
      (
        ok-lint_metric name (literal_labels event) m e,
        authorized_all m (literal_labels event)
            (λ k i. all_in-is_in base_keys m.allowed_labels k a (literal_base k i)),
        literal_mandatory name event n,
        literal_clean name event,
      )
      refl)

put-Conforms :
    (name k v : Text) (ls : Labels)
    → Conforms name ls
    → is_in k (allowed_by (find_by_name name)) ≡ true
    → is_banned k ≡ false
    → is_empty v ≡ false
    → Conforms name (put k v ls)
unfolding allowed_by is_missing
put-Conforms name k v ls c a b v_there =
    let a' : is_in k c.metric.allowed_labels ≡ true =
      sym (ap (λ m. is_in k (allowed_by m)) c.found) ∙ a in
    record {
      metric = c.metric;
      found = c.found;
      allowed = λ j i. ground (arith, is_in-keys-put j k v ls, c.allowed j);
      mandatory = λ j i. ground (arith, get-put j k v ls, c.mandatory j i);
      clean = λ j i. ground (arith, is_in-keys-put j k v ls, c.clean j);
    }

-- A label that the metric allows may be added.
pub add-Conforms :
    (name k v : Text) (ls : Labels)
    → Conforms name ls
    → is_in k (allowed_by (find_by_name name)) ≡ true
    → is_banned k ≡ false
    → Conforms name (add_if_non_empty k v ls)
unfolding add_if_non_empty
add-Conforms name k v ls c a b = elim (Bool-cases (is_empty v)) [
  | inl e ↦ rw e c
  | inr e ↦ rw e (put-Conforms name k v ls c a b e)
]

-- Each metric that the projections name allows the labels that every event has.
pub base-Conforms :
    (name : Text) (m : Metric) (event : Fields)
    → find_by_name name ≡ some m
    → all_in base_keys m.allowed_labels ≡ true
    → IsNamed event
    → Conforms name (base_labels event)
unfolding base_labels allowed_by is_banned is_in to_lower lower_byte forbidden_fields Text-discrete
base-Conforms name m event e a n =
    let in_allowed : (k : Text)
        → is_in k base_keys ≡ true
        → is_in k (allowed_by (find_by_name name)) ≡ true =
      λ k i. ap (λ o. is_in k (allowed_by o)) e ∙ all_in-is_in base_keys m.allowed_labels k a i in
    add-Conforms name (text "region") (get_str event (text "region")) _
      (add-Conforms name (text "project") (get_str event (text "project")) _
        (add-Conforms name (text "app") (get_str event (text "app")) (literal_labels event)
          (literal-Conforms name m event e a n) (in_allowed (text "app") refl) refl)
        (in_allowed (text "project") refl) refl)
      (in_allowed (text "region") refl) refl

registered_of : (name : Text) (m : Metric) → find_by_name name ≡ some m → is_registered name ≡ true
unfolding is_registered
registered_of name m e = rw (e, is_registered) refl

pub lint_labels_of_Conforms :
    (name : Text) (ls : Labels) → Conforms name ls → lint_labels name ls ≡ true
unfolding lint_labels
lint_labels_of_Conforms name ls c =
    rw (registered_of name c.metric c.found, ok_of_Conforms name ls c) refl
