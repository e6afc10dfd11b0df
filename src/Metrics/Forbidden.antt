-- ===== src/Metrics/Forbidden.antt =====
-- The walk of LintEvent for forbidden payload keys (packages/telemetry/schema-lint/go/lint.go) and
-- that of the aggregator (apps/api/metrics-endpoint/internal/aggregator/aggregator.go) find the same.
use openllm_metrics.Prelude.{
  Option, some, true, false, ◌≡◌, refl, ap, sym, ◌∙◌, Bool, ◌&&◌, not, ◌||◌, ℕ, suc, List, [], ◌∷◌,
  ◌++◌, Text, arith, is_in, to_lower, if◌then◌else◌,
}
use openllm_metrics.Audit.Json.{
  Value, null, bool, str, num, arr, obj, Items, nil, cons, Fields, end, field,
}
use openllm_metrics.Contracts.{forbidden_fields, has_schema}
use openllm_metrics.Contracts.Lint.{
  Issue, check_forbidden_fields, check_forbidden_items, check_forbidden_value, is_banned, item_path,
  join_path, ok, issue, forbidden_field,
}
use openllm_metrics.Contracts.Lint.Observations.{ok-append}
use openllm_metrics.Metrics.{Floats}
use openllm_metrics.Metrics.Aggregator.{
  State, apply, apply_decoded, bump_reject, forbidden, has_forbidden_field, has_forbidden_items,
  has_forbidden_value,
}

not_or : (a b c d : Bool) → a ≡ not c → b ≡ not d → (a || b) ≡ not (c && d)
not_or a b c d h k = ground arith

key_issues :
    (k path : Text)
    → is_in (to_lower k) forbidden_fields
      ≡ not (ok (if is_banned k then issue forbidden_field (join_path path k) ∷ [] else []))
unfolding is_banned
key_issues k path = ground arith

mutual
  unfolding has_forbidden_value has_forbidden_items has_forbidden_field check_forbidden_value
      check_forbidden_items check_forbidden_fields

  value_issues :
      (v : Value) (path : Text) → has_forbidden_value v ≡ not (ok (check_forbidden_value v path))
  value_issues null path = refl
  value_issues (bool b) path = refl
  value_issues (str s) path = refl
  value_issues (num n) path = refl
  value_issues (arr xs) path = items_issues xs 0 path
  value_issues (obj fs) path = has_forbidden_field_lem fs path

  items_issues :
      (xs : Items) (i : ℕ) (path : Text)
      → has_forbidden_items xs ≡ not (ok (check_forbidden_items xs i path))
  items_issues nil i path = refl
  items_issues (cons v xs) i path =
      rw
        (ok-append (check_forbidden_value v (item_path path i))
          (check_forbidden_items xs (suc i) path))
        (not_or (has_forbidden_value v) (has_forbidden_items xs)
          (ok (check_forbidden_value v (item_path path i)))
          (ok (check_forbidden_items xs (suc i) path)) (value_issues v (item_path path i))
          (items_issues xs (suc i) path))

  -- The aggregator's own walk finds a forbidden key exactly when that of the linter, from whatever
  -- path, reports an issue.
  pub has_forbidden_field_lem :
      (fs : Fields) (path : Text)
      → has_forbidden_field fs ≡ not (ok (check_forbidden_fields fs path))
  has_forbidden_field_lem end path = refl
  has_forbidden_field_lem (field k v fs) path =
      let inner : List Issue = check_forbidden_value v (join_path path k) in
      let later : List Issue = check_forbidden_fields fs path in
      let key : List Issue =
        if is_banned k then issue forbidden_field (join_path path k) ∷ [] else [] in
      not_or (is_in (to_lower k) forbidden_fields) (has_forbidden_value v || has_forbidden_field fs)
        (ok key) (ok inner && ok later) (key_issues k path)
        (not_or (has_forbidden_value v) (has_forbidden_field fs) (ok inner) (ok later)
          (value_issues v (join_path path k)) (has_forbidden_field_lem fs path))
      ∙ ap not (
          ap (λ b. ok key && b) (sym (ok-append inner later))
          ∙ sym (ok-append key (inner ++ later)))

-- On a topic of the contracts, an event in which the linter's walk, from whatever path, finds a
-- forbidden key at any depth is rejected for that reason, whatever else is wrong with it, and adds
-- nothing to any counter.
pub apply-forbidden :
    {C : Type 0} (floats : Floats C) (unmarshal : Text → Option Fields) (topic payload path : Text)
    (event : Fields) (s : State C)
    → has_schema topic ≡ true
    → unmarshal payload ≡ some event
    → ok (check_forbidden_fields event path) ≡ false
    → apply floats unmarshal topic payload s ≡ bump_reject forbidden s
unfolding apply apply_decoded
apply-forbidden floats unmarshal topic payload path event s h d f =
    rw (h, d, apply_decoded, has_forbidden_field_lem event path, f) refl
