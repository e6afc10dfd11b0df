-- ===== src/Contracts/Lint/Observations.antt =====
-- Which metric observations LintMetric accepts (packages/telemetry/schema-lint/go/lint.go).
use openllm_metrics.Prelude.{
  ◌≡◌, ◌↔◌, refl, ap, sym, ◌∙◌, Bool, true, false, ◌&&◌, none, some, List, [], ◌∷◌, ◌++◌, Text, inl,
  inr, Option-cases, arith, is_in, get, keys,
}
use openllm_metrics.Contracts.{Metric, find_by_name, mandatory_labels}
use openllm_metrics.Contracts.Lint.{
  Issue, check_authorized, check_banned, check_mandatory, is_banned, is_missing, lint_known,
  lint_metric, ok,
}

-- A registered metric, with labels that it allows, none of them banned, and with every mandatory
-- label there and not empty.
pub record Conforms (name : Text) (labels : List (Text × Text)) : Type 0 where
  pub metric : Metric
  pub found : find_by_name name ≡ some metric
  pub allowed : (k : Text) → is_in k (keys labels) ≡ true → is_in k metric.allowed_labels ≡ true
  pub mandatory : (k : Text) → is_in k mandatory_labels ≡ true → is_missing (get k labels) ≡ false
  pub clean : (k : Text) → is_in k (keys labels) ≡ true → is_banned k ≡ false

pub ok-append : (a b : List Issue) → ok (a ++ b) ≡ (ok a && ok b)
ok-append [] b = refl
ok-append (i ∷ a) b = refl

ok-check_authorized :
    (m : Metric) (ls : List (Text × Text)) (k : Text)
    → ok (check_authorized m ls) ≡ true
    → is_in k (keys ls) ≡ true
    → is_in k m.allowed_labels ≡ true
unfolding check_authorized is_in
ok-check_authorized m [] k h i = cc
ok-check_authorized m ((j, v) ∷ ls) k h i = ground (arith, ok-check_authorized m ls k)

pub authorized_all :
    (m : Metric) (ls : List (Text × Text))
    → ((k : Text) → is_in k (keys ls) ≡ true → is_in k m.allowed_labels ≡ true)
    → ok (check_authorized m ls) ≡ true
unfolding check_authorized is_in
authorized_all m [] h = refl
authorized_all m ((j, v) ∷ ls) h =
    let rest = authorized_all m ls (λ k i. h k (ground arith)) in rw (h j (ground arith)) rest

ok-check_mandatory :
    (name : Text) (ks : List Text) (ls : List (Text × Text)) (k : Text)
    → ok (check_mandatory name ks ls) ≡ true
    → is_in k ks ≡ true
    → is_missing (get k ls) ≡ false
unfolding check_mandatory is_in
ok-check_mandatory name [] ls k h i = cc
ok-check_mandatory name (j ∷ ks) ls k h i = ground (arith, ok-check_mandatory name ks ls k)

mandatory_all :
    (name : Text) (ks : List Text) (ls : List (Text × Text))
    → ((k : Text) → is_in k ks ≡ true → is_missing (get k ls) ≡ false)
    → ok (check_mandatory name ks ls) ≡ true
unfolding check_mandatory is_in
mandatory_all name [] ls h = refl
mandatory_all name (j ∷ ks) ls h =
    let rest = mandatory_all name ks ls (λ k i. h k (ground arith)) in rw (h j (ground arith)) rest

ok-check_banned :
    (name : Text) (ls : List (Text × Text)) (k : Text)
    → ok (check_banned name ls) ≡ true
    → is_in k (keys ls) ≡ true
    → is_banned k ≡ false
unfolding check_banned is_in
ok-check_banned name [] k h i = cc
ok-check_banned name ((j, v) ∷ ls) k h i = ground (arith, ok-check_banned name ls k)

banned_none :
    (name : Text) (ls : List (Text × Text))
    → ((k : Text) → is_in k (keys ls) ≡ true → is_banned k ≡ false)
    → ok (check_banned name ls) ≡ true
unfolding check_banned is_in
banned_none name [] h = refl
banned_none name ((j, v) ∷ ls) h =
    let rest = banned_none name ls (λ k i. h k (ground arith)) in rw (h j (ground arith)) rest

and_parts : (a b c : Bool) → (a && (b && c)) ≡ true → (a ≡ true) × (b ≡ true) × (c ≡ true)
and_parts true true true h = (refl, refl, refl)
and_parts true true false h = cc
and_parts true false c h = cc
and_parts false b c h = cc

pub ok-lint_metric :
    (name : Text) (labels : List (Text × Text)) (m : Metric)
    → find_by_name name ≡ some m
    → ok (lint_metric name labels) ≡ (
        ok (check_authorized m labels)
        && (ok (check_mandatory name mandatory_labels labels) && ok (check_banned name labels)))
unfolding lint_metric lint_known
ok-lint_metric name labels m e = rw e (
    ok-append (check_authorized m labels)
      (check_mandatory name mandatory_labels labels ++ check_banned name labels)
    ∙ ap (λ b. ok (check_authorized m labels) && b)
        (ok-append (check_mandatory name mandatory_labels labels) (check_banned name labels)))

lint_unknown :
    (name : Text) (labels : List (Text × Text))
    → find_by_name name ≡ none
    → ok (lint_metric name labels) ≡ false
unfolding lint_metric lint_known
lint_unknown name labels e = rw e refl

pub lint_metric-Conforms :
    (name : Text) (labels : List (Text × Text))
    → ok (lint_metric name labels) ≡ true
    → Conforms name labels
lint_metric-Conforms name labels h = elim (Option-cases (find_by_name name)) [
  | inl e ↦ absurd (ground (arith, lint_unknown name labels e))
  | inr (m, e) ↦
      let (a, b, c) =
        and_parts (ok (check_authorized m labels))
          (ok (check_mandatory name mandatory_labels labels)) (ok (check_banned name labels))
          (sym (ok-lint_metric name labels m e) ∙ h) in
      record {
        metric = m;
        found = e;
        allowed = λ k. ok-check_authorized m labels k a;
        mandatory = λ k. ok-check_mandatory name mandatory_labels labels k b;
        clean = λ k. ok-check_banned name labels k c;
      }
]

pub ok_of_Conforms :
    (name : Text) (labels : List (Text × Text))
    → Conforms name labels
    → ok (lint_metric name labels) ≡ true
ok_of_Conforms name labels c =
    rw
      (
        ok-lint_metric name labels c.metric c.found,
        authorized_all c.metric labels c.allowed,
        mandatory_all name mandatory_labels labels c.mandatory,
        banned_none name labels c.clean,
      )
      refl

-- LintMetric finds no issue exactly when the metric is registered, each label is one that the metric
-- allows and none is a forbidden payload key, and each mandatory label is there and not empty.
pub lint_metric_iff :
    (name : Text) (labels : List (Text × Text))
    → (ok (lint_metric name labels) ≡ true) ↔ Conforms name labels
lint_metric_iff name labels = (lint_metric-Conforms name labels, ok_of_Conforms name labels)
