-- ===== src/Metrics/Accepted/Events.antt =====
-- An event that LintEvent accepts, with its labels given as texts, is counted
-- (apps/api/metrics-endpoint/internal/aggregator/aggregator.go and projection.go).
use openllm_metrics.Prelude.{
  ◌≡◌, ◌⊎◌, inl, inr, refl, ap, sym, ◌∙◌, Bool, true, false, ◌&&◌, Option, none, some, List, [],
  ◌∷◌, ◌++◌, Text, Text-discrete, text, is_empty, arith, is_in, not,
}
use openllm_metrics.Audit.Json.{Value, null, bool, str, num, arr, obj, Fields, lookup}
use openllm_metrics.Contracts.{has_schema, topics, topic_usage_normalized, topic_runtime_normalized}
use openllm_metrics.Contracts.Lint.{
  Issue, check_forbidden_fields, check_mandatory_fields, check_request_id_hash, check_required,
  check_schema_version, is_absent, is_zero, lint_decoded, lint_event, ok, required_of,
  usage_normalized_required, runtime_normalized_required,
}
use openllm_metrics.Contracts.Lint.Observations.{ok-append}
use openllm_metrics.Metrics.{Floats}
use openllm_metrics.Metrics.Forbidden.{has_forbidden_field_lem}
use openllm_metrics.Metrics.Projection.{
  Contribution, get_str, project_usage, project_runtime, projections_for, str_of,
}
use openllm_metrics.Metrics.Aggregator.{State, all_linted, apply, commit, has_forbidden_field}
use openllm_metrics.Metrics.Verdict.{
  Event, apply-settle, decoded_or, linted_or, projected_or, settle, verdict,
}
use openllm_metrics.Metrics.Accepted.{IsNamed}
use openllm_metrics.Metrics.Accepted.Projected.{projected_linted}

unfoldable pub is_str : Option Value → Bool
is_str (some (str s)) = true
is_str v = false

-- The four mandatory labels are given as texts.
pub record HasTexts (event : Fields) : Type 0 where
  pub provider : is_str (lookup (text "provider") event) ≡ true
  pub model : is_str (lookup (text "model") event) ≡ true
  pub tenant : is_str (lookup (text "tenant") event) ≡ true
  pub env : is_str (lookup (text "env") event) ≡ true

required_there :
    (ks : List Text) (event : Fields) (k : Text)
    → ok (check_required ks event) ≡ true
    → is_in k ks ≡ true
    → is_absent (lookup k event) ≡ false
unfolding check_required is_in
required_there [] event k h i = cc
required_there (j ∷ ks) event k h i = ground (arith, required_there ks event k)

text_there :
    (v : Option Value) → is_absent v ≡ false → is_str v ≡ true → is_empty (str_of v) ≡ false
unfolding is_absent is_zero is_str str_of
text_there none h t = cc
text_there (some (str s)) h t = h
text_there (some null) h t = cc
text_there (some (bool b)) h t = cc
text_there (some (num n)) h t = cc
text_there (some (arr xs)) h t = cc
text_there (some (obj fs)) h t = cc

pub check_required-IsNamed :
    (ks : List Text) (event : Fields)
    → ok (check_required ks event) ≡ true
    → is_in (text "provider") ks ≡ true
    → is_in (text "model") ks ≡ true
    → is_in (text "tenant") ks ≡ true
    → is_in (text "env") ks ≡ true
    → HasTexts event
    → IsNamed event
unfolding get_str
check_required-IsNamed ks event h p m t e texts = record {
  provider = text_there _ (required_there ks event (text "provider") h p) texts.provider;
  model = text_there _ (required_there ks event (text "model") h m) texts.model;
  tenant = text_there _ (required_there ks event (text "tenant") h t) texts.tenant;
  env = text_there _ (required_there ks event (text "env") h e) texts.env;
}

-- A topic that the aggregator projects.
abbrev pub IsProjected : Text → Type 0
IsProjected topic = (topic ≡ topic_usage_normalized) ⊎ (topic ≡ topic_runtime_normalized)

required-IsNamed :
    (topic : Text) (event : Fields)
    → IsProjected topic
    → ok (check_mandatory_fields topic event) ≡ true
    → HasTexts event
    → IsNamed event
unfolding check_mandatory_fields required_of usage_normalized_required runtime_normalized_required
    is_in Text-discrete
required-IsNamed topic event (inl e) h t =
    check_required-IsNamed usage_normalized_required event
      (sym (ap (λ x. ok (check_mandatory_fields x event)) e) ∙ h) refl refl refl refl t
required-IsNamed topic event (inr e) h t =
    check_required-IsNamed runtime_normalized_required event
      (sym (ap (λ x. ok (check_mandatory_fields x event)) e) ∙ h) refl refl refl refl t

pub schema_there : (topic : Text) → IsProjected topic → has_schema topic ≡ true
unfolding has_schema topics is_in Text-discrete
schema_there topic (inl e) = ap has_schema e
schema_there topic (inr e) = ap has_schema e

and_first : (a b : Bool) → (a && b) ≡ true → (a ≡ true) × (b ≡ true)
and_first true true h = (refl, refl)
and_first true false h = cc
and_first false b h = cc

decoded_ok :
    (topic : Text) (event : Fields)
    → ok (lint_decoded topic (some event)) ≡ true
    → (ok (check_forbidden_fields event []) ≡ true)
      × (ok (check_mandatory_fields topic event) ≡ true)
unfolding lint_decoded
decoded_ok topic event h =
    let f : List Issue = check_forbidden_fields event [] in
    let m : List Issue = check_mandatory_fields topic event in
    let r : List Issue = check_schema_version event ++ check_request_id_hash event in
    let one = and_first (ok f) (ok (m ++ r)) (sym (ok-append f (m ++ r)) ∙ h) in
    (one.0, (and_first (ok m) (ok r) (sym (ok-append m r) ∙ one.1)).0)

projections_there :
    {C : Type 0} (floats : Floats C) (topic : Text) (event : Fields)
    → IsProjected topic
    → (cs : List (Contribution C)) × (projections_for floats topic event ≡ some cs)
unfolding projections_for Text-discrete
projections_there floats topic event (inl e) =
    (project_usage floats event, ap (λ x. projections_for floats x event) e)
projections_there floats topic event (inr e) =
    (project_runtime floats event, ap (λ x. projections_for floats x event) e)

pub lint_event-decoded :
    (unmarshal : Text → Option Fields) (topic payload : Text)
    → has_schema topic ≡ true
    → lint_event unmarshal topic payload ≡ lint_decoded topic (unmarshal payload)
unfolding lint_event
lint_event-decoded unmarshal topic payload h = rw h refl

verdict_accepted :
    {C : Type 0} (floats : Floats C) (unmarshal : Text → Option Fields) (e : Event) (event : Fields)
    (cs : List (Contribution C))
    → has_schema e.topic ≡ true
    → unmarshal e.payload ≡ some event
    → has_forbidden_field event ≡ false
    → ok (lint_event unmarshal e.topic e.payload) ≡ true
    → projections_for floats e.topic event ≡ some cs
    → all_linted cs ≡ true
    → verdict floats unmarshal e ≡ inr cs
unfolding verdict decoded_or projected_or linted_or
verdict_accepted floats unmarshal e event cs a b c d f g =
    rw (a, b, decoded_or, c, d, f, projected_or, g) refl

-- An event on the usage or the runtime topic, whose payload decodes, in which LintEvent finds no
-- issue, and whose provider, model, tenant and environment are texts, is never rejected: Apply adds
-- all that is projected from it to the counters and counts it as processed.
pub apply-accepts :
    {C : Type 0} (floats : Floats C) (unmarshal : Text → Option Fields) (topic payload : Text)
    (event : Fields) (s : State C)
    → IsProjected topic
    → unmarshal payload ≡ some event
    → ok (lint_event unmarshal topic payload) ≡ true
    → HasTexts event
    → (cs : List (Contribution C)) × (projections_for floats topic event ≡ some cs)
      × (apply floats unmarshal topic payload s ≡ commit floats cs s)
unfolding settle
apply-accepts floats unmarshal topic payload event s p d h t =
    let there = schema_there topic p in
    let e : Event = record { topic = topic; payload = payload } in
    let linted : ok (lint_decoded topic (some event)) ≡ true =
      ap (λ o. ok (lint_decoded topic o)) (sym d)
      ∙ ap ok (sym (lint_event-decoded unmarshal topic payload there))
      ∙ h in
    let (f, m) = decoded_ok topic event linted in
    let named = required-IsNamed topic event p m t in
    let (cs, shown) = projections_there floats topic event p in
    let clean : has_forbidden_field event ≡ false = has_forbidden_field_lem event [] ∙ ap not f in
    let fine = projected_linted event named floats topic cs shown in
    (
      cs,
      shown,
      apply-settle floats unmarshal e s
          ∙ ap (λ v. settle floats unmarshal v s)
              (verdict_accepted floats unmarshal e event cs there d clean h shown fine),
    )
