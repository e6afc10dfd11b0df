-- ===== src/Contracts/Lint.antt =====
-- The linter of events and metric observations, packages/telemetry/schema-lint/go/lint.go. An issue
-- keeps its code and its path, not the text of its message; a Go map is walked in the order of the
-- list that models it. Decoding JSON is the parameter `unmarshal`.
pub mod Observations
use openllm_metrics.Prelude.{
  ℕ, zero, suc, ◌+◌, ◌/◌, ◌%◌, Bool, true, false, ◌&&◌, ◌||◌, Option, none, some, List, [], ◌∷◌,
  ◌++◌, Text, Text-discrete, text, to_lower, is_empty, length, ltb, leb, ◌==◌, ite, if◌then◌else◌,
  is_in, get,
}
use openllm_metrics.Audit.Json.{
  Value, null, bool, str, num, arr, obj, Items, nil, cons, Fields, end, field, lookup,
}
use openllm_metrics.Contracts.{
  Metric, find_by_name, forbidden_fields, has_schema, label_tenant, mandatory_labels,
  schema_version, topic_runtime_normalized, topic_usage_normalized,
}

pub data Code : Type 0 where
  unknown_topic : Code
  missing_tenant : Code
  missing_field : Code
  forbidden_field : Code
  unauthorized_label : Code
  unknown_metric : Code
  bad_type : Code
  missing_hashed_id : Code
  schema_version_drift : Code

pub record Issue : Type 0 where
  pub code : Code
  pub path : Text

abbrev pub issue : Code → Text → Issue
issue c p = record { code = c; path = p }

-- Result.OK
abbrev pub ok : List Issue → Bool
ok issues = is_empty issues

unfoldable pub is_banned : Text → Bool
is_banned k = is_in (to_lower k) forbidden_fields

-- name{label}
abbrev label_path : Text → Text → Text
label_path name k = name ++ (b'{' ∷ (k ++ (b'}' ∷ [])))

unfoldable pub check_authorized : Metric → List (Text × Text) → List Issue
check_authorized m [] = []
check_authorized m ((k, v) ∷ ls) =
    if is_in k m.allowed_labels
    then check_authorized m ls
    else issue unauthorized_label (label_path m.name k) ∷ check_authorized m ls

-- v, ok := labels[ml]; !ok || v == ""
unfoldable pub is_missing : Option Text → Bool
is_missing none = true
is_missing (some v) = is_empty v

unfoldable pub missing_code : Text → Text → Code
missing_code tenant k = ite (Text-discrete k tenant) missing_tenant missing_field

unfoldable pub check_mandatory : Text → List Text → List (Text × Text) → List Issue
check_mandatory name [] labels = []
check_mandatory name (k ∷ ks) labels =
    if is_missing (get k labels)
    then issue (missing_code label_tenant k) (label_path name k) ∷ check_mandatory name ks labels
    else check_mandatory name ks labels

unfoldable pub check_banned : Text → List (Text × Text) → List Issue
check_banned name [] = []
check_banned name ((k, v) ∷ ls) =
    if is_banned k
    then issue forbidden_field (label_path name k) ∷ check_banned name ls
    else check_banned name ls

unfoldable pub lint_known : Option Metric → Text → List (Text × Text) → List Issue
lint_known none name labels = issue unknown_metric name ∷ []
lint_known (some m) name labels =
    check_authorized m labels
    ++ (check_mandatory name mandatory_labels labels ++ check_banned name labels)

-- LintMetric
unfoldable pub lint_metric : Text → List (Text × Text) → List Issue
unfolding lint_known
lint_metric name labels = lint_known (find_by_name name) name labels

unfoldable pub usage_normalized_required : List Text
usage_normalized_required =
    text "schema_version"
    ∷ text "event_id"
    ∷ text "source_event_id"
    ∷ text "source_mode"
    ∷ text "source_service"
    ∷ text "provider"
    ∷ text "model"
    ∷ text "operation"
    ∷ text "tenant"
    ∷ text "team"
    ∷ text "env"
    ∷ text "input_tokens"
    ∷ text "output_tokens"
    ∷ text "total_tokens"
    ∷ text "cost_usd_minor_units"
    ∷ text "period_start"
    ∷ text "period_end"
    ∷ text "normalized_at"
    ∷ []

unfoldable pub runtime_normalized_required : List Text
runtime_normalized_required =
    text "schema_version"
    ∷ text "event_id"
    ∷ text "source_mode"
    ∷ text "source_service"
    ∷ text "request_id_hash"
    ∷ text "provider"
    ∷ text "model"
    ∷ text "operation"
    ∷ text "tenant"
    ∷ text "team"
    ∷ text "env"
    ∷ text "status"
    ∷ text "latency_us"
    ∷ text "recorded_at"
    ∷ []

unfoldable pub is_zero : Value → Bool
is_zero null = true
is_zero (bool b) = false
is_zero (str s) = is_empty s
is_zero (num n) = false
is_zero (arr nil) = true
is_zero (arr (cons v vs)) = false
is_zero (obj end) = true
is_zero (obj (field k v fs)) = false

-- !present || isZero(v)
unfoldable pub is_absent : Option Value → Bool
is_absent none = true
is_absent (some v) = is_zero v

unfoldable pub check_required : List Text → Fields → List Issue
check_required [] event = []
check_required (k ∷ ks) event =
    if is_absent (lookup k event)
    then issue (missing_code (text "tenant") k) k ∷ check_required ks event
    else check_required ks event

unfoldable pub required_of : Text → List Text
required_of topic =
    ite (Text-discrete topic topic_usage_normalized) usage_normalized_required
      (ite (Text-discrete topic topic_runtime_normalized) runtime_normalized_required [])

unfoldable pub check_mandatory_fields : Text → Fields → List Issue
check_mandatory_fields topic event = check_required (required_of topic) event

unfoldable pub join_path : Text → Text → Text
join_path base key = if is_empty base then key else base ++ (b'.' ∷ key)

-- %d: the digits of n before acc, the first argument being fuel, of which n + 1 is enough
unfoldable pub digits : ℕ → ℕ → Text → Text
digits zero n acc = acc
digits (suc f) n acc =
    let rest = digits f (n / 10) ((b'0' + n % 10) ∷ acc) in
    if ltb n 10 then (b'0' + n) ∷ acc else rest

-- path[i]
unfoldable pub item_path : Text → ℕ → Text
unfolding digits
item_path path i = path ++ (b'[' ∷ digits (suc i) i (b']' ∷ []))

unfoldable mutual
  pub check_forbidden_value : Value → Text → List Issue
  check_forbidden_value null path = []
  check_forbidden_value (bool b) path = []
  check_forbidden_value (str s) path = []
  check_forbidden_value (num n) path = []
  check_forbidden_value (arr xs) path = check_forbidden_items xs 0 path
  check_forbidden_value (obj fs) path = check_forbidden_fields fs path

  pub check_forbidden_items : Items → ℕ → Text → List Issue
  check_forbidden_items nil i path = []
  check_forbidden_items (cons v xs) i path =
      check_forbidden_value v (item_path path i) ++ check_forbidden_items xs (suc i) path

  pub check_forbidden_fields : Fields → Text → List Issue
  check_forbidden_fields end path = []
  check_forbidden_fields (field k v fs) path =
      (if is_banned k then issue forbidden_field (join_path path k) ∷ [] else [])
      ++ (check_forbidden_value v (join_path path k) ++ check_forbidden_fields fs path)

unfoldable pub version_issues : Option Value → List Issue
version_issues none = []
version_issues (some (str s)) =
    ite (Text-discrete s schema_version) []
      (issue schema_version_drift (text "schema_version") ∷ [])
version_issues (some v) = issue bad_type (text "schema_version") ∷ []

unfoldable pub check_schema_version : Fields → List Issue
unfolding version_issues
check_schema_version event = version_issues (lookup (text "schema_version") event)

unfoldable pub is_lower_hex : Text → Bool
is_lower_hex [] = true
is_lower_hex (c ∷ s) =
    if leb b'0' c && leb c b'9' || leb b'a' c && leb c b'f' then is_lower_hex s else false

unfoldable pub is_hex64 : Text → Bool
is_hex64 s = if length s == 64 then is_lower_hex s else false

unfoldable pub hash_issues : Option Value → List Issue
hash_issues none = []
hash_issues (some (str s)) =
    if is_hex64 s then [] else issue missing_hashed_id (text "request_id_hash") ∷ []
hash_issues (some v) = issue bad_type (text "request_id_hash") ∷ []

unfoldable pub check_request_id_hash : Fields → List Issue
unfolding hash_issues
check_request_id_hash event = hash_issues (lookup (text "request_id_hash") event)

unfoldable pub lint_decoded : Text → Option Fields → List Issue
lint_decoded topic none = issue bad_type (text "$") ∷ []
lint_decoded topic (some event) =
    check_forbidden_fields event []
    ++ (check_mandatory_fields topic event
        ++ (check_schema_version event ++ check_request_id_hash event))

-- LintEvent
unfoldable pub lint_event : (Text → Option Fields) → Text → Text → List Issue
unfolding lint_decoded
lint_event unmarshal topic payload =
    if has_schema topic
    then lint_decoded topic (unmarshal payload)
    else issue unknown_topic (text "topic") ∷ []
