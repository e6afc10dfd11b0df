-- ===== src/Audit/Redact.antt =====
-- redactMap, containsForbidden and isForbiddenKey of
-- apps/api/audit-service/internal/consumer/consumer.go.
pub mod Clean
use openllm_metrics.Prelude.{
  Bool, true, false, ◌||◌, Option, none, some, List, [], ◌∷◌, Text, Text-discrete, text, to_lower,
  ite,
}
use openllm_metrics.Audit.Json.{
  Value, null, bool, str, num, arr, obj, Items, nil, cons, Fields, end, field, Map,
}

forbidden_keys : List Text
forbidden_keys =
    text "authorization"
    ∷ text "api_key"
    ∷ text "apikey"
    ∷ text "password"
    ∷ text "passwd"
    ∷ text "secret"
    ∷ text "token"
    ∷ text "bearer"
    ∷ text "client_secret"
    ∷ text "prompt"
    ∷ text "completion"
    ∷ []

one_of : Text → List Text → Bool
one_of k [] = false
one_of k (f ∷ fs) = ite (Text-discrete k f) true (one_of k fs)

unfoldable pub is_forbidden_key : Text → Bool
unfolding one_of forbidden_keys
is_forbidden_key k = one_of (to_lower k) forbidden_keys

unfoldable mutual
  pub redact_value : Value → Value
  redact_value null = null
  redact_value (bool b) = bool b
  redact_value (str s) = str s
  redact_value (num n) = num n
  redact_value (arr xs) = arr (redact_items xs)
  redact_value (obj fs) = obj (redact_fields fs)

  pub redact_items : Items → Items
  redact_items nil = nil
  redact_items (cons v xs) = cons (redact_value v) (redact_items xs)

  pub redact_fields : Fields → Fields
  redact_fields end = end
  redact_fields (field k v fs) = elim (is_forbidden_key k) [
    | true ↦ redact_fields fs
    | false ↦ field k (redact_value v) (redact_fields fs)
  ]

unfoldable pub redact_map : Map → Map
redact_map none = none
redact_map (some fs) = some (redact_fields fs)

-- A list is searched for maps, and a list inside a list is not.
unfoldable mutual
  pub contains_forbidden_value : Value → Bool
  contains_forbidden_value null = false
  contains_forbidden_value (bool b) = false
  contains_forbidden_value (str s) = false
  contains_forbidden_value (num n) = false
  contains_forbidden_value (arr xs) = contains_forbidden_items xs
  contains_forbidden_value (obj fs) = contains_forbidden_fields fs

  pub contains_forbidden_items : Items → Bool
  contains_forbidden_items nil = false
  contains_forbidden_items (cons (obj fs) xs) =
      contains_forbidden_fields fs || contains_forbidden_items xs
  contains_forbidden_items (cons v xs) = contains_forbidden_items xs

  pub contains_forbidden_fields : Fields → Bool
  contains_forbidden_fields end = false
  contains_forbidden_fields (field k v fs) =
      is_forbidden_key k || (contains_forbidden_value v || contains_forbidden_fields fs)

unfoldable pub contains_forbidden : Map → Bool
contains_forbidden none = false
contains_forbidden (some fs) = contains_forbidden_fields fs
