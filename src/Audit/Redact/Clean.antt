-- ===== src/Audit/Redact/Clean.antt =====
-- What the audit consumer's redaction leaves
-- (apps/api/audit-service/internal/consumer/consumer.go).
use openllm_metrics.Prelude.{
  ◌≡◌, refl, Bool, false, ◌||◌, Option, none, some, Text, arith, if◌then◌else◌,
}
use openllm_metrics.Audit.Json.{
  Value, null, bool, str, num, arr, obj, Items, nil, cons, Fields, end, field, Map, lookup,
}
use openllm_metrics.Audit.Redact.{
  is_forbidden_key, redact_value, redact_items, redact_fields, redact_map, contains_forbidden_value,
  contains_forbidden_items, contains_forbidden_fields, contains_forbidden,
}

-- A forbidden key at any depth, in lists inside lists too.
unfoldable mutual
  pub is_tainted : Value → Bool
  is_tainted null = false
  is_tainted (bool b) = false
  is_tainted (str s) = false
  is_tainted (num n) = false
  is_tainted (arr xs) = tainted_items xs
  is_tainted (obj fs) = tainted_fields fs

  pub tainted_items : Items → Bool
  tainted_items nil = false
  tainted_items (cons v xs) = is_tainted v || tainted_items xs

  pub tainted_fields : Fields → Bool
  tainted_fields end = false
  tainted_fields (field k v fs) = is_forbidden_key k || (is_tainted v || tainted_fields fs)

mutual
  unfolding is_tainted tainted_items tainted_fields redact_value redact_items redact_fields

  tainted-redact_value : (v : Value) → is_tainted (redact_value v) ≡ false
  tainted-redact_value null = refl
  tainted-redact_value (bool b) = refl
  tainted-redact_value (str s) = refl
  tainted-redact_value (num n) = refl
  tainted-redact_value (arr xs) = tainted-redact_items xs
  tainted-redact_value (obj fs) = tainted-redact_fields fs

  tainted-redact_items : (xs : Items) → tainted_items (redact_items xs) ≡ false
  tainted-redact_items nil = refl
  tainted-redact_items (cons v xs) = ground (arith, tainted-redact_value v, tainted-redact_items xs)

  tainted-redact_fields : (fs : Fields) → tainted_fields (redact_fields fs) ≡ false
  tainted-redact_fields end = refl
  tainted-redact_fields (field k v fs) =
      ground (arith, tainted-redact_value v, tainted-redact_fields fs)

or_false : {a b : Bool} → (a || b) ≡ false → (a ≡ false) × (b ≡ false)
or_false {a} {b} h = ground arith

false_or : {a b : Bool} → a ≡ false → b ≡ false → (a || b) ≡ false
false_or {a} {b} h k = ground arith

-- The check of `containsForbidden` is the weaker one.
mutual
  unfolding is_tainted tainted_items tainted_fields contains_forbidden_value
      contains_forbidden_items contains_forbidden_fields

  contains_value_of_clean : (v : Value) → is_tainted v ≡ false → contains_forbidden_value v ≡ false
  contains_value_of_clean null h = refl
  contains_value_of_clean (bool b) h = refl
  contains_value_of_clean (str s) h = refl
  contains_value_of_clean (num n) h = refl
  contains_value_of_clean (arr xs) h = contains_items_of_clean xs h
  contains_value_of_clean (obj fs) h = contains_fields_of_clean fs h

  contains_items_of_clean :
      (xs : Items) → tainted_items xs ≡ false → contains_forbidden_items xs ≡ false
  contains_items_of_clean nil h = refl
  contains_items_of_clean (cons (obj fs) xs) h =
      let (now, later) = or_false h in
      false_or (contains_fields_of_clean fs now) (contains_items_of_clean xs later)
  contains_items_of_clean (cons v xs) h =
      contains_items_of_clean xs (or_false {a = is_tainted v} h).1

  contains_fields_of_clean :
      (fs : Fields) → tainted_fields fs ≡ false → contains_forbidden_fields fs ≡ false
  contains_fields_of_clean end h = refl
  contains_fields_of_clean (field k v fs) h =
      let (key, rest) = or_false h in
      let (now, later) = or_false rest in
      false_or key (false_or (contains_value_of_clean v now) (contains_fields_of_clean fs later))

unfoldable pub tainted : Map → Bool
tainted none = false
tainted (some fs) = tainted_fields fs

-- After redaction no forbidden key, in any spelling of its case, stands at any depth, and so the
-- check that follows it finds none.
pub redact_map_clean :
    (m : Map) → (tainted (redact_map m) ≡ false) × (contains_forbidden (redact_map m) ≡ false)
unfolding tainted redact_map contains_forbidden
redact_map_clean none = (refl, refl)
redact_map_clean (some fs) = (
  tainted-redact_fields fs,
  contains_fields_of_clean (redact_fields fs) (tainted-redact_fields fs),
)

mutual
  unfolding is_tainted tainted_items tainted_fields redact_value redact_items redact_fields

  redact_value_of_clean : (v : Value) → is_tainted v ≡ false → redact_value v ≡ v
  redact_value_of_clean null h = refl
  redact_value_of_clean (bool b) h = refl
  redact_value_of_clean (str s) h = refl
  redact_value_of_clean (num n) h = refl
  redact_value_of_clean (arr xs) h = cc (redact_items_of_clean xs h)
  redact_value_of_clean (obj fs) h = cc (redact_fields_of_clean fs h)

  redact_items_of_clean : (xs : Items) → tainted_items xs ≡ false → redact_items xs ≡ xs
  redact_items_of_clean nil h = refl
  redact_items_of_clean (cons v xs) h =
      ground (arith, redact_value_of_clean v, redact_items_of_clean xs)

  redact_fields_of_clean : (fs : Fields) → tainted_fields fs ≡ false → redact_fields fs ≡ fs
  redact_fields_of_clean end h = refl
  redact_fields_of_clean (field k v fs) h =
      ground (arith, redact_value_of_clean v, redact_fields_of_clean fs)

-- Redaction changes nothing where there is nothing to strip.
pub redact_map_of_clean : (m : Map) → tainted m ≡ false → redact_map m ≡ m
unfolding tainted redact_map
redact_map_of_clean none h = refl
redact_map_of_clean (some fs) h = cc (redact_fields_of_clean fs h)

unfoldable pub redacted : Option Value → Option Value
redacted none = none
redacted (some v) = some (redact_value v)

-- A key is read after redaction as before it, its value redacted, unless it is forbidden.
pub lookup-redact_fields :
    (k : Text) (fs : Fields)
    → lookup k (redact_fields fs) ≡ (if is_forbidden_key k then none else redacted (lookup k fs))
unfolding lookup redact_fields redacted
lookup-redact_fields k end = ground arith
lookup-redact_fields k (field j v fs) = ground (arith, lookup-redact_fields k fs)
