-- ===== src/Audit/Tests.antt =====
-- The audit ledger at concrete entries.
use openllm_metrics.Prelude.{
  ℕ, ◌≡◌, ◌≢◌, ◌⊎◌, refl, Bool, false, Option, none, some, List, [], ◌∷◌, Text, Text-discrete, text,
  is_empty, length, replicate, arith, if◌then◌else◌, ◌+◌, to_lower, subst, text_leb,
}
use openllm_metrics.Prelude.Int.{pos}
use openllm_metrics.Audit.Json.{str, num, arr, obj, cons, nil, Fields, end, field}
use openllm_metrics.Audit.Redact.{is_forbidden_key, redact_fields, redact_map, contains_forbidden}
use openllm_metrics.Audit.Redact.Clean.{tainted, redact_map_clean}
use openllm_metrics.Audit.Consumer.{AuditEvent, Record, AppendInput, State, run}
use openllm_metrics.Audit.Consumer.Entries.{IsStorable, run-ledger}
use openllm_metrics.Audit.Canonical.{
  encode, encode_items, encode_fields, encode_string, escape_all, sort, insert, comma_join,
  comma_tail, members, escape,
}
use openllm_metrics.Audit.Canonical.Order.{same_obj, swapped, encode-same}
use openllm_metrics.Audit.Chain.{
  Encoders, Entry, LedgerState, intact, hash_size, rows_of, segment, in_range, canonical, compute,
  document, zero_hash, serve_verify,
}
use openllm_metrics.Audit.Chain.Links.{
  IsIntact, verified_of_IsIntact, last_id_of, verify_complete, verify_complete, verify_sound,
}
use openllm_metrics.Audit.Chain.Ledger.{IsLedger, append_all, append_all-verified}
use openllm_metrics.Audit.Chain.Tamper.{
  Collision, IsVerified, edit_detected, head_removal_undetected,
}

abbrev secret_payload : Fields
secret_payload = field (text "Password") (str (text "x")) (
    field (text "deep")
      (arr (cons (arr (cons (obj (field (text "TOKEN") (str (text "y")) end)) nil)) nil))
      (field (text "kept") (str (text "z")) end))

redact_run :
    redact_fields secret_payload
    ≡ field
        (text "deep")
        (arr (cons (arr (cons (obj end) nil)) nil))
        (field (text "kept") (str (text "z")) end)
unfolding redact_fields is_forbidden_key to_lower Text-discrete
redact_run = refl

canonical_run :
    encode (obj (field (text "b") (num (text "1")) (field (text "a") (str (10 ∷ 34 ∷ [])) end)))
    ≡ text "{\"a\":\"\\n\\\"\",\"b\":1}"
unfolding encode sort insert text_leb comma_join members encode_string escape_all escape comma_tail
canonical_run = refl

redact_map_clean_example :
    (tainted (redact_map (some secret_payload)) ≡ false)
    × (contains_forbidden (redact_map (some secret_payload)) ≡ false)
redact_map_clean_example = redact_map_clean (some secret_payload)

abbrev clean_payload : Fields
clean_payload = field (text "kept") (str (text "z")) end

-- A record that decodes, one that does not, and a sink with room for one entry.
abbrev event : AuditEvent
event = record {
  tenant_id = text "acme";
  actor = none;
  action = text "policy.create";
  resource = some secret_payload;
  payload = some secret_payload;
  created_at = [];
}

abbrev unmarshal : Text → Option AuditEvent
unmarshal v = if is_empty v then none else some event

abbrev never : Text → Bool
never s = false

abbrev store_one : AppendInput → List AppendInput → Option (List AppendInput)
store_one i [] = some (i ∷ [])
store_one i (j ∷ js) = none

abbrev fresh : State (List AppendInput)
fresh = record {
  ledger = [];
  appends = 0;
  append_failures = 0;
  redaction_rejects = 0;
  validation_rejects = 0;
}

abbrev records : List Record
records =
    record { headers = []; value = text "{}" }
    ∷ record { headers = []; value = [] }
    ∷ record { headers = []; value = text "{}" }
    ∷ []

-- Every input in the list is storable.
abbrev AllStorable : List AppendInput → Type 0
AllStorable [] = Unit
AllStorable (i ∷ is) = IsStorable unmarshal i × AllStorable is

store_one_keeps :
    (i : AppendInput) (l l' : List AppendInput)
    → IsStorable unmarshal i
    → store_one i l ≡ some l'
    → AllStorable l
    → AllStorable l'
store_one_keeps i [] l' good e h = subst AllStorable (one e) (good, tt)
  where
    one : store_one i [] ≡ some l' → i ∷ [] ≡ l'
    one e = cc
store_one_keeps i (j ∷ js) l' good e h = cc

run-ledger_example : AllStorable (run unmarshal never store_one records fresh).ledger
run-ledger_example =
    run-ledger unmarshal never store_one AllStorable store_one_keeps records fresh tt

a-ne-b : ◌≢◌ {A = Text} (text "a") (text "b")
a-ne-b e = absurd (ground arith)

encode-same_example :
    encode (obj (field (text "a") (num (text "1")) (field (text "b") (num (text "2")) end)))
    ≡ encode (obj (field (text "b") (num (text "2")) (field (text "a") (num (text "1")) end)))
encode-same_example =
    encode-same
      (same_obj (swapped (text "a") (text "b") (num (text "1")) (num (text "2")) end a-ne-b))

-- A hash that sums the codes up, in 32 places.
abbrev sum : Text → ℕ
sum [] = 0
sum (c ∷ s) = c + sum s

toy_hash : Text → Text
toy_hash body = sum body ∷ replicate 31 0

toy_hash_size : (body : Text) → length (toy_hash body) ≡ hash_size
unfolding toy_hash
toy_hash_size body = refl

abbrev toy : Encoders
toy = record {
  sha256 = toy_hash;
  sha256_size = toy_hash_size;
  base64 = λ t. t;
  format_int = λ n. n ∷ [];
  format_time = λ n. n ∷ [];
}

abbrev input : AppendInput
input = record {
  tenant_id = text "acme";
  actor = none;
  action = text "login";
  resource = some secret_payload;
  payload = none;
}

abbrev empty_ledger : LedgerState
empty_ledger = record { rows = []; next_id = 1 }

empty-IsLedger : IsLedger toy empty_ledger
unfolding rows_of
empty-IsLedger = record { chains = λ t. tt; ascending = omega arith }

abbrev inputs : List (AppendInput × ℕ)
inputs =
    (input, 7) ∷ (record input { action = [] }, 8) ∷ (input, 9) ∷ (input, 10) ∷ (input, 11) ∷ []

abbrev four_rows : LedgerState
four_rows = append_all toy inputs empty_ledger

append_all-verified_example :
    serve_verify toy (text "acme") (pos 2) (pos 0) four_rows
    ≡ intact
        (length (segment (pos 2) (pos 0) (rows_of (text "acme") four_rows.rows)))
        (last_id_of 0 (segment (pos 2) (pos 0) (rows_of (text "acme") four_rows.rows)))
append_all-verified_example = append_all-verified toy inputs 1 (text "acme") (pos 2) (pos 0) refl

-- A row with the hash of its content.
abbrev seal : Entry → Entry
seal e = record e { entry_hash = toy_hash (encode (document toy e)) }

abbrev row : ℕ → Text → Text → Entry
row id action prev = seal (record {
  id = id;
  tenant_id = text "acme";
  actor = none;
  action = action;
  resource = some secret_payload;
  payload = none;
  prev_hash = prev;
  entry_hash = [];
  created_at = id;
})

abbrev row1 : Entry
row1 = row 1 (text "login") zero_hash

abbrev row2 : Entry
row2 = row 2 (text "ab") row1.entry_hash

-- The same codes in another order, which the toy hash does not see.
abbrev row2' : Entry
row2' = row 2 (text "ba") row1.entry_hash

abbrev row3 : Entry
row3 = row 3 (text "logout") row2.entry_hash

-- What a run over these rows computes with.
program : Unit {0}
unfolding encode encode_items encode_fields sort insert text_leb comma_join comma_tail members
    encode_string escape_all escape compute canonical document toy_hash
program = tt

abbrev rows3 : LedgerState
rows3 = record { rows = row1 ∷ row2 ∷ row3 ∷ []; next_id = 4 }

verified : IsVerified toy (row1 ∷ row2 ∷ row3 ∷ [])
unfolding program
verified =
    verified_of_IsIntact toy (row1 ∷ row2 ∷ row3 ∷ []) (refl, refl, (refl, refl, (refl, refl, tt)))

verified' : IsVerified toy (row1 ∷ row2' ∷ row3 ∷ [])
unfolding program
verified' =
    verified_of_IsIntact toy (row1 ∷ row2' ∷ row3 ∷ []) (refl, refl, (refl, refl, (refl, refl, tt)))

edit_detected_example : (canonical toy row2 ≡ canonical toy row2') ⊎ Collision toy
edit_detected_example = edit_detected toy (row1 ∷ []) [] row2 row2' row3 verified verified'

-- A hash that tells nothing apart.
abbrev constant : Encoders
constant = record {
  sha256 = λ body. zero_hash;
  sha256_size = λ body. refl;
  base64 = λ t. t;
  format_int = λ n. n ∷ [];
  format_time = λ n. n ∷ [];
}

abbrev plain : ℕ → Entry
plain id = record row1 { id = id; prev_hash = zero_hash; entry_hash = zero_hash }

plain-IsVerified : IsVerified constant (plain 1 ∷ plain 2 ∷ plain 3 ∷ [])
unfolding program
plain-IsVerified =
    verified_of_IsIntact constant (plain 1 ∷ plain 2 ∷ plain 3 ∷ [])
      (refl, refl, (refl, refl, (refl, refl, tt)))

thinned-IsVerified : IsVerified constant (plain 1 ∷ plain 3 ∷ [])
unfolding program
thinned-IsVerified =
    verified_of_IsIntact constant (plain 1 ∷ plain 3 ∷ []) (refl, refl, (refl, refl, tt))

head_removal_undetected_example : IsVerified toy (row2 ∷ row3 ∷ [])
head_removal_undetected_example =
    head_removal_undetected toy (row1 ∷ []) (row2 ∷ row3 ∷ []) verified

segment-rows3 : segment (pos 0) (pos 0) (rows_of (text "acme") rows3.rows) ≡ row1 ∷ row2 ∷ row3 ∷ []
unfolding segment in_range rows_of Text-discrete
segment-rows3 = refl

rows3-IsIntact : IsIntact toy (segment (pos 0) (pos 0) (rows_of (text "acme") rows3.rows))
unfolding program
rows3-IsIntact = rw segment-rows3 (refl, refl, (refl, refl, (refl, refl, tt)))

rows3_accepted : serve_verify toy (text "acme") (pos 0) (pos 0) rows3 ≡ intact 3 3
unfolding segment in_range rows_of Text-discrete last_id_of
rows3_accepted = verify_complete toy (text "acme") (pos 0) (pos 0) rows3 refl rows3-IsIntact

verify_sound_example : IsIntact toy (segment (pos 0) (pos 0) (rows_of (text "acme") rows3.rows))
verify_sound_example = verify_sound toy (text "acme") (pos 0) (pos 0) rows3 3 3 rows3_accepted
