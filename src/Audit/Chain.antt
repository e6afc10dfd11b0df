-- ===== src/Audit/Chain.antt =====
-- The hash chain: Compute of apps/api/audit-service/internal/hasher/hasher.go, Append and
-- StreamForVerify of internal/store/store.go (the table as a list in id order), and the verify
-- handler internal/handler/verify.go, which cmd/olm-audit/internal/cli/verify.go repeats.
-- SHA-256, base64 and the printing of numbers and times are the fields of `Encoders`.
pub mod Links
pub mod Ledger
pub mod Tamper
use openllm_metrics.Prelude.{
  ℕ, zero, suc, ◌≡◌, Bool, true, false, ◌&&◌, Option, none, some, List, [], ◌∷◌, ◌++◌, Text,
  Text-discrete, text, is_empty, length, replicate, leb, ltb, ◌==◌, ite, if◌then◌else◌,
}
use openllm_metrics.Prelude.Int.{ℤ, pos, pos_part, ltb_ℤ}
use openllm_metrics.Audit.Json.{Value, str, num, obj, Fields, end, field, Map, fields}
use openllm_metrics.Audit.Canonical.{encode}
use openllm_metrics.Audit.Consumer.{AppendInput}

abbrev pub hash_size : ℕ
hash_size = 32

pub record Encoders : Type 0 where
  pub sha256 : Text → Text
  pub sha256_size : (body : Text) → length (sha256 body) ≡ hash_size
  pub base64 : Text → Text
  pub format_int : ℕ → Text
  pub format_time : ℕ → Text

pub record Entry : Type 0 where
  pub id : ℕ
  pub tenant_id : Text
  pub actor : Map
  pub action : Text
  pub resource : Map
  pub payload : Map
  pub prev_hash : Text
  pub entry_hash : Text
  pub created_at : ℕ

pub data Reason : Type 0 where
  prev_hash_mismatch entry_hash_mismatch : Reason

pub record Break : Type 0 where
  pub broken_at : ℕ
  pub expected_hash : Text
  pub actual_hash : Text
  pub reason : Reason
  pub checked : ℕ

-- What the handler answers: 400, 500, or 200 with a report.
pub data Answer : Type 0 where
  bad_request : Answer
  internal_error : Answer
  broken : Break → Answer
  intact : ℕ → ℕ → Answer

-- The variables that the handler's callback writes, and its metrics.
pub record Progress : Type 0 where
  pub prev : Text
  pub first : Bool
  pub checked : ℕ
  pub last_id : ℕ
  pub verify_checks : ℕ
  pub verify_breaks : ℕ

pub data Visit : Type 0 where
  go_on : Progress → Visit
  stop : Break → Visit
  fail : Visit

pub record LedgerState : Type 0 where
  pub rows : List Entry
  pub next_id : ℕ

pub data AppendError : Type 0 where
  tenant_required action_required hash_failed : AppendError

pub data Appended : Type 0 where
  appended : Entry → Appended
  refused : AppendError → Appended

abbrev pub zero_hash : Text
zero_hash = replicate hash_size 0

-- The table's rows of one tenant.
unfoldable pub rows_of : Text → List Entry → List Entry
rows_of tenant [] = []
rows_of tenant (e ∷ es) =
    let rest = rows_of tenant es in ite (Text-discrete e.tenant_id tenant) (e ∷ rest) rest

-- ORDER BY id DESC LIMIT 1, with the zero hash where there is no row.
unfoldable pub last_hash : Text → List Entry → Text
last_hash prev [] = prev
last_hash prev (e ∷ es) = last_hash e.entry_hash es

-- WHERE id >= from AND id <= to, each where it is positive.
unfoldable pub in_range : ℤ → ℤ → ℕ → Bool
in_range from to id =
    (if ltb_ℤ (pos 0) from then leb (pos_part from) id else true)
    && (if ltb_ℤ (pos 0) to then leb id (pos_part to) else true)

unfoldable pub segment : ℤ → ℤ → List Entry → List Entry
segment from to [] = []
segment from to (e ∷ es) =
    let rest = segment from to es in if in_range from to e.id then e ∷ rest else rest

abbrev pub begin : Progress
begin = record {
  prev = zero_hash;
  first = true;
  checked = 0;
  last_id = 0;
  verify_checks = 0;
  verify_breaks = 0;
}

-- The row that Append inserts, but for its hash.
unfoldable pub candidate : AppendInput → LedgerState → ℕ → Entry
candidate i l now = record {
  id = l.next_id;
  tenant_id = i.tenant_id;
  actor = some (fields i.actor);
  action = i.action;
  resource = some (fields i.resource);
  payload = some (fields i.payload);
  prev_hash = last_hash zero_hash (rows_of i.tenant_id l.rows);
  entry_hash = [];
  created_at = now;
}

unfoldable pub insert_row : Entry → Option Text → LedgerState → Appended × LedgerState
insert_row e none l = (refused hash_failed, record l { next_id = suc l.next_id })
insert_row e (some h) l =
    let e' = record e { entry_hash = h } in
    (appended e', record { rows = l.rows ++ e' ∷ []; next_id = suc l.next_id })

module _ (c : Encoders) where
  unfoldable pub document : Entry → Value
  document e = obj (
      field (text "tenant_id") (str e.tenant_id) (
        field (text "id") (num (c.format_int e.id)) (
          field (text "actor") (obj (fields e.actor)) (
            field (text "action") (str e.action) (
              field (text "resource") (obj (fields e.resource)) (
                field (text "payload") (obj (fields e.payload)) (
                  field (text "prev_hash") (str (c.base64 e.prev_hash))
                    (field (text "created_at") (str (c.format_time e.created_at)) end))))))))

  unfoldable pub canonical : Entry → Option Text
  canonical e = if length e.prev_hash == hash_size then some (encode (document e)) else none

  unfoldable pub compute : Entry → Option Text
  compute e = elim (canonical e) [ none ↦ none | some body ↦ some (c.sha256 body) ]

  -- One serializable transaction; `now` is the database's clock.
  unfoldable pub append : AppendInput → ℕ → LedgerState → Appended × LedgerState
  append i now l =
      if is_empty i.tenant_id
      then (refused tenant_required, l)
      else if is_empty i.action
      then (refused action_required, l)
      else insert_row (candidate i l now) (compute (candidate i l now)) l

  abbrev mismatch : Entry → Text → Text → Reason → ℕ → Break
  mismatch e expected actual reason checked = record {
    broken_at = e.id;
    expected_hash = c.base64 expected;
    actual_hash = c.base64 actual;
    reason = reason;
    checked = checked;
  }

  unfoldable pub check_hash : Entry → Option Text → Progress → Visit
  check_hash e none p = fail
  check_hash e (some got) p =
      ite (Text-discrete got e.entry_hash) (go_on (record p { prev = e.entry_hash; first = false }))
        (stop (mismatch e got e.entry_hash entry_hash_mismatch p.checked))

  -- The callback, for one row. The first row of the segment is not held to a predecessor.
  unfoldable pub visit : Entry → Progress → Visit
  unfolding check_hash
  visit e before =
      let p = record before {
        checked = suc before.checked;
        last_id = e.id;
        verify_checks = suc before.verify_checks;
      } in
      if p.first
      then check_hash e (compute e) p
      else ite (Text-discrete e.prev_hash p.prev) (check_hash e (compute e) p)
          (stop (mismatch e p.prev e.prev_hash prev_hash_mismatch p.checked))

  unfoldable pub verify_rows : List Entry → Progress → Answer × Progress
  verify_rows [] p = (intact p.checked p.last_id, p)
  verify_rows (e ∷ es) p = elim (visit e p) [
    | go_on p' ↦ verify_rows es p'
    | stop b ↦ (
      broken b,
      record p { verify_breaks = suc p.verify_breaks; verify_checks = suc p.verify_checks },
    )
    | fail ↦ (internal_error, record p { verify_checks = suc p.verify_checks })
  ]

  unfoldable pub serve_verify : Text → ℤ → ℤ → LedgerState → Answer
  serve_verify tenant from to l =
      if is_empty tenant
      then bad_request
      else (verify_rows (segment from to (rows_of tenant l.rows)) begin).0
