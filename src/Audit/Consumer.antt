-- ===== src/Audit/Consumer.antt =====
-- The audit consumer's handler (apps/api/audit-service/internal/consumer/consumer.go). JSON
-- decoding of a record and the check of a timestamp (packages encoding/json, time) are the
-- parameters `unmarshal` and `parses`, and the ledger is reached through `append` as through the
-- code's Sink.
pub mod Entries
use openllm_metrics.Prelude.{
  ℕ, suc, Bool, true, false, ◌||◌, Option, none, some, List, [], ◌∷◌, Text, Text-discrete, text,
  is_empty, ite, if◌then◌else◌,
}
use openllm_metrics.Audit.Json.{Value, str, Fields, end, field, Map, lookup, fields, assign}
use openllm_metrics.Audit.Redact.{redact_map, contains_forbidden}

-- The members of `auditEvent` that the handler reads.
pub record AuditEvent : Type 0 where
  pub tenant_id : Text
  pub actor : Map
  pub action : Text
  pub resource : Map
  pub payload : Map
  pub created_at : Text

pub record Header : Type 0 where
  pub key : Text
  pub value : Text

pub record Record : Type 0 where
  pub headers : List Header
  pub value : Text

pub record AppendInput : Type 0 where
  pub tenant_id : Text
  pub actor : Map
  pub action : Text
  pub resource : Map
  pub payload : Map

pub data DecodeError : Type 0 where
  bad_json no_tenant no_action : DecodeError

pub data Decoded : Type 0 where
  decoded : AppendInput → Decoded
  failed : DecodeError → Decoded

unfoldable pub header_value : List Header → Text → Text
header_value [] key = []
header_value (h ∷ hs) key = ite (Text-discrete h.key key) h.value (header_value hs key)

abbrev system : Value
system = str (text "system")

-- A nil actor becomes the system's, and one with no type gets it.
unfoldable pub typed_actor : Map → Map
typed_actor none = some (field (text "type") system end)
typed_actor (some fs) = elim (lookup (text "type") fs) [
  | none ↦ some (assign (text "type") system fs)
  | some _ ↦ some fs
]

-- The producer's own timestamp goes into the payload, unless the payload has one.
unfoldable pub stamped : Text → Map → Map
stamped created_at payload = elim (lookup (text "_producer_ts") (fields payload)) [
  | none ↦ some (assign (text "_producer_ts") (str created_at) (fields payload))
  | some _ ↦ some (fields payload)
]

-- The metrics surface of the consumer, and the ledger behind its sink.
pub record State (S : Type 0) : Type 0 where
  pub ledger : S
  pub appends : ℕ
  pub append_failures : ℕ
  pub redaction_rejects : ℕ
  pub validation_rejects : ℕ

abbrev pub tenant_header : Text
tenant_header = text "x-tenant-id"

module _ (unmarshal : Text → Option AuditEvent) (parses : Text → Bool) where
  unfoldable pub stamped_payload : AuditEvent → Map
  stamped_payload ev =
      if is_empty ev.created_at
      then ev.payload
      else if parses ev.created_at
      then stamped ev.created_at ev.payload
      else ev.payload

  unfoldable pub input_of : Text → AuditEvent → Decoded
  input_of tenant ev =
      if is_empty tenant
      then failed no_tenant
      else if is_empty ev.action
      then failed no_action
      else decoded (record {
        tenant_id = tenant;
        actor = typed_actor ev.actor;
        action = ev.action;
        resource = ev.resource;
        payload = stamped_payload ev;
      })

  -- The tenant header wins over the body's tenant.
  unfoldable pub decode_event : Option AuditEvent → Text → Decoded
  decode_event none tenant_in_header = failed bad_json
  decode_event (some ev) tenant_in_header =
      input_of (if is_empty tenant_in_header then ev.tenant_id else tenant_in_header) ev

  unfoldable pub decode_record : Record → Text → Decoded
  unfolding decode_event
  decode_record rec tenant_in_header = decode_event (unmarshal rec.value) tenant_in_header

  module _ {S : Type 0} (append : AppendInput → S → Option S) where
    -- The sink's verdict on a redacted input.
    unfoldable pub store_input : AppendInput → State S → State S
    store_input i s =
        if contains_forbidden i.payload || contains_forbidden i.actor
        then record s { redaction_rejects = suc s.redaction_rejects }
        else elim (append i s.ledger) [
          | none ↦ record s { append_failures = suc s.append_failures }
          | some l ↦ record s { ledger = l; appends = suc s.appends }
        ]

    unfoldable pub handle_decoded : Decoded → State S → State S
    handle_decoded (failed e) s = record s { validation_rejects = suc s.validation_rejects }
    handle_decoded (decoded i) s =
        store_input (record i { actor = redact_map i.actor; payload = redact_map i.payload }) s

    unfoldable pub handle : Record → State S → State S
    handle rec s = handle_decoded (decode_record rec (header_value rec.headers tenant_header)) s

    -- The records of the topic, in order; an error ends only its own record.
    unfoldable pub run : List Record → State S → State S
    run [] s = s
    run (rec ∷ recs) s = run recs (handle rec s)
