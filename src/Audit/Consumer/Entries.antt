-- ===== src/Audit/Consumer/Entries.antt =====
-- What the audit consumer (apps/api/audit-service/internal/consumer/consumer.go) hands to the
-- ledger, and how it counts.
use openllm_metrics.Prelude.{
  ℕ, suc, ◌+◌, ◌≡◌, refl, ◌∙◌, Bool, false, Option, none, some, List, [], ◌∷◌, Text, is_empty,
  length, arith, if◌then◌else◌, Option-cases, inl, inr,
}
use openllm_metrics.Audit.Redact.{redact_map}
use openllm_metrics.Audit.Redact.Clean.{tainted, redact_map_clean}
use openllm_metrics.Audit.Consumer.{
  AuditEvent, Record, AppendInput, Decoded, decoded, failed, State, tenant_header, header_value,
  input_of, decode_event, decode_record, store_input, handle_decoded, handle, run,
}

-- What the sink may count on, and the event that the input came from: its resource is passed on as it
-- is.
pub record IsStorable (unmarshal : Text → Option AuditEvent) (i : AppendInput) : Type 0 where
  pub value : Text
  pub event : AuditEvent
  pub read : unmarshal value ≡ some event
  pub resource : i.resource ≡ event.resource
  pub tenant : is_empty i.tenant_id ≡ false
  pub action : is_empty i.action ≡ false
  pub actor_clean : tainted i.actor ≡ false
  pub payload_clean : tainted i.payload ≡ false

-- All that the consumer has counted.
abbrev pub counted : {S : Type 0} → State S → ℕ
counted s = s.appends + s.append_failures + s.redaction_rejects + s.validation_rejects

module _ (unmarshal : Text → Option AuditEvent) (parses : Text → Bool) {S : Type 0}
    (append : AppendInput → S → Option S) where
  unfoldable pub redact_input : AppendInput → AppendInput
  redact_input i = record i { actor = redact_map i.actor; payload = redact_map i.payload }

  unfoldable pub stored : AppendInput → State S → State S
  stored i s = elim (append i s.ledger) [
    | none ↦ record s { append_failures = suc s.append_failures }
    | some l ↦ record s { ledger = l; appends = suc s.appends }
  ]

  -- The check after redaction never rejects.
  store_redacted :
      (i : AppendInput) (s : State S)
      → store_input unmarshal parses append (redact_input i) s ≡ stored (redact_input i) s
  unfolding store_input redact_input stored
  store_redacted i s = rw ((redact_map_clean i.payload).1, (redact_map_clean i.actor).1)

  handle_stored :
      (d : Decoded) (s : State S)
      → handle_decoded unmarshal parses append d s ≡ elim d [
        | decoded i ↦ stored (redact_input i) s
        | failed e ↦ record s { validation_rejects = suc s.validation_rejects }
      ]
  unfolding handle_decoded redact_input
  handle_stored (failed e) s = refl
  handle_stored (decoded i) s = store_redacted i s

  counts_decoded :
      (d : Decoded) (s : State S)
      → ((handle_decoded unmarshal parses append d s).redaction_rejects ≡ s.redaction_rejects)
        × (counted (handle_decoded unmarshal parses append d s) ≡ counted s + 1)
  unfolding stored
  counts_decoded (failed e) s = rw (handle_stored (failed e) s) (refl, omega arith)
  counts_decoded (decoded i) s = rw (handle_stored (decoded i) s) (ground arith)

  -- Whatever the records and the sink, each record is counted once, and none as a redaction
  -- reject.
  pub run-counted :
      (recs : List Record) (s : State S)
      → ((run unmarshal parses append recs s).redaction_rejects ≡ s.redaction_rejects)
        × (counted (run unmarshal parses append recs s) ≡ counted s + length recs)
  unfolding run handle
  run-counted [] s = (refl, omega arith)
  run-counted (rec ∷ recs) s =
      let d = decode_record unmarshal parses rec (header_value rec.headers tenant_header) in
      let now = counts_decoded d s in
      let later = run-counted recs (handle_decoded unmarshal parses append d s) in
      (later.0 ∙ now.0, omega arith)

  input-IsStorable :
      (value tenant : Text) (ev : AuditEvent) (i : AppendInput)
      → unmarshal value ≡ some ev
      → input_of unmarshal parses tenant ev ≡ decoded i
      → IsStorable unmarshal (redact_input i)
  unfolding input_of redact_input
  input-IsStorable value tenant ev i r h = record {
    value = value;
    event = ev;
    read = r;
    resource = ground arith;
    tenant = ground arith;
    action = ground arith;
    actor_clean = (redact_map_clean i.actor).0;
    payload_clean = (redact_map_clean i.payload).0;
  }

  decode-IsStorable :
      (value : Text) (found : Option AuditEvent) (tenant : Text) (i : AppendInput)
      → unmarshal value ≡ found
      → decode_event unmarshal parses found tenant ≡ decoded i
      → IsStorable unmarshal (redact_input i)
  unfolding decode_event
  decode-IsStorable value none tenant i r h = cc
  decode-IsStorable value (some ev) tenant i r h =
      input-IsStorable value (if is_empty tenant then ev.tenant_id else tenant) ev i r h

  module _ (P : S → Type 0)
      (keep : (i : AppendInput) (l l' : S)
        → IsStorable unmarshal i
        → append i l ≡ some l'
        → P l
        → P l') where
    stored_keeps :
        (i : AppendInput) (s : State S)
        → IsStorable unmarshal i
        → P s.ledger
        → P (stored i s).ledger
    unfolding stored
    stored_keeps i s good h = elim (Option-cases (append i s.ledger)) [
      | inl e ↦ rw (e, stored) h
      | inr (l, e) ↦ rw (e, stored) (keep i s.ledger l good e h)
    ]

    handle_keeps :
        (d : Decoded) (s : State S)
        → ((i : AppendInput) → d ≡ decoded i → IsStorable unmarshal (redact_input i))
        → P s.ledger
        → P (handle_decoded unmarshal parses append d s).ledger
    handle_keeps (failed e) s good h = rw (handle_stored (failed e) s) h
    handle_keeps (decoded i) s good h =
        rw (handle_stored (decoded i) s) (stored_keeps (redact_input i) s (good i refl) h)

    -- The consumer hands to the sink only inputs with a tenant and an action, and with no
    -- forbidden key at any depth of the actor and the payload, and with the resource of the event as
    -- it came, unredacted: what each append of such an input keeps holds of the ledger after any
    -- records.
    pub run-ledger :
        (recs : List Record) (s : State S)
        → P s.ledger
        → P (run unmarshal parses append recs s).ledger
    unfolding run handle decode_record
    run-ledger [] s h = h
    run-ledger (rec ∷ recs) s h =
        let tenant = header_value rec.headers tenant_header in
        let d = decode_event unmarshal parses (unmarshal rec.value) tenant in
        run-ledger recs (handle_decoded unmarshal parses append d s) (
          handle_keeps d s (λ i. decode-IsStorable rec.value (unmarshal rec.value) tenant i refl) h)
