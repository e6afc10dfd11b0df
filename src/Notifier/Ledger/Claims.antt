-- ===== src/Notifier/Ledger/Claims.antt =====
-- ClaimDelivery against the delivery table (apps/worker/notifier/internal/store/store.go).
use openllm_metrics.Prelude.{
  ℕ, suc, ◌≡◌, refl, ap, sym, ◌∙◌, true, false, none, some, List, [], ◌∷◌, ◌++◌, Text,
  if◌then◌else◌, Option-cases, Bool-cases, inl, inr, arith, ◌⊎◌,
}
use openllm_metrics.Notifier.Ledger.{
  pending, Delivery, Table, Claim, claimed, already_delivered, is_success, find, claim_delivery,
}
use openllm_metrics.Notifier.Ledger.Keys.{IsTable, Holds, delivered, success_of}

-- The row that a claim inserts.
abbrev pub fresh_row : Text → Text → Text → Text → Table → Delivery
fresh_row tenant rule channel alert t = record {
  id = t.next_id;
  tenant_id = tenant;
  rule_id = rule;
  channel_id = channel;
  alert_event_id = alert;
  status = pending;
  attempts = 0;
  last_error = [];
}

abbrev pub insert : Delivery → Table → Table
insert d t = record { rows = t.rows ++ d ∷ []; next_id = suc t.next_id }

abbrev pub skip_id : Table → Table
skip_id t = record t { next_id = suc t.next_id }

pub claim_new :
    (tenant rule channel alert : Text) (t : Table)
    → find alert channel t.rows ≡ none
    → claim_delivery tenant rule channel alert t
      ≡ (claimed t.next_id, insert (fresh_row tenant rule channel alert t) t)
unfolding claim_delivery
claim_new tenant rule channel alert t h = rw (h, claim_delivery) refl

pub claim_old :
    (tenant rule channel alert : Text) (t : Table) (d : Delivery)
    → find alert channel t.rows ≡ some d
    → claim_delivery tenant rule channel alert t
      ≡ (if is_success d.status then already_delivered else claimed d.id, skip_id t)
unfolding claim_delivery
claim_old tenant rule channel alert t d h = rw (h, claim_delivery) refl

find_append_some :
    (a c : Text) (ds : List Delivery) (d e : Delivery)
    → find a c ds ≡ some e
    → find a c (ds ++ d ∷ []) ≡ some e
unfolding find
find_append_some a c [] d e h = cc
find_append_some a c (x ∷ ds) d e h = ground (arith, find_append_some a c ds d e)

find_append_none :
    (a c : Text) (ds : List Delivery) (d : Delivery)
    → find a c ds ≡ none
    → find a c (ds ++ d ∷ []) ≡ find a c (d ∷ [])
unfolding find
find_append_none a c [] d h = refl
find_append_none a c (x ∷ ds) d h = ground (arith, find_append_none a c ds d)

find_only :
    (a c : Text) (d e : Delivery)
    → find a c (d ∷ []) ≡ some e
    → (d ≡ e) × ((a ≡ d.alert_event_id) × (c ≡ d.channel_id))
unfolding find
find_only a c d e h = ground arith

find_append :
    (a c : Text) (ds : List Delivery) (d e : Delivery)
    → find a c (ds ++ d ∷ []) ≡ some e
    → (find a c ds ≡ some e) ⊎ ((d ≡ e) × ((a ≡ d.alert_event_id) × (c ≡ d.channel_id)))
find_append a c ds d e h = elim (Option-cases (find a c ds)) [
  | inl old ↦ inr (find_only a c d e (sym (find_append_none a c ds d old) ∙ h))
  | inr (x, old) ↦ inl (old ∙ sym (find_append_some a c ds d x old) ∙ h)
]

insert-IsTable : (d : Delivery) (t : Table) → d.id ≡ t.next_id → IsTable t → IsTable (insert d t)
insert-IsTable d t i v = record {
  fresh = λ a c e k. elim (find_append a c t.rows d e k) [
    | inl old ↦ omega (arith, v.fresh a c e old)
    | inr (same, keys) ↦ omega (arith, ap Delivery.id same)
  ];
  unique = λ a c a' c' e e' k k' l. elim (find_append a c t.rows d e k) [
    | inl old ↦ elim (find_append a' c' t.rows d e' k') [
      | inl old' ↦ v.unique a c a' c' e e' old old' l
      | inr (same', keys') ↦ absurd (omega (arith, v.fresh a c e old, ap Delivery.id same'))
    ]
    | inr (same, keys) ↦ elim (find_append a' c' t.rows d e' k') [
      | inl old' ↦ absurd (omega (arith, v.fresh a' c' e' old', ap Delivery.id same))
      | inr (same', keys') ↦ (keys.0 ∙ sym keys'.0, keys.1 ∙ sym keys'.1)
    ]
  ];
}

skip_id-IsTable : (t : Table) → IsTable t → IsTable (skip_id t)
skip_id-IsTable t v = record {
  fresh = λ a c d k. omega (arith, v.fresh a c d k);
  unique = v.unique;
}

delivered-insert :
    (a c : Text) (d : Delivery) (t : Table)
    → is_success d.status ≡ false
    → find d.alert_event_id d.channel_id t.rows ≡ none
    → delivered a c (insert d t) ≡ delivered a c t
unfolding delivered success_of find
delivered-insert a c d t p n = elim (Option-cases (find a c t.rows)) [
  | inl none_here ↦ rw (find_append_none a c t.rows d none_here, none_here) (ground arith)
  | inr (x, here) ↦ ap success_of (find_append_some a c t.rows d x here ∙ sym here)
]

-- What a claim promises of the table it leaves.
pub record IsClaim (alert channel : Text) (t : Table) (r : Claim × Table) : Type 0 where
  pub table : IsTable r.1
  pub kept : (a c : Text) → delivered a c r.1 ≡ delivered a c t
  pub skipped : r.0 ≡ already_delivered → delivered alert channel t ≡ true
  pub held :
      (id : ℕ) → r.0 ≡ claimed id → Holds alert channel id r.1 × (delivered alert channel t ≡ false)

claimed_id : (m n : ℕ) → claimed m ≡ claimed n → m ≡ n
claimed_id m n h = cc

fresh_row-found :
    (tenant rule channel alert : Text) (t : Table)
    → find alert channel t.rows ≡ none
    → find alert channel (insert (fresh_row tenant rule channel alert t) t).rows
      ≡ some (fresh_row tenant rule channel alert t)
unfolding find
fresh_row-found tenant rule channel alert t n =
    find_append_none alert channel t.rows (fresh_row tenant rule channel alert t) n ∙ ground arith

old-IsClaim :
    (tenant rule channel alert : Text) (t : Table) (d : Delivery)
    → IsTable t
    → find alert channel t.rows ≡ some d
    → IsClaim alert channel t
        (if is_success d.status then already_delivered else claimed d.id, skip_id t)
unfolding delivered success_of
old-IsClaim tenant rule channel alert t d v h = elim (Bool-cases (is_success d.status)) [
  | inl done ↦ rw done (record {
    table = skip_id-IsTable t v;
    kept = λ a c. refl;
    skipped = λ k. rw (h, done) refl;
    held = λ id k. absurd (distinct_claim id k);
  })
  | inr going ↦ rw going (record {
    table = skip_id-IsTable t v;
    kept = λ a c. refl;
    skipped = λ k. absurd (distinct_claim d.id (sym k));
    held =
        λ id k. (record { row = d; found = h; same_id = claimed_id d.id id k }, rw (h, going) refl);
  })
]
  where
    distinct_claim : (id : ℕ) → already_delivered ≡ claimed id → ⊥
    distinct_claim id k = cc

-- A claim skips a key only if it was delivered, answers another with the id of its row, and
-- changes no key's delivered state.
pub claim_delivery-IsClaim :
    (tenant rule channel alert : Text) (t : Table)
    → IsTable t
    → IsClaim alert channel t (claim_delivery tenant rule channel alert t)
unfolding delivered success_of
claim_delivery-IsClaim tenant rule channel alert t v =
    elim (Option-cases (find alert channel t.rows)) [
      | inl new ↦
          let d = fresh_row tenant rule channel alert t in
          rw (claim_new tenant rule channel alert t new) (record {
            table = insert-IsTable d t refl v;
            kept = λ a c. delivered-insert a c d t refl new;
            skipped = λ k. cc;
            held = λ id k. (
              record {
                row = d;
                found = fresh_row-found tenant rule channel alert t new;
                same_id = claimed_id t.next_id id k;
              },
              ap success_of new,
            );
          })
      | inr (d, old) ↦
          rw (claim_old tenant rule channel alert t d old)
            (old-IsClaim tenant rule channel alert t d v old)
    ]
