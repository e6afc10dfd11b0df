-- ===== src/Notifier/Ledger.antt =====
-- ClaimDelivery and MarkDelivery of apps/worker/notifier/internal/store/store.go, over the rows of
-- notification_deliveries with its unique key (alert_event_id, channel_id).
pub mod Keys
pub mod Claims
use openllm_metrics.Prelude.{
  ℕ, suc, Bool, true, false, ◌&&◌, Option, none, some, List, [], ◌∷◌, ◌++◌, Text, Text-discrete,
  ◌==◌, ite, if◌then◌else◌,
}

pub data Status : Type 0 where
  pending retrying success failure : Status

pub record Delivery : Type 0 where
  pub id : ℕ
  pub tenant_id : Text
  pub rule_id : Text
  pub channel_id : Text
  pub alert_event_id : Text
  pub status : Status
  pub attempts : ℕ
  pub last_error : Text

pub record Table : Type 0 where
  pub rows : List Delivery
  pub next_id : ℕ

pub data Claim : Type 0 where
  claimed : ℕ → Claim
  already_delivered : Claim

abbrev pub is_success : Status → Bool
is_success pending = false
is_success retrying = false
is_success success = true
is_success failure = false

-- The row of one alert on one channel.
unfoldable pub find : Text → Text → List Delivery → Option Delivery
find alert channel [] = none
find alert channel (d ∷ ds) =
    let rest = find alert channel ds in
    ite (Text-discrete d.alert_event_id alert)
      (ite (Text-discrete d.channel_id channel) (some d) rest) rest

-- The insert takes an id also where the row is there already.
unfoldable pub claim_delivery : Text → Text → Text → Text → Table → Claim × Table
claim_delivery tenant rule channel alert t = elim (find alert channel t.rows) [
  | none ↦ (
    claimed t.next_id,
    record {
      rows =
          t.rows
          ++ record {
            id = t.next_id;
            tenant_id = tenant;
            rule_id = rule;
            channel_id = channel;
            alert_event_id = alert;
            status = pending;
            attempts = 0;
            last_error = [];
          }
            ∷ [];
      next_id = suc t.next_id;
    },
  )
  | some d ↦ (
    if is_success d.status then already_delivered else claimed d.id,
    record t { next_id = suc t.next_id },
  )
]

unfoldable pub mark_row : ℕ → Status → Text → ℕ → Delivery → Delivery
mark_row id status last_error attempts d =
    if d.id == id
    then record d { status = status; last_error = last_error; attempts = attempts }
    else d

unfoldable pub mark_rows : ℕ → Status → Text → ℕ → List Delivery → List Delivery
mark_rows id status last_error attempts [] = []
mark_rows id status last_error attempts (d ∷ ds) =
    mark_row id status last_error attempts d ∷ mark_rows id status last_error attempts ds

-- The update of no row is an error that the caller only logs.
unfoldable pub mark_delivery : ℕ → Status → Text → ℕ → Table → Table
mark_delivery id status last_error attempts t = record t {
  rows = mark_rows id status last_error attempts t.rows;
}
