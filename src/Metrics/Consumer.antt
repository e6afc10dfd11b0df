-- ===== src/Metrics/Consumer.antt =====
-- The consumer that feeds the aggregator: apps/api/metrics-endpoint/internal/consumer/consumer.go,
-- with the LRU of dedup.go beside it. The event stream is the list of what Next returns in turn; the
-- error kinds that end Run cleanly are one constructor.
pub mod Replay
pub mod Counts
use openllm_metrics.Prelude.{
  ℕ, suc, Bool, true, false, Option, none, some, List, [], ◌∷◌, ◌++◌, Text, is_empty, if◌then◌else◌,
}
use openllm_metrics.Prelude.Int.{ℤ}
use openllm_metrics.Audit.Json.{Fields}
use openllm_metrics.Dedup.{Lru, new_lru, seen}
use openllm_metrics.Metrics.{Floats}
use openllm_metrics.Metrics.Aggregator.{State, apply, new_state}

pub record BusEvent : Type 0 where
  pub topic : Text
  pub event_id : Text
  pub payload : Text

-- ErrStreamClosed, context.Canceled and context.DeadlineExceeded are `ended`, any other error is
-- `broken` with its text.
pub data Next : Type 0 where
  event : BusEvent → Next
  ended : Next
  broken : Text → Next

pub record Consumer (C : Type 0) : Type 0 where
  pub aggregator : State C
  pub dedup : Lru
  pub ready : Bool
  pub consumed : ℕ
  pub deduped : ℕ

unfoldable pub new_consumer : {C : Type 0} → ℤ → Consumer C
new_consumer capacity = record {
  aggregator = new_state;
  dedup = new_lru capacity;
  ready = false;
  consumed = 0;
  deduped = 0;
}

-- ev.Topic + "|" + ev.EventID
unfoldable pub dedup_key : BusEvent → Text
dedup_key ev = ev.topic ++ (b'|' ∷ ev.event_id)

module _ {C : Type 0} (floats : Floats C) (unmarshal : Text → Option Fields) where
  -- Forwards the event to the aggregator.
  unfoldable pub forward : BusEvent → Consumer C → Consumer C
  forward ev c = record c {
    aggregator = apply floats unmarshal ev.topic ev.payload c.aggregator;
    consumed = suc c.consumed;
  }

  unfoldable pub settle_seen : BusEvent → Bool × Lru → Consumer C → Consumer C
  unfolding forward
  settle_seen ev (first, dedup) c =
      if first
      then forward ev (record c { dedup = dedup })
      else record c { dedup = dedup; deduped = suc c.deduped }

  -- One turn of the loop; Seen is asked only for an event with an id.
  unfoldable pub consume : BusEvent → Consumer C → Consumer C
  unfolding settle_seen
  consume ev c =
      if is_empty ev.event_id
      then forward ev (record c { ready = true })
      else settle_seen ev (seen (dedup_key ev) c.dedup) (record c { ready = true })

  -- Run, with the error that it returns; the list's end is a Next that never returns.
  unfoldable pub run : List Next → Consumer C → Option Text × Consumer C
  run [] c = (none, c)
  run (event ev ∷ ns) c = run ns (consume ev c)
  run (ended ∷ ns) c = (none, c)
  run (broken e ∷ ns) c = (some e, c)
