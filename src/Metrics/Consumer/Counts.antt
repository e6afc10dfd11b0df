-- ===== src/Metrics/Consumer/Counts.antt =====
-- The consumer's counters against those of its aggregator
-- (apps/api/metrics-endpoint/internal/consumer/consumer.go).
use openllm_metrics.Prelude.{
  ℕ, suc, ◌+◌, ◌≡◌, refl, Bool, true, false, Option, none, some, List, [], ◌∷◌, Text, is_empty,
  arith, Bool-cases, inl, inr,
}
use openllm_metrics.Audit.Json.{Fields}
use openllm_metrics.Dedup.{Lru, seen}
use openllm_metrics.Metrics.{Floats}
use openllm_metrics.Metrics.Aggregator.{State, apply}
use openllm_metrics.Metrics.Verdict.{apply_all, apply_all-total, total}
use openllm_metrics.Metrics.Consumer.{
  BusEvent, Consumer, Next, event, ended, broken, consume, dedup_key, forward, run, settle_seen,
}

-- The events that a stream delivers before it ends or breaks.
unfoldable pub delivered_count : List Next → ℕ
delivered_count [] = 0
delivered_count (event ev ∷ ns) = suc (delivered_count ns)
delivered_count (ended ∷ ns) = 0
delivered_count (broken e ∷ ns) = 0

-- The error that ends it, if one does.
unfoldable pub stream_error : List Next → Option Text
stream_error [] = none
stream_error (event ev ∷ ns) = stream_error ns
stream_error (ended ∷ ns) = none
stream_error (broken e ∷ ns) = some e

module _ {C : Type 0} (floats : Floats C) (unmarshal : Text → Option Fields) where
  total-apply :
      (topic payload : Text) (s : State C)
      → total (apply floats unmarshal topic payload s) ≡ suc (total s)
  unfolding apply_all
  total-apply topic payload s =
      omega (
        arith,
        apply_all-total floats unmarshal (record { topic = topic; payload = payload } ∷ []) s,
      )

  abbrev Step : Consumer C → Consumer C → Type 0
  Step c d =
      (d.consumed + d.deduped ≡ suc (c.consumed + c.deduped))
      × (total d.aggregator + c.consumed ≡ total c.aggregator + d.consumed)

  forward-Step : (ev : BusEvent) (c : Consumer C) → Step c (forward floats unmarshal ev c)
  unfolding forward
  forward-Step ev c = (omega arith, omega (arith, total-apply ev.topic ev.payload c.aggregator))

  settle-Step :
      (ev : BusEvent) (p : Bool × Lru) (c : Consumer C)
      → Step c (settle_seen floats unmarshal ev p c)
  unfolding settle_seen
  settle-Step ev (true, d) c = forward-Step ev (record c { dedup = d })
  settle-Step ev (false, d) c = (omega arith, omega arith)

  consume-Step : (ev : BusEvent) (c : Consumer C) → Step c (consume floats unmarshal ev c)
  unfolding consume
  consume-Step ev c = elim (Bool-cases (is_empty ev.event_id)) [
    | inl e ↦ rw e (forward-Step ev (record c { ready = true }))
    | inr e ↦ rw e (settle-Step ev (seen (dedup_key ev) c.dedup) (record c { ready = true }))
  ]

  -- Over any stream, every event delivered before its end is either forwarded to the aggregator or
  -- dropped as a duplicate, the aggregator counts, as processed or rejected, exactly the forwarded
  -- ones, and Run returns the error that ended the stream and none after a clean end.
  pub run-counted :
      (ns : List Next) (c : Consumer C)
      → ((run floats unmarshal ns c).1.consumed + (run floats unmarshal ns c).1.deduped
          ≡ delivered_count ns + (c.consumed + c.deduped))
        × (total (run floats unmarshal ns c).1.aggregator + c.consumed
            ≡ total c.aggregator + (run floats unmarshal ns c).1.consumed)
        × ((run floats unmarshal ns c).0 ≡ stream_error ns)
  unfolding run delivered_count stream_error
  run-counted [] c = (omega arith, refl, refl)
  run-counted (event ev ∷ ns) c =
      let (one, two) = consume-Step ev c in
      let (a, b, e) = run-counted ns (consume floats unmarshal ev c) in
      (omega (arith, one, a), omega (arith, two, b), e)
  run-counted (ended ∷ ns) c = (omega arith, refl, refl)
  run-counted (broken x ∷ ns) c = (omega arith, refl, refl)
