-- ===== src/Metrics/Consumer/Replay.antt =====
-- The consumer counts each event of a replayed stream once
-- (apps/api/metrics-endpoint/internal/consumer/consumer.go).
use openllm_metrics.Prelude.{
  ℕ, zero, suc, ◌≤◌, ◌≡◌, refl, ap, ◌∙◌, Bool, true, false, Option, List, [], ◌∷◌, ◌++◌, Text,
  is_empty, if◌then◌else◌, arith, map, length, replicate,
}
use openllm_metrics.Prelude.Int.{ℤ}
use openllm_metrics.Audit.Json.{Fields}
use openllm_metrics.Dedup.{Lru, new_lru, seen}
use openllm_metrics.Dedup as Dedup
use openllm_metrics.Dedup.Window.{spec, run-spec}
use openllm_metrics.Dedup.Replay.{replay_silent, subset}
use openllm_metrics.Dedup.Invariant.{new_lru-IsValid}
use openllm_metrics.Metrics.{Floats}
use openllm_metrics.Metrics.Aggregator.{State, apply, new_state}
use openllm_metrics.Metrics.Verdict.{Event, apply_all}
use openllm_metrics.Metrics.Consumer.{
  BusEvent, Consumer, Next, event, ended, consume, dedup_key, forward, new_consumer, run,
  settle_seen,
}

unfoldable pub delivered : List BusEvent → List Next
delivered [] = ended ∷ []
delivered (ev ∷ evs) = event ev ∷ delivered evs

-- The events whose answer is true.
unfoldable pub kept : List Bool → List BusEvent → List Event
kept [] evs = []
kept (b ∷ bs) [] = []
kept (b ∷ bs) (ev ∷ evs) =
    let rest = kept bs evs in
    if b then record { topic = ev.topic; payload = ev.payload } ∷ rest else rest

unfoldable pub all_identified : List BusEvent → Bool
all_identified [] = true
all_identified (ev ∷ evs) = if is_empty ev.event_id then false else all_identified evs

module _ {C : Type 0} (floats : Floats C) (unmarshal : Text → Option Fields) where
  consume_seen :
      (ev : BusEvent) (c : Consumer C)
      → is_empty ev.event_id ≡ false
      → consume floats unmarshal ev c
        ≡ settle_seen floats unmarshal ev (seen (dedup_key ev) c.dedup) (record c { ready = true })
  unfolding consume
  consume_seen ev c h = rw h refl

  settle_parts :
      (ev : BusEvent) (p : Bool × Lru) (c : Consumer C)
      → ((settle_seen floats unmarshal ev p c).aggregator
          ≡ (if p.0 then apply floats unmarshal ev.topic ev.payload c.aggregator else c.aggregator))
        × ((settle_seen floats unmarshal ev p c).dedup ≡ p.1)
  unfolding settle_seen forward
  settle_parts ev (true, d) c = (refl, refl)
  settle_parts ev (false, d) c = (refl, refl)

  consume_parts :
      (ev : BusEvent) (c : Consumer C)
      → is_empty ev.event_id ≡ false
      → ((consume floats unmarshal ev c).aggregator ≡ (
          if (seen (dedup_key ev) c.dedup).0
          then apply floats unmarshal ev.topic ev.payload c.aggregator
          else c.aggregator))
        × ((consume floats unmarshal ev c).dedup ≡ (seen (dedup_key ev) c.dedup).1)
  consume_parts ev c h =
      rw (consume_seen ev c h)
        (settle_parts ev (seen (dedup_key ev) c.dedup) (record c { ready = true }))

  -- What the consumer holds after a clean stream.
  abbrev pub after : List BusEvent → Consumer C → Consumer C
  after evs c = (run floats unmarshal (delivered evs) c).1

  kept_apply :
      (b : Bool) (bs : List Bool) (ev : BusEvent) (evs : List BusEvent) (s : State C)
      → apply_all floats unmarshal
          (kept bs evs)
          (if b then apply floats unmarshal ev.topic ev.payload s else s)
        ≡ apply_all floats unmarshal (kept (b ∷ bs) (ev ∷ evs)) s
  unfolding kept apply_all
  kept_apply true bs ev evs s = refl
  kept_apply false bs ev evs s = refl

  after_answers :
      (evs : List BusEvent) (c : Consumer C)
      → all_identified evs ≡ true
      → ((after evs c).aggregator
          ≡ apply_all floats unmarshal
              (kept (Dedup.run (map dedup_key evs) c.dedup).0 evs)
              c.aggregator)
        × ((after evs c).dedup ≡ (Dedup.run (map dedup_key evs) c.dedup).1)
  unfolding run delivered all_identified kept apply_all Dedup.run
  after_answers [] c h = (refl, refl)
  after_answers (ev ∷ evs) c h =
      let named : is_empty ev.event_id ≡ false = ground arith in
      let (agg, dedup) = consume_parts ev c named in
      let (rest, last) = after_answers evs (consume floats unmarshal ev c) (ground arith) in
      let answers : List Bool = (Dedup.run (map dedup_key evs) (seen (dedup_key ev) c.dedup).1).0 in
      (
        rest
            ∙ (λ i.
                apply_all floats unmarshal (kept (Dedup.run (map dedup_key evs) (dedup i)).0 evs)
                  (agg i))
            ∙ kept_apply (seen (dedup_key ev) c.dedup).0 answers ev evs c.aggregator,
        last ∙ ap (λ d. (Dedup.run (map dedup_key evs) d).1) dedup,
      )

  -- A fresh consumer leaves its aggregator as if it had been given, in order and once each, the events
  -- whose key is not among the last `capacity` distinct keys before them, if every event has an id.
  pub run-fresh :
      (capacity : ℤ) (evs : List BusEvent)
      → all_identified evs ≡ true
      → (after evs (new_consumer capacity)).aggregator
        ≡ apply_all floats unmarshal
            (kept (spec (new_lru capacity).capacity [] (map dedup_key evs)) evs)
            new_state
  unfolding new_consumer
  run-fresh capacity evs h =
      (after_answers evs (new_consumer capacity) h).0
      ∙ ap (λ bs. apply_all floats unmarshal (kept bs evs) new_state)
          (run-spec capacity (map dedup_key evs))

  after_append :
      (evs js : List BusEvent) (c : Consumer C) → after (evs ++ js) c ≡ after js (after evs c)
  unfolding run delivered
  after_append [] js c = refl
  after_append (ev ∷ evs) js c = after_append evs js (consume floats unmarshal ev c)

  kept_none : (n : ℕ) (js : List BusEvent) → kept (replicate n false) js ≡ []
  unfolding kept
  kept_none zero js = refl
  kept_none (suc n) [] = refl
  kept_none (suc n) (j ∷ js) = kept_none n js

  -- A stream that repeats events of a batch no longer than the cache, in any order and any number of
  -- times, leaves the aggregator as the batch left it, if every event has an id.
  pub replay_once :
      (capacity : ℤ) (evs js : List BusEvent)
      → all_identified evs ≡ true
      → all_identified js ≡ true
      → length (map dedup_key evs) ≤ (new_lru capacity).capacity
      → subset (map dedup_key js) (map dedup_key evs) ≡ true
      → (after (evs ++ js) (new_consumer capacity)).aggregator
        ≡ (after evs (new_consumer capacity)).aggregator
  unfolding new_consumer apply_all
  replay_once capacity evs js h k room again =
      let c : Consumer C = after evs (new_consumer capacity) in
      let (agg, dedup) = after_answers evs (new_consumer capacity) h in
      let silent =
        replay_silent (map dedup_key evs) (map dedup_key js) (new_lru capacity)
          (new_lru-IsValid capacity) room again in
      ap (λ x. x.aggregator) (after_append evs js (new_consumer capacity))
      ∙ (after_answers js c k).0
      ∙ ap
          (λ d.
            apply_all floats unmarshal (kept (Dedup.run (map dedup_key js) d).0 js) c.aggregator)
          dedup
      ∙ ap (λ bs. apply_all floats unmarshal (kept bs js) c.aggregator) silent
      ∙ ap (λ es. apply_all floats unmarshal es c.aggregator)
          (kept_none (length (map dedup_key js)) js)
