-- ===== src/Cost/Worker/Priced.antt =====
-- The cost mapper on the gateway's events (apps/worker/cost-mapper/cmd/cost-mapper/main.go and
-- apps/gateway/internal/busproducer/busproducer.go).
use openllm_metrics.Prelude.{
  ℕ, ◌≡◌, refl, ap, ◌∙◌, Bool, false, Option, none, some, Text, Text-discrete, text,
}
use openllm_metrics.Prelude.Int.{ℤ}
use openllm_metrics.Metrics.Projection.{get_str, str_of}
use openllm_metrics.Gateway.Observer.Events.{marshal}
use openllm_metrics.Gateway.Observer.Events as Events
use openllm_metrics.Gateway.Observer.Members.{lookup_source}
use openllm_metrics.Cost.{Floats}
use openllm_metrics.Cost.Mapper.{RuntimeEvent}
use openllm_metrics.Cost.Worker.{
  State, is_runtime, handle_runtime, handle_decoded, bump_skipped, count_runtime,
}

module _ {C : Type 0} (floats : Floats C) (format_unix : ℕ → Text) (parse_rfc3339 : Text → Option ℕ)
    (sha256_hex : Text → Text) where
  -- An event without a source is skipped.
  skipped_without_source :
      (fails : Bool) (now : Text) (ev : RuntimeEvent) (s : State C)
      → is_runtime ev.source ≡ false
      → handle_runtime floats format_unix parse_rfc3339 sha256_hex fails now (some ev) s
        ≡ (bump_skipped (count_runtime s), none)
  unfolding handle_runtime handle_decoded
  skipped_without_source fails now ev s h = rw h refl

  -- Whatever the gateway's runtime event holds, if its source is decoded from the JSON that the
  -- gateway writes, the cost mapper skips it: it counts it as consumed and as skipped, publishes no
  -- estimate, adds to no bucket and reports no error.
  pub handle_runtime-marshal :
      (shown : ℤ → Text) (sent : Events.RuntimeEvent) (fails : Bool) (now : Text)
      (ev : RuntimeEvent) (s : State C)
      → ev.source ≡ get_str (marshal shown sent) (text "source")
      → handle_runtime floats format_unix parse_rfc3339 sha256_hex fails now (some ev) s
        ≡ (bump_skipped (count_runtime s), none)
  unfolding get_str str_of is_runtime Text-discrete
  handle_runtime-marshal shown sent fails now ev s h =
      skipped_without_source fails now ev s
        (ap is_runtime (h ∙ ap str_of (lookup_source shown sent)))
