-- ===== src/Cost/Worker/Run.antt =====
-- The worker's run: the handler, the reload loop and their steps, of
-- apps/worker/cost-mapper/cmd/cost-mapper/main.go.
use openllm_metrics.Prelude.{ℕ, Bool, Option, some, List, [], ◌∷◌, Text, Text-discrete, ite}
use openllm_metrics.Cost.{Floats}
use openllm_metrics.Cost.Catalog.{ProviderFile, load_dir}
use openllm_metrics.Cost.Mapper.{RuntimeEvent}
use openllm_metrics.Cost.Worker.{
  ReconciledEvent, State, HandlerError, unexpected_topic, handle_runtime, handle_reconciled,
}

-- A record of the bus, with what its handling meets: the present time and whether the bus or the
-- database fails; or a tick of the catalog's reload loop, with what the directory holds then.
pub data Step (C : Type 0) : Type 0 where
  deliver : Text → Text → Text → Bool → Step C
  reload : Option (List Text) → (Text → Option Text) → (Text → Option (ProviderFile C)) → Step C

module _ {C : Type 0} (floats : Floats C) (format_unix : ℕ → Text) (parse_rfc3339 : Text → Option ℕ)
    (sha256_hex : Text → Text) (decode_runtime : Text → Option RuntimeEvent)
    (decode_reconciled : Text → Option ReconciledEvent)
    (runtime_topic reconciled_topic : Text) where
  -- The handler that run gives the consumer.
  unfoldable pub handle : Text → Text → Text → Bool → State C → State C × Option HandlerError
  handle topic value now fails s =
      ite (Text-discrete topic runtime_topic)
        (handle_runtime floats format_unix parse_rfc3339 sha256_hex fails now (decode_runtime value)
          s)
        (ite (Text-discrete topic reconciled_topic)
          (handle_reconciled floats format_unix parse_rfc3339 sha256_hex fails
            (decode_reconciled value) s)
          (s, some unexpected_topic))

  unfoldable pub step : Step C → State C → State C
  step (deliver topic value now fails) s = (handle topic value now fails s).0
  step (reload files read unmarshal) s = record s {
    catalog = (load_dir read unmarshal files s.catalog).0;
  }

  unfoldable pub run : List (Step C) → State C → State C
  run [] s = s
  run (x ∷ xs) s = run xs (step x s)
