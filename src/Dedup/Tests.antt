-- ===== src/Dedup/Tests.antt =====
-- The dedup theorems on concrete keys.
use openllm_metrics.Prelude.{
  ℕ_discrete, ◌≡◌, refl, true, false, List, [], ◌∷◌, Text, Text-discrete, text, arith,
}
use openllm_metrics.Prelude.Int.{pos}
use openllm_metrics.Dedup.{new_lru, evict, seen, run}
use openllm_metrics.Dedup.Lists.{mem, delete, back, drop_last}
use openllm_metrics.Dedup.Invariant.{new_lru-IsValid}
use openllm_metrics.Dedup.Window.{spec, run-spec}
use openllm_metrics.Dedup.Replay.{subset, replay_silent}
use openllm_metrics.Dedup.Key.{Key, free, IsSeparated}

abbrev a : Text
a = text "a"

abbrev b : Text
b = text "b"

abbrev c : Text
c = text "c"

-- Two places: a third key pushes the least recently used one out.
abbrev keys : List Text
keys = a ∷ b ∷ a ∷ c ∷ b ∷ []

run-spec_example : (run keys (new_lru (pos 2))).0 ≡ spec (new_lru (pos 2)).capacity [] keys
run-spec_example = run-spec (pos 2) keys

run-keys : (run keys (new_lru (pos 2))).0 ≡ true ∷ true ∷ false ∷ true ∷ true ∷ []
unfolding run seen evict new_lru mem delete back drop_last Text-discrete
run-keys = refl

replay_silent_example :
    (run (b ∷ a ∷ b ∷ []) (run (a ∷ b ∷ []) (new_lru (pos 2))).1).0 ≡ false ∷ false ∷ false ∷ []
unfolding new_lru subset mem Text-discrete
replay_silent_example =
    replay_silent (a ∷ b ∷ []) (b ∷ a ∷ b ∷ []) (new_lru (pos 2)) (new_lru-IsValid (pos 2))
      (omega arith) refl

abbrev window : Key
window = record {
  provider = text "openai";
  window_start = text "2026-01-01T00:00:00Z";
  window_end = text "2026-01-01T01:00:00Z";
  model = text "gpt-4o";
  app = text "chat";
  team = text "core";
  project = text "p|1";
}

window-IsSeparated : IsSeparated window
unfolding free ℕ_discrete
window-IsSeparated = record {
  provider_free = refl;
  start_free = refl;
  end_free = refl;
  model_free = refl;
  app_free = refl;
  team_free = refl;
}
