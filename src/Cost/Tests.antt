-- ===== src/Cost/Tests.antt =====
-- The cost mapper at concrete files and events.
use mathlib.Core.List.{Memᴰ}
use mathlib.Core.List.Memᴰ as In
use openllm_metrics.Prelude.{
  ℕ, ◌≡◌, refl, ap, sym, not, false, Option, none, some, List, [], ◌∷◌, Text, Text-discrete, text,
  get, put, is_in, sort_strings, insert_string, text_leb, trim_space, to_lower, lower_byte,
  trim_left, is_space, ℕ_discrete,
}
use openllm_metrics.Prelude.Int.{ℤ, pos, ltb_ℤ, wrap, ◌+ℤ◌, ◌-ℤ◌, ◌*ℤ◌}
use openllm_metrics.Metrics.Projection.{get_str, str_of}
use openllm_metrics.Gateway.Observer.Members.{lookup_source}
use openllm_metrics.Gateway.Observer.Events as Events
use openllm_metrics.Cost.{Floats, canonical}
use openllm_metrics.Cost.Catalog.{
  ModelEntry, ProviderFile, rate_of, load_dir, lookup, add_files, add_file, add_models, key_for,
  new, base, join, up_to_slash, version_part,
}
use openllm_metrics.Cost.Catalog.Loaded.{lookup-load_dir}
use openllm_metrics.Cost.Mapper.{
  RuntimeEvent, estimate, cost_of, derive_event_id, event_of, normalize_source, per_token,
  to_minor_units,
}
use openllm_metrics.Cost.Drift.{
  DriftRow, key_string, accumulate, join_bucket, new_bucket, record_estimate,
}
use openllm_metrics.Cost.Worker.Run.{Step, deliver, reload, handle, step, run}
use openllm_metrics.Cost.Worker.{
  State, ReconciledEvent, start, parse_time, handle_runtime, handle_reconciled, bump_skipped,
  count_runtime, handle_decoded, is_runtime, is_zero, price, after_emit, emit, estimate_of,
  hour_key, keep_estimate,
}
use openllm_metrics.Cost.Worker.Owed.{owed, owed_from, add_owed, counted}
use openllm_metrics.Cost.Worker.Ledger.{period_key, reconciled-owed}
use openllm_metrics.Cost.Worker.Priced.{handle_runtime-marshal}

abbrev integers : Floats ℤ
integers = record {
  of_int64 = λ n. n;
  to_int64 = λ n. n;
  add = λ m n. m +ℤ n;
  mul = λ m n. m *ℤ n;
  div = λ m n. m;
  round = λ n. n;
  at_most = λ m n. not (ltb_ℤ n m);
  is_nan = λ n. false;
  is_inf = λ n. false;
}

abbrev gpt : ModelEntry ℤ
gpt = record { model = text "GPT-4"; input_per_1k = pos 2; output_per_1k = pos 3 }

abbrev prices : ProviderFile ℤ
prices = record {
  provider = text "OpenAI";
  currency = [];
  unit = text "per_1k_tokens";
  approximate = false;
  effective_from = text "2026-01-01";
  models = gpt ∷ [];
}

abbrev read : Text → Option Text
read path = some []

abbrev unmarshal : Text → Option (ProviderFile ℤ)
unmarshal raw = some prices

lookup-load_dir_example :
    lookup
      (text " openai")
      (text "gpt-4")
      (load_dir read unmarshal (some (text "openai.yaml" ∷ [])) new).0
    ≡ some (rate_of prices gpt)
unfolding load_dir add_files add_file add_models sort_strings insert_string key_for canonical
    trim_space to_lower lower_byte is_in get put Text-discrete
lookup-load_dir_example =
    lookup-load_dir read unmarshal (text "openai.yaml") [] prices gpt (text "openai.yaml" ∷ []) new
      (text " openai") (text "gpt-4") refl refl refl refl (In.head refl) refl refl

abbrev used : RuntimeEvent
used = record {
  event_id = text "e";
  source = text "sdk";
  provider = text "openai";
  model = text "gpt-4";
  tenant = text "acme";
  team = [];
  app = [];
  env = [];
  project = [];
  region = [];
  input_tokens = pos 4;
  output_tokens = pos 5;
  recorded_at = text "t";
}

abbrev billed : ReconciledEvent
billed = record {
  tenant = text "acme";
  provider = text "OpenAI";
  model = text "gpt-4";
  cost_minor = pos 4000;
  period_start = text "t";
  period_end = text "u";
}

abbrev unix : ℕ → Text
unix t = text "0"

abbrev parse : Text → Option ℕ
parse s = some 0

abbrev hex : Text → Text
hex s = text "00"

abbrev steps : List (Step ℤ)
steps =
    reload (some (text "openai.yaml" ∷ [])) read unmarshal
    ∷ deliver (text "runtime") [] (text "now") false
    ∷ deliver (text "runtime") [] (text "now") false
    ∷ []

abbrev after_steps : State ℤ
after_steps =
    run integers unix parse hex (λ v. some used) (λ v. some billed) (text "runtime")
      (text "reconciled") steps (start new)

reconciled-owed_example :
    (row : DriftRow ℤ) × Memᴰ row
      (handle_reconciled integers unix parse hex false (some billed) after_steps).0.rows
    × (row.correlation_key ≡ key_string unix (period_key billed 0 0))
    × (row.drift_minor
        ≡ wrap (
            pos 4000
            -ℤ owed unix parse (key_string unix (period_key billed 0 0)) after_steps.emitted))
unfolding parse_time
reconciled-owed_example =
    reconciled-owed unix parse integers hex (λ v. some used) (λ v. some billed) (text "runtime")
      (text "reconciled") steps new billed 0 0 refl refl refl

abbrev gateway_event : Events.RuntimeEvent
gateway_event = record {
  event_id = text "e";
  request_id_hash = [];
  provider = text "openai";
  model = text "gpt-4";
  operation = text "chat";
  tenant = text "acme";
  team = text "core";
  app = [];
  env = text "prod";
  project = [];
  status = text "ok";
  status_code = pos 200;
  error_type = [];
  latency_us = pos 7;
  tokens = none;
  retry_count = pos 0;
  is_streaming = false;
  recorded_at = text "t";
  trace_id = [];
  span_id = [];
}

abbrev arrived : RuntimeEvent
arrived = record used { source = [] }

handle_runtime-marshal_example :
    handle_runtime integers unix parse hex false (text "now") (some arrived) after_steps
    ≡ (bump_skipped (count_runtime after_steps), none)
unfolding get_str str_of
handle_runtime-marshal_example =
    handle_runtime-marshal integers unix parse hex (λ n. text "1") gateway_event false (text "now")
      arrived after_steps (sym (ap str_of (lookup_source (λ n. text "1") gateway_event)))

-- Two events of 23 units each, which is 2300 in cents.
two_events_sum :
    owed unix parse (key_string unix (period_key billed 0 0)) after_steps.emitted ≡ pos 4600
unfolding owed owed_from add_owed counted run start new step handle Text-discrete ℕ_discrete
    handle_runtime handle_decoded is_runtime is_zero price estimate lookup get put count_runtime
    load_dir add_files add_file add_models base join key_for rate_of up_to_slash version_part
    accumulate join_bucket key_string new_bucket record_estimate cost_of derive_event_id event_of
    normalize_source per_token to_minor_units after_emit emit estimate_of hour_key keep_estimate
    parse_time canonical is_space lower_byte to_lower trim_left trim_space wrap ◌+ℤ◌ ◌*ℤ◌
    insert_string sort_strings text_leb
two_events_sum = refl
