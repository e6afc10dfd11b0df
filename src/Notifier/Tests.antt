-- ===== src/Notifier/Tests.antt =====
-- The notifier's theorems on a tenant with two rules and two channels.
use mathlib.Core.List.{Memᴰ}
use openllm_metrics.Prelude.{
  ℕ, ◌≤◌, ◌≡◌, refl, true, false, Option, none, some, [], ◌∷◌, Text, Text-discrete, text, ltb,
  length, if◌then◌else◌, Bool-cases, inl, inr, ◌↔◌, ◌⊎◌,
}
use openllm_metrics.Notifier.Router.{
  Channel, Rule, Alert, Match, Dispatch, find_channel, targets, in_set, rule_matches, route,
}
use openllm_metrics.Notifier.Router.Targets.{IsRouted, route_iff}
use openllm_metrics.Notifier.Ledger.Keys.{delivered}
use openllm_metrics.Notifier.Fanout.{
  Reply, sent, transient, World, new_world, RetryParams, Env, dispatch, call, fan_out, run,
}
use openllm_metrics.Notifier.Fanout.Steps.{is_terminal}
use openllm_metrics.Notifier.Fanout.Going.{times_sent}
use openllm_metrics.Notifier.Fanout.Once.{sent_once, new_world-IsOnce}
use openllm_metrics.Notifier.Fanout.Outcome.{settled, fan_out_settles, fan_out_persists}

abbrev alert : Alert
alert = record {
  id = text "a1";
  tenant_id = text "t1";
  severity = text "high";
  source = text "slo";
}

abbrev hook : Channel
hook = record { id = text "c1"; kind = text "webhook"; config = [] }

abbrev mail : Channel
mail = record { id = text "c2"; kind = text "smtp"; config = [] }

abbrev everything : Rule
everything = record {
  id = text "r1";
  match_document = [];
  channel_ids = text "c1" ∷ text "gone" ∷ [];
}

abbrev only_quota : Rule
only_quota = record {
  id = text "r2";
  match_document = text "quota";
  channel_ids = text "c1" ∷ text "c2" ∷ [];
}

abbrev decode_match : Text → Option Match
decode_match doc = some (record { severity = []; source = doc ∷ [] })

-- The first four outside calls come too early for the webhook.
abbrev early : Text → Text → ℕ → Reply
early id body clock = if ltb clock 4 then transient (text "busy") else sent

abbrev env : Env
env = record {
  decode_alert = λ body. some alert;
  decode_match = decode_match;
  rules_and_channels = λ tenant clock. some (everything ∷ only_quota ∷ [], hook ∷ mail ∷ []);
  webhook = λ config. some early;
  smtp = λ config. none;
  claim_fails = λ clock. false;
  mark_fails = λ clock. false;
  cancelled = λ clock. false;
}

abbrev params : RetryParams
params = record { max_attempts = 5; initial_backoff = 500; max_backoff = 30000 }

abbrev first_target : Dispatch
first_target = record { rule = everything; channel = hook }

route_iff_example :
    Memᴰ first_target (route decode_match alert (everything ∷ only_quota ∷ []) (hook ∷ mail ∷ []))
    ↔ IsRouted decode_match alert (everything ∷ only_quota ∷ []) (hook ∷ mail ∷ []) first_target
route_iff_example =
    route_iff decode_match alert (hook ∷ mail ∷ []) (everything ∷ only_quota ∷ []) first_target

routed :
    route decode_match alert (everything ∷ only_quota ∷ []) (hook ∷ mail ∷ []) ≡ first_target ∷ []
unfolding route rule_matches in_set targets find_channel Text-discrete
routed = refl

sent_once_example :
    times_sent (text "a1") (text "c1") (run env params ([] ∷ [] ∷ []) new_world).trace ≤ (
      if delivered (text "a1") (text "c1") (run env params ([] ∷ [] ∷ []) new_world).table
      then 1
      else 0)
sent_once_example = sent_once env params (λ t. refl) ([] ∷ [] ∷ []) (text "a1") (text "c1")

fan_out_settles_example :
    (settled (text "a1") (text "c1") (fan_out env params alert [] first_target new_world).table
      ≡ true)
    × (length (fan_out env params alert [] first_target new_world).trace ≤ 5)
fan_out_settles_example =
    fan_out_settles env params (λ t. refl) alert [] first_target new_world new_world-IsOnce.table
      refl

never_terminal : (w : World) → is_terminal (dispatch env params hook (text "a1") [] w).0 ≡ false
unfolding dispatch call is_terminal Text-discrete
never_terminal w = elim (Bool-cases (ltb w.clock 4)) [ inl e ↦ rw e refl | inr e ↦ rw e refl ]

fan_out_persists_example :
    (delivered (text "a1") (text "c1") (fan_out env params alert [] first_target new_world).table
      ≡ true)
    ⊎ (length (fan_out env params alert [] first_target new_world).trace ≡ 5)
fan_out_persists_example =
    fan_out_persists env params (λ t. refl) (λ t. refl) alert [] first_target new_world
      never_terminal new_world-IsOnce.table refl
