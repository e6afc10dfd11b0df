-- ===== src/Quota/Parser.antt =====
-- The five header parsers of apps/worker/quota-risk/internal/parser. Headers are the map's entries
-- in the order of its iteration.
use openllm_metrics.Prelude.{
  Bool, true, false, ◌&&◌, ◌||◌, not, Option, none, some, List, [], ◌∷◌, ◌++◌, Text, Text-discrete,
  text, to_lower, ite, if◌then◌else◌,
}
use openllm_metrics.Prelude.Int.{wrap, ℤ, pos, ltb_ℤ, ◌+ℤ◌, ◌*ℤ◌}
use openllm_metrics.Quota.Numbers.{parse_int64, Times, parse_duration_like}

pub record Header : Type 0 where
  pub key : Text
  pub value : Text

pub record Signal : Type 0 where
  pub has_tokens : Bool
  pub tokens_remaining : ℤ
  pub tokens_limit : ℤ
  pub has_requests : Bool
  pub requests_remaining : ℤ
  pub requests_limit : ℤ
  pub reset_after : ℤ

-- `lower`, and the lookup of a key in what it returns.
unfoldable pub header_from : Text → List Header → Text → Text
header_from v [] k = v
header_from v (h ∷ hs) k = header_from (ite (Text-discrete (to_lower h.key) k) h.value v) hs k

unfoldable pub header : List Header → Text → Text
header hs k = header_from [] hs k

is_zero : ℤ → Bool
is_zero v = not (ltb_ℤ v (pos 0)) && not (ltb_ℤ (pos 0) v)

unfoldable pub pick_reset : ℤ → ℤ → ℤ
unfolding is_zero
pick_reset a b = if is_zero a then b else if is_zero b then a else if ltb_ℤ b a then a else b

has : Option ℤ → Bool
has none = false
has (some v) = true

or_zero : Option ℤ → ℤ
or_zero none = pos 0
or_zero (some v) = v

-- A signal of two pools, each with a remaining and a limit that may be absent.
unfoldable pub signal : Option ℤ → Option ℤ → Option ℤ → Option ℤ → ℤ → Signal
unfolding has or_zero
signal tokens_remaining tokens_limit requests_remaining requests_limit reset = record {
  has_tokens = has tokens_remaining || has tokens_limit;
  tokens_remaining = or_zero tokens_remaining;
  tokens_limit = or_zero tokens_limit;
  has_requests = has requests_remaining || has requests_limit;
  requests_remaining = or_zero requests_remaining;
  requests_limit = or_zero requests_limit;
  reset_after = reset;
}

-- The running view of Anthropic's token pools.
pub record TokenPools : Type 0 where
  pub min_remaining : Option ℤ
  pub limit : ℤ
  pub seen : Bool

unfoldable pub smaller : Option ℤ → ℤ → ℤ
smaller none v = v
smaller (some m) v = if ltb_ℤ v m then v else m

unfoldable pub with_remaining : Option ℤ → TokenPools → TokenPools
with_remaining none p = p
with_remaining (some v) p = record p {
  seen = true;
  min_remaining = some (smaller p.min_remaining v);
}

unfoldable pub with_limit : Option ℤ → TokenPools → TokenPools
with_limit none p = p
with_limit (some v) p = record p { seen = true; limit = wrap (p.limit +ℤ v) }

module _ (h : List Header) where
  number : Text → Option ℤ
  number k = parse_int64 (header h k)

  unfoldable pub token_pool : Text → TokenPools → TokenPools
  unfolding number
  token_pool suffix p =
      with_limit (number (text "anthropic-ratelimit-" ++ suffix ++ text "-limit"))
        (with_remaining (number (text "anthropic-ratelimit-" ++ suffix ++ text "-remaining")) p)

  -- The sum of the remainings is read only where there is none, and is 0 then.
  unfoldable pub token_pools : TokenPools
  token_pools = token_pool (text "output-tokens") (
      token_pool (text "input-tokens")
        (token_pool (text "tokens") (record { min_remaining = none; limit = pos 0; seen = false })))

  module _ (times : Times) (now : ℤ) where
    duration : Text → ℤ
    duration k = parse_duration_like times (header h k) now

    unfoldable pub parse_openai : Signal
    unfolding number duration
    parse_openai =
        signal (number (text "x-ratelimit-remaining-tokens"))
          (number (text "x-ratelimit-limit-tokens"))
          (number (text "x-ratelimit-remaining-requests"))
          (number (text "x-ratelimit-limit-requests"))
          (pick_reset (duration (text "x-ratelimit-reset-requests"))
            (duration (text "x-ratelimit-reset-tokens")))

    unfoldable pub parse_anthropic : Signal
    unfolding number duration or_zero
    parse_anthropic =
        let reset =
          pick_reset (duration (text "anthropic-ratelimit-requests-reset"))
            (duration (text "anthropic-ratelimit-tokens-reset")) in
        let requests =
          signal none none (number (text "anthropic-ratelimit-requests-remaining"))
            (number (text "anthropic-ratelimit-requests-limit")) reset in
        if token_pools.seen
        then record requests {
          has_tokens = true;
          tokens_remaining = or_zero token_pools.min_remaining;
          tokens_limit = token_pools.limit;
        }
        else requests

    unfoldable pub parse_azure_openai : Signal
    unfolding number duration
    parse_azure_openai =
        let retry : ℤ = elim (number (text "retry-after-ms")) [
          | none ↦ duration (text "retry-after")
          | some v ↦
              if ltb_ℤ v (pos 0) then duration (text "retry-after") else wrap (v *ℤ pos 1000000)
        ] in
        signal (number (text "x-ratelimit-remaining-tokens"))
          (number (text "x-ratelimit-limit-tokens"))
          (number (text "x-ratelimit-remaining-requests"))
          (number (text "x-ratelimit-limit-requests")) retry

    unfoldable pub parse_bedrock : Signal
    unfolding number duration
    parse_bedrock =
        let retry = duration (text "retry-after") in
        let limited = signal none none none (number (text "x-amzn-ratelimit-limit")) retry in
        if ltb_ℤ (pos 0) retry
        then record limited { has_requests = true; requests_remaining = pos 0 }
        else limited

    unfoldable pub parse_gemini : Signal
    unfolding number duration is_zero
    parse_gemini =
        let quota_reset = duration (text "x-goog-quota-reset") in
        let retry = duration (text "retry-after") in
        let found =
          signal none none (number (text "x-goog-quota-remaining"))
            (number (text "x-goog-quota-limit")) in
        if is_zero quota_reset
        then (if ltb_ℤ (pos 0) retry && not (found retry).has_requests
            then record (found retry) {
              has_requests = true;
              requests_remaining = pos 0;
              requests_limit = pos 0;
            }
            else found retry)
        else found quota_reset
