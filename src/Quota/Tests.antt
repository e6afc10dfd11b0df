-- ===== src/Quota/Tests.antt =====
-- The quota-risk theorems on concrete headers.
use openllm_metrics.Prelude.{
  String, ℕ, ◌+◌, ◌-◌, ◌*◌, ◌/◌, ◌≡◌, leb, ltb, arith, refl, true, false, ◌&&◌, Option, none, some,
  List, [], ◌∷◌, Text-discrete, text, trim_space, to_lower, if◌then◌else◌,
}
use openllm_metrics.Prelude.Int.{ℤ, pos, pos_part}
use openllm_metrics.Quota.Numbers.{
  Times, natural, positive, parse_digits, parse_int, parse_int64, parse_duration_like,
}
use openllm_metrics.Quota.Parser.{Header, Signal, header, header_from}
use openllm_metrics.Quota.Model.{
  requests, Key, Row, State, Floats, risk_score, find, observe, same_key,
}
use openllm_metrics.Quota.Model.Rolling.{has_pool, pool_state, observe_lem}
use openllm_metrics.Quota.Model.Risk.{IsIeee, risk_score_lem}

abbrev no_times : Times
no_times = record { parse_rfc3339 = λ s. none; parse_duration = λ s. none }

abbrev bedrock_headers : List Header
bedrock_headers = record { key = text "X-Amzn-RateLimit-Limit"; value = text "100" } ∷ []

bedrock_limit_100 :
    parse_int64 (header bedrock_headers (text "x-amzn-ratelimit-limit")) ≡ some (pos 100)
unfolding parse_int64 parse_int positive natural parse_digits header header_from trim_space to_lower
    Text-discrete
bedrock_limit_100 = refl

bedrock_no_retry :
    parse_duration_like no_times (header bedrock_headers (text "retry-after")) (pos 0) ≡ pos 0
unfolding parse_duration_like header header_from trim_space to_lower Text-discrete
bedrock_no_retry = refl

abbrev anthropic_headers : List Header
anthropic_headers =
    record { key = text "anthropic-ratelimit-tokens-remaining"; value = text "60" }
    ∷ record { key = text "anthropic-ratelimit-tokens-limit"; value = text "60" }
    ∷ record { key = text "anthropic-ratelimit-input-tokens-remaining"; value = text "50" }
    ∷ record { key = text "anthropic-ratelimit-input-tokens-limit"; value = text "50" }
    ∷ record { key = text "anthropic-ratelimit-output-tokens-remaining"; value = text "10" }
    ∷ record { key = text "anthropic-ratelimit-output-tokens-limit"; value = text "10" }
    ∷ []

abbrev number : String → Option ℤ
number k = parse_int64 (header anthropic_headers (text k))

anthropic_numbers :
    (number "anthropic-ratelimit-tokens-remaining" ≡ some (pos 60))
    × (number "anthropic-ratelimit-tokens-limit" ≡ some (pos 60))
    × (number "anthropic-ratelimit-input-tokens-remaining" ≡ some (pos 50))
    × (number "anthropic-ratelimit-input-tokens-limit" ≡ some (pos 50))
    × (number "anthropic-ratelimit-output-tokens-remaining" ≡ some (pos 10))
    × (number "anthropic-ratelimit-output-tokens-limit" ≡ some (pos 10))
unfolding parse_int64 parse_int positive natural parse_digits header header_from trim_space to_lower
    Text-discrete
anthropic_numbers = (refl, refl, refl, refl, refl, refl)

abbrev key : Key
key = record { tenant = text "t1"; provider = text "bedrock"; model = text "m"; region = [] }

abbrev sample : Signal
sample = record {
  has_tokens = false;
  tokens_remaining = pos 0;
  tokens_limit = pos 0;
  has_requests = true;
  requests_remaining = pos 20;
  requests_limit = pos 100;
  reset_after = pos 0;
}

abbrev sample_row : Row
sample_row = record { key = key; state = pool_state (pos 5) requests sample }

observe_lem_example : find key requests (observe (pos 5) key sample []) ≡ (
    if same_key key key && has_pool requests sample
    then some (pool_state (pos 5) requests sample)
    else find key requests [])
observe_lem_example = observe_lem (pos 5) key sample [] key requests

-- Numbers of fifths, rounded down.
abbrev fifths_of : ℕ → ℕ → ℕ
fifths_of a b =
    (if leb b (5 * a) then 1 else 0)
    + (if leb (2 * b) (5 * a) then 1 else 0)
    + (if leb (3 * b) (5 * a) then 1 else 0)
    + (if leb (4 * b) (5 * a) then 1 else 0)
    + (if leb (5 * b) (5 * a) then 1 else 0)

abbrev fifths : Floats ℕ
fifths = record {
  zero = 0;
  one = 5;
  scale = 5;
  of_int64 = pos_part;
  sub = λ x y. x - y;
  mul = λ x y. x * 5 / 4;
  div = fifths_of;
  less = ltb;
  is_nan = λ x. false;
  is_inf = λ x. false;
}

fifths-IsIeee : IsIeee fifths leb
fifths-IsIeee = record {
  zero_zero = refl;
  zero_one = refl;
  one_one = refl;
  trans = λ x y z a b. ground arith;
  under_zero = λ x a. ground arith;
  from_zero = λ x y a b. ground arith;
  over_one = λ x a. ground arith;
  to_one = λ x y a b. ground arith;
  divided = λ a b limit h l. ground arith;
  subtracted = λ x y a. ground arith;
  multiplied = λ x y a. ground arith;
  zero_multiplied = refl;
  finite = λ x a b. (refl, refl);
}

abbrev drained : State
drained = record (pool_state (pos 5) requests sample) { remaining = pos 10 }

risk_score_lem_example :
    (x y : ℕ) × (risk_score fifths (pool_state (pos 5) requests sample) ≡ some x)
    × (risk_score fifths drained ≡ some y)
    × (leb 0 x ≡ true)
    × (leb x y ≡ true)
    × (leb y 5 ≡ true)
unfolding pool_state
risk_score_lem_example =
    risk_score_lem fifths leb fifths-IsIeee (pool_state (pos 5) requests sample) drained refl refl
      (omega arith)
