-- ===== src/Metrics/Config.antt =====
-- The configuration: apps/api/metrics-endpoint/internal/config/config.go. Decoding YAML is the
-- parameter `decode`; an invalid configuration is the constructor of the rule it breaks.
use openllm_metrics.Prelude.{
  ◌≡◌, ◌↔◌, refl, ap, sym, ◌∙◌, Bool, true, false, Option, none, some, List, [], ◌∷◌, Text, text,
  is_empty, if◌then◌else◌, arith,
}
use openllm_metrics.Prelude.Int.{ℤ, pos, negsuc, ltb_ℤ}
use openllm_metrics.Contracts.{topic_usage_normalized, topic_runtime_normalized}

pub record Config : Type 0 where
  pub port : ℤ
  pub brokers : List Text
  pub client_id : Text
  pub group : Text
  pub topics : List Text
  pub window_hours : ℤ

pub data ConfigError : Type 0 where
  parse_yaml : ConfigError
  bad_port : ConfigError
  no_brokers : ConfigError
  no_topics : ConfigError
  bad_window : ConfigError

pub data Result : Type 0 where
  loaded : Config → Result
  failed : ConfigError → Result

unfoldable pub is_nought : ℤ → Bool
is_nought (pos n) = ltb_ℤ (pos n) (pos 1)
is_nought (negsuc n) = false

unfoldable pub or_default : Text → Text → Text
or_default s d = if is_empty s then d else s

unfoldable pub apply_defaults : Config → Config
apply_defaults c = record {
  port = if is_nought c.port then pos 9090 else c.port;
  brokers = c.brokers;
  client_id = or_default c.client_id (text "openllm-metrics-endpoint");
  group = or_default c.group (text "openllm-metrics-endpoint");
  topics =
      if is_empty c.topics
      then topic_usage_normalized ∷ topic_runtime_normalized ∷ []
      else c.topics;
  window_hours = if is_nought c.window_hours then pos 168 else c.window_hours;
}

-- The first rule that a configuration breaks.
unfoldable pub validate : Config → Option ConfigError
validate c =
    if ltb_ℤ c.port (pos 1)
    then some bad_port
    else if ltb_ℤ (pos 65535) c.port
    then some bad_port
    else if is_empty c.brokers
    then some no_brokers
    else if is_empty c.topics
    then some no_topics
    else if ltb_ℤ c.window_hours (pos 0)
    then some bad_window
    else none

unfoldable pub result_of : Config → Option ConfigError → Result
result_of c none = loaded c
result_of c (some e) = failed e

unfoldable pub parse_decoded : Option Config → Result
unfolding result_of
parse_decoded none = failed parse_yaml
parse_decoded (some c) = result_of (apply_defaults c) (validate (apply_defaults c))

-- Parse
unfoldable pub parse : (Text → Option Config) → Text → Result
unfolding parse_decoded
parse decode raw = parse_decoded (decode raw)

-- A configuration that the service can run with.
pub record IsSound (c : Config) : Type 0 where
  pub positive : ltb_ℤ c.port (pos 1) ≡ false
  pub small : ltb_ℤ (pos 65535) c.port ≡ false
  pub broker : is_empty c.brokers ≡ false
  pub window : ltb_ℤ c.window_hours (pos 0) ≡ false

no_topics_never : (c : Config) → is_empty (apply_defaults c).topics ≡ false
unfolding apply_defaults
no_topics_never c = ground arith

group_never_empty : (c : Config) → is_empty (apply_defaults c).group ≡ false
unfolding apply_defaults or_default
group_never_empty c = ground arith

validate-IsSound : (c : Config) → validate c ≡ none → IsSound c
unfolding validate
validate-IsSound c h = record {
  positive = ground arith;
  small = ground arith;
  broker = ground arith;
  window = ground arith;
}

validate_of_sound : (c : Config) → IsSound c → is_empty c.topics ≡ false → validate c ≡ none
unfolding validate
validate_of_sound c s t = rw (s.positive, s.small, s.broker, t, s.window) refl

config_of : Config → Result → Config
config_of c (loaded d) = d
config_of c (failed e) = c

is_loaded : Result → Bool
is_loaded (loaded c) = true
is_loaded (failed e) = false

result_loaded :
    (c d : Config) (e : Option ConfigError) → result_of c e ≡ loaded d → (e ≡ none) × (d ≡ c)
unfolding result_of config_of is_loaded
result_loaded c d none h = (refl, ap (config_of c) (sym h))
result_loaded c d (some e) h = absurd (ground (arith, ap is_loaded h))

parse_decoded_loaded :
    (o : Option Config) (d : Config)
    → parse_decoded o ≡ loaded d
    → (c : Config) × (o ≡ some c) × (d ≡ apply_defaults c) × IsSound (apply_defaults c)
unfolding parse_decoded is_loaded
parse_decoded_loaded none d h = absurd (ground (arith, ap is_loaded h))
parse_decoded_loaded (some c) d h =
    let (valid, same) = result_loaded (apply_defaults c) d (validate (apply_defaults c)) h in
    (c, refl, same, validate-IsSound (apply_defaults c) valid)

parse_sound :
    (decode : Text → Option Config) (raw : Text) (c : Config)
    → decode raw ≡ some c
    → IsSound (apply_defaults c)
    → parse decode raw ≡ loaded (apply_defaults c)
unfolding parse parse_decoded result_of
parse_sound decode raw c d s =
    rw (d, parse_decoded, validate_of_sound (apply_defaults c) s (no_topics_never c), result_of)
      refl

-- Parse accepts a text exactly when it decodes and its configuration, with the defaults filled in, has
-- a port from 1 to 65535, a broker and no negative replay window; every other text is an error.
-- Whatever it accepts has a consumer group, also when the text asks for none.
pub parse_iff :
    (decode : Text → Option Config) (raw : Text)
    → ((d : Config)
        → (parse decode raw ≡ loaded d) ↔ (
            (c : Config) × (decode raw ≡ some c)
            × (d ≡ apply_defaults c)
            × IsSound (apply_defaults c)))
      × ((d : Config) → parse decode raw ≡ loaded d → is_empty d.group ≡ false)
unfolding parse
parse_iff decode raw = (
  λ d. (
    parse_decoded_loaded (decode raw) d,
    λ (c, e, same, s). parse_sound decode raw c e s ∙ ap loaded (sym same),
  ),
  λ d h.
      let (c, e, same, s) = parse_decoded_loaded (decode raw) d h in
      ap (λ x. is_empty x.group) same ∙ group_never_empty c,
)
