-- ===== src/Cost/Mapper.antt =====
-- The mapper: apps/worker/cost-mapper/internal/mapper/mapper.go. SHA-256 in hex and the present time
-- are parameters.
use openllm_metrics.Prelude.{
  Bool, none, some, ◌++◌, take, Text, Text-discrete, text, is_empty, trim_space, to_lower, ite,
  if◌then◌else◌,
}
use openllm_metrics.Prelude.Int.{ℤ, pos, ltb_ℤ}
use openllm_metrics.Cost.{Floats, canonical}
use openllm_metrics.Cost.Catalog.{Rate, Catalog, lookup}

pub record RuntimeEvent : Type 0 where
  pub event_id : Text
  pub source : Text
  pub provider : Text
  pub model : Text
  pub tenant : Text
  pub team : Text
  pub app : Text
  pub env : Text
  pub project : Text
  pub region : Text
  pub input_tokens : ℤ
  pub output_tokens : ℤ
  pub recorded_at : Text

pub record EstimatedEvent : Type 0 where
  pub schema_version : Text
  pub event_id : Text
  pub source_event_id : Text
  pub source : Text
  pub source_service : Text
  pub provider : Text
  pub model : Text
  pub tenant : Text
  pub team : Text
  pub app : Text
  pub env : Text
  pub project : Text
  pub region : Text
  pub input_tokens : ℤ
  pub output_tokens : ℤ
  pub cost_minor : ℤ
  pub catalog_version : Text
  pub catalog_approximate : Bool
  pub pricing_currency : Text
  pub estimated_at : Text
  pub recorded_at : Text

pub data EstimateError : Type 0 where
  missing_event_id : EstimateError
  missing_tenant : EstimateError
  not_priced : EstimateError

pub data Estimated : Type 0 where
  estimated : EstimatedEvent → Estimated
  refused : EstimateError → Estimated

unfoldable pub normalize_source : Text → Text
normalize_source s =
    let c = to_lower (trim_space s) in
    ite (Text-discrete c (text "gateway")) (text "gateway")
      (ite (Text-discrete c (text "sdk")) (text "sdk") s)

-- The first 16 of the sum's bytes are 32 hex digits.
unfoldable pub derive_event_id : (Text → Text) → Text → Text → Text
derive_event_id sha256_hex source_event_id version =
    take 32 (sha256_hex (text "cost.estimated.v1|" ++ source_event_id ++ text "|" ++ version))

module _ {C : Type 0} (floats : Floats C) where
  unfoldable pub per_token : ℤ → C
  per_token tokens =
      if ltb_ℤ (pos 0) tokens
      then floats.div (floats.of_int64 tokens) (floats.of_int64 (pos 1000))
      else floats.of_int64 (pos 0)

  unfoldable pub to_minor_units : C → ℤ
  to_minor_units usd =
      if floats.at_most usd (floats.of_int64 (pos 0))
      then pos 0
      else if floats.is_nan usd
      then pos 0
      else if floats.is_inf usd
      then pos 0
      else floats.to_int64 (floats.round (floats.mul usd (floats.of_int64 (pos 100))))

  unfoldable pub cost_of : ℤ → ℤ → Rate C → ℤ
  cost_of input output rate = to_minor_units (
      floats.add (floats.mul (per_token input) rate.input_per_1k)
        (floats.mul (per_token output) rate.output_per_1k))

  module _ (sha256_hex : Text → Text) (now : Text) where
    unfoldable pub event_of : RuntimeEvent → Rate C → Text → EstimatedEvent
    event_of ev rate version = record {
      schema_version = text "1";
      event_id = derive_event_id sha256_hex ev.event_id version;
      source_event_id = ev.event_id;
      source = normalize_source ev.source;
      source_service = text "apps/worker/cost-mapper";
      provider = canonical ev.provider;
      model = canonical ev.model;
      tenant = ev.tenant;
      team = ev.team;
      app = ev.app;
      env = ev.env;
      project = ev.project;
      region = ev.region;
      input_tokens = ev.input_tokens;
      output_tokens = ev.output_tokens;
      cost_minor = cost_of ev.input_tokens ev.output_tokens rate;
      catalog_version = version;
      catalog_approximate = rate.approximate;
      pricing_currency = rate.currency;
      estimated_at = now;
      recorded_at = ev.recorded_at;
    }

    unfoldable pub estimate : Catalog C → RuntimeEvent → Estimated
    estimate cat ev =
        if is_empty ev.event_id
        then refused missing_event_id
        else if is_empty ev.tenant
        then refused missing_tenant
        else elim (lookup ev.provider ev.model cat) [
          | none ↦ refused not_priced
          | some rate ↦ estimated (event_of ev rate cat.version)
        ]
