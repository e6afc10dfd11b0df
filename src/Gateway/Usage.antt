-- ===== src/Gateway/Usage.antt =====
-- The token counts of a provider's response: the parsers of apps/gateway/internal/usage. What
-- encoding/json decodes into each parser's struct is a parameter; a Go int has 64 bits.
use openllm_metrics.Prelude.{
  Bool, true, false, ◌&&◌, ◌||◌, Option, none, some, [], ◌∷◌, Text, Text-discrete, text, is_empty,
  trim_space, strip_prefix, ◌==◌, ite, if◌then◌else◌,
}
use openllm_metrics.Prelude.Int.{ℤ, pos, ltb_ℤ, ◌+ℤ◌, wrap}

pub record Tokens : Type 0 where
  pub input : ℤ
  pub output : ℤ
  pub total : ℤ

abbrev pub no_tokens : Tokens
no_tokens = record { input = pos 0; output = pos 0; total = pos 0 }

abbrev pub is_above : ℤ → Bool
is_above n = ltb_ℤ (pos 0) n

unfoldable pub is_naught : ℤ → Bool
is_naught n = if ltb_ℤ (pos 0) n then false else if ltb_ℤ n (pos 0) then false else true

unfoldable pub finalize : Tokens → Tokens
finalize t =
    if is_naught t.total && (is_above t.input || is_above t.output)
    then record t { total = wrap (t.input +ℤ t.output) }
    else t

unfoldable pub pick_positive : ℤ → ℤ → ℤ
pick_positive a b = if is_above a then a else b

after_data_prefix : Text → Option Text → Text
after_data_prefix b none = b
after_data_prefix b (some rest) = trim_space rest

unfoldable pub strip_sse_prefix : Text → Text
unfolding after_data_prefix
strip_sse_prefix b =
    let line : Text =
      after_data_prefix (trim_space b) (strip_prefix (text "data:") (trim_space b)) in
    ite (Text-discrete line (text "[DONE]")) [] line

object_of : Text → Option Text
object_of [] = none
object_of (c ∷ s) = if c == b'{' then some (c ∷ s) else none

-- The guards that every parser starts with.
unfoldable pub json_body : Text → Option Text
unfolding object_of
json_body body = if is_empty body then none else object_of (strip_sse_prefix body)

-- The counts of "usage" in an OpenAI response.
pub record OpenaiUsage : Type 0 where
  pub prompt_tokens : ℤ
  pub completion_tokens : ℤ
  pub total_tokens : ℤ
  pub input_tokens : ℤ
  pub output_tokens : ℤ

-- The counts of "usage" in an Anthropic response, at the top or under "message".
pub record AnthropicUsage : Type 0 where
  pub input_tokens : ℤ
  pub output_tokens : ℤ

pub record AnthropicBody : Type 0 where
  pub usage : Option AnthropicUsage
  pub message_usage : Option AnthropicUsage

pub record BedrockUsage : Type 0 where
  pub input_tokens : ℤ
  pub output_tokens : ℤ
  pub prompt_tokens : ℤ

pub record BedrockMetrics : Type 0 where
  pub input_token_count : ℤ
  pub output_token_count : ℤ

pub record BedrockBody : Type 0 where
  pub usage : Option BedrockUsage
  pub input_token_count : ℤ
  pub output_token_count : ℤ
  pub prompt_token_count : ℤ
  pub generation_count : ℤ
  pub metrics : Option BedrockMetrics

pub record GeminiUsage : Type 0 where
  pub prompt_token_count : ℤ
  pub candidates_token_count : ℤ
  pub total_token_count : ℤ

-- "model", and "model" under "message" where it is present.
pub record ModelBody : Type 0 where
  pub model : Text
  pub message_model : Option Text

-- json.Unmarshal into each parser's struct, `none` being an error.
pub record Decoders : Type 0 where
  pub openai : Text → Option (Option OpenaiUsage)
  pub anthropic : Text → Option AnthropicBody
  pub bedrock : Text → Option BedrockBody
  pub gemini : Text → Option (Option GeminiUsage)
  pub model : Text → Option ModelBody

-- The counts if any is not 0, the total filled in.
unfoldable pub if_any : Tokens → Option Tokens
if_any t =
    if is_naught t.input && (is_naught t.output && is_naught t.total)
    then none
    else some (finalize t)

openai_tokens : Option (Option OpenaiUsage) → Option Tokens
openai_tokens none = none
openai_tokens (some none) = none
openai_tokens (some (some u)) = if_any (record {
  input = pick_positive u.prompt_tokens u.input_tokens;
  output = pick_positive u.completion_tokens u.output_tokens;
  total = u.total_tokens;
})

-- A count that is still 0 is taken from the message.
or_else : ℤ → ℤ → ℤ
or_else a b = if is_naught a then b else a

top_usage : Option AnthropicUsage → Tokens
top_usage none = no_tokens
top_usage (some u) = record { input = u.input_tokens; output = u.output_tokens; total = pos 0 }

with_message : Option AnthropicUsage → Tokens → Tokens
unfolding or_else
with_message none t = t
with_message (some m) t = record {
  input = or_else t.input m.input_tokens;
  output = or_else t.output m.output_tokens;
  total = t.total;
}

anthropic_tokens : Option AnthropicBody → Option Tokens
unfolding top_usage with_message
anthropic_tokens none = none
anthropic_tokens (some b) = if_any (with_message b.message_usage (top_usage b.usage))

bedrock_usage : Option BedrockUsage → Tokens
bedrock_usage none = no_tokens
bedrock_usage (some u) = record {
  input = pick_positive u.input_tokens u.prompt_tokens;
  output = u.output_tokens;
  total = pos 0;
}

with_metrics : Option BedrockMetrics → Tokens → Tokens
unfolding or_else
with_metrics none t = t
with_metrics (some m) t = record {
  input = or_else t.input m.input_token_count;
  output = or_else t.output m.output_token_count;
  total = t.total;
}

with_counts : BedrockBody → Tokens → Tokens
unfolding or_else
with_counts b t = record {
  input = or_else t.input (pick_positive b.input_token_count b.prompt_token_count);
  output = or_else t.output (pick_positive b.output_token_count b.generation_count);
  total = t.total;
}

bedrock_tokens : Option BedrockBody → Option Tokens
unfolding bedrock_usage with_metrics with_counts
bedrock_tokens none = none
bedrock_tokens (some b) = if_any (with_metrics b.metrics (with_counts b (bedrock_usage b.usage)))

gemini_tokens : Option (Option GeminiUsage) → Option Tokens
gemini_tokens none = none
gemini_tokens (some none) = none
gemini_tokens (some (some u)) = if_any (record {
  input = u.prompt_token_count;
  output = u.candidates_token_count;
  total = u.total_token_count;
})

-- The model of the body, else that of its message.
model_of : Option ModelBody → Text
model_of none = []
model_of (some b) =
    if is_empty b.model then elim (b.message_model) [ none ↦ [] | some m ↦ m ] else b.model

plain_model_of : Option ModelBody → Text
plain_model_of none = []
plain_model_of (some b) = b.model

abbrev pub openai : Text
openai = text "openai"

abbrev pub anthropic : Text
anthropic = text "anthropic"

abbrev pub gemini : Text
gemini = text "google"

abbrev pub bedrock : Text
bedrock = text "bedrock"

abbrev pub azure_openai : Text
azure_openai = text "azure_openai"

module _ (decoders : Decoders) where
  guarded : {A : Type 0} → A → (Text → A) → Text → A
  guarded missing parse body = elim (json_body body) [ none ↦ missing | some b ↦ parse b ]

  unfoldable pub parse_openai : Text → Option Tokens
  unfolding guarded openai_tokens
  parse_openai = guarded none (λ b. openai_tokens (decoders.openai b))

  unfoldable pub parse_anthropic : Text → Option Tokens
  unfolding guarded anthropic_tokens
  parse_anthropic = guarded none (λ b. anthropic_tokens (decoders.anthropic b))

  unfoldable pub parse_azure_openai : Text → Option Tokens
  parse_azure_openai = parse_openai

  unfoldable pub parse_bedrock : Text → Option Tokens
  unfolding guarded bedrock_tokens
  parse_bedrock = guarded none (λ b. bedrock_tokens (decoders.bedrock b))

  unfoldable pub parse_gemini : Text → Option Tokens
  unfolding guarded gemini_tokens
  parse_gemini = guarded none (λ b. gemini_tokens (decoders.gemini b))

  unfoldable pub parse_openai_model : Text → Text
  unfolding guarded plain_model_of
  parse_openai_model = guarded [] (λ b. plain_model_of (decoders.model b))

  unfoldable pub parse_anthropic_model : Text → Text
  unfolding guarded model_of
  parse_anthropic_model = guarded [] (λ b. model_of (decoders.model b))

  -- ParseModel
  unfoldable pub parse_model : Text → Text → Text
  parse_model provider body = ite (Text-discrete provider openai) (parse_openai_model body) (
      ite (Text-discrete provider azure_openai) (parse_openai_model body)
        (ite (Text-discrete provider anthropic) (parse_anthropic_model body) []))
