-- ===== src/Gateway/Observer/Routes.antt =====
-- classifyRoute, classifyStatus and the header helpers of
-- apps/gateway/internal/observer/observer.go.
use openllm_metrics.Prelude.{
  ℕ, Bool, true, false, ◌&&◌, ◌||◌, not, none, some, List, [], ◌∷◌, Text, Text-discrete, text,
  is_empty, trim_space, has_prefix, strip_prefix, index_byte, take, ◌==◌, ite, if◌then◌else◌,
}
use openllm_metrics.Prelude.Int.{ℤ, pos, negsuc, ltb_ℤ}
use openllm_metrics.Gateway.Usage.{openai, anthropic, gemini, bedrock, azure_openai}

-- strings.Contains
unfoldable pub contains : Text → Text → Bool
contains [] sub = is_empty sub
contains (c ∷ s) sub = has_prefix sub (c ∷ s) || contains s sub

-- strings.HasSuffix
unfoldable pub has_suffix : Text → Text → Bool
has_suffix [] suffix = is_empty suffix
has_suffix (c ∷ s) suffix = ite (Text-discrete (c ∷ s) suffix) true (has_suffix s suffix)

pub record Route : Type 0 where
  pub provider : Text
  pub operation : Text
  pub model : Text

-- The text up to a byte, all of it where the byte does not occur.
unfoldable pub up_to : ℕ → Text → Text
up_to b s = elim (index_byte b s) [ none ↦ s | some i ↦ take i s ]

-- strings.TrimPrefix
unfoldable pub trim_prefix : Text → Text → Text
trim_prefix p s = elim (strip_prefix p s) [ none ↦ s | some rest ↦ rest ]

abbrev pub gemini_prefix : Text
gemini_prefix = text "/v1beta/models/"

abbrev pub bedrock_prefix : Text
bedrock_prefix = text "/model/"

abbrev pub azure_prefix : Text
azure_prefix = text "/openai/deployments/"

unfoldable pub extract_gemini_model : Text → Text
extract_gemini_model path = up_to b':' (trim_prefix gemini_prefix path)

unfoldable pub extract_bedrock_model : Text → Text
extract_bedrock_model path = up_to b'/' (trim_prefix bedrock_prefix path)

unfoldable pub extract_azure_deployment : Text → Text
extract_azure_deployment path = up_to b'/' (trim_prefix azure_prefix path)

abbrev pub chat : Text → Text → Route
chat provider model = record { provider = provider; operation = text "chat"; model = model }

-- The cases that go by the path's prefix.
unfoldable pub by_prefix : Text → Route
by_prefix path =
    if has_prefix gemini_prefix path && contains path (text ":generateContent")
    then chat gemini (extract_gemini_model path)
    else if has_prefix gemini_prefix path && contains path (text ":streamGenerateContent")
    then chat gemini (extract_gemini_model path)
    else if has_prefix bedrock_prefix path && has_suffix path (text "/invoke")
    then chat bedrock (extract_bedrock_model path)
    else if has_prefix bedrock_prefix path && has_suffix path (text "/invoke-with-response-stream")
    then chat bedrock (extract_bedrock_model path)
    else if has_prefix azure_prefix path && contains path (text "/chat/completions")
    then chat azure_openai (extract_azure_deployment path)
    else record { provider = []; operation = text "other"; model = [] }

unfoldable pub classify_route : Text → Route
unfolding by_prefix
classify_route path = ite (Text-discrete path (text "/v1/chat/completions")) (chat openai []) (
    ite (Text-discrete path (text "/v1/embeddings"))
      (record { provider = openai; operation = text "embedding"; model = [] })
      (ite (Text-discrete path (text "/v1/responses")) (chat openai [])
        (ite (Text-discrete path (text "/v1/messages")) (chat anthropic []) (by_prefix path))))

-- code == n
abbrev pub is_code : ℤ → ℕ → Bool
is_code (pos c) n = c == n
is_code (negsuc c) n = false

unfoldable pub classify_status : ℤ → Text → Text
classify_status code error_type = ite (Text-discrete error_type (text "timeout")) (text "timeout") (
    if is_code code 0
    then text "error"
    else if is_code code 429
    then text "rate_limited"
    else if not (ltb_ℤ code (pos 200)) && ltb_ℤ code (pos 400)
    then text "success"
    else text "error")

-- strings.Split on one byte
unfoldable pub split : ℕ → Text → List Text
split b [] = [] ∷ []
split b (c ∷ s) =
    let rest = split b s in
    if c == b
    then [] ∷ rest
    else elim rest [ [] ↦ (c ∷ []) ∷ [] | part ∷ parts ↦ (c ∷ part) ∷ parts ]

ids_of : List Text → Text × Text
ids_of [] = ([], [])
ids_of (version ∷ []) = ([], [])
ids_of (version ∷ trace ∷ []) = ([], [])
ids_of (version ∷ trace ∷ span ∷ rest) = (trace, span)

unfoldable pub parse_traceparent : Text → Text × Text
unfolding ids_of
parse_traceparent s = if is_empty s then ([], []) else ids_of (split b'-' s)

unfoldable pub first_non_empty : List Text → Text
first_non_empty [] = []
first_non_empty (v ∷ vs) = if is_empty (trim_space v) then first_non_empty vs else v
