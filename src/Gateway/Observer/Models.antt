-- ===== src/Gateway/Observer/Models.antt =====
-- The model that a URL names, through the path cases of classifyRoute and ObserveCompletion in
-- apps/gateway/internal/observer/observer.go.
use openllm_metrics.Prelude.{
  ℕ, ◌≡◌, refl, ap, ◌∙◌, is_empty, trim_left, trim_space, List, Bool, true, false, some, [], ◌∷◌,
  ◌++◌, Text, Text-discrete, text, ℕ_discrete, inl, inr, Bool-cases, has_prefix, strip_prefix,
  index_byte, take, length, ◌==◌, if◌then◌else◌, arith,
}
use openllm_metrics.Gateway.Usage.{Decoders, gemini, bedrock, azure_openai}
use openllm_metrics.Gateway.Observer.Routes.{
  azure_prefix, bedrock_prefix, by_prefix, chat, classify_route, contains, extract_azure_deployment,
  extract_bedrock_model, extract_gemini_model, gemini_prefix, has_suffix, trim_prefix, up_to, Route,
  first_non_empty,
}
use openllm_metrics.Gateway.Observer.Events.{
  Completion, Defaults, Outside, body_model, build_event, classify, completion_event,
}

-- The byte does not occur in the text.
unfoldable pub without : ℕ → Text → Bool
without b [] = true
without b (c ∷ s) = if c == b then false else without b s

index_byte-without :
    (b : ℕ) (s t : Text) → without b s ≡ true → index_byte b (s ++ (b ∷ t)) ≡ some (length s)
unfolding index_byte without
index_byte-without b [] t h = ground arith
index_byte-without b (c ∷ s) t h = ground (arith, index_byte-without b s t)

take-length : (s t : Text) → take (length s) (s ++ t) ≡ s
take-length [] t = refl
take-length (c ∷ s) t = ap (◌∷◌ c) (take-length s t)

up_to-without : (b : ℕ) (s t : Text) → without b s ≡ true → up_to b (s ++ (b ∷ t)) ≡ s
unfolding up_to
up_to-without b s t h = rw (index_byte-without b s t h, up_to) (take-length s (b ∷ t))

contains-append : (s t sub : Text) → contains t sub ≡ true → contains (s ++ t) sub ≡ true
unfolding contains
contains-append [] t sub h = h
contains-append (c ∷ s) t sub h = ground (arith, contains-append s t sub)

contains_self :
    (contains (text ":generateContent") (text ":generateContent") ≡ true)
    × (contains (text ":streamGenerateContent") (text ":streamGenerateContent") ≡ true)
    × (contains (text "/chat/completions") (text "/chat/completions") ≡ true)
unfolding contains has_prefix strip_prefix ℕ_discrete
contains_self = (refl, refl, refl)

has_suffix_self : (t : Text) → has_suffix t t ≡ true
unfolding has_suffix
has_suffix_self [] = refl
has_suffix_self (c ∷ t) = ground arith

has_suffix-append :
    (s t suffix : Text) → has_suffix t suffix ≡ true → has_suffix (s ++ t) suffix ≡ true
unfolding has_suffix
has_suffix-append [] t suffix h = h
has_suffix-append (c ∷ s) t suffix h = ground (arith, has_suffix-append s t suffix)

module _ (m : Text) where
  gemini_model :
      without b':' m ≡ true
      → (t : Text) → extract_gemini_model (gemini_prefix ++ (m ++ (b':' ∷ t))) ≡ m
  unfolding extract_gemini_model trim_prefix strip_prefix ℕ_discrete
  gemini_model h t = up_to-without b':' m t h

  bedrock_model :
      without b'/' m ≡ true
      → (t : Text) → extract_bedrock_model (bedrock_prefix ++ (m ++ (b'/' ∷ t))) ≡ m
  unfolding extract_bedrock_model trim_prefix strip_prefix ℕ_discrete
  bedrock_model h t = up_to-without b'/' m t h

  azure_model :
      without b'/' m ≡ true
      → (t : Text) → extract_azure_deployment (azure_prefix ++ (m ++ (b'/' ∷ t))) ≡ m
  unfolding extract_azure_deployment trim_prefix strip_prefix ℕ_discrete
  azure_model h t = up_to-without b'/' m t h

  -- A text that the suffix holds is held behind any prefix and model.
  held :
      (prefix suffix sub : Text)
      → contains suffix sub ≡ true
      → contains (prefix ++ (m ++ suffix)) sub ≡ true
  held prefix suffix sub h =
      contains-append prefix (m ++ suffix) sub (contains-append m suffix sub h)

  ends : (prefix suffix : Text) → has_suffix (prefix ++ (m ++ suffix)) suffix ≡ true
  ends prefix suffix =
      has_suffix-append prefix (m ++ suffix) suffix
        (has_suffix-append m suffix suffix (has_suffix_self suffix))

  gemini_case :
      without b':' m ≡ true
      → classify_route (gemini_prefix ++ (m ++ text ":generateContent")) ≡ chat gemini m
  unfolding classify_route by_prefix has_prefix strip_prefix Text-discrete
  gemini_case h =
      rw
        (
          by_prefix,
          held gemini_prefix (text ":generateContent") (text ":generateContent") contains_self.0,
        )
        (ap (chat gemini) (gemini_model h _))

  gemini_stream_case :
      without b':' m ≡ true
      → classify_route (gemini_prefix ++ (m ++ text ":streamGenerateContent")) ≡ chat gemini m
  unfolding classify_route by_prefix has_prefix strip_prefix Text-discrete
  gemini_stream_case h =
      let path : Text = gemini_prefix ++ (m ++ text ":streamGenerateContent") in
      let there =
        held gemini_prefix (text ":streamGenerateContent") (text ":streamGenerateContent")
          contains_self.1 in
      elim (Bool-cases (contains path (text ":generateContent"))) [
        | inl e ↦ rw (by_prefix, e) (ap (chat gemini) (gemini_model h _))
        | inr e ↦ rw (by_prefix, e, there) (ap (chat gemini) (gemini_model h _))
      ]

  bedrock_case :
      without b'/' m ≡ true
      → classify_route (bedrock_prefix ++ (m ++ text "/invoke")) ≡ chat bedrock m
  unfolding classify_route by_prefix has_prefix strip_prefix Text-discrete
  bedrock_case h =
      rw (by_prefix, ends bedrock_prefix (text "/invoke")) (ap (chat bedrock) (bedrock_model h _))

  bedrock_stream_case :
      without b'/' m ≡ true
      → classify_route (bedrock_prefix ++ (m ++ text "/invoke-with-response-stream"))
        ≡ chat bedrock m
  unfolding classify_route by_prefix has_prefix strip_prefix Text-discrete
  bedrock_stream_case h =
      let path : Text = bedrock_prefix ++ (m ++ text "/invoke-with-response-stream") in
      let there = ends bedrock_prefix (text "/invoke-with-response-stream") in
      elim (Bool-cases (has_suffix path (text "/invoke"))) [
        | inl e ↦ rw (by_prefix, e) (ap (chat bedrock) (bedrock_model h _))
        | inr e ↦ rw (by_prefix, e, there) (ap (chat bedrock) (bedrock_model h _))
      ]

  azure_case :
      without b'/' m ≡ true
      → classify_route (azure_prefix ++ (m ++ text "/chat/completions")) ≡ chat azure_openai m
  unfolding classify_route by_prefix has_prefix strip_prefix Text-discrete
  azure_case h =
      rw
        (
          by_prefix,
          held azure_prefix (text "/chat/completions") (text "/chat/completions") contains_self.2,
        )
        (ap (chat azure_openai) (azure_model h _))

first_non_empty-append :
    (xs ys : List Text) → first_non_empty (first_non_empty xs ∷ ys) ≡ first_non_empty (xs ++ ys)
unfolding first_non_empty trim_space trim_left
first_non_empty-append [] ys = refl
first_non_empty-append (x ∷ xs) ys = elim (Bool-cases (is_empty (trim_space x))) [
  | inl e ↦ rw e (first_non_empty-append xs ys)
  | inr e ↦ rw (e, e) refl
]

module _ (outside : Outside) (decoders : Decoders) (defaults : Defaults) (header : Text → Text)
    (comp : Completion) where
  -- What is made of a request to a path: its route, and the model of its runtime event, which is the
  -- override, else the model of the body, else that of the path, else "unknown".
  pub record IsNamed (path provider m : Text) : Type 0 where
    pub route : classify_route path ≡ chat provider m
    pub model :
        (completion_event outside decoders
          (classify outside defaults (record { path = path; header = header }))
          comp).model
        ≡ first_non_empty (
            comp.model_override
            ∷ body_model decoders provider comp.bytes_sampled
            ∷ m
            ∷ text "unknown"
            ∷ [])

  named : (path provider m : Text) → classify_route path ≡ chat provider m → IsNamed path provider m
  unfolding completion_event build_event classify
  named path provider m e = record {
    route = e;
    model =
        first_non_empty-append
          (comp.model_override
            ∷ body_model decoders (Route.provider (classify_route path)) comp.bytes_sampled
            ∷ Route.model (classify_route path)
            ∷ [])
          (text "unknown" ∷ [])
        ∙ ap
            (λ r. first_non_empty (
              comp.model_override
              ∷ body_model decoders (Route.provider r) comp.bytes_sampled
              ∷ Route.model r
              ∷ text "unknown"
              ∷ []))
            e;
  }

  -- A request whose URL holds a model gets the provider and exactly that model from its route, for
  -- both Gemini calls if the model holds no colon and for both Bedrock calls and an Azure deployment
  -- if it holds no slash; and its runtime event has that model where there is neither an override
  -- nor a model in the response's body, which come first in this order.
  pub classify_route-model :
      (m n : Text)
      → without b':' m ≡ true
      → without b'/' n ≡ true
      → IsNamed (gemini_prefix ++ (m ++ text ":generateContent")) gemini m
        × IsNamed (gemini_prefix ++ (m ++ text ":streamGenerateContent")) gemini m
        × IsNamed (bedrock_prefix ++ (n ++ text "/invoke")) bedrock n
        × IsNamed (bedrock_prefix ++ (n ++ text "/invoke-with-response-stream")) bedrock n
        × IsNamed (azure_prefix ++ (n ++ text "/chat/completions")) azure_openai n
  classify_route-model m n h k = (
    named _ gemini m (gemini_case m h),
    named _ gemini m (gemini_stream_case m h),
    named _ bedrock n (bedrock_case n k),
    named _ bedrock n (bedrock_stream_case n k),
    named _ azure_openai n (azure_case n k),
  )
