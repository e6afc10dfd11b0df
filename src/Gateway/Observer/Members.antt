-- ===== src/Gateway/Observer/Members.antt =====
-- The members of the JSON event that the gateway writes
-- (apps/gateway/internal/busproducer/busproducer.go).
use openllm_metrics.Prelude.{
  ◌≡◌, refl, ◌∙◌, Bool, true, false, not, Option, none, some, [], ◌∷◌, Text, Text-discrete, text,
  if◌then◌else◌, arith, is_in, to_lower, lower_byte,
}
use openllm_metrics.Prelude.Int.{ℤ}
use openllm_metrics.Audit.Json.{Value, str, num, bool, Fields, end, lookup}
use openllm_metrics.Contracts.{forbidden_fields}
use openllm_metrics.Metrics.Aggregator.{has_forbidden_field, has_forbidden_value}
use openllm_metrics.Gateway.Observer.Events.{
  RuntimeEvent, count_fields, count_value, env_fields, int_value, marshal, optional, status_fields,
  text_value, token, trace_fields,
}

-- A member under another key is not seen.
lookup-optional :
    (j k : Text) (o : Option Value) (rest : Fields)
    → is_in j (k ∷ []) ≡ false
    → lookup j (optional k o rest) ≡ lookup j rest
unfolding lookup optional is_in
lookup-optional j k none rest h = refl
lookup-optional j k (some v) rest h = ground arith

unfoldable clean : Option Value → Bool
clean none = true
clean (some v) = not (has_forbidden_value v)

clean_optional :
    (k : Text) (o : Option Value) (rest : Fields)
    → is_in (to_lower k) forbidden_fields ≡ false
    → clean o ≡ true
    → has_forbidden_field rest ≡ false
    → has_forbidden_field (optional k o rest) ≡ false
unfolding optional clean has_forbidden_field
clean_optional k none rest a b c = c
clean_optional k (some v) rest a b c = ground arith

clean_text : (s : Text) → clean (text_value s) ≡ true
unfolding clean text_value has_forbidden_value
clean_text s = ground arith

module _ (shown : ℤ → Text) where
  clean_int : (n : ℤ) → clean (int_value shown n) ≡ true
  unfolding clean int_value has_forbidden_value
  clean_int n = ground arith

  clean_count : (n : Option ℤ) → clean (count_value shown n) ≡ true
  unfolding clean count_value has_forbidden_value
  clean_count none = refl
  clean_count (some n) = refl

  clean_flag : (b : Bool) → clean (if b then some (bool true) else none) ≡ true
  unfolding clean has_forbidden_value
  clean_flag true = refl
  clean_flag false = refl

  -- No member that the gateway writes has a forbidden name.
  pub marshal_clean : (ev : RuntimeEvent) → has_forbidden_field (marshal shown ev) ≡ false
  unfolding marshal env_fields status_fields count_fields trace_fields has_forbidden_field
      has_forbidden_value is_in to_lower lower_byte forbidden_fields Text-discrete
  marshal_clean ev =
      clean_optional (text "app") (text_value ev.app) (env_fields shown ev) refl (clean_text ev.app)
        (clean_optional (text "project") (text_value ev.project) (status_fields shown ev) refl
          (clean_text ev.project)
          (clean_optional (text "status_code") (int_value shown ev.status_code) _ refl
            (clean_int ev.status_code)
            (clean_optional (text "error_type") (text_value ev.error_type) (count_fields shown ev)
              refl (clean_text ev.error_type)
              (clean_optional (text "input_tokens")
                (count_value shown (token shown (λ t. t.input) ev.tokens)) _ refl (clean_count _)
                (clean_optional (text "output_tokens")
                  (count_value shown (token shown (λ t. t.output) ev.tokens)) _ refl (clean_count _)
                  (clean_optional (text "total_tokens")
                    (count_value shown (token shown (λ t. t.total) ev.tokens)) _ refl
                    (clean_count _)
                    (clean_optional (text "retry_count") (int_value shown ev.retry_count) _ refl
                      (clean_int ev.retry_count)
                      (clean_optional (text "is_streaming")
                        (if ev.is_streaming then some (bool true) else none) (trace_fields shown ev)
                        refl (clean_flag ev.is_streaming)
                        (clean_optional (text "trace_id") (text_value ev.trace_id) _ refl
                          (clean_text ev.trace_id)
                          (clean_optional (text "span_id") (text_value ev.span_id) end refl
                            (clean_text ev.span_id) refl))))))))))

  -- Each member that the linter requires, behind those that may be missing.
  pub lookup_env : (ev : RuntimeEvent) → lookup (text "env") (marshal shown ev) ≡ some (str ev.env)
  unfolding marshal env_fields lookup is_in Text-discrete
  lookup_env ev =
      lookup-optional (text "env") (text "app") (text_value ev.app) (env_fields shown ev) refl

  pub lookup_status :
      (ev : RuntimeEvent) → lookup (text "status") (marshal shown ev) ≡ some (str ev.status)
  unfolding marshal env_fields status_fields lookup is_in Text-discrete
  lookup_status ev =
      lookup-optional (text "status") (text "app") (text_value ev.app) (env_fields shown ev) refl
      ∙ lookup-optional (text "status") (text "project") (text_value ev.project)
          (status_fields shown ev) refl

  pub lookup_latency :
      (ev : RuntimeEvent)
      → lookup (text "latency_us") (marshal shown ev) ≡ some (num (shown ev.latency_us))
  unfolding marshal env_fields status_fields count_fields lookup is_in Text-discrete
  lookup_latency ev =
      lookup-optional (text "latency_us") (text "app") (text_value ev.app) (env_fields shown ev)
        refl
      ∙ lookup-optional (text "latency_us") (text "project") (text_value ev.project)
          (status_fields shown ev) refl
      ∙ lookup-optional (text "latency_us") (text "status_code") (int_value shown ev.status_code)
          (optional (text "error_type") (text_value ev.error_type) (count_fields shown ev)) refl
      ∙ lookup-optional (text "latency_us") (text "error_type") (text_value ev.error_type)
          (count_fields shown ev) refl

  pub lookup_recorded :
      (ev : RuntimeEvent)
      → lookup (text "recorded_at") (marshal shown ev) ≡ some (str ev.recorded_at)
  unfolding marshal env_fields status_fields count_fields trace_fields lookup is_in Text-discrete
  lookup_recorded ev =
      let past : (k : Text) (o : Option Value) (rest : Fields)
          → is_in (text "recorded_at") (k ∷ []) ≡ false
          → lookup (text "recorded_at") (optional k o rest) ≡ lookup (text "recorded_at") rest =
        lookup-optional (text "recorded_at") in
      past (text "app") (text_value ev.app) (env_fields shown ev) refl
      ∙ past (text "project") (text_value ev.project) (status_fields shown ev) refl
      ∙ past (text "status_code") (int_value shown ev.status_code) _ refl
      ∙ past (text "error_type") (text_value ev.error_type) (count_fields shown ev) refl
      ∙ past (text "input_tokens") (count_value shown (token shown (λ t. t.input) ev.tokens)) _ refl
      ∙ past (text "output_tokens") (count_value shown (token shown (λ t. t.output) ev.tokens)) _
          refl
      ∙ past (text "total_tokens") (count_value shown (token shown (λ t. t.total) ev.tokens)) _ refl
      ∙ past (text "retry_count") (int_value shown ev.retry_count) _ refl
      ∙ past (text "is_streaming") (if ev.is_streaming then some (bool true) else none)
          (trace_fields shown ev) refl

  -- No member names the surface that the event came from.
  pub lookup_source : (ev : RuntimeEvent) → lookup (text "source") (marshal shown ev) ≡ none
  unfolding marshal env_fields status_fields count_fields trace_fields lookup is_in Text-discrete
  lookup_source ev =
      let past : (k : Text) (o : Option Value) (rest : Fields)
          → is_in (text "source") (k ∷ []) ≡ false
          → lookup (text "source") (optional k o rest) ≡ lookup (text "source") rest =
        lookup-optional (text "source") in
      past (text "app") (text_value ev.app) (env_fields shown ev) refl
      ∙ past (text "project") (text_value ev.project) (status_fields shown ev) refl
      ∙ past (text "status_code") (int_value shown ev.status_code) _ refl
      ∙ past (text "error_type") (text_value ev.error_type) (count_fields shown ev) refl
      ∙ past (text "input_tokens") (count_value shown (token shown (λ t. t.input) ev.tokens)) _ refl
      ∙ past (text "output_tokens") (count_value shown (token shown (λ t. t.output) ev.tokens)) _
          refl
      ∙ past (text "total_tokens") (count_value shown (token shown (λ t. t.total) ev.tokens)) _ refl
      ∙ past (text "retry_count") (int_value shown ev.retry_count) _ refl
      ∙ past (text "is_streaming") (if ev.is_streaming then some (bool true) else none)
          (trace_fields shown ev) refl
      ∙ past (text "trace_id") (text_value ev.trace_id) _ refl
      ∙ past (text "span_id") (text_value ev.span_id) end refl
