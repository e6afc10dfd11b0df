-- ===== src/Gateway/Tests.antt =====
-- The gateway's sampling at concrete streams.
use openllm_metrics.Prelude.{
  ◌≡◌, refl, true, false, Option, none, some, List, [], ◌∷◌, ◌++◌, Text, text, arith, trim_space,
  has_prefix, ℕ_discrete, Text-discrete, index_byte, to_lower,
}
use openllm_metrics.Prelude.Int.{pos}
use openllm_metrics.Gateway.Sink.{snapshot, cut}
use openllm_metrics.Gateway.Tap.{
  StreamChunk, TappingReader, newline, payload, read_all, is_streaming_content_type,
}
use openllm_metrics.Gateway.Framing.{fits}
use openllm_metrics.Gateway.Chunks.{
  concat, lines, lines_from, last_payload, shown, first_model, sampled, streaming_result,
}
use openllm_metrics.Gateway.Bounds.{IsBounded, read_all-IsBounded}

abbrev one_model : Text → Option StreamChunk
one_model d = some (record { model = text "gpt-4o"; message_model = none })

-- Two chunks that cut an event in the middle; the last line has no newline.
abbrev chunks : List Text
chunks =
    (text "event: x" ++ newline ∷ text "data: {\"a\"")
    ∷ (text ":1}" ++ newline ∷ newline ∷ text "data: [DONE]" ++ newline ∷ [])
    ∷ text "data: {\"usage\":2}"
    ∷ []

chunks_fit : fits 0 (concat chunks) ≡ true
unfolding fits concat
chunks_fit = refl

last_line : shown (last_payload (lines (concat chunks))) ≡ text "{\"usage\":2}"
unfolding shown last_payload lines_from concat payload cut trim_space has_prefix ℕ_discrete
    Text-discrete
last_line = refl

event_stream : is_streaming_content_type (text " Text/Event-Stream; charset=utf-8") ≡ true
unfolding is_streaming_content_type to_lower trim_space Text-discrete index_byte
event_stream = refl

streaming_result_example :
    (snapshot (sampled one_model (pos 0) chunks) ≡ shown (last_payload (lines (concat chunks))))
    × ((sampled one_model (pos 0) chunks).model ≡ first_model one_model (lines (concat chunks)))
streaming_result_example = streaming_result one_model (pos 0) chunks chunks_fit

abbrev small : TappingReader
small = record {
  sink = record { last = []; buffered = []; max_buf = 4; model = [] };
  streaming = false;
  line_buf = [];
}

read_all-IsBounded_example : IsBounded (read_all one_model small chunks)
read_all-IsBounded_example =
    read_all-IsBounded one_model small chunks
      (record { line = omega arith; last = omega arith; buffered = omega arith })
