-- ===== src/Gateway/Tap.antt =====
-- tappingReader of apps/gateway/internal/proxy/streaming.go: line framing over the chunks that the
-- upstream body yields. JSON decoding of a chunk (encoding/json) is the parameter `decode`.
use openllm_metrics.Prelude.{
  ℕ, zero, suc, ◌-◌, ◌*◌, Bool, true, false, ◌||◌, Option, none, some, List, [], ◌∷◌, ◌++◌, Text,
  Text-discrete, text, is_empty, trim_space, strip_prefix, has_prefix, index_byte, to_lower, length,
  take, drop, ltb, ◌==◌, ite, if◌then◌else◌,
}
use openllm_metrics.Gateway.Sink.{
  UsageSink, max_sse_chunk_bytes, append_buffered, set_last, set_model_once,
}

abbrev pub newline : ℕ
newline = 10

-- What `extractStreamModel` decodes: "model", and "model" under "message" where it is present.
pub record StreamChunk : Type 0 where
  pub model : Text
  pub message_model : Option Text

starts_with_brace : Text → Bool
starts_with_brace [] = false
starts_with_brace (c ∷ s) = c == b'{'

after_data : Text → Text
after_data trimmed = elim (strip_prefix (text "data:") trimmed) [
  | none ↦ trimmed
  | some rest ↦ trim_space rest
]

json_data : Text → Option Text
unfolding starts_with_brace
json_data d =
    ite (Text-discrete d (text "[DONE]")) none (if starts_with_brace d then some d else none)

-- The guards of `consider`: the JSON text of a line, if it has one.
unfoldable pub payload : Text → Option Text
unfolding after_data json_data
payload line =
    let trimmed = trim_space line in
    if is_empty trimmed
    then none
    else if has_prefix (text "event:") trimmed || has_prefix (text ":") trimmed
    then none
    else json_data (after_data trimmed)

pub record TappingReader : Type 0 where
  pub sink : UsageSink
  pub streaming : Bool
  pub line_buf : Text

unfoldable pub new_tapping_reader : UsageSink → Bool → TappingReader
new_tapping_reader sink streaming = record { sink = sink; streaming = streaming; line_buf = [] }

-- Only the tail of a line that no newline ends is kept.
unfoldable pub cap_line : Text → Text
cap_line buf =
    if ltb (max_sse_chunk_bytes * 4) (length buf)
    then drop (length buf - max_sse_chunk_bytes) buf
    else buf

is_streaming_media : Text → Bool
is_streaming_media ct = ite (Text-discrete ct (text "text/event-stream")) true (
    ite (Text-discrete ct (text "application/vnd.amazon.eventstream")) true
      (ite (Text-discrete ct (text "application/x-ndjson")) true false))

before_semicolon : Text → Text
before_semicolon ct = elim (index_byte b';' ct) [ none ↦ ct | some i ↦ trim_space (take i ct) ]

unfoldable pub is_streaming_content_type : Text → Bool
unfolding is_streaming_media before_semicolon
is_streaming_content_type content_type =
    let ct = to_lower (trim_space content_type) in
    if is_empty ct then false else is_streaming_media (before_semicolon ct)

-- The model that a decoded chunk carries: at the top, or under "message".
chunk_model : Option StreamChunk → Text
chunk_model none = []
chunk_model (some chunk) =
    if is_empty chunk.model
    then elim chunk.message_model [ none ↦ [] | some m ↦ m ]
    else chunk.model

module _ (decode : Text → Option StreamChunk) where
  unfoldable pub extract_stream_model : Text → Text
  unfolding starts_with_brace chunk_model
  extract_stream_model d = if starts_with_brace d then chunk_model (decode d) else []

  keep : Option Text → UsageSink → UsageSink
  keep none s = s
  keep (some d) s = set_last d (set_model_once (extract_stream_model d) s)

  unfoldable pub consider : Text → UsageSink → UsageSink
  unfolding keep
  consider line s = keep (payload line) s

  -- The loop of `sampleStreaming`, with fuel: one round for each newline and a last one.
  unfoldable pub drain : ℕ → Text → UsageSink → Text × UsageSink
  drain zero buf s = (buf, s)
  drain (suc fuel) buf s = elim (index_byte newline buf) [
    | none ↦ (cap_line buf, s)
    | some i ↦ drain fuel (drop (suc i) buf) (consider (take i buf) s)
  ]

  unfoldable pub sample_streaming : TappingReader → Text → TappingReader
  sample_streaming t chunk =
      let (rest, s) = drain (suc (length (t.line_buf ++ chunk))) (t.line_buf ++ chunk) t.sink in
      record t { line_buf = rest; sink = s }

  -- `Read`, given the bytes that the upstream read returned; they are passed on unchanged.
  unfoldable pub read : TappingReader → Text → TappingReader
  read t chunk =
      if ltb 0 (length chunk)
      then (if t.streaming
          then sample_streaming t chunk
          else record t { sink = append_buffered chunk t.sink })
      else t

  unfoldable pub read_all : TappingReader → List Text → TappingReader
  read_all t [] = t
  read_all t (chunk ∷ chunks) = read_all (read t chunk) chunks

  unfoldable pub flush_tail : TappingReader → TappingReader
  flush_tail t =
      if t.streaming
      then (if is_empty t.line_buf
          then t
          else record t { sink = consider t.line_buf t.sink; line_buf = [] })
      else t
