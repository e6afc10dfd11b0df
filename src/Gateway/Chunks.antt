-- ===== src/Gateway/Chunks.antt =====
-- Whole streams through the gateway's tappingReader (apps/gateway/internal/proxy/streaming.go): what
-- the sink holds at the end, told by the lines of the response body.
use openllm_metrics.Prelude.{
  ℕ, ◌≡◌, refl, ◌∙◌, true, false, Option, none, some, List, [], ◌∷◌, ◌++◌, Text, is_empty,
  trim_space, index_byte, length, ◌==◌, arith, if◌then◌else◌,
}
use openllm_metrics.Prelude.Int.{ℤ}
use openllm_metrics.Gateway.Sink.{
  UsageSink, max_sse_chunk_bytes, cut, new_usage_sink, snapshot, set_last, set_model_once,
}
use openllm_metrics.Gateway.Tap.{
  StreamChunk, TappingReader, newline, payload, extract_stream_model, consider, new_tapping_reader,
  sample_streaming, read, read_all, flush_tail,
}
use openllm_metrics.Gateway.Framing.{
  fits, feed_byte, feed, feed-append, feed-streaming, sample_streaming-feed, feed_open, fits_append,
}

unfoldable pub concat : List Text → Text
concat [] = []
concat (c ∷ cs) = c ++ concat cs

-- The lines of a text, the last one without its newline; `open_line` is what the first begins with.
unfoldable pub lines_from : Text → Text → List Text
lines_from open_line [] = open_line ∷ []
lines_from open_line (b ∷ r) = elim (b == newline) [
  | true ↦ open_line ∷ lines_from [] r
  | false ↦ lines_from (open_line ++ b ∷ []) r
]

abbrev pub lines : Text → List Text
lines = lines_from []

-- The JSON text of the last line that has one.
unfoldable pub last_payload : List Text → Option Text
last_payload [] = none
last_payload (l ∷ ls) = elim (last_payload ls) [ none ↦ payload l | some d ↦ some d ]

-- What of it is kept: `maxSSEChunkBytes` bytes at most.
unfoldable pub shown : Option Text → Text
shown none = []
shown (some d) = cut max_sse_chunk_bytes d

module _ (decode : Text → Option StreamChunk) where
  unfoldable pub consider_all : List Text → UsageSink → UsageSink
  consider_all [] s = s
  consider_all (l ∷ ls) s = consider_all ls (consider decode l s)

  -- The first model that a line with JSON carries.
  unfoldable pub first_model : List Text → Text
  first_model [] = []
  first_model (l ∷ ls) = elim (payload l) [
    | none ↦ first_model ls
    | some d ↦
        let here = extract_stream_model decode d in
        let later = first_model ls in if is_empty here then later else here
  ]

  read-feed :
      (t : TappingReader) (chunk : Text)
      → t.streaming ≡ true
      → index_byte newline t.line_buf ≡ none
      → fits (length t.line_buf) chunk ≡ true
      → read decode t chunk ≡ feed decode t chunk
  unfolding read feed
  read-feed t [] st h f = refl
  read-feed t (b ∷ c) st h f = sample st ∙ sample_streaming-feed decode t (b ∷ c) h f
    where
      sample : t.streaming ≡ true → read decode t (b ∷ c) ≡ sample_streaming decode t (b ∷ c)
      sample e = ground arith

  read_all-feed :
      (t : TappingReader) (chunks : List Text)
      → t.streaming ≡ true
      → index_byte newline t.line_buf ≡ none
      → fits (length t.line_buf) (concat chunks) ≡ true
      → read_all decode t chunks ≡ feed decode t (concat chunks)
  unfolding read_all concat feed
  read_all-feed t [] st h f = refl
  read_all-feed t (c ∷ cs) st h f =
      let (now, later) = fits_append decode t c (concat cs) f in
      rw (read-feed t c st h now, read_all, feed-append decode t c (concat cs))
        (read_all-feed (feed decode t c) cs (feed-streaming decode t c ∙ st)
          (feed_open decode t c h) later)

  -- The empty line has no JSON.
  consider_nil : (s : UsageSink) → consider decode [] s ≡ s
  unfolding consider payload trim_space
  consider_nil s = refl

  flush_sink :
      (t : TappingReader)
      → t.streaming ≡ true
      → (flush_tail decode t).sink ≡ consider decode t.line_buf t.sink
  unfolding flush_tail
  flush_sink t st = ground (arith, consider_nil t.sink)

  lines_step :
      (t : TappingReader) (b : ℕ) (xs : Text)
      → consider_all (lines_from (feed_byte decode t b).line_buf xs) (feed_byte decode t b).sink
        ≡ consider_all (lines_from t.line_buf (b ∷ xs)) t.sink
  unfolding feed_byte lines_from consider_all
  lines_step t b xs = ground arith

  flush-feed :
      (t : TappingReader) (xs : Text)
      → t.streaming ≡ true
      → (flush_tail decode (feed decode t xs)).sink ≡ consider_all (lines_from t.line_buf xs) t.sink
  unfolding feed lines_from consider_all
  flush-feed t [] st = flush_sink t st
  flush-feed t (b ∷ xs) st =
      flush-feed (feed_byte decode t b) xs (feed-streaming decode t (b ∷ []) ∙ st)
      ∙ lines_step t b xs

  pub last-consider :
      (l : Text) (s : UsageSink)
      → (consider decode l s).last ≡ elim (payload l) [ none ↦ s.last | some d ↦ shown (some d) ]
  unfolding consider set_last set_model_once shown
  last-consider l s = ground arith

  last-consider_all :
      (ls : List Text) (s : UsageSink)
      → (consider_all ls s).last
        ≡ elim (last_payload ls) [ none ↦ s.last | some d ↦ shown (some d) ]
  unfolding consider_all last_payload
  last-consider_all [] s = refl
  last-consider_all (l ∷ ls) s =
      ground (arith, last-consider_all ls (consider decode l s), last-consider l s)

  buffered-consider : (l : Text) (s : UsageSink) → (consider decode l s).buffered ≡ s.buffered
  unfolding consider set_last set_model_once
  buffered-consider l s = ground arith

  buffered-consider_all :
      (ls : List Text) (s : UsageSink) → (consider_all ls s).buffered ≡ s.buffered
  unfolding consider_all
  buffered-consider_all [] s = refl
  buffered-consider_all (l ∷ ls) s =
      buffered-consider_all ls (consider decode l s) ∙ buffered-consider l s

  model-consider_all :
      (ls : List Text) (s : UsageSink)
      → (consider_all ls s).model ≡ (if is_empty s.model then first_model ls else s.model)
  unfolding consider_all first_model consider set_last set_model_once
  model-consider_all [] s = ground arith
  model-consider_all (l ∷ ls) s = ground (arith, model-consider_all ls (consider decode l s))

  -- However the upstream cuts a stream into chunks, none of whose lines is longer than the
  -- accumulator's cap, the sink ends as if every line of the body
  -- had been considered in order, the unterminated tail included.
  pub streaming_lines :
      (s : UsageSink) (chunks : List Text)
      → fits 0 (concat chunks) ≡ true
      → (flush_tail decode (read_all decode (new_tapping_reader s true) chunks)).sink
        ≡ consider_all (lines (concat chunks)) s
  unfolding new_tapping_reader index_byte
  streaming_lines s chunks f =
      rw (read_all-feed (new_tapping_reader s true) chunks refl refl f)
        (flush-feed (new_tapping_reader s true) (concat chunks) refl)

  -- A streaming response, read to its end.
  abbrev pub sampled : ℤ → List Text → UsageSink
  sampled max_buf chunks =
      (flush_tail decode
        (read_all decode (new_tapping_reader (new_usage_sink max_buf) true) chunks)).sink

  snapshot_of : (s : UsageSink) (d : Text) → s.last ≡ d → s.buffered ≡ [] → snapshot s ≡ d
  unfolding snapshot
  snapshot_of s [] h k = ground arith
  snapshot_of s (c ∷ d) h k = ground arith

  last-fresh :
      (max_buf : ℤ) (ls : List Text)
      → (consider_all ls (new_usage_sink max_buf)).last ≡ shown (last_payload ls)
  unfolding new_usage_sink shown
  last-fresh max_buf ls = ground (arith, last-consider_all ls (new_usage_sink max_buf))

  -- However the upstream cuts a streamed response into chunks: the snapshot is the JSON of its
  -- last line that has one, cut to `maxSSEChunkBytes` bytes, and nothing if no line has; the model
  -- is the first that a line carries. The stream has no line longer than the accumulator's cap.
  pub streaming_result :
      (max_buf : ℤ) (chunks : List Text)
      → fits 0 (concat chunks) ≡ true
      → (snapshot (sampled max_buf chunks) ≡ shown (last_payload (lines (concat chunks))))
        × ((sampled max_buf chunks).model ≡ first_model (lines (concat chunks)))
  unfolding new_usage_sink
  streaming_result max_buf chunks f =
      let s = new_usage_sink max_buf in
      let ls = lines (concat chunks) in
      rw (streaming_lines s chunks f) (
        snapshot_of (consider_all ls s) (shown (last_payload ls)) (last-fresh max_buf ls)
            (buffered-consider_all ls s),
        model-consider_all ls s,
      )
