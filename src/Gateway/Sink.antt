-- ===== src/Gateway/Sink.antt =====
-- usageSink of apps/gateway/internal/proxy/streaming.go: the last sampled chunk of a streaming
-- response, or a bounded prefix of a buffered one. A method returns the new sink.
use openllm_metrics.Prelude.{
  ℕ, ◌-◌, ◌*◌, [], ◌++◌, Text, is_empty, length, take, leb, ltb, min, if◌then◌else◌,
}
use openllm_metrics.Prelude.Int.{ℤ, pos, pos_part, ltb_ℤ}

abbrev pub max_sse_chunk_bytes : ℕ
max_sse_chunk_bytes = 16 * 1024

pub record UsageSink : Type 0 where
  pub last : Text
  pub buffered : Text
  pub max_buf : ℕ
  pub model : Text

unfoldable pub new_usage_sink : ℤ → UsageSink
new_usage_sink max_buf = record {
  last = [];
  buffered = [];
  max_buf = if ltb_ℤ (pos 0) max_buf then pos_part max_buf else 256 * 1024;
  model = [];
}

unfoldable pub snapshot : UsageSink → Text
snapshot s = if ltb 0 (length s.last) then s.last else s.buffered

unfoldable pub append_buffered : Text → UsageSink → UsageSink
append_buffered p s = if leb s.max_buf (length s.buffered) then s else record s {
  buffered = s.buffered ++ take (min (s.max_buf - length s.buffered) (length p)) p;
}

-- `if len(line) > max { line = line[:max] }`
unfoldable pub cut : ℕ → Text → Text
cut max line = if ltb max (length line) then take max line else line

unfoldable pub set_last : Text → UsageSink → UsageSink
set_last line s = record s { last = cut max_sse_chunk_bytes line }

unfoldable pub set_model_once : Text → UsageSink → UsageSink
set_model_once m s =
    if is_empty m then s else if is_empty s.model then record s { model = m } else s
