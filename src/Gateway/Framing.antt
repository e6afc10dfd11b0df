-- ===== src/Gateway/Framing.antt =====
-- Line framing of the gateway's tappingReader (apps/gateway/internal/proxy/streaming.go) against a
-- reader that looks at one byte at a time: how the upstream cuts the stream into chunks is of no
-- account.
use openllm_metrics.Prelude.{
  ℕ, zero, suc, ◌*◌, ◌<◌, ◌≡◌, refl, sym, ap, ◌∙◌, inl, inr, Bool, true, false, ◌&&◌, Option, none,
  some, [], ◌∷◌, ◌++◌, append-nil, append_assoc, Text, index_byte, length, length-append, take,
  drop, leb, ◌==◌, Bool-cases, arith, if◌then◌else◌,
}
use openllm_metrics.Gateway.Sink.{UsageSink, max_sse_chunk_bytes}
use openllm_metrics.Gateway.Tap.{
  StreamChunk, TappingReader, newline, cap_line, consider, drain, sample_streaming,
}

take-length-append : (buf r : Text) → take (length buf) (buf ++ r) ≡ buf
take-length-append [] r = refl
take-length-append (c ∷ buf) r = ap (◌∷◌ c) (take-length-append buf r)

drop-length-append : (buf r : Text) (b : ℕ) → drop (suc (length buf)) (buf ++ b ∷ r) ≡ r
drop-length-append [] r b = refl
drop-length-append (c ∷ buf) r b = drop-length-append buf r b

index_byte-append_hit :
    (buf r : Text) (b : ℕ)
    → index_byte newline buf ≡ none
    → (b == newline) ≡ true
    → index_byte newline (buf ++ b ∷ r) ≡ some (length buf)
unfolding index_byte
index_byte-append_hit [] r b h e = ground arith
index_byte-append_hit (c ∷ buf) r b h e = ground (arith, index_byte-append_hit buf r b)

index_byte-append_miss :
    (buf : Text) (b : ℕ)
    → index_byte newline buf ≡ none
    → (b == newline) ≡ false
    → index_byte newline (buf ++ b ∷ []) ≡ none
unfolding index_byte
index_byte-append_miss [] b h e = ground arith
index_byte-append_miss (c ∷ buf) b h e = ground (arith, index_byte-append_miss buf b)

-- No unterminated line grows past the accumulator's cap; `n` bytes of one are already held.
unfoldable pub fits : ℕ → Text → Bool
fits n [] = leb n (max_sse_chunk_bytes * 4)
fits n (b ∷ r) = leb n (max_sse_chunk_bytes * 4) && fits (if b == newline then 0 else suc n) r

module _ (decode : Text → Option StreamChunk) where
  -- The reference reader: a newline ends a line, every other byte extends it.
  unfoldable pub feed_byte : TappingReader → ℕ → TappingReader
  feed_byte t b =
      if b == newline
      then record t { sink = consider decode t.line_buf t.sink; line_buf = [] }
      else record t { line_buf = t.line_buf ++ b ∷ [] }

  unfoldable pub feed : TappingReader → Text → TappingReader
  feed t [] = t
  feed t (b ∷ r) = feed (feed_byte t b) r

  pub feed-append : (t : TappingReader) (xs ys : Text) → feed t (xs ++ ys) ≡ feed (feed t xs) ys
  unfolding feed
  feed-append t [] ys = refl
  feed-append t (b ∷ xs) ys = feed-append (feed_byte t b) xs ys

  pub feed-streaming : (t : TappingReader) (xs : Text) → (feed t xs).streaming ≡ t.streaming
  unfolding feed feed_byte
  feed-streaming t [] = refl
  feed-streaming t (b ∷ xs) = feed-streaming (feed_byte t b) xs ∙ ground arith

  drain_hit :
      (fuel : ℕ) (buf r : Text) (b : ℕ) (s : UsageSink)
      → index_byte newline buf ≡ none
      → (b == newline) ≡ true
      → drain decode (suc fuel) (buf ++ b ∷ r) s ≡ drain decode fuel r (consider decode buf s)
  unfolding drain
  drain_hit fuel buf r b s h e =
      rw (index_byte-append_hit buf r b h e, drain)
        (rw (take-length-append buf (b ∷ r), drop-length-append buf r b))

  drain_end :
      (fuel : ℕ) (buf : Text) (s : UsageSink)
      → index_byte newline buf ≡ none
      → fits (length buf) [] ≡ true
      → drain decode (suc fuel) buf s ≡ (buf, s)
  unfolding drain cap_line fits
  drain_end fuel buf s h f = ground arith

  feed_byte_hit :
      (t : TappingReader) (b : ℕ)
      → (b == newline) ≡ true
      → feed_byte t b ≡ record t { sink = consider decode t.line_buf t.sink; line_buf = [] }
  unfolding feed_byte
  feed_byte_hit t b e = rw e

  feed_byte_miss :
      (t : TappingReader) (b : ℕ)
      → (b == newline) ≡ false
      → feed_byte t b ≡ record t { line_buf = t.line_buf ++ b ∷ [] }
  unfolding feed_byte
  feed_byte_miss t b e = rw e

  fits_miss :
      (buf xs : Text) (b : ℕ)
      → (b == newline) ≡ false
      → fits (length buf) (b ∷ xs) ≡ true
      → fits (length (buf ++ b ∷ [])) xs ≡ true
  unfolding fits
  fits_miss buf xs b e f =
      let longer : length (buf ++ b ∷ []) ≡ suc (length buf) =
        omega (arith, length-append buf (b ∷ [])) in
      rw longer (ground arith)

  fits_hit :
      (n : ℕ) (xs : Text) (b : ℕ)
      → (b == newline) ≡ true
      → fits n (b ∷ xs) ≡ true
      → fits 0 xs ≡ true
  unfolding fits
  fits_hit n xs b e f = ground arith

  -- With enough fuel and short lines the loop does what the reference reader does.
  drain-feed :
      (fuel : ℕ) (xs : Text) (t : TappingReader)
      → index_byte newline t.line_buf ≡ none
      → length xs < fuel
      → fits (length t.line_buf) xs ≡ true
      → drain decode fuel (t.line_buf ++ xs) t.sink ≡ ((feed t xs).line_buf, (feed t xs).sink)
  unfolding feed index_byte
  drain-feed zero xs t h l f = absurd (omega arith)
  drain-feed (suc fuel) [] t h l f = rw append-nil (drain_end fuel t.line_buf t.sink h f)
  drain-feed (suc fuel) (b ∷ xs) t h l f = elim (Bool-cases (b == newline)) [
    | inl e ↦
        drain_hit fuel t.line_buf xs b t.sink h e
        ∙ rw (feed_byte_hit t b e, feed)
            (drain-feed fuel xs
              (record t { sink = consider decode t.line_buf t.sink; line_buf = [] }) refl
              (omega arith) (fits_hit (length t.line_buf) xs b e f))
    | inr e ↦
        rw (feed_byte_miss t b e, feed, sym (append_assoc t.line_buf (b ∷ []) xs))
          (drain-feed (suc fuel) xs (record t { line_buf = t.line_buf ++ b ∷ [] })
            (index_byte-append_miss t.line_buf b h e) (omega arith) (fits_miss t.line_buf xs b e f))
  ]

  -- `sampleStreaming` on a chunk is the reference reader on its bytes.
  pub sample_streaming-feed :
      (t : TappingReader) (chunk : Text)
      → index_byte newline t.line_buf ≡ none
      → fits (length t.line_buf) chunk ≡ true
      → sample_streaming decode t chunk ≡ feed t chunk
  unfolding sample_streaming
  sample_streaming-feed t chunk h f =
      rw
        (drain-feed (suc (length (t.line_buf ++ chunk))) chunk t h
          (omega (arith, length-append t.line_buf chunk)) f)
        (cc (feed-streaming t chunk))

  feed_byte_open :
      (t : TappingReader) (b : ℕ)
      → index_byte newline t.line_buf ≡ none
      → index_byte newline (feed_byte t b).line_buf ≡ none
  unfolding feed_byte index_byte
  feed_byte_open t b h = ground (arith, index_byte-append_miss t.line_buf b)

  pub feed_open :
      (t : TappingReader) (xs : Text)
      → index_byte newline t.line_buf ≡ none
      → index_byte newline (feed t xs).line_buf ≡ none
  unfolding feed
  feed_open t [] h = h
  feed_open t (b ∷ xs) h = feed_open (feed_byte t b) xs (feed_byte_open t b h)

  length-feed_byte :
      (t : TappingReader) (b : ℕ)
      → length (feed_byte t b).line_buf ≡ (if b == newline then 0 else suc (length t.line_buf))
  unfolding feed_byte
  length-feed_byte t b = ground (arith, length-append t.line_buf (b ∷ []))

  fits_now : (n : ℕ) (xs : Text) → fits n xs ≡ true → leb n (max_sse_chunk_bytes * 4) ≡ true
  unfolding fits
  fits_now n [] f = f
  fits_now n (b ∷ xs) f = ground arith

  fits_later :
      (t : TappingReader) (b : ℕ) (xs : Text)
      → fits (length t.line_buf) (b ∷ xs) ≡ true
      → fits (length (feed_byte t b).line_buf) xs ≡ true
  unfolding fits
  fits_later t b xs f = rw (length-feed_byte t b) (ground arith)

  -- A stream that fits, fits in its first part, and then in the rest.
  pub fits_append :
      (t : TappingReader) (xs ys : Text)
      → fits (length t.line_buf) (xs ++ ys) ≡ true
      → (fits (length t.line_buf) xs ≡ true) × (fits (length (feed t xs).line_buf) ys ≡ true)
  unfolding feed fits
  fits_append t [] ys f = (fits_now (length t.line_buf) ys f, f)
  fits_append t (b ∷ xs) ys f =
      let rest = fits_append (feed_byte t b) xs ys (fits_later t b (xs ++ ys) f) in
      (
        ground (arith, length-feed_byte t b, rest.0, fits_now (length t.line_buf) (b ∷ xs ++ ys) f),
        rest.1,
      )
