-- ===== src/Gateway/Bounds.antt =====
-- Memory bounds of the gateway's sampling (apps/gateway/internal/proxy/streaming.go), for every
-- upstream, malformed ones included.
use openllm_metrics.Prelude.{
  ℕ, zero, suc, ◌+◌, ◌-◌, ◌*◌, ◌≤◌, ◌<◌, min, ◌≡◌, refl, sym, ap, ◌∙◌, false, Option, none, some,
  List, [], ◌∷◌, ◌++◌, append_assoc, Text, index_byte, length, length-append, length-take,
  length-drop, take, drop, leb, Option-cases, Bool-cases, inl, inr, arith,
}
use openllm_metrics.Prelude.Int.{ℤ}
use openllm_metrics.Gateway.Sink.{
  UsageSink, new_usage_sink, max_sse_chunk_bytes, cut, snapshot, append_buffered, set_last,
  set_model_once,
}
use openllm_metrics.Gateway.Tap.{
  StreamChunk, TappingReader, newline, payload, cap_line, consider, new_tapping_reader, drain,
  sample_streaming, read, read_all, flush_tail,
}
use openllm_metrics.Gateway.Chunks
use openllm_metrics.Gateway.Chunks.{concat, shown}

pub record IsBounded (t : TappingReader) : Type 0 where
  pub line : length t.line_buf ≤ max_sse_chunk_bytes * 4
  pub last : length t.sink.last ≤ max_sse_chunk_bytes
  pub buffered : length t.sink.buffered ≤ t.sink.max_buf

index_byte_bound : (b : ℕ) (s : Text) (i : ℕ) → index_byte b s ≡ some i → i < length s
unfolding index_byte
index_byte_bound b [] i h = cc
index_byte_bound b (c ∷ s) i h = grind (arith, index_byte_bound b s)

length-cap_line : (buf : Text) → length (cap_line buf) ≤ max_sse_chunk_bytes * 4
unfolding cap_line
length-cap_line buf = ground (arith, length-drop (length buf - max_sse_chunk_bytes) buf)

length-cut : (max : ℕ) (line : Text) → length (cut max line) ≤ max
unfolding cut
length-cut max line = ground (arith, length-take max line)

length-shown : (o : Option Text) → length (shown o) ≤ max_sse_chunk_bytes
unfolding shown
length-shown none = omega arith
length-shown (some d) = length-cut max_sse_chunk_bytes d

length-append-take : (b p : Text) (n : ℕ) → length (b ++ take n p) ≤ length b + n
length-append-take b p n = omega (arith, length-append b (take n p), length-take n p)

length-append_buffered :
    (p : Text) (s : UsageSink)
    → length s.buffered ≤ s.max_buf
    → length (append_buffered p s).buffered ≤ s.max_buf
unfolding append_buffered
length-append_buffered p s h =
    ground (arith, length-append-take s.buffered p (min (s.max_buf - length s.buffered) (length p)))

last-append_buffered :
    (p : Text) (s : UsageSink)
    → ((append_buffered p s).last ≡ s.last) × ((append_buffered p s).max_buf ≡ s.max_buf)
unfolding append_buffered
last-append_buffered p s = ground arith

take-min : (m : ℕ) (p : Text) → take (min m (length p)) p ≡ take m p
take-min zero p = let e : min 0 (length p) ≡ 0 = omega arith in rw e
take-min (suc m) [] = let e : min (suc m) 0 ≡ 0 = omega arith in rw e
take-min (suc m) (x ∷ p) =
    let e : min (suc m) (suc (length p)) ≡ suc (min m (length p)) = omega arith in
    rw e (ap (◌∷◌ x) (take-min m p))

take_all : (m : ℕ) (b : Text) → length b ≤ m → take m (b ++ []) ≡ b
take_all zero [] h = refl
take_all zero (x ∷ b) h = absurd (omega arith)
take_all (suc m) [] h = refl
take_all (suc m) (x ∷ b) h = ap (◌∷◌ x) (take_all m b (omega arith))

take_full : (m : ℕ) (b p : Text) → length b ≡ m → take m (b ++ p) ≡ b
take_full zero [] p h = refl
take_full zero (x ∷ b) p h = absurd (omega arith)
take_full (suc m) [] p h = absurd (omega arith)
take_full (suc m) (x ∷ b) p h = ap (◌∷◌ x) (take_full m b p (omega arith))

take-take-append : (n : ℕ) (xs ys : Text) → take n (take n xs ++ ys) ≡ take n (xs ++ ys)
take-take-append zero xs ys = refl
take-take-append (suc n) [] ys = refl
take-take-append (suc n) (x ∷ xs) ys = ap (◌∷◌ x) (take-take-append n xs ys)

take-append :
    (m : ℕ) (b p : Text)
    → length b ≤ m
    → b ++ take (min (m - length b) (length p)) p ≡ take m (b ++ p)
take-append m [] p h = let e : m - 0 ≡ m = omega arith in rw e (take-min m p)
take-append zero (x ∷ b) p h = absurd (omega arith)
take-append (suc m) (x ∷ b) p h =
    let e : suc m - suc (length b) ≡ m - length b = omega arith in
    rw e (ap (◌∷◌ x) (take-append m b p (omega arith)))

append_buffered-take :
    (p : Text) (s : UsageSink)
    → length s.buffered ≤ s.max_buf
    → (append_buffered p s).buffered ≡ take s.max_buf (s.buffered ++ p)
unfolding append_buffered
append_buffered-take p s h = elim (Bool-cases (leb s.max_buf (length s.buffered))) [
  | inl full ↦ rw full (sym (take_full s.max_buf s.buffered p (ground arith)))
  | inr room ↦ rw room (take-append s.max_buf s.buffered p h)
]

module _ (decode : Text → Option StreamChunk) where
  last-consider :
      (line : Text) (s : UsageSink)
      → length s.last ≤ max_sse_chunk_bytes
      → length (consider decode line s).last ≤ max_sse_chunk_bytes
  last-consider line s h =
      ground (arith, Chunks.last-consider decode line s, length-shown (payload line))

  consider_keeps :
      (line : Text) (s : UsageSink)
      → ((consider decode line s).buffered ≡ s.buffered)
        × ((consider decode line s).max_buf ≡ s.max_buf)
  unfolding consider set_last set_model_once
  consider_keeps line s = ground arith

  drain_bounds :
      (fuel : ℕ) (buf : Text) (s : UsageSink)
      → length buf < fuel
      → length s.last ≤ max_sse_chunk_bytes
      → (length (drain decode fuel buf s).0 ≤ max_sse_chunk_bytes * 4)
        × (length (drain decode fuel buf s).1.last ≤ max_sse_chunk_bytes)
  unfolding drain
  drain_bounds zero buf s l h = absurd (omega arith)
  drain_bounds (suc fuel) buf s l h = elim (Option-cases (index_byte newline buf)) [
    | inl e ↦ rw (e, drain) (length-cap_line buf, h)
    | inr (i, e) ↦
        rw (e, drain)
          (drain_bounds fuel (drop (suc i) buf) (consider decode (take i buf) s)
            (omega (arith, length-drop (suc i) buf, index_byte_bound newline buf i e))
            (last-consider (take i buf) s h))
  ]

  drain_keeps :
      (fuel : ℕ) (buf : Text) (s : UsageSink)
      → ((drain decode fuel buf s).1.buffered ≡ s.buffered)
        × ((drain decode fuel buf s).1.max_buf ≡ s.max_buf)
  unfolding drain
  drain_keeps zero buf s = (refl, refl)
  drain_keeps (suc fuel) buf s = elim (Option-cases (index_byte newline buf)) [
    | inl e ↦ rw (e, drain) (refl, refl)
    | inr (i, e) ↦
        let later = drain_keeps fuel (drop (suc i) buf) (consider decode (take i buf) s) in
        let now = consider_keeps (take i buf) s in rw (e, drain) (later.0 ∙ now.0, later.1 ∙ now.1)
  ]

  -- One read of any bytes whatever keeps the bounds.
  read-IsBounded :
      (t : TappingReader) (chunk : Text) → IsBounded t → IsBounded (read decode t chunk)
  unfolding read sample_streaming
  read-IsBounded t chunk h = ground (
    arith,
    length-append_buffered chunk t.sink,
    last-append_buffered chunk t.sink,
    drain_bounds (suc (length (t.line_buf ++ chunk))) (t.line_buf ++ chunk) t.sink,
    drain_keeps (suc (length (t.line_buf ++ chunk))) (t.line_buf ++ chunk) t.sink,
  )

  -- From a bounded reader, whatever the chunks, the accumulator, the last chunk and the buffered
  -- prefix never pass their caps.
  pub read_all-IsBounded :
      (t : TappingReader) (chunks : List Text) → IsBounded t → IsBounded (read_all decode t chunks)
  unfolding read_all
  read_all-IsBounded t [] h = h
  read_all-IsBounded t (c ∷ cs) h = read_all-IsBounded (read decode t c) cs (read-IsBounded t c h)

  read_buffered :
      (t : TappingReader) (c : Text)
      → t.streaming ≡ false
      → length t.sink.buffered ≤ t.sink.max_buf
      → ((read decode t c).streaming ≡ false)
        × ((read decode t c).sink.max_buf ≡ t.sink.max_buf)
        × ((read decode t c).sink.last ≡ t.sink.last)
        × ((read decode t c).sink.buffered ≡ take t.sink.max_buf (t.sink.buffered ++ c))
  unfolding read
  read_buffered t [] st h = (st, refl, refl, sym (take_all t.sink.max_buf t.sink.buffered h))
  read_buffered t (x ∷ c) st h =
      ground (arith, append_buffered-take (x ∷ c) t.sink, last-append_buffered (x ∷ c) t.sink)

  read_all_buffered :
      (chunks : List Text) (t : TappingReader)
      → t.streaming ≡ false
      → length t.sink.buffered ≤ t.sink.max_buf
      → ((read_all decode t chunks).streaming ≡ false)
        × ((read_all decode t chunks).sink.last ≡ t.sink.last)
        × ((read_all decode t chunks).sink.buffered
            ≡ take t.sink.max_buf (t.sink.buffered ++ concat chunks))
  unfolding read_all concat
  read_all_buffered [] t st h = (st, refl, sym (take_all t.sink.max_buf t.sink.buffered h))
  read_all_buffered (c ∷ cs) t st h =
      let (st', cap', last', now) = read_buffered t c st h in
      let m = t.sink.max_buf in
      let b = t.sink.buffered in
      let fits' : length (read decode t c).sink.buffered ≤ (read decode t c).sink.max_buf =
        rw (now, cap') (omega (arith, length-take m (b ++ c))) in
      let (st'', last'', later) = read_all_buffered cs (read decode t c) st' fits' in
      (
        st'',
        last'' ∙ last',
        later
            ∙ rw (cap', now)
                (take-take-append m (b ++ c) (concat cs)
                  ∙ ap (take m) (append_assoc b c (concat cs))),
      )

  -- The snapshot of a buffered response is the prefix of its body that the cap allows, however the
  -- upstream cuts it into chunks.
  pub buffered_result :
      (max_buf : ℤ) (chunks : List Text)
      → snapshot
          (flush_tail decode
            (read_all decode (new_tapping_reader (new_usage_sink max_buf) false) chunks)).sink
        ≡ take (new_usage_sink max_buf).max_buf (concat chunks)
  unfolding snapshot flush_tail new_tapping_reader new_usage_sink
  buffered_result max_buf chunks =
      let t = new_tapping_reader (new_usage_sink max_buf) false in
      ground (arith, read_all_buffered chunks t)
