-- ===== src/Dedup.antt =====
-- The dedup caches: apps/worker/usage-poller/openai/internal/dedup/dedup.go and
-- apps/api/metrics-endpoint/internal/consumer/dedup.go, which run the same LRU, the one on the
-- text of a usage window and the other on an event's key.
pub mod Lists
pub mod Invariant
pub mod Window
pub mod Replay
pub mod Key
mod Tests
use openllm_metrics.Prelude.{
  ℕ, Bool, true, false, Option, none, some, List, [], ◌∷◌, Text, ltb, length, if◌then◌else◌,
}
use openllm_metrics.Prelude.Int.{ℤ, pos, pos_part, ltb_ℤ}
use openllm_metrics.Dedup.Lists.{mem, delete, back, drop_last}

-- `order` is the list, most recent first; `index` is the key set of the map beside it.
pub record Lru : Type 0 where
  pub capacity : ℕ
  pub order : List Text
  pub index : List Text

unfoldable pub new_lru : ℤ → Lru
new_lru capacity = record {
  capacity = if ltb_ℤ (pos 0) capacity then pos_part capacity else 1;
  order = [];
  index = [];
}

drop_back : Option Text → Lru → Lru
drop_back none s = s
drop_back (some b) s = record s { index = delete b s.index; order = drop_last s.order }

unfoldable pub evict : Lru → Lru
unfolding drop_back
evict s = if ltb s.capacity (length s.order) then drop_back (back s.order) s else s

-- True when the key is new, with the new cache.
unfoldable pub seen : Text → Lru → Bool × Lru
seen k s =
    if mem k s.index
    then (false, record s { order = k ∷ delete k s.order })
    else (true, evict (record s { order = k ∷ s.order; index = k ∷ s.index }))

-- The answers for a sequence of keys.
unfoldable pub run : List Text → Lru → List Bool × Lru
run [] s = ([], s)
run (k ∷ ks) s = let (first, s') = seen k s in let (rest, s'') = run ks s' in (first ∷ rest, s'')
