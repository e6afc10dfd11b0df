-- ===== src/Dedup/Invariant.antt =====
-- The dedup LRU's list and map agree (apps/worker/usage-poller/openai/internal/dedup/dedup.go,
-- apps/api/metrics-endpoint/internal/consumer/dedup.go).
use openllm_metrics.Prelude.{
  suc, ◌≤◌, ◌<◌, ◌≡◌, refl, true, false, some, List, [], ◌∷◌, Text, ltb, length, length-take,
  Bool-cases, Option-cases, inl, inr, arith,
}
use openllm_metrics.Prelude.Int.{ℤ, pos, negsuc}
use openllm_metrics.Dedup.{Lru, new_lru, evict, seen, run}
use openllm_metrics.Dedup.Lists.{
  mem, delete, back, distinct, mem-delete, distinct-delete, drop_last-delete, back-none,
  distinct-take, drop_last-take,
}

pub record IsValid (s : Lru) : Type 0 where
  pub positive : 0 < s.capacity
  pub bounded : length s.order ≤ s.capacity
  pub distinct_keys : distinct s.order ≡ true
  pub synced : (k : Text) → mem k s.index ≡ mem k s.order

pub new_lru-IsValid : (capacity : ℤ) → IsValid (new_lru capacity)
unfolding new_lru distinct
new_lru-IsValid (pos n) = record {
  positive = ground arith;
  bounded = ground arith;
  distinct_keys = refl;
  synced = λ k. refl;
}
new_lru-IsValid (negsuc n) = record {
  positive = ground arith;
  bounded = ground arith;
  distinct_keys = refl;
  synced = λ k. refl;
}

length-delete-le : (k : Text) (xs : List Text) → length (delete k xs) ≤ length xs
unfolding delete
length-delete-le k [] = omega arith
length-delete-le k (x ∷ xs) = ground (arith, length-delete-le k xs)

length-delete :
    (k : Text) (xs : List Text) → mem k xs ≡ true → suc (length (delete k xs)) ≤ length xs
unfolding delete mem
length-delete k [] h = cc
length-delete k (x ∷ xs) h = ground (arith, length-delete k xs, length-delete-le k xs)

back-some : (x : Text) (xs : List Text) → (b : Text) × (back (x ∷ xs) ≡ some b)
unfolding back
back-some x [] = (x, refl)
back-some x (y ∷ ys) = back-some y ys

-- The cache before the eviction: one key too many at most.
record IsFull (s : Lru) : Type 0 where
  positive : 0 < s.capacity
  bounded : length s.order ≤ suc s.capacity
  distinct_keys : distinct s.order ≡ true
  synced : (k : Text) → mem k s.index ≡ mem k s.order

evict-IsValid : (s : Lru) → IsFull s → IsValid (evict s)
unfolding evict
evict-IsValid s h = elim (Bool-cases (ltb s.capacity (length s.order))) [
  | inr room ↦ rw room (record {
    positive = h.positive;
    bounded = ground arith;
    distinct_keys = h.distinct_keys;
    synced = h.synced;
  })
  | inl over ↦ elim (Option-cases (back s.order)) [
    | inl e ↦ absurd (ground (arith, back-none s.order e))
    | inr (b, e) ↦
        let full : length s.order ≡ suc s.capacity = ground (arith, h.bounded) in
        let rest = drop_last-take s.capacity s.order full in
        rw (over, e)
          (record {
            positive = h.positive;
            bounded = rw rest (omega (arith, length-take s.capacity s.order));
            distinct_keys = rw rest (distinct-take s.capacity s.order h.distinct_keys);
            synced = λ k. rw (
              drop_last-delete s.order b h.distinct_keys e,
              mem-delete b k s.index,
              mem-delete b k s.order,
              h.synced k,
            );
          })
  ]
]

seen_miss-IsFull :
    (k : Text) (s : Lru)
    → IsValid s
    → mem k s.index ≡ false
    → IsFull (record s { order = k ∷ s.order; index = k ∷ s.index })
unfolding mem distinct
seen_miss-IsFull k s h m = record {
  positive = h.positive;
  bounded = omega (arith, h.bounded);
  distinct_keys = ground (arith, h.synced k);
  synced = λ j. ground (arith, h.synced j);
}

pub seen-IsValid : (k : Text) (s : Lru) → IsValid s → IsValid (seen k s).1
unfolding seen
seen-IsValid k s h = elim (Bool-cases (mem k s.index)) [
  | inl old ↦ rw old (record {
    positive = h.positive;
    bounded = ground (arith, length-delete k s.order, h.synced k, h.bounded);
    distinct_keys =
        unfold distinct in ground (arith, distinct-delete k s.order, mem-delete k k s.order);
    synced = λ j. unfold mem in ground (arith, h.synced j, h.synced k, mem-delete k j s.order);
  })
  | inr new ↦ rw new (
      evict-IsValid (record s { order = k ∷ s.order; index = k ∷ s.index })
        (seen_miss-IsFull k s h new))
]

-- Whatever keys are seen, the cache stays within its capacity, holds no key twice, and its list and
-- its map hold the same keys.
pub run-IsValid : (ks : List Text) (s : Lru) → IsValid s → IsValid (run ks s).1
unfolding run
run-IsValid [] s h = h
run-IsValid (k ∷ ks) s h = run-IsValid ks (seen k s).1 (seen-IsValid k s h)
