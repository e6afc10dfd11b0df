-- ===== src/Dedup/Window.antt =====
-- The dedup LRU against a history that forgets nothing
-- (apps/worker/usage-poller/openai/internal/dedup/dedup.go,
-- apps/api/metrics-endpoint/internal/consumer/dedup.go).
use openllm_metrics.Prelude.{
  ℕ, zero, suc, ◌-◌, ◌≤◌, ◌≡◌, refl, ap, sym, ◌∙◌, Bool, true, false, not, List, [], ◌∷◌, Text, ltb,
  length, take, length-take, Bool-cases, Option-cases, inl, inr, arith,
}
use openllm_metrics.Prelude.Int.{ℤ}
use openllm_metrics.Dedup.{Lru, new_lru, evict, seen, run}
use openllm_metrics.Dedup.Lists.{
  mem, delete, back, distinct, mem-delete, distinct-delete, delete-take_hit, delete-take_miss,
  drop_last-take, take-length-le, back-none, mem-take,
}
use openllm_metrics.Dedup.Invariant.{IsValid, new_lru-IsValid, seen-IsValid}

-- Every key ever seen, most recent first.
unfoldable pub note : Text → List Text → List Text
note k h = k ∷ delete k h

-- The answers of the specification: a key is new unless it is among the `cap` most recent ones.
unfoldable pub spec : ℕ → List Text → List Text → List Bool
spec cap h [] = []
spec cap h (k ∷ ks) = not (mem k (take cap h)) ∷ spec cap (note k h) ks

pub record Tracks (h : List Text) (s : Lru) : Type 0 where
  pub valid : IsValid s
  pub known : distinct h ≡ true
  pub window : s.order ≡ take s.capacity h

capacity-evict : (s : Lru) → (evict s).capacity ≡ s.capacity
unfolding evict
capacity-evict s = ground arith

pub capacity-seen : (k : Text) (s : Lru) → (seen k s).1.capacity ≡ s.capacity
unfolding seen
capacity-seen k s = elim (Bool-cases (mem k s.index)) [
  | inl e ↦ rw e refl
  | inr e ↦ rw e (capacity-evict (record s { order = k ∷ s.order; index = k ∷ s.index }))
]

take_nil : (n : ℕ) → take {A = Text} n [] ≡ []
take_nil zero = refl
take_nil (suc n) = refl

take-take : (n : ℕ) (h : List Text) → take n (take (suc n) h) ≡ take n h
take-take zero h = refl
take-take (suc n) [] = refl
take-take (suc n) (x ∷ h) = ap (◌∷◌ x) (take-take n h)

take_short : (n : ℕ) (h : List Text) → length (take (suc n) h) ≤ n → take (suc n) h ≡ take n h
take_short n h l =
    take-length-le (suc n) h (omega (arith, length-take (suc n) h))
    ∙ sym (take-length-le n h (omega (arith, length-take (suc n) h)))

-- A cache whose list is the history's first keys.
abbrev cache : ℕ → List Text → List Text → Lru
cache n h index = record { capacity = suc n; order = take (suc n) h; index = index }

order-evict :
    (k : Text) (n : ℕ) (h index : List Text)
    → (evict (record (cache n h index) { order = k ∷ take (suc n) h; index = k ∷ index })).order
      ≡ k ∷ take n h
unfolding evict
order-evict k n h index = elim (Bool-cases (ltb (suc n) (length (k ∷ take (suc n) h)))) [
  | inr room ↦ rw room (ap (◌∷◌ k) (take_short n h (ground arith)))
  | inl over ↦ elim (Option-cases (back (k ∷ take (suc n) h))) [
    | inl e ↦ absurd (omega (arith, back-none (k ∷ take (suc n) h) e))
    | inr (b, e) ↦
        let full : length (k ∷ take (suc n) h) ≡ suc (suc n) =
          ground (arith, length-take (suc n) h) in
        rw (over, e) (drop_last-take (suc n) (k ∷ take (suc n) h) full ∙ ap (◌∷◌ k) (take-take n h))
  ]
]

seen_hit :
    (k : Text) (n : ℕ) (h index : List Text)
    → mem k index ≡ true
    → seen k (cache n h index)
      ≡ (false, record (cache n h index) { order = k ∷ delete k (take (suc n) h) })
unfolding seen
seen_hit k n h index m = rw m

seen_miss :
    (k : Text) (n : ℕ) (h index : List Text)
    → mem k index ≡ false
    → seen k (cache n h index)
      ≡ (true, evict (record (cache n h index) { order = k ∷ take (suc n) h; index = k ∷ index }))
unfolding seen
seen_miss k n h index m = rw m

mem-take_less :
    (k : Text) (n : ℕ) (h : List Text) → mem k (take (suc n) h) ≡ false → mem k (take n h) ≡ false
mem-take_less k n h m = rw (sym (take-take n h)) (mem-take k n (take (suc n) h) m)

seen-cache :
    (k : Text) (n : ℕ) (h index : List Text)
    → distinct h ≡ true
    → mem k index ≡ mem k (take (suc n) h)
    → ((seen k (cache n h index)).0 ≡ not (mem k (take (suc n) h)))
      × ((seen k (cache n h index)).1.order ≡ take (suc n) (note k h))
unfolding note
seen-cache k n h index d m = elim (Bool-cases (mem k (take (suc n) h))) [
  | inl old ↦
      rw (seen_hit k n h index (m ∙ old), old) (refl, ap (◌∷◌ k) (delete-take_hit k n h d old))
  | inr new ↦
      rw (seen_miss k n h index (m ∙ new), new)
        (
          refl,
          order-evict k n h index
              ∙ ap (◌∷◌ k) (sym (delete-take_miss k n h (mem-take_less k n h new))),
        )
]

distinct-note : (k : Text) (h : List Text) → distinct h ≡ true → distinct (note k h) ≡ true
unfolding note distinct
distinct-note k h d = ground (arith, distinct-delete k h, mem-delete k k h)

-- One key: the answer of the specification, and the window stays the history's first keys.
pub seen-Tracks :
    (k : Text) (h : List Text) (s : Lru)
    → Tracks h s
    → ((seen k s).0 ≡ not (mem k (take s.capacity h))) × Tracks (note k h) (seen k s).1
seen-Tracks k h s t =
    let n = s.capacity - 1 in
    let pos' : s.capacity ≡ suc n = omega (arith, t.valid.positive) in
    let w : s.order ≡ take (suc n) h = t.window ∙ ap (λ c. take c h) pos' in
    let m : mem k s.index ≡ mem k (take (suc n) h) = t.valid.synced k ∙ ap (mem k) w in
    let whole : s ≡ cache n h s.index =
      λ i. record { capacity = pos' i; order = w i; index = s.index } in
    let step = seen-cache k n h s.index t.known m in
    (
      ap (λ c. (seen k c).0) whole ∙ step.0 ∙ ap (λ c. not (mem k (take c h))) (sym pos'),
      record {
        valid = seen-IsValid k s t.valid;
        known = distinct-note k h t.known;
        window =
            ap (λ c. (seen k c).1.order) whole
            ∙ step.1
            ∙ ap (λ c. take c (note k h)) (sym pos' ∙ sym (capacity-seen k s));
      },
    )

pub run-Tracks : (ks h : List Text) (s : Lru) → Tracks h s → (run ks s).0 ≡ spec s.capacity h ks
unfolding run spec
run-Tracks [] h s t = refl
run-Tracks (k ∷ ks) h s t =
    let (now, next) = seen-Tracks k h s t in
    let later = run-Tracks ks (note k h) (seen k s).1 next in
    rw (now, later, capacity-seen k s) refl

-- A fresh cache calls a key new exactly when it is not among the last `capacity` distinct keys seen,
-- most recently used first; a capacity of 0 or less counts as 1.
pub run-spec :
    (capacity : ℤ) (ks : List Text)
    → (run ks (new_lru capacity)).0 ≡ spec (new_lru capacity).capacity [] ks
unfolding new_lru distinct
run-spec capacity ks = run-Tracks ks [] (new_lru capacity) (record {
  valid = new_lru-IsValid capacity;
  known = refl;
  window = sym (take_nil (new_lru capacity).capacity);
})
