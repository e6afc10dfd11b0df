-- ===== src/Dedup/Replay.antt =====
-- Replaying a batch of keys through the dedup LRU
-- (apps/worker/usage-poller/openai/internal/dedup/dedup.go).
use openllm_metrics.Prelude.{
  ℕ, zero, suc, ◌+◌, ◌≤◌, ◌≡◌, ◌≢◌, refl, ap, sym, ◌∙◌, Bool, true, false, ◌&&◌, List, [], ◌∷◌,
  Text, length, take, replicate, arith,
}
use openllm_metrics.Dedup.{Lru, seen, run}
use openllm_metrics.Dedup.Lists.{mem, delete, mem-delete, distinct, delete-take_hit, take-length-le}
use openllm_metrics.Dedup.Invariant.{IsValid}
use openllm_metrics.Dedup.Window.{note, spec, Tracks, seen-Tracks, run-Tracks, capacity-seen}

unfoldable pub subset : List Text → List Text → Bool
subset [] xs = true
subset (k ∷ ks) xs = mem k xs && subset ks xs

subset_mono :
    (ks xs ys : List Text)
    → ((j : Text) → mem j xs ≡ true → mem j ys ≡ true)
    → subset ks xs ≡ true
    → subset ks ys ≡ true
unfolding subset
subset_mono [] xs ys f h = refl
subset_mono (k ∷ ks) xs ys f h = ground (arith, f k, subset_mono ks xs ys f)

mem-take-le :
    (j : Text) (m n : ℕ) (h : List Text) → m ≤ n → mem j (take m h) ≡ true → mem j (take n h) ≡ true
unfolding mem
mem-take-le j zero n h l e = cc
mem-take-le j (suc m) zero h l e = absurd (omega arith)
mem-take-le j (suc m) (suc n) [] l e = cc
mem-take-le j (suc m) (suc n) (x ∷ h) l e = ground (arith, mem-take-le j m n h)

mem-take-delete :
    (j k : Text) (m : ℕ) (h : List Text)
    → j ≢ k
    → mem j (take m h) ≡ true
    → mem j (take m (delete k h)) ≡ true
unfolding mem delete
mem-take-delete j k zero h ne e = cc
mem-take-delete j k (suc m) [] ne e = cc
mem-take-delete j k (suc m) (x ∷ h) ne e =
    ground (arith, mem-take-delete j k m h, mem-take-le j m (suc m) (delete k h))

-- A use of another key pushes a key back by one place at most.
mem-take-note :
    (j k : Text) (m : ℕ) (h : List Text)
    → mem j (take m h) ≡ true
    → mem j (take (suc m) (note k h)) ≡ true
unfolding note mem
mem-take-note j k m h e = ground (arith, mem-take-delete j k m h)

-- A use of a key among the first m pushes none of these out.
mem-take-note_hit :
    (j k : Text) (m : ℕ) (h : List Text)
    → distinct h ≡ true
    → mem k (take m h) ≡ true
    → mem j (take m h) ≡ true
    → mem j (take m (note k h)) ≡ true
unfolding note mem
mem-take-note_hit j k zero h d a e = cc
mem-take-note_hit j k (suc n) h d a e =
    ground (arith, delete-take_hit k n h, mem-delete k j (take (suc n) h))

note_all : List Text → List Text → List Text
note_all [] h = h
note_all (k ∷ ks) h = note_all ks (note k h)

mem-note_all :
    (j : Text) (ks h : List Text) (m : ℕ)
    → mem j (take m h) ≡ true
    → mem j (take (length ks + m) (note_all ks h)) ≡ true
unfolding note_all
mem-note_all j [] h m e = mem-take-le j m (0 + m) h (omega arith) e
mem-note_all j (k ∷ ks) h m e =
    let next = mem-note_all j ks (note k h) (suc m) (mem-take-note j k m h e) in
    mem-take-le j (length ks + suc m) (suc (length ks) + m) (note_all ks (note k h)) (omega arith)
      next

mem-noted :
    (j : Text) (ks h : List Text)
    → mem j ks ≡ true
    → mem j (take (length ks) (note_all ks h)) ≡ true
unfolding note_all mem note
mem-noted j [] h e = cc
mem-noted j (k ∷ ks) h e =
    let fresh : mem k (take 1 (note k h)) ≡ true = ground arith in
    let last = mem-note_all k ks (note k h) 1 fresh in
    let here : mem k (take (suc (length ks)) (note_all ks (note k h))) ≡ true =
      mem-take-le k (length ks + 1) (suc (length ks)) (note_all ks (note k h)) (omega arith) last in
    let later = mem-noted j ks (note k h) in
    ground
      (arith, here, later, mem-take-le j (length ks) (suc (length ks)) (note_all ks (note k h)))

subset-take_noted :
    (js ks h : List Text) (n : ℕ)
    → subset js ks ≡ true
    → length ks ≤ n
    → subset js (take n (note_all ks h)) ≡ true
subset-take_noted js ks h n b l =
    subset_mono js ks (take n (note_all ks h))
      (λ j e. mem-take-le j (length ks) n (note_all ks h) l (mem-noted j ks h e)) b

Tracks-run : (ks h : List Text) (s : Lru) → Tracks h s → Tracks (note_all ks h) (run ks s).1
unfolding run note_all
Tracks-run [] h s t = t
Tracks-run (k ∷ ks) h s t = Tracks-run ks (note k h) (seen k s).1 (seen-Tracks k h s t).1

capacity-run : (ks : List Text) (s : Lru) → (run ks s).1.capacity ≡ s.capacity
unfolding run
capacity-run [] s = refl
capacity-run (k ∷ ks) s = capacity-run ks (seen k s).1 ∙ capacity-seen k s

-- The specification calls none of the window's keys new.
spec_old :
    (js h : List Text) (s : Lru)
    → Tracks h s
    → subset js (take s.capacity h) ≡ true
    → spec s.capacity h js ≡ replicate (length js) false
unfolding subset spec
spec_old [] h s t b = refl
spec_old (j ∷ js) h s t b =
    let here : mem j (take s.capacity h) ≡ true = ground arith in
    let rest : subset js (take s.capacity h) ≡ true = ground arith in
    let kept =
      subset_mono js (take s.capacity h) (take s.capacity (note j h))
        (λ i e. mem-take-note_hit i j s.capacity h t.known here e) rest in
    let next = (seen-Tracks j h s t).1 in
    let later = spec_old js (note j h) (seen j s).1 next (rw (capacity-seen j s) kept) in
    rw here (ap (◌∷◌ false) (sym (ap (λ c. spec c (note j h) js) (capacity-seen j s)) ∙ later))

IsValid-Tracks : (s : Lru) → IsValid s → Tracks s.order s
IsValid-Tracks s v = record {
  valid = v;
  known = v.distinct_keys;
  window = sym (take-length-le s.capacity s.order v.bounded);
}

-- After a batch of at most as many keys as the cache holds, whatever the cache held before, none of
-- the batch's keys is new any more: any sequence of them, of any length, is answered with false.
pub replay_silent :
    (ks js : List Text) (s : Lru)
    → IsValid s
    → length ks ≤ s.capacity
    → subset js ks ≡ true
    → (run js (run ks s).1).0 ≡ replicate (length js) false
replay_silent ks js s v l b =
    let t = Tracks-run ks s.order s (IsValid-Tracks s v) in
    let after = (run ks s).1 in
    let room : length ks ≤ after.capacity = rw (capacity-run ks s) l in
    run-Tracks js (note_all ks s.order) after t
    ∙ spec_old js (note_all ks s.order) after t
        (subset-take_noted js ks s.order after.capacity b room)
