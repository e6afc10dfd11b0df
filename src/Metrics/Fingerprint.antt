-- ===== src/Metrics/Fingerprint.antt =====
-- labelFingerprint of apps/api/metrics-endpoint/internal/aggregator/aggregator.go tells label maps
-- apart while no label holds a NUL.
pub mod SameMap
use openllm_metrics.Prelude.{
  ℕ, ◌≡◌, ◌≢◌, refl, ap, sym, ◌∙◌, Bool, true, false, Option, none, some, List, [], ◌∷◌, ◌++◌, Text,
  Text-discrete, ℕ_discrete, arith, ite, if◌then◌else◌, ◌==◌, get, keys, is_in, map, insert_string,
  sort_strings, text_leb, append-nil, append_assoc,
}
use openllm_metrics.Metrics.Projection.{Labels}
use openllm_metrics.Metrics.Aggregator.{label_fingerprint, label_of, write_pairs}

-- The byte does not occur in the text.
unfoldable pub lacks : ℕ → Text → Bool
lacks b [] = true
lacks b (c ∷ s) = if c == b then false else lacks b s

-- No key holds an equals sign and no value a NUL.
unfoldable pub is_plain : Labels → Bool
is_plain [] = true
is_plain ((k, v) ∷ ls) = if lacks b'=' k then (if lacks 0 v then is_plain ls else false) else false

cons_parts : (a b : ℕ) (s t : Text) → a ∷ s ≡ b ∷ t → (a ≡ b) × (s ≡ t)
cons_parts a b s t e = (cc, cc)

-- A text that lacks a byte ends where the byte first stands.
pub cut_at :
    (b : ℕ) (s t u v : Text)
    → lacks b s ≡ true
    → lacks b t ≡ true
    → s ++ (b ∷ u) ≡ t ++ (b ∷ v)
    → (s ≡ t) × (u ≡ v)
unfolding lacks
cut_at b [] [] u v h k e = (refl, cc)
cut_at b [] (c ∷ t) u v h k e = absurd (ground (arith, (cons_parts b c u (t ++ (b ∷ v)) e).0))
cut_at b (a ∷ s) [] u v h k e = absurd (ground (arith, (cons_parts a b (s ++ (b ∷ u)) v e).0))
cut_at b (a ∷ s) (c ∷ t) u v h k e =
    let (head, tail) = cons_parts a c (s ++ (b ∷ u)) (t ++ (b ∷ v)) e in
    let (x, y) = cut_at b s t u v (ground arith) (ground arith) tail in (λ i. head i ∷ x i, y)

lacks-middle : (b : ℕ) (s t : Text) → lacks b (s ++ (b ∷ t)) ≡ false
unfolding lacks
lacks-middle b [] t = ground arith
lacks-middle b (c ∷ s) t = ground (arith, lacks-middle b s t)

lacks-label_of : (k : Text) (ls : Labels) → is_plain ls ≡ true → lacks 0 (label_of k ls) ≡ true
unfolding lacks label_of get is_plain
lacks-label_of k [] p = refl
lacks-label_of k ((j, v) ∷ ls) p = ground (arith, lacks-label_of k ls)

pub lacks-keys :
    (k : Text) (ls : Labels) → is_plain ls ≡ true → is_in k (keys ls) ≡ true → lacks b'=' k ≡ true
unfolding is_in is_plain
lacks-keys k [] p i = cc
lacks-keys k ((j, v) ∷ ls) p i = ground (arith, lacks-keys k ls)

-- What stands behind the first equals sign.
unfoldable pair_tail : Text → List Text → Labels → Text
pair_tail k [] ls = label_of k ls
pair_tail k (j ∷ ks) ls = label_of k ls ++ (0 ∷ write_pairs (j ∷ ks) ls)

write_pairs-cons :
    (k : Text) (ks : List Text) (ls : Labels)
    → write_pairs (k ∷ ks) ls ≡ k ++ (b'=' ∷ pair_tail k ks ls)
unfolding write_pairs pair_tail
write_pairs-cons k [] ls = refl
write_pairs-cons k (j ∷ ks) ls = refl

not_empty : (b : ℕ) (s t : Text) → s ++ (b ∷ t) ≢ []
not_empty b [] t e = cc
not_empty b (c ∷ s) t e = cc

-- What the two maps agree on, if each pair that was written is the same.
abbrev pub Agree : List Text → List Text → Labels → Labels → Type 0
Agree ks js ls ms = (ks ≡ js) × ((k : Text) → is_in k ks ≡ true → label_of k ls ≡ label_of k ms)

module _ (ls ms : Labels) (p : is_plain ls ≡ true) (q : is_plain ms ≡ true) where
  Agree-cons :
      (k j : Text) (ks js : List Text)
      → k ≡ j
      → label_of k ls ≡ label_of j ms
      → Agree ks js ls ms
      → Agree (k ∷ ks) (j ∷ js) ls ms
  unfolding is_in
  Agree-cons k j ks js e v (rest, each) = (λ i. e i ∷ rest i, λ x i. ground (arith, each x, v, e))

  -- A label that is the last of its map is not one that others follow.
  last_or_not : (u v r : Text) → lacks 0 u ≡ true → u ≢ v ++ (0 ∷ r)
  last_or_not u v r h e = absurd (ground (arith, lacks-middle 0 v r, ap (lacks 0) e))

  tails-same :
      (k j : Text) (ks js : List Text)
      → k ≡ j
      → pair_tail k ks ls ≡ pair_tail j js ms
      → (write_pairs ks ls ≡ write_pairs js ms → Agree ks js ls ms)
      → Agree (k ∷ ks) (j ∷ js) ls ms
  unfolding pair_tail is_in
  tails-same k j [] [] x y next = Agree-cons k j [] [] x y (refl, λ i h. cc)
  tails-same k j [] (i ∷ js) x y next = absurd (
      last_or_not (label_of k ls) (label_of j ms) (write_pairs (i ∷ js) ms) (lacks-label_of k ls p)
        y)
  tails-same k j (i ∷ ks) [] x y next = absurd (
      last_or_not (label_of j ms) (label_of k ls) (write_pairs (i ∷ ks) ls) (lacks-label_of j ms q)
        (sym y))
  tails-same k j (i ∷ ks) (i' ∷ js) x y next =
      let (v, r) =
        cut_at 0 (label_of k ls) (label_of j ms) (write_pairs (i ∷ ks) ls)
          (write_pairs (i' ∷ js) ms) (lacks-label_of k ls p) (lacks-label_of j ms q) y in
      Agree-cons k j (i ∷ ks) (i' ∷ js) x v (next r)

  pub pairs-same :
      (ks js : List Text)
      → ((k : Text) → is_in k ks ≡ true → lacks b'=' k ≡ true)
      → ((k : Text) → is_in k js ≡ true → lacks b'=' k ≡ true)
      → write_pairs ks ls ≡ write_pairs js ms
      → Agree ks js ls ms
  unfolding is_in write_pairs
  pairs-same [] [] f g e = (refl, λ k i. cc)
  pairs-same [] (j ∷ js) f g e =
      absurd (not_empty b'=' j (pair_tail j js ms) (sym (e ∙ write_pairs-cons j js ms)))
  pairs-same (k ∷ ks) [] f g e =
      absurd (not_empty b'=' k (pair_tail k ks ls) (sym (write_pairs-cons k ks ls) ∙ e))
  pairs-same (k ∷ ks) (j ∷ js) f g e =
      let (x, y) =
        cut_at b'=' k j (pair_tail k ks ls) (pair_tail j js ms) (f k (ground arith))
          (g j (ground arith)) (sym (write_pairs-cons k ks ls) ∙ e ∙ write_pairs-cons j js ms) in
      tails-same k j ks js x y
        (pairs-same ks js (λ i h. f i (ground arith)) (λ i h. g i (ground arith)))
