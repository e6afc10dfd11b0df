-- ===== src/Metrics/Fingerprint/SameMap.antt =====
-- The fingerprint stands for the label map
-- (apps/api/metrics-endpoint/internal/aggregator/aggregator.go).
use openllm_metrics.Prelude.{
  ◌≡◌, ◌↔◌, refl, ap, sym, ◌∙◌, Bool, true, false, Option, none, some, List, [], ◌∷◌, Text, arith,
  if◌then◌else◌, get, keys, is_in, sort_strings, all_distinct, ascending_unique,
  ascending-sort_strings, is_in-sort_strings,
}
use openllm_metrics.Metrics.Projection.{Labels}
use openllm_metrics.Metrics.Aggregator.{label_fingerprint, label_of, write_pairs}
use openllm_metrics.Metrics.Fingerprint.{is_plain, lacks-keys, pairs-same}

get-label_of :
    (k : Text) (ls : Labels) → get k ls ≡ (if is_in k (keys ls) then some (label_of k ls) else none)
unfolding get is_in label_of
get-label_of k [] = refl
get-label_of k ((j, v) ∷ ls) = ground (arith, get-label_of k ls)

is_some : Option Text → Bool
is_some none = false
is_some (some v) = true

is_in-keys : (k : Text) (ls : Labels) → is_in k (keys ls) ≡ is_some (get k ls)
unfolding get is_in is_some
is_in-keys k [] = refl
is_in-keys k ((j, v) ∷ ls) = ground (arith, is_in-keys k ls)

write_pairs_same :
    (ks : List Text) (ls ms : Labels)
    → ((k : Text) → label_of k ls ≡ label_of k ms)
    → write_pairs ks ls ≡ write_pairs ks ms
unfolding write_pairs
write_pairs_same [] ls ms f = refl
write_pairs_same (k ∷ []) ls ms f = rw (f k) refl
write_pairs_same (k ∷ j ∷ ks) ls ms f = rw (f k, write_pairs_same (j ∷ ks) ls ms f) refl

module _ (ls ms : Labels) where
  same_keys :
      ((k : Text) → get k ls ≡ get k ms)
      → all_distinct (keys ls) ≡ true
      → all_distinct (keys ms) ≡ true
      → sort_strings (keys ls) ≡ sort_strings (keys ms)
  same_keys f d e =
      ascending_unique (sort_strings (keys ls)) (sort_strings (keys ms))
        (ascending-sort_strings (keys ls) d) (ascending-sort_strings (keys ms) e)
        (λ k.
          is_in-sort_strings k (keys ls)
          ∙ is_in-keys k ls
          ∙ ap is_some (f k)
          ∙ sym (is_in-keys k ms)
          ∙ sym (is_in-sort_strings k (keys ms)))

  fingerprint_of_same :
      all_distinct (keys ls) ≡ true
      → all_distinct (keys ms) ≡ true
      → ((k : Text) → get k ls ≡ get k ms)
      → label_fingerprint ls ≡ label_fingerprint ms
  unfolding label_fingerprint label_of
  fingerprint_of_same d e f =
      ap (λ ks. write_pairs ks ls) (same_keys f d e)
      ∙ write_pairs_same (sort_strings (keys ms)) ls ms
          (λ k. ap (λ o. elim o [ none ↦ [] | some v ↦ v ]) (f k))

  same_of_fingerprint :
      is_plain ls ≡ true
      → is_plain ms ≡ true
      → label_fingerprint ls ≡ label_fingerprint ms
      → (k : Text) → get k ls ≡ get k ms
  unfolding label_fingerprint
  same_of_fingerprint p q h k =
      let sorted : (ns : Labels) (k : Text) → is_in k (sort_strings (keys ns)) ≡ is_in k (keys ns) =
        λ ns k. is_in-sort_strings k (keys ns) in
      let (same, each) =
        pairs-same ls ms p q (sort_strings (keys ls)) (sort_strings (keys ms))
          (λ k i. lacks-keys k ls p (sym (sorted ls k) ∙ i))
          (λ k i. lacks-keys k ms q (sym (sorted ms k) ∙ i)) h in
      let there : is_in k (keys ls) ≡ is_in k (keys ms) =
        sym (sorted ls k) ∙ ap (is_in k) same ∙ sorted ms k in
      ground (arith, get-label_of k ls, get-label_of k ms, there, each k, sorted ls k)

  -- Two label maps, each with distinct keys none of which holds an equals sign and with no value that
  -- holds a NUL, have the same fingerprint exactly when they give every key the same label, in
  -- whatever order the labels were written.
  pub label_fingerprint_iff :
      is_plain ls ≡ true
      → is_plain ms ≡ true
      → all_distinct (keys ls) ≡ true
      → all_distinct (keys ms) ≡ true
      → (label_fingerprint ls ≡ label_fingerprint ms) ↔ ((k : Text) → get k ls ≡ get k ms)
  label_fingerprint_iff p q d e = (same_of_fingerprint p q, fingerprint_of_same d e)
