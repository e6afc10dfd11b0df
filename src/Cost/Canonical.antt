-- ===== src/Cost/Canonical.antt =====
-- The canonical form of provider and model names (apps/worker/cost-mapper/internal/mapper/mapper.go).
use mathlib.Core.List.{reverse, reverse-cons, reverse-append, reverse-reverse, map-append}
use openllm_metrics.Prelude.{
  ℕ, ◌≡◌, refl, ap, sym, ◌∙◌, Bool, true, false, not, [], ◌∷◌, ◌++◌, Text, is_space, trim_left,
  trim_space, lower_byte, to_lower, if◌then◌else◌, arith,
}
use openllm_metrics.Cost.{canonical}

is_space-lower_byte : (c : ℕ) → is_space (lower_byte c) ≡ is_space c
unfolding is_space lower_byte
is_space-lower_byte c = ground arith

lower_byte_idem : (c : ℕ) → lower_byte (lower_byte c) ≡ lower_byte c
unfolding lower_byte
lower_byte_idem c = ground arith

to_lower_idem : (s : Text) → to_lower (to_lower s) ≡ to_lower s
unfolding to_lower
to_lower_idem [] = refl
to_lower_idem (c ∷ s) = λ i. lower_byte_idem c i ∷ to_lower_idem s i

trim_left-to_lower : (s : Text) → trim_left (to_lower s) ≡ to_lower (trim_left s)
unfolding trim_left to_lower
trim_left-to_lower [] = refl
trim_left-to_lower (c ∷ s) = ground (arith, is_space-lower_byte c, trim_left-to_lower s)

reverse-to_lower : (s : Text) → reverse (to_lower s) ≡ to_lower (reverse s)
unfolding to_lower
reverse-to_lower [] = refl
reverse-to_lower (c ∷ s) =
    reverse-cons (lower_byte c) (to_lower s)
    ∙ ap (λ t. t ++ lower_byte c ∷ []) (reverse-to_lower s)
    ∙ sym (map-append lower_byte (reverse s) (c ∷ []))
    ∙ ap to_lower (sym (reverse-cons c s))

starts_clean : Text → Bool
starts_clean [] = true
starts_clean (c ∷ s) = not (is_space c)

trim_left-StartsClean : (s : Text) → starts_clean (trim_left s) ≡ true
unfolding trim_left starts_clean
trim_left-StartsClean [] = refl
trim_left-StartsClean (c ∷ s) = ground (arith, trim_left-StartsClean s)

trim_left_clean : (s : Text) → starts_clean s ≡ true → trim_left s ≡ s
unfolding trim_left starts_clean
trim_left_clean [] h = refl
trim_left_clean (c ∷ s) h = ground arith

-- Trimming stops at a character that is not a space.
before : ℕ → Text → Text
before c [] = []
before c (d ∷ s) = if is_space d then before c s else d ∷ s

trim_left_stops :
    (c : ℕ) (s : Text) → is_space c ≡ false → trim_left (s ++ c ∷ []) ≡ before c s ++ c ∷ []
unfolding trim_left before
trim_left_stops c [] h = ground arith
trim_left_stops c (d ∷ s) h = ground (arith, trim_left_stops c s)

reverse-trim_left-StartsClean :
    (s : Text) → starts_clean s ≡ true → starts_clean (reverse (trim_left (reverse s))) ≡ true
unfolding starts_clean trim_left
reverse-trim_left-StartsClean [] h = refl
reverse-trim_left-StartsClean (c ∷ s) h =
    let clean : is_space c ≡ false = ground arith in
    ap (λ t. starts_clean (reverse (trim_left t))) (reverse-cons c s)
    ∙ ap (λ t. starts_clean (reverse t)) (trim_left_stops c (reverse s) clean)
    ∙ ap starts_clean (reverse-append (before c (reverse s)) (c ∷ []))
    ∙ ap not clean

trim_space_idem : (s : Text) → trim_space (trim_space s) ≡ trim_space s
unfolding trim_space
trim_space_idem s =
    let u = trim_left s in
    let v = trim_left (reverse u) in
    ap (λ t. reverse (trim_left (reverse t)))
      (trim_left_clean (reverse v) (reverse-trim_left-StartsClean u (trim_left-StartsClean s)))
    ∙ ap (λ t. reverse (trim_left t)) (reverse-reverse v)
    ∙ ap reverse (trim_left_clean v (trim_left-StartsClean (reverse u)))

trim_space-to_lower : (s : Text) → trim_space (to_lower s) ≡ to_lower (trim_space s)
unfolding trim_space
trim_space-to_lower s =
    ap (λ t. reverse (trim_left (reverse t))) (trim_left-to_lower s)
    ∙ ap (λ t. reverse (trim_left t)) (reverse-to_lower (trim_left s))
    ∙ ap reverse (trim_left-to_lower (reverse (trim_left s)))
    ∙ reverse-to_lower (trim_left (reverse (trim_left s)))

pub canonical_idem : (s : Text) → canonical (canonical s) ≡ canonical s
unfolding canonical
canonical_idem s =
    ap to_lower (trim_space-to_lower (trim_space s))
    ∙ to_lower_idem (trim_space (trim_space s))
    ∙ ap to_lower (trim_space_idem s)
