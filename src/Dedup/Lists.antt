-- ===== src/Dedup/Lists.antt =====
-- Lists of keys: membership, deletion, the last element.
use openllm_metrics.Prelude.{
  ℕ, zero, suc, ◌≤◌, ◌≡◌, ◌≢◌, refl, ap, sym, ◌∙◌, Bool, true, false, ◌&&◌, not, Option, none, some,
  List, [], ◌∷◌, Text, Text-discrete, length, take, ite, arith,
}

unfoldable pub mem : Text → List Text → Bool
mem k [] = false
mem k (x ∷ xs) = ite (Text-discrete k x) true (mem k xs)

unfoldable pub delete : Text → List Text → List Text
delete k [] = []
delete k (x ∷ xs) = let rest = delete k xs in ite (Text-discrete k x) rest (x ∷ rest)

unfoldable pub back : List Text → Option Text
back [] = none
back (x ∷ []) = some x
back (x ∷ y ∷ ys) = back (y ∷ ys)

unfoldable pub drop_last : List Text → List Text
drop_last [] = []
drop_last (x ∷ []) = []
drop_last (x ∷ y ∷ ys) = x ∷ drop_last (y ∷ ys)

unfoldable pub distinct : List Text → Bool
distinct [] = true
distinct (x ∷ xs) = not (mem x xs) && distinct xs

pub mem-delete :
    (k j : Text) (xs : List Text) → mem j (delete k xs) ≡ ite (Text-discrete k j) false (mem j xs)
unfolding mem delete
mem-delete k j [] = ground arith
mem-delete k j (x ∷ xs) = ground (arith, mem-delete k j xs)

pub delete_absent : (k : Text) (xs : List Text) → mem k xs ≡ false → delete k xs ≡ xs
unfolding mem delete
delete_absent k [] h = refl
delete_absent k (x ∷ xs) h = ground (arith, delete_absent k xs)

pub distinct-delete :
    (k : Text) (xs : List Text) → distinct xs ≡ true → distinct (delete k xs) ≡ true
unfolding distinct delete
distinct-delete k [] h = refl
distinct-delete k (x ∷ xs) h = ground (arith, distinct-delete k xs, mem-delete k x xs)

pub mem-take : (k : Text) (n : ℕ) (xs : List Text) → mem k xs ≡ false → mem k (take n xs) ≡ false
unfolding mem
mem-take k zero xs h = refl
mem-take k (suc n) [] h = refl
mem-take k (suc n) (x ∷ xs) h = ground (arith, mem-take k n xs)

pub distinct-take : (n : ℕ) (xs : List Text) → distinct xs ≡ true → distinct (take n xs) ≡ true
unfolding distinct
distinct-take zero xs h = refl
distinct-take (suc n) [] h = refl
distinct-take (suc n) (x ∷ xs) h = ground (arith, distinct-take n xs, mem-take x n xs)

-- A key among the first n + 1 leaves n of them behind.
pub delete-take_hit :
    (k : Text) (n : ℕ) (xs : List Text)
    → distinct xs ≡ true
    → mem k (take (suc n) xs) ≡ true
    → delete k (take (suc n) xs) ≡ take n (delete k xs)
unfolding mem delete distinct
delete-take_hit k n [] d h = cc
delete-take_hit k zero (x ∷ xs) d h = ground arith
delete-take_hit k (suc n) (x ∷ xs) d h = ground (
  arith,
  delete-take_hit k n xs,
  delete_absent k xs,
  delete_absent k (take (suc n) xs),
  mem-take k (suc n) xs,
)

pub delete-take_miss :
    (k : Text) (n : ℕ) (xs : List Text)
    → mem k (take n xs) ≡ false
    → take n (delete k xs) ≡ take n xs
unfolding mem delete
delete-take_miss k zero xs h = refl
delete-take_miss k (suc n) [] h = refl
delete-take_miss k (suc n) (x ∷ xs) h = ground (arith, delete-take_miss k n xs)

pub drop_last-take : (n : ℕ) (xs : List Text) → length xs ≡ suc n → drop_last xs ≡ take n xs
unfolding drop_last
drop_last-take n [] h = absurd (omega arith)
drop_last-take zero (x ∷ []) h = refl
drop_last-take (suc n) (x ∷ []) h = absurd (omega arith)
drop_last-take zero (x ∷ y ∷ ys) h = absurd (omega arith)
drop_last-take (suc n) (x ∷ y ∷ ys) h = ap (◌∷◌ x) (drop_last-take n (y ∷ ys) (omega arith))

mem-back : (xs : List Text) (b : Text) → back xs ≡ some b → mem b xs ≡ true
unfolding back mem
mem-back [] b h = cc
mem-back (x ∷ []) b h = ground arith
mem-back (x ∷ y ∷ ys) b h = ground (arith, mem-back (y ∷ ys) b)

pub back-none : (xs : List Text) → back xs ≡ none → length xs ≡ 0
unfolding back
back-none [] h = refl
back-none (x ∷ []) h = cc
back-none (x ∷ y ∷ ys) h = absurd (absurd_back (back-none (y ∷ ys) h))
  where
    absurd_back : length (y ∷ ys) ≡ 0 → ⊥
    absurd_back e = omega arith

mem_ne : (x b : Text) (xs : List Text) → mem x xs ≡ false → mem b xs ≡ true → b ≢ x
mem_ne x b xs h k e = cc

head_fresh :
    (x : Text) (xs : List Text)
    → distinct (x ∷ xs) ≡ true
    → (mem x xs ≡ false) × (distinct xs ≡ true)
unfolding distinct
head_fresh x xs d = ground arith

delete_ne : (k x : Text) (xs : List Text) → k ≢ x → delete k (x ∷ xs) ≡ x ∷ delete k xs
unfolding delete
delete_ne k x xs h = ground arith

-- Without the last element, or without the last element's key.
pub drop_last-delete :
    (xs : List Text) (b : Text) → distinct xs ≡ true → back xs ≡ some b → drop_last xs ≡ delete b xs
unfolding back drop_last
drop_last-delete [] b d h = cc
drop_last-delete (x ∷ []) b d h = unfold delete in ground arith
drop_last-delete (x ∷ y ∷ ys) b d h =
    let fresh = head_fresh x (y ∷ ys) d in
    let other = mem_ne x b (y ∷ ys) fresh.0 (mem-back (y ∷ ys) b h) in
    ap (◌∷◌ x) (drop_last-delete (y ∷ ys) b fresh.1 h) ∙ sym (delete_ne b x (y ∷ ys) other)

pub take-length-le : (n : ℕ) (xs : List Text) → length xs ≤ n → take n xs ≡ xs
take-length-le zero [] h = refl
take-length-le zero (x ∷ xs) h = absurd (omega arith)
take-length-le (suc n) [] h = refl
take-length-le (suc n) (x ∷ xs) h = ap (◌∷◌ x) (take-length-le n xs (omega arith))
