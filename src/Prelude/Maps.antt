-- ===== src/Prelude/Maps.antt =====
-- A Go map with string keys as an association list, and sort.Strings.
use mathlib.Core.Path.{◌≡◌, refl, ap, sym, ◌∙◌}
use mathlib.Core.Logic.{◌⊎◌, ◌≢◌, inl, inr, ite, if_pos, if_neg}
use mathlib.Core.Bool.{Bool, true, false}
use mathlib.Core.Option.{Option, none, some}
use mathlib.Core.List.{List, [], ◌∷◌, map}
use native.Mathlib.Omega.{arith}
use openllm_metrics.Prelude.Tests.{ltb, if◌then◌else◌}
use openllm_metrics.Prelude.Bytes.{Text, Text-discrete}

unfoldable pub is_in : Text → List Text → Bool
is_in k [] = false
is_in k (x ∷ xs) = ite (Text-discrete k x) true (is_in k xs)

module _ {ℓ} {A : Type ℓ} where
  -- m[k], with whether it is there
  unfoldable pub get : Text → List (Text × A) → Option A
  get k [] = none
  get k ((j, v) ∷ m) = ite (Text-discrete k j) (some v) (get k m)

  -- m[k] = v
  unfoldable pub put : Text → A → List (Text × A) → List (Text × A)
  put k v [] = (k, v) ∷ []
  put k v ((j, w) ∷ m) = ite (Text-discrete k j) ((k, v) ∷ m) ((j, w) ∷ put k v m)

  abbrev pub keys : List (Text × A) → List Text
  keys = map (λ e. e.0)

-- The order of sort.Strings.
unfoldable pub text_leb : Text → Text → Bool
text_leb [] t = true
text_leb (a ∷ s) [] = false
text_leb (a ∷ s) (b ∷ t) = if ltb a b then true else if ltb b a then false else text_leb s t

pub text_leb_total : (s t : Text) → text_leb s t ≡ false → text_leb t s ≡ true
unfolding text_leb
text_leb_total [] t h = cc
text_leb_total (a ∷ s) [] h = refl
text_leb_total (a ∷ s) (b ∷ t) h = ground (arith, text_leb_total s t)

pub text_leb_antisymm : (s t : Text) → text_leb s t ≡ true → text_leb t s ≡ true → s ≡ t
unfolding text_leb
text_leb_antisymm [] [] h k = refl
text_leb_antisymm [] (b ∷ t) h k = cc
text_leb_antisymm (a ∷ s) [] h k = cc
text_leb_antisymm (a ∷ s) (b ∷ t) h k = ground (arith, text_leb_antisymm s t)

pub text_leb_trans :
    (s t u : Text) → text_leb s t ≡ true → text_leb t u ≡ true → text_leb s u ≡ true
unfolding text_leb
text_leb_trans [] t u h k = refl
text_leb_trans (a ∷ s) [] u h k = cc
text_leb_trans (a ∷ s) (b ∷ t) [] h k = cc
text_leb_trans (a ∷ s) (b ∷ t) (c ∷ u) h k = ground (arith, text_leb_trans s t u)

unfoldable pub insert_string : Text → List Text → List Text
insert_string s [] = s ∷ []
insert_string s (t ∷ ts) = if text_leb s t then s ∷ t ∷ ts else t ∷ insert_string s ts

-- sort.Strings
unfoldable pub sort_strings : List Text → List Text
sort_strings [] = []
sort_strings (s ∷ ts) = insert_string s (sort_strings ts)

module _ {ℓ} {A : Type ℓ} where
  pub get-put :
      (j k : Text) (v : A) (m : List (Text × A))
      → get j (put k v m) ≡ ite (Text-discrete j k) (some v) (get j m)
  unfolding get put
  get-put j k v [] = refl
  get-put j k v ((i, w) ∷ m) = ground (arith, get-put j k v m)

  pub is_in-keys-put :
      (j k : Text) (v : A) (m : List (Text × A))
      → is_in j (keys (put k v m)) ≡ ite (Text-discrete j k) true (is_in j (keys m))
  unfolding is_in put
  is_in-keys-put j k v [] = refl
  is_in-keys-put j k v ((i, w) ∷ m) = ground (arith, is_in-keys-put j k v m)

  of_some : A → Option A → A
  of_some a none = a
  of_some a (some b) = b

  -- What is found after a write: the value written, or what was there before.
  pub get-put_cases :
      (j k : Text) (v w : A) (m : List (Text × A))
      → get j (put k v m) ≡ some w
      → ((j ≡ k) × (v ≡ w)) ⊎ (get j m ≡ some w)
  unfolding of_some
  get-put_cases j k v w m h = elim (Text-discrete j k) [
    | yes e ↦
        inl (e, ap (of_some v) (sym (if_pos _ e (some v) (get j m)) ∙ sym (get-put j k v m) ∙ h))
    | no n ↦ inr (sym (if_neg _ n (some v) (get j m)) ∙ sym (get-put j k v m) ∙ h)
  ]

is_in-insert_string :
    (k s : Text) (ts : List Text)
    → is_in k (insert_string s ts) ≡ ite (Text-discrete k s) true (is_in k ts)
unfolding is_in insert_string
is_in-insert_string k s [] = refl
is_in-insert_string k s (t ∷ ts) = ground (arith, is_in-insert_string k s ts)

-- Sorting keeps the members.
pub is_in-sort_strings : (k : Text) (ts : List Text) → is_in k (sort_strings ts) ≡ is_in k ts
unfolding is_in sort_strings
is_in-sort_strings k [] = refl
is_in-sort_strings k (t ∷ ts) =
    ground (arith, is_in-insert_string k t (sort_strings ts), is_in-sort_strings k ts)

unfoldable pub all_distinct : List Text → Bool
all_distinct [] = true
all_distinct (t ∷ ts) = if is_in t ts then false else all_distinct ts

-- Every member lies strictly above the text.
unfoldable pub is_below : Text → List Text → Bool
is_below s [] = true
is_below s (t ∷ ts) = if text_leb s t then ite (Text-discrete s t) false (is_below s ts) else false

unfoldable pub is_ascending : List Text → Bool
is_ascending [] = true
is_ascending (t ∷ ts) = if is_below t ts then is_ascending ts else false

below_trans :
    (s t : Text) (ts : List Text)
    → text_leb s t ≡ true
    → is_below t ts ≡ true
    → is_below s ts ≡ true
unfolding is_below
below_trans s t [] h k = refl
below_trans s t (u ∷ ts) h k =
    ground (arith, below_trans s t ts, text_leb_trans s t u, text_leb_antisymm s t)

below-insert_string :
    (s t : Text) (ts : List Text)
    → text_leb s t ≡ true
    → s ≢ t
    → is_below s ts ≡ true
    → is_below s (insert_string t ts) ≡ true
unfolding is_below insert_string
below-insert_string s t [] h n k = ground arith
below-insert_string s t (u ∷ ts) h n k = ground (arith, below-insert_string s t ts)

ascending-insert_string :
    (s : Text) (ts : List Text)
    → is_in s ts ≡ false
    → is_ascending ts ≡ true
    → is_ascending (insert_string s ts) ≡ true
unfolding is_ascending is_below insert_string is_in
ascending-insert_string s [] n h = refl
ascending-insert_string s (t ∷ ts) n h = ground (
  arith,
  ascending-insert_string s ts,
  below-insert_string t s ts,
  below_trans s t ts,
  text_leb_total s t,
)

-- Distinct texts are sorted strictly.
pub ascending-sort_strings :
    (ts : List Text) → all_distinct ts ≡ true → is_ascending (sort_strings ts) ≡ true
unfolding is_ascending sort_strings all_distinct
ascending-sort_strings [] h = refl
ascending-sort_strings (t ∷ ts) h =
    ascending-insert_string t (sort_strings ts) (ground (arith, is_in-sort_strings t ts))
      (ascending-sort_strings ts (ground arith))

below-is_in :
    (s k : Text) (ts : List Text)
    → is_below s ts ≡ true
    → is_in k ts ≡ true
    → (text_leb s k ≡ true) × (s ≢ k)
unfolding is_below is_in
below-is_in s k [] h i = cc
below-is_in s k (t ∷ ts) h i = ground (arith, below-is_in s k ts)

-- Two strictly sorted lists with the same members are the same list.
pub ascending_unique :
    (ss ts : List Text)
    → is_ascending ss ≡ true
    → is_ascending ts ≡ true
    → ((k : Text) → is_in k ss ≡ is_in k ts)
    → ss ≡ ts
unfolding is_ascending is_in
ascending_unique [] [] h l f = refl
ascending_unique [] (t ∷ ts) h l f = absurd (ground (arith, f t))
ascending_unique (s ∷ ss) [] h l f = absurd (ground (arith, f s))
ascending_unique (s ∷ ss) (t ∷ ts) h l f =
    let head : s ≡ t =
      ground (arith, below-is_in t s ts, below-is_in s t ss, text_leb_antisymm s t, f s, f t) in
    let rest =
      ascending_unique ss ts (ground arith) (ground arith)
        (λ k. ground (arith, below-is_in s k ss, below-is_in t k ts, f k, head)) in
    λ i. head i ∷ rest i
