-- ===== src/Notifier/Scrub.antt =====
-- scrubSensitive of apps/worker/notifier/internal/consumer/consumer.go.
use openllm_metrics.Prelude.{
  ℕ, suc, ◌+◌, Bool, true, false, ◌||◌, Option, none, some, List, [], ◌∷◌, ◌++◌, Text, text,
  has_prefix, strip_prefix, length, take, drop, ◌==◌, if◌then◌else◌, ◌≡◌, refl, ap, ◌∙◌, arith,
}

-- strings.Index
unfoldable pub index_of : Text → Text → Option ℕ
index_of kw [] = if has_prefix kw [] then some 0 else none
index_of kw (c ∷ s) =
    let rest = index_of kw s in
    if has_prefix kw (c ∷ s) then some 0 else elim rest [ none ↦ none | some i ↦ some (suc i) ]

unfoldable pub is_boundary : ℕ → Bool
is_boundary c = c == 32 || (c == 10 || c == 9)

unfoldable pub skip_word : Text → Text
unfolding is_boundary
skip_word [] = []
skip_word (c ∷ s) = let rest = skip_word s in if is_boundary c then c ∷ s else rest

unfoldable pub scrub_keyword : Text → Text → Text
scrub_keyword kw s = elim (index_of kw s) [
  | none ↦ s
  | some i ↦ take (i + length kw) s ++ text "[REDACTED]" ++ skip_word (drop (i + length kw) s)
]

scrub_all : List Text → Text → Text
scrub_all [] s = s
scrub_all (kw ∷ kws) s = scrub_all kws (scrub_keyword kw s)

unfoldable pub scrub_sensitive : Text → Text
unfolding scrub_all
scrub_sensitive s =
    scrub_all
      (text "Authorization:"
        ∷ text "authorization:"
        ∷ text "password="
        ∷ text "Password:"
        ∷ text "X-OLM-Signature:"
        ∷ [])
      s

strip_prefix-append : (kw s : Text) → strip_prefix kw (kw ++ s) ≡ some s
unfolding strip_prefix
strip_prefix-append [] s = refl
strip_prefix-append (k ∷ kw) s = ground (arith, strip_prefix-append kw s)

has_prefix-append : (kw s : Text) → has_prefix kw (kw ++ s) ≡ true
unfolding has_prefix
has_prefix-append kw s = rw (strip_prefix-append kw s, has_prefix) refl

index_of_here : (kw s : Text) → has_prefix kw s ≡ true → index_of kw s ≡ some 0
unfolding index_of
index_of_here kw [] h = rw h refl
index_of_here kw (c ∷ s) h = rw h refl

take-append : (xs ys : Text) → take (length xs) (xs ++ ys) ≡ xs
take-append [] ys = refl
take-append (x ∷ xs) ys = ap (◌∷◌ x) (take-append xs ys)

drop-append : (xs ys : Text) → drop (length xs) (xs ++ ys) ≡ ys
drop-append [] ys = refl
drop-append (x ∷ xs) ys = drop-append xs ys

-- No blank, newline or tab.
unfoldable pub one_word : Text → Bool
one_word [] = true
one_word (c ∷ s) = let rest = one_word s in if is_boundary c then false else rest

skip_word-append : (word s : Text) → one_word word ≡ true → skip_word (word ++ 32 ∷ s) ≡ 32 ∷ s
unfolding skip_word one_word is_boundary
skip_word-append [] s h = refl
skip_word-append (c ∷ word) s h = ground (arith, skip_word-append word s)

scrub_keyword-here :
    (kw s : Text)
    → index_of kw s ≡ some 0
    → scrub_keyword kw s ≡ take (length kw) s ++ text "[REDACTED]" ++ skip_word (drop (length kw) s)
unfolding scrub_keyword
scrub_keyword-here kw s h =
    let n : 0 + length kw ≡ length kw = omega arith in
    rw (h, scrub_keyword) (ap (λ m. take m s ++ text "[REDACTED]" ++ skip_word (drop m s)) n)

-- Right behind a keyword one word is redacted, and the blank behind the word and all that follows it
-- are kept: where a blank comes between the keyword and the secret, all of the secret.
pub scrub_keyword-word :
    (kw word rest : Text)
    → one_word word ≡ true
    → scrub_keyword kw (kw ++ (word ++ 32 ∷ rest)) ≡ kw ++ text "[REDACTED]" ++ 32 ∷ rest
scrub_keyword-word kw word rest h =
    let tail = word ++ 32 ∷ rest in
    scrub_keyword-here kw (kw ++ tail) (index_of_here kw (kw ++ tail) (has_prefix-append kw tail))
    ∙ rw (take-append kw tail, drop-append kw tail, skip_word-append word rest h) refl
