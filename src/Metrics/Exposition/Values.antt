-- ===== src/Metrics/Exposition/Values.antt =====
-- A label value in the text format can be read back
-- (apps/api/metrics-endpoint/internal/exposition/exposition.go).
use openllm_metrics.Prelude.{
  inl, inr, Bool-cases, ℕ, ◌==◌, ◌≡◌, refl, ap, sym, ◌∙◌, Bool, true, false, Option, none, some, [],
  ◌∷◌, ◌++◌, Text, if◌then◌else◌, arith, append_assoc,
}
use openllm_metrics.Metrics.Exposition.{escape_label_value, escaped, newline, replace_all}

-- What stands for one byte.
unfoldable pub escape_one : ℕ → Text
escape_one c =
    if c == b'\\'
    then escaped b'\\'
    else if c == b'"'
    then escaped b'"'
    else if c == newline
    then escaped b'n'
    else c ∷ []

unfoldable pub escape_each : Text → Text
escape_each [] = []
escape_each (c ∷ s) = escape_one c ++ escape_each s

replace_all-append :
    (b : ℕ) (r s t : Text) → replace_all b r (s ++ t) ≡ replace_all b r s ++ replace_all b r t
unfolding replace_all
replace_all-append b r [] t = refl
replace_all-append b r (c ∷ s) t =
    ap (λ x. (if c == b then r else c ∷ []) ++ x) (replace_all-append b r s t)
    ∙ sym (append_assoc (if c == b then r else c ∷ []) (replace_all b r s) (replace_all b r t))

-- The text of one byte after the three passes.
unfoldable passes : ℕ → Text
passes c =
    replace_all newline (escaped b'n')
      (replace_all b'"' (escaped b'"') (if c == b'\\' then escaped b'\\' else c ∷ []))

passes-escape_one : (c : ℕ) → passes c ≡ escape_one c
unfolding passes replace_all escape_one
passes-escape_one c = elim (Bool-cases (c == b'\\')) [
  | inl e ↦ rw e refl
  | inr e ↦ elim (Bool-cases (c == b'"')) [
    | inl f ↦ rw (e, f) refl
    | inr f ↦ elim (Bool-cases (c == newline)) [
      | inl g ↦ rw (e, f, g) refl
      | inr g ↦ rw (e, f, g) refl
    ]
  ]
]

-- The three passes, one after another, escape each byte once.
pub escape_label_value-each : (s : Text) → escape_label_value s ≡ escape_each s
unfolding escape_label_value escape_each passes replace_all
escape_label_value-each [] = refl
escape_label_value-each (c ∷ s) =
    let first : Text = if c == b'\\' then escaped b'\\' else c ∷ [] in
    let rest : Text = replace_all b'\\' (escaped b'\\') s in
    ap (replace_all newline (escaped b'n')) (replace_all-append b'"' (escaped b'"') first rest)
    ∙ replace_all-append newline (escaped b'n') (replace_all b'"' (escaped b'"') first)
        (replace_all b'"' (escaped b'"') rest)
    ∙ ap (λ t. passes c ++ t) (escape_label_value-each s)
    ∙ ap (λ t. t ++ escape_each s) (passes-escape_one c)

prepend : ℕ → Option (Text × Text) → Option (Text × Text)
prepend c none = none
prepend c (some (s, r)) = some (c ∷ s, r)

-- What an escape stands for.
unfoldable pub unescape : ℕ → Option ℕ
unescape c =
    if c == b'\\'
    then some b'\\'
    else if c == b'"'
    then some b'"'
    else if c == b'n'
    then some newline
    else none

prepend_if : Option ℕ → Option (Text × Text) → Option (Text × Text)
unfolding prepend
prepend_if none r = none
prepend_if (some c) r = prepend c r

-- The value before the closing quote, with what stands behind the quote, as a scraper reads them;
-- the flag tells that a backslash came just before.
unfoldable pub read_from : Bool → Text → Option (Text × Text)
unfolding prepend prepend_if
read_from b [] = none
read_from false (c ∷ s) =
    let after = read_from true s in
    let rest = read_from false s in
    if c == b'"' then some ([], s) else if c == b'\\' then after else prepend c rest
read_from true (c ∷ s) = prepend_if (unescape c) (read_from false s)

same : (c d : ℕ) → (c == d) ≡ true → d ≡ c
same c d h = ground arith

read_one : (c : ℕ) (t : Text) → read_from false (escape_one c ++ t) ≡ prepend c (read_from false t)
unfolding read_from escape_one unescape prepend_if prepend
read_one c t = elim (Bool-cases (c == b'\\')) [
  | inl e ↦ rw e (ap (λ x. prepend x (read_from false t)) (same c b'\\' e))
  | inr e ↦ elim (Bool-cases (c == b'"')) [
    | inl f ↦ rw (e, f) (ap (λ x. prepend x (read_from false t)) (same c b'"' f))
    | inr f ↦ elim (Bool-cases (c == newline)) [
      | inl g ↦ rw (e, f, g) (ap (λ x. prepend x (read_from false t)) (same c newline g))
      | inr g ↦ rw (e, f, g) (rw (f, e) refl)
    ]
  ]
]

read_each : (s r : Text) → read_from false (escape_each s ++ (b'"' ∷ r)) ≡ some (s, r)
unfolding read_from escape_each prepend
read_each [] r = refl
read_each (c ∷ s) r =
    ap (read_from false) (append_assoc (escape_one c) (escape_each s) (b'"' ∷ r))
    ∙ read_one c (escape_each s ++ (b'"' ∷ r))
    ∙ ap (prepend c) (read_each s r)

-- A label value, written between quotes, is read back whole, and the reader stops at the quote that
-- closes it, whatever stands behind.
pub read_from-escape_label_value :
    (s r : Text) → read_from false (escape_label_value s ++ (b'"' ∷ r)) ≡ some (s, r)
read_from-escape_label_value s r =
    ap (λ t. read_from false (t ++ (b'"' ∷ r))) (escape_label_value-each s) ∙ read_each s r
