-- ===== src/Audit/Canonical/Escape.antt =====
-- `encodeString` of apps/api/audit-service/internal/hasher/hasher.go loses nothing: the quoted
-- form, and where it ends, can be read back.
use openllm_metrics.Prelude.{
  ℕ, ◌≡◌, ◌≢◌, refl, sym, ◌∙◌, [], ◌∷◌, ◌++◌, append_assoc, Text, arith, ◌<◌,
}
use openllm_metrics.Audit.Canonical.{quote, hex_digit, escape, escape_all, encode_string}

hex_digit-injective : (a b : ℕ) → a < 16 → b < 16 → hex_digit a ≡ hex_digit b → a ≡ b
unfolding hex_digit
hex_digit-injective a b h k e = ground arith

-- The first character of an escape tells it from the closing quote.
escape-ne-quote : (r : ℕ) (x y : Text) → escape r ++ x ≢ quote ∷ y
unfolding escape
escape-ne-quote r x y h = ground arith

escape_prefix : (a b : ℕ) (x y : Text) → escape a ++ x ≡ escape b ++ y → (a ≡ b) × (x ≡ y)
unfolding escape
escape_prefix a b x y h = ground arith

escape_all_prefix :
    (s t x y : Text) → escape_all s ++ quote ∷ x ≡ escape_all t ++ quote ∷ y → (s ≡ t) × (x ≡ y)
unfolding escape_all
escape_all_prefix [] [] x y h = (refl, ground arith)
escape_all_prefix [] (b ∷ t) x y h = absurd (
    escape-ne-quote b (escape_all t ++ quote ∷ y) x
      (sym (append_assoc (escape b) (escape_all t) (quote ∷ y)) ∙ sym h))
escape_all_prefix (a ∷ s) [] x y h = absurd (
    escape-ne-quote a (escape_all s ++ quote ∷ x) y
      (sym (append_assoc (escape a) (escape_all s) (quote ∷ x)) ∙ h))
escape_all_prefix (a ∷ s) (b ∷ t) x y h =
    let apart = escape_prefix a b (escape_all s ++ quote ∷ x) (escape_all t ++ quote ∷ y) (
      sym (append_assoc (escape a) (escape_all s) (quote ∷ x))
      ∙ h
      ∙ append_assoc (escape b) (escape_all t) (quote ∷ y)) in
    let rest = escape_all_prefix s t x y apart.1 in (cc (apart.0, rest.0), rest.1)

-- Two encoded strings that begin the same text are the same string, and end at the same place:
-- no string can pass for another, or run into what follows it.
pub encode_string_prefix :
    (s t x y : Text) → encode_string s ++ x ≡ encode_string t ++ y → (s ≡ t) × (x ≡ y)
unfolding encode_string
encode_string_prefix s t x y h = escape_all_prefix s t x y (
    sym (append_assoc (escape_all s) (quote ∷ []) x)
    ∙ tail_path h
    ∙ append_assoc (escape_all t) (quote ∷ []) y)
  where
    tail_path : {a b : ℕ} {u v : Text} → a ∷ u ≡ b ∷ v → u ≡ v
    tail_path e = cc
