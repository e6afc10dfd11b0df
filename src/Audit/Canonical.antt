-- ===== src/Audit/Canonical.antt =====
-- The canonical JSON of apps/api/audit-service/internal/hasher/hasher.go (and its copy
-- cmd/olm-audit/internal/cli/hasher.go). Text is a list of code points, as `range` yields them.
pub mod Escape
pub mod Sorting
pub mod Order
use openllm_metrics.Prelude.{
  ℕ, zero, suc, ◌+◌, ◌/◌, ◌%◌, Bool, true, false, List, [], ◌∷◌, ◌++◌, Text, text, ltb, leb, ◌==◌,
  if◌then◌else◌, text_leb,
}
use openllm_metrics.Audit.Json.{
  Value, null, bool, str, num, arr, obj, Items, nil, cons, Fields, end, field,
}

abbrev pub quote : ℕ
quote = 34

abbrev pub backslash : ℕ
backslash = 92

-- A digit of `%04x`.
unfoldable pub hex_digit : ℕ → ℕ
hex_digit d = if ltb d 10 then 48 + d else 87 + d

-- The text that the `switch` of `encodeString` writes for one rune.
unfoldable pub escape : ℕ → Text
unfolding hex_digit
escape r =
    if r == quote
    then backslash ∷ quote ∷ []
    else if r == backslash
    then backslash ∷ backslash ∷ []
    else if r == 10
    then backslash ∷ b'n' ∷ []
    else if r == 13
    then backslash ∷ b'r' ∷ []
    else if r == 9
    then backslash ∷ b't' ∷ []
    else if r == 8
    then backslash ∷ b'b' ∷ []
    else if r == 12
    then backslash ∷ b'f' ∷ []
    else if ltb r 32
    then backslash ∷ b'u' ∷ 48 ∷ 48 ∷ hex_digit (r / 16) ∷ hex_digit (r % 16) ∷ []
    else r ∷ []

unfoldable pub escape_all : Text → Text
escape_all [] = []
escape_all (r ∷ s) = escape r ++ escape_all s

unfoldable pub encode_string : Text → Text
encode_string s = quote ∷ escape_all s ++ quote ∷ []

-- A key with the encoding of its value.
abbrev pub Member : Type 0
Member = Text × Text

unfoldable pub insert : Member → List Member → List Member
insert m [] = m ∷ []
insert m (n ∷ ms) = if text_leb m.0 n.0 then m ∷ n ∷ ms else n ∷ insert m ms

unfoldable pub sort : List Member → List Member
sort [] = []
sort (m ∷ ms) = insert m (sort ms)

-- Every text but the first with a comma before it.
unfoldable pub comma_tail : List Text → Text
comma_tail [] = []
comma_tail (t ∷ ts) = b',' ∷ t ++ comma_tail ts

unfoldable pub comma_join : List Text → Text
comma_join [] = []
comma_join (t ∷ ts) = t ++ comma_tail ts

unfoldable pub members : List Member → List Text
members [] = []
members ((k, t) ∷ ms) = (encode_string k ++ b':' ∷ t) ∷ members ms

unfoldable mutual
  pub encode : Value → Text
  encode null = text "null"
  encode (bool true) = text "true"
  encode (bool false) = text "false"
  encode (str s) = encode_string s
  encode (num n) = n
  encode (arr xs) = b'[' ∷ comma_join (encode_items xs) ++ b']' ∷ []
  encode (obj fs) = b'{' ∷ comma_join (members (sort (encode_fields fs))) ++ b'}' ∷ []

  pub encode_items : Items → List Text
  encode_items nil = []
  encode_items (cons v xs) = encode v ∷ encode_items xs

  pub encode_fields : Fields → List Member
  encode_fields end = []
  encode_fields (field k v fs) = (k, encode v) ∷ encode_fields fs
