-- ===== src/Quota/Numbers.antt =====
-- int64 arithmetic and the number parsers of apps/worker/quota-risk/internal/parser/parser.go. The
-- package time's parsers of RFC 3339 times and of Go durations are the record `Times`.
use openllm_metrics.Prelude.{
  ℕ, ◌+◌, ◌-◌, ◌*◌, ◌^◌, ◌&&◌, Option, none, some, [], ◌∷◌, Text, is_empty, trim_space, leb, ltb,
  ◌==◌, if◌then◌else◌,
}
use openllm_metrics.Prelude.Int.{wrap, ℤ, pos, sub_ℕ, ltb_ℤ, ◌-ℤ◌, ◌*ℤ◌}

unfoldable pub parse_digits : ℕ → Text → Option ℕ
parse_digits acc [] = some acc
parse_digits acc (c ∷ s) =
    let rest = parse_digits (acc * 10 + (c - b'0')) s in
    if leb b'0' c && leb c b'9' then rest else none

unfoldable pub natural : Text → Option ℕ
natural s = if is_empty s then none else parse_digits 0 s

unfoldable pub positive : Text → Option ℤ
positive s = elim (natural s) [
  | none ↦ none
  | some n ↦ if ltb n (2 ^ 63) then some (pos n) else none
]

unfoldable pub negative : Text → Option ℤ
negative s = elim (natural s) [
  | none ↦ none
  | some n ↦ if leb n (2 ^ 63) then some (sub_ℕ 0 n) else none
]

-- strconv.ParseInt(s, 10, 64)
unfoldable pub parse_int : Text → Option ℤ
parse_int [] = none
parse_int (c ∷ s) =
    if c == b'-' then negative s else if c == b'+' then positive s else positive (c ∷ s)

unfoldable pub parse_int64 : Text → Option ℤ
parse_int64 s = if is_empty (trim_space s) then none else parse_int (trim_space s)

pub record Times : Type 0 where
  pub parse_rfc3339 : Text → Option ℤ
  pub parse_duration : Text → Option ℤ

unfoldable pub at_least_zero : ℤ → ℤ
at_least_zero d = if ltb_ℤ d (pos 0) then pos 0 else d

-- t.Sub(now): a difference too large is the largest duration.
unfoldable pub sub_time : ℤ → ℤ → ℤ
sub_time t now = if ltb_ℤ (pos (2 ^ 63 - 1)) (t -ℤ now) then pos (2 ^ 63 - 1) else t -ℤ now

unfoldable pub seconds : ℤ → ℤ
seconds v = if ltb_ℤ v (pos 0) then pos 0 else wrap (v *ℤ pos 1000000000)

module _ (times : Times) where
  unfoldable pub relative_duration : Text → ℤ
  relative_duration s = elim (parse_int64 s) [
    | some v ↦ seconds v
    | none ↦ elim (times.parse_duration s) [ none ↦ pos 0 | some d ↦ at_least_zero d ]
  ]

  unfoldable pub parse_duration_like : Text → ℤ → ℤ
  parse_duration_like s now =
      if is_empty (trim_space s) then pos 0 else elim (times.parse_rfc3339 (trim_space s)) [
        | some t ↦ at_least_zero (sub_time t now)
        | none ↦ relative_duration (trim_space s)
      ]
