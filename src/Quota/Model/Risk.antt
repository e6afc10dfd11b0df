-- ===== src/Quota/Model/Risk.antt =====
-- The risk score (apps/worker/quota-risk/internal/model/model.go).
use openllm_metrics.Prelude.{
  ◌≡◌, refl, ap, ◌∙◌, Bool, true, false, some, Bool-cases, inl, inr, arith,
}
use openllm_metrics.Prelude.Int.{ℤ, pos, ltb_ℤ, ◌≤ℤ◌}
use openllm_metrics.Quota.Model.{
  State, Floats, not_below_zero, not_above_one, used_ratio, scaled, risk_score,
}

-- What IEEE 754 says of the operations that the scores use, with its <= as `at_most`, which holds of
-- numbers only: rounded division by a positive limit, subtraction from 1 and multiplication by 1.25
-- keep the order or turn it round, and what lies in [0, 1] is finite.
pub record IsIeee {C : Type 0} (floats : Floats C) (at_most : C → C → Bool) : Type 0 where
  pub zero_zero : at_most floats.zero floats.zero ≡ true
  pub zero_one : at_most floats.zero floats.one ≡ true
  pub one_one : at_most floats.one floats.one ≡ true
  pub trans : (x y z : C) → at_most x y ≡ true → at_most y z ≡ true → at_most x z ≡ true
  pub under_zero : (x : C) → floats.less x floats.zero ≡ true → at_most x floats.zero ≡ true
  pub from_zero :
      (x y : C)
      → at_most x y ≡ true
      → floats.less y floats.zero ≡ false
      → at_most floats.zero y ≡ true
  pub over_one : (x : C) → floats.less floats.one x ≡ true → at_most floats.one x ≡ true
  pub to_one :
      (x y : C)
      → at_most x y ≡ true
      → floats.less floats.one x ≡ false
      → at_most x floats.one ≡ true
  pub divided :
      (a b limit : ℤ)
      → ltb_ℤ (pos 0) limit ≡ true
      → a ≤ℤ b
      → at_most
          (floats.div (floats.of_int64 a) (floats.of_int64 limit))
          (floats.div (floats.of_int64 b) (floats.of_int64 limit))
        ≡ true
  pub subtracted :
      (x y : C)
      → at_most x y ≡ true
      → at_most (floats.sub floats.one y) (floats.sub floats.one x) ≡ true
  pub multiplied :
      (x y : C)
      → at_most x y ≡ true
      → at_most (floats.mul x floats.scale) (floats.mul y floats.scale) ≡ true
  pub zero_multiplied : at_most floats.zero (floats.mul floats.zero floats.scale) ≡ true
  pub finite :
      (x : C)
      → at_most floats.zero x ≡ true
      → at_most x floats.one ≡ true
      → (floats.is_nan x ≡ false) × (floats.is_inf x ≡ false)

module _ {C : Type 0} (floats : Floats C) (at_most : C → C → Bool)
    (ieee : IsIeee floats at_most) where
  least_mono :
      (x y : C)
      → at_most x y ≡ true
      → at_most (not_below_zero floats x) (not_below_zero floats y) ≡ true
  unfolding not_below_zero
  least_mono x y h = elim (Bool-cases (floats.less x floats.zero)) [
    | inl a ↦ elim (Bool-cases (floats.less y floats.zero)) [
      | inl b ↦ rw (a, b) ieee.zero_zero
      | inr b ↦ rw (a, b) (ieee.from_zero x y h b)
    ]
    | inr a ↦ elim (Bool-cases (floats.less y floats.zero)) [
      | inl b ↦ rw (a, b) (ieee.trans x y floats.zero h (ieee.under_zero y b))
      | inr b ↦ rw (a, b) h
    ]
  ]

  least_zero : (x : C) → at_most x x ≡ true → at_most floats.zero (not_below_zero floats x) ≡ true
  unfolding not_below_zero
  least_zero x h = elim (Bool-cases (floats.less x floats.zero)) [
    | inl a ↦ rw a ieee.zero_zero
    | inr a ↦ rw a (ieee.from_zero x x h a)
  ]

  most_mono :
      (x y : C)
      → at_most x y ≡ true
      → at_most (not_above_one floats x) (not_above_one floats y) ≡ true
  unfolding not_above_one
  most_mono x y h = elim (Bool-cases (floats.less floats.one x)) [
    | inl a ↦ elim (Bool-cases (floats.less floats.one y)) [
      | inl b ↦ rw (a, b) ieee.one_one
      | inr b ↦ rw (a, b) (ieee.trans floats.one x y (ieee.over_one x a) h)
    ]
    | inr a ↦ elim (Bool-cases (floats.less floats.one y)) [
      | inl b ↦ rw (a, b) (ieee.to_one x y h a)
      | inr b ↦ rw (a, b) h
    ]
  ]

  most_one : (x y : C) → at_most x y ≡ true → at_most (not_above_one floats x) floats.one ≡ true
  unfolding not_above_one
  most_one x y h = elim (Bool-cases (floats.less floats.one x)) [
    | inl a ↦ rw a ieee.one_one
    | inr a ↦ rw a (ieee.to_one x y h a)
  ]

  most_zero :
      (x : C) → at_most floats.zero x ≡ true → at_most floats.zero (not_above_one floats x) ≡ true
  unfolding not_above_one
  most_zero x h = elim (Bool-cases (floats.less floats.one x)) [
    | inl a ↦ rw a ieee.zero_one
    | inr a ↦ rw a h
  ]

  -- The ratio of a known limit, and the score before it is looked at.
  abbrev ratio : State → C
  ratio s = not_above_one floats (
      not_below_zero floats (
        floats.sub floats.one (floats.div (floats.of_int64 s.remaining) (floats.of_int64 s.limit))))

  abbrev score : State → C
  score s = scaled floats (ratio s)

  less_remaining :
      (s t : State)
      → ltb_ℤ (pos 0) s.limit ≡ true
      → t.limit ≡ s.limit
      → t.remaining ≤ℤ s.remaining
      → at_most
          (floats.sub floats.one
            (floats.div (floats.of_int64 s.remaining) (floats.of_int64 s.limit)))
          (floats.sub floats.one
            (floats.div (floats.of_int64 t.remaining) (floats.of_int64 t.limit)))
        ≡ true
  less_remaining s t h e l =
      ap
        (λ n.
          at_most
            (floats.sub floats.one
              (floats.div (floats.of_int64 s.remaining) (floats.of_int64 s.limit)))
            (floats.sub floats.one (floats.div (floats.of_int64 t.remaining) (floats.of_int64 n))))
        e
      ∙ ieee.subtracted _ _ (ieee.divided t.remaining s.remaining s.limit h l)

  -- Of two states, the second with no more left.
  module _ (s t : State) (h : ltb_ℤ (pos 0) s.limit ≡ true) (e : t.limit ≡ s.limit)
      (l : t.remaining ≤ℤ s.remaining) where
    ratio_mono : at_most (ratio s) (ratio t) ≡ true
    ratio_mono = most_mono _ _ (least_mono _ _ (less_remaining s t h e l))

    score_mono : at_most (score s) (score t) ≡ true
    unfolding scaled
    score_mono = most_mono _ _ (ieee.multiplied _ _ ratio_mono)

  module _ (s : State) (h : ltb_ℤ (pos 0) s.limit ≡ true) where
    self : s.remaining ≤ℤ s.remaining
    self = omega arith

    score_zero : at_most floats.zero (score s) ≡ true
    unfolding scaled
    score_zero = most_zero _ (
        ieee.trans floats.zero _ _ ieee.zero_multiplied (
          ieee.multiplied floats.zero (ratio s)
            (most_zero _ (least_zero _ (less_remaining s s h refl self)))))

    score_one : at_most (score s) floats.one ≡ true
    unfolding scaled
    score_one = most_one _ _ (ieee.multiplied _ _ (ratio_mono s s h refl self))

    used_given : used_ratio floats s ≡ some (ratio s)
    unfolding used_ratio
    used_given = rw h refl

    score_given : risk_score floats s ≡ some (score s)
    unfolding risk_score
    score_given =
        let (number, bounded) = ieee.finite (score s) score_zero score_one in
        rw (used_given, risk_score) (rw (number, bounded) refl)

-- Of two states with the same known limit, the second with no more remaining, both have a score, both
-- lie in [0, 1], and the second's is no lower: risk never falls as quota is used up. The float64
-- operations keep the order of numbers as IEEE 754 says.
pub risk_score_lem :
    {C : Type 0} (floats : Floats C) (at_most : C → C → Bool)
    → IsIeee floats at_most
    → (s t : State) → ltb_ℤ (pos 0) s.limit ≡ true
    → t.limit ≡ s.limit
    → t.remaining ≤ℤ s.remaining
    → (x y : C) × (risk_score floats s ≡ some x)
      × (risk_score floats t ≡ some y)
      × (at_most floats.zero x ≡ true)
      × (at_most x y ≡ true)
      × (at_most y floats.one ≡ true)
risk_score_lem floats at_most ieee s t h e l =
    let known : ltb_ℤ (pos 0) t.limit ≡ true = ap (ltb_ℤ (pos 0)) e ∙ h in
    (
      score floats at_most ieee s,
      score floats at_most ieee t,
      score_given floats at_most ieee s h,
      score_given floats at_most ieee t known,
      score_zero floats at_most ieee s h,
      score_mono floats at_most ieee s t h e l,
      score_one floats at_most ieee t known,
    )
