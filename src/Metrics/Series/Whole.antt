-- ===== src/Metrics/Series/Whole.antt =====
-- The values of the series as sums of whole numbers
-- (apps/api/metrics-endpoint/internal/aggregator/aggregator.go).
use openllm_metrics.Prelude.{
  ℕ, ◌+◌, ◌^◌, ◌≤◌, ◌≡◌, refl, ap, sym, ◌∙◌, ◌⊎◌, inl, inr, Bool, true, false, Bool-cases, Option,
  none, some, List, [], ◌∷◌, ◌++◌, Text, Text-discrete, leb, ite, arith,
}
use mathlib.Core.List.{Permᴰ}
use openllm_metrics.Audit.Json.{Fields}
use openllm_metrics.Metrics.{Floats}
use openllm_metrics.Metrics.Projection.{Contribution}
use openllm_metrics.Metrics.Aggregator.{State, label_fingerprint}
use openllm_metrics.Metrics.Verdict.{Event, apply_all, verdict}
use openllm_metrics.Metrics.Series.{add_one, add_up, all_gains, gains, sum-apply_all, sum_of}

-- Whole numbers in float64: `size` of a number is the natural number that it is, if it is one; two of
-- one size are the same, and addition is exact as long as the sum is at most 2 ^ 53.
pub record IsExact {C : Type 0} (floats : Floats C) (size : C → Option ℕ) : Type 0 where
  pub added :
      (x y : C) (m n : ℕ)
      → size x ≡ some m
      → size y ≡ some n
      → m + n ≤ 2 ^ 53
      → size (floats.add x y) ≡ some (m + n)
  pub same : (x y : C) (n : ℕ) → size x ≡ some n → size y ≡ some n → x ≡ y

unfoldable pub plus : Option ℕ → Option ℕ → Option ℕ
plus none o = none
plus (some m) none = none
plus (some m) (some n) = some (m + n)

unfoldable pub is_small : Option ℕ → Bool
is_small none = false
is_small (some n) = leb n (2 ^ 53)

plus_assoc : (a b c : Option ℕ) → plus (plus a b) c ≡ plus a (plus b c)
unfolding plus
plus_assoc none b c = refl
plus_assoc (some l) none c = refl
plus_assoc (some l) (some m) none = refl
plus_assoc (some l) (some m) (some n) = ap some (omega arith)

plus_comm : (a b : Option ℕ) → plus a b ≡ plus b a
unfolding plus
plus_comm none none = refl
plus_comm none (some n) = refl
plus_comm (some m) none = refl
plus_comm (some m) (some n) = ap some (omega arith)

plus_zero : (a : Option ℕ) → plus (some 0) a ≡ a
unfolding plus
plus_zero none = refl
plus_zero (some n) = ap some (omega arith)

plus_left : (a b c : Option ℕ) → plus a (plus b c) ≡ plus b (plus a c)
plus_left a b c = sym (plus_assoc a b c) ∙ ap (λ x. plus x c) (plus_comm a b) ∙ plus_assoc b a c

-- The summands of a sum that is there.
plus-some :
    (a b : Option ℕ) (n : ℕ)
    → plus a b ≡ some n
    → (l m : ℕ) × (a ≡ some l) × (b ≡ some m) × (l + m ≡ n)
unfolding plus
plus-some none b n h = absurd (none-some n h)
  where
    none-some : (k : ℕ) → none ≡ some k → ⊥
    none-some k e = cc
plus-some (some l) none n h = absurd (none-some n h)
  where
    none-some : (k : ℕ) → none ≡ some k → ⊥
    none-some k e = cc
plus-some (some l) (some m) n h = (l, m, refl, refl, ground arith)

pick_cases :
    {A B P Q : Type 0}
    → (d : Dec P) (e : Dec Q) (a b : A) (x y : B)
    → ((ite d (ite e a b) b ≡ a) × (ite d (ite e x y) y ≡ x))
      ⊎ ((ite d (ite e a b) b ≡ b) × (ite d (ite e x y) y ≡ y))
pick_cases (yes p) (yes q) a b x y = inl (refl, refl)
pick_cases (yes p) (no n) a b x y = inr (refl, refl)
pick_cases (no n) e a b x y = inr (refl, refl)

small_some : (o : Option ℕ) → is_small o ≡ true → (k : ℕ) × (o ≡ some k) × (k ≤ 2 ^ 53)
unfolding is_small
small_some none h = absurd (ground arith)
small_some (some k) h = (k, refl, ground arith)

module _ {C : Type 0} (floats : Floats C) (size : C → Option ℕ) (name key : Text) where
  -- The sum of the contributions to one series, if all are whole.
  unfoldable pub total : List (Contribution C) → Option ℕ
  total [] = some 0
  total (c ∷ cs) =
      let rest = total cs in
      ite (Text-discrete name c.metric)
        (ite (Text-discrete key (label_fingerprint c.labels)) (plus (size c.value) rest) rest) rest

  -- A contribution is one to the series, or it is not.
  total_cases :
      (c : Contribution C) (cs : List (Contribution C)) (acc : C)
      → ((add_one floats name key c acc ≡ floats.add acc c.value)
          × (total (c ∷ cs) ≡ plus (size c.value) (total cs)))
        ⊎ ((add_one floats name key c acc ≡ acc) × (total (c ∷ cs) ≡ total cs))
  unfolding add_one total
  total_cases c cs acc =
      pick_cases (Text-discrete name c.metric) (Text-discrete key (label_fingerprint c.labels))
        (floats.add acc c.value) acc (plus (size c.value) (total cs)) (total cs)

  total-append : (cs ds : List (Contribution C)) → total (cs ++ ds) ≡ plus (total cs) (total ds)
  unfolding total
  total-append [] ds = sym (plus_zero (total ds))
  total-append (c ∷ cs) ds =
      let both = total cs in
      let all = total (cs ++ ds) in
      elim (pick_cases (Text-discrete name c.metric)
        (Text-discrete key (label_fingerprint c.labels)) (plus (size c.value) all) all
        (plus (size c.value) both) both) [
          | inr (l, r) ↦ l ∙ total-append cs ds ∙ ap (λ x. plus x (total ds)) (sym r)
          | inl (l, r) ↦
              l
              ∙ ap (plus (size c.value)) (total-append cs ds)
              ∙ sym (plus_assoc (size c.value) both (total ds))
              ∙ ap (λ x. plus x (total ds)) (sym r)
        ]

  module _ (exact : IsExact floats size) where
    add_up-total :
        (cs : List (Contribution C)) (acc : C) (m n : ℕ)
        → size acc ≡ some m
        → total cs ≡ some n
        → m + n ≤ 2 ^ 53
        → size (add_up floats name key cs acc) ≡ some (m + n)
    unfolding add_up
    add_up-total [] acc m n a t h = a ∙ ap some (unfold total in ground arith)
    add_up-total (c ∷ cs) acc m n a t h = elim (total_cases c cs acc) [
      | inr (kept, less) ↦
          ap (λ x. size (add_up floats name key cs x)) kept
          ∙ add_up-total cs acc m n a (sym less ∙ t) h
      | inl (grown, more) ↦
          let (k, l, here, rest, sum) = plus-some (size c.value) (total cs) n (sym more ∙ t) in
          ap (λ x. size (add_up floats name key cs x)) grown
          ∙ add_up-total cs (floats.add acc c.value) (m + k) l
              (exact.added acc c.value m k a here (omega arith)) rest (omega arith)
          ∙ ap some (omega arith)
    ]

  module _ (unmarshal : Text → Option Fields) where
    -- What the events add to the series, if all of it is whole.
    unfoldable pub whole_total : List Event → Option ℕ
    whole_total es = total (all_gains floats unmarshal es)

    of_event : Event → Option ℕ
    of_event e = total (gains (verdict floats unmarshal e))

    whole_total_cons :
        (e : Event) (es : List Event) → whole_total (e ∷ es) ≡ plus (of_event e) (whole_total es)
    unfolding whole_total all_gains of_event
    whole_total_cons e es =
        total-append (gains (verdict floats unmarshal e)) (all_gains floats unmarshal es)

    whole_total-Perm : {es fs : List Event} → Permᴰ es fs → whole_total es ≡ whole_total fs
    whole_total-Perm Permᴰ.nil = refl
    whole_total-Perm (Permᴰ.cons {a} {b} {l₁} {l₂} e p) =
        whole_total_cons a l₁
        ∙ (λ i. plus (of_event (e i)) (whole_total-Perm p i))
        ∙ sym (whole_total_cons b l₂)
    whole_total-Perm (Permᴰ.swap {a} {b} {a'} {b'} {l} d e) =
        whole_total_cons a (b ∷ l)
        ∙ ap (plus (of_event a)) (whole_total_cons b l)
        ∙ plus_left (of_event a) (of_event b) (whole_total l)
        ∙ (λ i. plus (of_event (e i)) (plus (of_event (d i)) (whole_total l)))
        ∙ sym (whole_total_cons a' (b' ∷ l) ∙ ap (plus (of_event a')) (whole_total_cons b' l))
    whole_total-Perm (Permᴰ.trans p q) = whole_total-Perm p ∙ whole_total-Perm q

    -- The two orders leave the same value, where it is small and whole.
    module _ (exact : IsExact floats size) (s : State C) where
      abbrev start : C
      start = sum_of floats name key s.counters

      value_lem :
          (es : List Event) (m n : ℕ)
          → size start ≡ some m
          → whole_total es ≡ some n
          → m + n ≤ 2 ^ 53
          → size (sum_of floats name key (apply_all floats unmarshal es s).counters) ≡ some (m + n)
      unfolding whole_total
      value_lem es m n a t h =
          ap size (sum-apply_all floats unmarshal name key es s)
          ∙ add_up-total exact (all_gains floats unmarshal es) start m n a t h

      pub values-Perm :
          {es fs : List Event}
          → Permᴰ es fs
          → (is_small (plus (size start) (whole_total es)) ≡ false)
            ⊎ (sum_of floats name key (apply_all floats unmarshal es s).counters
                ≡ sum_of floats name key (apply_all floats unmarshal fs s).counters)
      values-Perm {es} {fs} p = elim (Bool-cases (is_small (plus (size start) (whole_total es)))) [
        | inr big ↦ inl big
        | inl small ↦
            let (k, there, fits) = small_some (plus (size start) (whole_total es)) small in
            let (m, n, a, t, sum) = plus-some (size start) (whole_total es) k there in
            inr (
              exact.same _ _ (m + n) (value_lem es m n a t (omega arith))
                (value_lem fs m n a (sym (whole_total-Perm p) ∙ t) (omega arith)))
      ]
