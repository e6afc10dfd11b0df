-- ===== src/Quota/Model/Snapshots.antt =====
-- What a snapshot holds (apps/worker/quota-risk/internal/model/model.go).
use mathlib.Core.List.{Memᴰ}
use mathlib.Core.List.Memᴰ as In
use openllm_metrics.Prelude.{
  ◌≡◌, refl, ap, sym, ◌∙◌, subst, true, false, List, [], ◌∷◌, Bool-cases, inl, inr, ◌↔◌,
}
use openllm_metrics.Prelude.Int.{ℤ, ◌-ℤ◌}
use openllm_metrics.Quota.Model.{
  Row, less_row, insert_row, sort_rows, is_stale, current_rows, snapshot,
}

insert_less :
    (x s : Row) (ss : List Row) → less_row s x ≡ true → insert_row x (s ∷ ss) ≡ s ∷ insert_row x ss
unfolding insert_row
insert_less x s ss e = rw e refl

insert_here :
    (x s : Row) (ss : List Row) → less_row s x ≡ false → insert_row x (s ∷ ss) ≡ x ∷ s ∷ ss
unfolding insert_row
insert_here x s ss e = rw e refl

of_insert : (x r : Row) (rs : List Row) → Memᴰ r (insert_row x rs) → Memᴰ r (x ∷ rs)
of_insert x r [] m = unfold insert_row in m
of_insert x r (s ∷ ss) m = elim (Bool-cases (less_row s x)) [
  | inr e ↦ subst (Memᴰ r) (insert_here x s ss e) m
  | inl e ↦ elim (In.cases_cons (subst (Memᴰ r) (insert_less x s ss e) m)) [
    | inl here ↦ In.tail (In.head here)
    | inr below ↦ elim (In.cases_cons (of_insert x r ss below)) [
      | inl new ↦ In.head new
      | inr old ↦ In.tail (In.tail old)
    ]
  ]
]

to_insert : (x r : Row) (rs : List Row) → Memᴰ r (x ∷ rs) → Memᴰ r (insert_row x rs)
to_insert x r [] m = unfold insert_row in m
to_insert x r (s ∷ ss) m = elim (Bool-cases (less_row s x)) [
  | inr e ↦ rw (insert_here x s ss e) m
  | inl e ↦ rw (insert_less x s ss e) (elim (In.cases_cons m) [
    | inl new ↦ In.tail (to_insert x r ss (In.head new))
    | inr old ↦ elim (In.cases_cons old) [
      | inl here ↦ In.head here
      | inr below ↦ In.tail (to_insert x r ss (In.tail below))
    ]
  ])
]

of_sort : (rs : List Row) (r : Row) → Memᴰ r (sort_rows rs) → Memᴰ r rs
unfolding sort_rows
of_sort [] r m = m
of_sort (x ∷ rs) r m = elim (In.cases_cons (of_insert x r (sort_rows rs) m)) [
  | inl here ↦ In.head here
  | inr later ↦ In.tail (of_sort rs r later)
]

to_sort : (rs : List Row) (r : Row) → Memᴰ r rs → Memᴰ r (sort_rows rs)
unfolding sort_rows
to_sort [] r m = m
to_sort (x ∷ rs) r m =
    to_insert x r (sort_rows rs) (elim (In.cases_cons m) [
      | inl here ↦ In.head here
      | inr later ↦ In.tail (to_sort rs r later)
    ])

current_stale :
    (cutoff : ℤ) (x : Row) (rs : List Row)
    → is_stale cutoff x.state ≡ true
    → current_rows cutoff (x ∷ rs) ≡ current_rows cutoff rs
unfolding current_rows
current_stale cutoff x rs e = rw e refl

current_fresh :
    (cutoff : ℤ) (x : Row) (rs : List Row)
    → is_stale cutoff x.state ≡ false
    → current_rows cutoff (x ∷ rs) ≡ x ∷ current_rows cutoff rs
unfolding current_rows
current_fresh cutoff x rs e = rw e refl

true-false : true ≡ false → ⊥
true-false e = cc

of_current :
    (cutoff : ℤ) (rs : List Row) (r : Row)
    → Memᴰ r (current_rows cutoff rs)
    → Memᴰ r rs × (is_stale cutoff r.state ≡ false)
of_current cutoff [] r m = unfold current_rows in absurd (In.not-nil m)
of_current cutoff (x ∷ rs) r m = elim (Bool-cases (is_stale cutoff x.state)) [
  | inl e ↦
      let (m', c) = of_current cutoff rs r (subst (Memᴰ r) (current_stale cutoff x rs e) m) in
      (In.tail m', c)
  | inr e ↦ elim (In.cases_cons (subst (Memᴰ r) (current_fresh cutoff x rs e) m)) [
    | inl here ↦ (In.head here, ap (λ y. is_stale cutoff (Row.state y)) here ∙ e)
    | inr later ↦ let (m', c) = of_current cutoff rs r later in (In.tail m', c)
  ]
]

to_current :
    (cutoff : ℤ) (rs : List Row) (r : Row)
    → Memᴰ r rs
    → is_stale cutoff r.state ≡ false
    → Memᴰ r (current_rows cutoff rs)
to_current cutoff [] r m c = absurd (In.not-nil m)
to_current cutoff (x ∷ rs) r m c = elim (Bool-cases (is_stale cutoff x.state)) [
  | inr e ↦ rw (current_fresh cutoff x rs e) (elim (In.cases_cons m) [
    | inl here ↦ In.head here
    | inr later ↦ In.tail (to_current cutoff rs r later c)
  ])
  | inl e ↦ rw (current_stale cutoff x rs e) (elim (In.cases_cons m) [
    | inl here ↦
        absurd (true-false (sym e ∙ sym (ap (λ y. is_stale cutoff (Row.state y)) here) ∙ c))
    | inr later ↦ to_current cutoff rs r later c
  ])
]

-- A snapshot holds exactly the rows that were refreshed within the retention window.
pub snapshot_iff :
    (now window : ℤ) (rows : List Row) (r : Row)
    → Memᴰ r (snapshot now window rows) ↔ (Memᴰ r rows × (is_stale (now -ℤ window) r.state ≡ false))
unfolding snapshot
snapshot_iff now window rows r = (
  λ m. of_current (now -ℤ window) rows r (of_sort (current_rows (now -ℤ window) rows) r m),
  λ p. to_sort (current_rows (now -ℤ window) rows) r (to_current (now -ℤ window) rows r p.0 p.1),
)
