-- ===== src/Reconciler/Store/Scans.antt =====
-- Which rows a scan finds (apps/worker/reconciler/internal/store/store.go).
use mathlib.Core.List.{Memᴰ}
use mathlib.Core.List.Memᴰ as In
use openllm_metrics.Prelude.{
  ℕ, zero, suc, ◌≤◌, ◌≡◌, refl, ap, sym, ◌∙◌, subst, true, false, List, [], ◌∷◌, leb, length, take,
  Bool-cases, inl, inr, arith,
}
use openllm_metrics.Prelude.Int.{ℤ}
use openllm_metrics.Reconciler.Store.{
  Row, Table, is_open, closable, closable_rows, insert_by_end, sort_by_end, scan_closable,
}

module _ {C : Type 0} where
  of_closable :
      (cutoff : ℤ) (rs : List (Row C)) (r : Row C)
      → Memᴰ r (closable_rows cutoff rs)
      → Memᴰ r rs × (closable cutoff r ≡ true)
  unfolding closable_rows
  of_closable cutoff [] r m = absurd (In.not-nil m)
  of_closable cutoff (x ∷ rs) r m = elim (Bool-cases (closable cutoff x)) [
    | inr e ↦
        let (m', c) = of_closable cutoff rs r (subst (Memᴰ r) (rw e refl) m) in (In.tail m', c)
    | inl e ↦ elim (In.cases_cons (subst (Memᴰ r) (kept e) m)) [
      | inl here ↦ (In.head here, ap (closable cutoff) here ∙ e)
      | inr later ↦ let (m', c) = of_closable cutoff rs r later in (In.tail m', c)
    ]
  ]
    where
      kept : closable cutoff x ≡ true → closable_rows cutoff (x ∷ rs) ≡ x ∷ closable_rows cutoff rs
      kept e = rw e refl

  to_closable :
      (cutoff : ℤ) (rs : List (Row C)) (r : Row C)
      → Memᴰ r rs
      → closable cutoff r ≡ true
      → Memᴰ r (closable_rows cutoff rs)
  unfolding closable_rows
  to_closable cutoff [] r m c = m
  to_closable cutoff (x ∷ rs) r m c = elim (In.cases_cons m) [
    | inl here ↦ rw (sym (ap (closable cutoff) here) ∙ c) (In.head here)
    | inr later ↦
        let rest = to_closable cutoff rs r later c in
        elim (Bool-cases (closable cutoff x)) [ inl e ↦ rw e (In.tail rest) | inr e ↦ rw e rest ]
  ]

  of_insert : (x r : Row C) (rs : List (Row C)) → Memᴰ r (insert_by_end x rs) → Memᴰ r (x ∷ rs)
  unfolding insert_by_end
  of_insert x r [] m = m
  of_insert x r (s ∷ ss) m = elim (Bool-cases (leb x.window_end s.window_end)) [
    | inl e ↦ subst (Memᴰ r) (rw e refl) m
    | inr e ↦ elim (In.cases_cons (subst (Memᴰ r) (later e) m)) [
      | inl here ↦ In.tail (In.head here)
      | inr below ↦ elim (In.cases_cons (of_insert x r ss below)) [
        | inl new ↦ In.head new
        | inr old ↦ In.tail (In.tail old)
      ]
    ]
  ]
    where
      later :
          leb x.window_end s.window_end ≡ false → insert_by_end x (s ∷ ss) ≡ s ∷ insert_by_end x ss
      later e = rw e refl

  to_insert : (x r : Row C) (rs : List (Row C)) → Memᴰ r (x ∷ rs) → Memᴰ r (insert_by_end x rs)
  unfolding insert_by_end
  to_insert x r [] m = m
  to_insert x r (s ∷ ss) m = elim (Bool-cases (leb x.window_end s.window_end)) [
    | inl e ↦ rw e m
    | inr e ↦ rw e (elim (In.cases_cons m) [
      | inl new ↦ In.tail (to_insert x r ss (In.head new))
      | inr old ↦ elim (In.cases_cons old) [
        | inl here ↦ In.head here
        | inr below ↦ In.tail (to_insert x r ss (In.tail below))
      ]
    ])
  ]

  of_sort : (rs : List (Row C)) (r : Row C) → Memᴰ r (sort_by_end rs) → Memᴰ r rs
  unfolding sort_by_end
  of_sort [] r m = m
  of_sort (x ∷ rs) r m = elim (In.cases_cons (of_insert x r (sort_by_end rs) m)) [
    | inl here ↦ In.head here
    | inr later ↦ In.tail (of_sort rs r later)
  ]

  to_sort : (rs : List (Row C)) (r : Row C) → Memᴰ r rs → Memᴰ r (sort_by_end rs)
  unfolding sort_by_end
  to_sort [] r m = m
  to_sort (x ∷ rs) r m = to_insert x r (sort_by_end rs) (elim (In.cases_cons m) [
    | inl here ↦ In.head here
    | inr later ↦ In.tail (to_sort rs r later)
  ])

  of_take : (n : ℕ) (rs : List (Row C)) (r : Row C) → Memᴰ r (take n rs) → Memᴰ r rs
  of_take zero rs r m = absurd (In.not-nil m)
  of_take (suc n) [] r m = m
  of_take (suc n) (x ∷ rs) r m = elim (In.cases_cons m) [
    | inl here ↦ In.head here
    | inr later ↦ In.tail (of_take n rs r later)
  ]

  to_take : (n : ℕ) (rs : List (Row C)) (r : Row C) → length rs ≤ n → Memᴰ r rs → Memᴰ r (take n rs)
  to_take zero [] r l m = m
  to_take zero (x ∷ rs) r l m = absurd (omega arith)
  to_take (suc n) [] r l m = m
  to_take (suc n) (x ∷ rs) r l m = elim (In.cases_cons m) [
    | inl here ↦ In.head here
    | inr later ↦ In.tail (to_take n rs r (omega arith) later)
  ]

  length-insert : (x : Row C) (rs : List (Row C)) → length (insert_by_end x rs) ≡ suc (length rs)
  unfolding insert_by_end
  length-insert x [] = refl
  length-insert x (s ∷ ss) = ground (arith, length-insert x ss)

  length-sort : (rs : List (Row C)) → length (sort_by_end rs) ≡ length rs
  unfolding sort_by_end
  length-sort [] = refl
  length-sort (x ∷ rs) = omega (arith, length-insert x (sort_by_end rs), length-sort rs)

  pub of_scan :
      (cutoff : ℤ) (limit : ℕ) (t : Table C) (r : Row C)
      → Memᴰ r (scan_closable cutoff limit t)
      → Memᴰ r t.rows × (closable cutoff r ≡ true)
  unfolding scan_closable
  of_scan cutoff limit t r m = of_closable cutoff t.rows r (
      of_sort (closable_rows cutoff t.rows) r
        (of_take limit (sort_by_end (closable_rows cutoff t.rows)) r m))

  pub to_scan :
      (cutoff : ℤ) (limit : ℕ) (t : Table C) (r : Row C)
      → length (closable_rows cutoff t.rows) ≤ limit
      → Memᴰ r t.rows
      → closable cutoff r ≡ true
      → Memᴰ r (scan_closable cutoff limit t)
  unfolding scan_closable
  to_scan cutoff limit t r l m c =
      let found = closable_rows cutoff t.rows in
      to_take limit (sort_by_end found) r (omega (arith, length-sort found))
        (to_sort found r (to_closable cutoff t.rows r m c))

  pub closable-is_open :
      (cutoff : ℤ) (r : Row C) → closable cutoff r ≡ true → is_open r.status ≡ true
  unfolding closable
  closable-is_open cutoff r c = ground arith
