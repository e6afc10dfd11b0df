-- ===== src/Reconciler/Store/Rows.antt =====
-- The rows that an upsert and a change of status leave
-- (apps/worker/reconciler/internal/store/store.go).
use mathlib.Core.List.{Memᴰ}
use mathlib.Core.List.Memᴰ as In
use openllm_metrics.Prelude.{
  ℕ, suc, ◌≤◌, ◌<◌, ◌≡◌, ◌≢◌, refl, ap, sym, ◌∙◌, subst, false, [], ◌∷◌, ◌++◌, map, ◌==◌,
  Option-cases, Bool-cases, inl, inr, arith,
}
use openllm_metrics.Reconciler.Store.{
  Status, Row, Table, is_open, same_slot, find_slot, take_over, update_row, update_rows,
  upsert_result, mark_row, mark_rows, mark_status,
}

module _ {C : Type 0} where
  -- A row is determined by its id, and the next id is new.
  pub record IsKeyed (t : Table C) : Type 0 where
    pub unique : (x y : Row C) → Memᴰ x t.rows → Memᴰ y t.rows → x.id ≡ y.id → x ≡ y
    pub fresh : (x : Row C) → Memᴰ x t.rows → x.id < t.next_id

  IsKeyed-map :
      (f : Row C → Row C) (t : Table C) (n : ℕ)
      → ((r : Row C) → (f r).id ≡ r.id)
      → t.next_id ≤ n
      → IsKeyed t
      → IsKeyed (record { rows = map f t.rows; next_id = n })
  IsKeyed-map f t n ids l v = record {
    unique = λ x y a b e.
        let (x', ma, ea) = In.of_map f t.rows a in
        let (y', mb, eb) = In.of_map f t.rows b in
        let same =
          v.unique x' y' ma mb (sym (ids x') ∙ ap Row.id ea ∙ e ∙ sym (ap Row.id eb) ∙ ids y') in
        sym ea ∙ ap f same ∙ eb;
    fresh = λ x m.
        let (x', mx, ex) = In.of_map f t.rows m in
        omega (arith, v.fresh x' mx, ap Row.id ex, ids x');
  }

  IsKeyed-append :
      (r : Row C) (t : Table C)
      → r.id ≡ t.next_id
      → IsKeyed t
      → IsKeyed (record { rows = t.rows ++ r ∷ []; next_id = suc t.next_id })
  IsKeyed-append r t i v = record {
    unique = λ x y a b e. elim (In.append_cases t.rows a) [
      | inl a' ↦ elim (In.append_cases t.rows b) [
        | inl b' ↦ v.unique x y a' b' e
        | inr b' ↦ absurd (omega (arith, v.fresh x a', ap Row.id (In.eq_of_singleton b')))
      ]
      | inr a' ↦ elim (In.append_cases t.rows b) [
        | inl b' ↦ absurd (omega (arith, v.fresh y b', ap Row.id (In.eq_of_singleton a')))
        | inr b' ↦ In.eq_of_singleton a' ∙ sym (In.eq_of_singleton b')
      ]
    ];
    fresh = λ x m. elim (In.append_cases t.rows m) [
      | inl m' ↦ omega (arith, v.fresh x m')
      | inr m' ↦ omega (arith, ap Row.id (In.eq_of_singleton m'))
    ];
  }

  update_row-id : (new r : Row C) → (update_row new r).id ≡ r.id
  unfolding update_row take_over
  update_row-id new r = elim (Bool-cases (same_slot new r)) [
    | inr e ↦ rw e refl
    | inl e ↦ elim (Bool-cases (is_open r.status)) [
      | inl o ↦ rw (e, o) refl
      | inr o ↦ rw (e, o) refl
    ]
  ]

  update_row_closed : (new r : Row C) → is_open r.status ≡ false → update_row new r ≡ r
  unfolding update_row
  update_row_closed new r c = elim (Bool-cases (same_slot new r)) [
    | inr e ↦ rw e refl
    | inl e ↦ rw (e, c) refl
  ]

  pub upsert_result-IsKeyed :
      (new : Row C) (t : Table C) → IsKeyed t → IsKeyed (upsert_result new t)
  unfolding upsert_result update_rows
  upsert_result-IsKeyed new t v = elim (Option-cases (find_slot new t.rows)) [
    | inl e ↦ rw (e, upsert_result) (IsKeyed-append (record new { id = t.next_id }) t refl v)
    | inr (r, e) ↦
        rw (e, upsert_result)
          (IsKeyed-map (update_row new) t (suc t.next_id) (update_row-id new) (omega arith) v)
  ]

  -- An upsert leaves a row that is not open any more as it is.
  pub upsert_result-frozen :
      (new r : Row C) (t : Table C)
      → is_open r.status ≡ false
      → Memᴰ r t.rows
      → Memᴰ r (upsert_result new t).rows
  unfolding upsert_result update_rows
  upsert_result-frozen new r t c m = elim (Option-cases (find_slot new t.rows)) [
    | inl e ↦ rw (e, upsert_result) (In.append_left (record new { id = t.next_id } ∷ []) m)
    | inr (s, e) ↦
        rw (e, upsert_result)
          (subst (λ x. Memᴰ x (map (update_row new) t.rows)) (update_row_closed new r c)
            (In.map (update_row new) m))
  ]

  mark_row-id : (id : ℕ) (status : Status) (r : Row C) → (mark_row id status r).id ≡ r.id
  unfolding mark_row
  mark_row-id id status r = elim (Bool-cases (r.id == id)) [ inl e ↦ rw e refl | inr e ↦ rw e refl ]

  pub mark_status-IsKeyed :
      (id : ℕ) (status : Status) (t : Table C) → IsKeyed t → IsKeyed (mark_status id status t)
  unfolding mark_status mark_rows
  mark_status-IsKeyed id status t v =
      IsKeyed-map (mark_row id status) t t.next_id (mark_row-id id status) (omega arith) v

  mark_row_other : (id : ℕ) (status : Status) (r : Row C) → id ≢ r.id → mark_row id status r ≡ r
  unfolding mark_row
  mark_row_other id status r h = elim (Bool-cases (r.id == id)) [
    | inl e ↦ absurd (h (ground arith))
    | inr e ↦ rw e refl
  ]

  mark_row_self :
      (status : Status) (r : Row C) → mark_row r.id status r ≡ record r { status = status }
  unfolding mark_row
  mark_row_self status r = elim (Bool-cases (r.id == r.id)) [
    | inl e ↦ rw e refl
    | inr e ↦ absurd (ground arith)
  ]

  pub mark_status-other :
      (id : ℕ) (status : Status) (r : Row C) (t : Table C)
      → id ≢ r.id
      → Memᴰ r t.rows
      → Memᴰ r (mark_status id status t).rows
  unfolding mark_status mark_rows
  mark_status-other id status r t h m =
      subst (λ x. Memᴰ x (map (mark_row id status) t.rows)) (mark_row_other id status r h)
        (In.map (mark_row id status) m)

  pub mark_status-self :
      (status : Status) (r : Row C) (t : Table C)
      → Memᴰ r t.rows
      → Memᴰ (record r { status = status }) (mark_status r.id status t).rows
  unfolding mark_status mark_rows
  mark_status-self status r t m =
      subst (λ x. Memᴰ x (map (mark_row r.id status) t.rows)) (mark_row_self status r)
        (In.map (mark_row r.id status) m)

  -- The columns that no upsert and no change of status touches.
  pub record IsSame (r s : Row C) : Type 0 where
    pub id : s.id ≡ r.id
    pub tenant : s.tenant_id ≡ r.tenant_id
    pub provider : s.provider ≡ r.provider
    pub model : s.model ≡ r.model
    pub start : s.window_start ≡ r.window_start

  update_row-IsSame : (new r s : Row C) → IsSame r s → IsSame r (update_row new s)
  unfolding update_row take_over
  update_row-IsSame new r s v = elim (Bool-cases (same_slot new s)) [
    | inr e ↦ rw e v
    | inl e ↦ elim (Bool-cases (is_open s.status)) [
      | inr o ↦ rw (e, o) v
      | inl o ↦
          rw (e, o)
            (record {
              id = v.id;
              tenant = v.tenant;
              provider = v.provider;
              model = v.model;
              start = v.start;
            })
    ]
  ]

  mark_row-IsSame :
      (i : ℕ) (status : Status) (r s : Row C) → IsSame r s → IsSame r (mark_row i status s)
  unfolding mark_row
  mark_row-IsSame i status r s v = elim (Bool-cases (s.id == i)) [
    | inr e ↦ rw e v
    | inl e ↦ rw e (record {
      id = v.id;
      tenant = v.tenant;
      provider = v.provider;
      model = v.model;
      start = v.start;
    })
  ]

  -- The table has the row still, whatever its costs and its status now.
  abbrev pub IsThere : Row C → Table C → Type 0
  IsThere r t = (s : Row C) × Memᴰ s t.rows × IsSame r s

  pub upsert_result-IsThere :
      (new r : Row C) (t : Table C) → IsThere r t → IsThere r (upsert_result new t)
  unfolding upsert_result update_rows
  upsert_result-IsThere new r t (s, m, v) = elim (Option-cases (find_slot new t.rows)) [
    | inl e ↦ rw (e, upsert_result) (s, In.append_left (record new { id = t.next_id } ∷ []) m, v)
    | inr (x, e) ↦
        rw (e, upsert_result)
          (update_row new s, In.map (update_row new) m, update_row-IsSame new r s v)
  ]

  pub mark_status-IsThere :
      (i : ℕ) (status : Status) (r : Row C) (t : Table C)
      → IsThere r t
      → IsThere r (mark_status i status t)
  unfolding mark_status mark_rows
  mark_status-IsThere i status r t (s, m, v) =
      (mark_row i status s, In.map (mark_row i status) m, mark_row-IsSame i status r s v)
