-- ===== src/Audit/Chain/Ledger.antt =====
-- Append (apps/api/audit-service/internal/store/store.go) builds chains that the verify endpoint
-- accepts.
use openllm_metrics.Prelude.{
  ℕ, suc, ◌≤◌, ◌≡◌, refl, ap, ◌∙◌, true, false, some, List, [], ◌∷◌, ◌++◌, Text, Text-discrete,
  is_empty, length, arith, ite, inl, inr, if_pos, if_neg, Bool-cases,
}
use openllm_metrics.Prelude.Int.{ℤ}
use openllm_metrics.Audit.Canonical.{encode}
use openllm_metrics.Audit.Consumer.{AppendInput}
use openllm_metrics.Audit.Chain.{
  Encoders, Entry, intact, LedgerState, appended, hash_size, zero_hash, rows_of, last_hash, segment,
  in_range, document, canonical, compute, candidate, insert_row, append, serve_verify,
}
use openllm_metrics.Audit.Chain.Links.{
  Chained, IsIntact, Chained-append, last_id_of, verify_complete,
}

-- The ids ascend from `lo` on, and stay below `hi`.
abbrev pub Ascending : ℕ → List Entry → ℕ → Type 0
Ascending lo [] hi = lo ≤ hi
Ascending lo (e ∷ es) hi = (lo ≤ e.id) × Ascending (suc e.id) es hi

Ascending-weaken :
    (lo lo' : ℕ) (es : List Entry) (hi : ℕ) → lo' ≤ lo → Ascending lo es hi → Ascending lo' es hi
Ascending-weaken lo lo' [] hi h k = omega arith
Ascending-weaken lo lo' (e ∷ es) hi h k = (omega arith, k.1)

Ascending-append :
    (lo : ℕ) (es : List Entry) (hi : ℕ) (e : Entry)
    → Ascending lo es hi
    → e.id ≡ hi
    → Ascending lo (es ++ e ∷ []) (suc hi)
Ascending-append lo [] hi e h k = (omega arith, omega arith)
Ascending-append lo (x ∷ es) hi e h k = (h.0, Ascending-append (suc x.id) es hi e h.1 k)

Ascending-suc : (lo : ℕ) (es : List Entry) (hi : ℕ) → Ascending lo es hi → Ascending lo es (suc hi)
Ascending-suc lo [] hi h = omega arith
Ascending-suc lo (x ∷ es) hi h = (h.0, Ascending-suc (suc x.id) es hi h.1)

rows_of-append :
    (t : Text) (xs : List Entry) (e : Entry)
    → rows_of t (xs ++ e ∷ [])
      ≡ ite (Text-discrete e.tenant_id t) (rows_of t xs ++ e ∷ []) (rows_of t xs)
unfolding rows_of
rows_of-append t [] e = ground arith
rows_of-append t (x ∷ xs) e = ground (arith, rows_of-append t xs e)

Ascending-rows_of :
    (t : Text) (lo : ℕ) (es : List Entry) (hi : ℕ)
    → Ascending lo es hi
    → Ascending lo (rows_of t es) hi
unfolding rows_of
Ascending-rows_of t lo [] hi h = h
Ascending-rows_of t lo (e ∷ es) hi h = elim (Text-discrete e.tenant_id t) [
  | yes p ↦ rw (if_pos _ p) (h.0, Ascending-rows_of t (suc e.id) es hi h.1)
  | no p ↦ rw (if_neg _ p) (
      Ascending-weaken (suc e.id) lo (rows_of t es) hi (omega arith)
        (Ascending-rows_of t (suc e.id) es hi h.1))
]

module _ (c : Encoders) where
  pub record IsLedger (l : LedgerState) : Type 0 where
    pub chains : (t : Text) → Chained c zero_hash (rows_of t l.rows)
    pub ascending : Ascending 0 l.rows l.next_id

  compute_size : (e : Entry) (h : Text) → compute c e ≡ some h → length h ≡ hash_size
  unfolding compute canonical
  compute_size e h k = ground (arith, c.sha256_size (encode (document c e)))

  length-last_hash :
      (prev : Text) (es : List Entry)
      → length prev ≡ hash_size
      → Chained c prev es
      → length (last_hash prev es) ≡ hash_size
  unfolding last_hash
  length-last_hash prev [] h k = h
  length-last_hash prev (e ∷ es) h k =
      length-last_hash e.entry_hash es (compute_size e e.entry_hash k.1) k.2

  compute-some : (e : Entry) → length e.prev_hash ≡ hash_size → (h : Text) × (compute c e ≡ some h)
  unfolding compute canonical
  compute-some e k = (c.sha256 (encode (document c e)), ground arith)

  compute_entry_hash :
      (e : Entry) (h : Text) → compute c (record e { entry_hash = h }) ≡ compute c e
  unfolding compute canonical document
  compute_entry_hash e h = refl

  abbrev pub with_row : LedgerState → Entry → LedgerState
  with_row l e = record { rows = l.rows ++ e ∷ []; next_id = suc l.next_id }

  IsLedger-with_row :
      (l : LedgerState) (e : Entry)
      → IsLedger l
      → e.id ≡ l.next_id
      → e.prev_hash ≡ last_hash zero_hash (rows_of e.tenant_id l.rows)
      → compute c e ≡ some e.entry_hash
      → IsLedger (with_row l e)
  IsLedger-with_row l e h i p k = record {
    chains = λ t. rw (rows_of-append t l.rows e) (elim (Text-discrete e.tenant_id t) [
      | yes same ↦ rw (if_pos _ same) (
          Chained-append c zero_hash (rows_of t l.rows) (e ∷ []) (h.chains t)
            (p ∙ ap (λ u. last_hash zero_hash (rows_of u l.rows)) same, k, tt))
      | no other ↦ rw (if_neg _ other) (h.chains t)
    ]);
    ascending = Ascending-append 0 l.rows l.next_id e h.ascending i;
  }

  -- On a ledger, an input with a tenant and an action is always appended: as one new row at the
  -- end, in the tenant's name and with the next id, and the result is a ledger again.
  pub append_total :
      (i : AppendInput) (now : ℕ) (l : LedgerState)
      → IsLedger l
      → is_empty i.tenant_id ≡ false
      → is_empty i.action ≡ false
      → (e : Entry) × (append c i now l ≡ (appended e, with_row l e))
        × IsLedger (with_row l e)
        × (e.tenant_id ≡ i.tenant_id)
        × (e.id ≡ l.next_id)
  unfolding append insert_row candidate
  append_total i now l h t a =
      let size =
        length-last_hash zero_hash (rows_of i.tenant_id l.rows) refl (h.chains i.tenant_id) in
      let (hash, found) = compute-some (candidate i l now) size in
      let e : Entry = record (candidate i l now) { entry_hash = hash } in
      (
        e,
        rw (t, a, found),
        IsLedger-with_row l e h refl refl (compute_entry_hash (candidate i l now) hash ∙ found),
        refl,
        refl,
      )

  -- Whatever the input, Append leaves a ledger a ledger.
  append-IsLedger :
      (i : AppendInput) (now : ℕ) (l : LedgerState) → IsLedger l → IsLedger (append c i now l).1
  append-IsLedger i now l h = elim (Bool-cases (is_empty i.tenant_id)) [
    | inl t ↦ unfold append in rw t h
    | inr t ↦ elim (Bool-cases (is_empty i.action)) [
      | inl a ↦ unfold append in rw (t, a) h
      | inr a ↦ let (e, done, valid, _, _) = append_total i now l h t a in rw done valid
    ]
  ]

  in_range_up :
      (from to : ℤ) (a n m : ℕ)
      → in_range from to a ≡ true
      → a ≤ n
      → in_range from to n ≡ false
      → n ≤ m
      → in_range from to m ≡ false
  unfolding in_range
  in_range_up from to a n m h l k j = ground arith

  segment_nil :
      (from to : ℤ) (a n lo : ℕ) (es : List Entry) (hi : ℕ)
      → in_range from to a ≡ true
      → a ≤ n
      → in_range from to n ≡ false
      → n ≤ lo
      → Ascending lo es hi
      → segment from to es ≡ []
  unfolding segment
  segment_nil from to a n lo [] hi h l k j asc = refl
  segment_nil from to a n lo (e ∷ es) hi h l k j asc =
      rw (in_range_up from to a n e.id h l k (omega arith))
        (segment_nil from to a n (suc e.id) es hi h l k (omega arith) asc.1)

  segment-Chained :
      (from to : ℤ) (a : ℕ) (prev : Text) (lo : ℕ) (es : List Entry) (hi : ℕ)
      → in_range from to a ≡ true
      → a ≤ lo
      → Chained c prev es
      → Ascending lo es hi
      → Chained c prev (segment from to es)
  unfolding segment
  segment-Chained from to a prev lo [] hi i l h asc = tt
  segment-Chained from to a prev lo (e ∷ es) hi i l h asc =
      elim (Bool-cases (in_range from to e.id)) [
        | inl in_it ↦ rw in_it (
          h.0,
          h.1,
          segment-Chained from to a e.entry_hash (suc e.id) es hi i (omega arith) h.2 asc.1,
        )
        | inr out ↦
            rw
              (
                out,
                segment_nil from to a e.id (suc e.id) es hi i (omega arith) out (omega arith) asc.1,
              )
              tt
      ]

  segment-IsIntact :
      (from to : ℤ) (prev : Text) (lo : ℕ) (es : List Entry) (hi : ℕ)
      → Chained c prev es
      → Ascending lo es hi
      → IsIntact c (segment from to es)
  unfolding segment
  segment-IsIntact from to prev lo [] hi h asc = tt
  segment-IsIntact from to prev lo (e ∷ es) hi h asc = elim (Bool-cases (in_range from to e.id)) [
    | inl in_it ↦ rw in_it (
      refl,
      h.1,
      segment-Chained from to e.id e.entry_hash (suc e.id) es hi in_it (omega arith) h.2 asc.1,
    )
    | inr out ↦ rw out (segment-IsIntact from to e.entry_hash (suc e.id) es hi h.2 asc.1)
  ]

  -- The verify endpoint accepts every range of every tenant of a ledger: all the rows in it.
  verify-IsLedger :
      (tenant : Text) (from to : ℤ) (l : LedgerState)
      → is_empty tenant ≡ false
      → IsLedger l
      → serve_verify c tenant from to l
        ≡ intact
            (length (segment from to (rows_of tenant l.rows)))
            (last_id_of 0 (segment from to (rows_of tenant l.rows)))
  verify-IsLedger tenant from to l t h = verify_complete c tenant from to l t (
      segment-IsIntact from to zero_hash 0 (rows_of tenant l.rows) l.next_id (h.chains tenant)
        (Ascending-rows_of tenant 0 l.rows l.next_id h.ascending))

  unfoldable pub append_all : List (AppendInput × ℕ) → LedgerState → LedgerState
  append_all [] l = l
  append_all ((i, now) ∷ is) l = append_all is (append c i now l).1

  append_all-IsLedger :
      (is : List (AppendInput × ℕ)) (l : LedgerState) → IsLedger l → IsLedger (append_all is l)
  unfolding append_all
  append_all-IsLedger [] l h = h
  append_all-IsLedger ((i, now) ∷ is) l h =
      append_all-IsLedger is (append c i now l).1 (append-IsLedger i now l h)

  -- After any appends to the empty ledger, of valid and invalid inputs, the verify endpoint accepts
  -- every range of every tenant, and reports the number of its rows and the last id.
  pub append_all-verified :
      (is : List (AppendInput × ℕ)) (first_id : ℕ) (tenant : Text) (from to : ℤ)
      → is_empty tenant ≡ false
      → let l = append_all is (record { rows = []; next_id = first_id }) in
        serve_verify c tenant from to l
        ≡ intact
            (length (segment from to (rows_of tenant l.rows)))
            (last_id_of 0 (segment from to (rows_of tenant l.rows)))
  unfolding rows_of
  append_all-verified is first_id tenant from to t =
      let l0 : LedgerState = record { rows = []; next_id = first_id } in
      let h0 : IsLedger l0 = record { chains = λ u. tt; ascending = omega arith } in
      verify-IsLedger tenant from to (append_all is l0) t (append_all-IsLedger is l0 h0)
