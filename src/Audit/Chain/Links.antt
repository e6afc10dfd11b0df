-- ===== src/Audit/Chain/Links.antt =====
-- What the verify handler (apps/api/audit-service/internal/handler/verify.go) accepts, against a
-- description of the chain that does not run it.
use openllm_metrics.Prelude.{
  ℕ, suc, ◌+◌, ◌≡◌, ◌⊎◌, refl, ap, ◌∙◌, true, false, some, List, [], ◌∷◌, ◌++◌, Text, is_empty,
  length, Bool-cases, arith, inl, inr,
}
use openllm_metrics.Prelude.Int.{ℤ}
use openllm_metrics.Audit.Chain.{
  Encoders, Entry, Break, intact, Progress, Visit, go_on, stop, fail, LedgerState, last_hash,
  rows_of, segment, compute, visit, verify_rows, begin, serve_verify,
}

unfoldable pub last_id_of : ℕ → List Entry → ℕ
last_id_of id [] = id
last_id_of id (e ∷ es) = last_id_of e.id es

Visit-cases :
    (v : Visit) → ((q : Progress) × (v ≡ go_on q)) ⊎ ((b : Break) × (v ≡ stop b)) ⊎ (v ≡ fail)
Visit-cases (go_on q) = inl (q, refl)
Visit-cases (stop b) = inr (inl (b, refl))
Visit-cases fail = inr (inr refl)

module _ (c : Encoders) where
  -- Each row names its predecessor's hash, and its own hash is the one of its content.
  abbrev pub Chained : Text → List Entry → Type 0
  Chained prev [] = Unit
  Chained prev (e ∷ es) =
      (e.prev_hash ≡ prev) × (compute c e ≡ some e.entry_hash) × Chained e.entry_hash es

  -- A chain from some hash on.
  abbrev pub IsIntact : List Entry → Type 0
  IsIntact [] = Unit
  IsIntact (e ∷ es) = Chained e.prev_hash (e ∷ es)

  pub Chained-append :
      (prev : Text) (xs ys : List Entry)
      → Chained prev xs
      → Chained (last_hash prev xs) ys
      → Chained prev (xs ++ ys)
  unfolding last_hash
  Chained-append prev [] ys h k = k
  Chained-append prev (x ∷ xs) ys h k = (h.0, h.1, Chained-append x.entry_hash xs ys h.2 k)

  visited : Entry → Progress → Progress
  visited e p = record p {
    prev = e.entry_hash;
    first = false;
    checked = suc p.checked;
    last_id = e.id;
    verify_checks = suc p.verify_checks;
  }

  -- The callback goes on exactly where the row's link and hash are right.
  visit_link :
      (e : Entry) (p : Progress)
      → (p.first ≡ true) ⊎ (e.prev_hash ≡ p.prev)
      → compute c e ≡ some e.entry_hash
      → visit c e p ≡ go_on (visited e p)
  unfolding visit visited
  visit_link e p link h = ground arith

  visit_ok :
      (e : Entry) (p q : Progress)
      → visit c e p ≡ go_on q
      → (q ≡ visited e p)
        × (compute c e ≡ some e.entry_hash)
        × (p.first ≡ false → e.prev_hash ≡ p.prev)
  unfolding visit visited
  visit_ok e p q h = ground arith

  verify-Chained :
      (es : List Entry) (p : Progress)
      → p.first ≡ false
      → Chained p.prev es
      → (verify_rows c es p).0 ≡ intact (p.checked + length es) (last_id_of p.last_id es)
  unfolding verify_rows last_id_of visited
  verify-Chained [] p f h = ap (λ n. intact n p.last_id) (omega arith)
  verify-Chained (e ∷ es) p f h =
      rw (visit_link e p (inr h.0) h.1, verify_rows)
        (verify-Chained es (visited e p) refl h.2
          ∙ ap (λ n. intact n (last_id_of e.id es)) (omega arith))

  verified_rows :
      (es : List Entry) (p : Progress) (n i : ℕ)
      → p.first ≡ false
      → (verify_rows c es p).0 ≡ intact n i
      → Chained p.prev es
  unfolding verify_rows visited
  verified_rows [] p n i f h = tt
  verified_rows (e ∷ es) p n i f h = elim (Visit-cases (visit c e p)) [
    | inr (inl (b, v)) ↦ cc (rw (v, verify_rows) at h)
    | inr (inr v) ↦ cc (rw (v, verify_rows) at h)
    | inl (q, v) ↦
        let ok = visit_ok e p q v in
        let h' : (verify_rows c es q).0 ≡ intact n i = rw (v, verify_rows) at h in
        (ok.2 f, ok.1, verified_rows es (visited e p) n i refl (rw ok.0 at h'))
  ]

  pub IsIntact-verified :
      (es : List Entry) (n i : ℕ) → (verify_rows c es (begin)).0 ≡ intact n i → IsIntact es
  unfolding verify_rows visited
  IsIntact-verified [] n i h = tt
  IsIntact-verified (e ∷ es) n i h = elim (Visit-cases (visit c e (begin))) [
    | inr (inl (b, v)) ↦ cc (rw (v, verify_rows) at h)
    | inr (inr v) ↦ cc (rw (v, verify_rows) at h)
    | inl (q, v) ↦
        let ok = visit_ok e (begin) q v in
        let h' : (verify_rows c es q).0 ≡ intact n i = rw (v, verify_rows) at h in
        (refl, ok.1, verified_rows es (visited e (begin)) n i refl (rw ok.0 at h'))
  ]

  pub verified_of_IsIntact :
      (es : List Entry)
      → IsIntact es
      → (verify_rows c es (begin)).0 ≡ intact (length es) (last_id_of 0 es)
  unfolding verify_rows last_id_of visited
  verified_of_IsIntact [] h = refl
  verified_of_IsIntact (e ∷ es) h =
      rw (visit_link e (begin) (inl refl) h.1, verify_rows)
        (verify-Chained es (visited e (begin)) refl h.2
          ∙ ap (λ n. intact n (last_id_of e.id es)) (omega arith))

  -- The verify endpoint accepts a segment, of any range, of which each row but the first names its
  -- predecessor's hash and each row's hash is the one of its content; it then reports the number
  -- of rows and the last id.
  pub verify_complete :
      (tenant : Text) (from to : ℤ) (l : LedgerState)
      → is_empty tenant ≡ false
      → IsIntact (segment from to (rows_of tenant l.rows))
      → serve_verify c tenant from to l
        ≡ intact
            (length (segment from to (rows_of tenant l.rows)))
            (last_id_of 0 (segment from to (rows_of tenant l.rows)))
  unfolding serve_verify
  verify_complete tenant from to l h k =
      rw h (verified_of_IsIntact (segment from to (rows_of tenant l.rows)) k)

  -- Of a segment that the verify endpoint accepts, whatever it reports, each row but the first
  -- names its predecessor's hash and each row's hash is the one of its content.
  pub verify_sound :
      (tenant : Text) (from to : ℤ) (l : LedgerState) (n i : ℕ)
      → serve_verify c tenant from to l ≡ intact n i
      → IsIntact (segment from to (rows_of tenant l.rows))
  unfolding serve_verify
  verify_sound tenant from to l n i k = elim (Bool-cases (is_empty tenant)) [
    | inl e ↦ cc (rw e at k)
    | inr e ↦ IsIntact-verified (segment from to (rows_of tenant l.rows)) n i (rw e at k)
  ]
