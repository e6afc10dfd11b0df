-- ===== src/Audit/Chain/Tamper.antt =====
-- What changes to a verified segment the verify handler
-- (apps/api/audit-service/internal/handler/verify.go) can see, and what it cannot.
use openllm_metrics.Prelude.{
  ◌≡◌, ◌≢◌, ◌⊎◌, refl, sym, ◌∙◌, some, List, [], ◌∷◌, ◌++◌, Text, Text-discrete, length,
  append_assoc, subst, inl, inr, Option-cases,
}
use openllm_metrics.Audit.Chain.{Encoders, Entry, intact, canonical, compute, verify_rows, begin}
use openllm_metrics.Audit.Chain.Links.{
  Chained, IsIntact, last_id_of, IsIntact-verified, verified_of_IsIntact,
}

module _ (c : Encoders) where
  -- Two different texts with the same SHA-256.
  abbrev pub Collision : Type 0
  Collision = (x : Text) × (y : Text) × (x ≢ y) × (c.sha256 x ≡ c.sha256 y)

  abbrev pub IsVerified : List Entry → Type 0
  IsVerified es = (verify_rows c es begin).0 ≡ intact (length es) (last_id_of 0 es)

  -- A text that hashes to what a row's document hashes to is that document, or a collision.
  same_hash :
      (d e : Entry) (h : Text)
      → compute c d ≡ some h
      → compute c e ≡ some h
      → (canonical c d ≡ canonical c e) ⊎ Collision
  unfolding compute
  same_hash d e h p q = elim (Option-cases (canonical c d)) [
    | inl miss ↦ cc (rw (miss, compute) at p)
    | inr (x, found) ↦ elim (Option-cases (canonical c e)) [
      | inl miss ↦ cc (rw (miss, compute) at q)
      | inr (y, found') ↦ elim (Text-discrete x y) [
        | yes same ↦ inl (found ∙ cc same ∙ sym found')
        | no other ↦
            let a : some (c.sha256 x) ≡ some h = rw (found, compute) at p in
            let b : some (c.sha256 y) ≡ some h = rw (found', compute) at q in inr (x, y, other, cc)
      ]
    ]
  ]

  Chained-middle :
      (prev : Text) (xs ys : List Entry) (e d : Entry)
      → Chained c prev (xs ++ e ∷ d ∷ ys)
      → (compute c e ≡ some e.entry_hash) × (d.prev_hash ≡ e.entry_hash)
  Chained-middle prev [] ys e d h = (h.1, h.2.0)
  Chained-middle prev (x ∷ xs) ys e d h = Chained-middle x.entry_hash xs ys e d h.2

  IsIntact-middle :
      (xs ys : List Entry) (e d : Entry)
      → IsIntact c (xs ++ e ∷ d ∷ ys)
      → (compute c e ≡ some e.entry_hash) × (d.prev_hash ≡ e.entry_hash)
  IsIntact-middle [] ys e d h = Chained-middle e.prev_hash [] ys e d h
  IsIntact-middle (x ∷ xs) ys e d h = Chained-middle x.prev_hash (x ∷ xs) ys e d h

  -- A row that is not the last cannot be replaced, its own hash recomputed or not: if the segment
  -- is verified with either row, their documents are the same or there is a SHA-256 collision.
  pub edit_detected :
      (xs ys : List Entry) (e e' d : Entry)
      → IsVerified (xs ++ e ∷ d ∷ ys)
      → IsVerified (xs ++ e' ∷ d ∷ ys)
      → (canonical c e ≡ canonical c e') ⊎ Collision
  edit_detected xs ys e e' d h k =
      let a = IsIntact-middle xs ys e d (IsIntact-verified c (xs ++ e ∷ d ∷ ys) _ _ h) in
      let b = IsIntact-middle xs ys e' d (IsIntact-verified c (xs ++ e' ∷ d ∷ ys) _ _ k) in
      same_hash e e' d.prev_hash (a.0 ∙ cc a.1) (b.0 ∙ cc b.1)

  -- A row between two others cannot be removed: if the segment is verified with and without it,
  -- its document is its predecessor's or there is a SHA-256 collision.
  pub removal_detected :
      (xs ys : List Entry) (p e d : Entry)
      → IsVerified (xs ++ p ∷ e ∷ d ∷ ys)
      → IsVerified (xs ++ p ∷ d ∷ ys)
      → (canonical c p ≡ canonical c e) ⊎ Collision
  removal_detected xs ys p e d h k =
      let whole = IsIntact-verified c (xs ++ p ∷ e ∷ d ∷ ys) _ _ h in
      let shifted = subst (IsIntact c) (sym (append_assoc xs (p ∷ []) (e ∷ d ∷ ys))) whole in
      let a = IsIntact-middle xs (d ∷ ys) p e whole in
      let b = IsIntact-middle (xs ++ p ∷ []) ys e d shifted in
      let r = IsIntact-middle xs ys p d (IsIntact-verified c (xs ++ p ∷ d ∷ ys) _ _ k) in
      same_hash p e p.entry_hash a.0 (b.0 ∙ cc (b.1, r.1))

  Chained-drop : (prev : Text) (xs ys : List Entry) → Chained c prev (xs ++ ys) → IsIntact c ys
  Chained-drop prev [] [] h = tt
  Chained-drop prev [] (y ∷ ys) h = (refl, h.1, h.2)
  Chained-drop prev (x ∷ xs) ys h = Chained-drop x.entry_hash xs ys h.2

  IsIntact-drop : (xs ys : List Entry) → IsIntact c (xs ++ ys) → IsIntact c ys
  IsIntact-drop [] ys h = h
  IsIntact-drop (x ∷ xs) ys h = Chained-drop x.prev_hash (x ∷ xs) ys h

  -- Of a verified segment any number of its oldest rows can be removed, and what is left is
  -- verified: the first row is held to no predecessor, not even to the zero hash.
  pub head_removal_undetected : (xs ys : List Entry) → IsVerified (xs ++ ys) → IsVerified ys
  head_removal_undetected xs ys h =
      verified_of_IsIntact c ys (IsIntact-drop xs ys (IsIntact-verified c (xs ++ ys) _ _ h))
