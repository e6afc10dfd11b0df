-- ===== src/Cost/Worker/Owed.antt =====
-- What a runtime event adds to the cost mapper's buckets, and to what it publishes
-- (apps/worker/cost-mapper).
use openllm_metrics.Prelude.{
  ℕ, ◌≡◌, refl, ap, sym, ◌∙◌, ◌⊎◌, inl, inr, Bool-cases, Bool, true, false, Option, none, some,
  List, [], ◌∷◌, ◌++◌, Text, Text-discrete, is_empty, ite, arith,
}
use openllm_metrics.Prelude.Int.{ℤ, pos, ◌+ℤ◌, wrap}
use openllm_metrics.Cost.{Floats, canonical}
use openllm_metrics.Cost.Canonical.{canonical_idem}
use openllm_metrics.Cost.Catalog.{Catalog, Rate, lookup}
use openllm_metrics.Cost.Mapper.{
  RuntimeEvent, EstimatedEvent, EstimateError, missing_event_id, missing_tenant, not_priced,
  estimated, refused, estimate, event_of,
}
use openllm_metrics.Cost.Drift.{Buckets, key_string}
use openllm_metrics.Cost.Drift.Totals.{held, held-record_estimate}
use openllm_metrics.Cost.Worker.{
  State, parse_time, hour_key, estimate_of, emit, keep_estimate, after_emit, price, bump_unpriced,
}

module _ (format_unix : ℕ → Text) (parse_rfc3339 : Text → Option ℕ) where
  -- The sum after one more estimate that the bus took: it counts for the hour of its recorded_at.
  unfoldable pub counted : Text → EstimatedEvent → Option ℕ → ℤ → ℤ
  counted k e none total = total
  counted k e (some t) total =
      ite (Text-discrete k (key_string format_unix (hour_key e.tenant e.provider e.model t)))
        (wrap (total +ℤ e.cost_minor)) total

  unfoldable pub add_owed : Text → EstimatedEvent → ℤ → ℤ
  add_owed k e total = counted k e (parse_time parse_rfc3339 e.recorded_at) total

  unfoldable pub owed_from : Text → ℤ → List EstimatedEvent → ℤ
  owed_from k total [] = total
  owed_from k total (e ∷ es) = owed_from k (add_owed k e total) es

  -- The sum of the costs that the bus took for a key, in int64.
  unfoldable pub owed : Text → List EstimatedEvent → ℤ
  owed k es = owed_from k (pos 0) es

  owed_from-append :
      (k : Text) (total : ℤ) (es : List EstimatedEvent) (e : EstimatedEvent)
      → owed_from k total (es ++ e ∷ []) ≡ add_owed k e (owed_from k total es)
  unfolding owed_from
  owed_from-append k total [] e = refl
  owed_from-append k total (x ∷ es) e = owed_from-append k (add_owed k x total) es e

  canonical_key :
      (tenant provider model : Text) (t : ℕ)
      → key_string format_unix (hour_key tenant (canonical provider) (canonical model) t)
        ≡ key_string format_unix (hour_key tenant provider model t)
  unfolding key_string hour_key
  canonical_key tenant provider model t = rw (canonical_idem provider, canonical_idem model) refl

  emit_cases :
      (fails : Bool) (e : EstimatedEvent) (sent : List EstimatedEvent)
      → (emit fails e sent ≡ (sent, true)) ⊎ (emit fails e sent ≡ (sent ++ e ∷ [], false))
  unfolding emit
  emit_cases fails e sent = ground arith

  -- For every key the sum that is held is the one that was published.
  abbrev pub IsSettled : {C : Type 0} → State C → Type 0
  IsSettled s = (k : Text) → held k s.buckets ≡ owed k s.emitted

  module _ {C : Type 0} (floats : Floats C) (sha256_hex : Text → Text) where
    keep_estimate_lem :
        (ev : RuntimeEvent) (rate : Rate C) (version now k : Text) (bs : Buckets) (o : Option ℕ)
        → held k
            (keep_estimate format_unix ev (event_of floats sha256_hex now ev rate version) o bs)
          ≡ counted k (event_of floats sha256_hex now ev rate version) o (held k bs)
    unfolding keep_estimate counted event_of estimate_of
    keep_estimate_lem ev rate version now k bs none = refl
    keep_estimate_lem ev rate version now k bs (some t) =
        let est = event_of floats sha256_hex now ev rate version in
        held-record_estimate format_unix k (estimate_of ev est t) bs
        ∙ ap (λ key. ite (Text-discrete k key) (wrap (held k bs +ℤ est.cost_minor)) (held k bs))
            (sym (canonical_key ev.tenant ev.provider ev.model t))

    after_emit-IsSettled :
        (ev : RuntimeEvent) (rate : Rate C) (version now : Text) (s : State C)
        (sent : List EstimatedEvent × Bool)
        → (sent ≡ (s.emitted, true))
          ⊎ (sent ≡ (s.emitted ++ event_of floats sha256_hex now ev rate version ∷ [], false))
        → IsSettled s
        → IsSettled
            (after_emit floats format_unix parse_rfc3339 sha256_hex ev
              (event_of floats sha256_hex now ev rate version)
              s
              sent).0
    unfolding after_emit owed_from owed counted add_owed event_of
    after_emit-IsSettled ev rate version now s (sent, true) c v = v
    after_emit-IsSettled ev rate version now s (sent, false) (inl e) v = absurd (ground arith)
    after_emit-IsSettled ev rate version now s (sent, false) (inr e) v =
        let est = event_of floats sha256_hex now ev rate version in
        λ k.
          keep_estimate_lem ev rate version now k s.buckets
            (parse_time parse_rfc3339 ev.recorded_at)
          ∙ ap (add_owed k est) (v k)
          ∙ sym (owed_from-append k (pos 0) s.emitted est)
          ∙ ap (owed k) (sym (ap (λ p. p.0) e))

    refused-IsSettled :
        (fails : Bool) (ev : RuntimeEvent) (e : EstimateError) (s : State C)
        → IsSettled s
        → IsSettled (price floats format_unix parse_rfc3339 sha256_hex fails ev (refused e) s).0
    unfolding price bump_unpriced
    refused-IsSettled fails ev not_priced s v = v
    refused-IsSettled fails ev missing_event_id s v = v
    refused-IsSettled fails ev missing_tenant s v = v

    lookup_cases : (o : Option (Rate C)) → (o ≡ none) ⊎ ((r : Rate C) × (o ≡ some r))
    lookup_cases none = inl refl
    lookup_cases (some r) = inr (r, refl)

    -- Estimate refuses, or prices the event at a rate of the catalog.
    estimate_cases :
        (now : Text) (cat : Catalog C) (ev : RuntimeEvent)
        → ((e : EstimateError) × (estimate floats sha256_hex now cat ev ≡ refused e))
          ⊎ ((r : Rate C) × (estimate floats sha256_hex now cat ev
                ≡ estimated (event_of floats sha256_hex now ev r cat.version)))
    unfolding estimate
    estimate_cases now cat ev = elim (Bool-cases (is_empty ev.event_id)) [
      | inl i ↦ inl (missing_event_id, rw i refl)
      | inr i ↦ elim (Bool-cases (is_empty ev.tenant)) [
        | inl t ↦ inl (missing_tenant, rw (i, t) refl)
        | inr t ↦ elim (lookup_cases (lookup ev.provider ev.model cat)) [
          | inl l ↦ inl (not_priced, rw (i, t, l) refl)
          | inr (r, l) ↦ inr (r, rw (i, t, l) refl)
        ]
      ]
    ]

    pub price-IsSettled :
        (fails : Bool) (now : Text) (ev : RuntimeEvent) (s : State C)
        → IsSettled s
        → IsSettled
            (price floats format_unix parse_rfc3339 sha256_hex fails ev
              (estimate floats sha256_hex now s.catalog ev)
              s).0
    unfolding price
    price-IsSettled fails now ev s v = elim (estimate_cases now s.catalog ev) [
      | inl (e, h) ↦ rw h (refused-IsSettled fails ev e s v)
      | inr (r, h) ↦
          let est = event_of floats sha256_hex now ev r s.catalog.version in
          rw h (
            after_emit-IsSettled ev r s.catalog.version now s (emit fails est s.emitted)
              (emit_cases fails est s.emitted) v)
    ]
