-- ===== src/Quota/Model/Rolling.antt =====
-- Observations and snapshots (apps/worker/quota-risk/internal/model/model.go).
use openllm_metrics.Prelude.{
  ◌≡◌, refl, ap, sym, ◌∙◌, Bool, true, false, ◌&&◌, some, List, [], ◌∷◌, Text, if◌then◌else◌,
  Bool-cases, inl, inr, arith,
}
use openllm_metrics.Prelude.Int.{ℤ}
use openllm_metrics.Quota.Parser.{Signal}
use openllm_metrics.Quota.Model.{
  Kind, tokens, requests, Key, State, Row, same_text, same_kind, same_key, find, put, observe,
}

same_text_eq : (a b : Text) → same_text a b ≡ true → a ≡ b
unfolding same_text
same_text_eq a b h = ground arith

same_text_refl : (a : Text) → same_text a a ≡ true
unfolding same_text
same_text_refl a = ground arith

both : (a b : Bool) → (a && b) ≡ true → (a ≡ true) × (b ≡ true)
both a b h = ground arith

same_key_eq : (a b : Key) → same_key a b ≡ true → a ≡ b
unfolding same_key
same_key_eq a b h =
    let (t, h1) = both _ _ h in
    let (p, h2) = both _ _ h1 in
    let (m, r) = both _ _ h2 in
    let t' = same_text_eq a.tenant b.tenant t in
    let p' = same_text_eq a.provider b.provider p in
    let m' = same_text_eq a.model b.model m in
    let r' = same_text_eq a.region b.region r in
    λ i. record { tenant = t' i; provider = p' i; model = m' i; region = r' i }

same_kind_eq : (a b : Kind) → same_kind a b ≡ true → a ≡ b
unfolding same_kind
same_kind_eq tokens tokens h = refl
same_kind_eq tokens requests h = cc
same_kind_eq requests tokens h = cc
same_kind_eq requests requests h = refl

same_key_refl : (a : Key) → same_key a a ≡ true
unfolding same_key
same_key_refl a =
    rw
      (
        same_text_refl a.tenant,
        same_text_refl a.provider,
        same_text_refl a.model,
        same_text_refl a.region,
      )
      refl

same_kind_refl : (a : Kind) → same_kind a a ≡ true
unfolding same_kind
same_kind_refl tokens = refl
same_kind_refl requests = refl

false-true : false ≡ true → ⊥
false-true e = cc

if_again {ℓ} :
    {A : Type ℓ} (x y z : A) (b : Bool)
    → (if b then x else y) ≡ (if b then x else if b then z else y)
if_again x y z true = refl
if_again x y z false = refl

if_swap {ℓ} :
    {A : Type ℓ} (x y z : A) (a b : Bool)
    → (a ≡ true → b ≡ true → ⊥)
    → (if a then x else if b then y else z) ≡ (if b then y else if a then x else z)
if_swap x y z true true h = absurd (h refl refl)
if_swap x y z true false h = refl
if_swap x y z false true h = refl
if_swap x y z false false h = refl

-- Two rows of one pool have the same key and kind.
same_pool :
    (k : Key) (kind : Kind) (r s : Row)
    → (same_key r.key k && same_kind r.state.kind kind) ≡ true
    → (same_key s.key k && same_kind s.state.kind kind) ≡ true
    → (same_key r.key s.key && same_kind r.state.kind s.state.kind) ≡ true
same_pool k kind r s a b =
    let (rk, rd) = both _ _ a in
    let (sk, sd) = both _ _ b in
    let key : r.key ≡ s.key = same_key_eq r.key k rk ∙ sym (same_key_eq s.key k sk) in
    let kd : r.state.kind ≡ s.state.kind =
      same_kind_eq r.state.kind kind rd ∙ sym (same_kind_eq s.state.kind kind sd) in
    rw (key, kd, same_key_refl s.key, same_kind_refl s.state.kind) refl

find-put :
    (k : Key) (kind : Kind) (new : Row) (rows : List Row)
    → find k kind (put new rows) ≡ (
        if same_key new.key k && same_kind new.state.kind kind
        then some new.state
        else find k kind rows)
unfolding find put
find-put k kind new [] = refl
find-put k kind new (r ∷ rs) =
    elim (Bool-cases (same_key r.key new.key && same_kind r.state.kind new.state.kind)) [
      | inl e ↦
          let (a, b) = both _ _ e in
          let key = same_key_eq r.key new.key a in
          let kd = same_kind_eq r.state.kind new.state.kind b in
          rw (e, key, kd) (if_again _ _ _ (same_key new.key k && same_kind new.state.kind kind))
      | inr e ↦
          rw (e, find-put k kind new rs)
            (if_swap _ _ _ (same_key r.key k && same_kind r.state.kind kind)
              (same_key new.key k && same_kind new.state.kind kind)
              (λ a b. false-true (sym e ∙ same_pool k kind r new a b)))
    ]

-- What a signal says of a pool.
unfoldable pub has_pool : Kind → Signal → Bool
has_pool tokens sig = sig.has_tokens
has_pool requests sig = sig.has_requests

unfoldable pub pool_state : ℤ → Kind → Signal → State
pool_state now tokens sig = record {
  kind = tokens;
  remaining = sig.tokens_remaining;
  limit = sig.tokens_limit;
  reset_after = sig.reset_after;
  updated_at = now;
}
pool_state now requests sig = record {
  kind = requests;
  remaining = sig.requests_remaining;
  limit = sig.requests_limit;
  reset_after = sig.reset_after;
  updated_at = now;
}

put_if : Bool → Row → List Row → List Row
put_if b new rows = if b then put new rows else rows

find-put_if :
    (b : Bool) (k : Key) (kind : Kind) (new : Row) (rows : List Row)
    → find k kind (put_if b new rows) ≡ (
        if b && (same_key new.key k && same_kind new.state.kind kind)
        then some new.state
        else find k kind rows)
unfolding put_if
find-put_if true k kind new rows = find-put k kind new rows
find-put_if false k kind new rows = refl

-- An observation sets exactly the pools of its key that the signal has, to the signal's values and
-- the time; every other pool of every key stays as it was.
pub observe_lem :
    (now : ℤ) (key : Key) (sig : Signal) (rows : List Row) (k : Key) (kind : Kind)
    → find k kind (observe now key sig rows) ≡ (
        if same_key key k && has_pool kind sig
        then some (pool_state now kind sig)
        else find k kind rows)
unfolding observe put_if has_pool pool_state same_kind
observe_lem now key sig rows k kind =
    let row : Kind → Row = λ x. record { key = key; state = pool_state now x sig } in
    let with_tokens = put_if sig.has_tokens (row tokens) rows in
    let last = find-put_if sig.has_requests k kind (row requests) with_tokens in
    let first = find-put_if sig.has_tokens k kind (row tokens) rows in
    last
    ∙ ap
        (λ o.
          if sig.has_requests && (same_key key k && same_kind requests kind)
          then some (pool_state now requests sig)
          else o)
        first
    ∙ observed kind
  where
    observed :
        (x : Kind)
        → (if sig.has_requests && (same_key key k && same_kind requests x)
            then some (pool_state now requests sig)
            else if sig.has_tokens && (same_key key k && same_kind tokens x)
            then some (pool_state now tokens sig)
            else find k x rows)
          ≡ (if same_key key k && has_pool x sig
              then some (pool_state now x sig)
              else find k x rows)
    observed tokens = ground arith
    observed requests = ground arith
