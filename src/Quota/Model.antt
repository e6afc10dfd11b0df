-- ===== src/Quota/Model.antt =====
-- The rolling state, apps/worker/quota-risk/internal/model/model.go, its maps as a list of rows.
-- float64 is a type `C` with the operations of the record `Floats`. Times are nanoseconds.
pub mod Rolling
pub mod Snapshots
pub mod Risk
use openllm_metrics.Prelude.{
  ℕ, ◌*◌, Bool, true, false, ◌&&◌, ◌||◌, not, Option, none, some, List, [], ◌∷◌, Text,
  Text-discrete, ltb, ◌==◌, ite, if◌then◌else◌,
}
use openllm_metrics.Prelude.Int.{ℤ, pos, pos_part, ltb_ℤ, ◌-ℤ◌}
use openllm_metrics.Quota.Parser.{Signal}

pub data Kind : Type 0 where
  tokens requests : Kind

pub record Key : Type 0 where
  pub tenant : Text
  pub provider : Text
  pub model : Text
  pub region : Text

pub record State : Type 0 where
  pub kind : Kind
  pub remaining : ℤ
  pub limit : ℤ
  pub reset_after : ℤ
  pub updated_at : ℤ

pub record Row : Type 0 where
  pub key : Key
  pub state : State

-- The float64 operations that the scores use; `scale` is 1.25.
pub record Floats (C : Type 0) : Type 0 where
  pub zero : C
  pub one : C
  pub scale : C
  pub of_int64 : ℤ → C
  pub sub : C → C → C
  pub mul : C → C → C
  pub div : C → C → C
  pub less : C → C → Bool
  pub is_nan : C → Bool
  pub is_inf : C → Bool

module _ {C : Type 0} (floats : Floats C) where
  unfoldable pub not_below_zero : C → C
  not_below_zero r = if floats.less r floats.zero then floats.zero else r

  unfoldable pub not_above_one : C → C
  not_above_one r = if floats.less floats.one r then floats.one else r

  -- none where the limit is unknown.
  unfoldable pub used_ratio : State → Option C
  used_ratio s =
      let share = floats.div (floats.of_int64 s.remaining) (floats.of_int64 s.limit) in
      if ltb_ℤ (pos 0) s.limit
      then some (not_above_one (not_below_zero (floats.sub floats.one share)))
      else none

  unfoldable pub scaled : C → C
  scaled used = not_above_one (floats.mul used floats.scale)

  unfoldable pub risk_score : State → Option C
  risk_score s = elim (used_ratio s) [
    | none ↦ none
    | some used ↦
        let r = scaled used in
        if floats.is_nan r then none else if floats.is_inf r then none else some r
  ]

unfoldable pub nanoseconds_to_reset : State → ℕ
nanoseconds_to_reset s = pos_part s.reset_after

unfoldable same_text : Text → Text → Bool
same_text a b = ite (Text-discrete a b) true false

unfoldable pub same_kind : Kind → Kind → Bool
same_kind tokens tokens = true
same_kind tokens requests = false
same_kind requests tokens = false
same_kind requests requests = true

unfoldable pub same_key : Key → Key → Bool
unfolding same_text
same_key a b =
    same_text a.tenant b.tenant
    && (same_text a.provider b.provider
        && (same_text a.model b.model && same_text a.region b.region))

-- The state of one key's pool.
unfoldable pub find : Key → Kind → List Row → Option State
find k kind [] = none
find k kind (r ∷ rs) =
    let rest = find k kind rs in
    if same_key r.key k && same_kind r.state.kind kind then some r.state else rest

unfoldable pub put : Row → List Row → List Row
put new [] = new ∷ []
put new (r ∷ rs) =
    let rest = put new rs in
    if same_key r.key new.key && same_kind r.state.kind new.state.kind then new ∷ rs else r ∷ rest

unfoldable pub observe : ℤ → Key → Signal → List Row → List Row
observe now key sig rows =
    let with_tokens =
      if sig.has_tokens
      then put
          (record {
            key = key;
            state = record {
              kind = tokens;
              remaining = sig.tokens_remaining;
              limit = sig.tokens_limit;
              reset_after = sig.reset_after;
              updated_at = now;
            };
          })
          rows
      else rows in
    if sig.has_requests
    then put
        (record {
          key = key;
          state = record {
            kind = requests;
            remaining = sig.requests_remaining;
            limit = sig.requests_limit;
            reset_after = sig.reset_after;
            updated_at = now;
          };
        })
        with_tokens
    else with_tokens

-- Go's order of strings.
unfoldable pub less_text : Text → Text → Bool
less_text [] [] = false
less_text [] (d ∷ t) = true
less_text (c ∷ s) [] = false
less_text (c ∷ s) (d ∷ t) = let rest = less_text s t in if c == d then rest else ltb c d

less_kind : Kind → Kind → Bool
less_kind requests tokens = true
less_kind requests requests = false
less_kind tokens k = false

unfoldable pub less_row : Row → Row → Bool
unfolding same_text less_kind
less_row a b =
    if not (same_text a.key.tenant b.key.tenant)
    then less_text a.key.tenant b.key.tenant
    else if not (same_text a.key.provider b.key.provider)
    then less_text a.key.provider b.key.provider
    else if not (same_text a.key.model b.key.model)
    then less_text a.key.model b.key.model
    else if not (same_text a.key.region b.key.region)
    then less_text a.key.region b.key.region
    else less_kind a.state.kind b.state.kind

unfoldable pub insert_row : Row → List Row → List Row
insert_row r [] = r ∷ []
insert_row r (s ∷ ss) = let rest = insert_row r ss in if less_row s r then s ∷ rest else r ∷ s ∷ ss

unfoldable pub sort_rows : List Row → List Row
sort_rows [] = []
sort_rows (r ∷ rs) = insert_row r (sort_rows rs)

unfoldable pub is_stale : ℤ → State → Bool
is_stale cutoff s = ltb_ℤ s.updated_at cutoff

unfoldable pub current_rows : ℤ → List Row → List Row
current_rows cutoff [] = []
current_rows cutoff (r ∷ rs) =
    let rest = current_rows cutoff rs in if is_stale cutoff r.state then rest else r ∷ rest

unfoldable pub snapshot : ℤ → ℤ → List Row → List Row
snapshot now window rows = sort_rows (current_rows (now -ℤ window) rows)
