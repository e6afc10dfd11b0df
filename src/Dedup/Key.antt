-- ===== src/Dedup/Key.antt =====
-- The key of a usage window (apps/worker/usage-poller/openai/internal/dedup/dedup.go).
use openllm_metrics.Prelude.{
  ℕ, ℕ_discrete, ◌≡◌, refl, sym, ◌∙◌, Bool, true, false, ◌&&◌, not, [], ◌∷◌, ◌++◌, append_assoc,
  Text, arith, ite,
}
use openllm_metrics.Dedup.{Lru, seen, run}
use openllm_metrics.Dedup.Lists.{mem}
use openllm_metrics.Dedup.Invariant.{IsValid}
use openllm_metrics.Dedup.Replay.{subset, replay_silent}

pub record Key : Type 0 where
  pub provider : Text
  pub window_start : Text
  pub window_end : Text
  pub model : Text
  pub app : Text
  pub team : Text
  pub project : Text

-- The separator `|`.
abbrev pub bar : ℕ
bar = 124

unfoldable pub key_string : Key → Text
key_string k =
    k.provider
    ++ bar ∷ k.window_start
    ++ bar ∷ k.window_end
    ++ bar ∷ k.model
    ++ bar ∷ k.app
    ++ bar ∷ k.team
    ++ bar ∷ k.project

unfoldable pub seen_key : Key → Lru → Bool × Lru
seen_key k s = seen (key_string k) s

unfoldable pub free : Text → Bool
free [] = true
free (c ∷ cs) = not (ite (ℕ_discrete c bar) true false) && free cs

-- No field but the last has a separator.
pub record IsSeparated (k : Key) : Type 0 where
  pub provider_free : free k.provider ≡ true
  pub start_free : free k.window_start ≡ true
  pub end_free : free k.window_end ≡ true
  pub model_free : free k.model ≡ true
  pub app_free : free k.app ≡ true
  pub team_free : free k.team ≡ true

head_eq : (x y : ℕ) (xs ys : Text) → x ∷ xs ≡ y ∷ ys → (x ≡ y) × (xs ≡ ys)
head_eq x y xs ys e = (cc, cc)

split_eq :
    (x y r r' : Text)
    → free x ≡ true
    → free y ≡ true
    → x ++ bar ∷ r ≡ y ++ bar ∷ r'
    → (x ≡ y) × (r ≡ r')
unfolding free
split_eq [] [] r r' a b e = (refl, (head_eq bar bar r r' e).1)
split_eq [] (y ∷ ys) r r' a b e =
    let (h, t) = head_eq bar y r (ys ++ bar ∷ r') e in absurd (ground arith)
split_eq (x ∷ xs) [] r r' a b e =
    let (h, t) = head_eq x bar (xs ++ bar ∷ r) r' e in absurd (ground arith)
split_eq (x ∷ xs) (y ∷ ys) r r' a b e =
    let (h, t) = head_eq x y (xs ++ bar ∷ r) (ys ++ bar ∷ r') e in
    let (same, rest) = split_eq xs ys r r' (ground arith) (ground arith) t in
    ((λ i. h i ∷ same i), rest)

module _ (k : Key) where
  abbrev after_app : Text
  after_app = k.team ++ bar ∷ k.project

  abbrev after_model : Text
  after_model = k.app ++ bar ∷ after_app

  abbrev after_end : Text
  after_end = k.model ++ bar ∷ after_model

  abbrev after_start : Text
  after_start = k.window_end ++ bar ∷ after_end

  abbrev after_provider : Text
  after_provider = k.window_start ++ bar ∷ after_start

key_string-nested : (k : Key) → key_string k ≡ k.provider ++ bar ∷ after_provider k
unfolding key_string
key_string-nested k = simp append_assoc

-- Two keys whose first six fields have no `|` and that are written the same way are the same key.
pub key_string-injective :
    (k k' : Key) → IsSeparated k → IsSeparated k' → key_string k ≡ key_string k' → k ≡ k'
key_string-injective k k' a b e =
    let (p, e1) =
      split_eq k.provider k'.provider (after_provider k) (after_provider k') a.provider_free
        b.provider_free (sym (key_string-nested k) ∙ e ∙ key_string-nested k') in
    let (ws, e2) =
      split_eq k.window_start k'.window_start (after_start k) (after_start k') a.start_free
        b.start_free e1 in
    let (we, e3) =
      split_eq k.window_end k'.window_end (after_end k) (after_end k') a.end_free b.end_free e2 in
    let (m, e4) =
      split_eq k.model k'.model (after_model k) (after_model k') a.model_free b.model_free e3 in
    let (ap', e5) = split_eq k.app k'.app (after_app k) (after_app k') a.app_free b.app_free e4 in
    let (t, pr) = split_eq k.team k'.team k.project k'.project a.team_free b.team_free e5 in
    λ i. record {
      provider = p i;
      window_start = ws i;
      window_end = we i;
      model = m i;
      app = ap' i;
      team = t i;
      project = pr i;
    }

head_false : {b : Bool} → b ∷ [] ≡ false ∷ [] → b ≡ false
head_false e = cc

same_string :
    (k : Key) (x : Text)
    → key_string (record k { app = x ++ bar ∷ k.app })
      ≡ key_string (record k { model = k.model ++ bar ∷ x })
unfolding key_string
same_string k x = simp append_assoc

-- Moving a `|` and what follows it from the model's name to the app's gives another key that is
-- written the same way: once the first was seen, the second is answered with false.
pub seen-collision :
    (k : Key) (x : Text) (s : Lru)
    → IsValid s
    → (seen_key
        (record k { app = x ++ bar ∷ k.app })
        (seen_key (record k { model = k.model ++ bar ∷ x }) s).1).0
      ≡ false
unfolding seen_key run subset mem
seen-collision k x s v =
    let first = key_string (record k { model = k.model ++ bar ∷ x }) in
    let again = replay_silent (first ∷ []) (first ∷ []) s v v.positive (ground arith) in
    rw (same_string k x) (head_false again)
