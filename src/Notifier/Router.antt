-- ===== src/Notifier/Router.antt =====
-- Route of apps/worker/notifier/internal/router/router.go. Decoding a rule's match document
-- (encoding/json) is the parameter `decode`.
pub mod Meaning
pub mod Targets
use openllm_metrics.Prelude.{
  Bool, true, false, ◌&&◌, Option, none, some, List, [], ◌∷◌, ◌++◌, Text, Text-discrete, is_empty,
  ite, if◌then◌else◌,
}

pub record Channel : Type 0 where
  pub id : Text
  pub kind : Text
  pub config : Text

pub record Rule : Type 0 where
  pub id : Text
  pub match_document : Text
  pub channel_ids : List Text

pub record Alert : Type 0 where
  pub id : Text
  pub tenant_id : Text
  pub severity : Text
  pub source : Text

pub record Match : Type 0 where
  pub severity : List Text
  pub source : List Text

pub record Dispatch : Type 0 where
  pub rule : Rule
  pub channel : Channel

unfoldable pub contains : Text → List Text → Bool
contains v [] = false
contains v (x ∷ xs) = ite (Text-discrete x v) true (contains v xs)

-- An empty set allows any value.
unfoldable pub in_set : List Text → Text → Bool
unfolding contains
in_set allowed v = if is_empty allowed then true else contains v allowed

-- The lookup table that the store builds: of two channels with one id the later one is kept.
unfoldable pub find_channel : Text → List Channel → Option Channel
find_channel cid [] = none
find_channel cid (c ∷ cs) = elim (find_channel cid cs) [
  | none ↦ ite (Text-discrete c.id cid) (some c) none
  | some later ↦ some later
]

unfoldable pub targets : Rule → List Text → List Channel → List Dispatch
targets r [] chans = []
targets r (cid ∷ cids) chans =
    let rest = targets r cids chans in
    elim (find_channel cid chans) [ none ↦ rest | some c ↦ record { rule = r; channel = c } ∷ rest ]

module _ (decode : Text → Option Match) where
  unfoldable pub rule_matches : Rule → Alert → Bool
  rule_matches r a = if is_empty r.match_document then true else elim (decode r.match_document) [
    | none ↦ false
    | some m ↦ in_set m.severity a.severity && in_set m.source a.source
  ]

  unfoldable pub route : Alert → List Rule → List Channel → List Dispatch
  route a [] chans = []
  route a (r ∷ rs) chans =
      let rest = route a rs chans in
      if rule_matches r a then targets r r.channel_ids chans ++ rest else rest
