-- ===== src/Notifier/Router/Meaning.antt =====
-- What it means that a rule matches an alert and that an id stands for a channel
-- (apps/worker/notifier/internal/router/router.go).
use mathlib.Core.List.{Memᴰ}
use mathlib.Core.List.Memᴰ as In
use openllm_metrics.Prelude.{
  ◌≡◌, ◌≢◌, refl, ap, sym, ◌∙◌, Bool, true, false, ◌&&◌, Option, none, some, List, [], ◌∷◌, Text,
  Text-discrete, Option-cases, Bool-cases, inl, inr, ◌⊎◌, ite, if_pos, if_neg, is_empty,
}
use openllm_metrics.Notifier.Router.{
  Channel, Rule, Alert, Match, contains, in_set, find_channel, rule_matches,
}

-- The channel is the last of a list with this id.
pub data IsLast (cid : Text) (c : Channel) : List Channel → Type 0 where
  here :
      {d : Channel} {ds : List Channel}
      → d ≡ c
      → c.id ≡ cid
      → ((x : Channel) → Memᴰ x ds → x.id ≢ cid)
      → IsLast cid c (d ∷ ds)
  later : {d : Channel} {ds : List Channel} → IsLast cid c ds → IsLast cid c (d ∷ ds)

-- An empty set allows every value, another one its members.
abbrev pub Allows : List Text → Text → Type 0
Allows allowed v = (allowed ≡ []) ⊎ Memᴰ v allowed

-- The alert meets a rule's match document: it is empty, or it decodes and allows the alert's severity
-- and its source.
pub data IsMatch (decode : Text → Option Match) (r : Rule) (a : Alert) : Type 0 where
  any : r.match_document ≡ [] → IsMatch decode r a
  allowed :
      (m : Match)
      → r.match_document ≢ []
      → decode r.match_document ≡ some m
      → Allows m.severity a.severity
      → Allows m.source a.source
      → IsMatch decode r a

same_channel : (x y : Channel) → some x ≡ some y → x ≡ y
same_channel x y e = cc

false-true : false ≡ true → ⊥
false-true e = cc

cons-nil : (x : Text) (xs : List Text) → x ∷ xs ≡ [] → ⊥
cons-nil x xs e = cc

some-none : (x : Channel) → some x ≡ none → ⊥
some-none x e = cc

find_channel-earlier :
    (cid : Text) (c e : Channel) (cs : List Channel)
    → find_channel cid cs ≡ some e
    → find_channel cid (c ∷ cs) ≡ some e
unfolding find_channel
find_channel-earlier cid c e cs h = rw h refl

find_channel-alone :
    (cid : Text) (c : Channel) (cs : List Channel)
    → find_channel cid cs ≡ none
    → find_channel cid (c ∷ cs) ≡ ite (Text-discrete c.id cid) (some c) none
unfolding find_channel
find_channel-alone cid c cs h = rw h refl

none_there :
    (cid : Text) (cs : List Channel)
    → find_channel cid cs ≡ none
    → (x : Channel) → Memᴰ x cs
    → x.id ≢ cid
none_there cid [] h x m = absurd (In.not-nil m)
none_there cid (c ∷ cs) h x m = elim (Option-cases (find_channel cid cs)) [
  | inr (e, f) ↦ absurd (some-none e (sym (find_channel-earlier cid c e cs f) ∙ h))
  | inl f ↦ elim (In.cases_cons m) [
    | inr below ↦ none_there cid cs f x below
    | inl top ↦ λ same. some-none c (
        sym (if_pos (Text-discrete c.id cid) (sym (ap Channel.id top) ∙ same) (some c) none)
        ∙ sym (find_channel-alone cid c cs f)
        ∙ h)
  ]
]

none_found :
    (cid : Text) (cs : List Channel)
    → ((x : Channel) → Memᴰ x cs → x.id ≢ cid)
    → find_channel cid cs ≡ none
unfolding find_channel
none_found cid [] h = refl
none_found cid (c ∷ cs) h =
    find_channel-alone cid c cs (none_found cid cs (λ x m. h x (In.tail m)))
    ∙ if_neg (Text-discrete c.id cid) (h c (In.head refl)) (some c) none

-- The table that the store builds keeps the last channel of an id.
pub find_channel-IsLast :
    (cid : Text) (c : Channel) (cs : List Channel) → find_channel cid cs ≡ some c → IsLast cid c cs
unfolding find_channel
find_channel-IsLast cid c [] h = absurd (some-none c (sym h))
find_channel-IsLast cid c (d ∷ ds) h = elim (Option-cases (find_channel cid ds)) [
  | inr (e, f) ↦
      later (find_channel-IsLast cid c ds (f ∙ sym (find_channel-earlier cid d e ds f) ∙ h))
  | inl f ↦ elim (Text-discrete d.id cid) [
    | yes same ↦
        let top : d ≡ c = same_channel d c (
          sym (if_pos (Text-discrete d.id cid) same (some d) none)
          ∙ sym (find_channel-alone cid d ds f)
          ∙ h) in
        here top (sym (ap Channel.id top) ∙ same) (none_there cid ds f)
    | no differ ↦ absurd (
        some-none c (
          sym h
          ∙ find_channel-alone cid d ds f
          ∙ if_neg (Text-discrete d.id cid) differ (some d) none))
  ]
]

pub IsLast-find_channel :
    (cid : Text) (c : Channel) (cs : List Channel) → IsLast cid c cs → find_channel cid cs ≡ some c
IsLast-find_channel cid c [] v = elim v [ ]
IsLast-find_channel cid c (d ∷ ds) (later v) =
    find_channel-earlier cid d c ds (IsLast-find_channel cid c ds v)
IsLast-find_channel cid c (d ∷ ds) (here top same others) =
    find_channel-alone cid d ds (none_found cid ds others)
    ∙ if_pos (Text-discrete d.id cid) (ap Channel.id top ∙ same) (some d) none
    ∙ ap some top

contains-Mem : (v : Text) (xs : List Text) → contains v xs ≡ true → Memᴰ v xs
unfolding contains
contains-Mem v [] h = absurd (false-true h)
contains-Mem v (x ∷ xs) h = elim (Text-discrete x v) [
  | yes same ↦ In.head (sym same)
  | no differ ↦
      In.tail (contains-Mem v xs (sym (if_neg (Text-discrete x v) differ true (contains v xs)) ∙ h))
]

Mem-contains : (v : Text) (xs : List Text) → Memᴰ v xs → contains v xs ≡ true
unfolding contains
Mem-contains v [] m = absurd (In.not-nil m)
Mem-contains v (x ∷ xs) m = elim (In.cases_cons m) [
  | inl top ↦ if_pos (Text-discrete x v) (sym top) true (contains v xs)
  | inr below ↦ elim (Text-discrete x v) [
    | yes same ↦ if_pos (Text-discrete x v) same true (contains v xs)
    | no differ ↦ if_neg (Text-discrete x v) differ true (contains v xs) ∙ Mem-contains v xs below
  ]
]

in_set-Allows : (xs : List Text) (v : Text) → in_set xs v ≡ true → Allows xs v
unfolding in_set
in_set-Allows [] v h = inl refl
in_set-Allows (x ∷ xs) v h = inr (contains-Mem v (x ∷ xs) h)

Allows-in_set : (xs : List Text) (v : Text) → Allows xs v → in_set xs v ≡ true
unfolding in_set
Allows-in_set [] v h = refl
Allows-in_set (x ∷ xs) v (inl e) = absurd (cons-nil x xs e)
Allows-in_set (x ∷ xs) v (inr m) = Mem-contains v (x ∷ xs) m

both : (a b : Bool) → a && b ≡ true → (a ≡ true) × (b ≡ true)
both true b h = (refl, h)
both false b h = absurd (false-true h)

nil_of_empty : (t : Text) → is_empty t ≡ true → t ≡ []
nil_of_empty [] h = refl
nil_of_empty (c ∷ t) h = cc

not_empty : (t : Text) → t ≢ [] → is_empty t ≡ false
not_empty [] h = absurd (h refl)
not_empty (c ∷ t) h = refl

module _ (decode : Text → Option Match) (r : Rule) (a : Alert) where
  matches_any : is_empty r.match_document ≡ true → rule_matches decode r a ≡ true
  unfolding rule_matches
  matches_any e = rw e refl

  matches_none :
      is_empty r.match_document ≡ false
      → decode r.match_document ≡ none
      → rule_matches decode r a ≡ false
  unfolding rule_matches
  matches_none e d = rw (e, d) refl

  matches_decoded :
      (m : Match)
      → is_empty r.match_document ≡ false
      → decode r.match_document ≡ some m
      → rule_matches decode r a ≡ in_set m.severity a.severity && in_set m.source a.source
  unfolding rule_matches
  matches_decoded m e d = rw (e, d) refl

  pub rule_matches-IsMatch : rule_matches decode r a ≡ true → IsMatch decode r a
  rule_matches-IsMatch h = elim (Bool-cases (is_empty r.match_document)) [
    | inl e ↦ any (nil_of_empty r.match_document e)
    | inr e ↦ elim (Option-cases (decode r.match_document)) [
      | inl d ↦ absurd (false-true (sym (matches_none e d) ∙ h))
      | inr (m, d) ↦
          let two =
            both (in_set m.severity a.severity) (in_set m.source a.source)
              (sym (matches_decoded m e d) ∙ h) in
          allowed m (λ k. false-true (sym e ∙ ap is_empty k)) d
            (in_set-Allows m.severity a.severity two.0) (in_set-Allows m.source a.source two.1)
    ]
  ]

  pub IsMatch-rule_matches : IsMatch decode r a → rule_matches decode r a ≡ true
  IsMatch-rule_matches (any e) = matches_any (ap is_empty e)
  IsMatch-rule_matches (allowed m full d s t) =
      matches_decoded m (not_empty r.match_document full) d
      ∙ ap (λ x. x && in_set m.source a.source) (Allows-in_set m.severity a.severity s)
      ∙ Allows-in_set m.source a.source t
