-- ===== src/Notifier/Router/Targets.antt =====
-- Which rules and channels an alert reaches (apps/worker/notifier/internal/router/router.go).
use mathlib.Core.List.{Memᴰ}
use mathlib.Core.List.Memᴰ as In
use openllm_metrics.Prelude.{
  ◌≡◌, refl, ap, sym, ◌∙◌, subst, true, false, Option, none, some, List, [], ◌∷◌, ◌++◌, Text,
  Option-cases, Bool-cases, inl, inr, ◌↔◌,
}
use openllm_metrics.Notifier.Router.{
  Channel, Rule, Alert, Match, Dispatch, find_channel, targets, rule_matches, route,
}
use openllm_metrics.Notifier.Router.Meaning.{
  IsLast, IsMatch, find_channel-IsLast, IsLast-find_channel, rule_matches-IsMatch,
  IsMatch-rule_matches,
}

-- A rule's channel that the tenant has.
pub record IsTarget (cids : List Text) (chans : List Channel) (c : Channel) : Type 0 where
  pub id : Text
  pub named : Memᴰ id cids
  pub present : IsLast id c chans

targets-none :
    (r : Rule) (cid : Text) (cids : List Text) (chans : List Channel)
    → find_channel cid chans ≡ none
    → targets r (cid ∷ cids) chans ≡ targets r cids chans
unfolding targets
targets-none r cid cids chans e = rw (e, targets) refl

targets-some :
    (r : Rule) (cid : Text) (cids : List Text) (chans : List Channel) (c : Channel)
    → find_channel cid chans ≡ some c
    → targets r (cid ∷ cids) chans ≡ record { rule = r; channel = c } ∷ targets r cids chans
unfolding targets
targets-some r cid cids chans c e = rw (e, targets) refl

IsTarget-cons :
    (cid : Text) (cids : List Text) (chans : List Channel) (c : Channel)
    → IsTarget cids chans c
    → IsTarget (cid ∷ cids) chans c
IsTarget-cons cid cids chans c t = record {
  id = t.id;
  named = In.tail t.named;
  present = t.present;
}

to_target :
    (r : Rule) (cids : List Text) (chans : List Channel) (d : Dispatch)
    → Memᴰ d (targets r cids chans)
    → (d.rule ≡ r) × IsTarget cids chans d.channel
to_target r [] chans d m = unfold targets in absurd (In.not-nil m)
to_target r (cid ∷ cids) chans d m = elim (Option-cases (find_channel cid chans)) [
  | inl e ↦
      let (same, t) =
        to_target r cids chans d (subst (Memᴰ d) (targets-none r cid cids chans e) m) in
      (same, IsTarget-cons cid cids chans d.channel t)
  | inr (c, e) ↦ elim (In.cases_cons (subst (Memᴰ d) (targets-some r cid cids chans c e) m)) [
    | inl here ↦ (
      ap Dispatch.rule here,
      record {
        id = cid;
        named = In.head refl;
        present =
            find_channel-IsLast cid d.channel chans
              (e ∙ ap (λ x. some (Dispatch.channel x)) (sym here));
      },
    )
    | inr later ↦
        let (same, t) = to_target r cids chans d later in
        (same, IsTarget-cons cid cids chans d.channel t)
  ]
]

of_target :
    (r : Rule) (cids : List Text) (chans : List Channel) (c : Channel)
    → IsTarget cids chans c
    → Memᴰ (record { rule = r; channel = c }) (targets r cids chans)
of_target r [] chans c t = absurd (In.not-nil t.named)
of_target r (cid ∷ cids) chans c t = elim (In.cases_cons t.named) [
  | inl here ↦
      rw
        (targets-some r cid cids chans c
          (sym (ap (λ x. find_channel x chans) here) ∙ IsLast-find_channel t.id c chans t.present))
        (In.head refl)
  | inr later ↦
      let rest =
        of_target r cids chans c (record { id = t.id; named = later; present = t.present }) in
      elim (Option-cases (find_channel cid chans)) [
        | inl e ↦ rw (targets-none r cid cids chans e) rest
        | inr (c', e) ↦ rw (targets-some r cid cids chans c' e) (In.tail rest)
      ]
]

-- A rule of the tenant that matches the alert, with one of its channels that the tenant has.
pub record IsRouted (decode : Text → Option Match) (a : Alert) (rules : List Rule)
    (chans : List Channel) (d : Dispatch) : Type 0 where
  pub listed : Memᴰ d.rule rules
  pub matching : IsMatch decode d.rule a
  pub target : IsTarget d.rule.channel_ids chans d.channel

module _ (decode : Text → Option Match) (a : Alert) (chans : List Channel) where
  route_match :
      (r : Rule) (rs : List Rule)
      → rule_matches decode r a ≡ true
      → route decode a (r ∷ rs) chans ≡ targets r r.channel_ids chans ++ route decode a rs chans
  unfolding route
  route_match r rs e = rw e refl

  route_other :
      (r : Rule) (rs : List Rule)
      → rule_matches decode r a ≡ false
      → route decode a (r ∷ rs) chans ≡ route decode a rs chans
  unfolding route
  route_other r rs e = rw e refl

  IsRouted-cons :
      (r : Rule) (rs : List Rule) (d : Dispatch)
      → IsRouted decode a rs chans d
      → IsRouted decode a (r ∷ rs) chans d
  IsRouted-cons r rs d t = record {
    listed = In.tail t.listed;
    matching = t.matching;
    target = t.target;
  }

  to_routed :
      (rules : List Rule) (d : Dispatch)
      → Memᴰ d (route decode a rules chans)
      → IsRouted decode a rules chans d
  to_routed [] d m = unfold route in absurd (In.not-nil m)
  to_routed (r ∷ rs) d m = elim (Bool-cases (rule_matches decode r a)) [
    | inr e ↦ IsRouted-cons r rs d (to_routed rs d (subst (Memᴰ d) (route_other r rs e) m))
    | inl e ↦
        elim (In.append_cases (targets r r.channel_ids chans)
          (subst (Memᴰ d) (route_match r rs e) m)) [
            | inr later ↦ IsRouted-cons r rs d (to_routed rs d later)
            | inl here ↦
                let (same, t) = to_target r r.channel_ids chans d here in
                record {
                  listed = In.head same;
                  matching =
                      rule_matches-IsMatch decode d.rule a
                        (ap (λ x. rule_matches decode x a) same ∙ e);
                  target = subst (λ x. IsTarget (Rule.channel_ids x) chans d.channel) (sym same) t;
                }
          ]
  ]

  of_routed :
      (rules : List Rule) (d : Dispatch)
      → IsRouted decode a rules chans d
      → Memᴰ d (route decode a rules chans)
  of_routed [] d t = absurd (In.not-nil t.listed)
  of_routed (r ∷ rs) d t = elim (In.cases_cons t.listed) [
    | inl here ↦
        let matching =
          sym (ap (λ x. rule_matches decode x a) here)
          ∙ IsMatch-rule_matches decode d.rule a t.matching in
        rw (route_match r rs matching) (
          In.append_left (route decode a rs chans) (
            subst (λ x. Memᴰ d (targets x (Rule.channel_ids x) chans)) here
              (of_target d.rule d.rule.channel_ids chans d.channel t.target)))
    | inr later ↦
        let rest =
          of_routed rs d (record { listed = later; matching = t.matching; target = t.target }) in
        elim (Bool-cases (rule_matches decode r a)) [
          | inl e ↦ rw (route_match r rs e) (In.append_right (targets r r.channel_ids chans) rest)
          | inr e ↦ rw (route_other r rs e) rest
        ]
  ]

  -- The alert is sent to a rule's channel exactly when the rule is one of the tenant's, names an id of
  -- which that channel is the tenant's last, and matches: its match document is empty, or it decodes
  -- and both its severities and its sources are empty or have the alert's.
  pub route_iff :
      (rules : List Rule) (d : Dispatch)
      → Memᴰ d (route decode a rules chans) ↔ IsRouted decode a rules chans d
  route_iff rules d = (to_routed rules d, of_routed rules d)
