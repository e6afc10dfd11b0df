-- ===== src/Notifier/Fanout/Going.antt =====
-- How often an alert was sent to a channel, against the delivery table, while a delivery is tried
-- (apps/worker/notifier/internal/consumer/consumer.go).
use openllm_metrics.Prelude.{
  ℕ, ◌+◌, ◌≤◌, ◌≡◌, refl, ◌∙◌, subst, Bool, false, List, [], ◌∷◌, Text, Text-discrete, ite, if_pos,
  if_neg, if◌then◌else◌, inl, inr, arith, ◌⊎◌,
}
use openllm_metrics.Notifier.Ledger.{Status, success, Table, is_success, mark_delivery}
use openllm_metrics.Notifier.Ledger.Keys.{
  IsTable, Holds, delivered, mark_delivery-IsTable, mark_delivery-Holds, delivered-mark_self,
  delivered-mark_other,
}
use openllm_metrics.Notifier.Fanout.Steps.{is_sent}
use openllm_metrics.Notifier.Fanout.{Reply, sent, transient, terminal, Send}

abbrev pub one_if : Bool → ℕ
one_if b = if b then 1 else 0

-- How often a sink took the alert for the channel.
unfoldable pub times_sent : Text → Text → List Send → ℕ
unfolding is_sent
times_sent a c [] = 0
times_sent a c (s ∷ ss) =
    let rest = times_sent a c ss in
    ite (Text-discrete s.alert_event_id a)
      (ite (Text-discrete s.channel_id c) (one_if (is_sent s.reply) + rest) rest) rest

-- Each key was sent once at most, and only where its row says that it was delivered.
pub record IsOnce (t : Table) (ss : List Send) : Type 0 where
  pub table : IsTable t
  pub once : (a c : Text) → times_sent a c ss ≤ (if delivered a c t then 1 else 0)

-- While the key (a, c) is tried, under its row's id: sent n times at most.
pub record IsGoing (a c : Text) (id n : ℕ) (t : Table) (ss : List Send) : Type 0 where
  pub table : IsTable t
  pub holds : Holds a c id t
  pub undelivered : delivered a c t ≡ false
  pub own : times_sent a c ss ≤ n
  pub others :
      (a' c' : Text)
      → ¬ ((a ≡ a') × (c ≡ c'))
      → times_sent a' c' ss ≤ (if delivered a' c' t then 1 else 0)

same_key : (a c a' c' : Text) → ((a ≡ a') × (c ≡ c')) ⊎ ¬ ((a ≡ a') × (c ≡ c'))
same_key a c a' c' = elim (Text-discrete a a') [
  | no differ ↦ inr (λ k. differ k.0)
  | yes e ↦ elim (Text-discrete c c') [ no differ ↦ inr (λ k. differ k.1) | yes f ↦ inl (e, f) ]
]

times_sent-other :
    (a c a' c' : Text) (r : Reply) (ss : List Send)
    → ¬ ((a ≡ a') × (c ≡ c'))
    → times_sent a' c' (record { alert_event_id = a; channel_id = c; reply = r } ∷ ss)
      ≡ times_sent a' c' ss
unfolding times_sent
times_sent-other a c a' c' r ss h = elim (Text-discrete a a') [
  | no differ ↦ rw (if_neg _ differ) refl
  | yes e ↦ rw (if_pos _ e, if_neg (Text-discrete c c') (λ f. h (e, f))) refl
]

times_sent-own :
    (a c : Text) (r : Reply) (ss : List Send)
    → times_sent a c (record { alert_event_id = a; channel_id = c; reply = r } ∷ ss)
      ≡ one_if (is_sent r) + times_sent a c ss
unfolding times_sent
times_sent-own a c r ss = ground arith

pub reply_cases :
    (r : Reply) → (r ≡ sent) ⊎ (((e : Text) × (r ≡ transient e)) ⊎ ((e : Text) × (r ≡ terminal e)))
reply_cases sent = inl refl
reply_cases (transient e) = inr (inl (e, refl))
reply_cases (terminal e) = inr (inr (e, refl))

module _ (a c : Text) (id : ℕ) where
  pub going_done : (t : Table) (ss : List Send) → IsGoing a c id 0 t ss → IsOnce t ss
  going_done t ss g = record {
    table = g.table;
    once = λ a' c'. elim (same_key a c a' c') [
      | inr differ ↦ g.others a' c' differ
      | inl (e, f) ↦
          subst (λ x. times_sent x c' ss ≤ (if delivered x c' t then 1 else 0)) e
            (subst (λ y. times_sent a y ss ≤ (if delivered a y t then 1 else 0)) f
              (omega (arith, g.own)))
    ];
  }

  pub IsGoing-marked :
      (n : ℕ) (status : Status) (e : Text) (k : ℕ) (t : Table) (ss : List Send)
      → is_success status ≡ false
      → IsGoing a c id n t ss
      → IsGoing a c id n (mark_delivery id status e k t) ss
  IsGoing-marked n status e k t ss u g = record {
    table = mark_delivery-IsTable id status e k t g.table;
    holds = mark_delivery-Holds id status e k t a c g.holds;
    undelivered = delivered-mark_self id status e k t a c g.holds ∙ u;
    own = g.own;
    others = λ a' c' differ.
        rw (delivered-mark_other id status e k t a c a' c' g.table g.holds differ)
          (g.others a' c' differ);
  }

  pub going_succeeded :
      (e : Text) (k : ℕ) (t : Table) (ss : List Send)
      → IsGoing a c id 1 t ss
      → IsOnce (mark_delivery id success e k t) ss
  going_succeeded e k t ss g = record {
    table = mark_delivery-IsTable id success e k t g.table;
    once = λ a' c'. elim (same_key a c a' c') [
      | inr differ ↦
          rw (delivered-mark_other id success e k t a c a' c' g.table g.holds differ)
            (g.others a' c' differ)
      | inl (x, y) ↦
          subst
            (λ v.
              times_sent v c' ss
              ≤ (if delivered v c' (mark_delivery id success e k t) then 1 else 0))
            x
            (subst
              (λ v.
                times_sent a v ss
                ≤ (if delivered a v (mark_delivery id success e k t) then 1 else 0))
              y (rw (delivered-mark_self id success e k t a c g.holds) g.own))
    ];
  }

  pub IsGoing-called :
      (r : Reply) (t : Table) (ss : List Send)
      → IsGoing a c id 0 t ss
      → IsGoing a c id
          (one_if (is_sent r))
          t
          (record { alert_event_id = a; channel_id = c; reply = r } ∷ ss)
  IsGoing-called r t ss g = record {
    table = g.table;
    holds = g.holds;
    undelivered = g.undelivered;
    own = rw (times_sent-own a c r ss) (omega (arith, g.own));
    others = λ a' c' differ. rw (times_sent-other a c a' c' r ss differ) (g.others a' c' differ);
  }
