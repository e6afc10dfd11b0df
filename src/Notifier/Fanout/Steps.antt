-- ===== src/Notifier/Fanout/Steps.antt =====
-- The retry loop of apps/worker/notifier/internal/consumer/consumer.go, one equation for each of its
-- exits, and what its steps leave alone.
use openllm_metrics.Prelude.{
  ℕ, suc, ◌==◌, ◌≡◌, refl, Bool, true, false, ◌∷◌, Text, Text-discrete, text, leb, if_pos, if_neg,
  Option-cases, Bool-cases, inl, inr, ◌⊎◌,
}
use openllm_metrics.Notifier.Router.{Channel}
use openllm_metrics.Notifier.Ledger.{retrying}
use openllm_metrics.Notifier.Backoff.{backoff}
use openllm_metrics.Notifier.Scrub.{scrub_sensitive}
use openllm_metrics.Notifier.Fanout.{
  Reply, sent, transient, terminal, World, RetryParams, Env, ctx_error, wait, sleep, mark, finish,
  succeed, call, dispatch, attempt,
}

unfoldable pub is_sent : Reply → Bool
is_sent sent = true
is_sent (transient e) = false
is_sent (terminal e) = false

unfoldable pub is_terminal : Reply → Bool
is_terminal sent = false
is_terminal (transient e) = false
is_terminal (terminal e) = true

-- A dispatch calls the sink once, or not at all and is given up.
pub record IsDispatch (ch : Channel) (alert : Text) (w : World) (r : Reply × World) : Type 0 where
  pub same_table : r.1.table ≡ w.table
  pub sends :
      ((r.1.trace ≡ w.trace) × (is_sent r.0 ≡ false) × (is_terminal r.0 ≡ true))
      ⊎ (r.1.trace ≡ record { alert_event_id = alert; channel_id = ch.id; reply = r.0 } ∷ w.trace)

module _ (env : Env) (p : RetryParams) where
  sleep_same :
      (d : ℕ) (w : World)
      → ((sleep env p d w).1.table ≡ w.table) × ((sleep env p d w).1.trace ≡ w.trace)
  unfolding sleep
  sleep_same d w = elim (Bool-cases (d == 0)) [
    | inl h ↦ rw h (refl, refl)
    | inr h ↦ rw h (refl, refl)
  ]

  pub wait_same :
      (n : ℕ) (w : World)
      → ((wait env p n w).1.table ≡ w.table) × ((wait env p n w).1.trace ≡ w.trace)
  unfolding wait
  wait_same n w = elim (Bool-cases (leb 1 n)) [
    | inl h ↦ rw h (
        sleep_same (backoff n p.initial_backoff p.max_backoff)
          (record w { metrics = record w.metrics { retries = suc w.metrics.retries } }))
    | inr h ↦ rw h (refl, refl)
  ]

  pub dispatch-IsDispatch :
      (ch : Channel) (alert body : Text) (w : World)
      → IsDispatch ch alert w (dispatch env p ch alert body w)
  unfolding dispatch call is_sent is_terminal
  dispatch-IsDispatch ch alert body w = elim (Text-discrete ch.kind (text "webhook")) [
    | yes web ↦ elim (Option-cases (env.webhook ch.config)) [
      | inl e ↦ rw (if_pos _ web, e) (record { same_table = refl; sends = inl (refl, refl, refl) })
      | inr (send, e) ↦ rw (if_pos _ web, e) (record { same_table = refl; sends = inr refl })
    ]
    | no other ↦ elim (Text-discrete ch.kind (text "smtp")) [
      | yes mail ↦ elim (Option-cases (env.smtp ch.config)) [
        | inl e ↦
            rw (if_neg _ other, if_pos _ mail, e)
              (record { same_table = refl; sends = inl (refl, refl, refl) })
        | inr (send, e) ↦
            rw (if_neg _ other, if_pos _ mail, e) (record { same_table = refl; sends = inr refl })
      ]
      | no unknown ↦
          rw (if_neg _ other, if_neg _ unknown)
            (record { same_table = refl; sends = inl (refl, refl, refl) })
    ]
  ]

  module _ (ch : Channel) (alert body : Text) (id left n : ℕ) (last : Text) (w : World) where
    abbrev pub tried : Reply × World
    tried = dispatch env p ch alert body (wait env p n w).1

    pub attempt_cancelled :
        (wait env p n w).0 ≡ false
        → attempt env p ch alert body id (suc left) n last w
          ≡ finish env p id (suc n) ctx_error (wait env p n w).1
    unfolding attempt finish
    attempt_cancelled h = rw (h, attempt) refl

    pub attempt_sent :
        (wait env p n w).0 ≡ true
        → tried.0 ≡ sent
        → attempt env p ch alert body id (suc left) n last w ≡ succeed env p id (suc n) tried.1
    unfolding attempt succeed
    attempt_sent h k = rw (h, k, attempt) refl

    pub attempt_terminal :
        (e : Text)
        → (wait env p n w).0 ≡ true
        → tried.0 ≡ terminal e
        → attempt env p ch alert body id (suc left) n last w
          ≡ finish env p id (suc n) (scrub_sensitive e) tried.1
    unfolding attempt finish
    attempt_terminal e h k = rw (h, k, attempt) refl

    pub attempt_transient :
        (e : Text)
        → (wait env p n w).0 ≡ true
        → tried.0 ≡ transient e
        → attempt env p ch alert body id (suc left) n last w
          ≡ attempt env p ch alert body id left
              (suc n)
              (scrub_sensitive e)
              (mark env p id retrying (scrub_sensitive e) (suc n) tried.1)
    unfolding attempt
    attempt_transient e h k = rw (h, k, attempt) refl
