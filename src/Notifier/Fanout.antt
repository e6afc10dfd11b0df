-- ===== src/Notifier/Fanout.antt =====
-- handle, fanOut and dispatch of apps/worker/notifier/internal/consumer/consumer.go. What the
-- program does not decide is the record `Env`, whose answers depend on the number of outside calls
-- made before.
pub mod Steps
pub mod Going
pub mod Once
pub mod Settled
pub mod Outcome
use openllm_metrics.Prelude.{
  ℕ, zero, suc, ◌==◌, Bool, true, false, ◌||◌, not, Option, none, some, List, [], ◌∷◌, Text,
  Text-discrete, text, is_empty, leb, ite, if◌then◌else◌,
}
use openllm_metrics.Notifier.Router.{Channel, Rule, Alert, Match, Dispatch, route}
use openllm_metrics.Notifier.Ledger.{
  Status, retrying, success, failure, Table, Claim, claimed, already_delivered, claim_delivery,
  mark_delivery,
}
use openllm_metrics.Notifier.Backoff.{backoff}
use openllm_metrics.Notifier.Scrub.{scrub_sensitive}

-- What a sink answers: nil, an error that wraps ErrTransient, another error.
pub data Reply : Type 0 where
  sent : Reply
  transient : Text → Reply
  terminal : Text → Reply

-- One call of a sink.
pub record Send : Type 0 where
  pub alert_event_id : Text
  pub channel_id : Text
  pub reply : Reply

pub record Metrics : Type 0 where
  pub consumed : ℕ
  pub matched : ℕ
  pub unmatched : ℕ
  pub skipped : ℕ
  pub retries : ℕ
  pub successes : ℕ
  pub failures : ℕ
  pub webhook_sent : ℕ
  pub smtp_sent : ℕ

-- The sends and the waits, each most recent first, and the number of outside calls.
pub record World : Type 0 where
  pub table : Table
  pub trace : List Send
  pub waits : List ℕ
  pub clock : ℕ
  pub metrics : Metrics

-- Nothing happened yet.
abbrev pub new_world : World
new_world = record {
  table = record { rows = []; next_id = 1 };
  trace = [];
  waits = [];
  clock = 0;
  metrics = record {
    consumed = 0;
    matched = 0;
    unmatched = 0;
    skipped = 0;
    retries = 0;
    successes = 0;
    failures = 0;
    webhook_sent = 0;
    smtp_sent = 0;
  };
}

pub record RetryParams : Type 0 where
  pub max_attempts : ℕ
  pub initial_backoff : ℕ
  pub max_backoff : ℕ

-- A sink decodes a channel's configuration, or cannot, and sends an alert's id and JSON.
abbrev pub Sink : Type 0
Sink = Text → Option (Text → Text → ℕ → Reply)

pub record Env : Type 0 where
  pub decode_alert : Text → Option Alert
  pub decode_match : Text → Option Match
  pub rules_and_channels : Text → ℕ → Option (List Rule × List Channel)
  pub webhook : Sink
  pub smtp : Sink
  pub claim_fails : ℕ → Bool
  pub mark_fails : ℕ → Bool
  pub cancelled : ℕ → Bool

pub data Handled : Type 0 where
  ok undecodable incomplete lookup_failed : Handled

abbrev ctx_error : Text
ctx_error = text "context canceled"

tick : World → World
tick w = record w { clock = suc w.clock }

count_retry : World → World
count_retry w = record w { metrics = record w.metrics { retries = suc w.metrics.retries } }

module _ (env : Env) (p : RetryParams) where
  -- sleepWithCtx: true where the time passed.
  unfoldable pub sleep : ℕ → World → Bool × World
  sleep d w =
      if d == 0
      then (true, w)
      else (not (env.cancelled w.clock), record w { clock = suc w.clock; waits = d ∷ w.waits })

  unfoldable pub wait : ℕ → World → Bool × World
  unfolding count_retry
  wait attempts w =
      if leb 1 attempts
      then sleep (backoff attempts p.initial_backoff p.max_backoff) (count_retry w)
      else (true, w)

  unfoldable pub mark : ℕ → Status → Text → ℕ → World → World
  mark id status last_error attempts w = record w {
    clock = suc w.clock;
    table =
        if env.mark_fails w.clock
        then w.table
        else mark_delivery id status last_error attempts w.table;
  }

  unfoldable pub finish : ℕ → ℕ → Text → World → World
  finish id attempts last_error w =
      mark id failure last_error attempts
        (record w { metrics = record w.metrics { failures = suc w.metrics.failures } })

  unfoldable pub succeed : ℕ → ℕ → World → World
  succeed id attempts w =
      mark id success [] attempts
        (record w { metrics = record w.metrics { successes = suc w.metrics.successes } })

  -- A sink's call, once its configuration is decoded.
  unfoldable pub call : Channel → Text → Reply → World → Reply × World
  call ch alert reply w = (
    reply,
    record w {
      clock = suc w.clock;
      trace = record { alert_event_id = alert; channel_id = ch.id; reply = reply } ∷ w.trace;
    },
  )

  count_webhook : World → World
  count_webhook w = record w {
    metrics = record w.metrics { webhook_sent = suc w.metrics.webhook_sent };
  }

  count_smtp : World → World
  count_smtp w = record w { metrics = record w.metrics { smtp_sent = suc w.metrics.smtp_sent } }

  unfoldable pub dispatch : Channel → Text → Text → World → Reply × World
  unfolding count_webhook count_smtp
  dispatch ch alert body w =
      ite (Text-discrete ch.kind (text "webhook"))
        (elim (env.webhook ch.config) [
          | none ↦ (terminal (text "dispatch webhook: decode config"), w)
          | some send ↦ call ch alert (send alert body w.clock) (count_webhook w)
        ])
        (ite (Text-discrete ch.kind (text "smtp"))
          (elim (env.smtp ch.config) [
            | none ↦ (terminal (text "dispatch smtp: decode config"), w)
            | some send ↦ call ch alert (send alert body w.clock) (count_smtp w)
          ])
          (terminal (text "dispatch: unknown channel kind"), w))

  module _ (ch : Channel) (alert body : Text) (id : ℕ) where
    -- The retry loop, with `left` rounds to go: attempts + left is MaxAttempts.
    unfoldable pub attempt : ℕ → ℕ → Text → World → World
    attempt zero attempts last_error w = finish id attempts last_error w
    attempt (suc left) attempts last_error w = elim (wait attempts w).0 [
      | false ↦ finish id (suc attempts) ctx_error (wait attempts w).1
      | true ↦
          let w' = (dispatch ch alert body (wait attempts w).1).1 in
          elim (dispatch ch alert body (wait attempts w).1).0 [
            | sent ↦ succeed id (suc attempts) w'
            | terminal e ↦ finish id (suc attempts) (scrub_sensitive e) w'
            | transient e ↦
                attempt left (suc attempts) (scrub_sensitive e)
                  (mark id retrying (scrub_sensitive e) (suc attempts) w')
          ]
    ]

  -- After the claim's answer.
  unfoldable pub deliver : Claim → Channel → Text → Text → World → World
  deliver already_delivered ch alert body w = record w {
    metrics = record w.metrics { skipped = suc w.metrics.skipped };
  }
  deliver (claimed id) ch alert body w = attempt ch alert body id p.max_attempts 0 [] w

  unfoldable pub fan_out : Alert → Text → Dispatch → World → World
  unfolding tick
  fan_out alert body d w =
      if env.claim_fails w.clock
      then tick w
      else let (claim, table) =
          claim_delivery alert.tenant_id d.rule.id d.channel.id alert.id w.table in
        deliver claim d.channel alert.id body (record w { clock = suc w.clock; table = table })

  unfoldable pub fan_out_all : Alert → Text → List Dispatch → World → World
  fan_out_all alert body [] w = w
  fan_out_all alert body (d ∷ ds) w = fan_out_all alert body ds (fan_out alert body d w)

  count_unmatched : World → World
  count_unmatched w = record w {
    metrics = record w.metrics { unmatched = suc w.metrics.unmatched };
  }

  count_matched : World → World
  count_matched w = record w { metrics = record w.metrics { matched = suc w.metrics.matched } }

  unfoldable pub handle_dispatches : Alert → Text → List Dispatch → World → World
  unfolding count_matched count_unmatched
  handle_dispatches alert body [] w = count_unmatched w
  handle_dispatches alert body (d ∷ ds) w = fan_out_all alert body (d ∷ ds) (count_matched w)

  unfoldable pub handle_alert : Option Alert → Text → World → Handled × World
  unfolding tick
  handle_alert none body w = (undecodable, w)
  handle_alert (some alert) body w =
      if is_empty alert.id || is_empty alert.tenant_id
      then (incomplete, w)
      else elim (env.rules_and_channels alert.tenant_id w.clock) [
        | none ↦ (lookup_failed, tick w)
        | some rc ↦
            (ok, handle_dispatches alert body (route env.decode_match alert rc.0 rc.1) (tick w))
      ]

  unfoldable pub handle : Text → World → Handled × World
  handle body w =
      handle_alert (env.decode_alert body) body
        (record w { metrics = record w.metrics { consumed = suc w.metrics.consumed } })

  -- The records of the topic in order; one that fails goes to the dead letters.
  unfoldable pub run : List Text → World → World
  run [] w = w
  run (body ∷ bodies) w = run bodies (handle body w).1
