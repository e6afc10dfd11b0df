-- ===== src/Notifier/Fanout/Settled.antt =====
-- Where a fan-out ends (apps/worker/notifier/internal/consumer/consumer.go).
use openllm_metrics.Prelude.{
  ℕ, zero, suc, ◌+◌, ◌≤◌, ◌≡◌, refl, ap, ◌∙◌, Bool, true, false, [], Text, length, Bool-cases, inl,
  inr, arith,
}
use openllm_metrics.Notifier.Router.{Channel}
use openllm_metrics.Notifier.Ledger.{Status, pending, retrying, success, failure, Table}
use openllm_metrics.Notifier.Ledger.Keys.{Holds, mark_delivery-Holds, marked-Holds}
use openllm_metrics.Notifier.Scrub.{scrub_sensitive}
use openllm_metrics.Notifier.Fanout.{
  World, RetryParams, Env, ctx_error, wait, mark, finish, succeed, attempt,
}
use openllm_metrics.Notifier.Fanout.Steps.{
  wait_same, dispatch-IsDispatch, attempt_cancelled, attempt_sent, attempt_terminal,
  attempt_transient, tried,
}
use openllm_metrics.Notifier.Fanout.Going.{reply_cases}

unfoldable pub is_settled : Status → Bool
is_settled pending = false
is_settled retrying = false
is_settled success = true
is_settled failure = true

-- The alert's row on the channel has one of the two last states.
pub record IsSettled (a c : Text) (id : ℕ) (t : Table) : Type 0 where
  pub holds : Holds a c id t
  pub final : is_settled holds.row.status ≡ true

module _ (env : Env) (p : RetryParams) (ch : Channel) (alert body : Text) (id : ℕ) where
  pub length-mark :
      (status : Status) (e : Text) (k : ℕ) (w : World)
      → length (mark env p id status e k w).trace ≡ length w.trace
  unfolding mark
  length-mark status e k w = refl

  pub length-finish :
      (k : ℕ) (e : Text) (w : World) → length (finish env p id k e w).trace ≡ length w.trace
  unfolding finish mark
  length-finish k e w = refl

  pub length-succeed : (k : ℕ) (w : World) → length (succeed env p id k w).trace ≡ length w.trace
  unfolding succeed mark
  length-succeed k w = refl

  length-tried :
      (left n : ℕ) (last : Text) (w : World)
      → length (tried env p ch alert body id left n last w).1.trace ≤ suc (length w.trace)
  length-tried left n last w =
      let w' = (wait env p n w).1 in
      let same = wait_same env p n w in
      elim (dispatch-IsDispatch env p ch alert body w').sends [
        | inl (quiet, unsent, hopeless) ↦ rw (quiet, same.1) (omega arith)
        | inr called ↦ rw (called, same.1) (omega arith)
      ]

  pub marked :
      (status : Status) (e : Text) (k : ℕ) (w : World)
      → Holds alert ch.id id w.table
      → Holds alert ch.id id (mark env p id status e k w).table
  unfolding mark
  marked status e k w h = elim (Bool-cases (env.mark_fails w.clock)) [
    | inl fails ↦ rw fails h
    | inr works ↦ rw works (mark_delivery-Holds id status e k w.table alert ch.id h)
  ]

  pub tried-Holds :
      (left n : ℕ) (last : Text) (w : World)
      → Holds alert ch.id id w.table
      → Holds alert ch.id id (tried env p ch alert body id left n last w).1.table
  tried-Holds left n last w h =
      rw ((dispatch-IsDispatch env p ch alert body (wait env p n w).1).same_table)
        (rw (wait_same env p n w).0 h)

  waited-Holds :
      (n : ℕ) (w : World)
      → Holds alert ch.id id w.table
      → Holds alert ch.id id (wait env p n w).1.table
  waited-Holds n w h = rw (wait_same env p n w).0 h

  module _ (marks : (t : ℕ) → env.mark_fails t ≡ false) where
    mark_settles :
        (status : Status) (e : Text) (k : ℕ) (w : World)
        → is_settled status ≡ true
        → Holds alert ch.id id w.table
        → IsSettled alert ch.id id (mark env p id status e k w).table
    unfolding mark
    mark_settles status e k w s h =
        let (k', st) = marked-Holds id status e k w.table alert ch.id h in
        rw (marks w.clock) (record { holds = k'; final = ap is_settled st ∙ s })

    finish_settles :
        (k : ℕ) (e : Text) (w : World)
        → Holds alert ch.id id w.table
        → IsSettled alert ch.id id (finish env p id k e w).table
    unfolding finish is_settled
    finish_settles k e w h =
        mark_settles failure e k
          (record w { metrics = record w.metrics { failures = suc w.metrics.failures } }) refl h

    succeed_settles :
        (k : ℕ) (w : World)
        → Holds alert ch.id id w.table
        → IsSettled alert ch.id id (succeed env p id k w).table
    unfolding succeed is_settled
    succeed_settles k w h =
        mark_settles success [] k
          (record w { metrics = record w.metrics { successes = suc w.metrics.successes } }) refl h

    pub attempt_settles :
        (left n : ℕ) (last : Text) (w : World)
        → Holds alert ch.id id w.table
        → IsSettled alert ch.id id (attempt env p ch alert body id left n last w).table
          × (length (attempt env p ch alert body id left n last w).trace ≤ length w.trace + left)
    attempt_settles zero n last w h =
        unfold attempt in (finish_settles n last w h, omega (arith, length-finish n last w))
    attempt_settles (suc left) n last w h =
        let w' = (wait env p n w).1 in
        let t = tried env p ch alert body id left n last w in
        let held = tried-Holds left n last w h in
        let less = length-tried left n last w in
        elim (Bool-cases (wait env p n w).0) [
          | inr stopped ↦ rw (attempt_cancelled env p ch alert body id left n last w stopped) (
            finish_settles (suc n) ctx_error w' (waited-Holds n w h),
            omega (arith, length-finish (suc n) ctx_error w', ap length (wait_same env p n w).1),
          )
          | inl awake ↦ elim (reply_cases t.0) [
            | inl took ↦
                rw (attempt_sent env p ch alert body id left n last w awake took) (
                  succeed_settles (suc n) t.1 held,
                  omega (arith, length-succeed (suc n) t.1, less),
                )
            | inr (inr (e, gave_up)) ↦
                rw (attempt_terminal env p ch alert body id left n last w e awake gave_up) (
                  finish_settles (suc n) (scrub_sensitive e) t.1 held,
                  omega (arith, length-finish (suc n) (scrub_sensitive e) t.1, less),
                )
            | inr (inl (e, again)) ↦
                let next = mark env p id retrying (scrub_sensitive e) (suc n) t.1 in
                let rest =
                  attempt_settles left (suc n) (scrub_sensitive e) next
                    (marked retrying (scrub_sensitive e) (suc n) t.1 held) in
                rw (attempt_transient env p ch alert body id left n last w e awake again) (
                  rest.0,
                  omega (arith, rest.1, length-mark retrying (scrub_sensitive e) (suc n) t.1, less),
                )
          ]
        ]
