-- ===== src/Notifier/Fanout/Outcome.antt =====
-- What a fan-out leaves behind (apps/worker/notifier/internal/consumer/consumer.go).
use openllm_metrics.Prelude.{
  ℕ, zero, suc, ◌+◌, ◌==◌, ◌≤◌, ◌≡◌, refl, ap, sym, ◌∙◌, Bool, true, false, Option, none, some, [],
  Text, length, leb, Bool-cases, inl, inr, arith, ◌⊎◌,
}
use openllm_metrics.Notifier.Router.{Channel, Alert, Dispatch}
use openllm_metrics.Notifier.Ledger.{
  Status, pending, retrying, success, failure, Delivery, Table, Claim, claimed, already_delivered,
  is_success, find, claim_delivery,
}
use openllm_metrics.Notifier.Ledger.Keys.{
  IsTable, Holds, delivered, success_of, delivered-mark_self,
}
use openllm_metrics.Notifier.Ledger.Claims.{IsClaim, claim_delivery-IsClaim}
use openllm_metrics.Notifier.Backoff.{backoff}
use openllm_metrics.Notifier.Scrub.{scrub_sensitive}
use openllm_metrics.Notifier.Fanout.{
  World, RetryParams, Env, wait, sleep, mark, succeed, dispatch, attempt, deliver, fan_out,
}
use openllm_metrics.Notifier.Fanout.Steps.{
  is_terminal, wait_same, dispatch-IsDispatch, attempt_sent, attempt_transient, tried,
}
use openllm_metrics.Notifier.Fanout.Going.{reply_cases}
use openllm_metrics.Notifier.Fanout.Settled.{
  is_settled, IsSettled, length-mark, length-finish, marked, tried-Holds, attempt_settles,
}

settled_row : Option Delivery → Bool
settled_row none = false
settled_row (some d) = is_settled d.status

-- The alert's row on the channel says success or failure.
unfoldable pub settled : Text → Text → Table → Bool
unfolding settled_row
settled a c t = settled_row (find a c t.rows)

IsSettled-settled : (a c : Text) (id : ℕ) (t : Table) → IsSettled a c id t → settled a c t ≡ true
unfolding settled settled_row
IsSettled-settled a c id t s = ap settled_row s.holds.found ∙ s.final

true-false : true ≡ false → ⊥
true-false e = cc

success_final : (s : Status) → is_success s ≡ true → is_settled s ≡ true
unfolding is_settled
success_final pending h = cc
success_final retrying h = cc
success_final success h = refl
success_final failure h = refl

success_settled : (o : Option Delivery) → success_of o ≡ true → settled_row o ≡ true
unfolding success_of settled_row
success_settled none h = cc
success_settled (some d) h = success_final d.status h

module _ (env : Env) (p : RetryParams) (marks : (t : ℕ) → env.mark_fails t ≡ false) where
  deliver_settles :
      (claim : Claim) (ch : Channel) (alert body : Text) (t : Table) (w : World)
      → IsClaim alert ch.id t (claim, w.table)
      → (settled alert ch.id (deliver env p claim ch alert body w).table ≡ true)
        × (length (deliver env p claim ch alert body w).trace ≤ length w.trace + p.max_attempts)
  unfolding deliver settled delivered
  deliver_settles already_delivered ch alert body t w c = (
    success_settled (find alert ch.id w.table.rows) (c.kept alert ch.id ∙ c.skipped refl),
    omega arith,
  )
  deliver_settles (claimed id) ch alert body t w c =
      let (s, l) =
        attempt_settles env p ch alert body id marks p.max_attempts 0 [] w (c.held id refl).0 in
      (
        IsSettled-settled alert ch.id id
            (attempt env p ch alert body id p.max_attempts 0 [] w).table s,
        l,
      )

  -- A fan-out whose claim and updates of the ledger go through ends with the alert's row on the
  -- channel saying success or failure, after at most MaxAttempts sends.
  pub fan_out_settles :
      (alert : Alert) (body : Text) (d : Dispatch) (w : World)
      → IsTable w.table
      → env.claim_fails w.clock ≡ false
      → (settled alert.id d.channel.id (fan_out env p alert body d w).table ≡ true)
        × (length (fan_out env p alert body d w).trace ≤ length w.trace + p.max_attempts)
  unfolding fan_out
  fan_out_settles alert body d w v works =
      let r = claim_delivery alert.tenant_id d.rule.id d.channel.id alert.id w.table in
      let c = claim_delivery-IsClaim alert.tenant_id d.rule.id d.channel.id alert.id w.table v in
      rw works (
        deliver_settles r.0 d.channel alert.id body w.table
          (record w { clock = suc w.clock; table = r.1 }) c)

  succeed-delivered :
      (ch : Channel) (alert : Text) (id n : ℕ) (w : World)
      → Holds alert ch.id id w.table
      → delivered alert ch.id (succeed env p id n w).table ≡ true
  unfolding succeed mark
  succeed-delivered ch alert id n w h =
      rw (marks w.clock) (delivered-mark_self id success [] n w.table alert ch.id h)

  module _ (awake : (t : ℕ) → env.cancelled t ≡ false) where
    sleep_awake : (d : ℕ) (w : World) → (sleep env p d w).0 ≡ true
    unfolding sleep
    sleep_awake d w = elim (Bool-cases (d == 0)) [
      | inl h ↦ rw h refl
      | inr h ↦ rw (h, awake w.clock) refl
    ]

    wait_awake : (n : ℕ) (w : World) → (wait env p n w).0 ≡ true
    unfolding wait
    wait_awake n w = elim (Bool-cases (leb 1 n)) [
      | inl h ↦ rw h (
          sleep_awake (backoff n p.initial_backoff p.max_backoff)
            (record w { metrics = record w.metrics { retries = suc w.metrics.retries } }))
      | inr h ↦ rw h refl
    ]

    module _ (ch : Channel) (alert body : Text)
        (hopeful : (w : World) → is_terminal (dispatch env p ch alert body w).0 ≡ false) where
      tried_once :
          (id left n : ℕ) (last : Text) (w : World)
          → length (tried env p ch alert body id left n last w).1.trace ≡ suc (length w.trace)
      tried_once id left n last w =
          let w' = (wait env p n w).1 in
          elim (dispatch-IsDispatch env p ch alert body w').sends [
            | inl (quiet, unsent, hopeless) ↦ absurd (true-false (sym hopeless ∙ hopeful w'))
            | inr called ↦ rw (called, (wait_same env p n w).1) refl
          ]

      attempt_persists :
          (id left n : ℕ) (last : Text) (w : World)
          → Holds alert ch.id id w.table
          → (delivered alert ch.id (attempt env p ch alert body id left n last w).table ≡ true)
            ⊎ (length (attempt env p ch alert body id left n last w).trace ≡ length w.trace + left)
      unfolding is_terminal
      attempt_persists id zero n last w h =
          unfold attempt in inr (omega (arith, length-finish env p ch alert body id n last w))
      attempt_persists id (suc left) n last w h =
          let up = wait_awake n w in
          let t = tried env p ch alert body id left n last w in
          let held = tried-Holds env p ch alert body id left n last w h in
          elim (reply_cases t.0) [
            | inl took ↦
                rw (attempt_sent env p ch alert body id left n last w up took)
                  (inl (succeed-delivered ch alert id (suc n) t.1 held))
            | inr (inr (e, gave_up)) ↦
                absurd (true-false (ap is_terminal (sym gave_up) ∙ hopeful (wait env p n w).1))
            | inr (inl (e, again)) ↦
                let next = mark env p id retrying (scrub_sensitive e) (suc n) t.1 in
                let more = tried_once id left n last w in
                rw (attempt_transient env p ch alert body id left n last w e up again)
                  (elim (attempt_persists id left (suc n) (scrub_sensitive e) next
                    (marked env p ch alert body id retrying (scrub_sensitive e) (suc n) t.1 held)) [
                      | inl done ↦ inl done
                      | inr all ↦ inr (
                          omega (
                            arith,
                            all,
                            more,
                            length-mark env p ch alert body id retrying (scrub_sensitive e) (suc n)
                                t.1,
                          ))
                    ])
          ]

  deliver_persists :
      ((t : ℕ) → env.cancelled t ≡ false)
      → (claim : Claim) (ch : Channel) (alert body : Text) (t : Table) (w : World)
      → ((w : World) → is_terminal (dispatch env p ch alert body w).0 ≡ false)
      → IsClaim alert ch.id t (claim, w.table)
      → (delivered alert ch.id (deliver env p claim ch alert body w).table ≡ true)
        ⊎ (length (deliver env p claim ch alert body w).trace ≡ length w.trace + p.max_attempts)
  unfolding deliver
  deliver_persists awake already_delivered ch alert body t w hopeful c =
      inl (c.kept alert ch.id ∙ c.skipped refl)
  deliver_persists awake (claimed id) ch alert body t w hopeful c =
      attempt_persists awake ch alert body hopeful id p.max_attempts 0 [] w (c.held id refl).0

  -- Where no claim, no update of the ledger and no sleep fails, a fan-out to a channel whose sink
  -- gives no terminal error either has the alert delivered, or made all MaxAttempts sends.
  pub fan_out_persists :
      ((t : ℕ) → env.cancelled t ≡ false)
      → (alert : Alert) (body : Text) (d : Dispatch) (w : World)
      → ((w : World) → is_terminal (dispatch env p d.channel alert.id body w).0 ≡ false)
      → IsTable w.table
      → env.claim_fails w.clock ≡ false
      → (delivered alert.id d.channel.id (fan_out env p alert body d w).table ≡ true)
        ⊎ (length (fan_out env p alert body d w).trace ≡ length w.trace + p.max_attempts)
  unfolding fan_out
  fan_out_persists awake alert body d w hopeful v works =
      let r = claim_delivery alert.tenant_id d.rule.id d.channel.id alert.id w.table in
      let c = claim_delivery-IsClaim alert.tenant_id d.rule.id d.channel.id alert.id w.table v in
      rw works (
        deliver_persists awake r.0 d.channel alert.id body w.table
          (record w { clock = suc w.clock; table = r.1 }) hopeful c)
