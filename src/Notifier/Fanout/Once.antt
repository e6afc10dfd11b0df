-- ===== src/Notifier/Fanout/Once.antt =====
-- No alert is sent twice to a channel that took it
-- (apps/worker/notifier/internal/consumer/consumer.go).
use openllm_metrics.Prelude.{
  ℕ, zero, suc, ◌≤◌, ◌≡◌, refl, ◌∙◌, subst, false, ◌||◌, Option, none, some, List, [], ◌∷◌, Text,
  is_empty, if◌then◌else◌, Option-cases, Bool-cases, inl, inr, arith,
}
use openllm_metrics.Notifier.Router.{Channel, Alert, Dispatch, route}
use openllm_metrics.Notifier.Ledger.{
  Status, retrying, failure, Table, Claim, claimed, already_delivered, is_success, find,
  claim_delivery,
}
use openllm_metrics.Notifier.Ledger.Keys.{IsTable, Holds, delivered, success_of}
use openllm_metrics.Notifier.Ledger.Claims.{IsClaim, claim_delivery-IsClaim}
use openllm_metrics.Notifier.Scrub.{scrub_sensitive}
use openllm_metrics.Notifier.Fanout.{
  Reply, sent, transient, terminal, Send, World, new_world, RetryParams, Env, ctx_error, wait, mark,
  finish, succeed, dispatch, attempt, deliver, fan_out, fan_out_all, handle_dispatches,
  handle_alert, handle, run,
}
use openllm_metrics.Notifier.Fanout.Steps.{
  is_sent, wait_same, dispatch-IsDispatch, attempt_cancelled, attempt_sent, attempt_terminal,
  attempt_transient, tried,
}
use openllm_metrics.Notifier.Fanout.Going.{
  times_sent, IsOnce, IsGoing, one_if, reply_cases, going_done, IsGoing-marked, going_succeeded,
  IsGoing-called,
}

abbrev pub IsOnceWorld : World → Type 0
IsOnceWorld w = IsOnce w.table w.trace

pub new_world-IsOnce : IsOnceWorld new_world
unfolding times_sent delivered success_of find
new_world-IsOnce = record {
  table = record { fresh = λ a c d k. cc; unique = λ a c a' c' d d' k k' l. cc };
  once = λ a c. omega arith;
}

module _ (env : Env) (p : RetryParams) where
  module _ (ch : Channel) (alert body : Text) (id : ℕ) where
    abbrev Going : ℕ → World → Type 0
    Going n w = IsGoing alert ch.id id n w.table w.trace

    Going-mark :
        (n : ℕ) (status : Status) (e : Text) (k : ℕ) (w : World)
        → is_success status ≡ false
        → Going n w
        → Going n (mark env p id status e k w)
    unfolding mark
    Going-mark n status e k w u g = elim (Bool-cases (env.mark_fails w.clock)) [
      | inl fails ↦ rw fails g
      | inr works ↦ rw works (IsGoing-marked alert ch.id id n status e k w.table w.trace u g)
    ]

    IsOnce-finish : (n : ℕ) (e : Text) (w : World) → Going 0 w → IsOnceWorld (finish env p id n e w)
    unfolding finish
    IsOnce-finish n e w g =
        let failed = record w {
          metrics = record w.metrics { failures = suc w.metrics.failures };
        } in
        let marked = mark env p id failure e n failed in
        going_done alert ch.id id marked.table marked.trace (Going-mark 0 failure e n failed refl g)

    Going-wait : (n k : ℕ) (w : World) → Going n w → Going n (wait env p k w).1
    Going-wait n k w g = rw (wait_same env p k w).0 (rw (wait_same env p k w).1 g)

    -- A dispatch that is not sent leaves the key unsent, and one that is sends it once.
    Going-dispatch :
        (w : World)
        → Going 0 w
        → Going
            (one_if (is_sent (dispatch env p ch alert body w).0))
            (dispatch env p ch alert body w).1
    Going-dispatch w g =
        let d = dispatch-IsDispatch env p ch alert body w in
        let r = dispatch env p ch alert body w in
        elim d.sends [
          | inl (quiet, unsent, hopeless) ↦ rw (unsent, d.same_table, quiet) g
          | inr called ↦
              rw (d.same_table, called) (IsGoing-called alert ch.id id r.0 w.table w.trace g)
        ]

    module _ (marks : (t : ℕ) → env.mark_fails t ≡ false) where
      IsOnce-succeed : (n : ℕ) (w : World) → Going 1 w → IsOnceWorld (succeed env p id n w)
      unfolding succeed mark
      IsOnce-succeed n w g =
          rw (marks w.clock) (going_succeeded alert ch.id id [] n w.table w.trace g)

      IsOnce-attempt :
          (left n : ℕ) (last : Text) (w : World)
          → Going 0 w
          → IsOnceWorld (attempt env p ch alert body id left n last w)
      unfolding is_sent
      IsOnce-attempt zero n last w g = unfold attempt in IsOnce-finish n last w g
      IsOnce-attempt (suc left) n last w g =
          let waited = Going-wait 0 n w g in
          let w' = (wait env p n w).1 in
          let after = Going-dispatch w' waited in
          let t = tried env p ch alert body id left n last w in
          let known =
            λ (r : Reply) (k : t.0 ≡ r). subst (λ x. Going (one_if (is_sent x)) t.1) k after in
          elim (Bool-cases (wait env p n w).0) [
            | inr stopped ↦
                rw (attempt_cancelled env p ch alert body id left n last w stopped)
                  (IsOnce-finish (suc n) ctx_error w' waited)
            | inl awake ↦ elim (reply_cases t.0) [
              | inl took ↦
                  rw (attempt_sent env p ch alert body id left n last w awake took)
                    (IsOnce-succeed (suc n) t.1 (known sent took))
              | inr (inr (e, gave_up)) ↦
                  rw (attempt_terminal env p ch alert body id left n last w e awake gave_up)
                    (IsOnce-finish (suc n) (scrub_sensitive e) t.1 (known (terminal e) gave_up))
              | inr (inl (e, again)) ↦
                  rw (attempt_transient env p ch alert body id left n last w e awake again) (
                    IsOnce-attempt left (suc n) (scrub_sensitive e)
                      (mark env p id retrying (scrub_sensitive e) (suc n) t.1)
                      (Going-mark 0 retrying (scrub_sensitive e) (suc n) t.1 refl
                        (known (transient e) again)))
            ]
          ]

  module _ (marks : (t : ℕ) → env.mark_fails t ≡ false) where
    claimed-IsGoing :
        (a c : Text) (id : ℕ) (t t' : Table) (ss : List Send)
        → IsOnce t ss
        → IsTable t'
        → Holds a c id t'
        → delivered a c t ≡ false
        → ((a' c' : Text) → delivered a' c' t' ≡ delivered a' c' t)
        → IsGoing a c id 0 t' ss
    claimed-IsGoing a c id t t' ss v table holds undone kept = record {
      table = table;
      holds = holds;
      undelivered = kept a c ∙ undone;
      own = subst (λ b. times_sent a c ss ≤ (if b then 1 else 0)) undone (v.once a c);
      others = λ a' c' differ. rw (kept a' c') (v.once a' c');
    }

    IsOnce-deliver :
        (claim : Claim) (ch : Channel) (alert body : Text) (t : Table) (w : World)
        → IsOnce t w.trace
        → IsClaim alert ch.id t (claim, w.table)
        → IsOnceWorld (deliver env p claim ch alert body w)
    unfolding deliver
    IsOnce-deliver already_delivered ch alert body t w v c = record {
      table = c.table;
      once = λ a' c'. rw (c.kept a' c') (v.once a' c');
    }
    IsOnce-deliver (claimed id) ch alert body t w v c =
        let held = c.held id refl in
        IsOnce-attempt ch alert body id marks p.max_attempts 0 [] w
          (claimed-IsGoing alert ch.id id t w.table w.trace v c.table held.0 held.1 c.kept)

    IsOnce-fan_out :
        (alert : Alert) (body : Text) (d : Dispatch) (w : World)
        → IsOnceWorld w
        → IsOnceWorld (fan_out env p alert body d w)
    unfolding fan_out
    IsOnce-fan_out alert body d w v =
        let r = claim_delivery alert.tenant_id d.rule.id d.channel.id alert.id w.table in
        let c =
          claim_delivery-IsClaim alert.tenant_id d.rule.id d.channel.id alert.id w.table v.table in
        elim (Bool-cases (env.claim_fails w.clock)) [
          | inl fails ↦ rw fails v
          | inr works ↦ rw works (
              IsOnce-deliver r.0 d.channel alert.id body w.table
                (record w { clock = suc w.clock; table = r.1 }) v c)
        ]

    IsOnce-fan_out_all :
        (alert : Alert) (body : Text) (ds : List Dispatch) (w : World)
        → IsOnceWorld w
        → IsOnceWorld (fan_out_all env p alert body ds w)
    unfolding fan_out_all
    IsOnce-fan_out_all alert body [] w v = v
    IsOnce-fan_out_all alert body (d ∷ ds) w v =
        IsOnce-fan_out_all alert body ds (fan_out env p alert body d w)
          (IsOnce-fan_out alert body d w v)

    IsOnce-handle_dispatches :
        (alert : Alert) (body : Text) (ds : List Dispatch) (w : World)
        → IsOnceWorld w
        → IsOnceWorld (handle_dispatches env p alert body ds w)
    unfolding handle_dispatches
    IsOnce-handle_dispatches alert body [] w v = v
    IsOnce-handle_dispatches alert body (d ∷ ds) w v =
        IsOnce-fan_out_all alert body (d ∷ ds)
          (record w { metrics = record w.metrics { matched = suc w.metrics.matched } }) v

    IsOnce-handle_alert :
        (a : Option Alert) (body : Text) (w : World)
        → IsOnceWorld w
        → IsOnceWorld (handle_alert env p a body w).1
    unfolding handle_alert
    IsOnce-handle_alert none body w v = v
    IsOnce-handle_alert (some alert) body w v =
        elim (Bool-cases (is_empty alert.id || is_empty alert.tenant_id)) [
          | inl missing ↦ rw missing v
          | inr whole ↦ elim (Option-cases (env.rules_and_channels alert.tenant_id w.clock)) [
            | inl e ↦ rw (whole, e) v
            | inr (rc, e) ↦
                rw (whole, e)
                  (IsOnce-handle_dispatches alert body (route env.decode_match alert rc.0 rc.1)
                    (record w { clock = suc w.clock }) v)
          ]
        ]

    run-IsOnce : (bodies : List Text) (w : World) → IsOnceWorld w → IsOnceWorld (run env p bodies w)
    unfolding run handle
    run-IsOnce [] w v = v
    run-IsOnce (body ∷ bodies) w v = run-IsOnce bodies (handle env p body w).1 (
        IsOnce-handle_alert (env.decode_alert body) body
          (record w { metrics = record w.metrics { consumed = suc w.metrics.consumed } }) v)

    -- Where no update of the ledger fails, no records, replayed ones among them, make the notifier
    -- send an alert to a channel again after a send that succeeded: every alert was taken once at
    -- most for a channel, and then its row says so, whatever the sinks answer, whichever claims and
    -- lookups fail and whenever the context ends.
    pub sent_once :
        (bodies : List Text) (a c : Text)
        → times_sent a c (run env p bodies new_world).trace
          ≤ (if delivered a c (run env p bodies new_world).table then 1 else 0)
    sent_once bodies a c = (run-IsOnce bodies new_world new_world-IsOnce).once a c
