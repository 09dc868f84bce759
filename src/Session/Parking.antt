-- ===== src/Session/Parking.antt =====
-- Parking a turn in daemon/src/session.ts: `parkForLimit`, the pending-turn file, the retry timer,
-- a restart and a switch of account.
pub mod Budget
use claude_persist.Limits
use claude_persist.Limits.{
  plan_retry, parse_reset_time, max_attempts, max_overload_attempts, max_launch_attempts,
  stall_retry_ms, overload_retry_ms, launch_retry_ms, restart_resume_ms,
}
use claude_persist.Rotation.{switch_settle_ms}
use claude_persist.Session.Event.{
  Text, codes, error, running, Reason, stalled, overloaded, launch_failed, limited, Notice,
  stall_gave_up, overload_gave_up, limit_gave_up, limit_notice, retry_cancelled, daemon_restarted,
  account_changed, status_event,
}
use claude_persist.Session.State.{Session, Turns, PendingTurn, Env, Daemon, Limited}
use claude_persist.Session.Append.{append_event, busy, when, update_turns}
use claude_persist.Prelude.{
  ℕ, suc, ◌+◌, ◌-◌, String, Bool, true, false, not, ◌&&◌, ◌||◌, Option, none, some, List, [], ◌∷◌,
  length, ltb, if◌then◌else◌, max,
}

-- `opts`, of which a caller sets one at most.
pub data Cause : Type 0 where
  rate_limit stall overload launch : Cause

unfoldable pub max_attempts_of : Cause → ℕ
max_attempts_of rate_limit = max_attempts
max_attempts_of stall = max_attempts
max_attempts_of overload = max_overload_attempts
max_attempts_of launch = max_launch_attempts

unfoldable pub gave_up : Cause → ℕ → Notice
gave_up stall n = stall_gave_up n
gave_up overload n = overload_gave_up n
gave_up launch n = limit_gave_up n
gave_up rate_limit n = limit_gave_up n

abbrev pub is_parked : Option PendingTurn → Bool
is_parked none = false
is_parked (some turn) = true

unfoldable pub stop_status_watch : Turns → Turns
stop_status_watch t = record t { status_watch = false }

unfoldable pub clear_persisted_pending : Turns → Turns
clear_persisted_pending t = record t { saved = none }

-- A file that cannot be written is left as it was.
unfoldable pub persist_pending : Bool → Turns → Turns
persist_pending can_write t = elim t.pending [
  | none ↦ t
  | some turn ↦ if can_write then record t { saved = some turn } else t
]

-- The timer fires `Math.max(0, retryAt - now)` after `now`.
unfoldable pub timer_of : Option PendingTurn → ℕ → Option ℕ
timer_of none now = none
timer_of (some turn) now = some (max turn.retry_at now)

unfoldable pub schedule_retry : ℕ → Turns → Turns
unfolding timer_of
schedule_retry now t = record t { retry_timer = timer_of t.pending now }

unfoldable pub dispose_active_query : Session → Session
dispose_active_query s = record s {
  agents = [];
  has_level_signal = if ltb 0 (length s.agents) then false else s.has_level_signal;
  turns = record s.turns { input = none; active_query = none };
}

-- What `parkForLimit` decides: the instant, the account that was switched to and the reason.
pub record Decision : Type 0 where
  pub retry_at : ℕ
  pub switched_to : Option String
  pub why : Reason

module _ (env : Env) (daemon : Daemon) where
  unfoldable pub planned_retry : Text → ℕ → ℕ → String → ℕ
  unfolding plan_retry
  planned_retry text now attempts id =
      (plan_retry daemon.rate_limit_windows
        (parse_reset_time (env.names_utc text) (env.reset_match text) now) now attempts
        (codes id)).at

  unfoldable pub decide : Cause → Text → ℕ → ℕ → String → Decision
  unfolding planned_retry
  decide stall text now attempts id = record {
    retry_at = now + stall_retry_ms;
    switched_to = none;
    why = stalled;
  }
  decide overload text now attempts id = record {
    retry_at = now + overload_retry_ms;
    switched_to = none;
    why = overloaded;
  }
  decide launch text now attempts id = record {
    retry_at = now + launch_retry_ms;
    switched_to = none;
    why = launch_failed;
  }
  decide rate_limit text now attempts id =
      let reply = daemon.on_limited (planned_retry text now attempts id) in
      record { retry_at = reply.retry_at; switched_to = reply.switched_to; why = limited reply.why }

unfoldable pub cancelled : Turns → Turns
unfolding stop_status_watch clear_persisted_pending
cancelled t = clear_persisted_pending (record (stop_status_watch t) {
  named_incident = none;
  retry_timer = none;
  pending = none;
  consecutive_retries = 0;
})

-- `cancelPendingRetry` with nothing pending.
unfoldable pub unwatched : Turns → Turns
unfolding stop_status_watch
unwatched t = record (stop_status_watch t) { named_incident = none; retry_timer = none }

unfoldable pub given_up : Turns → Turns
unfolding stop_status_watch clear_persisted_pending
given_up t =
    record (stop_status_watch
      (clear_persisted_pending (record t { pending = none; consecutive_retries = 0 }))) {
        named_incident = none;
      }

-- `watchStatusPage`, whose first poll is a step of its own.
unfoldable pub watch_after : Cause → Turns → Turns
watch_after overload t = record t { status_watch = true }
watch_after _ t = t

module _ (env : Env) (now : ℕ) where
  -- `pending` is set, and its file is written.
  unfoldable pub hold : PendingTurn → Turns → Turns
  unfolding persist_pending
  hold turn t = persist_pending env.can_write (record t { pending = some turn })

  -- A notice in the panel.
  unfoldable pub tell : Notice → Session → Session
  unfolding append_event
  tell notice s = append_event env now (status_event error (some notice)) s

  unfoldable pub park_for_account_switch : ℕ → Option String → String → Session → Session
  unfolding tell schedule_retry busy hold when update_turns
  park_for_account_switch retry_at account reason s =
      when (busy now s && not (is_parked s.turns.pending))
        (λ u. update_turns (schedule_retry now) (
          tell (account_changed account reason) (
            update_turns
              (hold (record { retry_at = retry_at; attempts = 0; text = codes "account switch" }))
              u)))
        s

  -- What `activateAccount` of daemon/src/main.ts does to a session.
  unfoldable pub account_activated : Option String → String → Session → Session
  unfolding park_for_account_switch dispose_active_query
  account_activated none reason s = s
  account_activated (some account) reason s =
      dispose_active_query
        (park_for_account_switch (now + switch_settle_ms) (some account) reason s)

  -- `cancelPendingRetry`, by the pending turn.
  unfoldable pub cancel_turn : Option PendingTurn → String → Session → Session
  unfolding cancelled tell unwatched update_turns
  cancel_turn none reason s = update_turns unwatched s
  cancel_turn (some turn) reason s = tell (retry_cancelled reason) (update_turns cancelled s)

  unfoldable pub cancel_pending_retry : String → Session → Session
  unfolding cancel_turn
  cancel_pending_retry reason s = cancel_turn s.turns.pending reason s

  unfoldable pub park_for_restart : Session → Session × Bool
  unfolding tell busy hold when update_turns
  park_for_restart s = (
    when (busy now s && not (is_parked s.turns.pending))
        (λ u. tell daemon_restarted (
          update_turns
            (hold (record {
              retry_at = now + restart_resume_ms;
              attempts = 0;
              text = codes "daemon restart";
            }))
            u))
        s,
    busy now s,
  )

  -- The query is torn down before a stalled or failed one is asked again.
  unfoldable pub before_parking : Cause → Option String → Session → Session
  unfolding dispose_active_query account_activated
  before_parking stall switched_to s = dispose_active_query s
  before_parking launch switched_to s = dispose_active_query s
  before_parking overload switched_to s = s
  before_parking rate_limit switched_to s =
      account_activated switched_to "rate limit on the previous account" s

  unfoldable pub hold_again : ℕ → Text → Decision → Turns → Turns
  unfolding hold
  hold_again attempts text decision t =
      hold (record { retry_at = decision.retry_at; attempts = attempts; text = text })
        (record t { consecutive_retries = attempts })

  unfoldable pub parked_for : ℕ → Text → Decision → Session → Session
  unfolding tell schedule_retry hold_again update_turns
  parked_for attempts text decision s = update_turns (schedule_retry now) (
      tell (limit_notice decision.why decision.switched_to decision.retry_at)
        (update_turns (hold_again attempts text decision) s))

  -- `parkForLimit` by whether the attempts are used up.
  unfoldable pub park_unless : Bool → Daemon → Text → Cause → ℕ → Session → Session
  unfolding max_attempts_of gave_up tell given_up decide before_parking parked_for watch_after
      update_turns
  park_unless true daemon text cause attempts s =
      tell (gave_up cause (max_attempts_of cause)) (update_turns given_up s)
  park_unless false daemon text cause attempts s =
      let decision = decide env daemon cause text now attempts s.meta.id in
      update_turns (watch_after cause)
        (parked_for attempts text decision (before_parking cause decision.switched_to s))

  unfoldable pub park_for_limit : Daemon → Text → Cause → Session → Session
  unfolding park_unless max_attempts_of
  park_for_limit daemon text cause s =
      let attempts = s.turns.consecutive_retries + 1 in
      park_unless (ltb (max_attempts_of cause) attempts) daemon text cause attempts s
