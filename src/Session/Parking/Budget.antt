-- ===== src/Session/Parking/Budget.antt =====
-- `parkForLimit` of daemon/src/session.ts: a turn is held while its attempts last, and given up
-- behind the last one.
use claude_persist.Session.Event.{Text}
use claude_persist.Session.State.{Session, PendingTurn, Env, Daemon}
use claude_persist.Session.Append.{append_event, update_turns}
use claude_persist.Session.Parking.{
  Cause, rate_limit, stall, overload, launch, max_attempts_of, park_for_limit, park_unless, decide,
  parked_for, Decision, tell, hold_again, hold, persist_pending, schedule_retry, timer_of,
  watch_after, given_up, stop_status_watch, clear_persisted_pending,
}
use claude_persist.Prelude.{
  ℕ, ◌+◌, ◌≤◌, ◌<◌, ◌≡◌, refl, true, false, none, some, ltb, ltb→lt, ltb→le, ◌⊎◌, max, arith,
  Bool-cases, inl, inr,
}

-- The turn that is held, with its timer and the count of its retries.
pub record IsHeld (turn : PendingTurn) (now : ℕ) (s : Session) : Type 0 where
  pub pending : s.turns.pending ≡ some turn
  pub saved : s.turns.saved ≡ some turn
  pub timer : s.turns.retry_timer ≡ some (max turn.retry_at now)
  pub retries : s.turns.consecutive_retries ≡ turn.attempts

-- Nothing is held, and the count starts over.
pub record IsFree (s : Session) : Type 0 where
  pub pending : s.turns.pending ≡ none
  pub saved : s.turns.saved ≡ none
  pub retries : s.turns.consecutive_retries ≡ 0

module _ (env : Env) (now : ℕ) where
  watched :
      (cause : Cause) (turn : PendingTurn) (s : Session)
      → IsHeld turn now s
      → IsHeld turn now (update_turns (watch_after cause) s)
  unfolding update_turns watch_after
  watched overload turn s h = record {
    pending = h.pending;
    saved = h.saved;
    timer = h.timer;
    retries = h.retries;
  }
  watched stall turn s h = record {
    pending = h.pending;
    saved = h.saved;
    timer = h.timer;
    retries = h.retries;
  }
  watched launch turn s h = record {
    pending = h.pending;
    saved = h.saved;
    timer = h.timer;
    retries = h.retries;
  }
  watched rate_limit turn s h = record {
    pending = h.pending;
    saved = h.saved;
    timer = h.timer;
    retries = h.retries;
  }

  parked :
      (attempts : ℕ) (text : Text) (decision : Decision) (s : Session)
      → env.can_write ≡ true
      → IsHeld
          (record { retry_at = decision.retry_at; attempts = attempts; text = text })
          now
          (parked_for env now attempts text decision s)
  unfolding parked_for tell append_event hold_again hold persist_pending schedule_retry timer_of
      update_turns
  parked attempts text decision s writes = record {
    pending = ground (arith, writes);
    saved = ground (arith, writes);
    timer = ground (arith, writes);
    retries = ground (arith, writes);
  }

  held :
      (daemon : Daemon) (text : Text) (cause : Cause) (attempts : ℕ) (s : Session)
      → env.can_write ≡ true
      → IsHeld
          (record {
            retry_at = (decide env daemon cause text now attempts s.meta.id).retry_at;
            attempts = attempts;
            text = text;
          })
          now
          (park_unless env now false daemon text cause attempts s)
  unfolding park_unless
  held daemon text cause attempts s writes = search (watched, parked)

  freed :
      (daemon : Daemon) (text : Text) (cause : Cause) (attempts : ℕ) (s : Session)
      → let after = park_unless env now true daemon text cause attempts s in
        IsFree after
        × (after.turns.status ≡ s.turns.status)
        × (after.turns.active_query ≡ s.turns.active_query)
  unfolding park_unless tell append_event update_turns given_up stop_status_watch
      clear_persisted_pending
  freed daemon text cause attempts s =
      (record { pending = refl; saved = refl; retries = refl }, refl, refl)

-- A turn that is refused while attempts are left is held, in memory and in its file, with one
-- attempt more and a timer, at the instant that its cause and the account rotation decide; if the
-- attempts of its cause are used up, nothing is held any more, the count starts over, and the
-- status and the live query are left as they were. It asks that the file can be written.
pub park_for_limit_budget :
    (env : Env) (now : ℕ) (daemon : Daemon) (text : Text) (cause : Cause) (s : Session)
    → env.can_write ≡ true
    → let after = park_for_limit env now daemon text cause s in
      let attempts = s.turns.consecutive_retries + 1 in
      ((attempts ≤ max_attempts_of cause)
        × IsHeld
            (record {
              retry_at = (decide env daemon cause text now attempts s.meta.id).retry_at;
              attempts = attempts;
              text = text;
            })
            now
            after)
      ⊎ ((max_attempts_of cause < attempts)
          × IsFree after
          × (after.turns.status ≡ s.turns.status)
          × (after.turns.active_query ≡ s.turns.active_query))
unfolding park_for_limit
park_for_limit_budget env now daemon text cause s writes =
    let attempts = s.turns.consecutive_retries + 1 in
    elim (Bool-cases (ltb (max_attempts_of cause) attempts)) [
      | inl used ↦
          let (free, status, query) = freed env now daemon text cause attempts s in
          inr (
            ltb→lt (max_attempts_of cause) attempts used,
            rw used free,
            rw used status,
            rw used query,
          )
      | inr left ↦ inl (
        ltb→le (max_attempts_of cause) attempts left,
        rw left (held env now daemon text cause attempts s writes),
      )
    ]
