-- ===== src/Session/Restart.antt =====
-- The constructor of `DaemonSession` in daemon/src/session.ts, and a restart of the daemon:
-- `parkForRestart` and `dispose` on the way down, the constructor and `restorePending` on the way up.
use mathlib.Core.Path.{subst}
use claude_persist.LogStore.Disk.{Disk}
use claude_persist.Session.Event.{codes, idle, running, daemon_restarted}
use claude_persist.Session.State.{Session, SessionMeta, PendingTurn, Env}
use claude_persist.Session.Append.{append_event, busy, when, update_turns}
use claude_persist.Session.Parking.{
  is_parked, park_for_restart, hold, persist_pending, tell, schedule_retry, timer_of,
}
use claude_persist.Session.Control.{
  dispose, stopped, close_log, restore_pending, restore_turn, restored,
}
use claude_persist.Session.Transcript.{open_transcript}
use claude_persist.Limits.{restart_resume_ms}
use claude_persist.Prelude.{
  ℕ, ◌+◌, ◌≡◌, refl, ◌∙◌, Bool, true, false, not, ◌&&◌, Option, none, some, [], max, arith, inl,
  inr, ◌⊎◌, Option-cases, sym, if◌then◌else◌,
}

-- `renames` says whether a rotation of the constructor succeeds; `saved` is the pending file.
unfoldable pub open_session : Env → Bool → SessionMeta → Disk → Option PendingTurn → Session
unfolding open_transcript
open_session env renames meta disk saved = record {
  meta = meta;
  turns = record {
    status = idle;
    status_watch = false;
    named_incident = none;
    pending = none;
    retry_timer = none;
    consecutive_retries = 0;
    stall_watch = false;
    last_sdk_activity_at = 0;
    saved = saved;
    input = none;
    active_query = none;
    launches = 0;
  };
  effective_cwd = "";
  cwd_checked = false;
  agents = [];
  has_level_signal = false;
  agent_watch = false;
  agent_names = [];
  pending_permissions = [];
  settled = [];
  last_call_usage = none;
  broadcast = [];
  transcript = open_transcript env.json env.decode renames disk;
}

module _ (env : Env) where
  unfoldable pub shut_down : ℕ → Session → Session
  unfolding park_for_restart dispose
  shut_down now s = dispose (park_for_restart env now s).0

  unfoldable pub start_up : ℕ → Bool → Session → Session
  unfolding open_session restore_pending
  start_up now renames s =
      restore_pending env now (open_session env renames s.meta s.transcript.disk s.turns.saved)

  -- The turn that `parkForRestart` holds.
  abbrev pub restart_turn : ℕ → PendingTurn
  restart_turn now = record {
    retry_at = now + restart_resume_ms;
    attempts = 0;
    text = codes "daemon restart";
  }

  saved_when :
      (now : ℕ) (s : Session) (b : Bool)
      → env.can_write ≡ true
      → (when b
          (λ u. tell env now daemon_restarted (update_turns (hold env now (restart_turn now)) u))
          s).turns.saved
        ≡ (if b then some (restart_turn now) else s.turns.saved)
  unfolding when tell append_event update_turns hold persist_pending
  saved_when now s true writes = rw writes refl
  saved_when now s false writes = refl

  shut_down-saved :
      (now : ℕ) (s : Session)
      → env.can_write ≡ true
      → (shut_down now s).turns.saved ≡ (
          if busy now s && not (is_parked s.turns.pending)
          then some (restart_turn now)
          else s.turns.saved)
  unfolding shut_down dispose stopped close_log update_turns park_for_restart
  shut_down-saved now s writes =
      saved_when now s (busy now s && not (is_parked s.turns.pending)) writes

  -- What a restart restores of a pending file.
  pub record IsRestored (turn : PendingTurn) (now : ℕ) (s : Session) : Type 0 where
    pub pending : s.turns.pending ≡ some turn
    pub saved : s.turns.saved ≡ some turn
    pub timer : s.turns.retry_timer ≡ some (max turn.retry_at now)
    pub retries : s.turns.consecutive_retries ≡ turn.attempts
    pub status : s.turns.status ≡ running

  held_again :
      (now : ℕ) (renames : Bool) (s : Session) (turn : PendingTurn)
      → IsRestored turn now (
          restore_turn env now
            (some turn)
            (open_session env renames s.meta s.transcript.disk (some turn)))
  unfolding restore_turn restored update_turns schedule_retry timer_of open_session
  held_again now renames s turn = record {
    pending = refl;
    saved = refl;
    timer = refl;
    retries = refl;
    status = refl;
  }

  start_up-IsRestored :
      (now : ℕ) (renames : Bool) (s : Session) (turn : PendingTurn)
      → s.turns.saved ≡ some turn
      → IsRestored turn now (start_up now renames s)
  unfolding start_up restore_pending
  start_up-IsRestored now renames s turn e =
      subst
        (λ saved.
          IsRestored turn now
            (restore_turn env now saved (open_session env renames s.meta s.transcript.disk saved)))
        (sym e) (held_again now renames s turn)

-- A session that is at work when the daemon goes down is waiting for its turn when it is back: the
-- turn that was held already, or else a new one, due `restart_resume_ms` after the shutdown. It is
-- pending and in its file, its timer is set, and the session counts as running. It asks that the
-- pending file can be written and held what was pending.
pub restart-IsRestored :
    (env : Env) (down up : ℕ) (renames : Bool) (s : Session)
    → env.can_write ≡ true
    → s.turns.pending ≡ s.turns.saved
    → busy down s ≡ true
    → (turn : PendingTurn) × ((s.turns.pending ≡ some turn)
        ⊎ ((s.turns.pending ≡ none) × (turn ≡ restart_turn env down)))
      × IsRestored env turn up (start_up env up renames (shut_down env down s))
restart-IsRestored env down up renames s writes kept works =
    let saved = shut_down-saved env down s writes in
    elim (Option-cases s.turns.pending) [
      | inl free ↦
          let new : (shut_down env down s).turns.saved ≡ some (restart_turn env down) =
            saved ∙ ground arith in
          (
            restart_turn env down,
            inr (free, refl),
            start_up-IsRestored env up renames (shut_down env down s) _ new,
          )
      | inr (turn, held) ↦
          let same : (shut_down env down s).turns.saved ≡ some turn = saved ∙ ground arith in
          (turn, inl held, start_up-IsRestored env up renames (shut_down env down s) turn same)
    ]
