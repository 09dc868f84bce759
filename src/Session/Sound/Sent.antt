-- ===== src/Session/Sound/Sent.antt =====
-- Starting a turn keeps the invariants.
use claude_persist.Session.Event.{Text, Attachment, Envelope}
use claude_persist.Session.State.{Session, PendingTurn, Env, Daemon}
use claude_persist.Session.Sending.{
  choose_directory, working_directory, forget_context, forget_id, place, launch_query, ensure_with,
  ensure_query, launched, send_into, push_input, arm_stall_watchdog, supersede, start_turn,
  send_message, unnamed, cleared, retry_turn, run_pending_retry, untimed, unarmed, on_retry_timer,
  stall_tick, on_stall_tick,
}
use claude_persist.Session.Parking.{stop_status_watch, clear_persisted_pending}
use claude_persist.Session.Sound.{IsSound, Keeps, sound}
use claude_persist.Session.Sound.Parked.{
  cancel_pending_retry-Sound, account_activated-Sound, park_for_limit-Sound,
}
use claude_persist.Prelude.{
  ℕ, ◌≡◌, refl, String, Bool, true, false, Option, none, some, List, Option-cases, inl, inr,
}

module _ (env : Env) (t : Session) (now : ℕ) where
  abbrev Sound : Session → Type 0
  Sound = IsSound env t

  place-Sound : (cwd : String) (s : Session) → Sound s → Sound (place cwd s)
  unfolding place
  place-Sound cwd s h = record { kept = h.kept; more = h.more; told = h.told; grown = h.grown }

  forget_id-Sound : (s : Session) → Sound s → Sound (forget_id s)
  unfolding forget_id
  forget_id-Sound s h = record { kept = h.kept; more = h.more; told = h.told; grown = h.grown }

  choose_directory-Sound :
      (found : Bool) (s : Session) → Sound s → Sound (choose_directory env now found s)
  unfolding choose_directory
  choose_directory-Sound true s h = search place-Sound
  choose_directory-Sound false s h = search (sound, place-Sound)

  forget_context-Sound :
      (id : Option String) (s : Session) → Sound s → Sound (forget_context env now id s)
  unfolding forget_context
  forget_context-Sound none s h = h
  forget_context-Sound (some id) s h = search (sound, forget_id-Sound)

  working_directory-Sound : (s : Session) → Sound s → Sound (working_directory env now s)
  unfolding working_directory
  working_directory-Sound s h = search (sound, choose_directory-Sound)

  launched-Keeps : Keeps env t launched
  unfolding launched
  launched-Keeps u e = e

  launch_query-Sound : (s : Session) → Sound s → Sound (launch_query env now s)
  unfolding launch_query
  launch_query-Sound s h =
      search (sound, launched-Keeps, working_directory-Sound, forget_context-Sound)

  ensure_with-Sound :
      (query : Option ℕ) (found : Bool) (s : Session)
      → Sound s
      → Sound (ensure_with env now query found s).0
  unfolding ensure_with
  ensure_with-Sound (some query) found s h = h
  ensure_with-Sound none true s h = launch_query-Sound s h
  ensure_with-Sound none false s h = search sound

  push_input-Keeps : (envelope : Envelope) → Keeps env t (push_input envelope)
  unfolding push_input
  push_input-Keeps envelope u e = elim (Option-cases u.input) [
    | inl closed ↦ rw closed e
    | inr (queue, opened) ↦ rw opened e
  ]

  pub arm-Keeps : Keeps env t (arm_stall_watchdog now)
  unfolding arm_stall_watchdog
  arm-Keeps u e = e

  send_into-Sound :
      (envelope : Envelope) (r : Session × Bool) → Sound r.0 → Sound (send_into env now envelope r)
  unfolding send_into
  send_into-Sound envelope (s, false) h = h
  send_into-Sound envelope (s, true) h = search (sound, push_input-Keeps, arm-Keeps)

  start_turn-Sound :
      (text : Text) (attachments : List Attachment) (s : Session)
      → Sound s
      → Sound (start_turn env now text attachments s)
  unfolding start_turn ensure_query
  start_turn-Sound text attachments s h =
      send_into-Sound _ (ensure_query env now s)
        (ensure_with-Sound s.turns.active_query env.claude_found s h)

  supersede-Sound : (s : Session) → Sound s → Sound (supersede env now s)
  unfolding supersede
  supersede-Sound s h = search (sound, cancel_pending_retry-Sound)

  pub send_message-Sound :
      (text : Text) (attachments : List Attachment) (id : Option String) (s : Session)
      → Sound s
      → Sound (send_message env now text attachments id s).0
  unfolding send_message
  send_message-Sound text attachments id s h = search (sound, start_turn-Sound, supersede-Sound)

  unnamed-Keeps : Keeps env t unnamed
  unfolding unnamed stop_status_watch
  unnamed-Keeps u e = e

  cleared-Keeps : Keeps env t cleared
  unfolding cleared clear_persisted_pending
  cleared-Keeps u e = refl

  untimed-Keeps : Keeps env t untimed
  unfolding untimed
  untimed-Keeps u e = e

  unarmed-Keeps : Keeps env t unarmed
  unfolding unarmed
  unarmed-Keeps u e = e

  module _ (writes : env.can_write ≡ true) where
    retry_turn-Sound :
        (daemon : Daemon) (turn : Option PendingTurn) (s : Session)
        → Sound s
        → Sound (retry_turn env now daemon turn s)
    unfolding retry_turn
    retry_turn-Sound daemon none s h = h
    retry_turn-Sound daemon (some turn) s h =
        search (sound, send_message-Sound, account_activated-Sound, cleared-Keeps, unnamed-Keeps)
          depth 8

    pub run_pending_retry-Sound :
        (daemon : Daemon) (s : Session) → Sound s → Sound (run_pending_retry env now daemon s)
    unfolding run_pending_retry
    run_pending_retry-Sound daemon s h = retry_turn-Sound daemon s.turns.pending s h

    pub on_retry_timer-Sound :
        (daemon : Daemon) (s : Session) → Sound s → Sound (on_retry_timer env now daemon s)
    unfolding on_retry_timer
    on_retry_timer-Sound daemon s h = search (sound, run_pending_retry-Sound, untimed-Keeps)

    stall_tick-Sound :
        (runs silent : Bool) (daemon : Daemon) (s : Session)
        → Sound s
        → Sound (stall_tick env now runs silent daemon s)
    unfolding stall_tick
    stall_tick-Sound false silent daemon s h = search (sound, unarmed-Keeps)
    stall_tick-Sound true false daemon s h = h
    stall_tick-Sound true true daemon s h = search (sound, park_for_limit-Sound, unarmed-Keeps)

    pub on_stall_tick-Sound :
        (daemon : Daemon) (s : Session) → Sound s → Sound (on_stall_tick env now daemon s)
    unfolding on_stall_tick
    on_stall_tick-Sound daemon s h = stall_tick-Sound _ _ daemon s h
