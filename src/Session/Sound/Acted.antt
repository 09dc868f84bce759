-- ===== src/Session/Sound/Acted.antt =====
-- Every action keeps the invariants, so every run of actions does.
use claude_persist.JsMap.{JsMap}
use claude_persist.StatusPage.{StatusIncident, incident_notice}
use claude_persist.Session.Event.{Text, PermissionMode}
use claude_persist.Session.State.{Session, PendingTurn, Env, Daemon}
use claude_persist.Session.Append.{update_turns}
use claude_persist.Session.Parking.{stop_status_watch, schedule_retry}
use claude_persist.Session.Control.{
  add_request, ask_permission, ask_question, drop_request, settle, resolve_found,
  resolve_permission, resolve_tools, set_mode, choose, options_failed, tell_failure,
  set_permission_mode, interrupt, change_folder, move_to, restored, restore_turn, restore_pending,
  start_poll, name_incident, name_notice, resolve_incident, on_incidents, expire_agents,
  on_agent_tick, stopped, close_log, dispose,
}
use claude_persist.Session.Actions.{
  Action, sending, retry_timer, stall_timer, query_message, query_end, query_error,
  asking_permission, asking_question, resolving, switching_mode, choosing, choice_fails,
  interrupting, moving, restoring, polling, incidents, agent_timer, switching_account,
  disposing_query, restarting, disposing, act, act_all,
}
use claude_persist.Session.Sound.{IsSound, Keeps, sound, log_closed}
use claude_persist.Session.Sound.Parked.{
  tell-Sound, cancel_pending_retry-Sound, dispose_active_query-Sound, park_for_account_switch-Sound,
  park_for_restart-Sound, unwatched-Keeps,
}
use claude_persist.Session.Sound.Sent.{
  send_message-Sound, run_pending_retry-Sound, on_retry_timer-Sound, on_stall_tick-Sound,
}
use claude_persist.Session.Sound.Handled.{
  on_query_message-Sound, on_query_end-Sound, on_query_error-Sound,
}
use claude_persist.Prelude.{
  ℕ, ◌≡◌, refl, sym, String, Bool, true, Option, none, some, List, [], ◌∷◌,
}

module _ (env : Env) (t : Session) (now : ℕ) where
  abbrev Sound : Session → Type 0
  Sound = IsSound env t

  add_request-Sound : (id : String) (q : Bool) (s : Session) → Sound s → Sound (add_request id q s)
  unfolding add_request
  add_request-Sound id q s h = record {
    kept = h.kept;
    more = h.more;
    told = h.told;
    grown = h.grown;
  }

  drop_request-Sound : (id : String) (s : Session) → Sound s → Sound (drop_request id s)
  unfolding drop_request
  drop_request-Sound id s h = record {
    kept = h.kept;
    more = h.more;
    told = h.told;
    grown = h.grown;
  }

  settle-Sound : (id : String) (allow : Bool) (s : Session) → Sound s → Sound (settle id allow s)
  unfolding settle
  settle-Sound id allow s h = record {
    kept = h.kept;
    more = h.more;
    told = h.told;
    grown = h.grown;
  }

  set_mode-Sound : (mode : PermissionMode) (s : Session) → Sound s → Sound (set_mode mode s)
  unfolding set_mode
  set_mode-Sound mode s h = record { kept = h.kept; more = h.more; told = h.told; grown = h.grown }

  choose-Sound :
      (model effort : Option (Option String)) (s : Session)
      → Sound s
      → Sound (choose model effort s)
  unfolding choose
  choose-Sound model effort s h = record {
    kept = h.kept;
    more = h.more;
    told = h.told;
    grown = h.grown;
  }

  change_folder-Sound : (cwd : String) (s : Session) → Sound s → Sound (change_folder cwd s)
  unfolding change_folder
  change_folder-Sound cwd s h = record {
    kept = h.kept;
    more = h.more;
    told = h.told;
    grown = h.grown;
  }

  expire_agents-Sound : (s : Session) → Sound s → Sound (expire_agents now s)
  unfolding expire_agents
  expire_agents-Sound s h = record { kept = h.kept; more = h.more; told = h.told; grown = h.grown }

  close_log-Sound : (s : Session) → Sound s → Sound (close_log s)
  unfolding close_log
  close_log-Sound s h = record {
    kept = h.kept;
    more = h.more;
    told = h.told;
    grown = log_closed h.grown;
  }

  stopped-Keeps : Keeps env t stopped
  unfolding stopped
  stopped-Keeps u e = e

  stop-Keeps : Keeps env t stop_status_watch
  unfolding stop_status_watch
  stop-Keeps u e = e

  resolve_found-Sound :
      (found : Option Bool) (id : String) (allow : Bool) (answers : Option String) (s : Session)
      → Sound s
      → Sound (resolve_found env now found id allow answers s)
  unfolding resolve_found
  resolve_found-Sound none id allow answers s h = h
  resolve_found-Sound (some q) id allow answers s h =
      search (sound, settle-Sound, drop_request-Sound)

  resolve_permission-Sound :
      (id : String) (allow : Bool) (answers : Option String) (s : Session)
      → Sound s
      → Sound (resolve_permission env now id allow answers s)
  unfolding resolve_permission
  resolve_permission-Sound id allow answers s h = resolve_found-Sound _ id allow answers s h

  resolve_tools-Sound :
      (entries : JsMap Bool) (s : Session) → Sound s → Sound (resolve_tools env now entries s)
  unfolding resolve_tools
  resolve_tools-Sound [] s h = h
  resolve_tools-Sound ((id, q) ∷ entries) s h =
      resolve_tools-Sound entries _ (search (sound, resolve_permission-Sound))

  tell_failure-Sound :
      (failed : Option Text) (s : Session) → Sound s → Sound (tell_failure env now failed s)
  unfolding tell_failure
  tell_failure-Sound none s h = h
  tell_failure-Sound (some message) s h = search sound

  options_failed-Sound :
      (message : Text) (s : Session) → Sound s → Sound (options_failed env now message s)
  unfolding options_failed
  options_failed-Sound message s h = search sound

  set_permission_mode-Sound :
      (mode : PermissionMode) (failed : Option Text) (s : Session)
      → Sound s
      → Sound (set_permission_mode env now mode failed s)
  unfolding set_permission_mode
  set_permission_mode-Sound mode failed s h =
      search (sound, tell_failure-Sound, resolve_tools-Sound, set_mode-Sound)

  interrupt-Sound : (s : Session) → Sound s → Sound (interrupt env now s)
  unfolding interrupt
  interrupt-Sound s h = search (sound, cancel_pending_retry-Sound)

  move_to-Sound : (cwd : String) (s : Session) → Sound s → Sound (move_to env now cwd s).0
  unfolding move_to
  move_to-Sound cwd s h = search (sound, dispose_active_query-Sound, change_folder-Sound)

  start_poll-Sound : (s : Session) → Sound s → Sound (start_poll env now s).0
  unfolding start_poll
  start_poll-Sound s h = search (sound, stop-Keeps)

  on_agent_tick-Sound : (s : Session) → Sound s → Sound (on_agent_tick now s)
  unfolding on_agent_tick
  on_agent_tick-Sound s h = search (sound, expire_agents-Sound)

  dispose-Sound : (s : Session) → Sound s → Sound (dispose s)
  unfolding dispose
  dispose-Sound s h = search (sound, close_log-Sound, stopped-Keeps)

  restore_turn-Sound :
      (saved : Option PendingTurn) (s : Session)
      → s.turns.saved ≡ saved
      → Sound s
      → Sound (restore_turn env now saved s)
  unfolding restore_turn restored schedule_retry update_turns
  restore_turn-Sound none s e h = h
  restore_turn-Sound (some turn) s e h = record {
    kept = sym e;
    more = h.more;
    told = h.told;
    grown = h.grown;
  }

  name_incident-Sound :
      (id notice : String) (s : Session) → Sound s → Sound (name_incident env now id notice s)
  unfolding name_incident
  name_incident-Sound id notice s h =
      let named : Keeps env t (λ u. record u { named_incident = some id }) = λ u e. e in
      search (sound, tell-Sound, named)

  name_notice-Sound :
      (found : List StatusIncident) (notice : Option String) (s : Session)
      → Sound s
      → Sound (name_notice env now found notice s)
  unfolding name_notice
  name_notice-Sound found none s h = h
  name_notice-Sound found (some notice) s h = name_incident-Sound _ notice s h

  module _ (writes : env.can_write ≡ true) where
    resolve_incident-Sound :
        (daemon : Daemon) (named : Option String) (s : Session)
        → Sound s
        → Sound (resolve_incident env now daemon named s)
    unfolding resolve_incident
    resolve_incident-Sound daemon none s h = h
    resolve_incident-Sound daemon (some named) s h =
        search (sound, run_pending_retry-Sound, tell-Sound, unwatched-Keeps)

    on_incidents-Sound :
        (daemon : Daemon) (found : Option (List StatusIncident)) (s : Session)
        → Sound s
        → Sound (on_incidents env now daemon found s)
    unfolding on_incidents
    on_incidents-Sound daemon none s h = h
    on_incidents-Sound daemon (some (i ∷ rest)) s h =
        name_notice-Sound (i ∷ rest) (incident_notice env.clock_utc (i ∷ rest)) s h
    on_incidents-Sound daemon (some []) s h =
        resolve_incident-Sound daemon s.turns.named_incident s h

    pub act-Sound : (action : Action) (s : Session) → Sound s → Sound (act env now action s)
    unfolding act ask_permission ask_question restore_pending
    act-Sound (sending text attachments id) s h =
        send_message-Sound env t now text attachments id s h
    act-Sound (retry_timer daemon) s h = on_retry_timer-Sound env t now writes daemon s h
    act-Sound (stall_timer daemon) s h = on_stall_tick-Sound env t now writes daemon s h
    act-Sound (query_message daemon query msg) s h =
        on_query_message-Sound env t now writes daemon query msg s h
    act-Sound (query_end query) s h = on_query_end-Sound env t now query s h
    act-Sound (query_error daemon query message) s h =
        on_query_error-Sound env t now writes daemon query message s h
    act-Sound (asking_permission id tool input) s h = search (sound, add_request-Sound)
    act-Sound (asking_question id questions) s h = search (sound, add_request-Sound)
    act-Sound (resolving id allow answers) s h = resolve_permission-Sound id allow answers s h
    act-Sound (switching_mode mode failed) s h = set_permission_mode-Sound mode failed s h
    act-Sound (choosing model effort) s h = choose-Sound model effort s h
    act-Sound (choice_fails message) s h = options_failed-Sound message s h
    act-Sound interrupting s h = interrupt-Sound s h
    act-Sound (moving cwd) s h = move_to-Sound cwd s h
    act-Sound restoring s h = restore_turn-Sound s.turns.saved s refl h
    act-Sound polling s h = start_poll-Sound s h
    act-Sound (incidents daemon found) s h = on_incidents-Sound daemon found s h
    act-Sound agent_timer s h = on_agent_tick-Sound s h
    act-Sound (switching_account retry_at account reason) s h =
        park_for_account_switch-Sound env t now writes retry_at account reason s h
    act-Sound disposing_query s h = dispose_active_query-Sound env t now s h
    act-Sound restarting s h = park_for_restart-Sound env t now writes s h
    act-Sound disposing s h = dispose-Sound s h

pub act_all-IsSound :
    (env : Env) (t : Session) (actions : List (ℕ × Action)) (s : Session)
    → env.can_write ≡ true
    → IsSound env t s
    → IsSound env t (act_all env actions s)
unfolding act_all
act_all-IsSound env t [] s writes h = h
act_all-IsSound env t ((now, action) ∷ actions) s writes h =
    act_all-IsSound env t actions _ writes (act-Sound env t now writes action s h)
