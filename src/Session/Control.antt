-- ===== src/Session/Control.antt =====
-- What a client or the daemon asks of a session in daemon/src/session.ts: permissions, options,
-- `interrupt`, `moveTo`, `restorePending`, `dispose`, and the polls of the status page.
use claude_persist.JsMap
use claude_persist.JsMap.{JsMap}
use claude_persist.Agents.{prune_agents}
use claude_persist.StatusPage.{StatusIncident, incident_notice}
use claude_persist.Session.Event.{
  Text, running, folder_changed, incident_named, incident_resolved, mode_not_switched,
  options_not_applied, PermissionMode, bypass_permissions, permission_request, question_request,
  permission_resolved, status_event,
}
use claude_persist.Session.State.{Session, Turns, PendingTurn, Env, Daemon}
use claude_persist.Session.Append.{append_event, is_running, busy, when, update_turns}
use claude_persist.Session.Sending.{run_pending_retry}
use claude_persist.Session.Parking.{
  tell, unwatched, is_parked, cancel_pending_retry, schedule_retry, dispose_active_query,
  stop_status_watch,
}
use claude_persist.Prelude.{
  ℕ, String, Bool, true, false, not, ◌&&◌, ◌||◌, Option, none, some, List, [], ◌∷◌, ◌++◌, length,
  str_eq, ltb,
}

abbrev is_bypass : PermissionMode → Bool
is_bypass mode = elim mode [ bypass_permissions ↦ true | _ ↦ false ]

unfoldable pub add_request : String → Bool → Session → Session
unfolding JsMap.set
add_request request_id is_question s = record s {
  pending_permissions = JsMap.set request_id is_question s.pending_permissions;
}

unfoldable pub drop_request : String → Session → Session
unfolding JsMap.delete
drop_request request_id s = record s {
  pending_permissions = JsMap.delete request_id s.pending_permissions;
}

unfoldable pub settle : String → Bool → Session → Session
settle request_id allow s = record s { settled = s.settled ++ (request_id, allow) ∷ [] }

unfoldable pub set_mode : PermissionMode → Session → Session
set_mode mode s = record s { meta = record s.meta { permission_mode = some mode } }

-- No change is `undefined` in the source, and `some none` is its `null`.
abbrev pub chosen : Option (Option String) → Option String → Option String
chosen none old = old
chosen (some new) old = new

unfoldable pub choose : Option (Option String) → Option (Option String) → Session → Session
choose model effort s = record s {
  meta = record s.meta { model = chosen model s.meta.model; effort = chosen effort s.meta.effort };
}

unfoldable pub change_folder : String → Session → Session
change_folder cwd s = record s {
  meta = record s.meta { cwd = cwd };
  cwd_checked = false;
  effective_cwd = "";
}

module _ (env : Env) (now : ℕ) where
  -- `canUseTool` up to its promise; `request_id` is the random id.
  unfoldable pub ask_permission : String → String → String → Session → Session
  unfolding append_event add_request
  ask_permission request_id tool_name input s =
      add_request request_id false
        (append_event env now (permission_request request_id tool_name input) s)

  unfoldable pub ask_question : String → String → Session → Session
  unfolding append_event add_request
  ask_question request_id questions s =
      add_request request_id true (append_event env now (question_request request_id questions) s)

  -- `resolvePermission`, by the entry of the request.
  unfoldable pub resolve_found : Option Bool → String → Bool → Option String → Session → Session
  unfolding append_event drop_request settle
  resolve_found none request_id allow answers s = s
  resolve_found (some is_question) request_id allow answers s = settle request_id allow (
      append_event env now (permission_resolved request_id allow answers)
        (drop_request request_id s))

  unfoldable pub resolve_permission : String → Bool → Option String → Session → Session
  unfolding resolve_found JsMap.get
  resolve_permission request_id allow answers s =
      resolve_found (JsMap.get request_id s.pending_permissions) request_id allow answers s

  -- The loop of `setPermissionMode`, over the entries that were there.
  unfoldable pub resolve_tools : JsMap Bool → Session → Session
  unfolding resolve_permission when
  resolve_tools [] s = s
  resolve_tools ((request_id, is_question) ∷ entries) s =
      resolve_tools entries (when (not is_question) (resolve_permission request_id true none) s)

  unfoldable pub tell_failure : Option Text → Session → Session
  unfolding append_event
  tell_failure none s = s
  tell_failure (some message) s =
      append_event env now (status_event s.turns.status (some (mode_not_switched message))) s

  -- `failed` is the error of the query's own `setPermissionMode`, if it throws.
  unfoldable pub set_permission_mode : PermissionMode → Option Text → Session → Session
  unfolding tell_failure resolve_tools set_mode when
  set_permission_mode mode failed s =
      tell_failure failed
        (when (is_bypass mode) (resolve_tools s.pending_permissions) (set_mode mode s))

  -- `setOptions` behind an await that throws; the query's settings are not modelled.
  unfoldable pub options_failed : Text → Session → Session
  unfolding append_event
  options_failed message s =
      append_event env now (status_event s.turns.status (some (options_not_applied message))) s

  unfoldable pub interrupt : Session → Session
  unfolding cancel_pending_retry when
  interrupt s = when (is_parked s.turns.pending) (cancel_pending_retry env now "interrupted") s

  unfoldable pub is_working : Session → Bool
  unfolding busy
  is_working s = is_running s.turns.status || busy now s

  -- False where the source throws.
  unfoldable pub move_to : String → Session → Session × Bool
  unfolding append_event is_working dispose_active_query change_folder when
  move_to cwd s = (
    when (not (is_working s) && not (str_eq cwd s.meta.cwd))
        (λ u.
          append_event env now (status_event u.turns.status (some (folder_changed cwd)))
            (dispose_active_query (change_folder cwd u)))
        s,
    not (is_working s),
  )

  unfoldable pub restored : PendingTurn → Turns → Turns
  unfolding schedule_retry
  restored turn t =
      schedule_retry now
        (record t { pending = some turn; consecutive_retries = turn.attempts; status = running })

  -- The daemon writes the file, so what it holds is a turn.
  unfoldable pub restore_turn : Option PendingTurn → Session → Session
  unfolding restored update_turns
  restore_turn none s = s
  restore_turn (some turn) s = update_turns (restored turn) s

  unfoldable pub restore_pending : Session → Session
  unfolding restore_turn
  restore_pending s = restore_turn s.turns.saved s

  -- `poll` before its request; the Bool says that the request is made.
  unfoldable pub start_poll : Session → Session × Bool
  unfolding stop_status_watch update_turns when
  start_poll s = (
    when (not (is_parked s.turns.pending)) (update_turns stop_status_watch) s,
    is_parked s.turns.pending,
  )

  abbrev worst_id : List StatusIncident → String → String
  worst_id (i ∷ []) notice = i.id
  worst_id _ notice = notice

  abbrev is_named : Option String → String → Bool
  is_named none id = false
  is_named (some named) id = str_eq named id

  unfoldable pub name_incident : String → String → Session → Session
  unfolding tell update_turns when
  name_incident id notice s =
      when (not (str_eq notice "") && not (is_named s.turns.named_incident id))
        (λ u.
          tell env now (incident_named notice)
            (update_turns (λ t. record t { named_incident = some id }) u))
        s

  unfoldable pub name_notice : List StatusIncident → Option String → Session → Session
  unfolding name_incident
  name_notice incidents none s = s
  name_notice incidents (some notice) s = name_incident (worst_id incidents notice) notice s

  -- Nothing is open any more: it was over only if something had been named.
  unfoldable pub resolve_incident : Daemon → Option String → Session → Session
  unfolding tell run_pending_retry unwatched update_turns
  resolve_incident daemon none s = s
  resolve_incident daemon (some named) s =
      run_pending_retry env now daemon (tell env now incident_resolved (update_turns unwatched s))

  -- `poll` behind its request, with the open incidents; none is no answer.
  unfoldable pub on_incidents : Daemon → Option (List StatusIncident) → Session → Session
  unfolding incident_notice name_notice resolve_incident
  on_incidents daemon none s = s
  on_incidents daemon (some (i ∷ is)) s =
      name_notice (i ∷ is) (incident_notice env.clock_utc (i ∷ is)) s
  on_incidents daemon (some []) s = resolve_incident daemon s.turns.named_incident s

-- A tick of the timer of the subagents.
unfoldable pub expire_agents : ℕ → Session → Session
unfolding prune_agents
expire_agents now s =
    let live = prune_agents s.agents now in
    record s { agents = live; agent_watch = s.agent_watch && ltb 0 (length live) }

unfoldable pub on_agent_tick : ℕ → Session → Session
unfolding expire_agents when
on_agent_tick now s = when (not s.has_level_signal) (expire_agents now) s

unfoldable pub stopped : Turns → Turns
stopped t = record t { stall_watch = false; retry_timer = none; input = none; active_query = none }

unfoldable pub close_log : Session → Session
close_log s = record s { transcript = record s.transcript { log_open = false } }

unfoldable pub dispose : Session → Session
unfolding stopped close_log update_turns
dispose s = close_log (update_turns stopped s)
