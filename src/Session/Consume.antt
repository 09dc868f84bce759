-- ===== src/Session/Consume.antt =====
-- The loop of `consume` in daemon/src/session.ts and `handleSdkMessage`, which it calls.
use claude_persist.Limits.{
  is_limit_notice, is_overload_notice, is_launch_failure, windows_look_limited,
}
use claude_persist.Session.Event.{
  Text, Usage, idle, running, error, login_switched, friendly_error, sign_in, result_event,
}
use claude_persist.Session.State.{Session, Turns, Env, Daemon}
use claude_persist.Session.Append.{
  append_event, set_status, or_zero, when, update_turns, same_status,
}
use claude_persist.Session.Sending.{arm_stall_watchdog}
use claude_persist.Session.Parking.{
  tell, is_parked, account_activated, clear_persisted_pending, schedule_retry, hold, park_for_limit,
  overload, launch, rate_limit,
}
use claude_persist.Session.Message.{
  SdkMessage, SdkResult, Body, init, background_tasks_changed, assistant, user, result, other,
  turn_result, replace_agents, note_agent_activity, agent_tag_for, on_blocks, on_answers, on_init,
}
use claude_persist.Prelude.{
  ℕ, ◌+◌, String, Bool, true, false, not, ◌&&◌, ◌||◌, Option, none, some, [], ◌==◌, str_eq,
}

-- A real answer: the budget starts over and what was parked is superseded.
unfoldable pub settled_turns : Turns → Turns
unfolding clear_persisted_pending when
settled_turns t =
    when (is_parked t.pending)
      (λ u. record (clear_persisted_pending (record u { pending = none })) { retry_timer = none })
      (record t { consecutive_retries = 0 })

unfoldable pub failed : Turns → Turns
failed t = record t { status = error }

unfoldable pub count_turn : Session → Session
count_turn s = record s { meta = record s.meta { turns = some (or_zero s.meta.turns + 1) } }

unfoldable pub note_usage : Option String → Option Usage → Session → Session
note_usage none (some usage) s = record s { last_call_usage = some usage }
note_usage none none s = s
note_usage (some parent) usage s = s

unfoldable pub released : Turns → Turns
released t = record t { active_query = none; input = none }

-- `this.activeQuery === q`
unfoldable pub is_current : ℕ → Session → Bool
is_current query s = elim s.turns.active_query [ none ↦ false | some q ↦ q == query ]

module _ (env : Env) (now : ℕ) where
  unfoldable pub hold_retry : ℕ → Turns → Turns
  unfolding hold schedule_retry
  hold_retry retry_at t = schedule_retry now (
      hold env now (record { retry_at = retry_at; attempts = t.consecutive_retries + 1; text = [] })
        (record t { consecutive_retries = t.consecutive_retries + 1 }))

  -- An expired login, by the account that `onAuthFailure` moved to.
  unfoldable pub move_login : Daemon → Option (String × ℕ) → Text → Session → Session × Bool
  unfolding append_event tell account_activated hold_retry update_turns
  move_login daemon (some (account, retry_at)) summary s = (
    update_turns (hold_retry retry_at) (
        tell env now (login_switched daemon.active_name account)
          (account_activated env now (some account) "login expired on the previous account" s)),
    true,
  )
  move_login daemon none summary s =
      (append_event env now (sign_in (friendly_error summary) daemon.active_name) s, false)

  -- An errored result, by whether it is a failure of the setup and one of the login.
  unfoldable pub on_setup_failure : Bool → Bool → Daemon → Text → Session → Session × Bool
  unfolding tell move_login
  on_setup_failure false sign daemon summary s = (s, false)
  on_setup_failure true true daemon summary s = move_login daemon daemon.on_auth_failure summary s
  on_setup_failure true false daemon summary s = (tell env now (friendly_error summary) s, false)

  -- The end of a result, by whether it is a limit, an overload and a login that was moved.
  unfoldable pub settle_result : Bool → Bool → Bool → Daemon → Text → Session → Session
  unfolding park_for_limit settled_turns set_status failed update_turns when
  settle_result true overloads rotated daemon summary s =
      park_for_limit env now daemon summary rate_limit (update_turns failed s)
  settle_result false true rotated daemon summary s =
      park_for_limit env now daemon summary overload (update_turns failed s)
  settle_result false false rotated daemon summary s =
      set_status env now idle none (when (not rotated) (update_turns settled_turns) s)

  unfoldable pub is_refused : Daemon → Text → Bool
  unfolding is_limit_notice windows_look_limited
  is_refused daemon summary =
      is_limit_notice env.limit_patterns summary && windows_look_limited daemon.rate_limit_windows

  unfoldable pub after_result : Daemon → Text → Session × Bool → Session
  unfolding settle_result is_refused is_overload_notice
  after_result daemon summary (s, rotated) =
      settle_result (is_refused daemon summary) (is_overload_notice env.overload_patterns summary)
        rotated daemon summary s

  unfoldable pub on_result : Daemon → SdkResult → Session → Session
  unfolding append_event turn_result count_turn on_setup_failure after_result
  on_result daemon r s = after_result daemon r.text (
      on_setup_failure (r.is_error && (env.auth_patterns r.text || env.binary_patterns r.text))
        (env.auth_patterns r.text) daemon r.text
        (count_turn (append_event env now (result_event (turn_result s.last_call_usage r)) s)))

  unfoldable pub note_tasks : Body → Session → Session
  unfolding replace_agents
  note_tasks (background_tasks_changed tasks) s = replace_agents now tasks s
  note_tasks _ s = s

  -- A subagent's message, by the level signal or by its parent.
  unfoldable pub note_parent : Option String → Session → Session
  unfolding note_agent_activity when
  note_parent none s = s
  note_parent (some parent) s =
      when (not s.has_level_signal && not (str_eq parent "")) (note_agent_activity now parent none)
        s

  -- `!parent`
  abbrev is_main : Option String → Bool
  is_main none = true
  is_main (some parent) = str_eq parent ""

  abbrev is_assistant : Body → Bool
  is_assistant body = elim body [ assistant usage blocks ↦ true | _ ↦ false ]

  -- A turn that nobody here has started.
  unfoldable pub wake : SdkMessage → Session → Session
  unfolding set_status arm_stall_watchdog update_turns when
  wake msg s =
      when (is_assistant msg.body && is_main msg.parent && same_status s.turns.status idle)
        (λ u. update_turns (arm_stall_watchdog now) (set_status env now running none u)) s

  unfoldable pub on_body : Daemon → Option String → Option Text → Body → Session → Session
  unfolding on_init on_blocks on_answers on_result note_usage
  on_body daemon parent agent (init session_id model) s = on_init env now session_id model s
  on_body daemon parent agent (background_tasks_changed tasks) s = s
  on_body daemon parent agent (assistant usage blocks) s =
      on_blocks env now agent blocks (note_usage parent usage s)
  on_body daemon parent agent (user blocks) s = on_answers env now agent blocks s
  on_body daemon parent agent (result r) s = on_result daemon r s
  on_body daemon parent agent other s = s

  unfoldable pub heard : Turns → Turns
  heard t = record t { last_sdk_activity_at = now }

  -- What follows the note of the subagents.
  unfoldable pub on_noted : Daemon → SdkMessage → Session → Session
  unfolding agent_tag_for wake on_body heard update_turns
  on_noted daemon msg s =
      on_body daemon msg.parent (agent_tag_for msg.parent s) msg.body
        (wake msg (update_turns heard s))

  unfoldable pub handle_sdk_message : Daemon → SdkMessage → Session → Session
  unfolding note_tasks note_parent on_noted
  handle_sdk_message daemon msg s =
      on_noted daemon msg (note_parent msg.parent (note_tasks msg.body s))

  -- The `finally` of `consume`.
  unfoldable pub release : ℕ → Session → Session
  unfolding is_current released update_turns when
  release query s = when (is_current query s) (update_turns released) s

  -- A message of the query, whose loop returns if the query has been replaced.
  unfoldable pub on_query_message : Daemon → ℕ → SdkMessage → Session → Session
  unfolding is_current handle_sdk_message when
  on_query_message daemon query msg s = when (is_current query s) (handle_sdk_message daemon msg) s

  unfoldable pub on_query_end : ℕ → Session → Session
  unfolding is_current set_status release when
  on_query_end query s = release query (when (is_current query s) (set_status env now idle none) s)

  -- What is thrown out of the live query, by whether it is an overload and a failed launch.
  unfoldable pub settle_error : Bool → Bool → Daemon → Text → Session → Session
  unfolding park_for_limit set_status failed update_turns
  settle_error true launches daemon message s =
      park_for_limit env now daemon message overload (update_turns failed s)
  settle_error false true daemon message s =
      park_for_limit env now daemon message launch (update_turns failed s)
  settle_error false false daemon message s =
      set_status env now error (some (friendly_error message)) s

  unfoldable pub on_query_error : Daemon → ℕ → Text → Session → Session
  unfolding is_current settle_error release when is_overload_notice is_launch_failure
  on_query_error daemon query message s = release query (
      when (is_current query s)
        (settle_error (is_overload_notice env.overload_patterns message)
          (is_launch_failure env.missing_patterns env.launch_patterns message) daemon message)
        s)
