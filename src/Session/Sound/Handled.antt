-- ===== src/Session/Sound/Handled.antt =====
-- Handling a message of the SDK, the end and the failure of a query keeps the invariants.
use claude_persist.Session.Event.{Text, Usage, tool_result}
use claude_persist.Session.State.{Session, Env, Daemon}
use claude_persist.Session.Append.{when}
use claude_persist.Session.Parking.{schedule_retry, clear_persisted_pending, is_parked}
use claude_persist.Session.Message.{
  Block, text_content, tool_call, other_block, ResultBlock, tool_answer, other_answer, SdkMessage,
  SdkResult, Body, init, background_tasks_changed, assistant, user, result, other,
  note_agent_activity, replace_agents, dispatched, note_name, on_block, on_blocks, on_answers,
  on_init, summarize,
}
use claude_persist.Session.Consume.{
  hold_retry, move_login, on_setup_failure, settled_turns, failed, settle_result, after_result,
  count_turn, on_result, note_tasks, note_parent, wake, note_usage, on_body, heard, on_noted,
  handle_sdk_message, released, release, on_query_message, on_query_end, settle_error,
  on_query_error,
}
use claude_persist.Session.Sound.{IsSound, Keeps, sound, append_event-IsSound}
use claude_persist.Session.Sound.Parked.{
  tell-Sound, hold-Keeps, account_activated-Sound, park_for_limit-Sound,
}
use claude_persist.Session.Sound.Sent.{arm-Keeps}
use claude_persist.Prelude.{
  ℕ, ◌+◌, ◌≡◌, refl, String, Bool, true, false, Option, none, some, List, [], ◌∷◌, Bool-cases, inl,
  inr,
}

module _ (env : Env) (t : Session) (now : ℕ) where
  abbrev Sound : Session → Type 0
  Sound = IsSound env t

  note_agent_activity-Sound :
      (id : String) (d : Option String) (s : Session)
      → Sound s
      → Sound (note_agent_activity now id d s)
  unfolding note_agent_activity
  note_agent_activity-Sound id d s h = record {
    kept = h.kept;
    more = h.more;
    told = h.told;
    grown = h.grown;
  }

  note_name-Sound : (id d : String) (s : Session) → Sound s → Sound (note_name id d s)
  unfolding note_name
  note_name-Sound id d s h = record { kept = h.kept; more = h.more; told = h.told; grown = h.grown }

  dispatched-Sound :
      (id : Option String) (name d : String) (s : Session)
      → Sound s
      → Sound (dispatched env now id name d s)
  unfolding dispatched
  dispatched-Sound none name d s h = h
  dispatched-Sound (some id) name d s h = search (sound, note_name-Sound, note_agent_activity-Sound)

  on_block-Sound :
      (agent : Option Text) (block : Block) (s : Session)
      → Sound s
      → Sound (on_block env now agent block s)
  unfolding on_block
  on_block-Sound agent (text_content text) s h = search sound
  on_block-Sound agent (tool_call id name input d) s h = search (sound, dispatched-Sound)
  on_block-Sound agent other_block s h = h

  on_blocks-Sound :
      (agent : Option Text) (blocks : List Block) (s : Session)
      → Sound s
      → Sound (on_blocks env now agent blocks s)
  unfolding on_blocks
  on_blocks-Sound agent [] s h = h
  on_blocks-Sound agent (block ∷ blocks) s h =
      on_blocks-Sound agent blocks (on_block env now agent block s) (on_block-Sound agent block s h)

  on_answers-Sound :
      (agent : Option Text) (blocks : List ResultBlock) (s : Session)
      → Sound s
      → Sound (on_answers env now agent blocks s)
  unfolding on_answers
  on_answers-Sound agent [] s h = h
  on_answers-Sound agent (other_answer ∷ blocks) s h = on_answers-Sound agent blocks s h
  on_answers-Sound agent (tool_answer id content is_error ∷ blocks) s h =
      on_answers-Sound agent blocks _ (
        append_event-IsSound env t now (tool_result id (summarize content 1500) is_error agent) s h)

  on_init-Sound :
      (id model : Option String) (s : Session) → Sound s → Sound (on_init env now id model s)
  unfolding on_init
  on_init-Sound id model s h = record {
    kept = h.kept;
    more = h.more;
    told = h.told;
    grown = h.grown;
  }

  settled-Keeps : Keeps env t settled_turns
  unfolding settled_turns clear_persisted_pending when
  settled-Keeps u e = elim (Bool-cases (is_parked u.pending)) [
    | inl parked ↦ rw parked refl
    | inr free ↦ rw free e
  ]

  failed-Keeps : Keeps env t failed
  unfolding failed
  failed-Keeps u e = e

  count_turn-Sound : (s : Session) → Sound s → Sound (count_turn s)
  unfolding count_turn
  count_turn-Sound s h = record { kept = h.kept; more = h.more; told = h.told; grown = h.grown }

  note_tasks-Sound : (body : Body) (s : Session) → Sound s → Sound (note_tasks env now body s)
  unfolding note_tasks replace_agents
  note_tasks-Sound (background_tasks_changed tasks) s h = record {
    kept = h.kept;
    more = h.more;
    told = h.told;
    grown = h.grown;
  }
  note_tasks-Sound (init id model) s h = h
  note_tasks-Sound (assistant usage blocks) s h = h
  note_tasks-Sound (user blocks) s h = h
  note_tasks-Sound (result r) s h = h
  note_tasks-Sound other s h = h

  note_parent-Sound :
      (parent : Option String) (s : Session) → Sound s → Sound (note_parent env now parent s)
  unfolding note_parent
  note_parent-Sound none s h = h
  note_parent-Sound (some parent) s h = search (sound, note_agent_activity-Sound)

  wake-Sound : (msg : SdkMessage) (s : Session) → Sound s → Sound (wake env now msg s)
  unfolding wake
  wake-Sound msg s h = search (sound, arm-Keeps)

  note_usage-Sound :
      (parent : Option String) (usage : Option Usage) (s : Session)
      → Sound s
      → Sound (note_usage parent usage s)
  unfolding note_usage
  note_usage-Sound none (some usage) s h = record {
    kept = h.kept;
    more = h.more;
    told = h.told;
    grown = h.grown;
  }
  note_usage-Sound none none s h = h
  note_usage-Sound (some parent) usage s h = h

  heard-Keeps : Keeps env t (heard env now)
  unfolding heard
  heard-Keeps u e = e

  released-Keeps : Keeps env t released
  unfolding released
  released-Keeps u e = e

  release-Sound : (query : ℕ) (s : Session) → Sound s → Sound (release env now query s)
  unfolding release
  release-Sound query s h = search (sound, released-Keeps)

  pub on_query_end-Sound :
      (query : ℕ) (s : Session) → Sound s → Sound (on_query_end env now query s)
  unfolding on_query_end
  on_query_end-Sound query s h = search (sound, release-Sound)

  module _ (writes : env.can_write ≡ true) where
    hold_retry-Keeps : (retry_at : ℕ) → Keeps env t (hold_retry env now retry_at)
    unfolding hold_retry schedule_retry
    hold_retry-Keeps retry_at u e =
        hold-Keeps env t now writes _ (record u { consecutive_retries = u.consecutive_retries + 1 })
          e

    move_login-Sound :
        (daemon : Daemon) (account : Option (String × ℕ)) (summary : Text) (s : Session)
        → Sound s
        → Sound (move_login env now daemon account summary s).0
    unfolding move_login
    move_login-Sound daemon (some (account, retry_at)) summary s h =
        search (sound, tell-Sound, account_activated-Sound, hold_retry-Keeps) depth 8
    move_login-Sound daemon none summary s h = search sound

    on_setup_failure-Sound :
        (fails sign : Bool) (daemon : Daemon) (summary : Text) (s : Session)
        → Sound s
        → Sound (on_setup_failure env now fails sign daemon summary s).0
    unfolding on_setup_failure
    on_setup_failure-Sound false sign daemon summary s h = h
    on_setup_failure-Sound true true daemon summary s h = move_login-Sound daemon _ summary s h
    on_setup_failure-Sound true false daemon summary s h = search sound

    settle_result-Sound :
        (limits overloads rotated : Bool) (daemon : Daemon) (summary : Text) (s : Session)
        → Sound s
        → Sound (settle_result env now limits overloads rotated daemon summary s)
    unfolding settle_result
    settle_result-Sound true overloads rotated daemon summary s h =
        search (sound, park_for_limit-Sound, failed-Keeps)
    settle_result-Sound false true rotated daemon summary s h =
        search (sound, park_for_limit-Sound, failed-Keeps)
    settle_result-Sound false false rotated daemon summary s h = search (sound, settled-Keeps)

    after_result-Sound :
        (daemon : Daemon) (summary : Text) (r : Session × Bool)
        → Sound r.0
        → Sound (after_result env now daemon summary r)
    unfolding after_result
    after_result-Sound daemon summary (s, rotated) h =
        settle_result-Sound _ _ rotated daemon summary s h

    on_result-Sound :
        (daemon : Daemon) (r : SdkResult) (s : Session)
        → Sound s
        → Sound (on_result env now daemon r s)
    unfolding on_result
    on_result-Sound daemon r s h =
        after_result-Sound daemon r.text _
          (search (sound, on_setup_failure-Sound, count_turn-Sound))

    on_body-Sound :
        (daemon : Daemon) (parent : Option String) (agent : Option Text) (body : Body) (s : Session)
        → Sound s
        → Sound (on_body env now daemon parent agent body s)
    unfolding on_body
    on_body-Sound daemon parent agent (init id model) s h = on_init-Sound id model s h
    on_body-Sound daemon parent agent (background_tasks_changed tasks) s h = h
    on_body-Sound daemon parent agent (assistant usage blocks) s h =
        on_blocks-Sound agent blocks _ (note_usage-Sound parent usage s h)
    on_body-Sound daemon parent agent (user blocks) s h = on_answers-Sound agent blocks s h
    on_body-Sound daemon parent agent (result r) s h = on_result-Sound daemon r s h
    on_body-Sound daemon parent agent other s h = h

    handle_sdk_message-Sound :
        (daemon : Daemon) (msg : SdkMessage) (s : Session)
        → Sound s
        → Sound (handle_sdk_message env now daemon msg s)
    unfolding handle_sdk_message on_noted
    handle_sdk_message-Sound daemon msg s h =
        search (sound, on_body-Sound, wake-Sound, heard-Keeps, note_parent-Sound, note_tasks-Sound)
          depth 8

    pub on_query_message-Sound :
        (daemon : Daemon) (query : ℕ) (msg : SdkMessage) (s : Session)
        → Sound s
        → Sound (on_query_message env now daemon query msg s)
    unfolding on_query_message
    on_query_message-Sound daemon query msg s h = search (sound, handle_sdk_message-Sound)

    settle_error-Sound :
        (overloads launches : Bool) (daemon : Daemon) (message : Text) (s : Session)
        → Sound s
        → Sound (settle_error env now overloads launches daemon message s)
    unfolding settle_error
    settle_error-Sound true launches daemon message s h =
        search (sound, park_for_limit-Sound, failed-Keeps)
    settle_error-Sound false true daemon message s h =
        search (sound, park_for_limit-Sound, failed-Keeps)
    settle_error-Sound false false daemon message s h = search sound

    pub on_query_error-Sound :
        (daemon : Daemon) (query : ℕ) (message : Text) (s : Session)
        → Sound s
        → Sound (on_query_error env now daemon query message s)
    unfolding on_query_error
    on_query_error-Sound daemon query message s h =
        search (sound, settle_error-Sound, release-Sound)
