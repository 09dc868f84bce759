-- ===== src/Session/Actions.antt =====
-- What can happen to a session of daemon/src/session.ts: one action for each entry point of
-- `DaemonSession`, with its instant, and runs of them in any order.
use claude_persist.StatusPage.{StatusIncident}
use claude_persist.Session.Event.{Text, Attachment, PermissionMode}
use claude_persist.Session.State.{Session, Env, Daemon}
use claude_persist.Session.Parking.{park_for_account_switch, park_for_restart, dispose_active_query}
use claude_persist.Session.Sending.{send_message, on_retry_timer, on_stall_tick}
use claude_persist.Session.Message.{SdkMessage}
use claude_persist.Session.Consume.{on_query_message, on_query_end, on_query_error}
use claude_persist.Session.Control.{
  ask_permission, ask_question, resolve_permission, set_permission_mode, choose, options_failed,
  interrupt, move_to, restore_pending, start_poll, on_incidents, on_agent_tick, dispose,
}
use claude_persist.Prelude.{ℕ, String, Bool, Option, List, [], ◌∷◌}

pub data Action : Type 0 where
  sending : Text → List Attachment → Option String → Action
  retry_timer stall_timer : Daemon → Action
  query_message : Daemon → ℕ → SdkMessage → Action
  query_end : ℕ → Action
  query_error : Daemon → ℕ → Text → Action
  asking_permission : String → String → String → Action
  asking_question : String → String → Action
  resolving : String → Bool → Option String → Action
  switching_mode : PermissionMode → Option Text → Action
  choosing : Option (Option String) → Option (Option String) → Action
  choice_fails : Text → Action
  interrupting : Action
  moving : String → Action
  restoring : Action
  polling : Action
  incidents : Daemon → Option (List StatusIncident) → Action
  agent_timer : Action
  switching_account : ℕ → Option String → String → Action
  disposing_query : Action
  restarting : Action
  disposing : Action

module _ (env : Env) where
  unfoldable pub act : ℕ → Action → Session → Session
  unfolding send_message on_retry_timer on_stall_tick on_query_message on_query_end on_query_error
      ask_permission ask_question resolve_permission set_permission_mode choose options_failed
      interrupt move_to restore_pending start_poll on_incidents on_agent_tick
      park_for_account_switch dispose_active_query park_for_restart dispose
  act now (sending text attachments id) s = (send_message env now text attachments id s).0
  act now (retry_timer daemon) s = on_retry_timer env now daemon s
  act now (stall_timer daemon) s = on_stall_tick env now daemon s
  act now (query_message daemon query msg) s = on_query_message env now daemon query msg s
  act now (query_end query) s = on_query_end env now query s
  act now (query_error daemon query message) s = on_query_error env now daemon query message s
  act now (asking_permission id tool input) s = ask_permission env now id tool input s
  act now (asking_question id questions) s = ask_question env now id questions s
  act now (resolving id allow answers) s = resolve_permission env now id allow answers s
  act now (switching_mode mode failed) s = set_permission_mode env now mode failed s
  act now (choosing model effort) s = choose model effort s
  act now (choice_fails message) s = options_failed env now message s
  act now interrupting s = interrupt env now s
  act now (moving cwd) s = (move_to env now cwd s).0
  act now restoring s = restore_pending env now s
  act now polling s = (start_poll env now s).0
  act now (incidents daemon found) s = on_incidents env now daemon found s
  act now agent_timer s = on_agent_tick now s
  act now (switching_account retry_at account reason) s =
      park_for_account_switch env now retry_at account reason s
  act now disposing_query s = dispose_active_query s
  act now restarting s = (park_for_restart env now s).0
  act now disposing s = dispose s

  unfoldable pub act_all : List (ℕ × Action) → Session → Session
  unfolding act
  act_all [] s = s
  act_all ((now, action) ∷ actions) s = act_all actions (act now action s)
