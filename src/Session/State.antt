-- ===== src/Session/State.antt =====
-- The state of `DaemonSession` of daemon/src/session.ts, its metadata (daemon/src/registry.ts) and
-- what it asks of its surroundings. A handler runs without a pause, so it is given one `now` for
-- its calls of `Date.now()`. `log` and the callbacks that only inform a client are left out, but for
-- `onEvent`.
use claude_persist.JsMap.{JsMap}
use claude_persist.Agents.{AgentActivity}
use claude_persist.Limits.{RateLimitWindow, ResetMatch}
use claude_persist.Rotation.{Why}
use claude_persist.Session.Event.{
  Text, Usage, SessionStatus, PermissionMode, PersistedEvent, Envelope,
}
use claude_persist.Session.Queue.{InputQueue}
use claude_persist.Session.Transcript.{Transcript}
use claude_persist.Prelude.{ℕ, String, Bool, Option, List}

pub record SessionMeta : Type 0 where
  pub id : String
  pub title : String
  pub cwd : String
  pub sdk_session_id : Option String
  pub permission_mode : Option PermissionMode
  pub model : Option String
  pub effort : Option String
  pub image_count : Option ℕ
  pub turns : Option ℕ
  pub titled_at : Option ℕ
  pub title_set_by_user : Bool
  pub active_model : Option String
  pub cleared_at : Option ℕ
  pub past_titles : Option (List String)
  pub pending_title : Option String

pub record PendingTurn : Type 0 where
  pub retry_at : ℕ
  pub attempts : ℕ
  pub text : Text

-- The fields that the turns of a session change.
pub record Turns : Type 0 where
  pub status : SessionStatus
  -- `statusTimer !== null`
  pub status_watch : Bool
  pub named_incident : Option String
  pub pending : Option PendingTurn
  -- When the timer fires.
  pub retry_timer : Option ℕ
  pub consecutive_retries : ℕ
  -- `stallTimer !== null`
  pub stall_watch : Bool
  pub last_sdk_activity_at : ℕ
  -- The file `pendingTurnPath(id)`.
  pub saved : Option PendingTurn
  pub input : Option (InputQueue Envelope)
  -- The live query, by the number of its launch.
  pub active_query : Option ℕ
  pub launches : ℕ

pub record Session : Type 0 where
  pub meta : SessionMeta
  pub turns : Turns
  pub effective_cwd : String
  pub cwd_checked : Bool
  pub agents : JsMap AgentActivity
  pub has_level_signal : Bool
  -- `agentTimer !== null`
  pub agent_watch : Bool
  pub agent_names : JsMap String
  -- Open requests; true for a question.
  pub pending_permissions : JsMap Bool
  -- What `settle` has been called with: the request and `allow`.
  pub settled : List (String × Bool)
  pub last_call_usage : Option Usage
  -- What `onEvent` has been called with.
  pub broadcast : List PersistedEvent
  pub transcript : Transcript PersistedEvent

-- The machine around a session: `JSON.stringify` with the encoder, the file system, the binary
-- and what the regular expressions of a text find.
pub record Env : Type 0 where
  pub print : PersistedEvent → List ℕ
  pub json : List ℕ → Option PersistedEvent
  pub decode : List ℕ → List ℕ
  -- Whether `renameSync` succeeds, by the number of events so far.
  pub renames : ℕ → Bool
  -- Whether `pendingTurnPath` can be written.
  pub can_write : Bool
  pub claude_found : Bool
  pub is_directory : String → Bool
  pub home : String
  pub has_sdk_transcript : String → Bool
  pub clock_utc : String → String
  pub limit_patterns : Text → Bool
  pub overload_patterns : Text → Bool
  pub missing_patterns : Text → Bool
  pub launch_patterns : Text → Bool
  pub auth_patterns : Text → Bool
  pub binary_patterns : Text → Bool
  pub names_utc : Text → Bool
  pub reset_match : Text → Option ResetMatch

-- The reply of `onLimited`, `onAuthFailure` or `beforeRetry`: `switched_to` names an account that
-- has been activated.
pub record Limited : Type 0 where
  pub retry_at : ℕ
  pub switched_to : Option String
  pub why : Why

-- What the daemon answers a session's callbacks.
pub record Daemon : Type 0 where
  pub rate_limit_windows : List RateLimitWindow
  pub on_limited : ℕ → Limited
  -- The account after `onAuthFailure`, and its `retryAt`.
  pub on_auth_failure : Option (String × ℕ)
  pub before_retry : Option String
  pub active_name : Option String
