-- ===== src/Session/Event.antt =====
-- The chat events of shared/src/protocol.ts and the messages of daemon/src/session.ts. A text is
-- the list of its UTF-16 code units, and a value of type `unknown` its JSON. The wording of a
-- notice is left out: what is kept is which notice it is and what it names.
use Prim.Native.Char.{code}
use claude_persist.Rotation.{Why}
use claude_persist.Prelude.{ℕ, String, Bool, Option, List, [], ◌∷◌}

abbrev pub Text : Type 0
Text = List ℕ

-- The code units of an ASCII text.
abbrev pub codes : String → Text
codes String.[] = []
codes (String.◌∷◌ c s) = code c ∷ codes s

pub data SessionStatus : Type 0 where
  idle running error : SessionStatus

pub data PermissionMode : Type 0 where
  default accept_edits bypass_permissions plan : PermissionMode

-- `decision.why` of `limitNotice`.
pub data Reason : Type 0 where
  stalled overloaded launch_failed : Reason
  limited : Why → Reason

-- What a status event's `detail` says.
pub data Notice : Type 0 where
  stall_gave_up : ℕ → Notice
  overload_gave_up : ℕ → Notice
  limit_gave_up : ℕ → Notice
  limit_notice : Reason → Option String → ℕ → Notice
  retry_cancelled : String → Notice
  daemon_restarted : Notice
  account_changed : Option String → String → Notice
  folder_changed : String → Notice
  folder_missing : String → String → Notice
  incident_named : String → Notice
  incident_resolved : Notice
  no_claude : Notice
  context_lost : String → Notice
  login_switched : Option String → String → Notice
  friendly_error : Text → Notice
  mode_not_switched : Text → Notice
  options_not_applied : Text → Notice

pub data AttachmentRef : Type 0 where
  image_ref : String → Option String → String → AttachmentRef
  file_ref : String → AttachmentRef

-- An image has a name, a media type, its data and a path; a file has its path.
pub data Attachment : Type 0 where
  image : String → String → String → Option String → Attachment
  file : String → Attachment

pub record Usage : Type 0 where
  pub input_tokens : Option ℕ
  pub cache_read_input_tokens : Option ℕ
  pub cache_creation_input_tokens : Option ℕ
  pub output_tokens : Option ℕ

pub record TurnResult : Type 0 where
  pub summary : Text
  pub cost_usd : Option String
  pub duration_ms : Option ℕ
  pub context_tokens : Option ℕ
  pub context_window : Option ℕ
  pub turn_tokens : Option ℕ

-- `sign_in` is the `action`, with its `account`.
pub data ChatEvent : Type 0 where
  user_message : Text → List AttachmentRef → Option String → ChatEvent
  assistant_text : Text → Option Text → ChatEvent
  tool_use : Option String → String → String → Option Text → ChatEvent
  tool_result : Option String → Text → Bool → Option Text → ChatEvent
  permission_request : String → String → String → ChatEvent
  question_request : String → String → ChatEvent
  permission_resolved : String → Bool → Option String → ChatEvent
  status_event : SessionStatus → Option Notice → ChatEvent
  sign_in : Notice → Option String → ChatEvent
  result_event : TurnResult → ChatEvent

pub record PersistedEvent : Type 0 where
  pub seq : ℕ
  pub ts : ℕ
  pub event : ChatEvent

-- A block of a message that is pushed to the SDK.
pub data Content : Type 0 where
  image_block : String → String → Content
  text_block : Text → Content

pub record Envelope : Type 0 where
  pub content : List Content
  pub session_id : String
