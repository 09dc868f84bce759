-- ===== src/Session/Sending.antt =====
-- Starting a turn in daemon/src/session.ts: `workingDirectory`, `ensureQuery`, `sendMessage`,
-- `runPendingRetry` and the stall watchdog.
pub mod Supersede
use claude_persist.Limits.{stall_ms}
use claude_persist.Session.Event.{
  Text, codes, SessionStatus, idle, running, error, Notice, folder_missing, no_claude, context_lost,
  AttachmentRef, image_ref, file_ref, Attachment, image, file, ChatEvent, user_message,
  status_event, Content, image_block, text_block, Envelope,
}
use claude_persist.Session.Queue.{InputQueue, new_queue, push}
use claude_persist.Session.State.{Session, Turns, PendingTurn, Env, Daemon}
use claude_persist.Session.Append.{
  append_event, set_status, has_client_message, is_running, when, update_turns,
}
use claude_persist.Session.Parking.{
  tell, is_parked, cancel_pending_retry, account_activated, stop_status_watch,
  clear_persisted_pending, park_for_limit, stall,
}
use claude_persist.Prelude.{
  ℕ, ◌+◌, ◌-◌, String, Bool, true, false, not, ◌&&◌, ◌||◌, Option, none, some, List, [], ◌∷◌, ◌++◌,
  map, ltb, leb, str_eq, if◌then◌else◌,
}

-- RESUME_MESSAGE
abbrev pub resume_message : Text
resume_message = codes "restart and continue"

abbrev pub label_of : Attachment → AttachmentRef
label_of (image name media_type bytes path) = image_ref name path media_type
label_of (file path) = file_ref path

abbrev pub or_empty_id : Option String → String
or_empty_id none = ""
or_empty_id (some id) = id

unfoldable pub image_blocks : List Attachment → List Content
image_blocks [] = []
image_blocks (image name media_type bytes path ∷ attachments) =
    image_block media_type bytes ∷ image_blocks attachments
image_blocks (file path ∷ attachments) = image_blocks attachments

-- `.map((a) => a.path).join('\n')`
unfoldable pub join_lines : List Text → Text
join_lines [] = []
join_lines (line ∷ []) = line
join_lines (line ∷ next ∷ lines) = line ++ 0x0a ∷ join_lines (next ∷ lines)

unfoldable pub file_paths : List Attachment → List Text
file_paths [] = []
file_paths (image name media_type bytes path ∷ attachments) = file_paths attachments
file_paths (file path ∷ attachments) = codes path ∷ file_paths attachments

unfoldable pub full_text : Text → List Attachment → Text
unfolding join_lines file_paths
full_text text attachments = elim (file_paths attachments) [
  | [] ↦ text
  | path ∷ paths ↦
      text ++ codes "\n\nAttached files (read them as needed):\n" ++ join_lines (path ∷ paths)
]

unfoldable pub arm_stall_watchdog : ℕ → Turns → Turns
arm_stall_watchdog now t = record t { stall_watch = true; last_sdk_activity_at = now }

-- `!clientMessageId || !this.hasClientMessage(clientMessageId)`; an empty id is no id.
unfoldable pub is_repeated : Option String → Session → Bool
unfolding has_client_message
is_repeated none s = false
is_repeated (some id) s = if str_eq id "" then false else has_client_message id s

abbrev pub kept_id : Option String → Option String
kept_id none = none
kept_id (some id) = if str_eq id "" then none else some id

unfoldable pub push_input : Envelope → Turns → Turns
unfolding push
push_input envelope t = elim t.input [
  | none ↦ t
  | some queue ↦ record t { input = some (push envelope queue) }
]

-- Where `query` is called: it gets a new queue and the number of the launch.
unfoldable pub launched : Turns → Turns
unfolding new_queue
launched t = record t {
  input = some new_queue;
  active_query = some t.launches;
  launches = t.launches + 1;
}

unfoldable pub forget_id : Session → Session
forget_id s = record s { meta = record s.meta { sdk_session_id = none } }

unfoldable pub place : String → Session → Session
place cwd s = record s { cwd_checked = true; effective_cwd = cwd }

unfoldable pub unnamed : Turns → Turns
unfolding stop_status_watch
unnamed t = record (stop_status_watch t) { named_incident = none }

unfoldable pub cleared : Turns → Turns
unfolding clear_persisted_pending
cleared t = clear_persisted_pending (record t { pending = none })

unfoldable pub untimed : Turns → Turns
untimed t = record t { retry_timer = none }

unfoldable pub unarmed : Turns → Turns
unarmed t = record t { stall_watch = false }

module _ (env : Env) (now : ℕ) where
  unfoldable pub choose_directory : Bool → Session → Session
  unfolding append_event place
  choose_directory true s = place s.meta.cwd s
  choose_directory false s =
      append_event env now (status_event s.turns.status (some (folder_missing s.meta.cwd env.home)))
        (place env.home s)

  unfoldable pub working_directory : Session → Session
  unfolding choose_directory when
  working_directory s = when (not s.cwd_checked) (choose_directory (env.is_directory s.meta.cwd)) s

  -- A session of the SDK whose transcript is not found is not resumed.
  unfoldable pub forget_context : Option String → Session → Session
  unfolding tell forget_id when
  forget_context none s = s
  forget_context (some id) s =
      when (not (str_eq id "") && not (env.has_sdk_transcript id))
        (λ u. forget_id (tell env now (context_lost id) u)) s

  unfoldable pub launch_query : Session → Session
  unfolding working_directory launched update_turns forget_context
  launch_query s =
      update_turns launched (working_directory (forget_context s.meta.sdk_session_id s))

  -- `ensureQuery`, by the query that is installed and whether the binary is found.
  unfoldable pub ensure_with : Option ℕ → Bool → Session → Session × Bool
  unfolding tell set_status launch_query
  ensure_with (some query) found s = (s, true)
  ensure_with none true s = (launch_query s, true)
  ensure_with none false s = (set_status env now idle none (tell env now no_claude s), false)

  unfoldable pub ensure_query : Session → Session × Bool
  unfolding ensure_with
  ensure_query s = ensure_with s.turns.active_query env.claude_found s

  -- `sendMessage` from `ensureQuery` on.
  unfoldable pub send_into : Envelope → Session × Bool → Session
  unfolding set_status push_input arm_stall_watchdog update_turns
  send_into envelope (s, false) = s
  send_into envelope (s, true) =
      update_turns (arm_stall_watchdog now)
        (set_status env now running none (update_turns (push_input envelope) s))

  unfoldable pub supersede : Session → Session
  unfolding cancel_pending_retry when
  supersede s =
      when (is_parked s.turns.pending) (cancel_pending_retry env now "superseded by a new message")
        s

  -- The envelope reads `sdkSessionId` behind `ensureQuery`.
  unfoldable pub start_turn : Text → List Attachment → Session → Session
  unfolding ensure_query send_into image_blocks full_text
  start_turn text attachments s =
      let ready = ensure_query s in
      send_into
        (record {
          content = image_blocks attachments ++ text_block (full_text text attachments) ∷ [];
          session_id = or_empty_id ready.0.meta.sdk_session_id;
        })
        ready

  unfoldable pub send_message : Text → List Attachment → Option String → Session → Session × Bool
  unfolding is_repeated append_event supersede start_turn when
  send_message text attachments client_message_id s = (
    when (not (is_repeated client_message_id s))
        (λ u. start_turn text attachments (
          supersede (
            append_event env now
              (user_message text (map label_of attachments) (kept_id client_message_id)) u)))
        s,
    not (is_repeated client_message_id s),
  )

  unfoldable pub retry_turn : Daemon → Option PendingTurn → Session → Session
  unfolding account_activated unnamed cleared update_turns send_message
  retry_turn daemon none s = s
  retry_turn daemon (some turn) s =
      (send_message resume_message [] none (
        update_turns cleared (
          account_activated env now daemon.before_retry "its limit has ended"
            (update_turns unnamed s)))).0

  unfoldable pub run_pending_retry : Daemon → Session → Session
  unfolding retry_turn
  run_pending_retry daemon s = retry_turn daemon s.turns.pending s

  -- The timer of `scheduleRetry` fires.
  unfoldable pub on_retry_timer : Daemon → Session → Session
  unfolding run_pending_retry untimed update_turns
  on_retry_timer daemon s = run_pending_retry daemon (update_turns untimed s)

  -- A tick of the interval of `armStallWatchdog`, by whether a turn runs and has been silent.
  unfoldable pub stall_tick : Bool → Bool → Daemon → Session → Session
  unfolding park_for_limit unarmed update_turns
  stall_tick false silent daemon s = update_turns unarmed s
  stall_tick true false daemon s = s
  stall_tick true true daemon s = park_for_limit env now daemon [] stall (update_turns unarmed s)

  unfoldable pub on_stall_tick : Daemon → Session → Session
  unfolding stall_tick
  on_stall_tick daemon s =
      stall_tick (is_running s.turns.status) (leb stall_ms (now - s.turns.last_sdk_activity_at))
        daemon s
