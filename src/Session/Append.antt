-- ===== src/Session/Append.antt =====
-- Recording events in daemon/src/session.ts: `appendEvent` with what it does to the metadata,
-- `setStatus`, `hasClientMessage` and `busy`.
use claude_persist.LogStore.{is_space}
use claude_persist.Limits.{trim}
use claude_persist.Agents.{active_agents, agent_active_ms}
use claude_persist.Session.Event.{
  Text, codes, SessionStatus, idle, running, error, Notice, AttachmentRef, image_ref, file_ref,
  ChatEvent, user_message, status_event, PersistedEvent,
}
use claude_persist.Session.State.{Session, SessionMeta, Turns, Env}
use claude_persist.Session.Transcript.{append_persisted}
use claude_persist.Prelude.{
  ℕ, ◌+◌, ◌-◌, String, Bool, true, false, not, ◌&&◌, ◌||◌, Option, none, some, List, [], ◌∷◌, ◌++◌,
  length, any, ◌==◌, ltb, str_eq, if◌then◌else◌,
}

abbrev pub or_zero : Option ℕ → ℕ
or_zero none = 0
or_zero (some n) = n

-- `/^\/(?:new|clear)(?:\s|$)/` behind the slash.
abbrev ends_word : Text → Bool
ends_word [] = true
ends_word (c ∷ cs) = is_space c

unfoldable pub after_word : Text → Text → Bool
unfolding is_space
after_word [] text = ends_word text
after_word (w ∷ word) [] = false
after_word (w ∷ word) (c ∷ text) =
    let later = after_word word text in if w == c then later else false

abbrev new_command : Text
new_command = codes "/new"

abbrev clear_command : Text
clear_command = codes "/clear"

unfoldable pub clears_history : Text → Bool
unfolding after_word trim
clears_history text = after_word new_command (trim text) || after_word clear_command (trim text)

unfoldable pub image_total : List AttachmentRef → ℕ
image_total [] = 0
image_total (image_ref label path media_type ∷ refs) = image_total refs + 1
image_total (file_ref path ∷ refs) = image_total refs

abbrev count_images : List AttachmentRef → SessionMeta → SessionMeta
count_images attachments meta =
    let images = image_total attachments in
    if ltb 0 images
    then record meta { image_count = some (or_zero meta.image_count + images) }
    else meta

abbrev forget_name : ℕ → Text → SessionMeta → SessionMeta
forget_name total_count text meta =
    if clears_history text
    then record meta {
      cleared_at = some total_count;
      titled_at = none;
      past_titles = none;
      pending_title = none;
    }
    else meta

-- The first part of `appendEvent`.
unfoldable pub note_event : ℕ → ChatEvent → SessionMeta → SessionMeta
unfolding image_total clears_history
note_event total_count (user_message text attachments client_message_id) meta =
    forget_name total_count text (count_images attachments meta)
note_event total_count _ meta = meta

unfoldable pub has_id : String → ChatEvent → Bool
has_id id (user_message text attachments (some client_message_id)) = str_eq client_message_id id
has_id id _ = false

unfoldable pub has_client_message : String → Session → Bool
unfolding has_id
has_client_message id s = any (λ p. has_id id p.event) s.transcript.tail

abbrev pub is_running : SessionStatus → Bool
is_running status = elim status [ running ↦ true | _ ↦ false ]

abbrev pub same_status : SessionStatus → SessionStatus → Bool
same_status idle idle = true
same_status running running = true
same_status error error = true
same_status _ _ = false

unfoldable pub busy : ℕ → Session → Bool
unfolding active_agents
busy now s =
    is_running s.turns.status
    || ltb 0 (length (active_agents s.agents now))
    || (ltb 0 s.turns.last_sdk_activity_at
        && ltb (now - s.turns.last_sdk_activity_at) agent_active_ms)

-- `if (b) …`
unfoldable pub when {ℓ} : {A : Type ℓ} → Bool → (A → A) → A → A
when true f x = f x
when false f x = x

unfoldable pub update_turns : (Turns → Turns) → Session → Session
update_turns f s = record s { turns = f s.turns }

module _ (env : Env) (now : ℕ) where
  unfoldable pub append_event : ChatEvent → Session → Session
  unfolding note_event append_persisted
  append_event event s =
      let persisted : PersistedEvent = record {
        seq = s.transcript.total_count;
        ts = now;
        event = event;
      } in
      record s {
        meta = note_event s.transcript.total_count event s.meta;
        transcript =
            append_persisted env.print (env.renames s.transcript.total_count) persisted
              s.transcript;
        broadcast = s.broadcast ++ persisted ∷ [];
      }

  unfoldable pub set_status : SessionStatus → Option Notice → Session → Session
  unfolding append_event when update_turns
  set_status status detail s =
      when (not (same_status s.turns.status status))
        (λ u.
          append_event (status_event status detail)
            (update_turns (λ t. record t { status = status }) u))
        s
