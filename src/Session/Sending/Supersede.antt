-- ===== src/Session/Sending/Supersede.antt =====
-- A message of the person supersedes the turn that daemon/src/session.ts holds.
use mathlib.Core.Path.{subst}
use claude_persist.Session.Event.{
  Text, Attachment, ChatEvent, user_message, Envelope, SessionStatus, Notice,
}
use claude_persist.Session.State.{Session, Turns, PendingTurn, Env}
use claude_persist.Session.Append.{append_event, set_status, when, update_turns}
use claude_persist.Session.Parking.{
  is_parked, tell, cancel_pending_retry, cancel_turn, cancelled, stop_status_watch,
  clear_persisted_pending,
}
use claude_persist.Session.Sending.{
  choose_directory, working_directory, forget_context, forget_id, place, launch_query, ensure_with,
  ensure_query, launched, send_into, push_input, arm_stall_watchdog, supersede, start_turn,
  send_message, is_repeated, kept_id, label_of,
}
use claude_persist.Prelude.{
  ℕ, ◌≡◌, refl, ◌∙◌, sym, String, Bool, true, false, Option, none, some, List, map, Option-cases,
  inl, inr, ◌⊎◌, Bool-cases,
}

-- What is held for a retry.
pub record RetryState : Type 0 where
  pub pending : Option PendingTurn
  pub saved : Option PendingTurn
  pub retry_timer : Option ℕ
  pub consecutive_retries : ℕ

unfoldable pub retry_state : Turns → RetryState
retry_state t = record {
  pending = t.pending;
  saved = t.saved;
  retry_timer = t.retry_timer;
  consecutive_retries = t.consecutive_retries;
}

abbrev pub nothing_held : RetryState
nothing_held = record { pending = none; saved = none; retry_timer = none; consecutive_retries = 0 }

module _ (env : Env) (now : ℕ) (r : RetryState) where
  record Holds (s : Session) : Type 0 where
    pub state : retry_state s.turns ≡ r

  -- An update that holds and releases no turn.
  abbrev Leaves : (Turns → Turns) → Type 0
  Leaves f = (t : Turns) → retry_state (f t) ≡ retry_state t

  append_event-Holds :
      (event : ChatEvent) (s : Session) → Holds s → Holds (append_event env now event s)
  unfolding append_event
  append_event-Holds event s h = record { state = h.state }

  tell-Holds : (notice : Notice) (s : Session) → Holds s → Holds (tell env now notice s)
  unfolding tell
  tell-Holds notice s h = append_event-Holds _ s h

  update_turns-Holds :
      (f : Turns → Turns) (s : Session) → Leaves f → Holds s → Holds (update_turns f s)
  unfolding update_turns
  update_turns-Holds f s leaves h = record { state = leaves s.turns ∙ h.state }

  when-Holds :
      (b : Bool) (f : Session → Session) (s : Session)
      → (Holds s → Holds (f s))
      → Holds s
      → Holds (when b f s)
  unfolding when
  when-Holds true f s step h = step h
  when-Holds false f s step h = h

  ruleset holds = (append_event-Holds, tell-Holds, update_turns-Holds, when-Holds)

  set_status-Holds :
      (status : SessionStatus) (detail : Option Notice) (s : Session)
      → Holds s
      → Holds (set_status env now status detail s)
  unfolding set_status retry_state
  set_status-Holds status detail s h =
      let same : Leaves (λ t. record t { status = status }) = λ t. refl in search (holds, same)

  place-Holds : (cwd : String) (s : Session) → Holds s → Holds (place cwd s)
  unfolding place
  place-Holds cwd s h = record { state = h.state }

  forget_id-Holds : (s : Session) → Holds s → Holds (forget_id s)
  unfolding forget_id
  forget_id-Holds s h = record { state = h.state }

  launched-Leaves : Leaves launched
  unfolding launched retry_state
  launched-Leaves t = refl

  push-Leaves : (envelope : Envelope) → Leaves (push_input envelope)
  unfolding push_input retry_state
  push-Leaves envelope t = elim (Option-cases t.input) [
    | inl closed ↦ rw closed refl
    | inr (queue, opened) ↦ rw opened refl
  ]

  arm-Leaves : Leaves (arm_stall_watchdog now)
  unfolding arm_stall_watchdog retry_state
  arm-Leaves t = refl

  choose_directory-Holds :
      (found : Bool) (s : Session) → Holds s → Holds (choose_directory env now found s)
  unfolding choose_directory
  choose_directory-Holds true s h = search place-Holds
  choose_directory-Holds false s h = search (holds, place-Holds)

  forget_context-Holds :
      (id : Option String) (s : Session) → Holds s → Holds (forget_context env now id s)
  unfolding forget_context
  forget_context-Holds none s h = h
  forget_context-Holds (some id) s h = search (holds, forget_id-Holds)

  launch_query-Holds : (s : Session) → Holds s → Holds (launch_query env now s)
  unfolding launch_query working_directory
  launch_query-Holds s h =
      search (holds, launched-Leaves, choose_directory-Holds, forget_context-Holds) depth 8

  ensure_with-Holds :
      (query : Option ℕ) (found : Bool) (s : Session)
      → Holds s
      → Holds (ensure_with env now query found s).0
  unfolding ensure_with
  ensure_with-Holds (some query) found s h = h
  ensure_with-Holds none true s h = launch_query-Holds s h
  ensure_with-Holds none false s h = search (holds, set_status-Holds)

  send_into-Holds :
      (envelope : Envelope) (ready : Session × Bool)
      → Holds ready.0
      → Holds (send_into env now envelope ready)
  unfolding send_into
  send_into-Holds envelope (s, false) h = h
  send_into-Holds envelope (s, true) h = search (holds, set_status-Holds, push-Leaves, arm-Leaves)

  start_turn-Holds :
      (text : Text) (attachments : List Attachment) (s : Session)
      → Holds s
      → Holds (start_turn env now text attachments s)
  unfolding start_turn ensure_query
  start_turn-Holds text attachments s h =
      send_into-Holds _ (ensure_query env now s)
        (ensure_with-Holds s.turns.active_query env.claude_found s h)

module _ (env : Env) (now : ℕ) where
  cancel-Holds :
      (turn : PendingTurn) (reason : String) (s : Session)
      → Holds env now nothing_held (cancel_turn env now (some turn) reason s)
  unfolding cancel_turn cancelled stop_status_watch clear_persisted_pending tell append_event
      update_turns retry_state
  cancel-Holds turn reason s = record { state = refl }

  cancel_parked :
      (held : Option PendingTurn) (reason : String) (s : Session)
      → is_parked held ≡ true
      → Holds env now nothing_held (cancel_turn env now held reason s)
  cancel_parked none reason s h = cc
  cancel_parked (some turn) reason s h = cancel-Holds turn reason s

  supersede_parked :
      (s : Session)
      → is_parked s.turns.pending ≡ true
      → Holds env now nothing_held (supersede env now s)
  unfolding supersede cancel_pending_retry when
  supersede_parked s h =
      subst
        (λ b.
          Holds env now nothing_held
            (when b (cancel_pending_retry env now "superseded by a new message") s))
        (sym h) (cancel_parked s.turns.pending "superseded by a new message" s h)

  supersede_free :
      (s : Session)
      → is_parked s.turns.pending ≡ false
      → Holds env now (retry_state s.turns) (supersede env now s)
  unfolding supersede when
  supersede_free s h =
      subst
        (λ b.
          Holds env now (retry_state s.turns)
            (when b (cancel_pending_retry env now "superseded by a new message") s))
        (sym h) (record { state = refl })

-- A message that is no repetition releases the turn that was held: nothing is pending any more, in
-- memory or on disk, no timer runs and the retries are counted anew; with no turn held it leaves
-- all this as it was. A repetition changes nothing at all.
pub send_message-supersedes :
    (env : Env) (now : ℕ) (text : Text) (attachments : List Attachment) (id : Option String)
    (s : Session)
    → let after = (send_message env now text attachments id s).0 in
      ((is_repeated id s ≡ true) × (after ≡ s))
      ⊎ ((is_repeated id s ≡ false)
          × (is_parked s.turns.pending ≡ true)
          × (retry_state after.turns ≡ nothing_held))
      ⊎ ((is_repeated id s ≡ false)
          × (is_parked s.turns.pending ≡ false)
          × (retry_state after.turns ≡ retry_state s.turns))
unfolding send_message append_event when
send_message-supersedes env now text attachments id s =
    let recorded =
      append_event env now (user_message text (map label_of attachments) (kept_id id)) s in
    elim (Bool-cases (is_repeated id s)) [
      | inl repeated ↦ inl (repeated, rw repeated refl)
      | inr new ↦ elim (Bool-cases (is_parked s.turns.pending)) [
        | inl held ↦ inr (
            inl (
              new,
              held,
              rw new (
                  Holds.state (
                    start_turn-Holds env now nothing_held text attachments _
                      (supersede_parked env now recorded held))),
            ))
        | inr free ↦ inr (
            inr (
              new,
              free,
              rw new (
                  Holds.state (
                    start_turn-Holds env now (retry_state s.turns) text attachments _
                      (supersede_free env now recorded free))),
            ))
      ]
    ]
