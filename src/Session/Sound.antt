-- ===== src/Session/Sound.antt =====
-- Two invariants of every handler of daemon/src/session.ts: the pending turn is the one in its
-- file, and the transcript only grows, by events that are numbered with its count.
pub mod Parked
pub mod Sent
pub mod Handled
pub mod Acted
pub mod History
use claude_persist.Session.Event.{SessionStatus, ChatEvent, PersistedEvent, Notice}
use claude_persist.Session.State.{Session, Turns, Env}
use claude_persist.Session.Append.{append_event, set_status, same_status, update_turns, when}
use claude_persist.Session.Transcript.{Transcript, append_persisted}
use mathlib.Core.List.{append_assoc}
use claude_persist.Prelude.{
  ℕ, ◌≡◌, refl, ap, ◌∙◌, [], ◌∷◌, ◌++◌, Bool, true, false, not, Option, List,
}

-- The last transcript comes from the first one by appending the events, which are numbered by its
-- count, and closing the log.
pub data Grown (print : PersistedEvent → List ℕ) (t : Transcript PersistedEvent)
    : List PersistedEvent → Transcript PersistedEvent → Type 0 where
  start : Grown print t [] t
  appended :
      {more : List PersistedEvent} {u : Transcript PersistedEvent} (renames : Bool)
      (e : PersistedEvent)
      → e.seq ≡ u.total_count
      → Grown print t more u
      → Grown print t (more ++ e ∷ []) (append_persisted print renames e u)
  log_closed :
      {more : List PersistedEvent} {u : Transcript PersistedEvent}
      → Grown print t more u
      → Grown print t more (record u { log_open = false })

-- `t` is the session at the start.
module _ (env : Env) (t : Session) where
  pub record IsSound (s : Session) : Type 0 where
    pub kept : s.turns.pending ≡ s.turns.saved
    pub more : List PersistedEvent
    pub told : s.broadcast ≡ t.broadcast ++ more
    pub grown : Grown env.print t.transcript more s.transcript

  -- An update that keeps the pending turn and its file the same, if they are.
  abbrev pub Keeps : (Turns → Turns) → Type 0
  Keeps f = (u : Turns) → u.pending ≡ u.saved → (f u).pending ≡ (f u).saved

  pub append_event-IsSound :
      (now : ℕ) (event : ChatEvent) (s : Session)
      → IsSound s
      → IsSound (append_event env now event s)
  unfolding append_event
  append_event-IsSound now event s h =
      let e : PersistedEvent = record { seq = s.transcript.total_count; ts = now; event = event } in
      record {
        kept = h.kept;
        more = h.more ++ e ∷ [];
        told = ap (λ es. es ++ e ∷ []) h.told ∙ append_assoc t.broadcast h.more (e ∷ []);
        grown = appended _ e refl h.grown;
      }

  pub update_turns-IsSound :
      (f : Turns → Turns) (s : Session) → Keeps f → IsSound s → IsSound (update_turns f s)
  unfolding update_turns
  update_turns-IsSound f s keeps h = record {
    kept = keeps s.turns h.kept;
    more = h.more;
    told = h.told;
    grown = h.grown;
  }

  pub when-IsSound :
      (b : Bool) (f : Session → Session) (s : Session)
      → (IsSound s → IsSound (f s))
      → IsSound s
      → IsSound (when b f s)
  unfolding when
  when-IsSound true f s step h = step h
  when-IsSound false f s step h = h

  pub set_status-IsSound :
      (now : ℕ) (status : SessionStatus) (detail : Option Notice) (s : Session)
      → IsSound s
      → IsSound (set_status env now status detail s)
  unfolding set_status
  set_status-IsSound now status detail s h =
      let same : Keeps (λ u. record u { status = status }) = λ u e. e in
      search (when-IsSound, append_event-IsSound, update_turns-IsSound, same)

pub ruleset sound = (append_event-IsSound, update_turns-IsSound, when-IsSound, set_status-IsSound)
