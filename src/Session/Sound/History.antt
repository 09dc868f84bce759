-- ===== src/Session/Sound/History.antt =====
-- What the invariants of the handlers of daemon/src/session.ts say of a run: its history on disk
-- and in memory, and its pending turn.
use mathlib.Core.List.{append_assoc, append-nil}
use claude_persist.LogStore.{parse_line}
use claude_persist.Session.Event.{PersistedEvent}
use claude_persist.Session.State.{Session, Env}
use claude_persist.Session.Actions.{Action, act_all}
use claude_persist.Session.Sound.{Grown, start, appended, log_closed}
use claude_persist.Session.Sound.Acted.{act_all-IsSound}
use claude_persist.Session.Transcript.{Transcript}
use claude_persist.Session.Transcript.Consistent.{
  NoNewline, IsConsistent, append_persisted-IsConsistent,
}
use claude_persist.Prelude.{
  All, All-append, ℕ, ◌+◌, ◌≡◌, sym, ◌∙◌, true, some, List, [], ◌∷◌, ◌++◌, length, arith,
}

-- The events are numbered one after the other.
abbrev pub Numbered : ℕ → List PersistedEvent → Type 0
Numbered n [] = Unit
Numbered n (e ∷ es) = (e.seq ≡ n) × Numbered (n + 1) es

Numbered-snoc :
    (n : ℕ) (es : List PersistedEvent) (e : PersistedEvent)
    → Numbered n es
    → e.seq ≡ n + length es
    → Numbered n (es ++ e ∷ [])
Numbered-snoc n [] e h last = (omega (arith, last), tt)
Numbered-snoc n (x ∷ es) e h last = (h.0, Numbered-snoc (n + 1) es e h.1 (omega (arith, last)))

append_left_cancel {ℓ} : {A : Type ℓ} (xs : List A) {ys zs : List A} → xs ++ ys ≡ xs ++ zs → ys ≡ zs
append_left_cancel [] e = e
append_left_cancel (x ∷ xs) e = append_left_cancel xs (cc)

-- The event is printed as one line, which parses back.
abbrev pub Printable : Env → PersistedEvent → Type 0
Printable env e =
    NoNewline (env.print e) × (parse_line env.json (env.decode (env.print e)) ≡ some e)

Grown-IsConsistent :
    (env : Env) (t : Transcript PersistedEvent) (history : List PersistedEvent)
    → IsConsistent env.json env.decode history t
    → Numbered 0 history
    → {more : List PersistedEvent} {u : Transcript PersistedEvent} → Grown env.print t more u
    → All (Printable env) more
    → IsConsistent env.json env.decode (history ++ more) u × Numbered 0 (history ++ more)
Grown-IsConsistent env t history h n start printable = (rw append-nil h, rw append-nil n)
Grown-IsConsistent env t history h n (appended {more = before} {u = v} renames e numbered g)
      printable =
    let (earlier, ((one_line, parses), _)) =
      (All-append (Printable env) before (e ∷ [])).0 printable in
    let (consistent, in_order) = Grown-IsConsistent env t history h n g earlier in
    let line = append_assoc history before (e ∷ []) in
    (
      rw⁻¹ line (
          append_persisted-IsConsistent env.json env.decode env.print renames (history ++ before) v
            e one_line parses consistent),
      rw⁻¹ line (
          Numbered-snoc 0 (history ++ before) e in_order
            (omega (arith, numbered, consistent.counted))),
    )
Grown-IsConsistent env t history h n (log_closed g) printable =
    let (consistent, numbered) = Grown-IsConsistent env t history h n g printable in
    (
      record {
        stored = consistent.stored;
        counted = consistent.counted;
        resident = consistent.resident;
        active = consistent.active;
        whole = consistent.whole;
      },
      numbered,
    )

-- Whatever happens to a session, in any order: if its pending turn is the one in its file, and its
-- transcript is the same in memory and on disk and numbered from 0, then all this holds
-- afterwards, and the history has grown by exactly the events that the clients have been sent. It
-- asks that the pending file can be written and that each of those events is printed as one line
-- that parses back.
pub act_all-IsConsistent :
    (env : Env) (history sent : List PersistedEvent) (actions : List (ℕ × Action)) (s : Session)
    → env.can_write ≡ true
    → s.turns.pending ≡ s.turns.saved
    → IsConsistent env.json env.decode history s.transcript
    → Numbered 0 history
    → (act_all env actions s).broadcast ≡ s.broadcast ++ sent
    → All (Printable env) sent
    → ((act_all env actions s).turns.pending ≡ (act_all env actions s).turns.saved)
      × IsConsistent env.json env.decode (history ++ sent) (act_all env actions s).transcript
      × Numbered 0 (history ++ sent)
act_all-IsConsistent env history sent actions s writes e h n told printable =
    let after =
      act_all-IsSound env s actions s writes
        (record { kept = e; more = []; told = sym (append-nil s.broadcast); grown = start }) in
    let same : after.more ≡ sent = append_left_cancel s.broadcast (sym after.told ∙ told) in
    let (consistent, numbered) =
      Grown-IsConsistent env s.transcript history h n after.grown (rw same printable) in
    (after.kept, rw⁻¹ same consistent, rw⁻¹ same numbered)
