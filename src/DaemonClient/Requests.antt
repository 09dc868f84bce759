-- ===== src/DaemonClient/Requests.antt =====
-- extension/src/daemonClient.ts: the requests that wait for an answer, and the lines of the socket.
-- Decoding a chunk and parsing a line are arguments; a result and an error are texts.
mod Once
mod Lines
mod Tests
use claude_persist.Ids.{in_ids, without}
use claude_persist.Limits.{trim}
use claude_persist.LogStore.{cut_line}
use claude_persist.Texts.{Text, is_empty}
use claude_persist.Prelude.{
  ℕ, zero, suc, Bool, true, false, not, ◌||◌, Option, none, some, List, [], ◌∷◌, ◌++◌, length,
  keep_if, any, ◌==◌, if◌then◌else◌,
}

pub data Settlement : Type 0 where
  resolved : Text → Settlement
  rejected : Text → Settlement
  timed_out : Settlement
  connection_lost : Settlement

-- A response with its id, or one of the pushes.
pub data Incoming : Type 0 where
  answered : ℕ → Text → Incoming
  refused : ℕ → Text → Incoming
  push : Text → Incoming

-- A socket has a number; `destroyed` is of the one that is in use, and `sent_on` is the socket that a
-- request has in its closure. `settled` has the callbacks that were called, newest first, and `told`
-- what the handler was told.
pub record Requests : Type 0 where
  pub socket : Option ℕ
  pub destroyed : Bool
  pub next_id : ℕ
  pub pending : List ℕ
  pub sent_on : ℕ → ℕ
  pub settled : List (ℕ × Settlement)
  pub told : List Text
  pub disconnects : ℕ

-- `pending.delete` with the call of the callback, if it is there.
unfoldable pub settle_request : ℕ → Settlement → Requests → Requests
settle_request id how s =
    if in_ids id s.pending
    then record s { pending = without id s.pending; settled = (id, how) ∷ s.settled }
    else s

-- A request; without a socket it is rejected at once, and no number is given.
unfoldable pub request : Requests → Requests
request s = elim s.socket [
  | none ↦ s
  | some n ↦ if s.destroyed then s else record s {
    next_id = suc s.next_id;
    pending = s.pending ++ s.next_id ∷ [];
    sent_on = λ id. if id == s.next_id then n else s.sent_on id;
  }
]

unfoldable pub dispatch : Incoming → Requests → Requests
dispatch (answered id result) s = settle_request id (resolved result) s
dispatch (refused id error) s = settle_request id (rejected error) s
dispatch (push what) s = record s { told = what ∷ s.told }

abbrev is_socket : ℕ → Option ℕ → Bool
is_socket n none = false
is_socket n (some m) = m == n

-- `socket.destroy()`; that of another socket than the one in use changes nothing here.
abbrev pub destroy_socket : ℕ → Requests → Requests
destroy_socket n s = record s { destroyed = s.destroyed || is_socket n s.socket }

-- The timer of a request, which is cleared where the request is settled. It destroys the socket that
-- the request was sent on.
unfoldable pub time_out : ℕ → Requests → Requests
time_out id s =
    if in_ids id s.pending then destroy_socket (s.sent_on id) (settle_request id timed_out s) else s

abbrev pub lose : List ℕ → List (ℕ × Settlement) → List (ℕ × Settlement)
lose [] settled = settled
lose (id ∷ ids) settled = lose ids ((id, connection_lost) ∷ settled)

abbrev reject_all : Requests → Requests
reject_all s = record s {
  socket = none;
  pending = [];
  settled = lose s.pending s.settled;
  disconnects = suc s.disconnects;
}

-- `onGone` of the socket with a number.
unfoldable pub on_gone : ℕ → Requests → Requests
on_gone n s = elim s.socket [ none ↦ s | some m ↦ if m == n then reject_all s else s ]

unfoldable pub on_connect : ℕ → Requests → Requests
on_connect n s = record s { socket = some n; destroyed = false }

-- The field is cleared before the socket is destroyed.
unfoldable pub drop_current : Requests → Requests
drop_current s = record s { socket = none }

-- A line that is blank, or does not parse, is ignored.
unfoldable pub on_line : (Text → Option Incoming) → Text → Requests → Requests
on_line parse line s =
    if is_empty (trim line) then s else elim (parse line) [ none ↦ s | some m ↦ dispatch m s ]

-- The lines of the buffer, in turn, and what is left; a line has a newline behind it, so the length
-- is enough fuel.
module _ {ℓ} {S : Type ℓ} (handle : Text → S → S) where
  unfoldable pub take_lines : ℕ → Text → S → S × Text
  unfolding cut_line
  take_lines zero buffer s = (s, buffer)
  take_lines (suc fuel) buffer s = elim (cut_line buffer) [
    | none ↦ (s, buffer)
    | some (line, rest) ↦ take_lines fuel rest (handle line s)
  ]

  unfoldable pub on_data : (List ℕ → Text) → List ℕ → S × Text → S × Text
  unfolding take_lines
  on_data decode chunk (s, buffer) =
      let text : Text = buffer ++ decode chunk in take_lines (length text) text s

-- What can happen to the client.
pub data Act : Type 0 where
  asks : Act
  reads : Text → Act
  times_out : ℕ → Act
  goes : ℕ → Act
  connects : ℕ → Act
  drops : Act

module _ (parse : Text → Option Incoming) where
  unfoldable pub act : Act → Requests → Requests
  act asks s = request s
  act (reads line) s = on_line parse line s
  act (times_out id) s = time_out id s
  act (goes n) s = on_gone n s
  act (connects n) s = on_connect n s
  act drops s = drop_current s

  unfoldable pub act_all : List Act → Requests → Requests
  act_all [] s = s
  act_all (a ∷ rest) s = act_all rest (act a s)

abbrev pub no_requests : Requests
no_requests = record {
  socket = none;
  destroyed = false;
  next_id = 1;
  pending = [];
  sent_on = λ id. 0;
  settled = [];
  told = [];
  disconnects = 0;
}
