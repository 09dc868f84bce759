-- ===== src/DaemonClient/Requests/Tests.antt =====
-- Two requests, whose answers arrive in three chunks, and one that times out.
use claude_persist.DaemonClient.Requests.{
  Incoming, answered, refused, settle_request, request, dispatch, time_out, on_gone, on_connect,
  on_line, on_data, Act, asks, reads, times_out, goes, connects, act, act_all, no_requests,
  timed_out, rejected,
}
use claude_persist.DaemonClient.Requests.Once.{IsLedger, requests-IsLedger}
use claude_persist.DaemonClient.Requests.Lines.{
  lines_in, rest_in, run, receive_all, said, receive_all-run,
}
use claude_persist.Limits.{trim}
use claude_persist.Texts.{Text, codes, text_eq}
use claude_persist.Prelude.{ℕ, Option, none, some, List, [], ◌∷◌, ◌≡◌, refl, if◌then◌else◌}

-- `a` answers the first request, `b` refuses the second.
abbrev parse : Text → Option Incoming
parse line =
    if text_eq line (codes "a")
    then some (answered 1 line)
    else if text_eq line (codes "b")
    then some (refused 2 line)
    else none

abbrev acts : List Act
acts =
    asks
    ∷ connects 1
    ∷ asks
    ∷ asks
    ∷ reads (codes "b")
    ∷ reads (codes "b")
    ∷ times_out 1
    ∷ asks
    ∷ goes 1
    ∷ []

settled_once :
    (act_all parse acts no_requests).settled ≡ (1, timed_out) ∷ (2, rejected (codes "b")) ∷ []
unfolding act_all act on_gone request time_out on_line trim text_eq dispatch settle_request
    on_connect
settled_once = refl

requests-IsLedger_example : IsLedger (act_all parse acts no_requests)
requests-IsLedger_example = requests-IsLedger parse acts

abbrev as_text : List ℕ → Text
as_text bytes = bytes

-- A handler that keeps the lines, newest first.
abbrev keep : Text → List Text → List Text
keep line lines = line ∷ lines

abbrev chunks : List (List ℕ)
chunks = (b'a' ∷ []) ∷ (b'b' ∷ 0x0a ∷ b'c' ∷ 0x0a ∷ b'd' ∷ []) ∷ (b'e' ∷ []) ∷ []

three_chunks : receive_all keep as_text chunks ([], []) ≡ (codes "c" ∷ codes "ab" ∷ [], codes "de")
unfolding on_data
three_chunks = refl

receive_all-run_example :
    receive_all keep as_text chunks ([], [])
    ≡ (run keep (lines_in [] (said keep as_text chunks)) [], rest_in [] (said keep as_text chunks))
receive_all-run_example = receive_all-run keep as_text chunks []
