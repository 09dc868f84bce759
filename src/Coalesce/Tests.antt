-- ===== src/Coalesce/Tests.antt =====
-- Two chats that stream, of which one ends its turn inside the window.
use claude_persist.Coalesce.{
  Message, Sender, Call, delta_of, delta_parts, flushed, tick, send, call, run,
}
use claude_persist.Coalesce.Order.{received, IsOrdered, run-shown}
use claude_persist.Coalesce.Shown.{shown_all, waiting, IsDistinct}
use claude_persist.JsMap.{get, set, delete}
use claude_persist.Prelude.{List, ◌≡◌, refl, ◌++◌, true, false, none, some, [], ◌∷◌, inr}

abbrev turn_ended : Message
turn_ended = record { kind = "event"; session_id = some "a"; text = none; body = some "result" }

abbrev idle : Sender
idle = record { gathered = []; timer = false }

abbrev streaming : List Call
streaming =
    Call.message (delta_of "a" "He")
    ∷ Call.message (delta_of "a" "ll")
    ∷ Call.message (delta_of "b" "x")
    ∷ Call.message (delta_of "a" "o")
    ∷ Call.message turn_ended
    ∷ Call.window_closed
    ∷ Call.message (delta_of "b" "y")
    ∷ []

streaming_sent : run streaming idle ≡ (
  delta_of "a" "He" ∷ delta_of "a" "llo" ∷ turn_ended ∷ delta_of "b" "x" ∷ [],
  record { gathered = ("b", "y") ∷ []; timer = true },
)
unfolding run call send tick delta_parts get set delete flushed
streaming_sent = refl

idle-IsOrdered : IsOrdered idle
unfolding IsDistinct
idle-IsOrdered = record { distinct = tt; window = inr refl }

run-shown_example :
    shown_all "a" (run streaming idle).0 ++ waiting "a" (run streaming idle).1.gathered
    ≡ waiting "a" [] ++ shown_all "a" (received streaming)
run-shown_example = run-shown "a" streaming idle idle-IsOrdered
