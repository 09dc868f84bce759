-- ===== src/Coalesce.antt =====
-- daemon/src/coalesce.ts: the streamed text of a chat, gathered over a short window. What is sent
-- is a list of messages; the timer is whether a window is open.
mod Order
mod Shown
mod Tests
use claude_persist.JsMap.{JsMap, get, set, delete}
use claude_persist.Prelude.{
  String, Bool, true, false, Option, none, some, List, [], ◌∷◌, ◌++◌, str_eq, if◌then◌else◌,
}
use Prim.Native.String.{◌++◌ as text_append}

-- `body` is all that a message of another kind carries.
pub record Message : Type 0 where
  pub kind : String
  pub session_id : Option String
  pub text : Option String
  pub body : Option String

pub record Sender : Type 0 where
  pub gathered : JsMap String
  pub timer : Bool

abbrev pub delta_of : String → String → Message
delta_of session_id text = record {
  kind = "delta";
  session_id = some session_id;
  text = some text;
  body = none;
}

-- The chat and the text, where the chat's name is not empty.
abbrev pub named_text : Option String → Option String → Option (String × String)
named_text none text = none
named_text (some id) none = none
named_text (some id) (some text) = if str_eq id "" then none else some (id, text)

-- The test of `send`.
unfoldable pub delta_parts : Message → Option (String × String)
delta_parts m = if str_eq m.kind "delta" then named_text m.session_id m.text else none

unfoldable pub flushed : JsMap String → List Message
flushed [] = []
flushed ((id, text) ∷ m) = delta_of id text ∷ flushed m

abbrev pub ticked : JsMap String → List Message × Sender
ticked [] = ([], record { gathered = []; timer = false })
ticked (entry ∷ m) = (flushed (entry ∷ m), record { gathered = []; timer = true })

unfoldable pub tick : Sender → List Message × Sender
unfolding flushed
tick s = ticked s.gathered

abbrev pub text_or_empty : Option String → String
text_or_empty none = ""
text_or_empty (some text) = text

abbrev pub gather : String → String → JsMap String → JsMap String
gather id text m = set id (text_append (text_or_empty (get id m)) text) m

-- A delta, by whether a window is open.
abbrev pub send_delta : Message → String → String → JsMap String → Bool → List Message × Sender
send_delta m id text texts false = (m ∷ [], record { gathered = texts; timer = true })
send_delta m id text texts true = ([], record { gathered = gather id text texts; timer = true })

-- Another message of a chat, by the text gathered for the chat.
abbrev pub send_after : Message → String → Sender → Option String → List Message × Sender
send_after m id s none = (m ∷ [], s)
send_after m id s (some text) =
    (delta_of id text ∷ m ∷ [], record s { gathered = delete id s.gathered })

abbrev pub send_other : Message → Sender → Option String → List Message × Sender
send_other m s none = (m ∷ [], s)
send_other m s (some id) = send_after m id s (get id s.gathered)

abbrev pub send_by : Message → Sender → Option (String × String) → List Message × Sender
send_by m s none = send_other m s m.session_id
send_by m s (some (id, text)) = send_delta m id text s.gathered s.timer

unfoldable pub send : Message → Sender → List Message × Sender
unfolding delta_parts get set delete
send m s = send_by m s (delta_parts m)

abbrev close_sender : Sender → Sender
close_sender s = record { gathered = []; timer = false }

-- A message to send, or the end of the window.
pub data Call : Type 0 where
  message : Message → Call
  window_closed : Call

unfoldable pub call : Call → Sender → List Message × Sender
unfolding send tick
call (message m) s = send m s
call window_closed s = tick s

unfoldable pub run : List Call → Sender → List Message × Sender
unfolding call
run [] s = ([], s)
run (c ∷ calls) s =
    let (sent, next) = call c s in let (later, last) = run calls next in (sent ++ later, last)
