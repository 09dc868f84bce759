-- ===== src/Coalesce/Order.antt =====
-- daemon/src/coalesce.ts: the order of what a chat shows, over any calls.
use claude_persist.Coalesce.{
  Message, Sender, Call, delta_of, delta_parts, ticked, tick, text_or_empty, send_delta, send_after,
  send_other, send_by, send, call, run,
}
use claude_persist.Coalesce.Shown.{
  Shown, characters, shown, shown_all, waiting_of, waiting, IsDistinct, shown_all-append,
  set-IsDistinct, delete-IsDistinct, none_here, flushed-shown, waiting-gather, waiting-delete,
  delta-shown,
}
use claude_persist.JsMap.{JsMap, get, delete}
use claude_persist.Prelude.{
  String, Bool, true, false, Option, none, some, List, [], ◌∷◌, ◌++◌, str_eq, eq_iff, if◌then◌else◌,
  ◌≡◌, refl, sym, ap, ◌∙◌, arith, ◌⊎◌, inl, inr, Bool-cases,
}
use Prim.Native.String.{◌++◌ as text_append}
use mathlib.Core.Path.{subst}
use mathlib.Core.List.{append-nil, append_assoc}

-- The messages of the calls.
unfoldable pub received : List Call → List Message
received [] = []
received (Call.message m ∷ calls) = m ∷ received calls
received (Call.window_closed ∷ calls) = received calls

-- Text waits only while a window is open, one text for a chat.
pub record IsOrdered (s : Sender) : Type 0 where
  pub distinct : IsDistinct s.gathered
  pub window : (s.timer ≡ true) ⊎ (s.gathered ≡ [])

delete-empty : (id : String) (texts : JsMap String) → texts ≡ [] → delete id texts ≡ []
unfolding delete
delete-empty id texts e = ap (delete id) e

send_delta-IsOrdered :
    (m : Message) (id text : String) (s : Sender) (b : Bool)
    → IsDistinct s.gathered
    → IsOrdered (send_delta m id text s.gathered b).1
send_delta-IsOrdered m id text s false h = record { distinct = h; window = inl refl }
send_delta-IsOrdered m id text s true h = record {
  distinct = set-IsDistinct id (text_append (text_or_empty (get id s.gathered)) text) s.gathered h;
  window = inl refl;
}

send_after-IsOrdered :
    (m : Message) (id : String) (s : Sender) (o : Option String)
    → IsOrdered s
    → IsOrdered (send_after m id s o).1
send_after-IsOrdered m id s none h = h
send_after-IsOrdered m id s (some text) h = record {
  distinct = delete-IsDistinct id s.gathered h.distinct;
  window = elim h.window [ inl e ↦ inl e | inr e ↦ inr (delete-empty id s.gathered e) ];
}

send_other-IsOrdered :
    (m : Message) (s : Sender) (o : Option String) → IsOrdered s → IsOrdered (send_other m s o).1
send_other-IsOrdered m s none h = h
send_other-IsOrdered m s (some id) h = send_after-IsOrdered m id s (get id s.gathered) h

send_by-IsOrdered :
    (m : Message) (s : Sender) (p : Option (String × String))
    → IsOrdered s
    → IsOrdered (send_by m s p).1
send_by-IsOrdered m s none h = send_other-IsOrdered m s m.session_id h
send_by-IsOrdered m s (some (id, text)) h = send_delta-IsOrdered m id text s s.timer h.distinct

ticked-IsOrdered : (texts : JsMap String) → IsOrdered (ticked texts).1
unfolding IsDistinct
ticked-IsOrdered [] = record { distinct = tt; window = inr refl }
ticked-IsOrdered (entry ∷ texts) = record { distinct = tt; window = inl refl }

pub call-IsOrdered : (c : Call) (s : Sender) → IsOrdered s → IsOrdered (call c s).1
unfolding call send tick
call-IsOrdered (Call.message m) s h = send_by-IsOrdered m s (delta_parts m) h
call-IsOrdered Call.window_closed s h = ticked-IsOrdered s.gathered

waits_alone : (a b : List Shown) → (a ≡ []) ⊎ (b ≡ []) → (a ++ []) ++ b ≡ b ++ a
waits_alone a b (inl e) = ap (λ l. (l ++ []) ++ b) e ∙ sym (append-nil b) ∙ ap (λ l. b ++ l) (sym e)
waits_alone a b (inr e) =
    ap (λ l. (a ++ []) ++ l) e ∙ append-nil (a ++ []) ∙ append-nil a ∙ ap (λ l. l ++ a) (sym e)

closed-empty :
    (chat : String) (s : Sender) → s.timer ≡ false → IsOrdered s → waiting chat s.gathered ≡ []
unfolding waiting get
closed-empty chat s closed h = elim h.window [ inl e ↦ ground arith | inr e ↦ ap (waiting chat) e ]

elsewhere :
    (chat id : String) (m : Message)
    → m.session_id ≡ some id
    → str_eq id chat ≡ false
    → shown chat m ≡ []
unfolding shown
elsewhere chat id m named e = rw (named, e)

nowhere : (chat : String) (m : Message) → m.session_id ≡ none → shown chat m ≡ []
unfolding shown
nowhere chat m e = rw e

send_delta-shown :
    (chat : String) (m : Message) (id text : String) (s : Sender) (b : Bool)
    → s.timer ≡ b
    → IsOrdered s
    → shown chat m ≡ (if str_eq id chat then characters text else [])
    → shown_all chat (send_delta m id text s.gathered b).0
        ++ waiting chat (send_delta m id text s.gathered b).1.gathered
      ≡ waiting chat s.gathered ++ shown chat m
unfolding shown_all
send_delta-shown chat m id text s false closed h e =
    waits_alone (shown chat m) (waiting chat s.gathered) (inr (closed-empty chat s closed h))
send_delta-shown chat m id text s true closed h e =
    waiting-gather chat id text s.gathered ∙ ap (λ l. waiting chat s.gathered ++ l) (sym e)

delta_here :
    (chat id text : String)
    → str_eq id chat ≡ true
    → shown chat (delta_of id text) ≡ characters text
unfolding shown
delta_here chat id text e = rw e

waiting_here :
    (chat id text : String) (texts : JsMap String)
    → str_eq id chat ≡ true
    → get id texts ≡ some text
    → waiting chat texts ≡ characters text
unfolding waiting
waiting_here chat id text texts same e =
    ap waiting_of (subst (λ k. get k texts ≡ some text) ((eq_iff id chat).0 same) e)

send_after-shown :
    (chat : String) (m : Message) (id : String) (s : Sender) (o : Option String)
    → get id s.gathered ≡ o
    → m.session_id ≡ some id
    → shown_all chat (send_after m id s o).0 ++ waiting chat (send_after m id s o).1.gathered
      ≡ waiting chat s.gathered ++ shown chat m
unfolding shown_all
send_after-shown chat m id s none e named =
    waits_alone (shown chat m) (waiting chat s.gathered) (elim (Bool-cases (str_eq id chat)) [
      | inl same ↦ inr (none_here chat id s.gathered same e)
      | inr other ↦ inl (elsewhere chat id m named other)
    ])
send_after-shown chat m id s (some text) e named = elim (Bool-cases (str_eq id chat)) [
  | inl same ↦
      rw
        (
          waiting-delete chat id s.gathered,
          delta_here chat id text same,
          waiting_here chat id text s.gathered same e,
          same,
        )
        (append-nil (characters text ++ (shown chat m ++ []))
          ∙ ap (λ l. characters text ++ l) (append-nil (shown chat m)))
  | inr other ↦
      rw (waiting-delete chat id s.gathered, elsewhere chat id (delta_of id text) refl other, other)
        (waits_alone (shown chat m) (waiting chat s.gathered)
          (inl (elsewhere chat id m named other)))
]

send_other-shown :
    (chat : String) (m : Message) (s : Sender) (o : Option String)
    → m.session_id ≡ o
    → shown_all chat (send_other m s o).0 ++ waiting chat (send_other m s o).1.gathered
      ≡ waiting chat s.gathered ++ shown chat m
unfolding shown_all
send_other-shown chat m s none e =
    waits_alone (shown chat m) (waiting chat s.gathered) (inl (nowhere chat m e))
send_other-shown chat m s (some id) e = send_after-shown chat m id s (get id s.gathered) refl e

send_by-shown :
    (chat : String) (m : Message) (s : Sender) (p : Option (String × String))
    → delta_parts m ≡ p
    → IsOrdered s
    → shown_all chat (send_by m s p).0 ++ waiting chat (send_by m s p).1.gathered
      ≡ waiting chat s.gathered ++ shown chat m
send_by-shown chat m s none e h = send_other-shown chat m s m.session_id refl
send_by-shown chat m s (some (id, text)) e h =
    send_delta-shown chat m id text s s.timer refl h (delta-shown chat id text m e)

ticked-shown :
    (chat : String) (texts : JsMap String)
    → IsDistinct texts
    → shown_all chat (ticked texts).0 ++ waiting chat (ticked texts).1.gathered
      ≡ waiting chat texts ++ []
unfolding shown_all waiting get
ticked-shown chat [] h = refl
ticked-shown chat (entry ∷ texts) h = ap (λ l. l ++ []) (flushed-shown chat (entry ∷ texts) h)

call-shown :
    (chat : String) (c : Call) (s : Sender)
    → IsOrdered s
    → shown_all chat (call c s).0 ++ waiting chat (call c s).1.gathered
      ≡ waiting chat s.gathered ++ shown_all chat (received (c ∷ []))
unfolding call send tick received shown_all
call-shown chat (Call.message m) s h =
    send_by-shown chat m s (delta_parts m) refl h
    ∙ ap (λ l. waiting chat s.gathered ++ l) (sym (append-nil (shown chat m)))
call-shown chat Call.window_closed s h = ticked-shown chat s.gathered h.distinct

received-cons :
    (chat : String) (c : Call) (calls : List Call)
    → shown_all chat (received (c ∷ calls))
      ≡ shown_all chat (received (c ∷ [])) ++ shown_all chat (received calls)
unfolding received shown_all
received-cons chat (Call.message m) calls =
    ap (λ l. l ++ shown_all chat (received calls)) (sym (append-nil (shown chat m)))
received-cons chat Call.window_closed calls = refl

-- Nothing that a chat shows is lost, repeated or out of order: after any calls, the chat shows of
-- what was sent, and then of the text that still waits, the same characters and whole messages as
-- of the text that waited before and then of the messages that `send` was given. The start has an
-- open window or no text that waits, and one text for a chat at most.
pub run-shown :
    (chat : String) (calls : List Call) (s : Sender)
    → IsOrdered s
    → shown_all chat (run calls s).0 ++ waiting chat (run calls s).1.gathered
      ≡ waiting chat s.gathered ++ shown_all chat (received calls)
unfolding run received shown_all
run-shown chat [] s h = sym (append-nil (waiting chat s.gathered))
run-shown chat (c ∷ calls) s h =
    let next = (call c s).1 in
    let later = run calls next in
    ap (λ l. l ++ waiting chat later.1.gathered) (shown_all-append chat (call c s).0 later.0)
    ∙ append_assoc (shown_all chat (call c s).0) (shown_all chat later.0)
        (waiting chat later.1.gathered)
    ∙ ap (λ l. shown_all chat (call c s).0 ++ l) (run-shown chat calls next (call-IsOrdered c s h))
    ∙ sym (
        append_assoc (shown_all chat (call c s).0) (waiting chat next.gathered)
          (shown_all chat (received calls)))
    ∙ ap (λ l. l ++ shown_all chat (received calls)) (call-shown chat c s h)
    ∙ append_assoc (waiting chat s.gathered) (shown_all chat (received (c ∷ [])))
        (shown_all chat (received calls))
    ∙ ap (λ l. waiting chat s.gathered ++ l) (sym (received-cons chat c calls))
