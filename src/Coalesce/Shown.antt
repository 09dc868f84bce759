-- ===== src/Coalesce/Shown.antt =====
-- daemon/src/coalesce.ts: what a chat shows of the messages sent and of the text that waits.
use claude_persist.Coalesce.{Message, named_text, delta_parts, flushed, text_or_empty, gather}
use claude_persist.JsMap.{JsMap, get, set, delete, get-set, get-delete, fresh-set, fresh-delete}
use claude_persist.Prelude.{
  String, Bool, true, false, Option, none, some, List, [], ◌∷◌, ◌++◌, str_eq, eq_iff, if◌then◌else◌,
  ◌≡◌, refl, sym, ap, ◌∙◌, arith, inl, inr, Bool-cases, if-holds,
}
use Prim.Native.String.{[] as empty, ◌∷◌ as char_cons, ◌++◌ as text_append}
use Prim.Native.String.append
use Prim.Native.Char.{Char}
use mathlib.Core.Path.{subst}
use mathlib.Core.List.{append-nil, append_assoc}

-- What a chat shows: characters of streamed text, and whole messages.
pub data Shown : Type 0 where
  character : Char → Shown
  whole : Message → Shown

unfoldable pub characters : String → List Shown
characters empty = []
characters (char_cons c text) = character c ∷ characters text

abbrev pub of_text : Option String → Message → List Shown
of_text none m = whole m ∷ []
of_text (some text) m = characters text

abbrev pub shown_in : String → Option String → List Shown → List Shown
shown_in chat none shown = []
shown_in chat (some id) shown = if str_eq id chat then shown else []

unfoldable pub shown : String → Message → List Shown
shown chat m =
    shown_in chat m.session_id (if str_eq m.kind "delta" then of_text m.text m else whole m ∷ [])

unfoldable pub shown_all : String → List Message → List Shown
shown_all chat [] = []
shown_all chat (m ∷ ms) = shown chat m ++ shown_all chat ms

abbrev pub waiting_of : Option String → List Shown
waiting_of none = []
waiting_of (some text) = characters text

unfoldable pub waiting : String → JsMap String → List Shown
waiting chat texts = waiting_of (get chat texts)

unfoldable pub IsDistinct : JsMap String → Type 0
IsDistinct [] = Unit
IsDistinct ((id, text) ∷ texts) = (get id texts ≡ none) × IsDistinct texts

pub characters-append : (a b : String) → characters (text_append a b) ≡ characters a ++ characters b
unfolding characters
characters-append empty b = ap characters (append.nil b)
characters-append (char_cons c a) b =
    ap characters (append.cons c a b) ∙ ap (λ l. character c ∷ l) (characters-append a b)

pub shown_all-append :
    (chat : String) (a b : List Message)
    → shown_all chat (a ++ b) ≡ shown_all chat a ++ shown_all chat b
unfolding shown_all
shown_all-append chat [] b = refl
shown_all-append chat (m ∷ a) b =
    ap (λ l. shown chat m ++ l) (shown_all-append chat a b)
    ∙ sym (append_assoc (shown chat m) (shown_all chat a) (shown_all chat b))

pub set-IsDistinct :
    (id text : String) (texts : JsMap String) → IsDistinct texts → IsDistinct (set id text texts)
unfolding set IsDistinct get
set-IsDistinct id text [] h = (refl, tt)
set-IsDistinct id text ((j, t) ∷ texts) (fresh, h) = elim (Bool-cases (str_eq j id)) [
  | inl e ↦ rw e (fresh, h)
  | inr e ↦ rw e (fresh-set id j text texts e fresh, set-IsDistinct id text texts h)
]

pub delete-IsDistinct :
    (id : String) (texts : JsMap String) → IsDistinct texts → IsDistinct (delete id texts)
unfolding delete IsDistinct
delete-IsDistinct id [] h = tt
delete-IsDistinct id ((j, t) ∷ texts) (fresh, h) =
    if-holds IsDistinct (str_eq j id) (delete-IsDistinct id texts h)
      (fresh-delete id j texts fresh, delete-IsDistinct id texts h)

pub none_here :
    (chat id : String) (texts : JsMap String)
    → str_eq id chat ≡ true
    → get id texts ≡ none
    → waiting chat texts ≡ []
unfolding waiting
none_here chat id texts e fresh =
    ap waiting_of (subst (λ k. get k texts ≡ none) ((eq_iff id chat).0 e) fresh)

pub flushed-shown :
    (chat : String) (texts : JsMap String)
    → IsDistinct texts
    → shown_all chat (flushed texts) ≡ waiting chat texts
unfolding flushed shown_all shown waiting IsDistinct get
flushed-shown chat [] h = refl
flushed-shown chat ((id, text) ∷ texts) (fresh, h) = elim (Bool-cases (str_eq id chat)) [
  | inl e ↦ rw e (
      ap (λ l. characters text ++ l) (flushed-shown chat texts h ∙ none_here chat id texts e fresh)
      ∙ append-nil (characters text))
  | inr e ↦ rw e (flushed-shown chat texts h)
]

text-waiting : (o : Option String) → characters (text_or_empty o) ≡ waiting_of o
unfolding characters
text-waiting none = refl
text-waiting (some text) = refl

pub waiting-gather :
    (chat id text : String) (texts : JsMap String)
    → waiting chat (gather id text texts)
      ≡ waiting chat texts ++ (if str_eq id chat then characters text else [])
unfolding waiting
waiting-gather chat id text texts =
    ap waiting_of (get-set id chat (text_append (text_or_empty (get id texts)) text) texts)
    ∙ elim (Bool-cases (str_eq id chat)) [
      | inl e ↦ rw e (
          characters-append (text_or_empty (get id texts)) text
          ∙ ap (λ l. l ++ characters text)
              (text-waiting (get id texts)
                ∙ ap (λ k. waiting_of (get k texts)) ((eq_iff id chat).0 e)))
      | inr e ↦ rw e (sym (append-nil (waiting_of (get chat texts))))
    ]

pub waiting-delete :
    (chat id : String) (texts : JsMap String)
    → waiting chat (delete id texts) ≡ (if str_eq id chat then [] else waiting chat texts)
unfolding waiting
waiting-delete chat id texts =
    ap waiting_of (get-delete id chat texts)
    ∙ elim (Bool-cases (str_eq id chat)) [ inl e ↦ rw e | inr e ↦ rw e ]

named_text-fields :
    (a b : Option String) (id text : String)
    → named_text a b ≡ some (id, text)
    → (a ≡ some id) × (b ≡ some text)
named_text-fields none b id text h = ground arith
named_text-fields (some a) none id text h = ground arith
named_text-fields (some a) (some b) id text h = ground arith

if-some {ℓ} :
    {A : Type ℓ} (b : Bool) (o : Option A) (a : A)
    → (if b then o else none) ≡ some a
    → (b ≡ true) × (o ≡ some a)
if-some true o a h = (refl, h)
if-some false o a h = ground arith

delta_parts-fields :
    (m : Message) (id text : String)
    → delta_parts m ≡ some (id, text)
    → (str_eq m.kind "delta" ≡ true) × (m.session_id ≡ some id) × (m.text ≡ some text)
unfolding delta_parts
delta_parts-fields m id text h =
    let (kind, parts) =
      if-some (str_eq m.kind "delta") (named_text m.session_id m.text) (id, text) h in
    let (named, texts) = named_text-fields m.session_id m.text id text parts in (kind, named, texts)

-- the text of a message that `delta_parts` takes.
pub delta-shown :
    (chat id text : String) (m : Message)
    → delta_parts m ≡ some (id, text)
    → shown chat m ≡ (if str_eq id chat then characters text else [])
unfolding shown
delta-shown chat id text m h =
    let (kind, named, texts) = delta_parts-fields m id text h in rw (kind, named, texts)
