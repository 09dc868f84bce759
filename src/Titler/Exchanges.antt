-- ===== src/Titler/Exchanges.antt =====
-- daemon/src/titler.ts: the evidence that a name is made from: which parts of the log are read, and
-- which messages are shown to the namer.
use claude_persist.Limits.{trim}
use claude_persist.Texts.{Text, text_eq, is_empty}
use claude_persist.Prelude.{
  ℕ, ◌+◌, ◌-◌, ◌*◌, ◌/◌, Bool, true, false, not, ◌&&◌, Option, none, some, List, [], ◌∷◌, ◌++◌,
  length, take, keep_if, any, ◌==◌, ltb, leb, min, if◌then◌else◌,
}

abbrev pub opening_events : ℕ
opening_events = 40

abbrev pub slice_events : ℕ
slice_events = 150

abbrev pub max_exchange_chars : ℕ
max_exchange_chars = 300

abbrev pub min_substance_chars : ℕ
min_substance_chars = 16

-- `[start, end)`
abbrev pub Range : Type 0
Range = ℕ × ℕ

pub record NamingWindow : Type 0 where
  pub opening : Range
  pub spread : List Range

abbrev slice_from : ℕ → ℕ → ℕ → Range
slice_from total start length = (start, min total (start + length))

-- The shares 0.34 and 0.67 as percents. As doubles they lie just above, so the floor of the product
-- is the same for every span below 2 ^ 40.
unfoldable pub naming_window : ℕ → ℕ → NamingWindow
naming_window total cleared_at =
    let from = min cleared_at total in
    let span = total - from in
    record {
      opening = slice_from total from opening_events;
      spread =
          slice_from total from slice_events
          ∷ slice_from total (from + span * 34 / 100) slice_events
          ∷ slice_from total (from + span * 67 / 100) slice_events
          ∷ [];
    }

pub data Role : Type 0 where
  user : Role
  assistant : Role

pub record Exchange : Type 0 where
  pub role : Role
  pub text : Text

-- An event of the log as it is read here: of a message the speaker, and the text if it is one.
pub data LoggedEvent : Type 0 where
  message : Role → Option Text → LoggedEvent
  other : LoggedEvent

abbrev is_command : Text → Bool
is_command [] = false
is_command (c ∷ cs) = c == b'/'

abbrev trimmed : Option Text → Text
trimmed none = []
trimmed (some t) = trim t

abbrev said : Role → Text → List Exchange → List Exchange
said role t rest =
    if is_empty t
    then rest
    else if is_command t
    then rest
    else record { role = role; text = take max_exchange_chars t } ∷ rest

unfoldable pub messages_of : List LoggedEvent → List Exchange
unfolding trim
messages_of [] = []
messages_of (other ∷ events) = messages_of events
messages_of (message role text ∷ events) = said role (trimmed text) (messages_of events)

-- `Array.prototype.filter` with a set of the texts seen.
unfoldable pub new_texts : List Text → List Exchange → List Exchange
new_texts seen [] = []
new_texts seen (e ∷ es) =
    let known = new_texts seen es in
    let new = e ∷ new_texts (e.text ∷ seen) es in if any (text_eq e.text) seen then known else new

-- `control` is what CONTROL_UTTERANCE says of a text.
unfoldable pub is_substantive : (Text → Bool) → Text → Bool
is_substantive control t = leb min_substance_chars (length t) && not (control t)

abbrev pub has_role : Role → Role → Bool
has_role user user = true
has_role assistant assistant = true
has_role r s = false

unfoldable pub speaks : (Text → Bool) → Role → Exchange → Bool
speaks control role e = has_role role e.role && is_substantive control e.text

-- A sort that keeps the order of equals, by `before`: whether an item goes before one that came
-- earlier.
module _ {ℓ} {A : Type ℓ} (before : A → A → Bool) where
  unfoldable pub insert_by : A → List A → List A
  insert_by x [] = x ∷ []
  insert_by x (y ∷ ys) = let rest = y ∷ insert_by x ys in if before y x then rest else x ∷ y ∷ ys

  unfoldable pub sort_by : List A → List A
  unfolding insert_by
  sort_by [] = []
  sort_by (x ∷ xs) = insert_by x (sort_by xs)

-- An exchange with its place among the unique ones.
abbrev pub Placed : Type 0
Placed = ℕ × Exchange

unfoldable pub placed : ℕ → List Exchange → List Placed
placed n [] = []
placed n (e ∷ es) = (n, e) ∷ placed (n + 1) es

abbrev is_longer : Placed → Placed → Bool
is_longer (i, d) (j, e) = ltb (length e.text) (length d.text)

abbrev is_earlier : Placed → Placed → Bool
is_earlier (i, d) (j, e) = ltb i j

abbrev picked_by : (Text → Bool) → Role → Placed → Bool
picked_by control role (i, e) = speaks control role e

-- The longest ones, at most `limit`, in the order in which they were sent.
unfoldable pub longest : ℕ → List Placed → List Placed
longest limit es = sort_by is_earlier (take limit (sort_by is_longer es))

unfoldable pub pick_placed : (Text → Bool) → ℕ → List Placed → List Placed
pick_placed control limit all =
    let asked = keep_if (picked_by control user) all in
    if is_empty asked
    then longest 2 (keep_if (picked_by control assistant) all)
    else longest limit asked

abbrev unplaced : List Placed → List Exchange
unplaced [] = []
unplaced ((i, e) ∷ es) = e ∷ unplaced es

unfoldable pub pick_exchanges :
    (Text → Bool) → List LoggedEvent → List LoggedEvent → ℕ → List Exchange
pick_exchanges control opening recent limit = unplaced (
    pick_placed control limit (placed 0 (new_texts [] (messages_of opening ++ messages_of recent))))
