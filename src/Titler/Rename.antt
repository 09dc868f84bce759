-- ===== src/Titler/Rename.antt =====
-- daemon/src/session.ts: `maybeRetitle` over the metadata that it reads and writes; and
-- `generateTitle` of daemon/src/titler.ts, which asks for the name.
pub mod Worn
pub mod Twice
use claude_persist.Texts.{Text, is_empty}
use claude_persist.Titler.Names.{
  TitleState, RenameDecision, RenameMemory, rename, keep, title_is_due, decide_rename,
  remember_title,
}
use claude_persist.Titler.Compose.{project_tag, compose_title, without_tag}
use claude_persist.Titler.Clean.{clean_title, tidy_name}
use claude_persist.Prelude.{
  ℕ, Bool, true, false, not, ◌||◌, Option, none, some, List, [], ◌∷◌, if◌then◌else◌,
}

-- The part of the session's metadata that names it; `cwd` is its directory.
pub record Naming : Type 0 where
  pub title : Text
  pub cwd : Text
  pub turns : ℕ
  pub titled_at : Option ℕ
  pub title_set_by_user : Bool
  pub past_titles : Option (List Text)
  pub pending_title : Option Text

abbrev pub past_of : Option (List Text) → List Text
past_of none = []
past_of (some past) = past

abbrev is_first : Option ℕ → Bool
is_first none = true
is_first (some at) = false

-- Until the namer is asked: the new metadata, and whether this is the first naming.
unfoldable pub begin_look : ℕ → Bool → Naming → Option (Naming × Bool)
unfolding title_is_due
begin_look now parked n =
    let state : TitleState = record {
      turns = n.turns;
      titled_at = n.titled_at;
      now = now;
      title_set_by_user = n.title_set_by_user;
      parked = parked;
    } in
    if title_is_due state
    then some (record n { titled_at = some now }, is_first n.titled_at)
    else none

-- A message of the namer's query; all that is read of a result that is no text is the empty text.
pub data NamerMessage : Type 0 where
  other : NamerMessage
  result : (is_error success : Bool) → Text → NamerMessage
  -- The query throws.
  thrown : NamerMessage

abbrev held_name : Option Text → Option Text
held_name none = none
held_name (some t) = if is_empty t then none else some t

module _ (lower upper : Text → Text) where
  abbrev tidied_answer : Text → Option Text → Option Text
  tidied_answer project none = none
  tidied_answer project (some name) = tidy_name lower upper name project

  -- The loop over the query's messages, up to the first result.
  unfoldable pub read_name : (Text → Bool) → Text → List NamerMessage → Option Text
  unfolding clean_title tidy_name
  read_name is_reply project [] = none
  read_name is_reply project (other ∷ messages) = read_name is_reply project messages
  read_name is_reply project (thrown ∷ messages) = none
  read_name is_reply project (result is_error success text ∷ messages) =
      if is_error || not success then none else tidied_answer project (clean_title is_reply text)

  -- Without exchanges nothing is asked.
  unfoldable pub generate_title {ℓ} :
      {Exchange : Type ℓ} → (Text → Bool) → List Exchange → Text → List NamerMessage → Option Text
  unfolding read_name
  generate_title is_reply [] project messages = none
  generate_title is_reply (e ∷ exchanges) project messages = read_name is_reply project messages

module _ (lower : Text → Text) where
  unfoldable pub proposal : Text → Text → Text
  proposal cwd name = compose_title (project_tag lower cwd) (without_tag name)

  unfoldable pub memory_of : Bool → Naming → RenameMemory
  memory_of first_naming n = record {
    current = n.title;
    past = past_of n.past_titles;
    pending = n.pending_title;
    first_naming = first_naming;
  }

  unfoldable pub remembered : Bool → Naming → Option (List Text)
  remembered first_naming n =
      if first_naming
      then n.past_titles
      else some (remember_title lower (past_of n.past_titles) n.title)

  unfoldable pub apply_decision : Bool → Text → RenameDecision → Naming → Naming
  apply_decision first_naming title (keep pending reason) n = record n {
    pending_title = held_name pending;
  }
  apply_decision first_naming title (rename reason) n = record n {
    past_titles = remembered first_naming n;
    pending_title = none;
    title = title;
  }

  unfoldable pub consider : Bool → Text → Naming → Naming
  consider first_naming title n =
      apply_decision first_naming title (decide_rename lower (memory_of first_naming n) title) n

  -- From the namer's answer on; an empty name is none.
  unfoldable pub take_answer : Bool → Option Text → Naming → Naming
  take_answer first_naming none n = n
  take_answer first_naming (some []) n = n
  take_answer first_naming (some (c ∷ name)) n = consider first_naming (proposal n.cwd (c ∷ name)) n

  -- Later looks, which are not the first.
  unfoldable pub take_answers : List (Option Text) → Naming → Naming
  take_answers [] n = n
  take_answers (a ∷ answers) n = take_answers answers (take_answer false a n)
