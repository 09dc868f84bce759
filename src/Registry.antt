-- ===== src/Registry.antt =====
-- daemon/src/registry.ts: the sessions and the file that keeps them. `JSON.stringify` and
-- `JSON.parse` of the file are arguments; a file is its text.
pub mod Crash
mod Tests
use claude_persist.JsMap
use claude_persist.JsMap.{JsMap}
use claude_persist.Session.State.{SessionMeta}
use claude_persist.Titler.Exchanges.{sort_by}
use claude_persist.Prelude.{
  ℕ, ◌+◌, String, Bool, true, false, Option, none, some, List, [], ◌∷◌, ◌++◌, length, ltb, map,
  take, str_eq, if◌then◌else◌,
}

-- `SessionMeta`, with its two instants beside the fields that a session works with.
pub record Entry : Type 0 where
  pub meta : SessionMeta
  pub created_at : ℕ
  pub last_activity_at : ℕ

abbrev pub Sessions : Type 0
Sessions = JsMap Entry

-- What the parse of a file gives: an array whose entries are sessions or junk, or something else.
pub data Parsed : Type 0 where
  entries : List (Option Entry) → Parsed
  not_array : Parsed
  malformed : Parsed

-- The files of the registry: the one that is read, the one that is written, and those that were
-- put aside.
pub record RegistryFiles {ℓ} (Text : Type ℓ) : Type ℓ where
  pub file : Option Text
  pub tmp : Option Text
  pub aside : List Text

-- `for (const meta of parsed) if (…) this.sessions.set(meta.id, meta)`
unfoldable pub add_entries : List (Option Entry) → Sessions → Sessions
unfolding JsMap.set
add_entries [] sessions = sessions
add_entries (none ∷ rest) sessions = add_entries rest sessions
add_entries (some e ∷ rest) sessions = add_entries rest (JsMap.set e.meta.id e sessions)

abbrev values : Sessions → List Entry
values [] = []
values ((id, e) ∷ sessions) = e ∷ values sessions

-- The calls of `save`, the last of which is the rename. A write may stop after a prefix.
pub data SaveStage : Type 0 where
  not_begun : SaveStage
  opened : SaveStage
  written : ℕ → SaveStage
  renamed : SaveStage

module _ {ℓ} {Byte : Type ℓ} (parse : List Byte → Parsed) (print : List Entry → List Byte) where
  abbrev put_aside : RegistryFiles (List Byte) → List Byte → Sessions × RegistryFiles (List Byte)
  put_aside d text = ([], record d { file = none; aside = d.aside ++ text ∷ [] })

  abbrev loaded :
      RegistryFiles (List Byte) → List Byte → Parsed → Sessions × RegistryFiles (List Byte)
  loaded d text (entries es) = (add_entries es [], d)
  loaded d text not_array = put_aside d text
  loaded d text malformed = put_aside d text

  abbrev load_file :
      RegistryFiles (List Byte) → Option (List Byte) → Sessions × RegistryFiles (List Byte)
  load_file d none = ([], d)
  load_file d (some text) = loaded d text (parse text)

  -- `load` of a new registry, where the rename that puts a file aside succeeds.
  unfoldable pub load : RegistryFiles (List Byte) → Sessions × RegistryFiles (List Byte)
  unfolding add_entries
  load d = load_file d d.file

  -- The disk behind a call of `save`.
  unfoldable pub at_stage :
      SaveStage → Sessions → RegistryFiles (List Byte) → RegistryFiles (List Byte)
  at_stage not_begun sessions d = d
  at_stage opened sessions d = record d { tmp = some [] }
  at_stage (written n) sessions d = record d { tmp = some (take n (print (values sessions))) }
  at_stage renamed sessions d = record d { file = some (print (values sessions)); tmp = none }

  unfoldable pub save : Sessions → RegistryFiles (List Byte) → RegistryFiles (List Byte)
  unfolding at_stage
  save sessions d = at_stage renamed sessions d

abbrev is_newer : Entry → Entry → Bool
is_newer a b = ltb b.last_activity_at a.last_activity_at

unfoldable pub list : Sessions → List Entry
unfolding sort_by
list sessions = sort_by is_newer (values sessions)

abbrev or_default : String → Option String → String
or_default d none = d
or_default d (some title) = title

abbrev new_meta : String → String → String → SessionMeta
new_meta id title cwd = record {
  id = id;
  title = title;
  cwd = cwd;
  sdk_session_id = none;
  permission_mode = none;
  model = none;
  effort = none;
  image_count = none;
  turns = none;
  titled_at = none;
  title_set_by_user = false;
  active_model = none;
  cleared_at = none;
  past_titles = none;
  pending_title = none;
}

-- Each operation saves behind its change. `id` is what `randomUUID` gives, and `numbered` the
-- default title.
unfoldable pub create : String → (ℕ → String) → ℕ → String → Option String → Sessions → Sessions
unfolding JsMap.set
create id numbered now cwd title sessions =
    JsMap.set id
      (record {
        meta = new_meta id (or_default (numbered (length sessions + 1)) title) cwd;
        created_at = now;
        last_activity_at = now;
      })
      sessions

abbrev renamed_meta : String → Bool → SessionMeta → SessionMeta
renamed_meta title by_user meta =
    if by_user
    then record meta { title = title; title_set_by_user = true }
    else record meta { title = title }

-- An object of the map is changed in place.
unfoldable pub update_entry : String → (Entry → Entry) → Sessions → Sessions
update_entry id f [] = []
update_entry id f ((key, e) ∷ sessions) =
    let rest = (key, e) ∷ update_entry id f sessions in
    if str_eq key id then (key, f e) ∷ sessions else rest

unfoldable pub rename_session : String → String → Bool → Sessions → Sessions
rename_session id title by_user sessions =
    update_entry id (λ e. record e { meta = renamed_meta title by_user e.meta }) sessions

unfoldable pub touch : String → ℕ → Sessions → Sessions
touch id now sessions = update_entry id (λ e. record e { last_activity_at = now }) sessions

unfoldable pub delete_session : String → Sessions → Sessions
unfolding JsMap.delete
delete_session id sessions = JsMap.delete id sessions
