-- ===== src/Registry/Crash.antt =====
-- daemon/src/registry.ts: what a start finds after a stop in the middle of a save.
use claude_persist.JsMap.{get, set, delete, fresh-set, fresh-delete, set-fresh, get-append}
use claude_persist.Registry.{
  Entry, Sessions, Parsed, entries, not_array, malformed, loaded, load_file, RegistryFiles,
  SaveStage, not_begun, opened, written, renamed, add_entries, values, load, at_stage, create,
  rename_session, touch, delete_session, update_entry, renamed_meta,
}
use claude_persist.Prelude.{
  ℕ, String, Bool, true, false, Option, none, some, List, [], ◌∷◌, ◌++◌, map, str_eq, eq_iff, ◌≡◌,
  refl, sym, ap, ◌∙◌, take, ◌⊎◌, inl, inr, arith, Bool-cases, if-holds,
}
use mathlib.Core.List.{append_assoc, append-nil}

-- Each key is the id of its session, and stands once.
unfoldable pub IsKeyed : Sessions → Type 0
IsKeyed [] = Unit
IsKeyed ((k, e) ∷ sessions) = (e.meta.id ≡ k) × (get k sessions ≡ none) × IsKeyed sessions

set-IsKeyed :
    (k : String) (e : Entry) (sessions : Sessions)
    → e.meta.id ≡ k
    → IsKeyed sessions
    → IsKeyed (set k e sessions)
unfolding set IsKeyed get
set-IsKeyed k e [] named h = (named, refl, tt)
set-IsKeyed k e ((j, d) ∷ sessions) named h = elim (Bool-cases (str_eq j k)) [
  | inl same ↦ rw same (named ∙ sym ((eq_iff j k).0 same), h.1, h.2)
  | inr other ↦
      rw other (h.0, fresh-set k j e sessions other h.1, set-IsKeyed k e sessions named h.2)
]

delete-IsKeyed : (k : String) (sessions : Sessions) → IsKeyed sessions → IsKeyed (delete k sessions)
unfolding delete IsKeyed
delete-IsKeyed k [] h = tt
delete-IsKeyed k ((j, d) ∷ sessions) h =
    if-holds IsKeyed (str_eq j k) (delete-IsKeyed k sessions h.2)
      (h.0, fresh-delete k j sessions h.1, delete-IsKeyed k sessions h.2)

get-update :
    (k j : String) (f : Entry → Entry) (sessions : Sessions)
    → get j sessions ≡ none
    → get j (update_entry k f sessions) ≡ none
unfolding update_entry get
get-update k j f [] h = refl
get-update k j f ((i, d) ∷ sessions) h = ground (arith, get-update k j f sessions)

update-IsKeyed :
    (k : String) (f : Entry → Entry) (sessions : Sessions)
    → ((e : Entry) → (f e).meta.id ≡ e.meta.id)
    → IsKeyed sessions
    → IsKeyed (update_entry k f sessions)
unfolding update_entry IsKeyed
update-IsKeyed k f [] same h = tt
update-IsKeyed k f ((j, d) ∷ sessions) same h =
    if-holds IsKeyed (str_eq j k) (same d ∙ h.0, h.1, h.2)
      (h.0, get-update k j f sessions h.1, update-IsKeyed k f sessions same h.2)

-- None of the sessions is in the map `seen`.
abbrev AreNew : Sessions → Sessions → Type 0
AreNew seen [] = Unit
AreNew seen ((k, e) ∷ sessions) = (get k seen ≡ none) × AreNew seen sessions

get-other : (k j : String) (e : Entry) → str_eq j k ≡ false → get j ((k, e) ∷ []) ≡ none
unfolding get
get-other k j e other = ground (arith, eq_iff k j, eq_iff j k)

get-tail :
    (k j : String) (d : Entry) (sessions : Sessions)
    → get k ((j, d) ∷ sessions) ≡ none
    → (str_eq j k ≡ false) × (get k sessions ≡ none)
unfolding get
get-tail k j d sessions h = ground arith

AreNew-push :
    (k : String) (e : Entry) (seen sessions : Sessions)
    → get k sessions ≡ none
    → AreNew seen sessions
    → AreNew (seen ++ (k, e) ∷ []) sessions
unfolding get
AreNew-push k e seen [] h new = tt
AreNew-push k e seen ((j, d) ∷ sessions) h new =
    let (other, rest) = get-tail k j d sessions h in
    (
      get-append j seen ((k, e) ∷ []) new.0 ∙ get-other k j e other,
      AreNew-push k e seen sessions rest new.1,
    )

-- Reading back what was written gives the same map, in the same order.
add_entries-values :
    (sessions seen : Sessions)
    → IsKeyed sessions
    → AreNew seen sessions
    → add_entries (map some (values sessions)) seen ≡ seen ++ sessions
unfolding add_entries IsKeyed
add_entries-values [] seen h new = sym (append-nil seen)
add_entries-values ((k, e) ∷ sessions) seen h new =
    let rest = map some (values sessions) in
    ap (λ key. add_entries rest (set key e seen)) h.0
    ∙ ap (add_entries rest) (set-fresh k e seen new.0)
    ∙ add_entries-values sessions (seen ++ (k, e) ∷ []) h.2
        (AreNew-push k e seen sessions h.1 new.1)
    ∙ append_assoc seen ((k, e) ∷ []) sessions

AreNew-empty : (sessions : Sessions) → AreNew [] sessions
unfolding get
AreNew-empty [] = tt
AreNew-empty ((k, e) ∷ sessions) = (refl, AreNew-empty sessions)

pub data Operation : Type 0 where
  created : (id : String) → (ℕ → String) → ℕ → (cwd : String) → Option String → Operation
  named : (id title : String) → Bool → Operation
  touched : (id : String) → ℕ → Operation
  deleted : (id : String) → Operation

unfoldable pub operate : Operation → Sessions → Sessions
operate (created id numbered now cwd title) sessions = create id numbered now cwd title sessions
operate (named id title by_user) sessions = rename_session id title by_user sessions
operate (touched id now) sessions = touch id now sessions
operate (deleted id) sessions = delete_session id sessions

unfoldable pub operate_all : List Operation → Sessions → Sessions
operate_all [] sessions = sessions
operate_all (o ∷ operations) sessions = operate_all operations (operate o sessions)

renamed_meta-id :
    (title : String) (by_user : Bool) (e : Entry)
    → (renamed_meta title by_user e.meta).id ≡ e.meta.id
renamed_meta-id title true e = refl
renamed_meta-id title false e = refl

operate-IsKeyed :
    (o : Operation) (sessions : Sessions) → IsKeyed sessions → IsKeyed (operate o sessions)
unfolding operate create rename_session touch delete_session
operate-IsKeyed (created id numbered now cwd title) sessions h = set-IsKeyed id _ sessions refl h
operate-IsKeyed (named id title by_user) sessions h =
    update-IsKeyed id _ sessions (renamed_meta-id title by_user) h
operate-IsKeyed (touched id now) sessions h = update-IsKeyed id _ sessions (λ e. refl) h
operate-IsKeyed (deleted id) sessions h = delete-IsKeyed id sessions h

operate_all-IsKeyed :
    (operations : List Operation) (sessions : Sessions)
    → IsKeyed sessions
    → IsKeyed (operate_all operations sessions)
unfolding operate_all
operate_all-IsKeyed [] sessions h = h
operate_all-IsKeyed (o ∷ operations) sessions h =
    operate_all-IsKeyed operations (operate o sessions) (operate-IsKeyed o sessions h)

module _ {ℓ} {Byte : Type ℓ} (parse : List Byte → Parsed) (print : List Entry → List Byte) where
  -- The file that is written is not looked at.
  loaded-tmp :
      (d : RegistryFiles (List Byte)) (tmp : Option (List Byte)) (text : List Byte) (p : Parsed)
      → ((loaded parse print (record d { tmp = tmp }) text p).0 ≡ (loaded parse print d text p).0)
        × ((loaded parse print (record d { tmp = tmp }) text p).1.aside
            ≡ (loaded parse print d text p).1.aside)
  loaded-tmp d tmp text (entries es) = (refl, refl)
  loaded-tmp d tmp text not_array = (refl, refl)
  loaded-tmp d tmp text malformed = (refl, refl)

  load_file-tmp :
      (d : RegistryFiles (List Byte)) (tmp file : Option (List Byte))
      → ((load_file parse print (record d { tmp = tmp }) file).0 ≡ (load_file parse print d file).0)
        × ((load_file parse print (record d { tmp = tmp }) file).1.aside
            ≡ (load_file parse print d file).1.aside)
  load_file-tmp d tmp none = (refl, refl)
  load_file-tmp d tmp (some text) = loaded-tmp d tmp text (parse text)

  -- A registry that any operations made from the empty one, saved over any disk and stopped behind
  -- any call of the save: the next start finds what it would have found before the save, or just
  -- the sessions that were saved, and then puts no file aside. What is printed parses back.
  pub crashed_save-load :
      ((es : List Entry) → parse (print es) ≡ entries (map some es))
      → (operations : List Operation) (stage : SaveStage) (d : RegistryFiles (List Byte))
      → let sessions = operate_all operations [] in
        let found = load parse print (at_stage parse print stage sessions d) in
        (found.0 ≡ (load parse print d).0) × (found.1.aside ≡ (load parse print d).1.aside)
        ⊎ (found.0 ≡ sessions) × (found.1.aside ≡ d.aside)
  unfolding load at_stage IsKeyed
  crashed_save-load law operations not_begun d = inl (refl, refl)
  crashed_save-load law operations opened d = inl (load_file-tmp d (some []) d.file)
  crashed_save-load law operations (written n) d =
      inl (load_file-tmp d (some (take n (print (values (operate_all operations []))))) d.file)
  crashed_save-load law operations renamed d =
      let sessions = operate_all operations [] in
      inr (
        rw (law (values sessions)) (
          add_entries-values sessions [] (operate_all-IsKeyed operations [] tt)
              (AreNew-empty sessions),
          refl,
        ))
