-- ===== src/Registry/Tests.antt =====
-- A session is created and renamed; the save is stopped while it writes.
use claude_persist.JsMap
use claude_persist.Registry.{
  Entry, Parsed, entries, RegistryFiles, written, create, rename_session, update_entry, touch, load,
  at_stage, list,
}
use claude_persist.Registry.Crash.{operate, operate_all, Operation, crashed_save-load}
use claude_persist.Prelude.{ℕ, String, true, none, some, List, [], ◌∷◌, map, ◌≡◌, refl, ◌⊎◌}

-- A printer that writes each session as one unit, and its parser.
abbrev parse_entries : List Entry → Parsed
parse_entries es = entries (map some es)

abbrev print_entries : List Entry → List Entry
print_entries es = es

abbrev numbered : ℕ → String
numbered n = "Session 1"

abbrev operations : List Operation
operations =
    Operation.created "s1" numbered 100 "/home/me" none
    ∷ Operation.named "s1" "Receipts" true
    ∷ Operation.created "s2" numbered 200 "/home/me" (some "Queue")
    ∷ Operation.touched "s1" 300
    ∷ []

abbrev empty_disk : RegistryFiles (List Entry)
empty_disk = record { file = none; tmp = none; aside = [] }

newest_first :
    map (λ e. e.meta.title) (list (operate_all operations [])) ≡ "Receipts" ∷ "Queue" ∷ []
unfolding list operate_all operate create JsMap.set rename_session update_entry touch
newest_first = refl

crashed_save-load_example :
    let sessions = operate_all operations [] in
    let found =
      load parse_entries print_entries
        (at_stage parse_entries print_entries (written 1) sessions empty_disk) in
    (found.0 ≡ (load parse_entries print_entries empty_disk).0)
      × (found.1.aside ≡ (load parse_entries print_entries empty_disk).1.aside)
    ⊎ (found.0 ≡ sessions) × (found.1.aside ≡ empty_disk.aside)
crashed_save-load_example =
    crashed_save-load parse_entries print_entries (λ es. refl) operations (written 1) empty_disk
