-- ===== src/Lock/Race/Shared.antt =====
-- daemon/src/lock.ts: two processes that take turns in `acquireLock`.
use claude_persist.Limits.{trim}
use claude_persist.Texts.{Text, words_of}
use claude_persist.Lock.{Processes, read_lock_holder, read_lock, is_held, lock_text}
use claude_persist.Lock.Race.{LockFile, Directory, won, advance, turn, race, started}
use claude_persist.Prelude.{
  ℕ, ◌+◌, Bool, true, false, Option, none, some, List, [], ◌∷◌, ◌≡◌, refl, arith,
}

-- The second opens while the file of the first is empty, reads no holder in it, and takes it away.
abbrev pub overtaken : List Bool
overtaken = true ∷ false ∷ false ∷ true ∷ false ∷ false ∷ false ∷ []

-- Where there is no lock file, two processes that start together can both acquire the lock,
-- whoever they are: each makes its own file, and the last one stays.
pub race_shared :
    (other_number : Text → Option ℕ) (procs : Processes) (a b inode : ℕ)
    → let none_there : Directory = record { entry = none; next_inode = inode } in
      let r = race other_number procs a b overtaken (started none_there) in
      (r.first ≡ won)
      × (r.second ≡ won)
      × ((file : LockFile) × (r.directory.entry ≡ some file)
          × (file.text ≡ lock_text b (procs.start_time b)))
unfolding race turn advance read_lock_holder read_lock is_held words_of trim
race_shared other_number procs a b inode = (
  refl,
  refl,
  (record { inode = inode + 1; text = lock_text b (procs.start_time b) }, ground arith, refl),
)
