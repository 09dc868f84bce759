-- ===== src/Lock/Race.antt =====
-- daemon/src/lock.ts: `acquireLock` call by call, for two processes that take turns. A file keeps its
-- identity: what is written after it was taken away goes to the old one.
pub mod Shared
use claude_persist.Texts.{Text}
use claude_persist.Lock.{Processes, read_lock_holder, is_held, lock_text}
use claude_persist.Prelude.{
  ℕ, zero, suc, ◌+◌, Bool, true, false, Option, none, some, List, [], ◌∷◌, ◌==◌, if◌then◌else◌,
}

pub record LockFile : Type 0 where
  pub inode : ℕ
  pub text : Text

pub record Directory : Type 0 where
  pub entry : Option LockFile
  pub next_inode : ℕ

-- Where a process stands in `acquireLock`; `n` is how many attempts are left.
pub data Phase : Type 0 where
  opening : ℕ → Phase
  writing : ℕ → Phase
  reading : ℕ → Phase
  unlinking : ℕ → Phase
  won : Phase
  lost : Phase

abbrev text_of : Option LockFile → Option Text
text_of none = none
text_of (some file) = some file.text

-- A write through the descriptor of `inode`.
abbrev written : ℕ → Text → Option LockFile → Option LockFile
written inode text none = none
written inode text (some file) =
    if file.inode == inode then some (record file { text = text }) else some file

abbrev created : ℕ → Option LockFile
created inode = some (record { inode = inode; text = [] })

-- `openSync(lockFile, 'wx')`
abbrev open_exclusive : ℕ → Directory → Option LockFile → Directory × Phase
open_exclusive n d none =
    (record { entry = created d.next_inode; next_inode = d.next_inode + 1 }, writing d.next_inode)
open_exclusive n d (some file) = (d, reading n)

pub record Race : Type 0 where
  pub directory : Directory
  pub first : Phase
  pub second : Phase

module _ (other_number : Text → Option ℕ) (procs : Processes) where
  -- The next call of the process `pid`.
  unfoldable pub advance : ℕ → Directory → Phase → Directory × Phase
  advance pid d (opening zero) = (d, lost)
  advance pid d (opening (suc n)) = open_exclusive n d d.entry
  advance pid d (writing inode) =
      (record d { entry = written inode (lock_text pid (procs.start_time pid)) d.entry }, won)
  advance pid d (reading n) =
      if is_held procs pid (read_lock_holder other_number (text_of d.entry))
      then (d, lost)
      else (d, unlinking n)
  advance pid d (unlinking n) = (record d { entry = none }, opening n)
  advance pid d won = (d, won)
  advance pid d lost = (d, lost)

  -- A turn of the first process, or of the second.
  unfoldable pub turn : ℕ → ℕ → Bool → Race → Race
  turn a b true r =
      let (d, phase) = advance a r.directory r.first in record r { directory = d; first = phase }
  turn a b false r =
      let (d, phase) = advance b r.directory r.second in record r { directory = d; second = phase }

  unfoldable pub race : ℕ → ℕ → List Bool → Race → Race
  race a b [] r = r
  race a b (who ∷ turns) r = race a b turns (turn a b who r)

abbrev pub started : Directory → Race
started d = record { directory = d; first = opening 2; second = opening 2 }
