-- ===== src/Lock.antt =====
-- daemon/src/lock.ts: the lock file that lets one daemon run. The file is its text, or none; a
-- process is asked for by its pid.
pub mod RoundTrip
mod Tests
pub mod Race
pub mod Claim
use claude_persist.LogStore.{is_space}
use claude_persist.Limits.{trim}
use claude_persist.Texts.{Text, text_eq, is_empty, is_digit, pieces, words_of}
use claude_persist.Prelude.{
  ℕ, zero, suc, ◌+◌, ◌-◌, ◌*◌, ◌/◌, ◌%◌, Bool, true, false, not, ◌&&◌, Option, none, some, List, [],
  ◌∷◌, ◌++◌, all, drop, get_elem?, ◌==◌, if◌then◌else◌,
}

-- The digits of a number before `out`. Each round divides by ten, so the number is enough fuel.
unfoldable pub digits : ℕ → ℕ → Text → Text
digits zero n out = out
digits (suc fuel) n out =
    let more = digits fuel (n / 10) ((b'0' + n % 10) ∷ out) in if n == 0 then out else more

-- `String(n)`
unfoldable pub print_number : ℕ → Text
unfolding digits
print_number n = if n == 0 then b'0' ∷ [] else digits n n []

unfoldable pub read_digits : ℕ → Text → ℕ
read_digits n [] = n
read_digits n (c ∷ cs) = read_digits (n * 10 + (c - b'0')) cs

-- `/^\d+$/`
unfoldable pub is_numeral : Text → Bool
is_numeral t = not (is_empty t) && all is_digit t

abbrev positive : ℕ → Option ℕ
positive n = if n == 0 then none else some n

pub record LockHolder : Type 0 where
  pub pid : ℕ
  pub started_at : Option Text

abbrev numeral : Option Text → Option Text
numeral none = none
numeral (some t) = if is_numeral t then some t else none

abbrev after_paren : Option Text → Option Text
after_paren none = none
after_paren (some rest) = some (drop 1 rest)

-- The text behind the last closing parenthesis.
unfoldable pub behind_last_paren : Text → Option Text
behind_last_paren [] = none
behind_last_paren (c ∷ cs) = elim (behind_last_paren cs) [
  | some rest ↦ some rest
  | none ↦ if c == b')' then some cs else none
]

abbrev is_gap : ℕ → Bool
is_gap c = c == b' '

abbrev started_field : Option Text → Option Text
started_field none = none
started_field (some rest) = numeral (get_elem? (pieces is_gap rest) 19)

-- `processStartTime`, on the text of /proc/<pid>/stat.
unfoldable pub process_start_time : Option Text → Option Text
unfolding behind_last_paren pieces is_numeral
process_start_time none = none
process_start_time (some stat) = started_field (after_paren (behind_last_paren stat))

unfoldable pub read_lock : Option Text → Text
read_lock none = []
read_lock (some text) = trim text

-- The processes, as `kill(pid, 0)` and /proc show them.
pub record Processes : Type 0 where
  pub alive : ℕ → Bool
  pub start_time : ℕ → Option Text

-- `other_number` is `Number` on a text that is not all digits, where it is a positive integer.
module _ (other_number : Text → Option ℕ) where
  unfoldable pub number : Text → Option ℕ
  unfolding is_numeral read_digits
  number t = if is_numeral t then positive (read_digits 0 t) else other_number t

  abbrev holder_of : Option ℕ → Option Text → Option LockHolder
  holder_of none started = none
  holder_of (some pid) started = some (record { pid = pid; started_at = numeral started })

  abbrev holder_fields : List Text → Option LockHolder
  holder_fields [] = none
  holder_fields (pid ∷ []) = holder_of (number pid) none
  holder_fields (pid ∷ started ∷ rest) = holder_of (number pid) (some started)

  unfoldable pub read_lock_holder : Option Text → Option LockHolder
  read_lock_holder file = holder_fields (words_of is_space (read_lock file))

unfoldable pub lock_text : ℕ → Option Text → Text
lock_text pid none = print_number pid
lock_text pid (some started) = print_number pid ++ b' ' ∷ started

abbrev same_start : Option Text → Option Text → Bool
same_start none started = true
same_start (some recorded) none = false
same_start (some recorded) (some started) = text_eq recorded started

unfoldable pub holder_is_running : Processes → Option LockHolder → Bool
unfolding text_eq
holder_is_running procs none = false
holder_is_running procs (some holder) =
    procs.alive holder.pid && same_start holder.started_at (procs.start_time holder.pid)

abbrev is_recorded : Option Text → Bool
is_recorded none = false
is_recorded (some started) = true

unfoldable pub holder_is_identified : Processes → Option LockHolder → Bool
unfolding holder_is_running
holder_is_identified procs none = false
holder_is_identified procs (some holder) =
    is_recorded holder.started_at && holder_is_running procs (some holder)

abbrev is_other : ℕ → Option LockHolder → Bool
is_other pid none = false
is_other pid (some holder) = not (holder.pid == pid)

-- The file that `pid` finds, and whether it keeps its hands off: another holder that runs.
unfoldable pub is_held : Processes → ℕ → Option LockHolder → Bool
is_held procs pid holder = is_other pid holder && holder_is_running procs holder

-- What one round of `acquireLock` meets: what others make of the file before it is read, the
-- processes then, whether `unlinkSync` takes the file away, and what others make of it before the
-- next call. A file that others take away or replace just before `unlinkSync` is told by the last
-- two.
pub record Round : Type 0 where
  pub before_read : Option Text → Option Text
  pub procs : Processes
  pub removes : Bool
  pub before_retry : Option Text → Option Text

-- What others make of the file before `acquireLock`, and the two rounds.
pub record Contest : Type 0 where
  pub before_open : Option Text → Option Text
  pub first : Round
  pub second : Round

-- The file behind a round that read `found`.
unfoldable pub behind_round : Round → Option Text → Option Text
behind_round r found = r.before_retry (if r.removes then none else found)

module _ (other_number : Text → Option ℕ) (pid : ℕ) where
  -- The rounds that are left: whether the lock is taken, and the file. The file is made where there
  -- is none, and the one that is read is taken away where nobody else who runs holds it.
  unfoldable pub attempt : List Round → Option Text → Bool × Option Text
  attempt [] file = (false, file)
  attempt (r ∷ rounds) none = (true, some (lock_text pid (r.procs.start_time pid)))
  attempt (r ∷ rounds) (some text) =
      let found = r.before_read (some text) in
      let again = attempt rounds (behind_round r found) in
      if is_held r.procs pid (read_lock_holder other_number found) then (false, found) else again

  unfoldable pub acquire_lock : Contest → Option Text → Bool × Option Text
  unfolding attempt
  acquire_lock c file = attempt (c.first ∷ c.second ∷ []) (c.before_open file)

  abbrev is_own : Option LockHolder → Bool
  is_own none = false
  is_own (some holder) = holder.pid == pid

  unfoldable pub release_lock : Option Text → Option Text
  release_lock file = if is_own (read_lock_holder other_number file) then none else file
