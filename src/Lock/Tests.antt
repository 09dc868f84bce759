-- ===== src/Lock/Tests.antt =====
-- A daemon under pid 308 whose lock names start time 4471, and a successor under pid 332.
use claude_persist.Texts.{Text, codes, words_of, is_digit}
use claude_persist.Limits.{trim}
use claude_persist.Lock.{
  Processes, Round, Contest, behind_round, is_numeral, number, read_lock, read_lock_holder,
  print_number, lock_text, acquire_lock, is_held, holder_is_running, holder_is_identified,
  process_start_time,
}
use claude_persist.Lock.RoundTrip.{read_lock_holder-lock_text}
use claude_persist.Lock.Claim.{
  World, Meeting, owner_of, names, claim_ownership, claim_from, challenge, take_over, is_signalled,
  cleared_file,
}
use claude_persist.Lock.Claim.Outcome.{
  final_world, held_first, found_again, claim_ownership-signalled, claim_ownership-owned,
}
use claude_persist.Lock.Race.{LockFile, Directory, won, race, started}
use claude_persist.Lock.Race.Shared.{overtaken, race_shared}
use claude_persist.Prelude.{
  ℕ, true, false, Option, none, some, [], ◌∷◌, ◌==◌, ◌≡◌, ◌≢◌, ◌⊎◌, refl, arith, if◌then◌else◌,
}

abbrev no_other : Text → Option ℕ
no_other t = none

abbrev running : Processes
running = record {
  alive = λ pid. pid == 308;
  start_time = λ pid. if pid == 308 then some (codes "4471") else none;
}

abbrev held : World
held = record { file = some (codes "308 4471"); procs = running }

-- Others leave the file alone.
abbrev quiet_round : Round
quiet_round = record {
  before_read = λ file. file;
  procs = running;
  removes = true;
  before_retry = λ file. file;
}

abbrev quiet : Contest
quiet = record { before_open = λ file. file; first = quiet_round; second = quiet_round }

abbrev wedged : Meeting
wedged = record {
  before_holder = λ file. file;
  serving = false;
  probed = held;
  rounds = held ∷ [];
  clears = true;
  again = quiet;
}

-- A stale file that cannot be taken away ends both rounds.
stuck_file :
    let stuck = record quiet_round { removes = false } in
    (acquire_lock no_other 332
      (record quiet { first = stuck; second = stuck })
      (some (codes "7"))).0
    ≡ false
unfolding acquire_lock read_lock_holder is_held words_of read_lock trim number is_digit
    holder_is_running behind_round
stuck_file = refl

writes : lock_text 308 (some (codes "4471")) ≡ codes "308 4471"
unfolding lock_text print_number
writes = refl

stat_field :
    process_start_time
      (some (codes "7 (my (weird) name) S 1 2 3 4 5 6 7 8 9 10 11 12 13 14 15 16 17 18 4471 20"))
    ≡ some (codes "4471")
unfolding process_start_time is_digit
stat_field = refl

read_lock_holder-lock_text_example :
    read_lock_holder no_other (some (lock_text 308 (some (codes "4471"))))
    ≡ some (record { pid = 308; started_at = some (codes "4471") })
unfolding is_numeral is_digit
read_lock_holder-lock_text_example =
    read_lock_holder-lock_text no_other 308 (some (codes "4471")) (omega arith) refl

claim_ownership-signalled_example :
    let left = (acquire_lock no_other 332 quiet held.file).1 in
    ((start : Text) × (read_lock_holder no_other left
        ≡ some (record { pid = 308; started_at = some start }))
      × (running.alive 308 ≡ true)
      × (running.start_time 308 ≡ some start)
      × (◌≢◌ {A = ℕ} 308 332)
      × (wedged.serving ≡ false))
    × ((held_first no_other 332 quiet held.file ≡ true) × (left ≡ held.file)
        ⊎ (held_first no_other 332 quiet held.file ≡ false)
          × (found_again no_other quiet held.file ≢ none))
unfolding claim_ownership acquire_lock read_lock_holder claim_from is_held words_of read_lock trim
    number is_digit holder_is_running challenge take_over is_signalled holder_is_identified
claim_ownership-signalled_example =
    claim_ownership-signalled no_other 332 held.file quiet wedged 308 refl

claim_ownership-owned_example :
    let left = (acquire_lock no_other 332 quiet held.file).1 in
    let owner = owner_of (read_lock_holder no_other left) in
    let end = final_world no_other 332 left wedged in
    let cleared = cleared_file no_other owner true end in
    ((claim_ownership no_other 332 held.file quiet wedged).owned ≡ true)
    ⊎ ((names owner (read_lock_holder no_other end.file) ≡ false)
        ⊎ (wedged.clears ≡ false)
        ⊎ (wedged.again.before_open none ≢ none))
      × ((held_first no_other 332 quiet cleared ≡ true)
          ⊎ (found_again no_other quiet cleared ≢ none))
claim_ownership-owned_example = claim_ownership-owned no_other 332 held.file quiet wedged refl

race_shared_example :
    let none_there : Directory = record { entry = none; next_inode = 5 } in
    let r = race no_other running 308 332 overtaken (started none_there) in
    (r.first ≡ won)
    × (r.second ≡ won)
    × ((file : LockFile) × (r.directory.entry ≡ some file)
        × (file.text ≡ lock_text 332 (running.start_time 332)))
race_shared_example = race_shared no_other running 308 332 5
