-- ===== src/Lock/Claim.antt =====
-- daemon/src/ownership.ts: whether this process gets to be the daemon. What the world is when an
-- `await` returns, and what others do to the file between two calls, is an argument.
pub mod Outcome
use claude_persist.Texts.{Text}
use claude_persist.Lock.{
  LockHolder, Processes, Contest, read_lock_holder, acquire_lock, attempt, holder_is_identified,
  holder_is_running, is_held, lock_text,
}
use claude_persist.Prelude.{
  ℕ, suc, Bool, true, false, not, ◌&&◌, Option, none, some, List, [], ◌∷◌, ◌==◌, ◌≡◌, ◌≢◌, ◌⊎◌,
  refl, arith, if◌then◌else◌,
}

-- The lock file and the processes.
pub record World : Type 0 where
  pub file : Option Text
  pub procs : Processes

-- What the claim ends with: whether it owns the lock, the file, and the process it signalled.
pub record Claimed : Type 0 where
  pub owned : Bool
  pub file : Option Text
  pub signalled : Option ℕ

-- What this process meets: what others make of the file before its holder is read, the reply of the
-- probe and the world then, the worlds after the waits of 100 ms for as long as there is time,
-- whether the last owner's file can be taken away, and the rounds of the second `acquireLock`.
pub record Meeting : Type 0 where
  pub before_holder : Option Text → Option Text
  pub serving : Bool
  pub probed : World
  pub rounds : List World
  pub clears : Bool
  pub again : Contest

abbrev pub owner_of : Option LockHolder → ℕ
owner_of none = 0
owner_of (some holder) = holder.pid

-- `readLockHolder(lockFile)?.pid === owner`
unfoldable pub names : ℕ → Option LockHolder → Bool
names owner none = false
names owner (some holder) = holder.pid == owner

module _ (other_number : Text → Option ℕ) where
  abbrev holder_in : World → Option LockHolder
  holder_in w = read_lock_holder other_number w.file

  -- The loop that lets the owner release the lock itself.
  unfoldable pub wait_for_release : ℕ → World → List World → World
  wait_for_release owner w [] = w
  wait_for_release owner w (next ∷ rounds) =
      let later = wait_for_release owner next rounds in
      if names owner (holder_in w) then later else w

  -- `holderIsIdentified(holder) && owner !== pid`
  unfoldable pub is_signalled : ℕ → World → Option LockHolder → Bool
  is_signalled pid w holder = holder_is_identified w.procs holder && not (owner_of holder == pid)

  -- From the takeover on: the file is taken away where it still names the owner.
  unfoldable pub cleared_file : ℕ → Bool → World → Option Text
  cleared_file owner clears w = if names owner (holder_in w) && clears then none else w.file

  unfoldable pub take_over : ℕ → Option LockHolder → Meeting → Claimed
  take_over pid holder m =
      let owner = owner_of holder in
      let signalled = is_signalled pid m.probed holder in
      let w = if signalled then wait_for_release owner m.probed m.rounds else m.probed in
      let (owned, file) = acquire_lock other_number pid m.again (cleared_file owner m.clears w) in
      record { owned = owned; file = file; signalled = if signalled then some owner else none }

  unfoldable pub challenge : ℕ → Option LockHolder → Meeting → Claimed
  challenge pid holder m =
      if m.serving
      then record { owned = false; file = m.probed.file; signalled = none }
      else take_over pid holder m

  -- After the first attempt, which left `file`.
  unfoldable pub claim_from : ℕ → Bool → Option Text → Meeting → Claimed
  claim_from pid true file m = record { owned = true; file = file; signalled = none }
  claim_from pid false file m =
      challenge pid (read_lock_holder other_number (m.before_holder file)) m

  -- `began` has the rounds of the first `acquireLock`.
  unfoldable pub claim_ownership : ℕ → Option Text → Contest → Meeting → Claimed
  claim_ownership pid file began m =
      let (owned, left) = acquire_lock other_number pid began file in claim_from pid owned left m
