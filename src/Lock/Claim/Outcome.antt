-- ===== src/Lock/Claim/Outcome.antt =====
-- daemon/src/ownership.ts: whom a claim signals, and when it ends with the lock.
use claude_persist.Texts.{Text, words_of, eq_of_text_eq}
use claude_persist.Lock.{
  LockHolder, Processes, Round, Contest, behind_round, read_lock_holder, acquire_lock, attempt,
  holder_is_identified, holder_is_running, is_held, read_lock, is_recorded, same_start,
}
use claude_persist.Lock.Claim.{
  World, owner_of, Meeting, names, wait_for_release, is_signalled, cleared_file, take_over,
  challenge, claim_from, claim_ownership,
}
use claude_persist.Prelude.{
  ℕ, Bool, true, false, ◌&&◌, Option, none, some, [], ◌∷◌, ◌≡◌, ◌≢◌, ◌⊎◌, refl, sym, arith,
  if◌then◌else◌, inl, inr, Bool-cases, ap, ◌∙◌,
}

module _ (other_number : Text → Option ℕ) where
  abbrev holder_in : Option Text → Option LockHolder
  holder_in file = read_lock_holder other_number file

  holder_none : holder_in none ≡ none
  unfolding read_lock_holder read_lock words_of
  holder_none = refl

  -- The file that the first round reads.
  abbrev pub read_first : Contest → Option Text → Option Text
  read_first c file = c.first.before_read (c.before_open file)

  -- It is held by another process that runs.
  abbrev pub held_first : ℕ → Contest → Option Text → Bool
  held_first pid c file = is_held c.first.procs pid (holder_in (read_first c file))

  -- The file that the second round finds where the first one did not end the loop.
  abbrev pub found_again : Contest → Option Text → Option Text
  found_again c file = behind_round c.first (read_first c file)

  abbrev acquired : ℕ → Contest → Option Text → Bool × Option Text
  acquired pid c file = acquire_lock other_number pid c file

  attempt-none :
      (pid : ℕ) (r : Round) (file : Option Text)
      → file ≡ none
      → (attempt other_number pid (r ∷ []) file).0 ≡ true
  unfolding attempt
  attempt-none pid r file e = rw e refl

  fails_from :
      (pid : ℕ) (c : Contest) (opened : Option Text)
      → let read = c.first.before_read opened in
        let again = behind_round c.first read in
        let r = attempt other_number pid (c.first ∷ c.second ∷ []) opened in
        r.0 ≡ false
        → (opened ≢ none)
          × ((is_held c.first.procs pid (holder_in read) ≡ true) × (r.1 ≡ read)
              ⊎ (is_held c.first.procs pid (holder_in read) ≡ false) × (again ≢ none))
  unfolding attempt
  fails_from pid c none h = absurd (ground arith)
  fails_from pid c (some text) h =
      let read = c.first.before_read (some text) in
      let again = behind_round c.first read in
      (
        λ e. absurd (cc),
        elim (Bool-cases (is_held c.first.procs pid (holder_in read))) [
          | inl held ↦ inl (held, rw held refl)
          | inr free ↦
              let last : (attempt other_number pid (c.second ∷ []) again).0 ≡ false =
                rw free at h in
              inr (free, λ e. absurd (let win = attempt-none pid c.second again e in ground arith))
        ],
      )

  -- Where `acquireLock` fails, there was a file, and either what was read is held, and is left, or
  -- the second round finds a file as well.
  acquire_lock-fails :
      (pid : ℕ) (c : Contest) (file : Option Text)
      → (acquired pid c file).0 ≡ false
      → (c.before_open file ≢ none)
        × ((held_first pid c file ≡ true) × ((acquired pid c file).1 ≡ read_first c file)
            ⊎ (held_first pid c file ≡ false) × (found_again c file ≢ none))
  unfolding acquire_lock
  acquire_lock-fails pid c file h = fails_from pid c (c.before_open file) h

  recorded_start :
      (recorded start : Option Text) (alive : Bool)
      → (is_recorded recorded && (alive && same_start recorded start)) ≡ true
      → (started : Text) × (recorded ≡ some started) × (alive ≡ true) × (start ≡ some started)
  recorded_start none start alive h = ground arith
  recorded_start (some r) none alive h = ground arith
  recorded_start (some r) (some s) false h = ground arith
  recorded_start (some r) (some s) true h = (r, refl, refl, ap some (sym (eq_of_text_eq r s h)))

  identified :
      (procs : Processes) (holder : Option LockHolder)
      → holder_is_identified procs holder ≡ true
      → (started : Text) × (holder
          ≡ some (record { pid = owner_of holder; started_at = some started }))
        × (procs.alive (owner_of holder) ≡ true)
        × (procs.start_time (owner_of holder) ≡ some started)
  unfolding holder_is_identified holder_is_running
  identified procs none h = ground arith
  identified procs (some holder) h =
      let (started, recorded, alive, start) =
        recorded_start holder.started_at (procs.start_time holder.pid) (procs.alive holder.pid) h in
      (started, ground arith, alive, start)

  claim_ownership_cases :
      (pid : ℕ) (file : Option Text) (began : Contest) (m : Meeting)
      → ((acquired pid began file).0 ≡ false)
          × (claim_ownership other_number pid file began m
              ≡ challenge other_number pid
                  (holder_in (m.before_holder (acquired pid began file).1))
                  m)
        ⊎ (claim_ownership other_number pid file began m
            ≡ record { owned = true; file = (acquired pid began file).1; signalled = none })
  unfolding claim_ownership claim_from
  claim_ownership_cases pid file began m = elim (Bool-cases (acquired pid began file).0) [
    | inl won ↦ inr (rw won refl)
    | inr lost ↦ inl (lost, rw lost refl)
  ]

  challenge-signalled :
      (pid : ℕ) (holder : Option LockHolder) (m : Meeting) (p : ℕ)
      → (challenge other_number pid holder m).signalled ≡ some p
      → (m.serving ≡ false)
        × (holder_is_identified m.probed.procs holder ≡ true)
        × (p ≢ pid)
        × (owner_of holder ≡ p)
  unfolding challenge take_over is_signalled
  challenge-signalled pid holder m p h = ground arith

  -- A claim signals only a process whose start time is the one that the lock file recorded for its
  -- pid where the claim read its holder, behind the first `acquireLock`, another than itself, and
  -- only where nothing answered the probe. If others leave it alone in between, that file is the one
  -- that the first round read, unless nobody else who runs held that one and the second round found
  -- a file again.
  pub claim_ownership-signalled :
      (pid : ℕ) (file : Option Text) (began : Contest) (m : Meeting) (p : ℕ)
      → (claim_ownership other_number pid file began m).signalled ≡ some p
      → let left = (acquire_lock other_number pid began file).1 in
        ((started : Text) × (holder_in (m.before_holder left)
            ≡ some (record { pid = p; started_at = some started }))
          × (m.probed.procs.alive p ≡ true)
          × (m.probed.procs.start_time p ≡ some started)
          × (p ≢ pid)
          × (m.serving ≡ false))
        × ((held_first pid began file ≡ true) × (left ≡ read_first began file)
            ⊎ (held_first pid began file ≡ false) × (found_again began file ≢ none))
  claim_ownership-signalled pid file began m p h = elim (claim_ownership_cases pid file began m) [
    | inl (lost, e) ↦
        let left = m.before_holder (acquired pid began file).1 in
        let (quiet, known, other, same) =
          challenge-signalled pid (holder_in left) m p (sym (ap (λ r. r.signalled) e) ∙ h) in
        let (started, holder, alive, start) = identified m.probed.procs (holder_in left) known in
        (
          rw (← same) (started, holder, alive, start, rw same other, quiet),
          (acquire_lock-fails pid began file lost).1,
        )
    | inr e ↦ let bad : none ≡ some p = sym (ap (λ r. r.signalled) e) ∙ h in absurd (cc)
  ]

  -- The world behind the waits; `left` is the file whose holder is read.
  unfoldable pub final_world : ℕ → Option Text → Meeting → World
  unfolding wait_for_release is_signalled
  final_world pid left m =
      let holder = holder_in left in
      if is_signalled other_number pid m.probed holder
      then wait_for_release other_number (owner_of holder) m.probed m.rounds
      else m.probed

  challenge-quiet :
      (pid : ℕ) (left : Option Text) (m : Meeting)
      → m.serving ≡ false
      → let end = final_world pid left m in
        let file = cleared_file other_number (owner_of (holder_in left)) m.clears end in
        (challenge other_number pid (holder_in left) m).owned
        ≡ (acquire_lock other_number pid m.again file).0
  unfolding challenge take_over final_world
  challenge-quiet pid left m quiet = rw quiet

  cleared_file-cases :
      (owner : ℕ) (clears : Bool) (c : Contest) (end : World)
      → c.before_open (cleared_file other_number owner clears end) ≢ none
      → (names owner (holder_in end.file) ≡ false) ⊎ (clears ≡ false) ⊎ (c.before_open none ≢ none)
  unfolding cleared_file
  cleared_file-cases owner clears c end h = elim (Bool-cases (names owner (holder_in end.file))) [
    | inr others ↦ inl others
    | inl mine ↦ elim (Bool-cases clears) [
      | inr stays ↦ inr (inl stays)
      | inl gone ↦ inr (inr (rw (mine, gone) at h))
    ]
  ]

  -- A claim that no daemon answers ends with the lock, unless the second `acquireLock` finds a file,
  -- and then its first round reads one that another process holds that runs, or its second round
  -- finds one again. It finds a file at first only where the file behind the waits does not name the
  -- process any more that held it, or cannot be taken away, or others make one behind that.
  pub claim_ownership-owned :
      (pid : ℕ) (file : Option Text) (began : Contest) (m : Meeting)
      → m.serving ≡ false
      → let left = m.before_holder (acquire_lock other_number pid began file).1 in
        let owner = owner_of (holder_in left) in
        let end = final_world pid left m in
        let cleared = cleared_file other_number owner m.clears end in
        ((claim_ownership other_number pid file began m).owned ≡ true)
        ⊎ ((names owner (holder_in end.file) ≡ false)
            ⊎ (m.clears ≡ false)
            ⊎ (m.again.before_open none ≢ none))
          × ((held_first pid m.again cleared ≡ true) ⊎ (found_again m.again cleared ≢ none))
  claim_ownership-owned pid file began m quiet = elim (claim_ownership_cases pid file began m) [
    | inr e ↦ inl (ap (λ r. r.owned) e)
    | inl (lost, e) ↦
        let left = m.before_holder (acquired pid began file).1 in
        let end = final_world pid left m in
        let owner = owner_of (holder_in left) in
        let cleared = cleared_file other_number owner m.clears end in
        let same = ap (λ r. r.owned) e ∙ challenge-quiet pid left m quiet in
        elim (Bool-cases (acquired pid m.again cleared).0) [
          | inl won ↦ inl (same ∙ won)
          | inr missed ↦
              let (found, why) = acquire_lock-fails pid m.again cleared missed in
              inr (
                cleared_file-cases owner m.clears m.again end found,
                elim why [ inl (held, kept) ↦ inl held | inr (free, again) ↦ inr again ],
              )
        ]
  ]
