-- ===== src/LogStore/Disk/Rotate.antt =====
-- Rotation keeps the log: no archive is overwritten, and what all files hold reads as before.
use claude_persist.Prelude.{
  ℕ, ◌<◌, ◌⊎◌, ◌≡◌, refl, ap, ◌∙◌, Bool, true, false, Option, none, some, List, [], ◌∷◌, ◌++◌, map,
  arith, All, Option-cases, inl, inr,
}
use mathlib.Core.List.{flatten, append_assoc, append-nil, map-append}
use claude_persist.LogStore.{LogFile, is_dropped}
use claude_persist.LogStore.Reads.{all_events, file_events}
use claude_persist.LogStore.Disk.{
  Disk, sort, generations, list_archive_generations, archive_file, all_log_files, or_empty,
  next_generation, rename_over, rotate_active_log,
}
use claude_persist.LogStore.Disk.Sorted.{All-sort, sort-append_last, next_generation_fresh}

rename_over-fresh :
    (gen : ℕ) (file : LogFile) (files : List (ℕ × LogFile))
    → All (λ g. g < gen) (generations files)
    → rename_over gen file files ≡ files ++ (gen, file) ∷ []
unfolding rename_over generations
rename_over-fresh gen file [] h = refl
rename_over-fresh gen file ((g, old) ∷ files) h =
    ground (arith, rename_over-fresh gen file files h.1)

generations-append :
    (files : List (ℕ × LogFile)) (gen : ℕ) (file : LogFile)
    → generations (files ++ (gen, file) ∷ []) ≡ generations files ++ gen ∷ []
unfolding generations
generations-append [] gen file = refl
generations-append ((g, old) ∷ files) gen file = rw (generations-append files gen file)

archive_file-append :
    (files : List (ℕ × LogFile)) (gen g : ℕ) (file : LogFile)
    → g < gen
    → archive_file (files ++ (gen, file) ∷ []) g ≡ archive_file files g
unfolding archive_file
archive_file-append [] gen g file h = ground arith
archive_file-append ((k, old) ∷ files) gen g file h =
    ground (arith, archive_file-append files gen g file h)

archive_file-append_self :
    (files : List (ℕ × LogFile)) (gen : ℕ) (file : LogFile)
    → All (λ g. g < gen) (generations files)
    → archive_file (files ++ (gen, file) ∷ []) gen ≡ file
unfolding archive_file generations
archive_file-append_self [] gen file h = ground arith
archive_file-append_self ((k, old) ∷ files) gen file h =
    ground (arith, archive_file-append_self files gen file h.1)

map-eq_of_All {ℓ κ} :
    {A : Type ℓ} {B : Type κ} (f g : A → B) (xs : List A)
    → All (λ x. f x ≡ g x) xs
    → map f xs ≡ map g xs
map-eq_of_All f g [] h = refl
map-eq_of_All f g (x ∷ xs) h = cc (h.0, map-eq_of_All f g xs h.1)

-- The pointwise facts about the archives that are older than `gen`.
archive_file-All :
    (files : List (ℕ × LogFile)) (gen : ℕ) (file : LogFile) (gens : List ℕ)
    → All (λ g. g < gen) gens
    → All (λ g. archive_file (files ++ (gen, file) ∷ []) g ≡ archive_file files g) gens
archive_file-All files gen file [] h = tt
archive_file-All files gen file (g ∷ gens) h =
    (archive_file-append files gen g file h.0, archive_file-All files gen file gens h.1)

-- All archives with one more behind them.
files-append :
    (files : List (ℕ × LogFile)) (gen : ℕ) (file : LogFile)
    → All (λ g. g < gen) (generations files)
    → map
        (archive_file (files ++ (gen, file) ∷ []))
        (sort (generations (files ++ (gen, file) ∷ [])))
      ≡ map (archive_file files) (sort (generations files)) ++ file ∷ []
files-append files gen file h =
    rw (generations-append files gen file, sort-append_last gen (generations files) h, map-append)
      (cc (
        map-eq_of_All (archive_file (files ++ (gen, file) ∷ [])) (archive_file files)
            (sort (generations files))
            (archive_file-All files gen file (sort (generations files)) (All-sort _ _ h)),
        archive_file-append_self files gen file h,
      ))

abbrev pub next_of : Disk → ℕ
next_of disk = next_generation (list_archive_generations disk)

fresh : (disk : Disk) → All (λ g. g < next_of disk) (generations disk.archives)
unfolding list_archive_generations
fresh disk = next_generation_fresh (generations disk.archives)

rotate_renamed :
    (disk : Disk) (file : LogFile)
    → disk.active ≡ some file
    → rotate_active_log true disk
      ≡ (record { archives = disk.archives ++ (next_of disk, file) ∷ []; active = none }, true)
unfolding rotate_active_log
rotate_renamed disk file e =
    rw (e, rotate_active_log)
      (rw (rename_over-fresh (next_of disk) file disk.archives (fresh disk)))

rotate_absent :
    (renames : Bool) (disk : Disk)
    → disk.active ≡ none
    → rotate_active_log renames disk ≡ (disk, false)
unfolding rotate_active_log
rotate_absent renames disk e = ground arith

rotate_refused : (disk : Disk) → rotate_active_log false disk ≡ (disk, false)
unfolding rotate_active_log
rotate_refused disk = ground arith

-- The archives that a rotation leaves: the old ones, and behind them the active file, if there was
-- one and it could be renamed, under a number above all that were there. Without these the disk
-- stays as it was, and the result is false.
pub rotate_active_log_cases :
    (renames : Bool) (disk : Disk)
    → ((file : LogFile) × (disk.active ≡ some file)
        × (renames ≡ true)
        × (rotate_active_log renames disk ≡ (
          record { archives = disk.archives ++ (next_of disk, file) ∷ []; active = none },
          true,
        ))
        × All (λ g. g < next_of disk) (generations disk.archives))
      ⊎ (((disk.active ≡ none) ⊎ (renames ≡ false))
          × (rotate_active_log renames disk ≡ (disk, false)))
rotate_active_log_cases false disk = inr (inr refl, rotate_refused disk)
rotate_active_log_cases true disk = elim (Option-cases disk.active) [
  | inl e ↦ inr (inl e, rotate_absent true disk e)
  | inr (file, e) ↦ inl (file, e, refl, rotate_renamed disk file e, fresh disk)
]

module _ {ℓ} {Event : Type ℓ} (json : List ℕ → Option Event) (decode : List ℕ → List ℕ) where
  pub all_events-append :
      (xs ys : List LogFile)
      → all_events json decode (xs ++ ys) ≡ all_events json decode xs ++ all_events json decode ys
  all_events-append [] ys = refl
  all_events-append (x ∷ xs) ys = rw (all_events-append xs ys, append_assoc)

  pub file_events-nil : file_events json decode [] ≡ []
  unfolding is_dropped flatten
  file_events-nil = refl

  -- The archives in order.
  abbrev pub archived : Disk → List Event
  archived disk =
      all_events json decode (map (archive_file disk.archives) (sort (generations disk.archives)))

  pub all_events_split :
      (disk : Disk)
      → all_events json decode (all_log_files disk)
        ≡ archived disk ++ file_events json decode (or_empty disk.active)
  unfolding all_log_files list_archive_generations
  all_events_split disk =
      all_events-append _ (or_empty disk.active ∷ [])
      ∙ ap (λ es. archived disk ++ es) (append-nil (file_events json decode (or_empty disk.active)))

  all_log_files_renamed :
      (disk : Disk) (file : LogFile)
      → disk.active ≡ some file
      → all_events json decode (
          all_log_files
            (record { archives = disk.archives ++ (next_of disk, file) ∷ []; active = none }))
        ≡ all_events json decode (all_log_files disk)
  unfolding all_log_files list_archive_generations
  all_log_files_renamed disk file e =
      rw (files-append disk.archives (next_of disk) file (fresh disk), e, all_log_files)
        (rw all_events-append (rw file_events-nil (rw append-nil)))

-- Whatever a rotation does, reading all files afterwards gives the same events in the same order.
pub rotate_active_log-all_events {ℓ} :
    {Event : Type ℓ} (json : List ℕ → Option Event) (decode : List ℕ → List ℕ) (renames : Bool)
    (disk : Disk)
    → all_events json decode (all_log_files (rotate_active_log renames disk).0)
      ≡ all_events json decode (all_log_files disk)
rotate_active_log-all_events json decode renames disk =
    elim (rotate_active_log_cases renames disk) [
      | inl (file, e, _, same, _) ↦ rw same (all_log_files_renamed json decode disk file e)
      | inr (_, same) ↦ rw same
    ]
