-- ===== src/LogStore/Disk.antt =====
-- The generations of daemon/src/logStore.ts: the files of one session on disk. The directory is
-- the archives by the number behind `.jsonl.`, in the order that `readdir` lists them, and the
-- active file if there is one. Names with leading zeros, which the daemon never writes, and
-- other sessions' files, which the pattern of the listing leaves out, are not modelled.
pub mod Sorted
pub mod Rotate
use claude_persist.Prelude.{
  ℕ, suc, ◌+◌, Bool, true, false, Option, none, some, List, [], ◌∷◌, ◌++◌, map, leb, ◌==◌,
  if◌then◌else◌,
}
use claude_persist.LogStore.{LogFile}

pub record Disk : Type 0 where
  pub archives : List (ℕ × LogFile)
  pub active : Option LogFile

-- `gens.sort((a, b) => a - b)`
unfoldable pub insert : ℕ → List ℕ → List ℕ
insert x [] = x ∷ []
insert x (y ∷ ys) = let later = insert x ys in if leb x y then x ∷ y ∷ ys else y ∷ later

unfoldable pub sort : List ℕ → List ℕ
unfolding insert
sort [] = []
sort (x ∷ xs) = insert x (sort xs)

unfoldable pub generations : List (ℕ × LogFile) → List ℕ
generations [] = []
generations ((gen, file) ∷ files) = gen ∷ generations files

unfoldable pub list_archive_generations : Disk → List ℕ
unfolding sort generations
list_archive_generations disk = sort (generations disk.archives)

-- A file opened by its generation; reading a missing file is reading no line.
unfoldable pub archive_file : List (ℕ × LogFile) → ℕ → LogFile
archive_file [] gen = []
archive_file ((g, file) ∷ files) gen = if g == gen then file else archive_file files gen

abbrev pub or_empty : Option LogFile → LogFile
or_empty none = []
or_empty (some file) = file

unfoldable pub all_log_files : Disk → List LogFile
unfolding list_archive_generations archive_file
all_log_files disk =
    map (archive_file disk.archives) (list_archive_generations disk) ++ or_empty disk.active ∷ []

-- `gens.length ? gens[gens.length - 1] + 1 : 1`
unfoldable pub next_generation : List ℕ → ℕ
next_generation [] = 1
next_generation (g ∷ []) = g + 1
next_generation (g ∷ h ∷ gens) = next_generation (h ∷ gens)

-- A rename onto a name that is taken replaces that file.
unfoldable pub rename_over : ℕ → LogFile → List (ℕ × LogFile) → List (ℕ × LogFile)
rename_over gen file [] = (gen, file) ∷ []
rename_over gen file ((g, old) ∷ files) =
    if g == gen then (g, file) ∷ files else (g, old) ∷ rename_over gen file files

-- `renames` is false where `renameSync` throws.
unfoldable pub rotate_active_log : Bool → Disk → Disk × Bool
unfolding list_archive_generations next_generation rename_over
rotate_active_log renames disk = elim disk.active [
  | none ↦ (disk, false)
  | some file ↦
      if renames
      then (
        record {
          archives =
              rename_over (next_generation (list_archive_generations disk)) file disk.archives;
          active = none;
        },
        true,
      )
      else (disk, false)
]
