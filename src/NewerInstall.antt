-- ===== src/NewerInstall.antt =====
-- extension/src/newerInstall.ts: the builds that are installed beside this one, and the newest of
-- them. The base name of the own directory, the listing and the manifests are arguments; a name
-- holds no line break.
mod Sorting
mod Best
mod Tests
use claude_persist.DaemonClient.{Order, lt, eq, gt, compare_versions}
use claude_persist.Texts.{Text, is_empty, is_digit}
use claude_persist.Prelude.{
  ℕ, Bool, true, false, not, Option, none, some, List, [], ◌∷◌, ◌++◌, ◌==◌, if◌then◌else◌,
}

unfoldable drop_digits : Text → Text
drop_digits [] = []
drop_digits (c ∷ cs) = let rest = drop_digits cs in if is_digit c then rest else c ∷ cs

-- `\d+`, and the rest.
unfoldable after_digits : Text → Option Text
unfolding drop_digits is_digit
after_digits [] = none
after_digits (c ∷ cs) = if is_digit c then some (drop_digits cs) else none

-- `\d+\.`, and the rest.
unfoldable after_part : Text → Option Text
unfolding after_digits
after_part t = elim (after_digits t) [
  | none ↦ none
  | some [] ↦ none
  | some (c ∷ cs) ↦ if c == b'.' then some cs else none
]

-- `/^\d+\.\d+\.\d+/`
unfoldable is_version_start : Text → Bool
unfolding after_part after_digits
is_version_start t = elim (after_part t) [
  | none ↦ false
  | some u ↦ elim (after_part u) [
    | none ↦ false
    | some v ↦ elim (after_digits v) [ none ↦ false | some w ↦ true ]
  ]
]

-- `replace(/-\d+\.\d+\.\d+.*$/, '')`
unfoldable without_version : Text → Text
unfolding is_version_start
without_version [] = []
without_version (c ∷ cs) =
    let rest = without_version cs in
    if c == b'-' then (if is_version_start cs then [] else c ∷ rest) else c ∷ rest

-- What follows a text at the start of another one.
unfoldable after_start : Text → Text → Option Text
after_start [] t = some t
after_start (d ∷ ds) [] = none
after_start (d ∷ ds) (c ∷ cs) = let rest = after_start ds cs in if d == c then rest else none

abbrev starts_version : Option Text → Bool
starts_version none = false
starts_version (some t) = is_version_start t

unfoldable mine : Text → Text → Bool
unfolding without_version after_start is_version_start
mine base name = starts_version (after_start (without_version base ++ (b'-' ∷ [])) name)

-- `Array.prototype.sort` by `compareVersions`: it keeps the order of equal ones.
abbrev pub insert_at : Order → Text → Text → List Text → List Text → List Text
insert_at lt x y ys later = x ∷ y ∷ ys
insert_at eq x y ys later = y ∷ later
insert_at gt x y ys later = y ∷ later

unfoldable insert_version : Text → List Text → List Text
insert_version x [] = x ∷ []
insert_version x (y ∷ ys) = insert_at (compare_versions x y) x y ys (insert_version x ys)

unfoldable sort_from : List Text → List Text → List Text
unfolding insert_version
sort_from sorted [] = sorted
sort_from sorted (x ∷ xs) = sort_from (insert_version x sorted) xs

abbrev add_found : Option Text → List Text → List Text
add_found none rest = rest
add_found (some v) rest = if is_empty v then rest else v ∷ rest

module _ (version_of : Text → Option Text) where
  unfoldable found_versions : Text → List Text → List Text
  unfolding mine
  found_versions base [] = []
  found_versions base (name ∷ folders) =
      let rest = found_versions base folders in
      let more = add_found (version_of name) rest in if mine base name then more else rest

  -- No listing is an error of reading it.
  unfoldable installed_versions : Text → Option (List Text) → List Text
  unfolding found_versions sort_from
  installed_versions base none = []
  installed_versions base (some folders) = sort_from [] (found_versions base folders)

-- A candidate that is newer than the running one, against the best one so far.
abbrev is_gt : Order → Bool
is_gt lt = false
is_gt eq = false
is_gt gt = true

unfoldable better_build : Text → Option Text → Option Text
better_build candidate none = some candidate
better_build candidate (some best) =
    if is_gt (compare_versions candidate best) then some candidate else some best

unfoldable consider_build : Text → Text → Option Text → Option Text
unfolding better_build
consider_build ours candidate best =
    if is_gt (compare_versions candidate ours) then better_build candidate best else best

unfoldable best_from : Text → Option Text → List Text → Option Text
best_from ours best [] = best
best_from ours best (candidate ∷ rest) = best_from ours (consider_build ours candidate best) rest

unfoldable newer_installed_version : Text → List Text → Option Text
unfolding best_from
newer_installed_version ours installed = best_from ours none installed

unfoldable pending_upgrade : (Text → Option Text) → Text → Option (List Text) → Text → Option Text
unfolding installed_versions newer_installed_version
pending_upgrade version_of base listing ours =
    newer_installed_version ours (installed_versions version_of base listing)
