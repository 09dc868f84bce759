-- ===== src/NewerInstall/Tests.antt =====
-- A folder with three builds of the extension and one of another.
use claude_persist.DaemonClient.{compare_versions}
use claude_persist.NewerInstall.{
  mine, found_versions, installed_versions, pending_upgrade, consider_build,
}
use claude_persist.NewerInstall.Best.{IsNewest, pending_upgrade-IsNewest}
use claude_persist.Texts.{Text, codes, text_eq}
use claude_persist.Prelude.{false, Option, none, some, List, [], ◌∷◌, ◌≡◌, refl, if◌then◌else◌}

abbrev base : Text
base = codes "me.ext-1.0.9"

abbrev other : Text
other = codes "me.ext-more-9.9.9"

abbrev folders : List Text
folders = codes "me.ext-1.0.9" ∷ codes "me.ext-1.0.10-x64" ∷ other ∷ codes "me.ext-1.0.2" ∷ []

-- The manifest of a folder has the version of its name.
abbrev version_of : Text → Option Text
version_of name =
    if text_eq name (codes "me.ext-1.0.10-x64")
    then some (codes "1.0.10")
    else if text_eq name base
    then some (codes "1.0.9")
    else some (codes "1.0.2")

other_build : mine base other ≡ false
unfolding mine
other_build = refl

none_listed : installed_versions version_of base none ≡ []
unfolding installed_versions
none_listed = refl

sorted :
    installed_versions version_of base (some folders)
    ≡ codes "1.0.2" ∷ codes "1.0.9" ∷ codes "1.0.10" ∷ []
unfolding installed_versions text_eq compare_versions
sorted = refl

newest : pending_upgrade version_of base (some folders) (codes "1.0.9") ≡ some (codes "1.0.10")
unfolding pending_upgrade text_eq compare_versions consider_build
newest = refl

pending_upgrade-IsNewest_example :
    IsNewest
      (codes "1.0.9")
      (pending_upgrade version_of base (some folders) (codes "1.0.9"))
      (found_versions version_of base folders)
pending_upgrade-IsNewest_example = pending_upgrade-IsNewest version_of base folders (codes "1.0.9")
