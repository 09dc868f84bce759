-- ===== src/Titler/Tests.antt =====
-- Names and titles in plain letters.
use claude_persist.Texts.{Text, codes, is_upper}
use claude_persist.Titler.Compose.{compose_title, project_tag, without_tag}
use claude_persist.Titler.Clean.{clean_title, tidy_name}
use claude_persist.Titler.Names.{
  is_material_change, was_worn, agrees, decide_rename, remember_title, still_other, last_of,
  max_past_titles,
}
use claude_persist.Titler.Rename.{
  Naming, past_of, proposal, memory_of, remembered, apply_decision, consider, take_answer,
  take_answers,
}
use claude_persist.Titler.Rename.Twice.{second_look}
use claude_persist.Titler.Rename.Worn.{worn, IsSettled, take_answers-worn}
use claude_persist.Prelude.{
  Bool, ◌-◌, ◌+◌, ◌≡◌, refl, ◌⊎◌, ◌++◌, true, false, some, none, Option, List, [], ◌∷◌, map, arith,
  if◌then◌else◌,
}

abbrev small : Text → Text
small t = map (λ c. if is_upper c then c + 32 else c) t

abbrev capital : Text → Text
capital t = map (λ c. if is_upper (c - 32) then c - 32 else c) t

abbrev never : Text → Bool
never t = false

tags :
    (project_tag small (codes "/home/me/blooper2.0/") ≡ codes "blp")
    × (project_tag small (codes "/home/me/claude-persist") ≡ codes "cld")
    × (project_tag small (codes "/home/me/2026-audit") ≡ codes "adt")
unfolding project_tag is_upper
tags = (refl, refl, refl)

one_tag_only : without_tag (codes "blp|Blp|one message one video") ≡ codes "one message one video"
unfolding without_tag
one_tag_only = refl

cleans :
    clean_title never (codes "\nTitle: \"Video model receipt for the long checkout page.\"")
    ≡ some (codes "Video model receipt for the")
unfolding clean_title
cleans = refl

tidies :
    tidy_name small capital (codes "fix action_router CI leaks") (codes "leaks2")
    ≡ some (codes "Action router CI")
unfolding tidy_name is_upper
tidies = refl

rephrased :
    is_material_change small (codes "blp|Git worktrees") (codes "blp|Worktree pruning") ≡ false
unfolding is_material_change is_upper
rephrased = refl

renamed : is_material_change small (codes "blp|Git worktrees") (codes "blp|Video models") ≡ true
unfolding is_material_change is_upper
renamed = refl

abbrev placeholder : Naming
placeholder = record {
  title = codes "blp|Git worktrees";
  cwd = codes "/home/me/blooper";
  turns = 3;
  titled_at = some 1000;
  title_set_by_user = false;
  past_titles = none;
  pending_title = none;
}

abbrev looks : List (Option Text)
looks = some (codes "Video models") ∷ none ∷ some (codes "blp|Models of video") ∷ []

two_looks_agree :
    ((take_answers small looks placeholder).title ≡ codes "blp|Models of video")
    × ((take_answers small looks placeholder).past_titles ≡ some (codes "blp|Git worktrees" ∷ []))
unfolding take_answers take_answer consider decide_rename apply_decision memory_of proposal
    remembered agrees was_worn is_material_change remember_title still_other last_of is_upper
    compose_title project_tag without_tag
two_looks_agree = (refl, refl)

second_look_example :
    let m = take_answer small false (some (codes "Video models")) placeholder in
    let last = take_answer small false (some (codes "Models of video")) m in
    let p = proposal small placeholder.cwd (codes "Video models") in
    let q = proposal small placeholder.cwd (codes "Models of video") in
    (last.title ≡ m.title)
    ⊎ (m.title ≡ placeholder.title)
      × (is_material_change small p q ≡ false)
      × (last.title ≡ q)
      × (is_material_change small placeholder.title q ≡ true)
      × (was_worn small (past_of m.past_titles) q ≡ false)
second_look_example =
    second_look small (codes "Video models") (codes "Models of video") placeholder refl refl

placeholder-IsSettled : IsSettled small placeholder
placeholder-IsSettled = record { others = tt; few = omega arith }

take_answers-worn_example :
    (past_of (take_answers small looks placeholder).past_titles
      ≡ last_of max_past_titles ([] ++ worn small looks placeholder))
    × IsSettled small (take_answers small looks placeholder)
take_answers-worn_example = take_answers-worn small looks placeholder placeholder-IsSettled
