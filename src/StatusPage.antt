-- ===== src/StatusPage.antt =====
-- daemon/src/statusPage.ts: the incident that is named while a turn waits for the servers.
-- `clock_utc` prints the time of day of an ISO instant.
use Prim.Native.String.{◌++◌ as join}
use claude_persist.Prelude.{
  ℕ, String, Option, none, some, List, [], ◌∷◌, ltb, str_eq, if◌then◌else◌,
}

pub record StatusIncident : Type 0 where
  pub id : String
  pub name : String
  pub impact : String
  pub started_at : String

-- `IMPACT_ORDER.indexOf(impact) + 1`, 0 for the -1 of `indexOf`.
unfoldable pub impact_rank : String → ℕ
impact_rank impact =
    if str_eq impact "critical"
    then 1
    else if str_eq impact "major"
    then 2
    else if str_eq impact "minor"
    then 3
    else if str_eq impact "none"
    then 4
    else if str_eq impact "unknown"
    then 5
    else 0

-- The head of a stable sort: the first of those with the least rank.
unfoldable pub worst_of : StatusIncident → List StatusIncident → StatusIncident
unfolding impact_rank
worst_of worst [] = worst
worst_of worst (i ∷ is) =
    worst_of (if ltb (impact_rank i.impact) (impact_rank worst.impact) then i else worst) is

unfoldable pub pick_worst : List StatusIncident → Option StatusIncident
unfolding worst_of
pick_worst [] = none
pick_worst (i ∷ is) = some (worst_of i is)

abbrev since_part : String → String
since_part since = if str_eq since "" then "" else join ", since " since

abbrev impact_part : String → String
impact_part impact =
    if str_eq impact ""
    then ""
    else if str_eq impact "unknown"
    then ""
    else join " (" (join impact ")")

unfoldable pub incident_notice : (String → String) → List StatusIncident → Option String
unfolding pick_worst
incident_notice clock_utc incidents = elim (pick_worst incidents) [
  | none ↦ none
  | some worst ↦ some (
      join "Anthropic reports: \"" (
        join worst.name (
          join "\"" (
            join (impact_part worst.impact) (join (since_part (clock_utc worst.started_at)) ".")))))
]
