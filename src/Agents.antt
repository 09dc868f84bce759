-- ===== src/Agents.antt =====
-- daemon/src/agents.ts: the subagents that a session has working.
use claude_persist.LogStore.{is_space}
use claude_persist.Limits.{trim}
use claude_persist.JsMap
use claude_persist.JsMap.{JsMap}
use claude_persist.Prelude.{
  ℕ, ◌-◌, String, Bool, true, false, Option, none, some, List, [], ◌∷◌, ◌++◌, ◌&&◌, ◌||◌, ◌==◌,
  length, take, drop, ltb, leb, if◌then◌else◌,
}

abbrev pub agent_active_ms : ℕ
agent_active_ms = 45000

pub record AgentActivity : Type 0 where
  pub task_id : Option String
  pub kind : Option String
  pub id : String
  pub description : String
  pub last_activity_at : ℕ

-- `now - lastActivityAt` is negative where the clock has gone back, and then small enough, as 0 is.
unfoldable pub active_agents : JsMap AgentActivity → ℕ → List AgentActivity
active_agents [] now = []
active_agents ((key, agent) ∷ agents) now =
    let live = active_agents agents now in
    if leb (now - agent.last_activity_at) agent_active_ms then agent ∷ live else live

abbrev is_silent : ℕ → AgentActivity → Bool
is_silent now agent = ltb agent_active_ms (now - agent.last_activity_at)

-- The map without the silent ones; whether it changed is whether it is smaller.
unfoldable pub prune_agents : JsMap AgentActivity → ℕ → JsMap AgentActivity
unfolding JsMap.delete_if
prune_agents agents now = JsMap.delete_if (is_silent now) agents

-- An entry of `tasks` that is an object; a description of white space alone is none.
pub record RawTask : Type 0 where
  pub task_id : Option String
  pub task_type : Option String
  pub description : Option String

abbrev or_else : String → Option String → String
or_else d none = d
or_else d (some text) = text

-- `tasksFromLevelSignal` on a `background_tasks_changed` message; none is a `tasks` that is no array.
unfoldable pub task_list : List RawTask → ℕ → List AgentActivity
task_list [] now = []
task_list (raw ∷ tasks) now =
    let rest = task_list tasks now in
    elim raw.task_id [
      | none ↦ rest
      | some task_id ↦
          record {
            task_id = some task_id;
            kind = raw.task_type;
            id = task_id;
            description = or_else "background task" raw.description;
            last_activity_at = now;
          }
          ∷ rest
    ]

-- `replace(/\s+/g, ' ')`
unfoldable pub collapse : List ℕ → List ℕ
unfolding is_space
collapse [] = []
collapse (c ∷ cs) =
    let rest = collapse cs in
    if is_space c
    then elim rest [ [] ↦ 0x20 ∷ [] | d ∷ ds ↦ if d == 0x20 then d ∷ ds else 0x20 ∷ d ∷ ds ]
    else c ∷ rest

unfoldable pub same_text : List ℕ → List ℕ → Bool
same_text [] [] = true
same_text [] (d ∷ ds) = false
same_text (c ∷ cs) [] = false
same_text (c ∷ cs) (d ∷ ds) = c == d && same_text cs ds

abbrev pub agent_tag_max : ℕ
agent_tag_max = 28

-- The texts "subagent" and "background task", and the cut mark.
module _ (subagent background_task : List ℕ) where
  unfoldable pub agent_tag : List ℕ → List ℕ → List ℕ
  unfolding collapse trim same_text
  agent_tag description id =
      let name = collapse (trim description) in
      if length name == 0 || same_text name subagent || same_text name background_task
      then subagent ++ 0x20 ∷ drop (length id - 4) id
      else if ltb agent_tag_max (length name)
      then take (agent_tag_max - 1) name ++ 0x2026 ∷ []
      else name
