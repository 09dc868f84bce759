-- ===== src/Session/Message.antt =====
-- The messages of the SDK in daemon/src/session.ts: `blocks of a message, its result, and the
-- badge of a subagent.
-- A message comes with its structure checked: an optional part is none where a `typeof` test fails.
use claude_persist.JsMap
use claude_persist.JsMap.{JsMap}
use claude_persist.Agents.{AgentActivity, RawTask, task_list, agent_tag}
use claude_persist.Session.Event.{
  Text, codes, assistant_text, tool_use, tool_result, TurnResult, Usage,
}
use claude_persist.Session.State.{Session, Env}
use claude_persist.Session.Append.{append_event, or_zero, when}
use claude_persist.Prelude.{
  ℕ, ◌+◌, String, Bool, true, not, ◌&&◌, ◌||◌, Option, none, some, List, [], ◌∷◌, ◌++◌, length,
  take, max, ltb, str_eq, if◌then◌else◌,
}

-- A text has more than white space in it; a `tool_call` has its id, name, input and description.
pub data Block : Type 0 where
  text_content : Text → Block
  tool_call : Option String → String → String → String → Block
  other_block : Block

pub data ResultBlock : Type 0 where
  tool_answer : Option String → Text → Bool → ResultBlock
  other_answer : ResultBlock

pub record SdkResult : Type 0 where
  pub is_error : Bool
  pub text : Text
  pub usage : Option Usage
  pub context_windows : List ℕ
  pub total_cost_usd : Option String
  pub duration_ms : Option ℕ

pub data Body : Type 0 where
  init : Option String → Option String → Body
  background_tasks_changed : List RawTask → Body
  assistant : Option Usage → List Block → Body
  user : List ResultBlock → Body
  result : SdkResult → Body
  -- Messages that only reach a callback, and those that are ignored.
  other : Body

pub record SdkMessage : Type 0 where
  pub parent : Option String
  pub body : Body

-- `summarize`
unfoldable pub summarize : Text → ℕ → Text
summarize text limit =
    if ltb limit (length text)
    then take limit text ++ codes "\n" ++ 0x2026 ∷ codes " [truncated]"
    else text

unfoldable pub context_tokens_of : Usage → ℕ
context_tokens_of usage =
    or_zero usage.input_tokens
    + or_zero usage.cache_read_input_tokens
    + or_zero usage.cache_creation_input_tokens
    + or_zero usage.output_tokens

unfoldable pub turn_tokens_of : Usage → ℕ
turn_tokens_of usage =
    or_zero usage.input_tokens
    + or_zero usage.cache_creation_input_tokens
    + or_zero usage.output_tokens

-- `...(n ? { … } : {})`: zero is left out.
abbrev pub if_some : ℕ → Option ℕ
if_some n = if ltb 0 n then some n else none

abbrev tokens_by : (Usage → ℕ) → Option Usage → Option ℕ
tokens_by f none = none
tokens_by f (some usage) = if_some (f usage)

unfoldable pub largest : List ℕ → ℕ
largest [] = 0
largest (n ∷ ns) = max n (largest ns)

abbrev pub or_usage : Option Usage → Option Usage → Option Usage
or_usage none usage = usage
or_usage (some last) usage = some last

unfoldable pub turn_result : Option Usage → SdkResult → TurnResult
unfolding summarize context_tokens_of turn_tokens_of largest
turn_result last_call r = record {
  summary = summarize r.text 400;
  cost_usd = r.total_cost_usd;
  duration_ms = r.duration_ms;
  context_tokens = tokens_by context_tokens_of (or_usage last_call r.usage);
  context_window = if_some (largest r.context_windows);
  turn_tokens = tokens_by turn_tokens_of r.usage;
}

-- `rememberAgentName`: the name goes to the end; beyond 256 the first ones are dropped.
unfoldable pub drop_oldest : JsMap String → JsMap String
drop_oldest [] = []
drop_oldest ((key, name) ∷ names) =
    let rest = drop_oldest names in
    if ltb 256 (length ((key, name) ∷ names)) then rest else (key, name) ∷ names

unfoldable pub remember_agent_name : String → String → JsMap String → JsMap String
unfolding JsMap.delete JsMap.set drop_oldest
remember_agent_name id description names =
    drop_oldest (JsMap.set id description (JsMap.delete id names))

module _ (now : ℕ) where
  unfoldable pub note_activity : String → Option String → JsMap AgentActivity → JsMap AgentActivity
  unfolding JsMap.get JsMap.set
  note_activity id description agents = elim (JsMap.get id agents) [
    | none ↦
        JsMap.set id
          (record {
            task_id = none;
            kind = none;
            id = id;
            description = elim description [ none ↦ "subagent" | some d ↦ d ];
            last_activity_at = now;
          })
          agents
    | some existing ↦
        JsMap.set id
          (record existing {
            last_activity_at = now;
            description = elim description [
              | none ↦ existing.description
              | some d ↦ if str_eq d "" then existing.description else d
            ];
          })
          agents
  ]

  unfoldable pub note_agent_activity : String → Option String → Session → Session
  unfolding note_activity
  note_agent_activity id description s = record s {
    agents = note_activity id description s.agents;
    agent_watch = true;
  }

  -- The live set of the CLI replaces the one that was there.
  unfoldable pub keyed : List AgentActivity → JsMap AgentActivity → JsMap AgentActivity
  unfolding JsMap.set
  keyed [] m = m
  keyed (a ∷ rest) m = keyed rest (JsMap.set a.id a m)

  unfoldable pub replace_agents : List RawTask → Session → Session
  unfolding task_list keyed
  replace_agents tasks s = record s {
    has_level_signal = true;
    agents = keyed (task_list tasks now) [];
  }

-- `this.agentNames.get(parent) ?? this.agents.get(parent)?.description`
unfoldable pub described : String → Session → Text
unfolding JsMap.get
described parent s = elim (JsMap.get parent s.agent_names) [
  | some name ↦ codes name
  | none ↦ elim (JsMap.get parent s.agents) [ none ↦ [] | some a ↦ codes a.description ]
]

unfoldable pub agent_tag_for : Option String → Session → Option Text
unfolding agent_tag described
agent_tag_for none s = none
agent_tag_for (some parent) s =
    if str_eq parent ""
    then none
    else some
        (agent_tag (codes "subagent") (codes "background task") (described parent s) (codes parent))

abbrev is_agent_tool : String → Bool
is_agent_tool name = str_eq name "Agent" || str_eq name "Task"

unfoldable pub note_name : String → String → Session → Session
unfolding remember_agent_name
note_name id description s = record s {
  agent_names = remember_agent_name id description s.agent_names;
}

module _ (env : Env) (now : ℕ) where
  unfoldable pub dispatched : Option String → String → String → Session → Session
  unfolding note_agent_activity note_name when
  dispatched none name description s = s
  dispatched (some id) name description s =
      when (not (str_eq id "") && is_agent_tool name)
        (λ u. note_name id description (note_agent_activity now id (some description) u)) s

  unfoldable pub on_block : Option Text → Block → Session → Session
  unfolding append_event dispatched
  on_block agent (text_content t) s = append_event env now (assistant_text t agent) s
  on_block agent (tool_call id name input description) s =
      append_event env now (tool_use id name input agent) (dispatched id name description s)
  on_block agent other_block s = s

  unfoldable pub on_blocks : Option Text → List Block → Session → Session
  unfolding on_block
  on_blocks agent [] s = s
  on_blocks agent (block ∷ blocks) s = on_blocks agent blocks (on_block agent block s)

  unfoldable pub on_answers : Option Text → List ResultBlock → Session → Session
  unfolding append_event summarize
  on_answers agent [] s = s
  on_answers agent (other_answer ∷ blocks) s = on_answers agent blocks s
  on_answers agent (tool_answer id content is_error ∷ blocks) s =
      on_answers agent blocks
        (append_event env now (tool_result id (summarize content 1500) is_error agent) s)

  unfoldable pub on_init : Option String → Option String → Session → Session
  on_init session_id model s = record s {
    meta = record s.meta {
      sdk_session_id = elim session_id [ none ↦ s.meta.sdk_session_id | some id ↦ some id ];
      active_model = elim model [ none ↦ s.meta.active_model | some m ↦ some m ];
    };
  }
