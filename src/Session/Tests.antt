-- ===== src/Session/Tests.antt =====
-- A session on an empty disk: a message is sent, the servers are overloaded, and the retry goes out.
use claude_persist.Rotation.{single_account}
use claude_persist.LogStore.{is_dropped, parse_line}
use mathlib.Core.List.{flatten}
use claude_persist.LogStore.Disk.{all_log_files}
use claude_persist.Session.Event.{
  codes, running, idle, error, user_message, status_event, limit_notice, overloaded, PersistedEvent,
  ChatEvent,
}
use claude_persist.Session.State.{PendingTurn, Session, Env, Daemon}
use claude_persist.Session.Sending.{resume_message}
use claude_persist.Session.Actions.{Action, sending, query_error, retry_timer, act_all}
use claude_persist.Session.Parking.{park_for_limit, overload, max_attempts_of, decide, is_parked}
use claude_persist.Session.Parking.Budget.{IsHeld, IsFree, park_for_limit_budget}
use claude_persist.Session.Sending.{send_message, is_repeated}
use claude_persist.Session.Sending.Supersede.{retry_state, nothing_held, send_message-supersedes}
use claude_persist.Session.Append.{busy}
use claude_persist.Session.Restart.{
  restart_turn, IsRestored, start_up, shut_down, restart-IsRestored,
}
use claude_persist.Session.Queue.{new_queue}
use claude_persist.Session.Queue.Order.{
  Call, pushing, asking, closing, run_calls, pushed, taken_in, IsMatched, run_calls_fifo,
}
use claude_persist.Session.Sound.History.{Printable, Numbered, act_all-IsConsistent}
use claude_persist.Session.Transcript.{Transcript}
use claude_persist.Session.Transcript.Consistent.{IsConsistent}
use claude_persist.Prelude.{
  ℕ, ◌+◌, ◌-◌, ◌≡◌, refl, true, false, Option, none, some, List, [], ◌∷◌, ◌++◌, get_elem?, All, ◌≤◌,
  ◌<◌, inl, ◌⊎◌,
}

abbrev at_seq : ℕ → ℕ → ChatEvent → PersistedEvent
at_seq seq ts event = record { seq = seq; ts = ts; event = event }

-- What the run below appends.
abbrev sent : List PersistedEvent
sent =
    at_seq 0 1000 (user_message (codes "hi") [] none)
    ∷ at_seq 1 1000 (status_event running none)
    ∷ at_seq 2 2000 (status_event error (some (limit_notice overloaded none 122000)))
    ∷ at_seq 3 122000 (user_message resume_message [] none)
    ∷ at_seq 4 122000 (status_event running none)
    ∷ []

abbrev by_seq : List ℕ → Option PersistedEvent
by_seq (_ ∷ b ∷ []) = get_elem? sent (b - 11)
by_seq _ = none

abbrev env : Env
env = record {
  print = λ e. b'x' ∷ (e.seq + 11) ∷ [];
  json = by_seq;
  decode = λ bytes. bytes;
  renames = λ n. true;
  can_write = true;
  claude_found = true;
  is_directory = λ cwd. true;
  home = "/root";
  has_sdk_transcript = λ id. false;
  clock_utc = λ iso. "";
  limit_patterns = λ t. false;
  overload_patterns = λ t. true;
  missing_patterns = λ t. false;
  launch_patterns = λ t. false;
  auth_patterns = λ t. false;
  binary_patterns = λ t. false;
  names_utc = λ t. false;
  reset_match = λ t. none;
}

abbrev daemon : Daemon
daemon = record {
  rate_limit_windows = [];
  on_limited = λ at. record { retry_at = at; switched_to = none; why = single_account };
  on_auth_failure = none;
  before_retry = none;
  active_name = none;
}

abbrev empty_log : Transcript PersistedEvent
empty_log = record {
  tail = [];
  total_count = 0;
  active_count = 0;
  log_open = false;
  disk = record { archives = []; active = none };
}

abbrev fresh : Session
fresh = record {
  meta = record {
    id = "a";
    title = "New session";
    cwd = "/work";
    sdk_session_id = none;
    permission_mode = none;
    model = none;
    effort = none;
    image_count = none;
    turns = none;
    titled_at = none;
    title_set_by_user = false;
    active_model = none;
    cleared_at = none;
    past_titles = none;
    pending_title = none;
  };
  turns = record {
    status = idle;
    status_watch = false;
    named_incident = none;
    pending = none;
    retry_timer = none;
    consecutive_retries = 0;
    stall_watch = false;
    last_sdk_activity_at = 0;
    saved = none;
    input = none;
    active_query = none;
    launches = 0;
  };
  effective_cwd = "";
  cwd_checked = false;
  agents = [];
  has_level_signal = false;
  agent_watch = false;
  agent_names = [];
  pending_permissions = [];
  settled = [];
  last_call_usage = none;
  broadcast = [];
  transcript = empty_log;
}

abbrev overloaded_run : List (ℕ × Action)
overloaded_run =
    (1000, sending (codes "hi") [] none)
    ∷ (2000, query_error daemon 0 (codes "529"))
    ∷ (122000, retry_timer daemon)
    ∷ []

overloaded_run-sent : (act_all env overloaded_run fresh).broadcast ≡ sent
unfolding act_all
overloaded_run-sent = refl

sent-Printable : All (Printable env) sent
unfolding parse_line
sent-Printable = search

empty-IsConsistent : IsConsistent env.json env.decode [] fresh.transcript
unfolding all_log_files flatten is_dropped
empty-IsConsistent = record {
  stored = refl;
  counted = refl;
  resident = refl;
  active = refl;
  whole = λ more. refl;
}

act_all-IsConsistent_example :
    ((act_all env overloaded_run fresh).turns.pending
      ≡ (act_all env overloaded_run fresh).turns.saved)
    × IsConsistent env.json env.decode sent (act_all env overloaded_run fresh).transcript
    × Numbered 0 sent
act_all-IsConsistent_example =
    act_all-IsConsistent env [] sent overloaded_run fresh refl refl empty-IsConsistent tt
      overloaded_run-sent sent-Printable

abbrev refused : Session
refused = act_all env ((1000, sending (codes "hi") [] none) ∷ []) fresh

park_for_limit_budget_example :
    let after = park_for_limit env 2000 daemon (codes "529") overload refused in
    let attempts = refused.turns.consecutive_retries + 1 in
    ((attempts ≤ max_attempts_of overload)
      × IsHeld
          (record {
            retry_at =
                (decide env daemon overload (codes "529") 2000 attempts refused.meta.id).retry_at;
            attempts = attempts;
            text = codes "529";
          })
          2000
          after)
    ⊎ ((max_attempts_of overload < attempts)
        × IsFree after
        × (after.turns.status ≡ refused.turns.status)
        × (after.turns.active_query ≡ refused.turns.active_query))
park_for_limit_budget_example =
    park_for_limit_budget env 2000 daemon (codes "529") overload refused refl

abbrev held : Session
held = act_all env ((2000, query_error daemon 0 (codes "529")) ∷ []) refused

send_message-supersedes_example :
    let after = (send_message env 3000 (codes "go on") [] (some "m1") held).0 in
    ((is_repeated (some "m1") held ≡ true) × (after ≡ held))
    ⊎ ((is_repeated (some "m1") held ≡ false)
        × (is_parked held.turns.pending ≡ true)
        × (retry_state after.turns ≡ nothing_held))
    ⊎ ((is_repeated (some "m1") held ≡ false)
        × (is_parked held.turns.pending ≡ false)
        × (retry_state after.turns ≡ retry_state held.turns))
send_message-supersedes_example =
    send_message-supersedes env 3000 (codes "go on") [] (some "m1") held

abbrev calls : List (Call ℕ)
calls = pushing 1 ∷ pushing 2 ∷ asking ∷ asking ∷ asking ∷ pushing 3 ∷ closing ∷ []

run_calls_fifo_example :
    (taken_in (run_calls calls new_queue) ≡ taken_in new_queue ++ pushed calls)
    × IsMatched (run_calls calls new_queue)
unfolding new_queue
run_calls_fifo_example = run_calls_fifo calls new_queue (inl refl)

restart-IsRestored_example :
    (turn : PendingTurn) × ((refused.turns.pending ≡ some turn)
      ⊎ ((refused.turns.pending ≡ none) × (turn ≡ restart_turn env 3000)))
    × IsRestored env turn 9000 (start_up env 9000 true (shut_down env 3000 refused))
unfolding act_all busy
restart-IsRestored_example = restart-IsRestored env 3000 9000 true refused refl refl refl
