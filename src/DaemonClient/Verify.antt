-- ===== src/DaemonClient/Verify.antt =====
-- extension/src/daemonClient.ts: `verifyProtocol`, the watch for a quiet moment, and the loop of
-- `connect`. What the daemon and the system answer is an argument; an error is a value.
use claude_persist.DaemonClient.{HelloResult, StaleReason, Staleness, staleness_of}
use claude_persist.Texts.{Text}
use claude_persist.Prelude.{
  ℕ, zero, suc, ◌-◌, Bool, true, false, not, ◌&&◌, ◌||◌, Option, none, some, List, ◌∷◌, any, ltb,
  if◌then◌else◌,
}

abbrev pub connect_attempts : ℕ
connect_attempts = 40

abbrev pub upgrade_defer_limit_ms : ℕ
upgrade_defer_limit_ms = 7200000

pub record Watch : Type 0 where
  pub pid : ℕ
  pub since : ℕ

-- `socket` is the number of the connection, and `orphans` has those that the field lost while they
-- were open.
pub record Client : Type 0 where
  pub socket : Option ℕ
  pub orphans : List ℕ
  pub idle_watch : Option Watch
  pub version : Option Text

pub record Listed : Type 0 where
  pub busy : Bool
  pub running : Bool

unfoldable pub any_session_running : List Listed → Bool
any_session_running = any (λ s. s.busy || s.running)

-- What `process.kill` does: no such process is the same as a signal that arrives.
pub data Kill : Type 0 where
  signalled : Kill
  no_process : Kill
  not_permitted : Kill

pub data ConnectError : Type 0 where
  no_connection : ConnectError
  no_answer : ConnectError
  too_new : ℕ → ℕ → ConnectError
  unkillable : ℕ → ConnectError
  restarting : StaleReason → ConnectError

pub data Outcome : Type 0 where
  connected : Outcome
  failed : ConnectError → Outcome

-- `kills` is the process that is sent a signal.
pub record Verified : Type 0 where
  pub client : Client
  pub outcome : Outcome
  pub kills : Option ℕ

unfoldable pub stop_idle_watch : Client → Client
stop_idle_watch c = record c { idle_watch = none }

unfoldable pub defer_upgrade : ℕ → ℕ → Client → Client
defer_upgrade pid now c = elim c.idle_watch [
  | some w ↦ c
  | none ↦ record c { idle_watch = some (record { pid = pid; since = now }) }
]

abbrev pub lost : Option ℕ → List ℕ → List ℕ
lost none orphans = orphans
lost (some n) orphans = n ∷ orphans

-- `this.socket = socket`
abbrev pub open_socket : ℕ → Client → Client
open_socket n c = record c { socket = some n; orphans = lost c.socket c.orphans }

-- The field is cleared, and the connection that it had is destroyed.
abbrev pub drop_socket : Client → Client
drop_socket c = record c { socket = none }

abbrev after_kill : ℕ → StaleReason → Kill → ConnectError
after_kill pid reason signalled = restarting reason
after_kill pid reason no_process = restarting reason
after_kill pid reason not_permitted = unkillable pid

-- The part of `verifyProtocol` that does not keep the daemon.
unfoldable pub replace_daemon : ℕ → HelloResult → StaleReason → Kill → Client → Verified
replace_daemon expected info reason kill c =
    if ltb expected info.protocol_version
    then record {
      client = drop_socket c;
      outcome = failed (too_new info.protocol_version expected);
      kills = none;
    }
    else record {
      client = drop_socket c;
      outcome = failed (after_kill info.pid reason kill);
      kills = some info.pid;
    }

-- A daemon that does not answer counts as idle.
abbrev is_busy : Option (List Listed) → Bool
is_busy none = false
is_busy (some sessions) = any_session_running sessions

-- What `verifyProtocol` does about the staleness that it finds.
unfoldable pub act_on :
    ℕ → HelloResult → Option (List Listed) → Kill → ℕ → Client → Option Staleness → Verified
act_on expected info sessions kill now c none = record {
  client = stop_idle_watch c;
  outcome = connected;
  kills = none;
}
act_on expected info sessions kill now c (some outdated) =
    if not outdated.urgent && is_busy sessions
    then record { client = defer_upgrade info.pid now c; outcome = connected; kills = none }
    else replace_daemon expected info outdated.reason kill c

-- What the world does in one round of `connect`; `connection` is the number of the connection that
-- it opens.
pub record Attempt : Type 0 where
  pub opens : Bool
  pub connection : ℕ
  pub hello : Option HelloResult
  pub sessions : Option (List Listed)
  pub kill : Kill
  pub now : ℕ
  pub alive : Bool

-- `spawns` counts the calls of `spawnDaemon`; no outcome is that the attempts are used up.
pub record Connecting : Type 0 where
  pub client : Client
  pub outcome : Option Outcome
  pub spawns : ℕ

abbrev pub is_fatal : ConnectError → Bool
is_fatal no_connection = false
is_fatal no_answer = false
is_fatal (too_new theirs ours) = true
is_fatal (unkillable pid) = true
is_fatal (restarting reason) = false

abbrev pub is_final : Outcome → Bool
is_final connected = true
is_final (failed error) = is_fatal error

abbrev pub spawn_if : Bool → Connecting → Connecting
spawn_if true r = r
spawn_if false r = record r { spawns = suc r.spawns }

-- An attempt ends the loop, or the rest of it runs.
abbrev pub next_round : Verified → Bool → Connecting → Connecting
next_round v alive rest =
    if is_final v.outcome
    then record { client = v.client; outcome = some v.outcome; spawns = 0 }
    else spawn_if alive rest

module _ (exists : Text → Bool) (expected : ℕ) where
  unfoldable pub verify_protocol :
      Option HelloResult → Option (List Listed) → Kill → ℕ → Client → Verified
  verify_protocol none sessions kill now c = record {
    client = c;
    outcome = failed no_answer;
    kills = none;
  }
  verify_protocol (some info) sessions kill now c =
      act_on expected info sessions kill now c (staleness_of exists info expected c.version)

  -- `tryConnect` and `verifyProtocol`.
  unfoldable pub try_once : Attempt → Client → Verified
  unfolding verify_protocol
  try_once a c =
      if a.opens
      then verify_protocol a.hello a.sessions a.kill a.now (open_socket a.connection c)
      else record { client = c; outcome = failed no_connection; kills = none }

  -- The loop of `connect`, with the attempts that are left. One that is used up throws as well.
  unfoldable pub connect_loop : ℕ → (ℕ → Attempt) → Client → Connecting
  unfolding try_once
  connect_loop zero world c = record { client = c; outcome = none; spawns = 0 }
  connect_loop (suc left) world c =
      let v : Verified = try_once (world 0) c in
      let rest = connect_loop left (λ i. world (suc i)) (drop_socket v.client) in
      next_round v (world 0).alive rest

  unfoldable pub connect : (ℕ → Attempt) → Client → Connecting
  unfolding connect_loop
  connect = connect_loop connect_attempts

-- A tick of the interval; a question that fails, or a watch that was stopped, does nothing.
unfoldable pub idle_tick : Option (List Listed) → ℕ → Client → Client × Option ℕ
idle_tick sessions now c = elim c.idle_watch [
  | none ↦ (c, none)
  | some w ↦ elim sessions [
    | none ↦ (c, none)
    | some list ↦
        if any_session_running list && ltb (now - w.since) upgrade_defer_limit_ms
        then (c, none)
        else (stop_idle_watch c, some w.pid)
  ]
]
