-- ===== src/DaemonClient/Tests.antt =====
-- Windows of the builds 1.0.9 and 1.0.10 with the daemon of 1.0.2.
use claude_persist.DaemonClient.{
  lt, eq, compare_versions, HelloResult, staleness_of, older_build_of,
}
use claude_persist.DaemonClient.Builds.{Build, daemon_of, client_of, meet, visits}
use claude_persist.DaemonClient.Attempts.{IsConnected, connect-reaches}
use claude_persist.DaemonClient.Verify.{
  Client, Attempt, Listed, Kill, verify_protocol, act_on, replace_daemon, any_session_running,
  try_once, is_final, connect,
}
use claude_persist.Texts.{Text, codes}
use claude_persist.Prelude.{
  ℕ, ◌+◌, ◌<◌, arith, zero, suc, Bool, true, false, Option, none, some, List, [], ◌∷◌, ◌≡◌, refl,
}

abbrev every_file : Text → Bool
every_file path = true

abbrev build : Text → Build
build v = record { protocol = 16; version = v; entry = codes "main.js" }

abbrev oldest : Build
oldest = build (codes "1.0.2")

abbrev older : Build
older = build (codes "1.0.9")

abbrev newest : Build
newest = build (codes "1.0.10")

abbrev one_running : Option (List Listed)
one_running = some (record { busy = false; running = true } ∷ [])

by_number : compare_versions (codes "1.0.9") (codes "1.0.10") ≡ lt
unfolding compare_versions
by_number = refl

missing_part : compare_versions (codes "1.0") (codes "1.0.0") ≡ eq
unfolding compare_versions
missing_part = refl

unreadable : compare_versions (codes "junk") (codes " -0") ≡ eq
unfolding compare_versions
unreadable = refl

waits : (meet every_file 7 oldest newest one_running Kill.signalled 5).kills ≡ none
unfolding verify_protocol act_on staleness_of older_build_of compare_versions any_session_running
waits = refl

kills : (meet every_file 7 oldest newest (some []) Kill.signalled 5).kills ≡ some 7
unfolding verify_protocol act_on staleness_of older_build_of compare_versions any_session_running
    replace_daemon
kills = refl

settled : visits every_file oldest (newest ∷ older ∷ []) ≡ newest
unfolding visits verify_protocol act_on staleness_of older_build_of compare_versions replace_daemon
settled = refl

abbrev last_daemon : Build
last_daemon = visits every_file oldest (newest ∷ older ∷ [])

abbrev attempt_with : ℕ → Option HelloResult → Attempt
attempt_with n hello = record {
  opens = true;
  connection = n;
  hello = hello;
  sessions = some [];
  kill = Kill.signalled;
  now = 5;
  alive = false;
}

abbrev world : ℕ → Attempt
world zero = attempt_with 21 (some (daemon_of 7 oldest))
world (suc zero) = attempt_with 22 none
world (suc (suc i)) = attempt_with (23 + i) (some (daemon_of 8 newest))

abbrev unconnected : Client
unconnected = record (client_of newest) { socket = none }

restarted : (connect every_file 16 world unconnected).spawns ≡ 2
unfolding connect act_on staleness_of older_build_of compare_versions any_session_running
    replace_daemon
restarted = refl

first_two :
    (j : ℕ) → j < 2 → is_final (try_once every_file 16 (world j) unconnected).outcome ≡ false
unfolding try_once act_on staleness_of older_build_of compare_versions any_session_running
    replace_daemon
first_two zero h = refl
first_two (suc zero) h = refl
first_two (suc (suc j)) h = absurd (omega arith)

connect-reaches_example : IsConnected 23 [] (connect every_file 16 world unconnected)
unfolding try_once act_on staleness_of older_build_of compare_versions any_session_running
    replace_daemon
connect-reaches_example =
    connect-reaches every_file 16 2 world unconnected refl (omega arith) first_two refl
