-- ===== src/TokenMeter/Tests.antt =====
-- Two chats over an hour, one of whose calls is reported twice.
use claude_persist.TokenMeter.{
  CallUsage, Report, new_meter, record_usage, snapshot, flow_of, counted, mark_seen, is_known,
  prune, drop_past, is_past,
}
use claude_persist.TokenMeter.Window.{counted_calls, run, is_young, snapshot-run}
use claude_persist.Prelude.{ℕ, String, Option, none, some, List, [], ◌∷◌, keep_if, ◌≡◌, refl, arith}

abbrev usage : ℕ → Option CallUsage
usage n = some (record {
  input_tokens = some n;
  output_tokens = some 5;
  cache_read_input_tokens = none;
  cache_creation_input_tokens = none;
})

abbrev report : ℕ → String → ℕ → Option String → Report
report at session n id = record { at = at; session_id = session; usage = usage n; message_id = id }

abbrev reports : List Report
reports =
    report 1000 "a" 10 (some "m1")
    ∷ report 1001 "a" 10 (some "m1")
    ∷ report 50000 "b" 20 none
    ∷ report 3602000 "a" 1 (some "m2")
    ∷ []

second_report_is_not_counted : (snapshot 3602000 (run reports new_meter)).0.hour_calls ≡ 2
unfolding snapshot run record_usage counted mark_seen is_known prune drop_past is_past flow_of
second_report_is_not_counted = refl

snapshot-run_example :
    (snapshot 3602000 (run reports new_meter)).0
    ≡ flow_of 3602000 (keep_if (is_young 3602000) (counted_calls reports new_meter))
snapshot-run_example = snapshot-run reports 3602000 (omega arith)
