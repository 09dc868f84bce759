-- ===== src/Session/Transcript/Tests.antt =====
-- A log of numbers, one to a line: `x` and a byte.
use claude_persist.Prelude.{
  ℕ, ◌+◌, ◌-◌, ◌<◌, ◌≡◌, ap, refl, true, false, Option, none, some, List, [], ◌∷◌, ◌++◌, length,
  take, drop, ltb, min, max, arith, All, map,
}
use mathlib.Core.List.{flatten}
use claude_persist.LogStore.{
  read_lines, range_line, parse_line, load_tail_and_count, read_range, rotate_threshold, is_dropped,
}
use claude_persist.LogStore.Lines.{run, lines_from, read_lines-eq-run}
use claude_persist.LogStore.Reads.{newest, all_events, file_events, load_tail_and_count-newest}
use claude_persist.LogStore.Disk.{
  Disk, or_empty, all_log_files, rotate_active_log, sort, next_generation,
}
use claude_persist.LogStore.Disk.Sorted.{next_generation_fresh}
use claude_persist.LogStore.Disk.Rotate.{rotate_active_log-all_events}
use claude_persist.Session.Transcript.{
  pos, append_persisted, open_transcript, events_since, events_before,
}
use claude_persist.Session.Transcript.Consistent.{
  IsConsistent, IsWhole, NoNewline, append_persisted-IsConsistent, append_persisted-bounded,
}
use claude_persist.Session.Transcript.Restart.{open_transcript-IsConsistent, reopen_same}
use claude_persist.Session.Transcript.Replay.{events_since-eq-newest, events_before-eq-newest}

abbrev decode : List ℕ → List ℕ
decode bytes = bytes

abbrev print : ℕ → List ℕ
print e = b'x' ∷ (e + 11) ∷ []

abbrev json : List ℕ → Option ℕ
json (_ ∷ b ∷ []) = some (b - 11)
json _ = none

one_line : (e : ℕ) → NoNewline (print e)
one_line e = ground arith

parses : (e : ℕ) → parse_line json (decode (print e)) ≡ some e
unfolding parse_line
parses e = ap some (omega arith)

-- One archive with the events 1 and 2, its second line in two pieces; 3 is in the active file.
abbrev disk : Disk
disk = record {
  archives = (4, (b'x' ∷ 12 ∷ 10 ∷ b'x' ∷ []) ∷ (13 ∷ 10 ∷ []) ∷ []) ∷ [];
  active = some ((b'x' ∷ 14 ∷ 10 ∷ []) ∷ []);
}

active-IsWhole : IsWhole json decode ((b'x' ∷ 14 ∷ 10 ∷ []) ∷ [])
unfolding flatten is_dropped
active-IsWhole more = refl

opened :
    IsConsistent json decode
      (all_events json decode (all_log_files disk))
      (open_transcript json decode true disk)
opened = open_transcript-IsConsistent json decode true disk active-IsWhole

history_read : all_events json decode (all_log_files disk) ≡ 1 ∷ 2 ∷ 3 ∷ []
unfolding all_log_files flatten parse_line is_dropped
history_read = refl

append_persisted-IsConsistent_example :
    IsConsistent json decode
      (all_events json decode (all_log_files disk) ++ 4 ∷ [])
      (append_persisted print true 4 (open_transcript json decode true disk))
append_persisted-IsConsistent_example =
    append_persisted-IsConsistent json decode print true
      (all_events json decode (all_log_files disk)) (open_transcript json decode true disk) 4
      (one_line 4) (parses 4) opened

append_persisted-bounded_example :
    let after = append_persisted print true 4 (open_transcript json decode true disk) in
    let held = length (file_events json decode (or_empty after.disk.active)) in
    (held < rotate_threshold) × (after.active_count ≡ held)
append_persisted-bounded_example =
    append_persisted-bounded json decode print (all_events json decode (all_log_files disk))
      (open_transcript json decode true disk) 4 (one_line 4) (parses 4) opened

reopen_same_example :
    let t = open_transcript json decode true disk in
    ((open_transcript json decode false t.disk).total_count ≡ t.total_count)
    × ((open_transcript json decode false t.disk).tail ≡ t.tail)
    × (all_events json decode (all_log_files (open_transcript json decode false t.disk).disk)
        ≡ all_events json decode (all_log_files disk))
reopen_same_example =
    reopen_same json decode false (all_events json decode (all_log_files disk))
      (open_transcript json decode true disk) opened

events_since-eq-newest_example :
    events_since json decode (pos 1) 1 (open_transcript json decode true disk) ≡ record {
      events = newest 1 (drop 1 (all_events json decode (all_log_files disk)));
      has_earlier = ltb 1 (length (all_events json decode (all_log_files disk)) - 1);
    }
events_since-eq-newest_example =
    events_since-eq-newest json decode (all_events json decode (all_log_files disk))
      (open_transcript json decode true disk) (pos 1) 1 opened

events_before-eq-newest_example :
    events_before json decode (pos 2) 1 (open_transcript json decode true disk) ≡ record {
      events = newest (max 1 1) (take 2 (all_events json decode (all_log_files disk)));
      has_earlier = ltb (max 1 1) (min 2 (length (all_events json decode (all_log_files disk))));
    }
events_before-eq-newest_example =
    events_before-eq-newest json decode (all_events json decode (all_log_files disk))
      (open_transcript json decode true disk) (pos 2) 1 opened

read_lines-eq-run_example :
    read_lines decode
      (range_line json 0 5)
      (record { out = []; idx = 0 })
      ((b'x' ∷ 12 ∷ 10 ∷ b'x' ∷ []) ∷ (13 ∷ 10 ∷ []) ∷ [])
    ≡ run decode
        (range_line json 0 5)
        (record { out = []; idx = 0 })
        (lines_from decode [] (flatten ((b'x' ∷ 12 ∷ 10 ∷ b'x' ∷ []) ∷ (13 ∷ 10 ∷ []) ∷ [])))
read_lines-eq-run_example =
    read_lines-eq-run decode (range_line json 0 5) (record { out = []; idx = 0 })
      ((b'x' ∷ 12 ∷ 10 ∷ b'x' ∷ []) ∷ (13 ∷ 10 ∷ []) ∷ [])

load_tail_and_count-newest_example :
    load_tail_and_count json decode (all_log_files disk) 2 ≡ record {
      tail = newest 2 (all_events json decode (all_log_files disk));
      count = length (all_events json decode (all_log_files disk));
      per_file = map (λ f. length (file_events json decode f)) (all_log_files disk);
    }
load_tail_and_count-newest_example = load_tail_and_count-newest json decode (all_log_files disk) 2

read_range_runs : read_range json decode (all_log_files disk) 1 3 ≡ 2 ∷ 3 ∷ []
unfolding read_range all_log_files flatten
read_range_runs = refl

next_generation_fresh_example :
    All (λ g. g < next_generation (sort (10 ∷ 2 ∷ 9 ∷ []))) (10 ∷ 2 ∷ 9 ∷ [])
next_generation_fresh_example = next_generation_fresh (10 ∷ 2 ∷ 9 ∷ [])

rotate_active_log-all_events_example :
    all_events json decode (all_log_files (rotate_active_log true disk).0)
    ≡ all_events json decode (all_log_files disk)
rotate_active_log-all_events_example = rotate_active_log-all_events json decode true disk
