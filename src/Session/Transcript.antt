-- ===== src/Session/Transcript.antt =====
-- The transcript of `DaemonSession` in daemon/src/session.ts: the resident tail, the counts and
-- the log file. `print` is `JSON.stringify` with the UTF-8 encoder of `writeSync`.
pub mod Consistent
pub mod Restart
pub mod Replay
mod Tests
use claude_persist.Prelude.{
  ℕ, zero, suc, ◌+◌, ◌-◌, ◌≤◌, ◌<◌, Bool, true, false, not, Option, none, some, List, [], ◌∷◌, ◌++◌,
  length, take, drop, leb, ltb, if◌then◌else◌, min, max,
}
use claude_persist.LogStore.{
  LogFile, push_capped, TailAndCount, load_tail_and_count, read_range, rotate_threshold,
}
use claude_persist.LogStore.Disk.{Disk, or_empty, all_log_files, rotate_active_log}

-- MAX_TAIL
abbrev pub max_tail : ℕ
max_tail = 1000

pub record Transcript {ℓ} (Event : Type ℓ) : Type ℓ where
  pub tail : List Event
  pub total_count : ℕ
  pub active_count : ℕ
  -- `logFd !== null`
  pub log_open : Bool
  pub disk : Disk

pub record Events {ℓ} (Event : Type ℓ) : Type ℓ where
  pub events : List Event
  pub has_earlier : Bool

-- A number that a client sends; `negsuc n` is -(n + 1).
pub data ℤ : Type 0 where
  pos : ℕ → ℤ
  negsuc : ℕ → ℤ

-- `Math.max(0, n)`
abbrev pub max_zero : ℤ → ℕ
max_zero (pos n) = n
max_zero (negsuc n) = 0

-- `perFile[perFile.length - 1] ?? 0`
unfoldable pub last_or_zero : List ℕ → ℕ
last_or_zero [] = 0
last_or_zero (n ∷ []) = n
last_or_zero (n ∷ m ∷ ns) = last_or_zero (m ∷ ns)

-- `fs.openSync(…, 'a')` creates the file; `writeSync` puts the line behind what it holds.
unfoldable pub write_line : List ℕ → Disk → Disk
write_line line disk = record disk {
  active = some (or_empty disk.active ++ (line ++ 0x0a ∷ []) ∷ []);
}

module _ {ℓ} {Event : Type ℓ} where
  unfoldable pub rotate_if_needed : Bool → Transcript Event → Transcript Event
  unfolding rotate_active_log
  rotate_if_needed renames t =
      if ltb t.active_count rotate_threshold
      then t
      else let (disk, rotated) = rotate_active_log renames t.disk in
        record t {
          log_open = false;
          disk = disk;
          active_count = if rotated then 0 else t.active_count;
        }

  module _ (print : Event → List ℕ) where
    -- The end of `appendEvent`, from `const persisted` on; `persisted` is the event with its `seq`.
    unfoldable pub append_persisted : Bool → Event → Transcript Event → Transcript Event
    unfolding push_capped write_line rotate_if_needed
    append_persisted renames persisted t = rotate_if_needed renames (record t {
      total_count = t.total_count + 1;
      tail = push_capped max_tail t.tail persisted;
      log_open = true;
      disk = write_line (print persisted) t.disk;
      active_count = t.active_count + 1;
    })

  module _ (json : List ℕ → Option Event) (decode : List ℕ → List ℕ) where
    -- The constructor.
    unfoldable pub open_transcript : Bool → Disk → Transcript Event
    unfolding load_tail_and_count rotate_if_needed
    open_transcript renames disk =
        let loaded = load_tail_and_count json decode (all_log_files disk) max_tail in
        rotate_if_needed renames (record {
          tail = loaded.tail;
          total_count = loaded.count;
          active_count = last_or_zero loaded.per_file;
          log_open = false;
          disk = disk;
        })

    unfoldable pub events_since : ℤ → ℕ → Transcript Event → Events Event
    unfolding read_range
    events_since seq limit t =
        let start = max_zero seq in
        let effective_start = max start (t.total_count - limit) in
        let tail_start = t.total_count - length t.tail in
        if leb t.total_count start then record { events = []; has_earlier = false } else record {
          events =
              if leb tail_start effective_start
              then drop (effective_start - tail_start) t.tail
              else read_range json decode (all_log_files t.disk) effective_start t.total_count;
          has_earlier = ltb start effective_start;
        }

    unfoldable pub events_before : ℤ → ℕ → Transcript Event → Events Event
    unfolding read_range
    events_before before_seq limit t =
        let stop = min (max_zero before_seq) t.total_count in
        let start = stop - max 1 limit in
        let tail_start = t.total_count - length t.tail in
        if leb stop start then record { events = []; has_earlier = false } else record {
          events =
              if leb tail_start start
              then drop (start - tail_start) (take (stop - tail_start) t.tail)
              else read_range json decode (all_log_files t.disk) start stop;
          has_earlier = ltb 0 start;
        }
