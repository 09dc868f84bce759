-- ===== src/Session/Transcript/Restart.antt =====
-- A session that is opened again: the constructor of `DaemonSession` in daemon/src/session.ts.
use mathlib.Core.List.{map-append}
use claude_persist.Prelude.{
  ℕ, ◌≡◌, refl, sym, ap, ◌∙◌, Bool, Option, List, [], ◌∷◌, ◌++◌, length, map,
}
use claude_persist.LogStore.{TailAndCount}
use claude_persist.LogStore.Reads.{file_events, all_events, newest, load_tail_and_count-newest}
use claude_persist.LogStore.Disk.{Disk, or_empty, all_log_files}
use claude_persist.Session.Transcript.{Transcript, max_tail, open_transcript, last_or_zero}
use claude_persist.Session.Transcript.Consistent.{
  IsWhole, IsConsistent, rotate_if_needed-IsConsistent,
}

last_or_zero-append : (ns : List ℕ) (n : ℕ) → last_or_zero (ns ++ n ∷ []) ≡ n
unfolding last_or_zero
last_or_zero-append [] n = refl
last_or_zero-append (m ∷ []) n = refl
last_or_zero-append (m ∷ k ∷ ns) n = last_or_zero-append (k ∷ ns) n

-- The last file is the active one.
last_per_file {ℓ} :
    {Event : Type ℓ} (json : List ℕ → Option Event) (decode : List ℕ → List ℕ) (disk : Disk)
    → last_or_zero (map (λ f. length (file_events json decode f)) (all_log_files disk))
      ≡ length (file_events json decode (or_empty disk.active))
unfolding all_log_files
last_per_file json decode disk = rw map-append (last_or_zero-append _ _)

-- The constructor reads back what the files hold, if the active file ends a line; so a session
-- that is opened on the disk of a consistent one has its count, its tail and its history.
pub open_transcript-IsConsistent {ℓ} :
    {Event : Type ℓ} (json : List ℕ → Option Event) (decode : List ℕ → List ℕ) (renames : Bool)
    (disk : Disk)
    → IsWhole json decode (or_empty disk.active)
    → IsConsistent json decode
        (all_events json decode (all_log_files disk))
        (open_transcript json decode renames disk)
unfolding open_transcript
open_transcript-IsConsistent {Event} json decode renames disk h =
    let read = load_tail_and_count-newest json decode (all_log_files disk) max_tail in
    rotate_if_needed-IsConsistent json decode renames _ _ (record {
      stored = refl;
      counted = ap (λ (r : TailAndCount Event). r.count) read;
      resident = ap (λ (r : TailAndCount Event). r.tail) read;
      active =
          ap (λ (r : TailAndCount Event). last_or_zero r.per_file) read
          ∙ last_per_file json decode disk;
      whole = h;
    })

-- A session that is opened again on the disk of a consistent one continues its numbering and holds
-- its tail: a restart loses no event.
pub reopen_same {ℓ} :
    {Event : Type ℓ} (json : List ℕ → Option Event) (decode : List ℕ → List ℕ) (renames : Bool)
    (history : List Event) (t : Transcript Event)
    → IsConsistent json decode history t
    → ((open_transcript json decode renames t.disk).total_count ≡ t.total_count)
      × ((open_transcript json decode renames t.disk).tail ≡ t.tail)
      × (all_events json decode (all_log_files (open_transcript json decode renames t.disk).disk)
          ≡ history)
reopen_same json decode renames history t h =
    let again = open_transcript-IsConsistent json decode renames t.disk h.whole in
    (
      again.counted ∙ ap length h.stored ∙ sym h.counted,
      again.resident ∙ ap (newest max_tail) h.stored ∙ sym h.resident,
      again.stored ∙ h.stored,
    )
