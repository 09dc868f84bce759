-- ===== src/Session/Transcript/Consistent.antt =====
-- The transcript in memory and the files on disk tell the same history: what `appendEvent`, the
-- rotation and the constructor of daemon/src/session.ts keep.
use mathlib.Core.List.{flatten, append_assoc, append-nil}
use claude_persist.Prelude.{
  ℕ, ◌<◌, ◌≡◌, refl, sym, ap, ◌∙◌, Bool, true, false, Option, some, List, [], ◌∷◌, ◌++◌, length,
  ltb, ◌==◌, All, arith, if◌then◌else◌, length-append, Bool-cases, inl, inr,
}
use claude_persist.LogStore.{
  LogFile, push_capped, cut_line, is_dropped, parse_line, rotate_threshold,
}
use claude_persist.LogStore.Lines.{lines_from, lines_from-cut}
use claude_persist.LogStore.Reads.{
  valid_of, valid_of-some, file_events, all_events, newest, push_capped-newest,
}
use claude_persist.LogStore.Disk.{Disk, or_empty, all_log_files, rotate_active_log}
use claude_persist.LogStore.Disk.Rotate.{
  all_events_split, archived, file_events-nil, rotate_active_log-all_events,
  rotate_active_log_cases,
}
use claude_persist.Session.Transcript.{
  Transcript, max_tail, write_line, rotate_if_needed, append_persisted,
}

abbrev pub NoNewline : List ℕ → Type 0
NoNewline = All (λ b. (b == 0x0a) ≡ false)

cut_line-closed : (line : List ℕ) → NoNewline line → cut_line (line ++ 0x0a ∷ []) ≡ some (line, [])
unfolding cut_line
cut_line-closed [] h = refl
cut_line-closed (b ∷ bs) h = ground (arith, cut_line-closed bs h.1)

flatten-snoc :
    (file : LogFile) (bytes : List ℕ) → flatten (file ++ bytes ∷ []) ≡ flatten file ++ bytes
unfolding flatten
flatten-snoc [] bytes = rw append-nil
flatten-snoc (x ∷ file) bytes = rw (flatten-snoc file bytes, append_assoc)

rotated_as {ℓ} :
    {Event : Type ℓ} (renames : Bool) (t : Transcript Event) (d : Disk) (r : Bool)
    → ltb t.active_count rotate_threshold ≡ false
    → rotate_active_log renames t.disk ≡ (d, r)
    → rotate_if_needed renames t
      ≡ record t { log_open = false; disk = d; active_count = if r then 0 else t.active_count }
unfolding rotate_if_needed
rotated_as renames t d r full e = ground arith

kept_as {ℓ} :
    {Event : Type ℓ} (renames : Bool) (t : Transcript Event)
    → ltb t.active_count rotate_threshold ≡ true
    → rotate_if_needed renames t ≡ t
unfolding rotate_if_needed
kept_as renames t room = rw room

module _ {ℓ} {Event : Type ℓ} (json : List ℕ → Option Event) (decode : List ℕ → List ℕ) where
  -- The file ends where a line ends, so that what is written behind it is a line of its own.
  abbrev pub IsWhole : LogFile → Type 0
  IsWhole file =
      (more : List ℕ)
      → lines_from decode [] (flatten file ++ more)
        ≡ lines_from decode [] (flatten file) ++ lines_from decode [] more

  pub record IsConsistent (history : List Event) (t : Transcript Event) : Type ℓ where
    pub stored : all_events json decode (all_log_files t.disk) ≡ history
    pub counted : t.total_count ≡ length history
    pub resident : t.tail ≡ newest max_tail history
    pub active : t.active_count ≡ length (file_events json decode (or_empty t.disk.active))
    pub whole : IsWhole (or_empty t.disk.active)

  IsWhole-nil : IsWhole []
  unfolding flatten is_dropped
  IsWhole-nil more = refl

  valid_of-append :
      (xs ys : List (List ℕ)) → valid_of json (xs ++ ys) ≡ valid_of json xs ++ valid_of json ys
  valid_of-append [] ys = refl
  valid_of-append (x ∷ xs) ys = ground (arith, valid_of-append xs ys)

  module _ (print : Event → List ℕ) (e : Event) (one_line : NoNewline (print e))
      (parses : parse_line json (decode (print e)) ≡ some e) where
    lines-line :
        (more : List ℕ)
        → lines_from decode [] ((print e ++ 0x0a ∷ []) ++ more)
          ≡ decode (print e) ∷ lines_from decode [] more
    lines-line more =
        lines_from-cut decode [] (print e ++ 0x0a ∷ []) (print e) [] more
          (cut_line-closed (print e) one_line)

    alone : lines_from decode [] (print e ++ 0x0a ∷ []) ≡ decode (print e) ∷ []
    unfolding is_dropped
    alone = ap (lines_from decode []) (sym (append-nil (print e ++ 0x0a ∷ []))) ∙ lines-line []

    lines-written :
        (file : LogFile)
        → IsWhole file
        → lines_from decode [] (flatten (file ++ (print e ++ 0x0a ∷ []) ∷ []))
          ≡ lines_from decode [] (flatten file) ++ decode (print e) ∷ []
    lines-written file h =
        ap (lines_from decode []) (flatten-snoc file (print e ++ 0x0a ∷ []))
        ∙ h (print e ++ 0x0a ∷ [])
        ∙ ap (λ ls. lines_from decode [] (flatten file) ++ ls) alone

    write-IsWhole : (file : LogFile) → IsWhole file → IsWhole (file ++ (print e ++ 0x0a ∷ []) ∷ [])
    write-IsWhole file h more =
        let line = print e ++ 0x0a ∷ [] in
        let before = lines_from decode [] (flatten file) in
        ap (λ bytes. lines_from decode [] (bytes ++ more)) (flatten-snoc file line)
        ∙ ap (lines_from decode []) (append_assoc (flatten file) line more)
        ∙ h (line ++ more)
        ∙ ap (λ ls. before ++ ls) (lines-line more)
        ∙ sym (append_assoc before (decode (print e) ∷ []) (lines_from decode [] more))
        ∙ ap (λ ls. ls ++ lines_from decode [] more) (sym (lines-written file h))

    file_events-written :
        (file : LogFile)
        → IsWhole file
        → file_events json decode (file ++ (print e ++ 0x0a ∷ []) ∷ [])
          ≡ file_events json decode file ++ e ∷ []
    file_events-written file h =
        ap (valid_of json) (lines-written file h)
        ∙ valid_of-append (lines_from decode [] (flatten file)) (decode (print e) ∷ [])
        ∙ ap (λ es. file_events json decode file ++ es)
            (valid_of-some json (decode (print e)) [] e parses)

    all_events-written :
        (disk : Disk)
        → IsWhole (or_empty disk.active)
        → all_events json decode (all_log_files (write_line (print e) disk))
          ≡ all_events json decode (all_log_files disk) ++ e ∷ []
    unfolding write_line
    all_events-written disk h =
        all_events_split json decode (write_line (print e) disk)
        ∙ ap (λ es. archived json decode disk ++ es) (file_events-written (or_empty disk.active) h)
        ∙ sym (
            append_assoc (archived json decode disk)
              (file_events json decode (or_empty disk.active)) (e ∷ []))
        ∙ ap (λ es. es ++ e ∷ []) (sym (all_events_split json decode disk))

  pub rotate_if_needed-IsConsistent :
      (renames : Bool) (history : List Event) (t : Transcript Event)
      → IsConsistent history t
      → IsConsistent history (rotate_if_needed renames t)
  rotate_if_needed-IsConsistent renames history t h =
      elim (Bool-cases (ltb t.active_count rotate_threshold)) [
        | inl room ↦ rw (kept_as renames t room) h
        | inr full ↦ elim (rotate_active_log_cases renames t.disk) [
          | inl (file, act, _, same, _) ↦ rw (rotated_as renames t _ true full same) (record {
            stored =
                ap (λ d. all_events json decode (all_log_files d)) (ap (λ p. p.0) (sym same))
                ∙ rotate_active_log-all_events json decode renames t.disk
                ∙ h.stored;
            counted = h.counted;
            resident = h.resident;
            active = sym (ap length (file_events-nil json decode));
            whole = IsWhole-nil;
          })
          | inr (_, same) ↦ rw (rotated_as renames t _ false full same) (record {
            stored = h.stored;
            counted = h.counted;
            resident = h.resident;
            active = h.active;
            whole = h.whole;
          })
        ]
      ]

-- Appending an event keeps memory and disk in step, rotation or not, whether or not the rename
-- succeeds: all files hold the history with the event behind it, the count is its length, the
-- tail is its newest `max_tail` events and the active count is that of the active file. It asks
-- that the printed event has no newline and parses back, and that the active file ends a line.
pub append_persisted-IsConsistent {ℓ} :
    {Event : Type ℓ} (json : List ℕ → Option Event) (decode : List ℕ → List ℕ)
    (print : Event → List ℕ) (renames : Bool) (history : List Event) (t : Transcript Event)
    (e : Event)
    → NoNewline (print e)
    → parse_line json (decode (print e)) ≡ some e
    → IsConsistent json decode history t
    → IsConsistent json decode (history ++ e ∷ []) (append_persisted print renames e t)
unfolding append_persisted
append_persisted-IsConsistent json decode print renames history t e one_line parses h =
    rotate_if_needed-IsConsistent json decode renames (history ++ e ∷ []) _ (record {
      stored =
          all_events-written json decode print e one_line parses t.disk h.whole
          ∙ ap (λ es. es ++ e ∷ []) h.stored;
      counted = omega (arith, length-append history (e ∷ []));
      resident =
          ap (λ es. push_capped max_tail es e) h.resident ∙ push_capped-newest max_tail history e;
      active =
          let f = or_empty t.disk.active in
          omega (
            arith,
            h.active,
            ap length (file_events-written json decode print e one_line parses f h.whole),
            length-append (file_events json decode f) (e ∷ []),
          );
      whole = write-IsWhole json decode print e one_line parses (or_empty t.disk.active) h.whole;
    })

counted_below {ℓ} :
    {Event : Type ℓ} (print : Event → List ℕ) (t : Transcript Event) (e : Event)
    → (append_persisted print true e t).active_count < rotate_threshold
unfolding append_persisted
counted_below print t e = ground arith

-- While renames succeed, the active file does not grow past the threshold: behind an append to a
-- consistent transcript, with an event that prints as one line that parses back, the events that
-- the active file holds are fewer than `rotate_threshold`, and as many as are counted.
pub append_persisted-bounded {ℓ} :
    {Event : Type ℓ} (json : List ℕ → Option Event) (decode : List ℕ → List ℕ)
    (print : Event → List ℕ) (history : List Event) (t : Transcript Event) (e : Event)
    → NoNewline (print e)
    → parse_line json (decode (print e)) ≡ some e
    → IsConsistent json decode history t
    → let after = append_persisted print true e t in
      let held = length (file_events json decode (or_empty after.disk.active)) in
      (held < rotate_threshold) × (after.active_count ≡ held)
append_persisted-bounded json decode print history t e one_line parses h =
    let after =
      append_persisted-IsConsistent json decode print true history t e one_line parses h in
    (omega (arith, after.active, counted_below print t e), after.active)
