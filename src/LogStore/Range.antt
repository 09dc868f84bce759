-- ===== src/LogStore/Range.antt =====
-- `readRange` of daemon/src/logStore.ts against a slice of the list of all valid events.
use mathlib.Core.List.{flatten, append_assoc, append-nil}
use claude_persist.Prelude.{
  ℕ, ◌+◌, ◌≤◌, ◌<◌, ◌≡◌, sym, ap, ◌∙◌, true, not, Option, none, some, List, [], ◌∷◌, ◌++◌, length,
  take, drop, arith, leb, if◌then◌else◌, Bool-cases, Option-cases, inl, inr, length-append,
  length-take, tests, leb→le, leb→lt, drop-append, drop-nil, drop-all, take-all, take-append_of_le,
}
use claude_persist.LogStore.{
  LogFile, Ranging, parse_line, range_line, read_lines, range_files, read_range,
}
use claude_persist.LogStore.Lines.{lines_from, run, read_lines-eq-run}
use claude_persist.LogStore.Reads.{valid_of, valid_of-none, valid_of-some, file_events, all_events}

module _ {ℓ} {Event : Type ℓ} (json : List ℕ → Option Event) (decode : List ℕ → List ℕ)
    (start stop : ℕ) where
  -- The state once `seen` has gone by.
  ranging : List Event → Ranging Event
  ranging seen = record { out = drop start seen; idx = length seen }

  ranging-push :
      (seen : List Event) (e : Event)
      → (if leb start (length seen) then drop start seen ++ e ∷ [] else drop start seen)
        ≡ drop start (seen ++ e ∷ [])
  ranging-push seen e = elim (Bool-cases (leb start (length seen))) [
    | inl in_range ↦ rw in_range (sym (drop-append start seen (e ∷ []) (leb→le _ _ in_range)))
    | inr before ↦
        let early : length seen < start = leb→lt _ _ before in
        rw before (
          drop-all start seen (omega arith)
          ∙ sym (drop-all start (seen ++ e ∷ []) (omega (arith, length-append seen (e ∷ [])))))
  ]

  range_line-none :
      (line : List ℕ) (s : Ranging Event)
      → parse_line json line ≡ none
      → range_line json start stop s line ≡ (s, true)
  unfolding range_line
  range_line-none line s p = rw (p, range_line)

  range_line-some :
      (line : List ℕ) (seen : List Event) (e : Event)
      → parse_line json line ≡ some e
      → range_line json start stop (ranging seen) line
        ≡ (ranging (seen ++ e ∷ []), not (leb stop (length seen + 1)))
  unfolding range_line ranging
  range_line-some line seen e p = rw (p, range_line) (rw (ranging-push seen e) (rw length-append))

  full :
      (seen : List Event) (e : Event) (more : List Event)
      → stop ≤ length seen + 1
      → length seen < stop
      → seen ++ e ∷ [] ≡ take stop (seen ++ e ∷ more)
  full seen e more up h =
      let len = length-append seen (e ∷ []) in
      sym (
        ap (take stop) (sym (append_assoc seen (e ∷ []) more))
        ∙ take-append_of_le stop (seen ++ e ∷ []) more (omega (arith, len))
        ∙ take-all stop (seen ++ e ∷ []) (omega (arith, len)))

  run-ranging :
      (lines : List (List ℕ)) (seen : List Event)
      → length seen < stop
      → run decode (range_line json start stop) (ranging seen) lines
        ≡ ranging (take stop (seen ++ valid_of json lines))
  run-ranging [] seen h = rw append-nil (ap ranging (sym (take-all stop seen (omega arith))))
  run-ranging (line ∷ lines) seen h = elim (Option-cases (parse_line json line)) [
    | inl p ↦
        rw (range_line-none line (ranging seen) p, valid_of-none json line lines p)
          (run-ranging lines seen h)
    | inr (e, p) ↦ elim (Bool-cases (leb stop (length seen + 1))) [
      | inl done ↦
          rw (range_line-some line seen e p, valid_of-some json line lines e p, done)
            (ap ranging (full seen e (valid_of json lines) (leb→le _ _ done) h))
      | inr more ↦
          rw (range_line-some line seen e p, valid_of-some json line lines e p, more)
            (run-ranging lines (seen ++ e ∷ []) (ground (arith, length-append seen (e ∷ [])))
              ∙ rw append_assoc)
    ]
  ]

  read_file :
      (file : LogFile) (seen : List Event)
      → length seen < stop
      → read_lines decode (range_line json start stop) (ranging (take stop seen)) file
        ≡ ranging (take stop (seen ++ file_events json decode file))
  read_file file seen h = rw (take-all stop seen (omega arith)) (
      read_lines-eq-run decode (range_line json start stop) (ranging seen) file
      ∙ run-ranging (lines_from decode [] (flatten file)) seen h)

  range_files-ranging :
      (files : List LogFile) (seen : List Event)
      → range_files json decode start stop (ranging (take stop seen)) files
        ≡ ranging (take stop (seen ++ all_events json decode files))
  unfolding range_files ranging
  range_files-ranging [] seen = rw append-nil
  range_files-ranging (file ∷ files) seen = elim (Bool-cases (leb stop (length (take stop seen)))) [
    | inl done ↦ rw done (
        ap ranging
          (sym (take-append_of_le stop seen _ (omega (tests, done, length-take stop seen)))))
    | inr more ↦
        let h : length seen < stop = omega (tests, more, length-take stop seen) in
        rw (more, read_file file seen h)
          (range_files-ranging files (seen ++ file_events json decode file) ∙ rw append_assoc)
  ]

begin {ℓ} :
    {Event : Type ℓ} (json : List ℕ → Option Event) (decode : List ℕ → List ℕ) (start stop : ℕ)
    → record { out = []; idx = 0 } ≡ ranging json decode start stop (take stop [])
unfolding ranging
begin {Event} json decode start stop =
    rw (take-all {A = Event} stop [] (omega arith)) (rw (drop-nil {A = Event} start))

-- A range read is the slice from `start` to `stop` of all valid events in file order, whichever
-- generations it reaches into, and it is cut at the end of the log.
pub read_range-slice {ℓ} :
    {Event : Type ℓ} (json : List ℕ → Option Event) (decode : List ℕ → List ℕ)
    (files : List LogFile) (start stop : ℕ)
    → read_range json decode files start stop
      ≡ drop start (take stop (all_events json decode files))
unfolding read_range ranging
read_range-slice {Event} json decode files start stop =
    ap (λ (r : Ranging Event). r.out)
      (ap (λ s. range_files json decode start stop s files) (begin json decode start stop)
        ∙ range_files-ranging json decode start stop files [])
