-- ===== src/LogStore/Reads.antt =====
-- `loadTailAndCount` and `readRange` of daemon/src/logStore.ts against the list of all valid
-- events of the files.
use mathlib.Core.List.{flatten, append_assoc, append-nil}
use native.Mathlib.Nat.{add-zero}
use claude_persist.Prelude.{
  ℕ, ◌+◌, ◌-◌, ◌≡◌, sym, ap, ◌∙◌, true, Option, none, some, List, [], ◌∷◌, ◌++◌, length, drop, map,
  arith, ltb, Bool-cases, Option-cases, inl, inr, length-append, length-drop, tests, ltb→lt, ltb→le,
  drop-append, drop-drop, drop-nil,
}
use claude_persist.LogStore.{
  LogFile, TailAndCount, Counting, push_capped, parse_line, count_line, read_lines, load_files,
  load_tail_and_count,
}
use claude_persist.LogStore.Lines.{lines_from, run, read_lines-eq-run}

-- The newest `n` items.
abbrev pub newest {ℓ} : {A : Type ℓ} → ℕ → List A → List A
newest n xs = drop (length xs - n) xs

pub push_capped-newest {ℓ} :
    {A : Type ℓ} (room : ℕ) (xs : List A) (x : A)
    → push_capped room (newest room xs) x ≡ newest room (xs ++ x ∷ [])
unfolding push_capped
push_capped-newest room xs x =
    let k = length xs - room in
    let len : length (drop k (xs ++ x ∷ [])) ≡ length xs + 1 - k =
      omega (arith, length-drop k (xs ++ x ∷ []), length-append xs (x ∷ [])) in
    rw (← drop-append k xs (x ∷ []) (omega arith))
      (elim (Bool-cases (ltb room (length (drop k (xs ++ x ∷ []))))) [
        | inl over ↦
            rw (over, drop-drop)
              (ap (λ j. drop j (xs ++ x ∷ []))
                (omega (tests, ltb→lt _ _ over, len, length-append xs (x ∷ []))))
        | inr fits ↦ rw fits (
            ap (λ j. drop j (xs ++ x ∷ []))
              (omega (tests, ltb→le _ _ fits, len, length-append xs (x ∷ []))))
      ])

module _ {ℓ} {Event : Type ℓ} (json : List ℕ → Option Event) where
  -- The events that parse, in order.
  abbrev pub valid_of : List (List ℕ) → List Event
  valid_of [] = []
  valid_of (line ∷ lines) = elim (parse_line json line) [
    | none ↦ valid_of lines
    | some e ↦ e ∷ valid_of lines
  ]

  pub valid_of-none :
      (line : List ℕ) (lines : List (List ℕ))
      → parse_line json line ≡ none
      → valid_of (line ∷ lines) ≡ valid_of lines
  valid_of-none line lines p = rw (p, valid_of)

  pub valid_of-some :
      (line : List ℕ) (lines : List (List ℕ)) (e : Event)
      → parse_line json line ≡ some e
      → valid_of (line ∷ lines) ≡ e ∷ valid_of lines
  valid_of-some line lines e p = rw (p, valid_of)

  module _ (decode : List ℕ → List ℕ) where
    abbrev pub file_events : LogFile → List Event
    file_events file = valid_of (lines_from decode [] (flatten file))

    abbrev pub all_events : List LogFile → List Event
    all_events [] = []
    all_events (file ∷ files) = file_events file ++ all_events files

module _ {ℓ} {Event : Type ℓ} (json : List ℕ → Option Event) (decode : List ℕ → List ℕ)
    (room : ℕ) where
  counting : List Event → ℕ → Counting Event
  counting seen n = record { tail = newest room seen; count = length seen; file_count = n }

  count_line-some :
      (line : List ℕ) (seen : List Event) (n : ℕ) (e : Event)
      → parse_line json line ≡ some e
      → count_line json room (counting seen n) line ≡ (counting (seen ++ e ∷ []) (n + 1), true)
  unfolding count_line counting
  count_line-some line seen n e p =
      rw (p, count_line) (rw (push_capped-newest room seen e) (rw length-append))

  count_line-none :
      (line : List ℕ) (s : Counting Event)
      → parse_line json line ≡ none
      → count_line json room s line ≡ (s, true)
  unfolding count_line
  count_line-none line s p = rw (p, count_line)

  run-counting :
      (lines : List (List ℕ)) (seen : List Event) (n : ℕ)
      → run decode (count_line json room) (counting seen n) lines
        ≡ counting (seen ++ valid_of json lines) (n + length (valid_of json lines))
  run-counting [] seen n = rw (append-nil, add-zero)
  run-counting (line ∷ lines) seen n = elim (Option-cases (parse_line json line)) [
    | inl p ↦
        rw (count_line-none line (counting seen n) p, valid_of-none json line lines p)
          (run-counting lines seen n)
    | inr (e, p) ↦
        rw (count_line-some line seen n e p, valid_of-some json line lines e p)
          (run-counting lines (seen ++ e ∷ []) (n + 1)
            ∙ rw append_assoc (ap (counting (seen ++ e ∷ valid_of json lines)) (omega arith)))
  ]

  -- The state behind the files that are read.
  loaded : List Event → List ℕ → TailAndCount Event
  loaded seen sizes = record { tail = newest room seen; count = length seen; per_file = sizes }

  read_file :
      (file : LogFile) (seen : List Event)
      → read_lines decode (count_line json room) (counting seen 0) file
        ≡ counting (seen ++ file_events json decode file) (length (file_events json decode file))
  read_file file seen =
      read_lines-eq-run decode (count_line json room) (counting seen 0) file
      ∙ run-counting (lines_from decode [] (flatten file)) seen 0
      ∙ ap (counting (seen ++ file_events json decode file)) (omega arith)

  load_files-loaded :
      (files : List LogFile) (seen : List Event) (sizes : List ℕ)
      → load_files json decode room (loaded seen sizes) files
        ≡ loaded
            (seen ++ all_events json decode files)
            (sizes ++ map (λ f. length (file_events json decode f)) files)
  unfolding load_files loaded counting
  load_files-loaded [] seen sizes = rw (append-nil {A = Event}, append-nil {A = ℕ})
  load_files-loaded (file ∷ files) seen sizes = rw (read_file file seen) (
      load_files-loaded files (seen ++ file_events json decode file)
        (sizes ++ length (file_events json decode file) ∷ [])
      ∙ rw (append_assoc {A = Event}) (rw (append_assoc {A = ℕ})))

-- Loading keeps the newest `room` of all valid events, whole files or not, and counts all of them
-- and those of each file.
pub load_tail_and_count-newest {ℓ} :
    {Event : Type ℓ} (json : List ℕ → Option Event) (decode : List ℕ → List ℕ)
    (files : List LogFile) (room : ℕ)
    → load_tail_and_count json decode files room ≡ record {
      tail = newest room (all_events json decode files);
      count = length (all_events json decode files);
      per_file = map (λ f. length (file_events json decode f)) files;
    }
unfolding load_tail_and_count
load_tail_and_count-newest {Event} json decode files room =
    unfold loaded in
    rw (sym (drop-nil {A = Event} (0 - room))) (load_files-loaded json decode room files [] [])
