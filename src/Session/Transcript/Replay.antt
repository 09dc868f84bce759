-- ===== src/Session/Transcript/Replay.antt =====
-- `eventsSince` and `eventsBefore` of daemon/src/session.ts: what a client is replayed is a part
-- of the history, whether it comes from memory or from the files.
use claude_persist.Prelude.{
  ℕ, zero, suc, ◌-◌, ◌≤◌, ◌<◌, ◌≡◌, sym, ap, ◌∙◌, false, Option, List, [], ◌∷◌, length, take, drop,
  leb, ltb, arith, tests, min, max, if◌then◌else◌, length-drop, ltb→lt, lt→ltb, le→ltb, ltb→le,
  drop-nil, Bool-cases, inl, inr, drop-drop, drop-all, take-all, length-take, leb→le, leb→lt,
}
use claude_persist.LogStore.{read_range}
use claude_persist.LogStore.Reads.{newest}
use claude_persist.LogStore.Range.{read_range-slice}
use claude_persist.LogStore.Disk.{all_log_files}
use claude_persist.Session.Transcript.{
  Transcript, ℤ, max_zero, max_tail, events_since, events_before,
}
use claude_persist.Session.Transcript.Consistent.{IsConsistent}

module _ {ℓ} {A : Type ℓ} where
  drop-take : (n m : ℕ) (xs : List A) → n ≤ m → take (m - n) (drop n xs) ≡ drop n (take m xs)
  drop-take zero m xs h = ap (λ k. take k xs) (omega arith)
  drop-take (suc n) zero xs h = absurd (omega arith)
  drop-take (suc n) (suc m) [] h = take-all {A = A} (suc m - suc n) [] (omega arith)
  drop-take (suc n) (suc m) (x ∷ xs) h =
      ap (λ k. take k (drop n xs)) (omega arith) ∙ drop-take n m xs (omega arith)

take-min {ℓ} : {A : Type ℓ} (n : ℕ) (xs : List A) → take (min n (length xs)) xs ≡ take n xs
take-min n xs = elim (Bool-cases (leb n (length xs))) [
  | inl t ↦ ap (λ k. take k xs) (omega (tests, leb→le _ _ t))
  | inr f ↦
      let lt : length xs < n = leb→lt _ _ f in
      take-all _ xs (omega arith) ∙ sym (take-all n xs (omega arith))
]

ltb_before : (stop n : ℕ) → ltb 0 (stop - n) ≡ ltb n stop
ltb_before stop n = ground arith

none_before {ℓ} :
    {A : Type ℓ} (before n : ℕ) (xs : List A)
    → min before (length xs) ≡ 0
    → newest n (take before xs) ≡ []
none_before before n xs h =
    drop-all (length (take before xs) - n) (take before xs) (omega (arith, length-take before xs))

ltb_none : (total start limit : ℕ) → total ≤ start → ltb limit (total - start) ≡ false
ltb_none total start limit h = ground arith

ltb_more :
    (total start limit : ℕ)
    → start < total
    → ltb start (max start (total - limit)) ≡ ltb limit (total - start)
ltb_more total start limit h = elim (Bool-cases (ltb limit (total - start))) [
  | inl more ↦ rw more (lt→ltb _ _ (omega (tests, ltb→lt _ _ more)))
  | inr all ↦ rw all (le→ltb _ _ (omega (tests, ltb→le _ _ all)))
]

module _ {ℓ} {Event : Type ℓ} (json : List ℕ → Option Event) (decode : List ℕ → List ℕ)
    (history : List Event) (t : Transcript Event) (h : IsConsistent json decode history t) where
  -- Where the resident tail begins.
  abbrev tail_start : ℕ
  tail_start = length history - max_tail

  from_tail : (n : ℕ) → tail_start ≤ n → drop (n - tail_start) t.tail ≡ drop n history
  from_tail n le =
      ap (drop (n - tail_start)) h.resident
      ∙ drop-drop (n - tail_start) tail_start history
      ∙ ap (λ k. drop k history) (omega arith)

  from_files :
      (n m : ℕ) → read_range json decode (all_log_files t.disk) n m ≡ drop n (take m history)
  from_files n m =
      read_range-slice json decode (all_log_files t.disk) n m
      ∙ ap (λ es. drop n (take m es)) h.stored

  start_of_tail : t.total_count - length t.tail ≡ tail_start
  start_of_tail = omega (arith, h.counted, ap length h.resident, length-drop tail_start history)

  -- The events from `n` on, wherever they are read.
  from_either :
      (n : ℕ)
      → (if leb tail_start n
          then drop (n - tail_start) t.tail
          else read_range json decode (all_log_files t.disk) n (length history))
        ≡ drop n history
  from_either n = elim (Bool-cases (leb tail_start n)) [
    | inl resident ↦ rw resident (from_tail n (leb→le _ _ resident))
    | inr old ↦ rw old (
        from_files n (length history)
        ∙ ap (drop n) (take-all (length history) history (omega arith)))
  ]

  newest-drop :
      (start limit : ℕ)
      → start < length history
      → drop (max start (length history - limit)) history ≡ newest limit (drop start history)
  newest-drop start limit lt =
      ap (λ k. drop k history) (omega (arith, length-drop start history))
      ∙ sym (drop-drop (length (drop start history) - limit) start history)

  slice_either :
      (start stop : ℕ)
      → start ≤ stop
      → (if leb tail_start start
          then drop (start - tail_start) (take (stop - tail_start) t.tail)
          else read_range json decode (all_log_files t.disk) start stop)
        ≡ drop start (take stop history)
  slice_either start stop le = elim (Bool-cases (leb tail_start start)) [
    | inl resident ↦
        let lo : tail_start ≤ start = leb→le _ _ resident in
        rw resident (
          ap (λ es. drop (start - tail_start) (take (stop - tail_start) es)) h.resident
          ∙ ap (drop (start - tail_start)) (drop-take tail_start stop history (omega arith))
          ∙ drop-drop (start - tail_start) tail_start (take stop history)
          ∙ ap (λ k. drop k (take stop history)) (omega arith))
    | inr old ↦ rw old (from_files start stop)
  ]

  newest-take :
      (before n : ℕ)
      → drop (min before (length history) - n) (take (min before (length history)) history)
        ≡ newest n (take before history)
  newest-take before n =
      ap (λ es. drop (min before (length history) - n) es) (take-min before history)
      ∙ ap (λ k. drop (k - n) (take before history)) (sym (length-take before history))

-- A client that has seen the events before `seq` is sent the newest `limit` of the ones it missed,
-- in order, and told whether older ones were cut off; the answer does not depend on how much of
-- the history is resident.
pub events_since-eq-newest {ℓ} :
    {Event : Type ℓ} (json : List ℕ → Option Event) (decode : List ℕ → List ℕ)
    (history : List Event) (t : Transcript Event) (seq : ℤ) (limit : ℕ)
    → IsConsistent json decode history t
    → events_since json decode seq limit t ≡ record {
      events = newest limit (drop (max_zero seq) history);
      has_earlier = ltb limit (length history - max_zero seq);
    }
unfolding events_since
events_since-eq-newest {Event} json decode history t seq limit h =
    rw (start_of_tail json decode history t h, h.counted)
      (elim (Bool-cases (leb (length history) (max_zero seq))) [
        | inl seen ↦
            let le : length history ≤ max_zero seq = leb→le _ _ seen in
            rw
              (
                seen,
                drop-all (max_zero seq) history le,
                ltb_none (length history) (max_zero seq) limit le,
              )
              (rw (drop-nil {A = Event} (0 - limit)))
        | inr missed ↦
            let lt : max_zero seq < length history = leb→lt _ _ missed in
            rw (
              missed,
              from_either json decode history t h,
              newest-drop json decode history t h (max_zero seq) limit lt,
              ltb_more (length history) (max_zero seq) limit lt,
            )
      ])

-- Scrolling back, a client is sent the newest `limit` of the events before `before_seq`, one at
-- least, in order, and told whether older ones remain.
pub events_before-eq-newest {ℓ} :
    {Event : Type ℓ} (json : List ℕ → Option Event) (decode : List ℕ → List ℕ)
    (history : List Event) (t : Transcript Event) (before_seq : ℤ) (limit : ℕ)
    → IsConsistent json decode history t
    → events_before json decode before_seq limit t ≡ record {
      events = newest (max 1 limit) (take (max_zero before_seq) history);
      has_earlier = ltb (max 1 limit) (min (max_zero before_seq) (length history));
    }
unfolding events_before
events_before-eq-newest {Event} json decode history t before_seq limit h =
    let stop = min (max_zero before_seq) (length history) in
    let n = max 1 limit in
    rw (start_of_tail json decode history t h, h.counted)
      (elim (Bool-cases (leb stop (stop - n))) [
        | inl empty ↦
            let none_left : stop ≡ 0 = omega (tests, leb→le _ _ empty) in
            rw (
              empty,
              none_before (max_zero before_seq) n history none_left,
              le→ltb n stop (omega arith),
            )
        | inr some_left ↦ rw (
          some_left,
          slice_either json decode history t h (stop - n) stop (omega arith),
          newest-take json decode history t h (max_zero before_seq) n,
          ltb_before stop n,
        )
      ])
