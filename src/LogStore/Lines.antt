-- ===== src/LogStore/Lines.antt =====
-- `readLinesSync` of daemon/src/logStore.ts against the lines of the whole file.
use mathlib.Core.List.{flatten, append_assoc, append-nil}
use claude_persist.Prelude.{
  ℕ, zero, suc, ◌≤◌, ◌<◌, ◌≡◌, refl, sym, ap, ◌∙◌, Bool, true, false, none, some, List, [], ◌∷◌,
  ◌++◌, length, arith, ◌⊎◌, ◌==◌, if◌then◌else◌, Bool-cases, Option-cases, inl, inr,
}
use claude_persist.LogStore.{
  is_dropped, cut_line, Reading, drain, read_chunks, last_line, read_lines,
}

cut_line-length :
    (carry line rest : List ℕ) → cut_line carry ≡ some (line, rest) → length rest < length carry
unfolding cut_line
cut_line-length [] line rest e = cc
cut_line-length (b ∷ bs) line rest e = elim (Option-cases (cut_line bs)) [
  | inl stuck ↦ ground arith
  | inr ((line', rest'), at) ↦ ground (arith, cut_line-length bs line' rest' at)
]

module _ (decode : List ℕ → List ℕ) where
  -- The lines of a text whose open line has begun with `begun`: what ends in a newline, and the
  -- rest if it holds more than white space.
  abbrev pub lines_from : List ℕ → List ℕ → List (List ℕ)
  lines_from begun [] = if is_dropped decode begun then [] else decode begun ∷ []
  lines_from begun (b ∷ bs) =
      let closed = decode begun ∷ lines_from [] bs in
      let longer = lines_from (begun ++ b ∷ []) bs in if b == 0x0a then closed else longer

  pub lines_from-cut :
      (begun carry line rest more : List ℕ)
      → cut_line carry ≡ some (line, rest)
      → lines_from begun (carry ++ more) ≡ decode (begun ++ line) ∷ lines_from [] (rest ++ more)
  unfolding cut_line
  lines_from-cut begun [] line rest more e = cc
  lines_from-cut begun (b ∷ bs) line rest more e = elim (Bool-cases (b == 0x0a)) [
    | inl newline ↦ rw newline (
        ground (
          arith,
          append-nil begun,
          ap (λ (t : List ℕ). lines_from [] (t ++ more)) (same_rest newline),
        ))
    | inr other ↦ elim (Option-cases (cut_line bs)) [
      | inl stuck ↦ absurd (ground arith)
      | inr ((line', rest'), at) ↦
          let ih = lines_from-cut (begun ++ b ∷ []) bs line' rest' more at in
          rw other (ih ∙ ground (arith, append_assoc begun (b ∷ []) line'))
    ]
  ]
    where
      same_rest : (b == 0x0a) ≡ true → bs ≡ rest
      same_rest h = ground arith

  lines_from-none :
      (begun carry : List ℕ)
      → cut_line carry ≡ none
      → lines_from begun carry ≡ lines_from (begun ++ carry) []
  unfolding cut_line
  lines_from-none begun [] e = rw append-nil
  lines_from-none begun (b ∷ bs) e = elim (Bool-cases (b == 0x0a)) [
    | inl newline ↦ absurd (ground arith)
    | inr other ↦ rw other (lines_from-none (begun ++ b ∷ []) bs (ground arith) ∙ rw append_assoc)
  ]

module _ {ℓ} {S : Type ℓ} (decode : List ℕ → List ℕ) (on_line : S → List ℕ → S × Bool) where
  -- The callback on one line after another, until it says to stop.
  abbrev pub run : S → List (List ℕ) → S
  run s [] = s
  run s (line ∷ lines) =
      let (s', more) = on_line s line in let rest = run s' lines in if more then rest else s'

  abbrev pub run_lines : S → List ℕ → S
  run_lines s bytes = run s (lines_from decode [] bytes)

  run_lines-cut :
      (s : S) (carry line rest more : List ℕ)
      → cut_line carry ≡ some (line, rest)
      → run_lines s (carry ++ more) ≡ (
          if (on_line s (decode line)).1
          then run_lines (on_line s (decode line)).0 (rest ++ more)
          else (on_line s (decode line)).0)
  run_lines-cut s carry line rest more e = rw (lines_from-cut decode [] carry line rest more e)

  -- What `drain` leaves: stopped, with the state that any continuation ends in, or on its way with
  -- no newline left in the carry.
  abbrev Drained : S → List ℕ → Reading S → Type ℓ
  Drained s bytes r =
      ((r.stopped ≡ true) × ((more : List ℕ) → run_lines s (bytes ++ more) ≡ r.state))
      ⊎ ((r.stopped ≡ false)
          × (cut_line r.carry ≡ none)
          × ((more : List ℕ) → run_lines s (bytes ++ more) ≡ run_lines r.state (r.carry ++ more)))

  drain-Drained :
      (fuel : ℕ) (s : S) (carry : List ℕ)
      → length carry ≤ fuel
      → Drained s carry (drain decode on_line fuel s carry)
  unfolding drain
  drain-Drained zero s [] h = inr (refl, unfold cut_line in refl, λ more. refl)
  drain-Drained zero s (b ∷ bs) h = absurd (omega arith)
  drain-Drained (suc fuel) s carry h = elim (Option-cases (cut_line carry)) [
    | inl done ↦ rw (done, drain) (inr (refl, done, λ more. refl))
    | inr ((line, rest), at) ↦
        let step = λ (more : List ℕ). run_lines-cut s carry line rest more at in
        let ih =
          drain-Drained fuel (on_line s (decode line)).0 rest
            (omega (arith, cut_line-length carry line rest at)) in
        elim (Bool-cases (on_line s (decode line)).1) [
          | inl goes_on ↦
              rw (at, goes_on, drain)
                (elim ih [
                  | inl (t, same) ↦ inl (t, λ more. step more ∙ rw goes_on (same more))
                  | inr (f, bare, same) ↦ inr (f, bare, λ more. step more ∙ rw goes_on (same more))
                ])
          | inr stops ↦ rw (at, stops, drain) (inl (refl, λ more. step more ∙ rw stops))
        ]
  ]

  run_single : (s : S) (line : List ℕ) → run s (line ∷ []) ≡ (on_line s line).0
  run_single s line = elim (Bool-cases (on_line s line).1) [ inl t ↦ rw t | inr f ↦ rw f ]

  last_line-bare :
      (s : S) (carry : List ℕ)
      → cut_line carry ≡ none
      → last_line decode on_line (record { state = s; carry = carry; stopped = false })
        ≡ run_lines s carry
  unfolding last_line
  last_line-bare s carry bare =
      rw (lines_from-none decode [] carry bare) (elim (Bool-cases (is_dropped decode carry)) [
        | inl gone ↦ rw gone
        | inr kept ↦ rw kept (sym (run_single s (decode carry)))
      ])

  read_chunks-stopped :
      (s : S) (carry chunk : List ℕ) (chunks : List (List ℕ))
      → (drain decode on_line (length (carry ++ chunk)) s (carry ++ chunk)).stopped ≡ true
      → read_chunks decode on_line s carry (chunk ∷ chunks)
        ≡ drain decode on_line (length (carry ++ chunk)) s (carry ++ chunk)
  unfolding read_chunks drain
  read_chunks-stopped s carry chunk chunks e = rw (e, read_chunks)

  read_chunks-next :
      (s : S) (carry chunk : List ℕ) (chunks : List (List ℕ))
      → (drain decode on_line (length (carry ++ chunk)) s (carry ++ chunk)).stopped ≡ false
      → read_chunks decode on_line s carry (chunk ∷ chunks) ≡ (
          let r = drain decode on_line (length (carry ++ chunk)) s (carry ++ chunk) in
          read_chunks decode on_line r.state r.carry chunks)
  unfolding read_chunks
  read_chunks-next s carry chunk chunks e = rw (e, read_chunks)

  last_line_of_stopped : (r : Reading S) → r.stopped ≡ true → last_line decode on_line r ≡ r.state
  unfolding last_line
  last_line_of_stopped r e = rw e

  read_chunks-run :
      (s : S) (carry : List ℕ) (chunks : List (List ℕ))
      → cut_line carry ≡ none
      → last_line decode on_line (read_chunks decode on_line s carry chunks)
        ≡ run_lines s (carry ++ flatten chunks)
  unfolding read_chunks flatten
  read_chunks-run s carry [] bare = rw append-nil (last_line-bare s carry bare)
  read_chunks-run s carry (chunk ∷ chunks) bare =
      rw (← append_assoc)
        (elim (drain-Drained (length (carry ++ chunk)) s (carry ++ chunk) (omega arith)) [
          | inl (t, same) ↦
              ap (last_line decode on_line) (read_chunks-stopped s carry chunk chunks t)
              ∙ last_line_of_stopped _ t
              ∙ sym (same (flatten chunks))
          | inr (f, bare', same) ↦
              ap (last_line decode on_line) (read_chunks-next s carry chunk chunks f)
              ∙ read_chunks-run
                  (drain decode on_line (length (carry ++ chunk)) s (carry ++ chunk)).state
                  (drain decode on_line (length (carry ++ chunk)) s (carry ++ chunk)).carry chunks
                  bare'
              ∙ sym (same (flatten chunks))
        ])

-- Reading a file in pieces, whatever their sizes, runs the callback on the lines of the whole
-- file in order until it says to stop: no line is lost, split or seen twice at a boundary.
pub read_lines-eq-run {ℓ} :
    {S : Type ℓ} (decode : List ℕ → List ℕ) (on_line : S → List ℕ → S × Bool) (s : S)
    (chunks : List (List ℕ))
    → read_lines decode on_line s chunks
      ≡ run decode on_line s (lines_from decode [] (flatten chunks))
unfolding read_lines
read_lines-eq-run decode on_line s chunks = read_chunks-run decode on_line s [] chunks refl
