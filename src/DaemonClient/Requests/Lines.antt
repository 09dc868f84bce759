-- ===== src/DaemonClient/Requests/Lines.antt =====
-- extension/src/daemonClient.ts, `wire`, with the same loop of daemon/src/main.ts: the lines that
-- are handled are those of the whole text, wherever it is cut into chunks.
use mathlib.Core.List.{append_assoc, append-nil}
use claude_persist.DaemonClient.Requests.{take_lines, on_data}
use claude_persist.LogStore.{cut_line}
use claude_persist.Texts.{Text}
use claude_persist.Prelude.{
  ℕ, zero, suc, ◌≤◌, ◌<◌, Bool, true, not, none, some, List, [], ◌∷◌, ◌++◌, ◌≡◌, refl, sym, ap, ◌∙◌,
  arith, ◌==◌, all, length, Bool-cases, Option-cases, inl, inr, if◌then◌else◌,
}

-- The lines of a text that begins behind `begun`, without the last one if it has no newline.
abbrev pub lines_in : Text → Text → List Text
lines_in begun [] = []
lines_in begun (c ∷ cs) =
    let ended = begun ∷ lines_in [] cs in
    let longer = lines_in (begun ++ c ∷ []) cs in if c == 0x0a then ended else longer

-- What stands behind the last newline.
abbrev pub rest_in : Text → Text → Text
rest_in begun [] = begun
rest_in begun (c ∷ cs) =
    let ended = rest_in [] cs in
    let longer = rest_in (begun ++ c ∷ []) cs in if c == 0x0a then ended else longer

abbrev is_clean : Text → Bool
is_clean = all (λ c. not (c == 0x0a))

lines_in-append :
    (begun a b : Text)
    → (lines_in begun (a ++ b) ≡ lines_in begun a ++ lines_in (rest_in begun a) b)
      × (rest_in begun (a ++ b) ≡ rest_in (rest_in begun a) b)
lines_in-append begun [] b = (refl, refl)
lines_in-append begun (c ∷ a) b = elim (Bool-cases (c == 0x0a)) [
  | inl t ↦ let (l, r) = lines_in-append [] a b in rw t (ap (λ ls. begun ∷ ls) l, r)
  | inr f ↦ rw f (lines_in-append (begun ++ c ∷ []) a b)
]

lines_in-clean :
    (begun a b : Text)
    → is_clean a ≡ true
    → (lines_in begun (a ++ b) ≡ lines_in (begun ++ a) b)
      × (rest_in begun (a ++ b) ≡ rest_in (begun ++ a) b)
lines_in-clean begun [] b h = rw append-nil (refl, refl)
lines_in-clean begun (c ∷ a) b h = elim (Bool-cases (c == 0x0a)) [
  | inl t ↦ absurd (ground arith)
  | inr f ↦
      let (l, r) = lines_in-clean (begun ++ c ∷ []) a b (ground arith) in
      let same = append_assoc begun (c ∷ []) a in
      rw f (l ∙ ap (λ k. lines_in k b) same, r ∙ ap (λ k. rest_in k b) same)
]

all-append : (p : ℕ → Bool) (a b : Text) → all p a ≡ true → all p b ≡ true → all p (a ++ b) ≡ true
all-append p [] b h k = k
all-append p (c ∷ a) b h k = ground (arith, all-append p a b)

rest_in-clean : (begun a : Text) → is_clean begun ≡ true → is_clean (rest_in begun a) ≡ true
rest_in-clean begun [] h = h
rest_in-clean begun (c ∷ a) h = elim (Bool-cases (c == 0x0a)) [
  | inl t ↦ rw t (rest_in-clean [] a refl)
  | inr f ↦ rw f (
      rest_in-clean (begun ++ c ∷ []) a
        (all-append (λ k. not (k == 0x0a)) begun (c ∷ []) h (ground arith)))
]

-- A cut, with the text in front of it.
lines_in-cut :
    (begun t line rest : Text)
    → cut_line t ≡ some (line, rest)
    → (lines_in begun t ≡ (begun ++ line) ∷ lines_in [] rest)
      × (rest_in begun t ≡ rest_in [] rest)
      × (length rest < length t)
unfolding cut_line
lines_in-cut begun [] line rest e = cc
lines_in-cut begun (c ∷ t) line rest e = elim (Bool-cases (c == 0x0a)) [
  | inl newline ↦
      let same : t ≡ rest = ground arith in
      let empty : [] ≡ line = ground arith in
      rw newline (
        ap (λ k. k ∷ lines_in [] t) (sym (append-nil begun) ∙ ap (λ k. begun ++ k) empty)
            ∙ ap (λ k. (begun ++ line) ∷ lines_in [] k) same,
        ap (λ k. rest_in [] k) same,
        ground arith,
      )
  | inr other ↦ elim (Option-cases (cut_line t)) [
    | inl stuck ↦ absurd (ground arith)
    | inr ((line', rest'), at) ↦
        let (l, r, shorter) = lines_in-cut (begun ++ c ∷ []) t line' rest' at in
        let same : rest' ≡ rest = ground arith in
        let longer : c ∷ line' ≡ line = ground arith in
        rw other (
          l
              ∙ ap (λ k. k ∷ lines_in [] rest')
                  (append_assoc begun (c ∷ []) line' ∙ ap (λ k. begun ++ k) longer)
              ∙ ap (λ k. (begun ++ line) ∷ lines_in [] k) same,
          r ∙ ap (λ k. rest_in [] k) same,
          ground arith,
        )
  ]
]

lines_in-uncut :
    (begun t : Text) → cut_line t ≡ none → (lines_in begun t ≡ []) × (rest_in begun t ≡ begun ++ t)
unfolding cut_line
lines_in-uncut begun [] e = (refl, sym (append-nil begun))
lines_in-uncut begun (c ∷ t) e = elim (Bool-cases (c == 0x0a)) [
  | inl newline ↦ absurd (ground arith)
  | inr other ↦
      let (l, r) = lines_in-uncut (begun ++ c ∷ []) t (ground arith) in
      rw other (l, r ∙ append_assoc begun (c ∷ []) t)
]

module _ {ℓ} {S : Type ℓ} (handle : Text → S → S) where
  abbrev pub run : List Text → S → S
  run [] s = s
  run (line ∷ lines) s = run lines (handle line s)

  run-append : (a b : List Text) (s : S) → run (a ++ b) s ≡ run b (run a s)
  run-append [] b s = refl
  run-append (line ∷ a) b s = run-append a b (handle line s)

  take_lines-run :
      (fuel : ℕ) (t : Text) (s : S)
      → length t ≤ fuel
      → take_lines handle fuel t s ≡ (run (lines_in [] t) s, rest_in [] t)
  unfolding take_lines
  take_lines-run zero [] s h = refl
  take_lines-run zero (c ∷ t) s h = absurd (omega arith)
  take_lines-run (suc fuel) t s h = elim (Option-cases (cut_line t)) [
    | inl stuck ↦
        let (l, r) = lines_in-uncut [] t stuck in
        rw (stuck, take_lines) (sym (ap (λ k. (run k s, rest_in [] t)) l ∙ ap (λ k. (s, k)) r))
    | inr ((line, rest), at) ↦
        let (l, r, shorter) = lines_in-cut [] t line rest at in
        let ih = take_lines-run fuel rest (handle line s) (omega (arith, shorter)) in
        rw (at, take_lines)
          (ih
            ∙ sym (
                ap (λ k. (run k s, rest_in [] t)) l
                ∙ ap (λ k. (run (lines_in [] rest) (handle line s), k)) r))
  ]

  module _ (decode : List ℕ → Text) where
    abbrev pub receive_all : List (List ℕ) → S × Text → S × Text
    receive_all [] s = s
    receive_all (chunk ∷ chunks) s = receive_all chunks (on_data handle decode chunk s)

    -- What the chunks say, one behind the other.
    abbrev pub said : List (List ℕ) → Text
    said [] = []
    said (chunk ∷ chunks) = decode chunk ++ said chunks

    on_data-run :
        (chunk : List ℕ) (s : S) (r : Text)
        → is_clean r ≡ true
        → on_data handle decode chunk (s, r)
          ≡ (run (lines_in r (decode chunk)) s, rest_in r (decode chunk))
    unfolding on_data
    on_data-run chunk s r h =
        let text : Text = r ++ decode chunk in
        let (l, e) = lines_in-clean [] r (decode chunk) h in
        take_lines-run (length text) text s (omega arith)
        ∙ (ap (λ k. (run k s, rest_in [] text)) l
            ∙ ap (λ k. (run (lines_in r (decode chunk)) s, k)) e)

    receive_all-from :
        (chunks : List (List ℕ)) (s : S) (r : Text)
        → is_clean r ≡ true
        → receive_all chunks (s, r) ≡ (run (lines_in r (said chunks)) s, rest_in r (said chunks))
    receive_all-from [] s r h = refl
    receive_all-from (chunk ∷ chunks) s r h =
        let lines = lines_in r (decode chunk) in
        let left : Text = rest_in r (decode chunk) in
        let (l, e) = lines_in-append r (decode chunk) (said chunks) in
        let ih = receive_all-from chunks (run lines s) left (rest_in-clean r (decode chunk) h) in
        let later = lines_in left (said chunks) in
        ap (receive_all chunks) (on_data-run chunk s r h)
        ∙ (ih
            ∙ sym (
                ap (λ k. (run k s, rest_in r (said (chunk ∷ chunks)))) l
                ∙ (ap (λ k. (run (lines ++ later) s, k)) e
                    ∙ ap (λ k. (k, rest_in left (said chunks))) (run-append lines later s))))

    -- Chunks of any sizes: the lines that are handled are, in order, the lines of all that the
    -- chunks say, and what stands behind the last newline waits in the buffer.
    pub receive_all-run :
        (chunks : List (List ℕ)) (s : S)
        → receive_all chunks (s, []) ≡ (run (lines_in [] (said chunks)) s, rest_in [] (said chunks))
    receive_all-run chunks s = receive_all-from chunks s [] refl
