-- ===== src/Session/Queue/Order.antt =====
-- `InputQueue` of daemon/src/session.ts keeps the order of its items and loses none.
use mathlib.Core.List.{append-nil, append_assoc}
use claude_persist.Prelude.{
  ℕ, zero, suc, ◌≡◌, refl, ap, sym, ◌∙◌, Option, none, some, List, [], ◌∷◌, ◌++◌, arith, ◌⊎◌, inl,
  inr, Bool-cases,
}
use claude_persist.Session.Queue.{InputQueue, push, next, close, done_times}

-- A call of `push`, `next` or `close`.
pub data Call {ℓ} (T : Type ℓ) : Type ℓ where
  pushing : T → Call T
  asking closing : Call T

module _ {ℓ} {T : Type ℓ} where
  -- The items among the answers.
  unfoldable pub items : List (Option T) → List T
  items [] = []
  items (none ∷ answers) = items answers
  items (some item ∷ answers) = item ∷ items answers

  unfoldable pub run_call : Call T → InputQueue T → InputQueue T
  unfolding push next close
  run_call (pushing item) q = push item q
  run_call asking q = next q
  run_call closing q = close q

  unfoldable pub run_calls : List (Call T) → InputQueue T → InputQueue T
  unfolding run_call
  run_calls [] q = q
  run_calls (call ∷ calls) q = run_calls calls (run_call call q)

  unfoldable pub pushed : List (Call T) → List T
  pushed [] = []
  pushed (pushing item ∷ calls) = item ∷ pushed calls
  pushed (asking ∷ calls) = pushed calls
  pushed (closing ∷ calls) = pushed calls

  -- What has been taken in, in order: the items that were handed out, then those that wait.
  abbrev pub taken_in : InputQueue T → List T
  taken_in q = items q.answered ++ q.buffer

  -- Nothing waits on both sides.
  abbrev pub IsMatched : InputQueue T → Type ℓ
  IsMatched q = (q.waiters ≡ 0) ⊎ (q.buffer ≡ [])

  items-append : (xs ys : List (Option T)) → items (xs ++ ys) ≡ items xs ++ items ys
  unfolding items
  items-append [] ys = refl
  items-append (none ∷ xs) ys = items-append xs ys
  items-append (some x ∷ xs) ys = ap (λ is. x ∷ is) (items-append xs ys)

  items-done_times : (n : ℕ) → items (done_times n) ≡ []
  unfolding items done_times
  items-done_times zero = refl
  items-done_times (suc n) = items-done_times n

  push_cases :
      (item : T) (q : InputQueue T) (n : ℕ)
      → q.waiters ≡ n
      → IsMatched q
      → (taken_in (push item q) ≡ taken_in q ++ item ∷ []) × IsMatched (push item q)
  unfolding push items
  push_cases item q zero e matched =
      rw e (sym (append_assoc (items q.answered) q.buffer (item ∷ [])), inl refl)
  push_cases item q (suc n) e (inl none_waits) = ground arith
  push_cases item q (suc n) e (inr none_kept) =
      rw (e, none_kept)
        (
          append-nil _
              ∙ items-append q.answered (some item ∷ [])
              ∙ ap (λ is. is ++ item ∷ []) (sym (append-nil _)),
          inr refl,
        )

  next_cases :
      (q : InputQueue T) (items_left : List T)
      → q.buffer ≡ items_left
      → IsMatched q
      → (taken_in (next q) ≡ taken_in q) × IsMatched (next q)
  unfolding next items
  next_cases q (item ∷ rest) e (inl none_waits) = rw e (
    ap (λ is. is ++ rest) (items-append q.answered (some item ∷ []))
        ∙ append_assoc (items q.answered) (item ∷ []) rest,
    inl none_waits,
  )
  next_cases q (item ∷ rest) e (inr none_kept) = cc
  next_cases q [] e matched = elim (Bool-cases q.closed) [
    | inl closed ↦
        rw (e, closed)
          (
            ap (λ is. is ++ [])
                (items-append q.answered (none ∷ []) ∙ append-nil (items q.answered)),
            inr refl,
          )
    | inr live ↦ rw (e, live) (refl, inr refl)
  ]

  taken_in-close : (q : InputQueue T) → (taken_in (close q) ≡ taken_in q) × IsMatched (close q)
  unfolding close
  taken_in-close q = (
    ap (λ is. is ++ q.buffer)
        (items-append q.answered (done_times q.waiters)
          ∙ ap (λ is. items q.answered ++ is) (items-done_times q.waiters)
          ∙ append-nil _),
    inl refl,
  )

  run_call-taken_in :
      (call : Call T) (q : InputQueue T)
      → IsMatched q
      → (taken_in (run_call call q) ≡ taken_in q ++ pushed (call ∷ []))
        × IsMatched (run_call call q)
  unfolding run_call pushed
  run_call-taken_in (pushing item) q matched = push_cases item q q.waiters refl matched
  run_call-taken_in asking q matched =
      let (same, still) = next_cases q q.buffer refl matched in (same ∙ sym (append-nil _), still)
  run_call-taken_in closing q matched =
      let (same, still) = taken_in-close q in (same ∙ sym (append-nil _), still)

  pushed-cons :
      (call : Call T) (calls : List (Call T))
      → pushed (call ∷ calls) ≡ pushed (call ∷ []) ++ pushed calls
  unfolding pushed
  pushed-cons (pushing item) calls = refl
  pushed-cons asking calls = refl
  pushed-cons closing calls = refl

  -- Whatever is pushed, asked for and closed, in any order: the items handed out, followed by those
  -- that wait, are the items that were there and then the pushed ones, in order; and a call of `next`
  -- never waits while an item does.
  pub run_calls_fifo :
      (calls : List (Call T)) (q : InputQueue T)
      → IsMatched q
      → (taken_in (run_calls calls q) ≡ taken_in q ++ pushed calls) × IsMatched (run_calls calls q)
  unfolding run_calls pushed
  run_calls_fifo [] q matched = (sym (append-nil _), matched)
  run_calls_fifo (call ∷ calls) q matched =
      let (one, still) = run_call-taken_in call q matched in
      let (rest, matched_after) = run_calls_fifo calls (run_call call q) still in
      (
        rest
            ∙ ap (λ is. is ++ pushed calls) one
            ∙ append_assoc (taken_in q) (pushed (call ∷ [])) (pushed calls)
            ∙ ap (λ is. taken_in q ++ is) (sym (pushed-cons call calls)),
        matched_after,
      )
