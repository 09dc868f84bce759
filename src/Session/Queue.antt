-- ===== src/Session/Queue.antt =====
-- `InputQueue` of daemon/src/session.ts: the prompt input of a query. `answered` is what the
-- calls of `next` have been answered, in order; `none` ends the iteration.
pub mod Order
use claude_persist.Prelude.{
  ℕ, zero, suc, Bool, true, false, Option, none, some, List, [], ◌∷◌, ◌++◌, if◌then◌else◌,
}

pub record InputQueue {ℓ} (T : Type ℓ) : Type ℓ where
  pub buffer : List T
  -- how many `next` calls wait
  pub waiters : ℕ
  pub closed : Bool
  pub answered : List (Option T)

module _ {ℓ} {T : Type ℓ} where
  unfoldable pub new_queue : InputQueue T
  new_queue = record { buffer = []; waiters = 0; closed = false; answered = [] }

  unfoldable pub push : T → InputQueue T → InputQueue T
  push item q = elim q.waiters [
    | zero ↦ record q { buffer = q.buffer ++ item ∷ [] }
    | suc n ↦ record q { waiters = n; answered = q.answered ++ some item ∷ [] }
  ]

  -- The waiters are answered `done`.
  unfoldable pub done_times : ℕ → List (Option T)
  done_times zero = []
  done_times (suc n) = none ∷ done_times n

  unfoldable pub close : InputQueue T → InputQueue T
  unfolding done_times
  close q = record q { closed = true; waiters = 0; answered = q.answered ++ done_times q.waiters }

  unfoldable pub next : InputQueue T → InputQueue T
  next q = elim q.buffer [
    | item ∷ rest ↦ record q { buffer = rest; answered = q.answered ++ some item ∷ [] }
    | [] ↦
        if q.closed
        then record q { answered = q.answered ++ none ∷ [] }
        else record q { waiters = suc q.waiters }
  ]
