-- ===== src/DaemonClient/Requests/Once.antt =====
-- extension/src/daemonClient.ts: each request that was sent either waits or was settled, once.
use claude_persist.DaemonClient.Requests.{
  Requests, Settlement, connection_lost, timed_out, resolved, rejected, Incoming, answered, refused,
  push, settle_request, request, dispatch, time_out, lose, on_gone, on_connect, drop_current,
  on_line, Act, asks, reads, times_out, goes, connects, drops, act, act_all, no_requests,
}
use claude_persist.Ids.{in_ids, count, count-append, count-without, count-in_ids}
use claude_persist.Texts.{Text, is_empty}
use claude_persist.Limits.{trim}
use claude_persist.Prelude.{
  ℕ, ◌+◌, ◌≤◌, Option, List, [], ◌∷◌, ◌≡◌, arith, ◌==◌, ltb, leb, ◌&&◌, Bool-cases, Option-cases,
  inl, inr, if◌then◌else◌,
}

abbrev pub ids_of : List (ℕ × Settlement) → List ℕ
ids_of [] = []
ids_of ((id, how) ∷ rest) = id ∷ ids_of rest

-- How often a number waits or was settled.
abbrev pub total : ℕ → Requests → ℕ
total j s = count j s.pending + count j (ids_of s.settled)

-- Each number that was given waits or was settled, once; no other number does.
abbrev pub IsLedger : Requests → Type 0
IsLedger s = (1 ≤ s.next_id) × ((j : ℕ) → total j s ≡ (if leb 1 j && ltb j s.next_id then 1 else 0))

count-lose :
    (j : ℕ) (ids : List ℕ) (settled : List (ℕ × Settlement))
    → count j (ids_of (lose ids settled)) ≡ count j ids + count j (ids_of settled)
count-lose j [] settled = omega arith
count-lose j (id ∷ ids) settled = ground (arith, count-lose j ids ((id, connection_lost) ∷ settled))

settle_request-IsLedger :
    (id : ℕ) (how : Settlement) (s : Requests) → IsLedger s → IsLedger (settle_request id how s)
unfolding settle_request
settle_request-IsLedger id how s (p, h) = elim (Bool-cases (in_ids id s.pending)) [
  | inr f ↦ rw f (p, h)
  | inl t ↦
      rw t (p, λ j. ground (arith, h j, count-without j id s.pending, count-in_ids j id s.pending))
]

request-IsLedger : (s : Requests) → IsLedger s → IsLedger (request s)
unfolding request
request-IsLedger s (p, h) = elim (Option-cases s.socket) [
  | inl e ↦ rw e (p, h)
  | inr (n, e) ↦ elim (Bool-cases s.destroyed) [
    | inl t ↦ rw e (rw t (p, h))
    | inr f ↦
        rw e
          (rw f (omega arith, λ j. ground (arith, h j, count-append j s.pending (s.next_id ∷ []))))
  ]
]

time_out-IsLedger : (id : ℕ) (s : Requests) → IsLedger s → IsLedger (time_out id s)
unfolding time_out
time_out-IsLedger id s h = elim (Bool-cases (in_ids id s.pending)) [
  | inl t ↦ rw t (settle_request-IsLedger id timed_out s h)
  | inr f ↦ rw f h
]

on_gone-IsLedger : (n : ℕ) (s : Requests) → IsLedger s → IsLedger (on_gone n s)
unfolding on_gone
on_gone-IsLedger n s (p, h) = elim (Option-cases s.socket) [
  | inl e ↦ rw e (p, h)
  | inr (m, e) ↦ elim (Bool-cases (m == n)) [
    | inl t ↦ rw e (rw t (p, λ j. ground (arith, h j, count-lose j s.pending s.settled)))
    | inr f ↦ rw e (rw f (p, h))
  ]
]

dispatch-IsLedger : (m : Incoming) (s : Requests) → IsLedger s → IsLedger (dispatch m s)
unfolding dispatch
dispatch-IsLedger (answered id result) s h = settle_request-IsLedger id (resolved result) s h
dispatch-IsLedger (refused id error) s h = settle_request-IsLedger id (rejected error) s h
dispatch-IsLedger (push what) s h = h

module _ (parse : Text → Option Incoming) where
  on_line-IsLedger : (line : Text) (s : Requests) → IsLedger s → IsLedger (on_line parse line s)
  unfolding on_line
  on_line-IsLedger line s h = elim (Bool-cases (is_empty (trim line))) [
    | inl t ↦ rw t h
    | inr f ↦ elim (Option-cases (parse line)) [
      | inl e ↦ rw f (rw e h)
      | inr (m, e) ↦ rw f (rw e (dispatch-IsLedger m s h))
    ]
  ]

  act-IsLedger : (a : Act) (s : Requests) → IsLedger s → IsLedger (act parse a s)
  unfolding act on_connect drop_current
  act-IsLedger asks s h = request-IsLedger s h
  act-IsLedger (reads line) s h = on_line-IsLedger line s h
  act-IsLedger (times_out id) s h = time_out-IsLedger id s h
  act-IsLedger (goes n) s h = on_gone-IsLedger n s h
  act-IsLedger (connects n) s h = h
  act-IsLedger drops s h = h

  act_all-IsLedger : (acts : List Act) (s : Requests) → IsLedger s → IsLedger (act_all parse acts s)
  unfolding act_all
  act_all-IsLedger [] s h = h
  act_all-IsLedger (a ∷ acts) s h = act_all-IsLedger acts (act parse a s) (act-IsLedger a s h)

  -- Whatever happens to a new client, in any order: each request that was sent waits or was settled,
  -- once, and nothing else is.
  pub requests-IsLedger : (acts : List Act) → IsLedger (act_all parse acts no_requests)
  requests-IsLedger acts = act_all-IsLedger acts no_requests (omega arith, λ j. ground arith)
