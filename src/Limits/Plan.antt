-- ===== src/Limits/Plan.antt =====
-- `planRetry` of daemon/src/limits.ts: the instant of a retry between its bounds, and where it
-- comes from.
use native.Mathlib.Nat.{mod-lt}
use claude_persist.Prelude.{
  ℕ, ◌+◌, ◌≤◌, ◌<◌, ◌≡◌, refl, sym, ap, ◌∙◌, Bool, true, Option, some, List, Memᴰ, keep_if, arith,
  ltb, leb, ◌==◌, any, all, not, ◌&&◌, [], ◌∷◌, none, false, lt→ltb, min, max, inl, inr, Bool-cases,
  Option-cases,
}
use claude_persist.Limits.{
  plan_retry, planned_at, spread_ms, clamp_wait, soonest_reset, resets_ahead, least,
  RateLimitWindow, is_rejected, max_wait_ms, min_wait_ms, reset_buffer_ms, window,
}

pub spread_ms-lt :
    (session_id : List ℕ) (window_ms : ℕ)
    → 0 < window_ms
    → spread_ms session_id window_ms < window_ms
unfolding spread_ms
spread_ms-lt session_id window_ms h = mod-lt _ h

clamp_wait_bounds :
    (now at : ℕ) → (now + min_wait_ms ≤ clamp_wait now at) × (clamp_wait now at ≤ now + max_wait_ms)
unfolding clamp_wait
clamp_wait_bounds now at = omega arith

-- Whatever the windows and the text say, a retry waits half a minute at least and six hours at most.
pub plan_retry_bounds :
    (windows : List RateLimitWindow) (parsed : Option ℕ) (now attempts : ℕ) (session_id : List ℕ)
    → let plan = plan_retry windows parsed now attempts session_id in
      (now + min_wait_ms ≤ plan.at) × (plan.at ≤ now + max_wait_ms)
unfolding plan_retry
plan_retry_bounds windows parsed now attempts session_id = clamp_wait_bounds now _

-- `least` finds the minimum of a list that has a member.
least-le : {x : ℕ} {xs : List ℕ} → Memᴰ x xs → (m : ℕ) × (least xs ≡ some m) × (m ≤ x)
unfolding least
least-le (Memᴰ.head {x = y} {xs = ys} e) = elim (Option-cases (least ys)) [
  | inl none_left ↦ rw none_left (y, refl, ground arith)
  | inr (z, found) ↦ rw found (min y z, refl, ground arith)
]
least-le (Memᴰ.tail {x = y} {xs = ys} i) =
    let (z, found, below) = least-le i in rw found (min y z, refl, omega arith)

keep_if-mem :
    {w : RateLimitWindow} {ws : List RateLimitWindow} (p : RateLimitWindow → Bool)
    → p w ≡ true
    → Memᴰ w ws
    → Memᴰ w (keep_if p ws)
keep_if-mem {w} p h (Memᴰ.head {x = v} e) =
    let kept : p v ≡ true = ap p (sym e) ∙ h in rw kept (Memᴰ.head e)
keep_if-mem p h (Memᴰ.tail {x = v} i) = elim (Bool-cases (p v)) [
  | inl kept ↦ rw kept (Memᴰ.tail (keep_if-mem p h i))
  | inr dropped ↦ rw dropped (keep_if-mem p h i)
]

resets_ahead-mem :
    {now r : ℕ} {w : RateLimitWindow} {ws : List RateLimitWindow}
    → w.resets_at ≡ some r
    → now < r
    → Memᴰ w ws
    → Memᴰ r (resets_ahead now ws)
unfolding resets_ahead
resets_ahead-mem {now} {r} h ahead (Memᴰ.head {x = v} e) =
    let known : v.resets_at ≡ some r = ap (λ u. RateLimitWindow.resets_at u) (sym e) ∙ h in
    rw (known, lt→ltb now r ahead) (Memᴰ.head refl)
resets_ahead-mem {now} h ahead (Memᴰ.tail {x = v} i) = elim (Option-cases v.resets_at) [
  | inl unknown ↦ rw unknown (resets_ahead-mem h ahead i)
  | inr (u, known) ↦ elim (Bool-cases (ltb now u)) [
    | inl later ↦ rw (known, later) (Memᴰ.tail (resets_ahead-mem h ahead i))
    | inr past ↦ rw (known, past) (resets_ahead-mem h ahead i)
  ]
]

planned_of_rejected :
    (windows : List RateLimitWindow) (parsed : Option ℕ) (now attempts m : ℕ) (session_id : List ℕ)
    → least (resets_ahead now (keep_if is_rejected windows)) ≡ some m
    → plan_retry windows parsed now attempts session_id ≡ record {
      at = clamp_wait now (m + reset_buffer_ms + spread_ms session_id 60000);
      source = window;
    }
unfolding plan_retry soonest_reset planned_at
planned_of_rejected windows parsed now attempts m session_id e = ground (arith, e)

-- Tests of a reset that lies ahead: at `reset`, and before it.
abbrev is_then : ℕ → ℕ → Option ℕ → Bool
is_then now reset none = false
is_then now reset (some at) = ltb now at && at == reset

abbrev is_before : ℕ → ℕ → Option ℕ → Bool
is_before now reset none = false
is_before now reset (some at) = ltb now at && ltb at reset

abbrev pub resets_then : ℕ → ℕ → RateLimitWindow → Bool
resets_then now reset w = is_rejected w && is_then now reset w.resets_at

abbrev pub resets_before : ℕ → ℕ → RateLimitWindow → Bool
resets_before now reset w = is_rejected w && is_before now reset w.resets_at

least-mem : (xs : List ℕ) (m : ℕ) → least xs ≡ some m → any (λ x. x == m) xs ≡ true
unfolding least
least-mem [] m e = ground arith
least-mem (x ∷ xs) m e = elim (Option-cases (least xs)) [
  | inl none_left ↦ ground arith
  | inr (y, found) ↦
      let there = least-mem xs y found in
      let least_of : min x y ≡ m = ground arith in ground (arith, there, least_of, least-mem xs m)
]

least-none : (xs : List ℕ) → least xs ≡ none → xs ≡ []
unfolding least
least-none [] e = refl
least-none (x ∷ xs) e = absurd (ground arith)

least-all : (xs : List ℕ) (m y : ℕ) → least xs ≡ some y → m ≤ y → all (λ x. leb m x) xs ≡ true
unfolding least
least-all [] m y e h = refl
least-all (x ∷ xs) m y e h = elim (Option-cases (least xs)) [
  | inl none_left ↦
      let same : x ≡ y = ground arith in rw (least-none xs none_left) (ground (arith, same))
  | inr (z, found) ↦
      let least_of : min x z ≡ y = ground arith in
      let rest = least-all xs m z found (omega (arith, least_of)) in ground (arith, rest, least_of)
]

any-resets_then :
    (now reset : ℕ) (ws : List RateLimitWindow)
    → any (λ x. x == reset) (resets_ahead now (keep_if is_rejected ws))
      ≡ any (resets_then now reset) ws
unfolding resets_ahead
any-resets_then now reset [] = refl
any-resets_then now reset (w ∷ ws) = ground (arith, any-resets_then now reset ws)

all-resets_before :
    (now reset : ℕ) (ws : List RateLimitWindow)
    → all (λ x. leb reset x) (resets_ahead now (keep_if is_rejected ws))
      ≡ all (λ w. not (resets_before now reset w)) ws
unfolding resets_ahead
all-resets_before now reset [] = refl
all-resets_before now reset (w ∷ ws) = ground (arith, all-resets_before now reset ws)

-- While a rejected window has its reset ahead, the retry is planned from the soonest of the resets
-- ahead of the rejected windows, a minute past it with the session's own share of a minute more, and
-- clamped to the bounds of a wait.
pub plan_retry-soonest :
    (windows : List RateLimitWindow) (w : RateLimitWindow) (parsed : Option ℕ) (now attempts r : ℕ)
    (session_id : List ℕ)
    → Memᴰ w windows
    → is_rejected w ≡ true
    → w.resets_at ≡ some r
    → now < r
    → let plan = plan_retry windows parsed now attempts session_id in
      (plan.source ≡ window)
      × ((reset : ℕ) × (any (resets_then now reset) windows ≡ true)
          × (all (λ v. not (resets_before now reset v)) windows ≡ true)
          × (plan.at
              ≡ max
                  (min (reset + 60000 + spread_ms session_id 60000) (now + max_wait_ms))
                  (now + min_wait_ms)))
unfolding clamp_wait
plan_retry-soonest windows w parsed now attempts r session_id i rejects known ahead =
    let (m, found, below) =
      least-le (resets_ahead-mem known ahead (keep_if-mem is_rejected rejects i)) in
    let resets = resets_ahead now (keep_if is_rejected windows) in
    rw (planned_of_rejected windows parsed now attempts m session_id found) (
      refl,
      (
        m,
        sym (any-resets_then now m windows) ∙ least-mem resets m found,
        sym (all-resets_before now m windows) ∙ least-all resets m m found (omega arith),
        refl,
      ),
    )
