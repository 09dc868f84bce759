-- ===== src/Limits/Tests.antt =====
-- "resets 8:20pm (UTC)" at noon, and two windows of which one is rejected.
use mathlib.Core.Path.{refl}
use claude_persist.Limits.{
  ResetMatch, pm, day_ms, RateLimitWindow, rejected, allowed, spread_ms, plan_retry, window,
  min_wait_ms, max_wait_ms,
}
use claude_persist.Limits.Plan.{resets_then, resets_before, plan_retry_bounds, plan_retry-soonest}
use claude_persist.Prelude.{
  ℕ, ◌+◌, ◌*◌, ◌≤◌, ◌≡◌, true, none, some, [], ◌∷◌, Memᴰ, any, all, not, min, max, arith,
}

abbrev notice : ResetMatch
notice = record { hour = 8; minute = 20; meridiem = some pm }

abbrev noon : ℕ
noon = 20000 * day_ms + 12 * 60 * 60000

abbrev evening : ℕ
evening = 20000 * day_ms + (20 * 60 + 20) * 60000

abbrev spent : RateLimitWindow
spent = record { utilization = some 100; resets_at = some 5000000; status = rejected }

abbrev fresh : RateLimitWindow
fresh = record { utilization = none; resets_at = some 3000000; status = allowed }

plan_retry_bounds_example :
    let plan = plan_retry (fresh ∷ spent ∷ []) none 1000 1 [] in
    (1000 + min_wait_ms ≤ plan.at) × (plan.at ≤ 1000 + max_wait_ms)
plan_retry_bounds_example = plan_retry_bounds (fresh ∷ spent ∷ []) none 1000 1 []

plan_retry-soonest_example :
    let plan = plan_retry (fresh ∷ spent ∷ []) none 1000 1 [] in
    (plan.source ≡ window)
    × ((reset : ℕ) × (any (resets_then 1000 reset) (fresh ∷ spent ∷ []) ≡ true)
        × (all (λ v. not (resets_before 1000 reset v)) (fresh ∷ spent ∷ []) ≡ true)
        × (plan.at
            ≡ max
                (min (reset + 60000 + spread_ms [] 60000) (1000 + max_wait_ms))
                (1000 + min_wait_ms)))
plan_retry-soonest_example =
    plan_retry-soonest (fresh ∷ spent ∷ []) spent none 1000 1 5000000 []
      (Memᴰ.tail (Memᴰ.head refl)) refl refl (omega arith)
