-- ===== src/Limits/Reset.antt =====
-- `parseResetTime` of daemon/src/limits.ts: the instant that a notice names.
use native.Mathlib.Nat.{div-add-mod, mod-lt, mul-add-mod_self_left, mod-eq_of_lt}
use claude_persist.Prelude.{ℕ, ◌+◌, ◌-◌, ◌*◌, ◌/◌, ◌%◌, ◌≤◌, ◌<◌, ◌≡◌, ap, ◌∙◌, arith}
use claude_persist.Limits.{set_utc_hours, day_ms}

pub set_utc_hours_after :
    (now hour minute : ℕ)
    → hour ≤ 23
    → minute ≤ 59
    → (now < set_utc_hours now hour minute + day_ms)
      × (set_utc_hours now hour minute ≤ now + day_ms)
unfolding set_utc_hours
set_utc_hours_after now hour minute h m = omega (arith, mod-lt now {m = day_ms} (omega arith))

pub set_utc_hours-mod :
    (now hour minute : ℕ)
    → hour ≤ 23
    → minute ≤ 59
    → set_utc_hours now hour minute % day_ms ≡ (hour * 60 + minute) * 60000
unfolding set_utc_hours
set_utc_hours-mod now hour minute h m =
    let day : now - now % day_ms ≡ day_ms * (now / day_ms) =
      omega (arith, div-add-mod now day_ms) in
    ap (λ x. (x + (hour * 60 + minute) * 60000) % day_ms) day
    ∙ mul-add-mod_self_left day_ms (now / day_ms) ((hour * 60 + minute) * 60000)
    ∙ mod-eq_of_lt (omega arith)
