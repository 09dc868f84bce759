-- ===== src/LimitDisplay/Tests.antt =====
-- A five-hour and a seven-day window at the same utilization.
use claude_persist.Limits.{allowed}
use claude_persist.PlanUsage.{Instant, five_hour, seven_day, to_epoch_ms}
use claude_persist.LimitDisplay.{
  RawWindow, RawWindows, NextLimit, RelativeReset, beats, resets_sooner, to_next_limit, pick_from,
  pick_next_limit, format_relative_reset,
}
use claude_persist.Prelude.{ℕ, String, Option, none, some, ◌≡◌, refl}

abbrev no_date : String → Option ℕ
no_date t = none

abbrev as_number : Option ℕ → Option Instant
as_number none = none
as_number (some n) = some (Instant.number n)

abbrev window : ℕ → Option ℕ → Option RawWindow
window u at = some (record { utilization = some u; resets_at = as_number at; status = none })

abbrev reported : RawWindows
reported five_hour = window 60 none
reported seven_day = window 60 (some 1785766800)
reported kind = none

abbrev five_hour_limit : NextLimit
five_hour_limit = record {
  kind = five_hour;
  utilization = 60;
  resets_at_ms = none;
  status = allowed;
}

sooner_wins :
    pick_next_limit no_date (some reported)
    ≡ some (record {
      kind = seven_day;
      utilization = 60;
      resets_at_ms = some 1785766800000;
      status = allowed;
    })
unfolding pick_next_limit pick_from to_next_limit to_epoch_ms beats resets_sooner
sooner_wins = refl

two_days : format_relative_reset (some 200000000) 10000000 ≡ RelativeReset.days_hours 2 4
unfolding format_relative_reset
two_days = refl
