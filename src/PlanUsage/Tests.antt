-- ===== src/PlanUsage/Tests.antt =====
-- A usage response, a push without a utilization, and a kind that is not known.
use claude_persist.Limits.{allowed_warning}
use claude_persist.PlanUsage.{
  five_hour, Instant, UsageSnapshot, status_of, apply_rate_limit_event, apply_usage_response,
  event_window, response_window, fold_entries, with_window, to_epoch_ms,
}
use claude_persist.PlanUsage.Kept.{
  Update, event, response, IsKept, update, update_all, pushed_status, update_all-IsKept,
}
use claude_persist.Prelude.{ℕ, String, Option, true, false, none, some, List, [], ◌∷◌, ◌≡◌, refl}

abbrev no_date : String → Option ℕ
no_date t = none

abbrev start : UsageSnapshot
start = record { windows = λ k. none; subscription_type = none; available = false }

abbrev updates : List Update
updates =
    response (record {
      subscription_type = some (some "max");
      rate_limits_available = some true;
      rate_limits =
          (some five_hour, some (record { utilization = some 41; resets_at = none }))
          ∷ (none, some (record { utilization = some 99; resets_at = none }))
          ∷ [];
    })
    ∷ event (record {
      kind = some five_hour;
      status = some allowed_warning;
      utilization = none;
      resets_at = some (Instant.number 1785766800);
    })
    ∷ []

merged :
    (update_all no_date updates start).windows five_hour
    ≡ some
        (record { utilization = some 41; resets_at = some 1785766800000; status = allowed_warning })
unfolding update_all update apply_rate_limit_event apply_usage_response event_window response_window
    fold_entries with_window to_epoch_ms
merged = refl

update_all-IsKept_example :
    IsKept (start.windows five_hour) ((update_all no_date updates start).windows five_hour)
    × (status_of ((update_all no_date updates start).windows five_hour)
        ≡ pushed_status no_date five_hour updates (status_of (start.windows five_hour)))
update_all-IsKept_example = update_all-IsKept no_date updates start five_hour
