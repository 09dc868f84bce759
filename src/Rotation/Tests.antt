-- ===== src/Rotation/Tests.antt =====
-- Three accounts, two of them behind one login.
use claude_persist.JsMap
use claude_persist.Prelude.{
  ◌≤◌, ◌≡◌, refl, ◌↔◌, String, true, false, Option, none, some, List, [], ◌∷◌, ◌+◌, ◌-◌, length,
  arith, max,
}
use claude_persist.Rotation.{
  AccountInfo, RotationState, switched, all_limited, switch_cooldown_ms, switch_settle_ms,
  account_key, by_config_dir, next_usable_account, plan_after_limit, start_after,
}
use claude_persist.Rotation.Plan.{plan_after_limit-switches_iff}
use claude_persist.Rotation.Retry.{plan_after_limit-retry_at_bounds}

abbrev account : String → Option String → AccountInfo
account name dir = record {
  name = name;
  config_dir = dir;
  active = false;
  signed_in = true;
  login_expired = false;
}

abbrev accounts : List AccountInfo
accounts =
    account "default" none ∷ account "work" (some "/a/work") ∷ account "home" (some "/a/home") ∷ []

abbrev resting : RotationState
resting = record {
  limited = ("", 90000) ∷ ("/a/work", 200000) ∷ [];
  unusable = [];
  last_switch_at = 0;
}

abbrev spent : RotationState
spent = record resting { limited = ("", 900000) ∷ ("/a/work", 200000) ∷ ("/a/home", 150000) ∷ [] }

-- `work` is limited until 200000, so `home` is next.
next_is_home :
    next_usable_account by_config_dir accounts none resting 100000
    ≡ some (account "home" (some "/a/home"))
unfolding next_usable_account account_key JsMap.get start_after by_config_dir
next_is_home = refl

wraps_to_default :
    next_usable_account by_config_dir accounts (some "/a/home") resting 100000
    ≡ some (account "default" none)
unfolding next_usable_account account_key JsMap.get start_after by_config_dir
wraps_to_default = refl

plan_after_limit-switches_iff_example :
    let plan = plan_after_limit by_config_dir accounts none resting 100000 500000 true in
    let home = account "home" (some "/a/home") in
    ((plan.switch_to ≡ some home) ↔ (
      (true ≡ true)
      × (2 ≤ length accounts)
      × (switch_cooldown_ms ≤ 100000 - resting.last_switch_at)
      × (next_usable_account by_config_dir accounts none resting 100000 ≡ some home)))
    × ((plan.switch_to ≡ some home) ↔ (
        plan
        ≡ record { switch_to = some home; retry_at = 100000 + switch_settle_ms; why = switched }))
plan_after_limit-switches_iff_example =
    plan_after_limit-switches_iff by_config_dir accounts none resting 100000 500000 true
      (account "home" (some "/a/home"))

plan_after_limit-retry_at_bounds_example :
    (100000 ≤ (plan_after_limit by_config_dir accounts none spent 100000 500000 true).retry_at)
    × ((plan_after_limit by_config_dir accounts none spent 100000 500000 true).retry_at
        ≤ max 500000 (100000 + switch_cooldown_ms + switch_settle_ms))
plan_after_limit-retry_at_bounds_example =
    plan_after_limit-retry_at_bounds by_config_dir accounts none spent 100000 500000 true
      (omega arith) (omega arith)

all_spent :
    (plan_after_limit by_config_dir accounts none spent 100000 500000 true).why ≡ all_limited
unfolding plan_after_limit next_usable_account account_key JsMap.get start_after by_config_dir
all_spent = refl
