-- ===== src/Switching.antt =====
-- The daemon's answers in daemon/src/main.ts to a refused session: `onLimited`, `onAuthFailure` and
-- `beforeRetry` over its rotation state, with `activateAccount`. What activation does to the
-- sessions is `account_activated`.
pub mod Marked
mod Tests
use claude_persist.JsMap
use claude_persist.Rotation.{
  AccountInfo, RotationState, RotationPlan, Why, IdentityOf, account_key, switch_settle_ms, member,
  next_usable_account, plan_after_limit, account_for_retry,
}
use claude_persist.Prelude.{
  ℕ, ◌+◌, String, Bool, true, false, Option, none, some, List, [], ◌∷◌, leb, str_eq, find_first,
  if◌then◌else◌,
}

-- The account store's choice, the rotation state and the option `switchAccountOnLimit`; `activated`
-- lists the accounts that have been activated, the last one first.
pub record Switching : Type 0 where
  pub accounts : List AccountInfo
  pub current : Option String
  pub rotation : RotationState
  pub enabled : Bool
  pub activated : List (Option String)

pub record Answer : Type 0 where
  pub retry_at : ℕ
  pub switched_to : Option String
  pub why : Why

-- `currentAccount ? identityOf(currentAccount) : accountKey(current)`
unfoldable pub refused_key : IdentityOf → Switching → String
unfolding account_key
refused_key identity_of d = elim (find_first (λ a. a.active) d.accounts) [
  | none ↦ account_key d.current
  | some a ↦ identity_of a
]

unfoldable pub same_dir : Option String → Option String → Bool
same_dir none none = true
same_dir (some a) (some b) = str_eq a b
same_dir none (some b) = false
same_dir (some a) none = false

-- `list()` behind `setActive`: an account is active if its directory is the chosen one.
unfoldable pub mark_active : Option String → List AccountInfo → List AccountInfo
unfolding same_dir
mark_active dir [] = []
mark_active dir (a ∷ accounts) =
    record a { active = same_dir a.config_dir dir } ∷ mark_active dir accounts

unfoldable pub activate_account : ℕ → Option String → Switching → Switching
unfolding mark_active
activate_account now dir d = record d {
  accounts = mark_active dir d.accounts;
  current = dir;
  rotation = record d.rotation { last_switch_at = now };
  activated = dir ∷ d.activated;
}

unfoldable pub mark_limited : String → ℕ → Switching → Switching
unfolding JsMap.set
mark_limited key until d = record d {
  rotation = record d.rotation { limited = JsMap.set key until d.rotation.limited };
}

-- `unusable.add(key)`
unfoldable pub mark_unusable : String → Switching → Switching
mark_unusable key d = record d {
  rotation = record d.rotation {
    unusable =
        if member key d.rotation.unusable then d.rotation.unusable else key ∷ d.rotation.unusable;
  };
}

-- `for (const [key, until] of limited) if (until <= now) limited.delete(key)`
unfoldable pub drop_ended : ℕ → Switching → Switching
unfolding JsMap.delete_if
drop_ended now d = record d {
  rotation = record d.rotation {
    limited = JsMap.delete_if (λ until. leb until now) d.rotation.limited;
  };
}

module _ (identity_of : IdentityOf) (now : ℕ) where
  unfoldable pub follow_plan : RotationPlan → Switching → Switching × Answer
  unfolding activate_account
  follow_plan plan d = elim plan.switch_to [
    | some a ↦ (
      activate_account now a.config_dir d,
      record { retry_at = plan.retry_at; switched_to = some a.name; why = plan.why },
    )
    | none ↦ (d, record { retry_at = plan.retry_at; switched_to = none; why = plan.why })
  ]

  unfoldable pub on_limited : ℕ → Switching → Switching × Answer
  unfolding refused_key mark_limited follow_plan plan_after_limit
  on_limited own_reset_at d =
      let marked = mark_limited (refused_key identity_of d) own_reset_at d in
      follow_plan
        (plan_after_limit identity_of marked.accounts marked.current marked.rotation now
          own_reset_at marked.enabled)
        marked

  unfoldable pub move_to_next : Option AccountInfo → Switching → Switching × Option (String × ℕ)
  unfolding activate_account
  move_to_next none d = (d, none)
  move_to_next (some a) d =
      (activate_account now a.config_dir d, some (a.name, now + switch_settle_ms))

  -- The answer is the account, with its `retryAt`; none is `switchedTo: null`.
  unfoldable pub on_auth_failure : Switching → Switching × Option (String × ℕ)
  unfolding refused_key mark_unusable move_to_next next_usable_account
  on_auth_failure d =
      let marked = mark_unusable (refused_key identity_of d) d in
      if marked.enabled
      then move_to_next
          (next_usable_account identity_of marked.accounts marked.current marked.rotation now)
          marked
      else (marked, none)

  unfoldable pub move_for_retry : Option AccountInfo → Switching → Switching × Option String
  unfolding activate_account
  move_for_retry none d = (d, none)
  move_for_retry (some a) d = (activate_account now a.config_dir d, some a.name)

  unfoldable pub before_retry : Switching → Switching × Option String
  unfolding drop_ended move_for_retry account_for_retry
  before_retry d =
      let ended = drop_ended now d in
      move_for_retry
        (account_for_retry identity_of ended.accounts ended.current ended.rotation now
          ended.enabled)
        ended
