-- ===== src/Rotation.antt =====
-- daemon/src/rotation.ts: which account to use when the active one is refused by a plan limit.
-- Times are milliseconds. `limited` is a function of the identity, as the code only looks one key
-- up; the fallback of `plan_after_limit` that iterates over it takes its list of ends.
pub mod Next
pub mod Plan
pub mod Retry
mod Tests
use mathlib.Core.Option
use claude_persist.JsMap
use claude_persist.JsMap.{JsMap}
use claude_persist.Prelude.{
  ℕ, zero, suc, ◌+◌, ◌-◌, ◌%◌, String, Bool, true, false, not, ◌&&◌, ◌||◌, Option, none, some, List,
  [], ◌∷◌, length, map, ◌==◌, get_elem?, find_first, any, ltb, leb, str_eq, if◌then◌else◌, min,
}

pub record AccountInfo : Type 0 where
  pub name : String
  pub config_dir : Option String
  pub active : Bool
  pub signed_in : Bool
  pub login_expired : Bool

-- accountKey: the default account's directory is null.
unfoldable pub account_key : Option String → String
account_key none = ""
account_key (some dir) = dir

abbrev pub switch_cooldown_ms : ℕ
switch_cooldown_ms = 30000

abbrev pub switch_settle_ms : ℕ
switch_settle_ms = 5000

pub record RotationState : Type 0 where
  pub limited : JsMap ℕ
  pub unusable : List String
  pub last_switch_at : ℕ

pub data Why : Type 0 where
  switched cooldown cooldown_limited all_limited disabled single_account : Why

pub record RotationPlan : Type 0 where
  pub switch_to : Option AccountInfo
  pub retry_at : ℕ
  pub why : Why

abbrev pub IdentityOf : Type 0
IdentityOf = AccountInfo → String

unfoldable pub by_config_dir : IdentityOf
unfolding account_key
by_config_dir a = account_key a.config_dir

-- `until === undefined || until <= now`
abbrev past : Option ℕ → ℕ → Bool
past none now = true
past (some until) now = leb until now

abbrev pub member : String → List String → Bool
member k = any (λ x. str_eq x k)

abbrev pub is_account : Option String → AccountInfo → Bool
is_account current a = str_eq (account_key a.config_dir) (account_key current)

-- `currentIdentity !== null && identityOf(candidate) === currentIdentity`
abbrev pub same_login : Option String → String → Bool
same_login none identity = false
same_login (some own) identity = str_eq identity own

-- `accounts.findIndex(…) + 1`, 0 for the -1 of `findIndex`.
unfoldable pub start_after : (AccountInfo → Bool) → List AccountInfo → ℕ
start_after p [] = 0
start_after p (a ∷ rest) =
    let later = start_after p rest in if p a then 1 else if later == 0 then 0 else later + 1

-- `ends`: `ownResetAt`, then the values of `limited` that lie ahead.
unfoldable pub future_ends : ℕ → JsMap ℕ → List ℕ
future_ends now [] = []
future_ends now ((key, until) ∷ m) =
    let rest = future_ends now m in if ltb now until then until ∷ rest else rest

-- `Math.min(first, ...rest)`
unfoldable pub min_of : ℕ → List ℕ → ℕ
min_of first [] = first
min_of first (x ∷ xs) = min_of (if ltb x first then x else first) xs

-- The loop of `nextUsableAccount`, with `rounds` steps left. `start` is `from + 1`, which is 0
-- for an unknown account, so `from + step + n` is `start + step + n - 1`.
next_loop : (AccountInfo → Bool) → List AccountInfo → ℕ → ℕ → ℕ → Option AccountInfo
next_loop test accounts start zero step = none
next_loop test accounts start (suc rounds) step =
    let rest = next_loop test accounts start rounds (step + 1) in
    elim (get_elem? accounts ((start + step + length accounts - 1) % length accounts)) [
      | none ↦ none
      | some candidate ↦ if test candidate then some candidate else rest
    ]

module _ (identity_of : IdentityOf) where
  unfoldable pub usable : AccountInfo → RotationState → ℕ → Bool
  usable account state now =
      if member (identity_of account) state.unusable
      then false
      else past (JsMap.get (identity_of account) state.limited) now

  -- The tests of the loop's body: `continue` unless all pass.
  unfoldable pub eligible :
      Option String → Option AccountInfo → RotationState → ℕ → AccountInfo → Bool
  unfolding usable
  eligible current current_account state now candidate =
      if is_account current candidate
      then false
      else if same_login (Option.map identity_of current_account) (identity_of candidate)
      then false
      else usable candidate state now

  unfoldable pub next_usable_account :
      List AccountInfo → Option String → RotationState → ℕ → Option AccountInfo
  unfolding next_loop eligible
  next_usable_account accounts current state now =
      if ltb (length accounts) 2
      then none
      else let own = find_first (is_account current) accounts in
        next_loop (eligible current own state now) accounts
          (start_after (is_account current) accounts) (length accounts) 1

  -- `currentAccount && usable(currentAccount, …)`
  unfoldable pub found_usable : Option AccountInfo → RotationState → ℕ → Bool
  unfolding usable
  found_usable none state now = false
  found_usable (some a) state now = usable a state now

  -- `currentAccount && !usable(currentAccount, …)`
  unfoldable pub found_spent : Option AccountInfo → RotationState → ℕ → Bool
  unfolding usable
  found_spent none state now = false
  found_spent (some a) state now = not (usable a state now)

  -- The end of `planAfterLimit`, past the cooldown.
  unfoldable pub plan_switch : Option AccountInfo → RotationState → ℕ → ℕ → RotationPlan
  plan_switch (some next) state now own_reset_at = record {
    switch_to = some next;
    retry_at = now + switch_settle_ms;
    why = switched;
  }
  plan_switch none state now own_reset_at = record {
    switch_to = none;
    retry_at = min_of own_reset_at (future_ends now state.limited);
    why = all_limited;
  }

  -- `now - lastSwitchAt` is negative where the clock has gone back; it is then below the cooldown,
  -- as the 0 of `-` on ℕ is.
  unfoldable pub plan_after_limit :
      List AccountInfo → Option String → RotationState → ℕ → ℕ → Bool → RotationPlan
  unfolding plan_switch
  plan_after_limit accounts current state now own_reset_at enabled =
      if not enabled
      then record { switch_to = none; retry_at = own_reset_at; why = disabled }
      else if ltb (length accounts) 2
      then record { switch_to = none; retry_at = own_reset_at; why = single_account }
      else if ltb (now - state.last_switch_at) switch_cooldown_ms
      then (if found_spent (find_first (is_account current) accounts) state now
          then record {
            switch_to = none;
            retry_at = state.last_switch_at + switch_cooldown_ms + switch_settle_ms;
            why = cooldown_limited;
          }
          else record { switch_to = none; retry_at = now + switch_settle_ms; why = cooldown })
      else plan_switch (next_usable_account accounts current state now) state now own_reset_at

  unfoldable pub account_for_retry :
      List AccountInfo → Option String → RotationState → ℕ → Bool → Option AccountInfo
  account_for_retry accounts current state now enabled =
      if not enabled || ltb (length accounts) 2
      then none
      else if found_usable (find_first (is_account current) accounts) state now
      then none
      else next_usable_account accounts current state now

  unfoldable pub with_login_expiry : List AccountInfo → RotationState → List AccountInfo
  with_login_expiry accounts state =
      map {A = AccountInfo} {B = AccountInfo}
        (λ a. record a { login_expired = member (identity_of a) state.unusable }) accounts
