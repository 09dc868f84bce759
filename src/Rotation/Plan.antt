-- ===== src/Rotation/Plan.antt =====
-- What `nextUsableAccount`, `planAfterLimit` and `accountForRetry` of daemon/src/rotation.ts
-- answer, on every branch.
use mathlib.Core.Option
use claude_persist.Prelude.{
  ℕ, ◌+◌, ◌-◌, ◌≤◌, ◌≡◌, String, Bool, true, false, Option, none, some, List, length, find_first,
  take, drop, arith, ◌↔◌, All, All-append, All-take-drop, find_first-eq-some,
  find_first-eq-none_iff, Memᴰ, Memᴰ-append, Memᴰ-take, Memᴰ-drop, inl, inr, ◌∙◌, sym,
}
use claude_persist.Rotation.{
  AccountInfo, RotationState, IdentityOf, switched, switch_cooldown_ms, switch_settle_ms,
  is_account, start_after, same_login, usable, eligible, next_usable_account, plan_after_limit,
  start_after,
}
use claude_persist.Rotation.Next.{turn, next_usable_account-eq-find_first}

-- The account that is active, found as the code finds it.
abbrev pub own_account : List AccountInfo → Option String → Option AccountInfo
own_account accounts current = find_first (is_account current) accounts

Memᴰ-turn {ℓ} : {A : Type ℓ} (n : ℕ) (xs : List A) {a : A} → Memᴰ a (turn n xs) → Memᴰ a xs
Memᴰ-turn n xs m = elim (Memᴰ-append (drop n xs) (take n xs) m) [
  | inl l ↦ Memᴰ-drop n xs l
  | inr r ↦ Memᴰ-take n xs r
]

All-turn {ℓ κ} : {A : Type ℓ} (P : A → Type κ) (n : ℕ) (xs : List A) → All P (turn n xs) ↔ All P xs
All-turn P n xs = (
  λ h. (All-take-drop P n xs).1 ((All-append P (drop n xs) (take n xs)).0 h),
  λ h. (All-append P (drop n xs) (take n xs)).1 ((All-take-drop P n xs).0 h),
)

module _ (identity_of : IdentityOf) (accounts : List AccountInfo) (current : Option String)
    (state : RotationState) (now : ℕ) where
  next-found :
      (a : AccountInfo)
      → next_usable_account identity_of accounts current state now ≡ some a
      → (eligible identity_of current (own_account accounts current) state now a ≡ true)
        × Memᴰ a accounts
  next-found a e =
      let test = eligible identity_of current (own_account accounts current) state now in
      let n = start_after (is_account current) accounts in
      let seen : find_first test (turn n accounts) ≡ some a =
        ground (arith, next_usable_account-eq-find_first identity_of accounts current state now) in
      let (t, m) = find_first-eq-some test (turn n accounts) a seen in (t, Memᴰ-turn n accounts m)

-- An account that the search returns is listed, is not the current one, does not share its
-- login, and is usable: its login works and no limit of it lies ahead.
pub next_usable_account_sound :
    (identity_of : IdentityOf) (accounts : List AccountInfo) (current : Option String)
    (state : RotationState) (now : ℕ) (a : AccountInfo)
    → next_usable_account identity_of accounts current state now ≡ some a
    → Memᴰ a accounts
      × (is_account current a ≡ false)
      × (same_login (Option.map identity_of (own_account accounts current)) (identity_of a) ≡ false)
      × (usable identity_of a state now ≡ true)
next_usable_account_sound identity_of accounts current state now a e =
    let (t, m) = next-found identity_of accounts current state now a e in
    (
      m,
      unfold eligible in ground arith,
      unfold eligible in ground arith,
      unfold eligible in ground arith,
    )

-- With two accounts or more the search returns null exactly when every listed account fails a test
-- of the loop: none is skipped by the wrap-around.
pub next_usable_account-eq-none_iff :
    (identity_of : IdentityOf) (accounts : List AccountInfo) (current : Option String)
    (state : RotationState) (now : ℕ)
    → 2 ≤ length accounts
    → (next_usable_account identity_of accounts current state now ≡ none)
      ↔ All
          (λ a. eligible identity_of current (own_account accounts current) state now a ≡ false)
          accounts
next_usable_account-eq-none_iff identity_of accounts current state now many =
    let test = eligible identity_of current (own_account accounts current) state now in
    let n = start_after (is_account current) accounts in
    let same : next_usable_account identity_of accounts current state now
        ≡ find_first test (turn n accounts) =
      ground (arith, next_usable_account-eq-find_first identity_of accounts current state now) in
    (
      λ e.
          (All-turn (λ a. test a ≡ false) n accounts).0
            ((find_first-eq-none_iff test (turn n accounts)).0 (sym same ∙ e)),
      λ h.
          same
          ∙ (find_first-eq-none_iff test (turn n accounts)).1
              ((All-turn (λ a. test a ≡ false) n accounts).1 h),
    )

-- The plan names an account exactly where rotation is enabled, there are two accounts, the cooldown
-- of the last switch is over and the search returns that account. Its reason is then `switched`,
-- and the retry comes `switch_settle_ms` after now.
pub plan_after_limit-switches_iff :
    (identity_of : IdentityOf) (accounts : List AccountInfo) (current : Option String)
    (state : RotationState) (now own_reset_at : ℕ) (enabled : Bool) (a : AccountInfo)
    → let plan = plan_after_limit identity_of accounts current state now own_reset_at enabled in
      ((plan.switch_to ≡ some a) ↔ (
        (enabled ≡ true)
        × (2 ≤ length accounts)
        × (switch_cooldown_ms ≤ now - state.last_switch_at)
        × (next_usable_account identity_of accounts current state now ≡ some a)))
      × ((plan.switch_to ≡ some a) ↔ (
          plan ≡ record { switch_to = some a; retry_at = now + switch_settle_ms; why = switched }))
unfolding plan_after_limit
plan_after_limit-switches_iff identity_of accounts current state now own_reset_at enabled a =
    (ground arith, ground arith)
