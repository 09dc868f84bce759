-- ===== src/Rotation/Retry.antt =====
-- When `planAfterLimit` of daemon/src/rotation.ts sends the session on, and where
-- `accountForRetry` moves it as a queued retry fires.
use claude_persist.JsMap
use claude_persist.JsMap.{JsMap}
use claude_persist.Prelude.{
  ℕ, ◌+◌, ◌≤◌, ◌<◌, ◌≡◌, String, Bool, true, false, max, Option, some, List, [], ◌∷◌, length, arith,
  ltb, lt→ltb, str_eq, ◌↔◌, All, Memᴰ, Bool-cases, inl, inr, if◌then◌else◌,
}
use claude_persist.Rotation.{
  AccountInfo, RotationState, IdentityOf, all_limited, switch_cooldown_ms, switch_settle_ms,
  future_ends, min_of, found_usable, next_usable_account, plan_after_limit, account_for_retry,
}
use claude_persist.Rotation.Plan.{own_account}

min_of-le_first : (x : ℕ) (xs : List ℕ) → min_of x xs ≤ x
unfolding min_of
min_of-le_first x [] = omega arith
min_of-le_first x (y ∷ ys) = ground (arith, min_of-le_first (if ltb y x then y else x) ys)

min_of-le_mem : {y : ℕ} (x : ℕ) {xs : List ℕ} → Memᴰ y xs → min_of x xs ≤ y
unfolding min_of
min_of-le_mem {y} x (Memᴰ.head {x = z} {xs = ys} e) =
    ground (arith, min_of-le_first (if ltb z x then z else x) ys)
min_of-le_mem x (Memᴰ.tail {x = z} m) = min_of-le_mem (if ltb z x then z else x) m

min_of-ge : (n x : ℕ) (xs : List ℕ) → n ≤ x → All (λ y. n ≤ y) xs → n ≤ min_of x xs
unfolding min_of
min_of-ge n x [] h hs = h
min_of-ge n x (y ∷ ys) h hs = min_of-ge n (if ltb y x then y else x) ys (ground arith) hs.1

future_ends-All : (now : ℕ) (m : JsMap ℕ) → All (λ y. now ≤ y) (future_ends now m)
unfolding future_ends
future_ends-All now [] = tt
future_ends-All now ((k, until) ∷ m) = ground (arith, future_ends-All now m)

future_ends-mem :
    (now : ℕ) (m : JsMap ℕ) (key : String) (until : ℕ)
    → JsMap.get key m ≡ some until
    → now < until
    → Memᴰ until (future_ends now m)
unfolding future_ends JsMap.get
future_ends-mem now [] key until e h = cc
future_ends-mem now ((k, u) ∷ m) key until e h = elim (Bool-cases (str_eq k key)) [
  | inl this ↦
      let same : until ≡ u = ground arith in rw (lt→ltb now u (rw same at h)) (Memᴰ.head same)
  | inr other ↦
      let rest = future_ends-mem now m key until (rw other at e) h in
      elim (Bool-cases (ltb now u)) [
        | inl ahead ↦ rw ahead (Memᴰ.tail rest)
        | inr past ↦ rw past rest
      ]
]

all_limited_at :
    (identity_of : IdentityOf) (accounts : List AccountInfo) (current : Option String)
    (state : RotationState) (now own_reset_at : ℕ) (enabled : Bool)
    → (plan_after_limit identity_of accounts current state now own_reset_at enabled).why
      ≡ all_limited
    → (plan_after_limit identity_of accounts current state now own_reset_at enabled).retry_at
      ≡ min_of own_reset_at (future_ends now state.limited)
unfolding plan_after_limit
all_limited_at identity_of accounts current state now own_reset_at enabled e = ground arith

-- Where the own limit ends ahead and the last switch does not, the retry does not lie in the past,
-- nor beyond both the own limit and the time that a cooldown beginning now and the settling of a
-- switch take together.
pub plan_after_limit-retry_at_bounds :
    (identity_of : IdentityOf) (accounts : List AccountInfo) (current : Option String)
    (state : RotationState) (now own_reset_at : ℕ) (enabled : Bool)
    → now ≤ own_reset_at
    → state.last_switch_at ≤ now
    → (now
        ≤ (plan_after_limit identity_of accounts current state now own_reset_at enabled).retry_at)
      × ((plan_after_limit identity_of accounts current state now own_reset_at enabled).retry_at
          ≤ max own_reset_at (now + switch_cooldown_ms + switch_settle_ms))
unfolding plan_after_limit
plan_after_limit-retry_at_bounds identity_of accounts current state now own_reset_at enabled h l =
    ground (
      arith,
      min_of-ge now own_reset_at (future_ends now state.limited) h
          (future_ends-All now state.limited),
      min_of-le_first own_reset_at (future_ends now state.limited),
    )

-- With every account spent, the retry waits for the limit that ends first: it is no later than the
-- account's own reset and than each recorded limit that lies ahead.
pub plan_after_limit-waits_least :
    (identity_of : IdentityOf) (accounts : List AccountInfo) (current : Option String)
    (state : RotationState) (now own_reset_at : ℕ) (enabled : Bool) (key : String) (until : ℕ)
    → (plan_after_limit identity_of accounts current state now own_reset_at enabled).why
      ≡ all_limited
    → JsMap.get key state.limited ≡ some until
    → now < until
    → ((plan_after_limit identity_of accounts current state now own_reset_at enabled).retry_at
        ≤ own_reset_at)
      × ((plan_after_limit identity_of accounts current state now own_reset_at enabled).retry_at
          ≤ until)
plan_after_limit-waits_least identity_of accounts current state now own_reset_at enabled key until e
      found ahead =
    rw (all_limited_at identity_of accounts current state now own_reset_at enabled e) (
      min_of-le_first _ _,
      min_of-le_mem _ (future_ends-mem now state.limited key until found ahead),
    )

-- A retry moves off the current account exactly when rotation is enabled, there are two accounts
-- or more, the current one is unlisted or has no room, and the search finds `a`.
pub account_for_retry-eq-some_iff :
    (identity_of : IdentityOf) (accounts : List AccountInfo) (current : Option String)
    (state : RotationState) (now : ℕ) (enabled : Bool) (a : AccountInfo)
    → (account_for_retry identity_of accounts current state now enabled ≡ some a) ↔ (
        (enabled ≡ true)
        × (2 ≤ length accounts)
        × (found_usable identity_of (own_account accounts current) state now ≡ false)
        × (next_usable_account identity_of accounts current state now ≡ some a))
unfolding account_for_retry
account_for_retry-eq-some_iff identity_of accounts current state now enabled a = ground arith
