-- ===== src/Switching/Marked.antt =====
-- What the daemon's answers of daemon/src/main.ts leave behind: the refused account is marked, and
-- refusals that come close together switch once.
use mathlib.Core.Path.{subst}
use claude_persist.JsMap
use claude_persist.Rotation.{
  AccountInfo, RotationState, RotationPlan, IdentityOf, switch_cooldown_ms, switch_settle_ms,
  next_usable_account, plan_after_limit, member,
}
use mathlib.Core.Option
use claude_persist.Switching.{
  Switching, refused_key, activate_account, mark_limited, mark_unusable, follow_plan, on_limited,
}
use claude_persist.Prelude.{
  ℕ, ◌+◌, ◌<◌, ◌≡◌, refl, sym, ◌⊎◌, String, Bool, true, false, Option, none, some, List, [], ◌∷◌,
  All, arith,
}

module _ (identity_of : IdentityOf) where
  follow_plan-none :
      (now : ℕ) (plan : RotationPlan) (d : Switching)
      → plan.switch_to ≡ none
      → (follow_plan identity_of now plan d).0 ≡ d
  unfolding follow_plan
  follow_plan-none now plan d e = rw e refl

  in_cooldown :
      (accounts : List AccountInfo) (current : Option String) (state : RotationState)
      (now own_reset_at : ℕ) (enabled : Bool)
      → now < state.last_switch_at + switch_cooldown_ms
      → (plan_after_limit identity_of accounts current state now own_reset_at enabled).switch_to
        ≡ none
  unfolding plan_after_limit
  in_cooldown accounts current state now own_reset_at enabled h = ground arith

  -- Refusals, each with its instant and the reset that its session expects.
  unfoldable pub refuse_all : List (ℕ × ℕ) → Switching → Switching
  unfolding on_limited
  refuse_all [] d = d
  refuse_all ((now, own_reset_at) ∷ rest) d =
      refuse_all rest (on_limited identity_of now own_reset_at d).0

  kept_in_cooldown :
      (now own_reset_at : ℕ) (d : Switching)
      → now < d.rotation.last_switch_at + switch_cooldown_ms
      → (on_limited identity_of now own_reset_at d).0
        ≡ mark_limited (refused_key identity_of d) own_reset_at d
  unfolding on_limited
  kept_in_cooldown now own_reset_at d h =
      let marked = mark_limited (refused_key identity_of d) own_reset_at d in
      follow_plan-none now _ marked (
        in_cooldown marked.accounts marked.current marked.rotation now own_reset_at marked.enabled
          (unfold mark_limited in h))

-- While the cooldown of the last switch runs, refusals switch to no account, however many there
-- are: the chosen account, its instant and the list of the activations stay as they were.
pub refuse_all-activated :
    (identity_of : IdentityOf) (refusals : List (ℕ × ℕ)) (d : Switching)
    → All (λ r. r.0 < d.rotation.last_switch_at + switch_cooldown_ms) refusals
    → ((refuse_all identity_of refusals d).activated ≡ d.activated)
      × ((refuse_all identity_of refusals d).current ≡ d.current)
      × ((refuse_all identity_of refusals d).rotation.last_switch_at ≡ d.rotation.last_switch_at)
unfolding refuse_all
refuse_all-activated identity_of [] d early = (refl, refl, refl)
refuse_all-activated identity_of ((now, own_reset_at) ∷ rest) d early =
    let marked = mark_limited (refused_key identity_of d) own_reset_at d in
    let kept = kept_in_cooldown identity_of now own_reset_at d early.0 in
    subst
      (λ e.
        let after = refuse_all identity_of rest e in
        (after.activated ≡ d.activated)
        × (after.current ≡ d.current)
        × (after.rotation.last_switch_at ≡ d.rotation.last_switch_at))
      (sym kept) (unfold mark_limited in refuse_all-activated identity_of rest marked early.1)

module _ (identity_of : IdentityOf) (now : ℕ) (d : Switching) where
  abbrev marked_login : Switching
  marked_login = mark_unusable (refused_key identity_of d) d

  abbrev found_next : Option AccountInfo
  found_next = next_usable_account identity_of d.accounts d.current marked_login.rotation now

  -- The login is marked, and the daemon stays where rotation is off or nothing is found, or moves to
  -- the account that is found, which is not marked.
  abbrev pub IsMovedOff : Switching × Option (String × ℕ) → Type 0
  IsMovedOff (after, answer) =
      (member (refused_key identity_of d) after.rotation.unusable ≡ true)
      × ((((d.enabled ≡ false) ⊎ (found_next ≡ none)) × (after ≡ marked_login) × (answer ≡ none))
          ⊎ ((a : AccountInfo) × (d.enabled ≡ true)
              × (found_next ≡ some a)
              × (after ≡ activate_account now a.config_dir marked_login)
              × (answer ≡ some (a.name, now + switch_settle_ms))
              × (member (identity_of a) after.rotation.unusable ≡ false)))
