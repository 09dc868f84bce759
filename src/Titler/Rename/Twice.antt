-- ===== src/Titler/Rename/Twice.antt =====
-- daemon/src/session.ts, `maybeRetitle`: a later look renames only to what the look before it
-- proposed too.
use claude_persist.Texts.{Text, is_empty}
use claude_persist.Titler.Names.{decide_rename, is_material_change, was_worn, agrees}
use claude_persist.Titler.Rename.{
  Naming, past_of, held_name, proposal, memory_of, apply_decision, consider, take_answer,
}
use claude_persist.Prelude.{true, false, ◌≡◌, refl, ◌⊎◌, some, none, ◌∷◌, [], arith}

module _ (lower : Text → Text) where
  -- What a name that is not the first one does: nothing, it is held, or it takes the tab.
  consider_cases :
      (t : Text) (n : Naming)
      → ((consider lower false t n).title ≡ n.title)
          × ((consider lower false t n).pending_title ≡ none)
        ⊎ ((consider lower false t n).title ≡ n.title)
          × ((consider lower false t n).pending_title ≡ held_name (some t))
        ⊎ ((consider lower false t n).title ≡ t)
          × ((consider lower false t n).pending_title ≡ none)
          × (agrees lower n.pending_title t ≡ true)
          × (is_material_change lower n.title t ≡ true)
          × (was_worn lower (past_of n.past_titles) t ≡ false)
  unfolding consider apply_decision decide_rename memory_of
  consider_cases t n = ground arith

  agrees-held_name :
      (t u : Text)
      → agrees lower (held_name (some t)) u ≡ true
      → is_material_change lower t u ≡ false
  unfolding agrees
  agrees-held_name [] u h = ground arith
  agrees-held_name (c ∷ t) u h = ground arith

  agrees-none : (u : Text) → agrees lower none u ≡ false
  unfolding agrees
  agrees-none u = refl

  consider-cwd : (t : Text) (n : Naming) → (consider lower false t n).cwd ≡ n.cwd
  unfolding consider apply_decision decide_rename memory_of
  consider-cwd t n = ground arith

  consider_twice :
      (t u : Text) (n : Naming)
      → ((consider lower false u (consider lower false t n)).title
          ≡ (consider lower false t n).title)
        ⊎ ((consider lower false t n).title ≡ n.title)
          × (is_material_change lower t u ≡ false)
          × ((consider lower false u (consider lower false t n)).title ≡ u)
          × (is_material_change lower n.title u ≡ true)
          × (was_worn lower (past_of (consider lower false t n).past_titles) u ≡ false)
  consider_twice t u n =
      let m = consider lower false t n in
      ground (arith, consider_cases t n, consider_cases u m, agrees-none u, agrees-held_name t u)

  -- After a look that proposed `a`, a look that proposes `b` leaves the title, or it takes `b`: then
  -- the look before left the title, its proposal is no material change from `b`, and `b` is one from
  -- the title and from each remembered name.
  pub second_look :
      (a b : Text) (n : Naming)
      → is_empty a ≡ false
      → is_empty b ≡ false
      → let m = take_answer lower false (some a) n in
        let last = take_answer lower false (some b) m in
        let p = proposal lower n.cwd a in
        let q = proposal lower n.cwd b in
        (last.title ≡ m.title)
        ⊎ (m.title ≡ n.title)
          × (is_material_change lower p q ≡ false)
          × (last.title ≡ q)
          × (is_material_change lower n.title q ≡ true)
          × (was_worn lower (past_of m.past_titles) q ≡ false)
  unfolding take_answer consider apply_decision
  second_look [] b n h k = ground arith
  second_look (c ∷ a) [] n h k = ground arith
  second_look (c ∷ a) (d ∷ b) n h k =
      let p = proposal lower n.cwd (c ∷ a) in
      rw (consider-cwd p n) (consider_twice p (proposal lower n.cwd (d ∷ b)) n)
