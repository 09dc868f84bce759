-- ===== src/Titler/Rename/Worn.antt =====
-- daemon/src/session.ts, `maybeRetitle`: the names that a conversation has worn.
use claude_persist.Texts.{Text, text_eq, text_eq_refl}
use mathlib.Core.Path.{subst}
use mathlib.Core.List.{append_assoc, append-nil}
use claude_persist.Titler.Names.{
  decide_rename, is_material_change, was_worn, still_other, remember_title, last_of,
  max_past_titles,
}
use claude_persist.Titler.Rename.{
  Naming, past_of, proposal, memory_of, apply_decision, remembered, consider, take_answer,
  take_answers,
}
use claude_persist.Prelude.{
  ℕ, ◌-◌, ◌≤◌, true, false, ◌≡◌, refl, sym, ap, ◌∙◌, ◌⊎◌, inl, inr, some, none, Option, arith, List,
  [], ◌∷◌, ◌++◌, length, drop, All, All-append, All-take-drop, length-append, length-drop,
  drop-drop, drop-append, if◌then◌else◌,
}

last_of-append :
    {A : Type 0} (n : ℕ) (xs ys : List A) → last_of n (last_of n xs ++ ys) ≡ last_of n (xs ++ ys)
unfolding last_of
last_of-append n xs ys =
    let k = length xs - n in
    ap (λ l. drop (length l - n) l) (sym (drop-append k xs ys (omega arith)))
    ∙ drop-drop (length (drop k (xs ++ ys)) - n) k (xs ++ ys)
    ∙ ap (λ m. drop m (xs ++ ys)) (omega (arith, length-drop k (xs ++ ys), length-append xs ys))

last_of-all : {A : Type 0} (n : ℕ) (xs : List A) → length xs ≤ n → last_of n xs ≡ xs
unfolding last_of
last_of-all n xs h = let e : length xs - n ≡ 0 = omega arith in ap (λ k. drop k xs) e

length-last_of : {A : Type 0} (n : ℕ) (xs : List A) → length (last_of n xs) ≤ n
unfolding last_of
length-last_of n xs = omega (arith, length-drop (length xs - n) xs)

All-last_of : {A : Type 0} (P : A → Type 0) (n : ℕ) (xs : List A) → All P xs → All P (last_of n xs)
unfolding last_of
All-last_of P n xs h = ((All-take-drop P (length xs - n) xs).0 h).0

module _ (lower : Text → Text) where
  abbrev pub IsOther : Text → Text → Type 0
  IsOther t earlier = is_material_change lower earlier t ≡ true

  -- The names that later looks replaced, oldest first.
  unfoldable pub worn : List (Option Text) → Naming → List Text
  unfolding take_answer text_eq
  worn [] n = []
  worn (a ∷ answers) n =
      let m = take_answer lower false a n in
      let rest = worn answers m in if text_eq m.title n.title then rest else n.title ∷ rest

  -- Each remembered name is another than the title, and there are twenty at most.
  pub record IsSettled (n : Naming) : Type 0 where
    pub others : All (IsOther n.title) (past_of n.past_titles)
    pub few : length (past_of n.past_titles) ≤ max_past_titles

  All-not-worn :
      (t : Text) (past : List Text) → was_worn lower past t ≡ false → All (IsOther t) past
  unfolding was_worn
  All-not-worn t [] h = tt
  All-not-worn t (e ∷ past) h = ground (arith, All-not-worn t past)

  still_other-all :
      (t : Text) (past : List Text) → All (IsOther t) past → still_other lower t past ≡ past
  unfolding still_other
  still_other-all t [] h = refl
  still_other-all t (e ∷ past) h = ground (arith, still_other-all t past)

  consider_step :
      (t : Text) (n : Naming)
      → ((consider lower false t n).title ≡ n.title)
          × ((consider lower false t n).past_titles ≡ n.past_titles)
        ⊎ ((consider lower false t n).title ≡ t)
          × ((consider lower false t n).past_titles
              ≡ some (remember_title lower (past_of n.past_titles) n.title))
          × (is_material_change lower n.title t ≡ true)
          × (text_eq t n.title ≡ false)
          × (was_worn lower (past_of n.past_titles) t ≡ false)
  unfolding consider apply_decision decide_rename memory_of remembered
  consider_step t n = ground arith

  remember-last :
      (t : Text) (past : List Text)
      → All (IsOther t) past
      → remember_title lower past t ≡ last_of max_past_titles (past ++ t ∷ [])
  unfolding remember_title
  remember-last t past h =
      ap (λ l. last_of max_past_titles (l ++ t ∷ [])) (still_other-all t past h)

  take_answer_step :
      (a : Option Text) (n : Naming)
      → let m = take_answer lower false a n in
        (m.title ≡ n.title) × (m.past_titles ≡ n.past_titles)
        ⊎ (m.past_titles ≡ some (remember_title lower (past_of n.past_titles) n.title))
          × (is_material_change lower n.title m.title ≡ true)
          × (text_eq m.title n.title ≡ false)
          × (was_worn lower (past_of n.past_titles) m.title ≡ false)
  unfolding take_answer
  take_answer_step none n = inl (refl, refl)
  take_answer_step (some []) n = inl (refl, refl)
  take_answer_step (some (c ∷ name)) n =
      ground (arith, consider_step (proposal lower n.cwd (c ∷ name)) n)

  module _ (n m : Naming) (h : IsSettled n) where
    same-IsSettled : m.title ≡ n.title → m.past_titles ≡ n.past_titles → IsSettled m
    same-IsSettled e p = record {
      others =
          subst (λ t. All (IsOther t) (past_of m.past_titles)) (sym e)
            (subst (λ o. All (IsOther n.title) (past_of o)) (sym p) h.others);
      few = subst (λ o. length (past_of o) ≤ max_past_titles) (sym p) h.few;
    }

    module _ (e : m.past_titles ≡ some (remember_title lower (past_of n.past_titles) n.title))
        (changed : is_material_change lower n.title m.title ≡ true)
        (new : was_worn lower (past_of n.past_titles) m.title ≡ false) where
      remembered-last :
          past_of m.past_titles ≡ last_of max_past_titles (past_of n.past_titles ++ n.title ∷ [])
      remembered-last = ap past_of e ∙ remember-last n.title (past_of n.past_titles) h.others

      remembered-IsSettled : IsSettled m
      remembered-IsSettled =
          let all = past_of n.past_titles ++ n.title ∷ [] in
          record {
            others = subst (All (IsOther m.title)) (sym remembered-last) (
                All-last_of (IsOther m.title) max_past_titles all (
                  (All-append (IsOther m.title) (past_of n.past_titles) (n.title ∷ [])).1
                    (All-not-worn m.title (past_of n.past_titles) new, (changed, tt))));
            few =
                subst (λ l. length l ≤ max_past_titles) (sym remembered-last)
                  (length-last_of max_past_titles all);
          }

  -- From a title that differs from each remembered name, later looks remember the last twenty of
  -- the names that were remembered and then replaced, in that order, and the title still differs
  -- from each of these.
  pub take_answers-worn :
      (answers : List (Option Text)) (n : Naming)
      → IsSettled n
      → (past_of (take_answers lower answers n).past_titles
          ≡ last_of max_past_titles (past_of n.past_titles ++ worn answers n))
        × IsSettled (take_answers lower answers n)
  unfolding take_answers worn
  take_answers-worn [] n h = (
    sym (last_of-all max_past_titles (past_of n.past_titles) h.few)
        ∙ ap (last_of max_past_titles) (sym (append-nil (past_of n.past_titles))),
    h,
  )
  take_answers-worn (a ∷ answers) n h =
      let m = take_answer lower false a n in
      elim (take_answer_step a n) [
        | inl (e, p) ↦
            let (run, last) = take_answers-worn answers m (same-IsSettled n m h e p) in
            rw (ap (λ t. text_eq t n.title) e ∙ text_eq_refl n.title)
              (run ∙ ap (λ o. last_of max_past_titles (past_of o ++ worn answers m)) p, last)
        | inr (e, changed, ne, new) ↦
            let (run, last) =
              take_answers-worn answers m (remembered-IsSettled n m h e changed new) in
            rw ne (
              run
                  ∙ ap (λ l. last_of max_past_titles (l ++ worn answers m))
                      (remembered-last n m h e changed new)
                  ∙ last_of-append max_past_titles (past_of n.past_titles ++ n.title ∷ [])
                      (worn answers m)
                  ∙ ap (last_of max_past_titles)
                      (append_assoc (past_of n.past_titles) (n.title ∷ []) (worn answers m)),
              last,
            )
      ]
