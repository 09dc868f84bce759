-- ===== src/Titler/Names.antt =====
-- daemon/src/titler.ts: when a name is due, and whether a tab takes the name that is proposed.
use claude_persist.Texts.{Text, text_eq, is_empty, is_alnum, words_of, unique, has_text}
use claude_persist.Prelude.{
  ℕ, suc, zero, ◌+◌, ◌-◌, ◌*◌, Bool, true, false, not, ◌&&◌, ◌||◌, Option, none, some, List, [],
  ◌∷◌, ◌++◌, map, length, take, drop, keep_if, ◌==◌, ltb, leb, if◌then◌else◌,
}

abbrev pub retitle_after_ms : ℕ
retitle_after_ms = 15 * 60000

abbrev pub max_past_titles : ℕ
max_past_titles = 20

pub record TitleState : Type 0 where
  pub turns : ℕ
  pub titled_at : Option ℕ
  pub now : ℕ
  pub title_set_by_user : Bool
  pub parked : Bool

abbrev is_old : ℕ → Option ℕ → Bool
is_old now none = true
is_old now (some at) = leb (at + retitle_after_ms) now

-- `now - titledAt >= RETITLE_AFTER_MS`, also where the clock went back.
unfoldable pub title_is_due : TitleState → Bool
title_is_due s =
    not s.title_set_by_user && not s.parked && not (ltb s.turns 1) && is_old s.now s.titled_at

-- `/^[a-z0-9]{1,3}\|/`: the rest after the tag, where `n` more letters may stand before the bar.
unfoldable pub after_bar : ℕ → Text → Option Text
unfolding is_alnum
after_bar n [] = none
after_bar zero (c ∷ cs) = if c == b'|' then some cs else none
after_bar (suc n) (c ∷ cs) =
    let rest = after_bar n cs in if c == b'|' then some cs else if is_alnum c then rest else none

abbrev pub or_text : Text → Option Text → Text
or_text t none = t
or_text t (some s) = s

unfoldable pub drop_short_tag : Text → Text
unfolding after_bar is_alnum
drop_short_tag [] = []
drop_short_tag (c ∷ cs) = if is_alnum c then or_text (c ∷ cs) (after_bar 2 cs) else c ∷ cs

abbrev not_alnum : ℕ → Bool
not_alnum c = not (is_alnum c)

abbrev is_long : Text → Bool
is_long w = ltb 3 (length w)

pub record RenameMemory : Type 0 where
  pub current : Text
  pub past : List Text
  pub pending : Option Text
  pub first_naming : Bool

pub data NamingReason : Type 0 where
  first : NamingReason
  confirmed : NamingReason
  same : NamingReason
  returns : NamingReason
  unconfirmed : NamingReason

-- `rename` with its reason; else the name that is held, if any.
pub data RenameDecision : Type 0 where
  rename : NamingReason → RenameDecision
  keep : Option Text → NamingReason → RenameDecision

-- `array.slice(-n)`
unfoldable pub last_of {ℓ} : {A : Type ℓ} → ℕ → List A → List A
last_of n xs = drop (length xs - n) xs

module _ (lower : Text → Text) where
  unfoldable pub stem : Text → Text
  unfolding is_alnum
  stem word = take 5 (keep_if is_alnum (lower word))

  -- The set of a title's significant words.
  unfoldable pub title_words : Text → List Text
  unfolding stem drop_short_tag words_of unique is_alnum
  title_words t =
      unique (map stem (keep_if is_long (words_of not_alnum (drop_short_tag (lower t)))))

  -- The loop that counts `shared`.
  unfoldable pub shared_words : List Text → List Text → ℕ
  unfolding has_text
  shared_words before [] = 0
  shared_words before (w ∷ after) =
      let rest = shared_words before after in if has_text w before then rest + 1 else rest

  unfoldable pub is_material_change : Text → Text → Bool
  unfolding title_words shared_words
  is_material_change current next =
      let after = title_words next in
      not (length after == 0) && ltb (shared_words (title_words current) after * 2) (length after)

  -- `memory.pending && !isMaterialChange(memory.pending, proposed)`; the empty text is falsy.
  unfoldable pub agrees : Option Text → Text → Bool
  agrees none proposed = false
  agrees (some held) proposed = not (is_empty held) && not (is_material_change held proposed)

  -- `past.some((earlier) => !isMaterialChange(earlier, proposed))`
  unfoldable pub was_worn : List Text → Text → Bool
  was_worn [] proposed = false
  was_worn (earlier ∷ past) proposed =
      not (is_material_change earlier proposed) || was_worn past proposed

  unfoldable pub decide_rename : RenameMemory → Text → RenameDecision
  decide_rename memory proposed =
      if text_eq proposed memory.current || not (is_material_change memory.current proposed)
      then keep none same
      else if memory.first_naming
      then rename first
      else if was_worn memory.past proposed
      then keep none returns
      else if agrees memory.pending proposed
      then rename confirmed
      else keep (some proposed) unconfirmed

  -- `past.filter((earlier) => isMaterialChange(earlier, title))`
  unfoldable pub still_other : Text → List Text → List Text
  still_other title [] = []
  still_other title (earlier ∷ past) =
      let rest = still_other title past in
      if is_material_change earlier title then earlier ∷ rest else rest

  unfoldable pub remember_title : List Text → Text → List Text
  remember_title past title = last_of max_past_titles (still_other title past ++ title ∷ [])
