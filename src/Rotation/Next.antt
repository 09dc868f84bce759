-- ===== src/Rotation/Next.antt =====
-- `nextUsableAccount` of daemon/src/rotation.ts: its loop over wrapped indices against the plain
-- description, the first account that passes the tests in the list turned to the current one.
use native.Mathlib.Nat.{add-mod_right, mod-eq_of_lt, mod-eq-sub-mod}
use native.Mathlib.Numerals.{add-one}
use claude_persist.Prelude.{
  ℕ, zero, suc, ◌+◌, ◌-◌, ◌%◌, ◌≤◌, ◌<◌, ◌≡◌, sym, ◌∙◌, ap, String, Bool, Option, none, some, List,
  [], ◌∷◌, ◌++◌, length, get_elem?, take, drop, find_first, arith, ltb, if◌then◌else◌,
  length-append, length-take, length-drop, get_elem?-append, get_elem?-take, get_elem?-drop,
  drop-step, get_elem?-of_lt, drop-all, tests, Bool-cases, inl, inr,
}
use claude_persist.Rotation.{
  AccountInfo, RotationState, IdentityOf, is_account, start_after, eligible, next_loop,
  next_usable_account,
}

-- The list turned so that it begins behind `start`.
abbrev pub turn {ℓ} : {A : Type ℓ} → ℕ → List A → List A
turn start xs = drop start xs ++ take start xs

wrap_low : (s k n : ℕ) → s + k < n → (s + k + n) % n ≡ s + k
wrap_low s k n h = add-mod_right (s + k) n ∙ mod-eq_of_lt h

wrap_high : (s k n : ℕ) → k < n → s ≤ n → n ≤ s + k → (s + k + n) % n ≡ s + k - n
wrap_high s k n h hs hk = add-mod_right (s + k) n ∙ mod-eq-sub-mod hk ∙ mod-eq_of_lt (omega arith)

module _ {ℓ} {A : Type ℓ} where
  turn_low :
      (s k : ℕ) (xs : List A) → s + k < length xs → get_elem? (turn s xs) k ≡ get_elem? xs (s + k)
  turn_low s k xs h = rw get_elem?-append (ground (arith, length-drop s xs, get_elem?-drop s xs k))

  turn_high :
      (s k : ℕ) (xs : List A)
      → s ≤ length xs
      → k < length xs
      → length xs ≤ s + k
      → get_elem? (turn s xs) k ≡ get_elem? xs (s + k - length xs)
  turn_high s k xs hs hk h =
      let e : k - length (drop s xs) ≡ s + k - length xs = omega (arith, length-drop s xs) in
      rw (get_elem?-append, get_elem?-take) (ground (arith, length-drop s xs, ap (get_elem? xs) e))

  pub get_elem?-turn :
      (s k : ℕ) (xs : List A)
      → s ≤ length xs
      → k < length xs
      → get_elem? (turn s xs) k ≡ get_elem? xs ((s + k + length xs) % length xs)
  get_elem?-turn s k xs hs hk = elim (Bool-cases (ltb (s + k) (length xs))) [
    | inl low ↦
        let h : s + k < length xs = omega tests in
        rw (wrap_low s k (length xs) h) (turn_low s k xs h)
    | inr high ↦
        let h : length xs ≤ s + k = omega tests in
        rw (wrap_high s k (length xs) hk hs h) (turn_high s k xs hs hk h)
  ]

next_loop-step :
    (test : AccountInfo → Bool) (accounts : List AccountInfo) (start rounds step : ℕ)
    (x : AccountInfo)
    → get_elem? accounts ((start + step + length accounts - 1) % length accounts) ≡ some x
    → next_loop test accounts start (suc rounds) step
      ≡ (if test x then some x else next_loop test accounts start rounds (suc step))
unfolding next_loop
next_loop-step test accounts start rounds step x e = rw (e, next_loop) (rw add-one)

-- The loop reads one index after another.
loop-find_first :
    (test : AccountInfo → Bool) (accounts xs : List AccountInfo) (start rounds k : ℕ)
    → k + rounds ≡ length xs
    → ((i : ℕ)
        → i < length xs
        → get_elem? xs i
          ≡ get_elem? accounts ((start + suc i + length accounts - 1) % length accounts))
    → next_loop test accounts start rounds (suc k) ≡ find_first test (drop k xs)
loop-find_first test accounts xs start zero k e same =
    unfold next_loop in rw (drop-all k xs (omega arith))
loop-find_first test accounts xs start (suc rounds) k e same =
    let (x, at) = get_elem?-of_lt k xs (omega arith) in
    let ih = loop-find_first test accounts xs start rounds (suc k) (omega arith) same in
    rw (
      drop-step k xs at,
      next_loop-step test accounts start rounds (suc k) x (sym (same k (omega arith)) ∙ at),
      ih,
    )

start_after-le : (p : AccountInfo → Bool) (xs : List AccountInfo) → start_after p xs ≤ length xs
unfolding start_after
start_after-le p [] = omega arith
start_after-le p (x ∷ xs) = ground (arith, start_after-le p xs)

length-turn {ℓ} :
    {A : Type ℓ} (s : ℕ) (xs : List A) → s ≤ length xs → length (turn s xs) ≡ length xs
length-turn s xs h =
    omega (arith, length-append (drop s xs) (take s xs), length-drop s xs, length-take s xs)

loop-turn :
    (test : AccountInfo → Bool) (accounts : List AccountInfo) (start : ℕ)
    → start ≤ length accounts
    → next_loop test accounts start (length accounts) 1 ≡ find_first test (turn start accounts)
loop-turn test accounts start h =
    loop-find_first test accounts (turn start accounts) start (length accounts) 0
      (omega (arith, length-turn start accounts h)) at
  where
    at :
        (i : ℕ)
        → i < length (turn start accounts)
        → get_elem? (turn start accounts) i
          ≡ get_elem? accounts ((start + suc i + length accounts - 1) % length accounts)
    at i lt =
        get_elem?-turn start i accounts h (omega (arith, length-turn start accounts h))
        ∙ ap (λ (j : ℕ). get_elem? accounts (j % length accounts)) (omega arith)

pub next_usable_account-eq-find_first :
    (identity_of : IdentityOf) (accounts : List AccountInfo) (current : Option String)
    (state : RotationState) (now : ℕ)
    → next_usable_account identity_of accounts current state now ≡ (
        if ltb (length accounts) 2
        then none
        else find_first
            (eligible identity_of current (find_first (is_account current) accounts) state now)
            (turn (start_after (is_account current) accounts) accounts))
unfolding next_usable_account
next_usable_account-eq-find_first identity_of accounts current state now =
    let own = find_first (is_account current) accounts in
    rw (
      loop-turn (eligible identity_of current own state now) accounts
        (start_after (is_account current) accounts) (start_after-le _ accounts))
