-- ===== src/Ids.antt =====
-- Lists of numbers as the `Set`s and `Map` keys of the sources: membership, removal and how often a
-- number stands in a list.
use claude_persist.Prelude.{
  ℕ, suc, ◌+◌, ◌≤◌, Bool, true, false, not, List, [], ◌∷◌, ◌++◌, ◌≡◌, refl, ap, arith, ltb, ◌==◌,
  keep_if, any, if◌then◌else◌,
}

abbrev pub in_ids : ℕ → List ℕ → Bool
in_ids id ids = any (λ i. i == id) ids

abbrev pub without : ℕ → List ℕ → List ℕ
without id ids = keep_if (λ i. not (i == id)) ids

-- `Set.prototype.add`
abbrev pub add_id : ℕ → List ℕ → List ℕ
add_id id ids = if in_ids id ids then ids else ids ++ id ∷ []

abbrev pub count : ℕ → List ℕ → ℕ
count j [] = 0
count j (i ∷ ids) = if i == j then suc (count j ids) else count j ids

pub count-append : (j : ℕ) (xs ys : List ℕ) → count j (xs ++ ys) ≡ count j xs + count j ys
count-append j [] ys = omega arith
count-append j (x ∷ xs) ys = ground (arith, count-append j xs ys)

pub count-without :
    (j id : ℕ) (xs : List ℕ) → count j (without id xs) ≡ (if j == id then 0 else count j xs)
count-without j id [] = ground arith
count-without j id (x ∷ xs) = ground (arith, count-without j id xs)

pub count-in_ids : (j id : ℕ) (xs : List ℕ) → in_ids id xs ≡ true → id ≡ j → 1 ≤ count j xs
count-in_ids j id [] h e = ground arith
count-in_ids j id (x ∷ xs) h e = ground (arith, count-in_ids j id xs)

pub count-absent : (id : ℕ) (xs : List ℕ) → in_ids id xs ≡ false → count id xs ≡ 0
count-absent id [] h = refl
count-absent id (x ∷ xs) h = ground (arith, count-absent id xs)

pub count-add_id :
    (j id : ℕ) (xs : List ℕ)
    → count id xs ≤ 1
    → count j (add_id id xs) ≡ (if j == id then 1 else count j xs)
count-add_id j id xs h =
    ground (arith, count-append j xs (id ∷ []), count-absent id xs, count-in_ids id id xs)

pub count-keep_if :
    (p : ℕ → Bool) (j : ℕ) (xs : List ℕ) → count j (keep_if p xs) ≡ (if p j then count j xs else 0)
count-keep_if p j [] = ground arith
count-keep_if p j (x ∷ xs) = ground (arith, count-keep_if p j xs, (λ (e : x ≡ j). ap p e))

pub in_ids-count : (id : ℕ) (xs : List ℕ) → in_ids id xs ≡ ltb 0 (count id xs)
in_ids-count id [] = refl
in_ids-count id (x ∷ xs) = ground (arith, in_ids-count id xs)
