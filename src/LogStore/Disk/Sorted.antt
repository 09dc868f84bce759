-- ===== src/LogStore/Disk/Sorted.antt =====
-- The sort of the generations, and the number that follows them.
use claude_persist.Prelude.{
  ℕ, ◌≤◌, ◌<◌, ◌≡◌, refl, List, [], ◌∷◌, ◌++◌, arith, All, leb, Bool-cases, inl, inr, leb→le,
  leb→lt,
}
use claude_persist.LogStore.Disk.{insert, sort, next_generation}

abbrev pub IsSorted : List ℕ → Type 0
IsSorted [] = Unit
IsSorted (x ∷ xs) = All (λ y. x ≤ y) xs × IsSorted xs

All-insert {ℓ} : (P : ℕ → Type ℓ) (x : ℕ) (ys : List ℕ) → P x → All P ys → All P (insert x ys)
unfolding insert
All-insert P x [] p h = (p, h)
All-insert P x (y ∷ ys) p (q, h) = elim (Bool-cases (leb x y)) [
  | inl t ↦ rw t (p, (q, h))
  | inr f ↦ rw f (q, All-insert P x ys p h)
]

All-le_trans : (x y : ℕ) (zs : List ℕ) → x ≤ y → All (λ z. y ≤ z) zs → All (λ z. x ≤ z) zs
All-le_trans x y [] h hs = tt
All-le_trans x y (z ∷ zs) h (k, hs) = (omega arith, All-le_trans x y zs h hs)

insert-IsSorted : (x : ℕ) (ys : List ℕ) → IsSorted ys → IsSorted (insert x ys)
unfolding insert
insert-IsSorted x [] h = (tt, tt)
insert-IsSorted x (y ∷ ys) (first, rest) = elim (Bool-cases (leb x y)) [
  | inl t ↦ let le = leb→le x y t in rw t ((le, All-le_trans x y ys le first), (first, rest))
  | inr f ↦
      let lt : y ≤ x = omega (arith, leb→lt x y f) in
      rw f (All-insert (λ z. y ≤ z) x ys lt first, insert-IsSorted x ys rest)
]

-- The generations come oldest first.
pub sort-IsSorted : (xs : List ℕ) → IsSorted (sort xs)
unfolding sort
sort-IsSorted [] = tt
sort-IsSorted (x ∷ xs) = insert-IsSorted x (sort xs) (sort-IsSorted xs)

All-of_insert {ℓ} : (P : ℕ → Type ℓ) (x : ℕ) (ys : List ℕ) → All P (insert x ys) → P x × All P ys
unfolding insert
All-of_insert P x [] h = h
All-of_insert P x (y ∷ ys) h = elim (Bool-cases (leb x y)) [
  | inl t ↦ let h' : All P (x ∷ y ∷ ys) = rw t at h in h'
  | inr f ↦
      let h' : All P (y ∷ insert x ys) = rw f at h in
      let (p, rest) = All-of_insert P x ys h'.1 in (p, (h'.0, rest))
]

pub All-of_sort {ℓ} : (P : ℕ → Type ℓ) (xs : List ℕ) → All P (sort xs) → All P xs
unfolding sort
All-of_sort P [] h = tt
All-of_sort P (x ∷ xs) h =
    let (p, rest) = All-of_insert P x (sort xs) h in (p, All-of_sort P xs rest)

pub All-sort {ℓ} : (P : ℕ → Type ℓ) (xs : List ℕ) → All P xs → All P (sort xs)
unfolding sort
All-sort P [] h = tt
All-sort P (x ∷ xs) h = All-insert P x (sort xs) h.0 (All-sort P xs h.1)

-- The next generation lies behind all that are there.
next_generation-lt : (xs : List ℕ) → IsSorted xs → All (λ x. x < next_generation xs) xs
unfolding next_generation
next_generation-lt [] h = tt
next_generation-lt (x ∷ []) h = (omega arith, tt)
next_generation-lt (x ∷ y ∷ xs) h =
    let ih = next_generation-lt (y ∷ xs) h.1 in (omega (arith, h.0.0, ih.0), ih)

-- Listing again after the rotation puts the new generation last.
insert-append_last :
    (x m : ℕ) (ys : List ℕ) → x ≤ m → insert x (ys ++ m ∷ []) ≡ insert x ys ++ m ∷ []
unfolding insert
insert-append_last x m [] h = ground arith
insert-append_last x m (y ∷ ys) h = ground (arith, insert-append_last x m ys h)

pub sort-append_last :
    (m : ℕ) (xs : List ℕ) → All (λ x. x < m) xs → sort (xs ++ m ∷ []) ≡ sort xs ++ m ∷ []
unfolding sort
sort-append_last m [] h = refl
sort-append_last m (x ∷ xs) h =
    rw (sort-append_last m xs h.1) (insert-append_last x m (sort xs) (omega arith))

-- The number that a rotation gives is above every generation on disk, in whatever order the
-- directory lists them.
pub next_generation_fresh : (gens : List ℕ) → All (λ g. g < next_generation (sort gens)) gens
next_generation_fresh gens =
    All-of_sort (λ g. g < next_generation (sort gens)) gens
      (next_generation-lt (sort gens) (sort-IsSorted gens))
