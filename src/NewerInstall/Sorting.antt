-- ===== src/NewerInstall/Sorting.antt =====
-- extension/src/newerInstall.ts, `installedVersions`: sorting keeps what is in the list.
use claude_persist.DaemonClient.{Order, lt, eq, gt, compare_versions}
use claude_persist.NewerInstall.{insert_version, insert_at, sort_from}
use claude_persist.Texts.{Text}
use claude_persist.Prelude.{List, [], ◌∷◌, ◌⊎◌, inl, inr, ◌↔◌, Memᴰ}

mem_swap : (x y a : Text) (ys : List Text) → Memᴰ a (x ∷ y ∷ ys) → Memᴰ a (y ∷ x ∷ ys)
mem_swap x y a ys (Memᴰ.head e) = Memᴰ.tail (Memᴰ.head e)
mem_swap x y a ys (Memᴰ.tail (Memᴰ.head e)) = Memᴰ.head e
mem_swap x y a ys (Memᴰ.tail (Memᴰ.tail m)) = Memᴰ.tail (Memᴰ.tail m)

mem_under :
    (y a : Text) (xs ys : List Text) → (Memᴰ a xs → Memᴰ a ys) → Memᴰ a (y ∷ xs) → Memᴰ a (y ∷ ys)
mem_under y a xs ys f (Memᴰ.head e) = Memᴰ.head e
mem_under y a xs ys f (Memᴰ.tail m) = Memᴰ.tail (f m)

mem-insert_at :
    (o : Order) (x y a : Text) (ys later : List Text)
    → (Memᴰ a later ↔ Memᴰ a (x ∷ ys))
    → Memᴰ a (insert_at o x y ys later) ↔ Memᴰ a (x ∷ y ∷ ys)
mem-insert_at lt x y a ys later h = (λ m. m, λ m. m)
mem-insert_at eq x y a ys later h = (
  λ m. mem_swap y x a ys (mem_under y a later (x ∷ ys) h.0 m),
  λ m. mem_under y a (x ∷ ys) later h.1 (mem_swap x y a ys m),
)
mem-insert_at gt x y a ys later h = (
  λ m. mem_swap y x a ys (mem_under y a later (x ∷ ys) h.0 m),
  λ m. mem_under y a (x ∷ ys) later h.1 (mem_swap x y a ys m),
)

mem-insert_version : (x a : Text) (ys : List Text) → Memᴰ a (insert_version x ys) ↔ Memᴰ a (x ∷ ys)
unfolding insert_version
mem-insert_version x a [] = (λ m. m, λ m. m)
mem-insert_version x a (y ∷ ys) =
    mem-insert_at (compare_versions x y) x y a ys (insert_version x ys) (mem-insert_version x a ys)

split :
    (x a : Text) (sorted xs : List Text) {ys : List Text}
    → (Memᴰ a ys → Memᴰ a (x ∷ sorted))
    → Memᴰ a ys ⊎ Memᴰ a xs
    → Memᴰ a sorted ⊎ Memᴰ a (x ∷ xs)
split x a sorted xs f (inl m) = elim (f m) [ Memᴰ.head e ↦ inr (Memᴰ.head e) | Memᴰ.tail l ↦ inl l ]
split x a sorted xs f (inr m) = inr (Memᴰ.tail m)

join :
    (x a : Text) (sorted xs : List Text) {ys : List Text}
    → (Memᴰ a (x ∷ sorted) → Memᴰ a ys)
    → Memᴰ a sorted ⊎ Memᴰ a (x ∷ xs)
    → Memᴰ a ys ⊎ Memᴰ a xs
join x a sorted xs f (inl m) = inl (f (Memᴰ.tail m))
join x a sorted xs f (inr (Memᴰ.head e)) = inl (f (Memᴰ.head e))
join x a sorted xs f (inr (Memᴰ.tail m)) = inr m

pub mem-sort_from :
    (a : Text) (sorted xs : List Text) → Memᴰ a (sort_from sorted xs) ↔ (Memᴰ a sorted ⊎ Memᴰ a xs)
unfolding sort_from
mem-sort_from a sorted [] = (λ m. inl m, λ m. elim m [ inl l ↦ l | inr r ↦ elim r [ ] ])
mem-sort_from a sorted (x ∷ xs) =
    let here = mem-insert_version x a sorted in
    let rest = mem-sort_from a (insert_version x sorted) xs in
    (λ m. split x a sorted xs here.0 (rest.0 m), λ m. rest.1 (join x a sorted xs here.1 m))
