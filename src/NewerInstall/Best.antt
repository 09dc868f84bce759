-- ===== src/NewerInstall/Best.antt =====
-- extension/src/newerInstall.ts: what is reported is the newest build of those found.
use claude_persist.DaemonClient.{Order, lt, eq, gt, compare_versions}
use claude_persist.DaemonClient.Order.{
  not_newer_trans, not_newer_refl, not_newer_of_newer, lt≢gt, eq≢gt,
}
use claude_persist.NewerInstall.{
  sort_from, found_versions, installed_versions, better_build, consider_build, best_from,
  newer_installed_version, pending_upgrade, is_gt,
}
use mathlib.Core.Path.{subst}
use claude_persist.NewerInstall.Sorting.{mem-sort_from}
use claude_persist.Texts.{Text}
use claude_persist.Prelude.{
  true, false, Option, none, some, List, [], ◌∷◌, ◌≡◌, ◌≢◌, refl, sym, ap, ◌∙◌, ◌⊎◌, inl, inr,
  arith, All, Memᴰ, Bool-cases, ◌↔◌, All-of_mem, mem-All,
}

-- An item is in the list, or is the one of the option.
abbrev IsOneOf : Option Text → Text → List Text → Type 0
IsOneOf none a vs = Memᴰ a vs
IsOneOf (some b) a vs = (a ≡ b) ⊎ Memᴰ a vs

-- Nothing of the list is newer than `ours`, or `b` is of the list, is newer than `ours`, and
-- nothing of the list is newer than `b`.
abbrev pub IsNewest : Text → Option Text → List Text → Type 0
IsNewest ours none vs = All (λ v. compare_versions v ours ≢ gt) vs
IsNewest ours (some b) vs =
    Memᴰ b vs × (compare_versions b ours ≡ gt) × All (λ v. compare_versions v b ≢ gt) vs

not_gt : (o : Order) → is_gt o ≡ false → o ≢ gt
not_gt lt h = lt≢gt
not_gt eq h = eq≢gt
not_gt gt h = cc

is_gt-eq : (o : Order) → is_gt o ≡ true → o ≡ gt
is_gt-eq lt h = cc
is_gt-eq eq h = cc
is_gt-eq gt h = refl

-- A round keeps a best one, or takes the candidate, and covers both.
consider_build-some :
    (ours v best : Text)
    → compare_versions best ours ≡ gt
    → (w : Text) × (consider_build ours v (some best) ≡ some w)
      × ((w ≡ best) ⊎ (w ≡ v))
      × (compare_versions w ours ≡ gt)
      × (compare_versions v w ≢ gt)
      × (compare_versions best w ≢ gt)
unfolding consider_build better_build
consider_build-some ours v best g = elim (Bool-cases (is_gt (compare_versions v ours))) [
  | inr old ↦ (
    best,
    ground arith,
    inl refl,
    g,
    not_newer_trans v ours best (not_gt (compare_versions v ours) old)
        (not_newer_of_newer best ours g),
    not_newer_refl best,
  )
  | inl new ↦ elim (Bool-cases (is_gt (compare_versions v best))) [
    | inr less ↦ (
      best,
      ground arith,
      inl refl,
      g,
      not_gt (compare_versions v best) less,
      not_newer_refl best,
    )
    | inl more ↦ (
      v,
      ground arith,
      inr refl,
      is_gt-eq (compare_versions v ours) new,
      not_newer_refl v,
      not_newer_of_newer v best (is_gt-eq (compare_versions v best) more),
    )
  ]
]

place_of :
    (b w best v : Text) (vs : List Text)
    → (w ≡ best) ⊎ (w ≡ v)
    → (b ≡ w) ⊎ Memᴰ b vs
    → (b ≡ best) ⊎ Memᴰ b (v ∷ vs)
place_of b w best v vs (inl e) (inl f) = inl (f ∙ e)
place_of b w best v vs (inr e) (inl f) = inr (Memᴰ.head (f ∙ e))
place_of b w best v vs which (inr m) = inr (Memᴰ.tail m)

newest_from :
    (ours best : Text) (vs : List Text)
    → compare_versions best ours ≡ gt
    → (b : Text) × (best_from ours (some best) vs ≡ some b)
      × ((b ≡ best) ⊎ Memᴰ b vs)
      × (compare_versions b ours ≡ gt)
      × (compare_versions best b ≢ gt)
      × All (λ v. compare_versions v b ≢ gt) vs
unfolding best_from
newest_from ours best [] g = (best, refl, inl refl, g, not_newer_refl best, tt)
newest_from ours best (v ∷ vs) g =
    let (w, same, which, newer, over_v, over_best) = consider_build-some ours v best g in
    let (b, result, place, newest, over_w, over) = newest_from ours w vs newer in
    (
      b,
      ap (λ o. best_from ours o vs) same ∙ result,
      place_of b w best v vs which place,
      newest,
      not_newer_trans best w b over_best over_w,
      (not_newer_trans v w b over_v over_w, over),
    )

add_old :
    (ours v : Text) (r : Option Text) (vs : List Text)
    → compare_versions v ours ≢ gt
    → IsNewest ours r vs
    → IsNewest ours r (v ∷ vs)
add_old ours v none vs h k = (h, k)
add_old ours v (some b) vs h (m, g, k) =
    (Memᴰ.tail m, g, (not_newer_trans v ours b h (not_newer_of_newer b ours g), k))

first_found :
    (ours v : Text) (vs : List Text)
    → compare_versions v ours ≡ gt
    → IsNewest ours (best_from ours (some v) vs) (v ∷ vs)
first_found ours v vs g =
    let (b, result, place, newest, over_v, over) = newest_from ours v vs g in
    subst (λ r. IsNewest ours r (v ∷ vs)) (sym result)
      (elim place [ inl e ↦ Memᴰ.head e | inr m ↦ Memᴰ.tail m ], newest, (over_v, over))

consider_build-none :
    (ours v : Text)
    → ((consider_build ours v none ≡ none) × (compare_versions v ours ≢ gt))
      ⊎ ((consider_build ours v none ≡ some v) × (compare_versions v ours ≡ gt))
unfolding consider_build better_build
consider_build-none ours v = elim (Bool-cases (is_gt (compare_versions v ours))) [
  | inl new ↦ inr (ground arith, is_gt-eq (compare_versions v ours) new)
  | inr old ↦ inl (ground arith, not_gt (compare_versions v ours) old)
]

best_from-IsNewest : (ours : Text) (vs : List Text) → IsNewest ours (best_from ours none vs) vs
unfolding best_from
best_from-IsNewest ours [] = tt
best_from-IsNewest ours (v ∷ vs) = elim (consider_build-none ours v) [
  | inl (e, old) ↦
      subst (λ o. IsNewest ours (best_from ours o vs) (v ∷ vs)) (sym e)
        (add_old ours v (best_from ours none vs) vs old (best_from-IsNewest ours vs))
  | inr (e, new) ↦
      subst (λ o. IsNewest ours (best_from ours o vs) (v ∷ vs)) (sym e) (first_found ours v vs new)
]

IsNewest-of_mem :
    (ours : Text) (r : Option Text) (vs ws : List Text)
    → ((a : Text) → Memᴰ a vs ↔ Memᴰ a ws)
    → IsNewest ours r vs
    → IsNewest ours r ws
IsNewest-of_mem ours none vs ws h k =
    All-of_mem (λ v. compare_versions v ours ≢ gt) ws
      (λ a m. mem-All (λ v. compare_versions v ours ≢ gt) {xs = vs} k ((h a).1 m))
IsNewest-of_mem ours (some b) vs ws h (m, g, k) = (
  (h b).0 m,
  g,
  All-of_mem (λ v. compare_versions v b ≢ gt) ws
      (λ a n. mem-All (λ v. compare_versions v b ≢ gt) {xs = vs} k ((h a).1 n)),
)

-- With a listing, the upgrade that is reported is the newest of the builds found in it, if one is
-- newer than the running one; else none is reported.
pub pending_upgrade-IsNewest :
    (version_of : Text → Option Text) (base : Text) (folders : List Text) (ours : Text)
    → IsNewest ours
        (pending_upgrade version_of base (some folders) ours)
        (found_versions version_of base folders)
unfolding pending_upgrade newer_installed_version installed_versions
pending_upgrade-IsNewest version_of base folders ours =
    let builds = found_versions version_of base folders in
    IsNewest-of_mem ours (best_from ours none (sort_from [] builds)) (sort_from [] builds) builds
      (λ a. (
        λ m. elim ((mem-sort_from a [] builds).0 m) [ inl l ↦ elim l [ ] | inr r ↦ r ],
        λ m. (mem-sort_from a [] builds).1 (inr m),
      ))
      (best_from-IsNewest ours (sort_from [] builds))
