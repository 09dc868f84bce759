-- ===== src/DaemonClient/Order.antt =====
-- extension/src/daemonClient.ts, `compareVersions`: it is a total preorder.
use Prim.Native.Nat.{compare}
use claude_persist.DaemonClient.{
  ℤ, pos, negsuc, Order, lt, eq, gt, sign_of, first_of, compare_parts, parts, compare_versions,
}
use claude_persist.Texts.{Text}
use claude_persist.Prelude.{ℕ, List, [], ◌∷◌, ◌≡◌, ◌≢◌, refl, sym, ap, ◌∙◌, ◌⊎◌, inl, inr, arith}

-- What the comparisons of `a` with `b` and of `b` with `c` say of that of `a` with `c`.
abbrev pub IsChain : Order → Order → Order → Type 0
IsChain eq q r = r ≡ q
IsChain lt eq r = r ≡ lt
IsChain lt lt r = r ≡ lt
IsChain lt gt r = Unit
IsChain gt eq r = r ≡ gt
IsChain gt gt r = r ≡ gt
IsChain gt lt r = Unit

abbrev pub opposite : Order → Order
opposite lt = gt
opposite eq = eq
opposite gt = lt

pub Order-cases : (o : Order) → (o ≡ lt) ⊎ ((o ≡ eq) ⊎ (o ≡ gt))
Order-cases lt = inl refl
Order-cases eq = inr (inl refl)
Order-cases gt = inr (inr refl)

pub lt≢gt : lt ≢ gt
lt≢gt e = cc

pub eq≢lt : eq ≢ lt
eq≢lt e = cc

pub eq≢gt : eq ≢ gt
eq≢gt e = cc

pub chain_not_gt : (o p q : Order) → IsChain o p q → o ≢ gt → p ≢ gt → q ≢ gt
chain_not_gt eq p q h i j = λ e. j (sym h ∙ e)
chain_not_gt lt eq q h i j = λ e. lt≢gt (sym h ∙ e)
chain_not_gt lt lt q h i j = λ e. lt≢gt (sym h ∙ e)
chain_not_gt lt gt q h i j = absurd (j refl)
chain_not_gt gt p q h i j = absurd (i refl)

pub first_of-IsChain :
    (o p q o' p' q' : Order)
    → IsChain o p q
    → IsChain o' p' q'
    → IsChain (first_of o o') (first_of p p') (first_of q q')
first_of-IsChain eq eq q o' p' q' h k = rw h k
first_of-IsChain eq lt q eq p' q' h k = rw h refl
first_of-IsChain eq lt q lt p' q' h k = rw h refl
first_of-IsChain eq lt q gt p' q' h k = tt
first_of-IsChain eq gt q eq p' q' h k = rw h refl
first_of-IsChain eq gt q lt p' q' h k = tt
first_of-IsChain eq gt q gt p' q' h k = rw h refl
first_of-IsChain lt eq q o' eq q' h k = rw h refl
first_of-IsChain lt eq q o' lt q' h k = rw h refl
first_of-IsChain lt eq q o' gt q' h k = tt
first_of-IsChain lt lt q o' p' q' h k = rw h refl
first_of-IsChain lt gt q o' p' q' h k = tt
first_of-IsChain gt eq q o' eq q' h k = rw h refl
first_of-IsChain gt eq q o' gt q' h k = rw h refl
first_of-IsChain gt eq q o' lt q' h k = tt
first_of-IsChain gt gt q o' p' q' h k = rw h refl
first_of-IsChain gt lt q o' p' q' h k = tt

pub compare-IsChain : (a b c : ℕ) → IsChain (compare a b) (compare b c) (compare a c)
compare-IsChain a b c = ground arith

later_gt : (o : Order) → IsChain o gt gt
later_gt lt = tt
later_gt eq = refl
later_gt gt = refl

later_lt : (o : Order) → IsChain o lt lt
later_lt lt = refl
later_lt eq = refl
later_lt gt = tt

earlier_gt : (o : Order) → IsChain gt o gt
earlier_gt lt = tt
earlier_gt eq = refl
earlier_gt gt = refl

earlier_lt : (o : Order) → IsChain lt o lt
earlier_lt lt = refl
earlier_lt eq = refl
earlier_lt gt = tt

sign_of-IsChain : (a b c : ℤ) → IsChain (sign_of a b) (sign_of b c) (sign_of a c)
sign_of-IsChain (pos a) (pos b) (pos c) = compare-IsChain a b c
sign_of-IsChain (pos a) (pos b) (negsuc c) = later_gt (compare a b)
sign_of-IsChain (pos a) (negsuc b) (pos c) = tt
sign_of-IsChain (pos a) (negsuc b) (negsuc c) = earlier_gt (compare c b)
sign_of-IsChain (negsuc a) (pos b) (pos c) = earlier_lt (compare b c)
sign_of-IsChain (negsuc a) (pos b) (negsuc c) = tt
sign_of-IsChain (negsuc a) (negsuc b) (pos c) = later_lt (compare b a)
sign_of-IsChain (negsuc a) (negsuc b) (negsuc c) = ground arith

opposite_sign : (a b : ℤ) → sign_of b a ≡ opposite (sign_of a b)
opposite_sign (pos a) (pos b) = ground arith
opposite_sign (pos a) (negsuc b) = refl
opposite_sign (negsuc a) (pos b) = refl
opposite_sign (negsuc a) (negsuc b) = ground arith

pub opposite_first :
    (o p : Order) {o' p' : Order}
    → o' ≡ opposite o
    → p' ≡ opposite p
    → first_of o' p' ≡ opposite (first_of o p)
opposite_first eq p h k = rw h k
opposite_first lt p h k = rw h refl
opposite_first gt p h k = rw h refl

pub opposite-compare : (a b : ℕ) → compare b a ≡ opposite (compare a b)
opposite-compare a b = ground arith

opposite_parts : (xs ys : List ℤ) → compare_parts ys xs ≡ opposite (compare_parts xs ys)
unfolding compare_parts
opposite_parts [] [] = refl
opposite_parts [] (y ∷ ys) =
    opposite_first (sign_of (pos 0) y) (compare_parts [] ys) (opposite_sign (pos 0) y)
      (opposite_parts [] ys)
opposite_parts (x ∷ xs) [] =
    opposite_first (sign_of x (pos 0)) (compare_parts xs []) (opposite_sign x (pos 0))
      (opposite_parts xs [])
opposite_parts (x ∷ xs) (y ∷ ys) =
    opposite_first (sign_of x y) (compare_parts xs ys) (opposite_sign x y) (opposite_parts xs ys)

step :
    (x y z : ℤ) (o p q : Order)
    → IsChain o p q
    → IsChain (first_of (sign_of x y) o) (first_of (sign_of y z) p) (first_of (sign_of x z) q)
step x y z o p q h =
    first_of-IsChain (sign_of x y) (sign_of y z) (sign_of x z) o p q (sign_of-IsChain x y z) h

compare_parts-IsChain :
    (xs ys zs : List ℤ) → IsChain (compare_parts xs ys) (compare_parts ys zs) (compare_parts xs zs)
unfolding compare_parts
compare_parts-IsChain [] [] [] = refl
compare_parts-IsChain [] [] (z ∷ zs) = refl
compare_parts-IsChain [] (y ∷ ys) [] =
    step (pos 0) y (pos 0) (compare_parts [] ys) (compare_parts ys []) eq
      (compare_parts-IsChain [] ys [])
compare_parts-IsChain [] (y ∷ ys) (z ∷ zs) =
    step (pos 0) y z (compare_parts [] ys) (compare_parts ys zs) (compare_parts [] zs)
      (compare_parts-IsChain [] ys zs)
compare_parts-IsChain (x ∷ xs) [] [] =
    step x (pos 0) (pos 0) (compare_parts xs []) eq (compare_parts xs [])
      (compare_parts-IsChain xs [] [])
compare_parts-IsChain (x ∷ xs) [] (z ∷ zs) =
    step x (pos 0) z (compare_parts xs []) (compare_parts [] zs) (compare_parts xs zs)
      (compare_parts-IsChain xs [] zs)
compare_parts-IsChain (x ∷ xs) (y ∷ ys) [] =
    step x y (pos 0) (compare_parts xs ys) (compare_parts ys []) (compare_parts xs [])
      (compare_parts-IsChain xs ys [])
compare_parts-IsChain (x ∷ xs) (y ∷ ys) (z ∷ zs) =
    step x y z (compare_parts xs ys) (compare_parts ys zs) (compare_parts xs zs)
      (compare_parts-IsChain xs ys zs)

pub compare_versions-IsChain :
    (a b c : Text) → IsChain (compare_versions a b) (compare_versions b c) (compare_versions a c)
unfolding compare_versions
compare_versions-IsChain a b c = compare_parts-IsChain (parts a) (parts b) (parts c)

pub opposite_versions : (a b : Text) → compare_versions b a ≡ opposite (compare_versions a b)
unfolding compare_versions
opposite_versions a b = opposite_parts (parts a) (parts b)

-- Not newer than, with a step between.
pub not_newer_trans :
    (a b c : Text)
    → compare_versions a b ≢ gt
    → compare_versions b c ≢ gt
    → compare_versions a c ≢ gt
not_newer_trans a b c h k =
    chain_not_gt (compare_versions a b) (compare_versions b c) (compare_versions a c)
      (compare_versions-IsChain a b c) h k

pub not_newer_refl : (a : Text) → compare_versions a a ≢ gt
not_newer_refl a g = lt≢gt (sym (sym g ∙ (opposite_versions a a ∙ ap opposite g)))

pub not_newer_of_newer : (a b : Text) → compare_versions a b ≡ gt → compare_versions b a ≢ gt
not_newer_of_newer a b g h = lt≢gt (sym (opposite_versions a b ∙ ap opposite g) ∙ h)
