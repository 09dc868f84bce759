-- ===== src/JsMap.antt =====
-- JavaScript's `Map` with string keys: pairs in the order of insertion. `set` on a key that is
-- there keeps its place; `delete` drops the pair.
use claude_persist.Prelude.{
  String, ◌≡◌, refl, Bool, true, false, Option, none, some, List, [], ◌∷◌, ◌++◌, arith, str_eq,
  eq_iff, if◌then◌else◌,
}

abbrev pub JsMap {ℓ} : Type ℓ → Type ℓ
JsMap V = List (String × V)

abbrev found {ℓ} : {A : Type ℓ} → Option A → Bool
found none = false
found (some a) = true

module _ {ℓ} {V : Type ℓ} where
  unfoldable pub get : String → JsMap V → Option V
  get k [] = none
  get k ((j, v) ∷ m) = if str_eq j k then some v else get k m

  unfoldable pub has : String → JsMap V → Bool
  unfolding get
  has k m = found (get k m)

  unfoldable pub set : String → V → JsMap V → JsMap V
  set k v [] = (k, v) ∷ []
  set k v ((j, w) ∷ m) = if str_eq j k then (j, v) ∷ m else (j, w) ∷ set k v m

  unfoldable pub delete : String → JsMap V → JsMap V
  delete k [] = []
  delete k ((j, v) ∷ m) = let rest = delete k m in if str_eq j k then rest else (j, v) ∷ rest

  -- `for (const [k, v] of m) if (drop(v)) m.delete(k)`
  unfoldable pub delete_if : (V → Bool) → JsMap V → JsMap V
  delete_if drop [] = []
  delete_if drop ((j, v) ∷ m) =
      let rest = delete_if drop m in if drop v then rest else (j, v) ∷ rest

  pub get-set :
      (k j : String) (v : V) (m : JsMap V)
      → get j (set k v m) ≡ (if str_eq k j then some v else get j m)
  unfolding get set
  get-set k j v [] = refl
  get-set k j v ((i, w) ∷ m) = ground (arith, eq_iff k j, eq_iff i k, eq_iff i j, get-set k j v m)

  pub get-delete :
      (k j : String) (m : JsMap V) → get j (delete k m) ≡ (if str_eq k j then none else get j m)
  unfolding get delete
  get-delete k j [] = ground arith
  get-delete k j ((i, w) ∷ m) = ground (arith, eq_iff k j, eq_iff i k, eq_iff i j, get-delete k j m)

  pub fresh-set :
      (k j : String) (v : V) (m : JsMap V)
      → str_eq j k ≡ false
      → get j m ≡ none
      → get j (set k v m) ≡ none
  fresh-set k j v m e fresh = ground (arith, get-set k j v m, eq_iff k j, eq_iff j k)

  pub fresh-delete : (k j : String) (m : JsMap V) → get j m ≡ none → get j (delete k m) ≡ none
  fresh-delete k j m fresh = ground (arith, get-delete k j m)

  -- A key that is not there is set behind the others.
  pub set-fresh : (k : String) (v : V) (m : JsMap V) → get k m ≡ none → set k v m ≡ m ++ (k, v) ∷ []
  unfolding set get
  set-fresh k v [] h = refl
  set-fresh k v ((j, w) ∷ m) h = ground (arith, set-fresh k v m)

  pub get-append : (k : String) (m n : JsMap V) → get k m ≡ none → get k (m ++ n) ≡ get k n
  unfolding get
  get-append k [] n h = refl
  get-append k ((j, w) ∷ m) n h = ground (arith, get-append k m n)
