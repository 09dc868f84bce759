-- ===== src/Texts.antt =====
-- Texts as lists of UTF-16 code units: what the sources use of `split`, `slice`, `toLowerCase` and
-- simple patterns. The Unicode tables of `toLowerCase` and `toUpperCase` are arguments.
use claude_persist.Prelude.{
  ℕ, ◌≡◌, refl, Bool, true, false, not, ◌&&◌, ◌||◌, Option, none, some, List, [], ◌∷◌, ◌++◌,
  keep_if, any, arith, ◌==◌, leb, if◌then◌else◌, String,
}
use Prim.Native.Char.{code}

abbrev pub Text : Type 0
Text = List ℕ

-- The code units of a literal of plain letters.
abbrev pub codes : String → Text
codes String.[] = []
codes (String.◌∷◌ c s) = code c ∷ codes s

unfoldable pub text_eq : Text → Text → Bool
text_eq [] [] = true
text_eq [] (d ∷ t) = false
text_eq (c ∷ s) [] = false
text_eq (c ∷ s) (d ∷ t) = c == d && text_eq s t

pub text_eq_refl : (s : Text) → text_eq s s ≡ true
unfolding text_eq
text_eq_refl [] = refl
text_eq_refl (c ∷ s) = ground (arith, text_eq_refl s)

pub eq_of_text_eq : (s t : Text) → text_eq s t ≡ true → s ≡ t
unfolding text_eq
eq_of_text_eq [] [] h = refl
eq_of_text_eq [] (d ∷ t) h = ground arith
eq_of_text_eq (c ∷ s) [] h = ground arith
eq_of_text_eq (c ∷ s) (d ∷ t) h = ground (arith, eq_of_text_eq s t)

-- The empty text is falsy.
abbrev pub is_empty {ℓ} : {A : Type ℓ} → List A → Bool
is_empty [] = true
is_empty (c ∷ cs) = false

unfoldable pub is_digit : ℕ → Bool
is_digit c = leb b'0' c && leb c b'9'

unfoldable pub is_lower : ℕ → Bool
is_lower c = leb b'a' c && leb c b'z'

unfoldable pub is_upper : ℕ → Bool
is_upper c = leb b'A' c && leb c b'Z'

abbrev pub is_letter : ℕ → Bool
is_letter c = is_lower c || is_upper c

-- `[a-z0-9]`
unfoldable pub is_alnum : ℕ → Bool
unfolding is_lower is_digit
is_alnum c = is_lower c || is_digit c

abbrev pub push_unit : ℕ → List Text → List Text
push_unit c [] = (c ∷ []) ∷ []
push_unit c (w ∷ ws) = (c ∷ w) ∷ ws

-- `split` at each separator.
unfoldable pub pieces : (ℕ → Bool) → Text → List Text
pieces sep [] = [] ∷ []
pieces sep (c ∷ cs) = let rest = pieces sep cs in if sep c then [] ∷ rest else push_unit c rest

abbrev is_word : Text → Bool
is_word w = not (is_empty w)

-- `split` at the runs of separators, without the empty pieces at the ends.
unfoldable pub words_of : (ℕ → Bool) → Text → List Text
unfolding pieces
words_of sep text = keep_if is_word (pieces sep text)

-- The items of `new Set(…)`, in the order of insertion.
unfoldable pub unique_from : List Text → List Text → List Text
unfolding text_eq
unique_from seen [] = []
unique_from seen (t ∷ ts) =
    let known = unique_from seen ts in
    let new = t ∷ unique_from (t ∷ seen) ts in if any (text_eq t) seen then known else new

unfoldable pub unique : List Text → List Text
unfolding unique_from
unique = unique_from []

-- `Set.prototype.has`
unfoldable pub has_text : Text → List Text → Bool
unfolding text_eq
has_text t = any (text_eq t)

pub ruleset text_tests = (arith, text_eq_refl, eq_of_text_eq)
