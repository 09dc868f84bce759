-- ===== src/Titler/Compose.antt =====
-- daemon/src/titler.ts: the project's tag, and the title that it makes with a name.
use claude_persist.Limits.{trim_start, trim}
use claude_persist.Texts.{Text, is_digit, is_lower, is_upper, is_letter, words_of}
use claude_persist.Prelude.{
  ℕ, zero, suc, Bool, not, ◌||◌, Option, none, some, List, [], ◌∷◌, ◌++◌, length, take, keep_if,
  ◌==◌, leb, if◌then◌else◌,
}

abbrev pub max_name_chars : ℕ
max_name_chars = 32

abbrev pub max_title_words : ℕ
max_title_words = 12

abbrev is_slash : ℕ → Bool
is_slash c = c == b'/'

abbrev pub last_text : List Text → Text
last_text [] = []
last_text (t ∷ []) = t
last_text (t ∷ u ∷ ts) = last_text (u ∷ ts)

-- `path.basename` of a POSIX path.
unfoldable pub basename : Text → Text
unfolding words_of
basename path = last_text (words_of is_slash path)

-- `[A-Za-z0-9]`
unfoldable pub is_name_char : ℕ → Bool
unfolding is_lower is_upper is_digit
is_name_char c = is_letter c || is_digit c

unfoldable pub is_vowel : ℕ → Bool
is_vowel c =
    c == b'a'
    || c == b'e'
    || c == b'i'
    || c == b'o'
    || c == b'u'
    || c == b'A'
    || c == b'E'
    || c == b'I'
    || c == b'O'
    || c == b'U'

abbrev is_consonant : ℕ → Bool
is_consonant c = not (is_vowel c)

-- The first character and the rest's consonants, where there are three; else the text itself.
unfoldable pub skeleton : Text → Text
unfolding is_vowel
skeleton [] = []
skeleton (c ∷ rest) =
    let short = c ∷ keep_if is_consonant rest in if leb 3 (length short) then short else c ∷ rest

unfoldable pub project_tag : (Text → Text) → Text → Text
unfolding basename is_name_char skeleton is_lower is_upper
project_tag lower cwd =
    let clean = keep_if is_name_char (basename cwd) in
    let letters = keep_if is_letter clean in
    lower (take 3 (skeleton (if leb 2 (length letters) then letters else clean)))

unfoldable pub compose_title : Text → Text → Text
compose_title [] name = name
compose_title (c ∷ tag) name = (c ∷ tag) ++ b'|' ∷ name

-- A tag of at most `n` more characters, its bar, and nothing of what follows.
unfoldable pub after_tag : ℕ → Text → Option Text
unfolding is_name_char
after_tag n [] = none
after_tag zero (c ∷ cs) = if c == b'|' then some cs else none
after_tag (suc n) (c ∷ cs) =
    let rest = after_tag n cs in
    if c == b'|' then some cs else if is_name_char c then rest else none

unfoldable pub one_tag : Text → Option Text
unfolding after_tag is_name_char
one_tag [] = none
one_tag (c ∷ cs) = let rest = after_tag 3 cs in if is_name_char c then rest else none

-- The tags at the front, each with the white space behind it. A tag is two characters or more, so
-- the length is enough fuel.
unfoldable pub drop_tags : ℕ → Text → Text
unfolding one_tag trim_start
drop_tags zero t = t
drop_tags (suc fuel) t = elim (one_tag t) [
  | none ↦ t
  | some rest ↦ drop_tags fuel (trim_start rest)
]

unfoldable pub without_tag : Text → Text
unfolding drop_tags trim_start trim
without_tag title = trim (drop_tags (length title) (trim_start title))
