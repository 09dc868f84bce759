-- ===== src/Titler/Clean.antt =====
-- daemon/src/titler.ts: the cleaning of the namer's answer, `cleanTitle` and `tidyName`.
use claude_persist.Titler.Compose.{max_name_chars, max_title_words, without_tag}
use claude_persist.LogStore.{is_space}
use claude_persist.Limits.{trim_start, trim}
use claude_persist.Texts.{
  Text, codes, text_eq, is_empty, is_alnum, is_lower, pieces, words_of, has_text,
}
use claude_persist.Titler.Names.{stem}
use claude_persist.Prelude.{
  ℕ, ◌+◌, Bool, true, false, not, ◌&&◌, ◌||◌, Option, none, some, List, [], ◌∷◌, ◌++◌, map, length,
  take, drop, keep_if, ◌==◌, ltb, leb, if◌then◌else◌,
}

-- The first line that is more than white space, trimmed.
unfoldable pub first_line : List Text → Option Text
unfolding trim
first_line [] = none
first_line (l ∷ lines) =
    let later = first_line lines in if is_empty (trim l) then later else some (trim l)

abbrev is_newline : ℕ → Bool
is_newline c = c == 0x0a

-- The letters of `word`, which are small, in either case, at the front.
unfoldable pub after_letters : Text → Text → Option Text
after_letters [] t = some t
after_letters (w ∷ ws) [] = none
after_letters (w ∷ ws) (c ∷ cs) =
    let rest = after_letters ws cs in if c == w || c + 32 == w then rest else none

-- `\s*[:\-]\s*`
unfoldable pub after_mark : Text → Option Text
unfolding trim_start
after_mark [] = none
after_mark (c ∷ cs) = if c == b':' || c == b'-' then some (trim_start cs) else none

abbrev marked : Option Text → Option Text
marked none = none
marked (some t) = after_mark (trim_start t)

abbrev first_of : Text → Option Text → Option Text → Text
first_of t none none = t
first_of t none (some b) = b
first_of t (some a) b = a

-- `.replace(/^(?:title|name)\s*[:\-]\s*/i, '')`
unfoldable pub without_label : Text → Text
unfolding after_letters after_mark trim_start
without_label t =
    first_of t (marked (after_letters (codes "title") t)) (marked (after_letters (codes "name") t))

unfoldable pub is_quote : ℕ → Bool
is_quote c =
    c == 0x22 || c == 0x27 || c == 0x60 || c == 0x201c || c == 0x201d || c == 0x2018 || c == 0x2019

unfoldable pub drop_front : (ℕ → Bool) → Text → Text
drop_front p [] = []
drop_front p (c ∷ cs) = let rest = drop_front p cs in if p c then rest else c ∷ cs

unfoldable pub drop_back : (ℕ → Bool) → Text → Text
drop_back p [] = []
drop_back p (c ∷ cs) = elim (drop_back p cs) [
  | [] ↦ if p c then [] else c ∷ []
  | d ∷ ds ↦ c ∷ d ∷ ds
]

-- `.replace(/\s+/g, ' ')`; the Boolean is whether the character before was white space.
unfoldable pub single_spaces : Bool → Text → Text
unfolding is_space
single_spaces before [] = []
single_spaces before (c ∷ cs) =
    let inside = single_spaces true cs in
    let word = c ∷ single_spaces false cs in
    if is_space c then (if before then inside else b' ' ∷ inside) else word

unfoldable pub is_stop : ℕ → Bool
is_stop c = c == b'.' || c == b'!'

unfoldable pub stripped : Text → Text
unfolding without_label without_tag drop_front drop_back is_quote single_spaces is_stop trim
stripped line = trim (
    drop_back is_stop (
      single_spaces false
        (drop_back is_quote (drop_front is_quote (without_tag (without_label line))))))

-- The text before its last space.
unfoldable pub before_last_space : Text → Option Text
before_last_space [] = none
before_last_space (c ∷ cs) = elim (before_last_space cs) [
  | none ↦ if c == b' ' then some [] else none
  | some front ↦ some (c ∷ front)
]

-- The whole words of a text that was cut; without a space after the first character, all of it.
abbrev whole_words : Text → Option Text → Text
whole_words cut none = cut
whole_words cut (some []) = cut
whole_words cut (some (c ∷ cs)) = c ∷ cs

unfoldable pub is_loose : ℕ → Bool
is_loose c = c == b',' || c == b';' || c == b':' || c == b'-'

-- `.replace(/[,;:-]$/, '')`
unfoldable pub drop_loose : Text → Text
unfolding is_loose
drop_loose [] = []
drop_loose (c ∷ []) = if is_loose c then [] else c ∷ []
drop_loose (c ∷ d ∷ cs) = c ∷ drop_loose (d ∷ cs)

unfoldable pub shortened : Text → Text
unfolding before_last_space drop_loose trim
shortened t =
    let cut = take max_name_chars t in trim (drop_loose (whole_words cut (before_last_space cut)))

abbrev is_gap : ℕ → Bool
is_gap c = c == b' '

-- `is_reply` is what NOT_A_TITLE says: whether the text opens like a reply.
unfoldable pub checked : (Text → Bool) → Text → Option Text
unfolding pieces shortened
checked is_reply t =
    if is_empty t
    then none
    else if ltb max_title_words (length (pieces is_gap t))
    then none
    else if is_reply t
    then none
    else if leb (length t) max_name_chars
    then some t
    else some (shortened t)

abbrev cleaned : (Text → Bool) → Option Text → Option Text
cleaned is_reply none = none
cleaned is_reply (some line) = checked is_reply (stripped line)

unfoldable pub clean_title : (Text → Bool) → Text → Option Text
unfolding first_line pieces checked stripped
clean_title is_reply raw = cleaned is_reply (first_line (pieces is_newline raw))

abbrev pub filler : List Text
filler = map codes (
    "work" ∷ "works" ∷ "working" ∷ "fix" ∷ "fixes" ∷ "fixing" ∷ "issue" ∷ "issues" ∷ "task"
    ∷ "tasks" ∷ "testing" ∷ "tests" ∷ "test" ∷ "update" ∷ "updates" ∷ "updating" ∷ "change"
    ∷ "changes" ∷ "review" ∷ "reviewing" ∷ "improvement" ∷ "improvements" ∷ "refactor"
    ∷ "refactoring" ∷ "implementation" ∷ "implementing" ∷ "support" ∷ "session" ∷ "conversation"
    ∷ "debug" ∷ "debugging" ∷ "investigation" ∷ "stuff" ∷ [])

-- Each underscore on its own: the split that follows takes runs.
abbrev underscore_space : ℕ → ℕ
underscore_space c = if c == b'_' then b' ' else c

abbrev is_not_lower : ℕ → Bool
is_not_lower c = not (is_lower c)

abbrev is_over_two : Text → Bool
is_over_two w = ltb 2 (length w)

module _ (lower upper : Text → Text) where
  unfoldable pub project_stems : Text → List Text
  unfolding words_of is_lower stem
  project_stems project =
      map (stem lower) (keep_if is_over_two (words_of is_not_lower (lower project)))

  -- The word lower, its first character upper where it is the first word.
  unfoldable pub cased : Bool → Text → Text
  unfolding text_eq
  cased is_first w =
      if text_eq w (upper w)
      then w
      else if is_first
      then upper (take 1 (lower w)) ++ drop 1 (lower w)
      else lower w

  -- The words after the first, each behind a space.
  unfoldable pub cased_rest : List Text → Text
  unfolding cased
  cased_rest [] = []
  cased_rest (w ∷ ws) = b' ' ∷ (cased false w ++ cased_rest ws)

  unfoldable pub sentence_case : List Text → Option Text
  unfolding cased cased_rest
  sentence_case [] = none
  sentence_case (w ∷ ws) = some (cased true w ++ cased_rest ws)

  unfoldable pub is_foreign : List Text → Text → Bool
  unfolding has_text stem
  is_foreign stems w = not (has_text (stem lower w) stems)

  unfoldable pub is_telling : List Text → Text → Bool
  unfolding has_text is_foreign is_alnum
  is_telling stems w =
      let bare = keep_if is_alnum (lower w) in
      not (is_empty bare) && not (has_text bare filler) && is_foreign stems w

  unfoldable pub tidied : List Text → List Text → List Text → Option Text
  unfolding sentence_case is_foreign
  tidied stems words [] = none
  tidied stems words (w ∷ kept) =
      if is_empty kept && leb 2 (length words)
      then sentence_case (keep_if (is_foreign stems) words)
      else sentence_case (w ∷ kept)

  unfoldable pub tidy_name : Text → Text → Option Text
  unfolding project_stems words_of is_space is_telling tidied
  tidy_name name project =
      let stems = project_stems project in
      let words = words_of is_space (map underscore_space name) in
      tidied stems words (keep_if (is_telling stems) words)
