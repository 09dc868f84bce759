-- ===== src/Titler/Evidence.antt =====
-- daemon/src/titler.ts: what a session is counted to be about: its issue, its branches and its
-- vocabulary. The matches of the patterns in an event are arguments, in their order.
use claude_persist.Limits.{trim}
use claude_persist.Texts.{Text, text_eq, is_empty, is_letter, is_digit, words_of, has_text, pieces}
use claude_persist.Titler.Exchanges.{Role, user, assistant, sort_by}
use claude_persist.Titler.Compose.{last_text}
use claude_persist.Prelude.{
  ℕ, ◌+◌, ◌*◌, Bool, true, false, not, ◌&&◌, ◌||◌, List, [], ◌∷◌, length, take, map, all, keep_if,
  ◌==◌, ltb, leb, if◌then◌else◌,
}

-- A `Map` from texts to numbers, in the order of insertion.
abbrev pub Counts : Type 0
Counts = List (Text × ℕ)

-- `counts.set(w, (counts.get(w) ?? 0) + by)`
unfoldable pub bump : Text → ℕ → Counts → Counts
bump w by [] = (w, by) ∷ []
bump w by ((v, n) ∷ counts) =
    let rest = (v, n) ∷ bump w by counts in if text_eq v w then (v, n + by) ∷ counts else rest

abbrev is_more : Text × ℕ → Text × ℕ → Bool
is_more (v, m) (w, n) = ltb n m

-- `[...counts.entries()].sort((a, b) => b[1] - a[1])`
unfoldable pub ranked : Counts → Counts
unfolding sort_by
ranked counts = sort_by is_more counts

unfoldable pub tally : List Text → Counts → Counts
tally [] counts = counts
tally (w ∷ ws) counts = tally ws (bump w 1 counts)

-- `#n`, `#n+`, or the empty text.
pub data Issue : Type 0 where
  no_issue : Issue
  one_issue : Text → Issue
  many_issues : Text → Issue

abbrev dominant : ℕ → Counts → Bool
dominant best [] = true
dominant best ((w, n) ∷ counts) = leb (n * 2) best

unfoldable pub issue_of : ℕ → Counts → Issue
issue_of least [] = no_issue
issue_of least ((number, n) ∷ counts) =
    if ltb n least
    then no_issue
    else if dominant n counts
    then one_issue number
    else many_issues number

-- `numbers` are the matches in the texts of the events.
unfoldable pub session_issue : List Text → ℕ → Issue
session_issue numbers least = issue_of least (ranked (tally numbers []))

abbrev is_dot : ℕ → Bool
is_dot c = c == b'.'

abbrev is_slash : ℕ → Bool
is_slash c = c == b'/'

abbrev has_range : Text → Bool
has_range [] = false
has_range (c ∷ []) = false
has_range (c ∷ d ∷ cs) = is_dot c && is_dot d || has_range (d ∷ cs)

-- `name.replace(/\.$/, '')`
unfoldable pub drop_dot : Text → Text
drop_dot [] = []
drop_dot (c ∷ []) = if is_dot c then [] else c ∷ []
drop_dot (c ∷ d ∷ cs) = c ∷ drop_dot (d ∷ cs)

abbrev is_joint : ℕ → Bool
is_joint c = c == b'-' || c == b'_' || c == b'.'

-- `.replace(/[-_.]+/g, ' ')`; the Boolean is whether the character before was such a mark.
unfoldable pub joints_to_spaces : Bool → Text → Text
joints_to_spaces before [] = []
joints_to_spaces before (c ∷ cs) =
    let inside = joints_to_spaces true cs in
    let letter = c ∷ joints_to_spaces false cs in
    if is_joint c then (if before then inside else b' ' ∷ inside) else letter

unfoldable pub prose : Text → Text
unfolding joints_to_spaces trim
prose name = trim (joints_to_spaces false name)

-- What the patterns say of a ref: the rest behind `origin/` or `upstream/`, and whether the name or
-- its last part is no branch, a file or an agent's worktree.
pub record RefTests : Type 0 where
  pub without_remote : Text → Text
  pub not_a_branch : Text → Bool
  pub is_file : Text → Bool
  pub is_agent : Text → Bool

module _ (refs : RefTests) where
  abbrev is_dull : Text → Text → Bool
  is_dull name leaf =
      is_empty leaf
      || ltb (length leaf) 4
      || refs.not_a_branch name
      || refs.not_a_branch leaf
      || refs.is_file leaf
      || refs.is_agent leaf

  abbrev bump_leaf : Text → Text → Counts → Counts
  bump_leaf name leaf counts = if is_dull name leaf then counts else bump leaf 1 counts

  unfoldable pub bump_branch : Text → Counts → Counts
  unfolding pieces drop_dot
  bump_branch raw counts =
      if has_range raw
      then counts
      else let name = drop_dot (refs.without_remote raw) in
        bump_leaf name (last_text (pieces is_slash name)) counts

  unfoldable pub bump_branches : List Text → Counts → Counts
  bump_branches [] counts = counts
  bump_branches (raw ∷ raws) counts = bump_branches raws (bump_branch raw counts)

  unfoldable pub session_branches : List Text → ℕ → List Text
  unfolding prose
  session_branches matches limit =
      map (λ entry. prose (entry.0)) (take limit (ranked (bump_branches matches [])))

-- A mention of a word with the weight that its place gives it.
abbrev pub Mention : Type 0
Mention = Text × ℕ

abbrev weight : Role → ℕ
weight user = 3
weight assistant = 1

abbrev weighted : ℕ → List Text → List Mention
weighted by [] = []
weighted by (w ∷ ws) = (w, by) ∷ weighted by ws

-- `[^A-Za-z_-]`
abbrev is_word_break : ℕ → Bool
is_word_break c = not (is_letter c || c == b'_' || c == b'-')

-- The words of a message, cut to 1200 characters.
unfoldable pub message_mentions : Role → Text → List Mention
unfolding words_of
message_mentions role text = weighted (weight role) (words_of is_word_break (take 1200 text))

-- The matches in a tool's input weigh two.
unfoldable pub tool_mentions : List Text → List Mention
tool_mentions matches = weighted 2 matches

-- Counts with the weights, and mentions without.
pub record Vocabulary : Type 0 where
  pub counts : Counts
  pub mentions : Counts

abbrev is_number : Text → Bool
is_number w = all is_digit w

-- `common` is the set NOT_A_SUBJECT.
module _ (lower : Text → Text) (common : List Text) where
  abbrev is_plain : Text → Bool
  is_plain w = ltb (length w) 3 || has_text w common || is_number w

  abbrev bump_known : Text → ℕ → Vocabulary → Vocabulary
  bump_known w by v =
      if is_plain w
      then v
      else record { counts = bump w by v.counts; mentions = bump w 1 v.mentions }

  unfoldable pub bump_words : List Mention → Vocabulary → Vocabulary
  bump_words [] v = v
  bump_words ((word, by) ∷ words) v = bump_words words (bump_known (lower word) by v)

  unfoldable pub count_of : Text → Counts → ℕ
  count_of w [] = 0
  count_of w ((v, n) ∷ counts) = if text_eq v w then n else count_of w counts

  abbrev is_returned_to : Vocabulary → Text × ℕ → Bool
  is_returned_to v (w, n) = leb 2 (count_of w v.mentions)

  -- The words said twice or more, the heaviest first, each with its count.
  unfoldable pub session_vocabulary : List Mention → ℕ → Counts
  session_vocabulary words limit =
      let v = bump_words words (record { counts = []; mentions = [] }) in
      take limit (ranked (keep_if (is_returned_to v) v.counts))
