-- ===== src/LogStore.antt =====
-- daemon/src/logStore.ts: a session's transcript on disk, read line by line. A file is its bytes.
-- `decode` and `json` stand for Node's UTF-8 decoder and for `JSON.parse` inside its `try`.
pub mod Lines
pub mod Reads
pub mod Range
pub mod Disk
use claude_persist.Prelude.{
  ℕ, zero, suc, ◌+◌, ◌≤◌, ◌<◌, ◌≡◌, refl, Bool, true, false, not, ◌&&◌, ◌||◌, Option, none, some,
  List, [], ◌∷◌, ◌++◌, length, map, arith, ltb, leb, ◌==◌, all, if◌then◌else◌, drop,
}

-- Events per generation before the active log is rotated.
abbrev pub rotate_threshold : ℕ
rotate_threshold = 2000

-- The white space and line ends that `String.prototype.trim` takes off.
unfoldable pub is_space : ℕ → Bool
is_space c =
    (leb 9 c && leb c 13)
    || c == 0x20
    || c == 0xa0
    || c == 0x1680
    || (leb 0x2000 c && leb c 0x200a)
    || c == 0x2028
    || c == 0x2029
    || c == 0x202f
    || c == 0x205f
    || c == 0x3000
    || c == 0xfeff

-- `!line.trim()`
unfoldable pub is_blank : List ℕ → Bool
unfolding is_space
is_blank = all is_space

abbrev pub push_front : ℕ → Option (List ℕ × List ℕ) → Option (List ℕ × List ℕ)
push_front b none = none
push_front b (some (line, rest)) = some (b ∷ line, rest)

-- `carry.indexOf(0x0a)`, with the two `subarray` calls on the index that it finds.
unfoldable pub cut_line : List ℕ → Option (List ℕ × List ℕ)
cut_line [] = none
cut_line (b ∷ bs) =
    let later = push_front b (cut_line bs) in if b == 0x0a then some ([], bs) else later

-- Not `carry.length > 0` and `line.trim()`.
unfoldable pub is_dropped : (List ℕ → List ℕ) → List ℕ → Bool
unfolding is_blank
is_dropped decode [] = true
is_dropped decode (b ∷ bs) = is_blank (decode (b ∷ bs))

pub record Reading {ℓ} (S : Type ℓ) : Type ℓ where
  pub state : S
  pub carry : List ℕ
  pub stopped : Bool

-- `on_line` is the callback, over the variables that it changes; its Bool is false where the
-- callback returns `false`, to stop reading.
module _ {ℓ} {S : Type ℓ} (decode : List ℕ → List ℕ) (on_line : S → List ℕ → S × Bool) where
  -- The inner `while`: each round takes a line off `carry`, so its length is enough fuel.
  pub drain : ℕ → S → List ℕ → Reading S
  drain zero s carry = record { state = s; carry = carry; stopped = false }
  drain (suc fuel) s carry = elim (cut_line carry) [
    | none ↦ record { state = s; carry = carry; stopped = false }
    | some (line, rest) ↦
        let (s', more) = on_line s (decode line) in
        elim more [
          | true ↦ drain fuel s' rest
          | false ↦ record { state = s'; carry = rest; stopped = true }
        ]
  ]

  -- The outer loop, over what the calls of `readSync` return until one returns nothing.
  pub read_chunks : S → List ℕ → List (List ℕ) → Reading S
  read_chunks s carry [] = record { state = s; carry = carry; stopped = false }
  read_chunks s carry (chunk ∷ chunks) =
      let r = drain (length (carry ++ chunk)) s (carry ++ chunk) in
      elim r.stopped [ true ↦ r | false ↦ read_chunks r.state r.carry chunks ]

  -- The rest without a newline is a line, if there is more than white space in it.
  unfoldable pub last_line : Reading S → S
  unfolding is_dropped
  last_line r =
      if r.stopped || is_dropped decode r.carry
      then r.state
      else (on_line r.state (decode r.carry)).0

  unfoldable pub read_lines : S → List (List ℕ) → S
  unfolding drain read_chunks last_line cut_line
  read_lines s chunks = last_line (read_chunks s [] chunks)

-- `tail.push(event); if (tail.length > max) tail.shift()`
unfoldable pub push_capped {ℓ} : {A : Type ℓ} → ℕ → List A → A → List A
push_capped cap tail event =
    if ltb cap (length (tail ++ event ∷ []))
    then drop 1 (tail ++ event ∷ [])
    else tail ++ event ∷ []

pub record TailAndCount {ℓ} (Event : Type ℓ) : Type ℓ where
  pub tail : List Event
  pub count : ℕ
  pub per_file : List ℕ

-- `tail` and `count`, with the `fileCount` of the file that is read.
pub record Counting {ℓ} (Event : Type ℓ) : Type ℓ where
  pub tail : List Event
  pub count : ℕ
  pub file_count : ℕ

pub record Ranging {ℓ} (Event : Type ℓ) : Type ℓ where
  pub out : List Event
  pub idx : ℕ

-- A file is what the reads of it return, piece by piece; a missing file has none.
abbrev pub LogFile : Type 0
LogFile = List (List ℕ)

module _ {ℓ} {Event : Type ℓ} (json : List ℕ → Option Event) where
  unfoldable pub parse_line : List ℕ → Option Event
  unfolding is_blank
  parse_line line = if is_blank line then none else json line

  -- The callback of `loadTailAndCount`.
  unfoldable pub count_line : ℕ → Counting Event → List ℕ → Counting Event × Bool
  unfolding parse_line push_capped
  count_line max_tail s line = elim (parse_line line) [
    | none ↦ (s, true)
    | some event ↦ (
      record {
        tail = push_capped max_tail s.tail event;
        count = s.count + 1;
        file_count = s.file_count + 1;
      },
      true,
    )
  ]

  -- The callback of `readRange`.
  unfoldable pub range_line : ℕ → ℕ → Ranging Event → List ℕ → Ranging Event × Bool
  unfolding parse_line
  range_line start stop s line = elim (parse_line line) [
    | none ↦ (s, true)
    | some event ↦ (
      record { out = if leb start s.idx then s.out ++ event ∷ [] else s.out; idx = s.idx + 1 },
      not (leb stop (s.idx + 1)),
    )
  ]

  module _ (decode : List ℕ → List ℕ) where
    unfoldable pub load_files : ℕ → TailAndCount Event → List LogFile → TailAndCount Event
    unfolding read_lines count_line
    load_files max_tail s [] = s
    load_files max_tail s (file ∷ files) =
        let r =
          read_lines decode (count_line max_tail)
            (record { tail = s.tail; count = s.count; file_count = 0 }) file in
        load_files max_tail
          (record { tail = r.tail; count = r.count; per_file = s.per_file ++ r.file_count ∷ [] })
          files

    unfoldable pub load_tail_and_count : List LogFile → ℕ → TailAndCount Event
    unfolding load_files
    load_tail_and_count files max_tail =
        load_files max_tail (record { tail = []; count = 0; per_file = [] }) files

    unfoldable pub range_files : ℕ → ℕ → Ranging Event → List LogFile → Ranging Event
    unfolding read_lines range_line
    range_files start stop s [] = s
    range_files start stop s (file ∷ files) =
        let rest =
          range_files start stop (read_lines decode (range_line start stop) s file) files in
        if leb stop s.idx then s else rest

    unfoldable pub read_range : List LogFile → ℕ → ℕ → List Event
    unfolding range_files
    read_range files start stop = (range_files start stop (record { out = []; idx = 0 }) files).out
