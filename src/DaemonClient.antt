-- ===== src/DaemonClient.antt =====
-- extension/src/daemonClient.ts: the order of versions, and why a running daemon needs replacing.
-- The words of a reason are left out; whether a file exists is an argument.
pub mod Verify
pub mod Requests
pub mod Order
mod Builds
mod Newest
mod Attempts
mod Tests
pub use Prim.Native.Nat.Ordering.{lt, eq, gt}
use Prim.Native.Nat.{compare, Ordering}
use claude_persist.Limits.{trim_start}
use claude_persist.Texts.{Text, is_empty, is_digit, pieces}
use claude_persist.Prelude.{
  ℕ, zero, suc, ◌+◌, ◌-◌, ◌*◌, Bool, true, false, not, ◌&&◌, Option, none, some, List, [], ◌∷◌, map,
  ◌==◌, if◌then◌else◌,
}

pub data ℤ : Type 0 where
  pos : ℕ → ℤ
  negsuc : ℕ → ℤ

abbrev pub Order : Type 0
Order = Ordering

-- The digits at the start of a text, behind those that make `n`.
unfoldable pub number_at : Option ℕ → Text → Option ℕ
unfolding is_digit
number_at n [] = n
number_at none (c ∷ cs) =
    let more = number_at (some (c - b'0')) cs in if is_digit c then more else none
number_at (some n) (c ∷ cs) =
    let more = number_at (some (n * 10 + (c - b'0'))) cs in if is_digit c then more else some n

abbrev negative : Option ℕ → Option ℤ
negative none = none
negative (some zero) = some (pos 0)
negative (some (suc n)) = some (negsuc n)

abbrev positive : Option ℕ → Option ℤ
positive none = none
positive (some n) = some (pos n)

-- `Number.parseInt(…, 10)`, with `NaN` as `none`.
unfoldable pub parse_int : Text → Option ℤ
unfolding trim_start number_at
parse_int t = elim (trim_start t) [
  | [] ↦ none
  | c ∷ cs ↦
      if c == b'-'
      then negative (number_at none cs)
      else if c == b'+'
      then positive (number_at none cs)
      else positive (number_at none (c ∷ cs))
]

abbrev or_zero : Option ℤ → ℤ
or_zero none = pos 0
or_zero (some i) = i

abbrev is_dot : ℕ → Bool
is_dot c = c == b'.'

unfoldable pub parts : Text → List ℤ
unfolding pieces parse_int
parts v = map (λ t. or_zero (parse_int t)) (pieces is_dot v)

-- The sign of the difference.
abbrev pub sign_of : ℤ → ℤ → Order
sign_of (pos m) (pos n) = compare m n
sign_of (pos m) (negsuc n) = gt
sign_of (negsuc m) (pos n) = lt
sign_of (negsuc m) (negsuc n) = compare n m

abbrev pub first_of : Order → Order → Order
first_of eq later = later
first_of lt later = lt
first_of gt later = gt

-- A round for each part of the longer one; a missing part is zero.
unfoldable pub compare_parts : List ℤ → List ℤ → Order
compare_parts [] [] = eq
compare_parts [] (y ∷ ys) = first_of (sign_of (pos 0) y) (compare_parts [] ys)
compare_parts (x ∷ xs) [] = first_of (sign_of x (pos 0)) (compare_parts xs [])
compare_parts (x ∷ xs) (y ∷ ys) = first_of (sign_of x y) (compare_parts xs ys)

unfoldable pub compare_versions : Text → Text → Order
unfolding compare_parts parts
compare_versions a b = compare_parts (parts a) (parts b)

pub record HelloResult : Type 0 where
  protocol_version : ℕ
  pid : ℕ
  entry : Text
  version : Option Text

pub data StaleReason : Type 0 where
  other_protocol : ℕ → ℕ → StaleReason
  deleted_install : Text → StaleReason
  older_build : Text → Text → StaleReason

pub record Staleness : Type 0 where
  reason : StaleReason
  urgent : Bool

abbrev stale : StaleReason → Bool → Option Staleness
stale reason urgent = some (record { reason = reason; urgent = urgent })

abbrev is_lt : Order → Bool
is_lt lt = true
is_lt eq = false
is_lt gt = false

-- Both are given and not empty, and the first is older.
unfoldable pub older_build_of : Option Text → Option Text → Option Staleness
older_build_of none ours = none
older_build_of (some v) none = none
older_build_of (some v) (some ours) =
    if not (is_empty ours) && (not (is_empty v) && is_lt (compare_versions v ours))
    then stale (older_build v ours) false
    else none

unfoldable pub staleness_of : (Text → Bool) → HelloResult → ℕ → Option Text → Option Staleness
staleness_of exists info expected_protocol our_version =
    if not (info.protocol_version == expected_protocol)
    then stale (other_protocol info.protocol_version expected_protocol) true
    else if not (is_empty info.entry) && not (exists info.entry)
    then stale (deleted_install info.entry) true
    else older_build_of info.version our_version
