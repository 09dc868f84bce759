-- ===== src/Limits.antt =====
-- daemon/src/limits.ts: recognising a refused turn and deciding when to try again. Times are
-- milliseconds and utilizations whole percents. A text is the list of its UTF-16 code units; what
-- a regular expression finds in it is an argument.
pub mod Reset
pub mod Plan
mod Tests
use claude_persist.LogStore.{is_space}
use claude_persist.Prelude.{
  ℕ, ◌+◌, ◌-◌, ◌*◌, ◌%◌, Bool, true, false, not, ◌&&◌, ◌||◌, Option, none, some, List, [], ◌∷◌,
  ◌++◌, length, keep_if, any, ◌==◌, ltb, leb, if◌then◌else◌, min, max,
}

abbrev pub max_wait_ms : ℕ
max_wait_ms = 6 * 60 * 60 * 1000

abbrev pub min_wait_ms : ℕ
min_wait_ms = 30000

abbrev pub reset_buffer_ms : ℕ
reset_buffer_ms = 60000

abbrev pub max_attempts : ℕ
max_attempts = 5

abbrev pub stall_ms : ℕ
stall_ms = 20 * 60 * 1000

abbrev pub stall_retry_ms : ℕ
stall_retry_ms = 2 * 60 * 1000

abbrev pub restart_resume_ms : ℕ
restart_resume_ms = 5000

abbrev pub overload_retry_ms : ℕ
overload_retry_ms = 2 * 60 * 1000

abbrev pub max_overload_attempts : ℕ
max_overload_attempts = 360

abbrev pub launch_retry_ms : ℕ
launch_retry_ms = 20000

abbrev pub max_launch_attempts : ℕ
max_launch_attempts = 5

abbrev pub max_notice_length : ℕ
max_notice_length = 300

-- `String.prototype.trim`
unfoldable pub trim_start : List ℕ → List ℕ
unfolding is_space
trim_start [] = []
trim_start (c ∷ cs) = let rest = trim_start cs in if is_space c then rest else c ∷ cs

unfoldable pub trim_end : List ℕ → List ℕ
unfolding is_space
trim_end [] = []
trim_end (c ∷ cs) = elim (trim_end cs) [
  | [] ↦ if is_space c then [] else c ∷ []
  | d ∷ ds ↦ c ∷ d ∷ ds
]

unfoldable pub trim : List ℕ → List ℕ
unfolding trim_start trim_end
trim text = trim_end (trim_start text)

-- The tests share their guard on the trimmed text; `matches` is what their patterns say of it.
module _ (matches : List ℕ → Bool) where
  unfoldable pub is_short_match : List ℕ → Bool
  is_short_match trimmed =
      if length trimmed == 0 || ltb max_notice_length (length trimmed)
      then false
      else matches trimmed

  unfoldable pub is_limit_notice : List ℕ → Bool
  unfolding trim is_short_match
  is_limit_notice text = is_short_match (trim text)

  unfoldable pub is_overload_notice : List ℕ → Bool
  unfolding trim is_short_match
  is_overload_notice text = is_short_match (trim text)

-- `missing` and `failed` are the two patterns of `isLaunchFailure`.
unfoldable pub is_launch_failure : (List ℕ → Bool) → (List ℕ → Bool) → List ℕ → Bool
unfolding trim is_short_match
is_launch_failure missing failed text =
    is_short_match (λ t. if missing t then false else failed t) (trim text)

pub data RateLimitStatus : Type 0 where
  allowed allowed_warning rejected : RateLimitStatus

pub record RateLimitWindow : Type 0 where
  pub utilization : Option ℕ
  pub resets_at : Option ℕ
  pub status : RateLimitStatus

abbrev pub is_rejected : RateLimitWindow → Bool
is_rejected w = elim w.status [ rejected ↦ true | _ ↦ false ]

abbrev at_least : ℕ → Option ℕ → Bool
at_least n none = false
at_least n (some u) = leb n u

-- `windows` are the known ones: `Object.values` of the record.
unfoldable pub windows_look_limited : List RateLimitWindow → Bool
windows_look_limited [] = true
windows_look_limited (w ∷ ws) = any (λ v. is_rejected v || at_least 95 v.utilization) (w ∷ ws)

pub data Meridiem : Type 0 where
  am pm : Meridiem

-- What `/\bresets?\b…/` finds: hour, minute and `am` or `pm`.
pub record ResetMatch : Type 0 where
  pub hour : ℕ
  pub minute : ℕ
  pub meridiem : Option Meridiem

abbrev pub day_ms : ℕ
day_ms = 24 * 60 * 60 * 1000

-- `hour` after the two tests of the meridiem.
unfoldable pub hour_of : ResetMatch → ℕ
hour_of found = elim found.meridiem [
  | none ↦ found.hour
  | some pm ↦ if ltb found.hour 12 then found.hour + 12 else found.hour
  | some am ↦ if found.hour == 12 then 0 else found.hour
]

-- `at.setUTCHours(hour, minute, 0, 0)` puts the time of day behind the start of the UTC day.
unfoldable pub set_utc_hours : ℕ → ℕ → ℕ → ℕ
set_utc_hours now hour minute = now - now % day_ms + (hour * 60 + minute) * 60000

-- `names_utc` is the answer of the first expression, `found` that of the second.
unfoldable pub parse_reset_time : Bool → Option ResetMatch → ℕ → Option ℕ
unfolding hour_of set_utc_hours
parse_reset_time names_utc none now = none
parse_reset_time names_utc (some found) now =
    if not names_utc || ltb 59 found.minute || ltb 23 (hour_of found)
    then none
    else let at = set_utc_hours now (hour_of found) found.minute in
      some (if leb at now then at + day_ms else at)

-- The entry of `ladder` for the attempts, the last one past its end and for none.
unfoldable pub backoff_ms : ℕ → ℕ
backoff_ms attempts =
    if attempts == 1
    then 5 * 60000
    else if attempts == 2
    then 15 * 60000
    else if attempts == 3
    then 30 * 60000
    else 60 * 60000

-- The loop of `spreadMs` over the code units of the id.
unfoldable pub hash_units : ℕ → List ℕ → ℕ
hash_units hash [] = hash
hash_units hash (c ∷ cs) = hash_units ((hash * 31 + c) % 1000003) cs

unfoldable pub spread_ms : List ℕ → ℕ → ℕ
unfolding hash_units
spread_ms session_id window_ms = hash_units 0 session_id % window_ms

pub data Source : Type 0 where
  window text backoff : Source

pub record RetryPlan : Type 0 where
  pub at : ℕ
  pub source : Source

-- `resets`: the known resets that lie ahead, of all windows or of the rejected ones.
unfoldable pub resets_ahead : ℕ → List RateLimitWindow → List ℕ
resets_ahead now [] = []
resets_ahead now (w ∷ ws) =
    let rest = resets_ahead now ws in
    elim w.resets_at [ none ↦ rest | some at ↦ if ltb now at then at ∷ rest else rest ]

unfoldable pub least : List ℕ → Option ℕ
least [] = none
least (x ∷ xs) = let rest = least xs in elim rest [ none ↦ some x | some y ↦ some (min x y) ]

unfoldable pub soonest_reset : ℕ → List RateLimitWindow → Option ℕ
unfolding resets_ahead least
soonest_reset now windows = elim (least (resets_ahead now (keep_if is_rejected windows))) [
  | some at ↦ some at
  | none ↦ least (resets_ahead now windows)
]

-- `Math.min`, then `Math.max`.
unfoldable pub clamp_wait : ℕ → ℕ → ℕ
clamp_wait now at = max (min at (now + max_wait_ms)) (now + min_wait_ms)

unfoldable pub planned_at : Option ℕ → Option ℕ → ℕ → ℕ → ℕ × Source
unfolding backoff_ms
planned_at (some reset) parsed now attempts = (reset + reset_buffer_ms, window)
planned_at none (some at) now attempts = (at + reset_buffer_ms, text)
planned_at none none now attempts = (now + backoff_ms attempts, backoff)

-- `parsed` is `parseResetTime(text, now)`.
unfoldable pub plan_retry : List RateLimitWindow → Option ℕ → ℕ → ℕ → List ℕ → RetryPlan
unfolding soonest_reset planned_at spread_ms clamp_wait
plan_retry windows parsed now attempts session_id =
    let (at, source) = planned_at (soonest_reset now windows) parsed now attempts in
    record { at = clamp_wait now (at + spread_ms session_id 60000); source = source }
