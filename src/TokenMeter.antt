-- ===== src/TokenMeter.antt =====
-- daemon/src/tokenFlow.ts: the tokens of all chats over the last minute and the last hour. A count
-- of a usage is none where it is no positive number.
pub mod Window
mod Tests
use claude_persist.JsMap
use claude_persist.JsMap.{JsMap}
use claude_persist.Titler.Exchanges.{sort_by}
use claude_persist.Prelude.{
  ℕ, ◌+◌, String, Bool, true, false, not, ◌&&◌, Option, none, some, List, [], ◌∷◌, ◌++◌, length,
  take, keep_if, str_eq, ◌==◌, ltb, leb, if◌then◌else◌,
}

abbrev pub hour : ℕ
hour = 3600000

abbrev pub minute : ℕ
minute = 60000

abbrev pub recent_ms : ℕ
recent_ms = 300000

pub record CallUsage : Type 0 where
  pub input_tokens : Option ℕ
  pub output_tokens : Option ℕ
  pub cache_read_input_tokens : Option ℕ
  pub cache_creation_input_tokens : Option ℕ

pub record TokenCounts : Type 0 where
  pub input : ℕ
  pub cache_write : ℕ
  pub cache_read : ℕ
  pub output : ℕ
  pub processed : ℕ

pub record CountedCall : Type 0 where
  pub at : ℕ
  pub session_id : String
  pub counts : TokenCounts

abbrev num : Option ℕ → ℕ
num none = 0
num (some n) = n

abbrev pub zero_counts : TokenCounts
zero_counts = record { input = 0; cache_write = 0; cache_read = 0; output = 0; processed = 0 }

unfoldable pub add : TokenCounts → TokenCounts → TokenCounts
add into c = record {
  input = into.input + c.input;
  cache_write = into.cache_write + c.cache_write;
  cache_read = into.cache_read + c.cache_read;
  output = into.output + c.output;
  processed = into.processed + c.processed;
}

pub record TokenMeter : Type 0 where
  pub calls : List CountedCall
  pub seen : JsMap ℕ

abbrev pub new_meter : TokenMeter
new_meter = record { calls = []; seen = [] }

unfoldable pub counts_of : CallUsage → TokenCounts
counts_of u =
    let input = num u.input_tokens in
    let cache_write = num u.cache_creation_input_tokens in
    let output = num u.output_tokens in
    record {
      input = input;
      cache_write = cache_write;
      cache_read = num u.cache_read_input_tokens;
      output = output;
      processed = input + cache_write + output;
    }

abbrev is_nothing : TokenCounts → Bool
is_nothing c = c.input + c.cache_write + c.cache_read + c.output == 0

-- `at - when >= HOUR`
unfoldable pub is_past : ℕ → ℕ → Bool
is_past at when = leb (when + hour) at

-- The loop that finds how many calls to drop, with the `splice`.
unfoldable pub drop_past : ℕ → List CountedCall → List CountedCall
drop_past at [] = []
drop_past at (c ∷ calls) =
    let rest = drop_past at calls in if is_past at c.at then rest else c ∷ calls

unfoldable pub prune : ℕ → TokenMeter → TokenMeter
unfolding JsMap.delete_if
prune at m = record { calls = drop_past at m.calls; seen = JsMap.delete_if (is_past at) m.seen }

-- A call of `record`, at the instant that `now` returns.
pub record Report : Type 0 where
  pub at : ℕ
  pub session_id : String
  pub usage : Option CallUsage
  pub message_id : Option String

-- The empty id is falsy.
abbrev is_blank_id : String → Bool
is_blank_id id = str_eq id ""

unfoldable pub is_known : Option String → TokenMeter → Bool
unfolding JsMap.has
is_known none m = false
is_known (some id) m = not (is_blank_id id) && JsMap.has id m.seen

abbrev seen_with : Option String → ℕ → JsMap ℕ → JsMap ℕ
seen_with none at seen = seen
seen_with (some id) at seen = if is_blank_id id then seen else JsMap.set id at seen

unfoldable pub mark_seen : Report → TokenMeter → TokenMeter
unfolding JsMap.set
mark_seen r m = record m { seen = seen_with r.message_id r.at m.seen }

abbrev call_of : Report → CallUsage → Option CountedCall
call_of r u =
    if is_nothing (counts_of u)
    then none
    else some (record { at = r.at; session_id = r.session_id; counts = counts_of u })

-- The call that a report adds: its usage is something, and its message is not yet counted.
unfoldable pub counted : Report → Option CallUsage → TokenMeter → Option CountedCall
unfolding counts_of
counted r none m = none
counted r (some u) m = if is_known r.message_id m then none else call_of r u

abbrev push_call : ℕ → TokenMeter → Option CountedCall → TokenMeter
push_call at m none = m
push_call at m (some c) = prune at (record m { calls = m.calls ++ c ∷ [] })

abbrev recorded : Report → Option CallUsage → TokenMeter → TokenMeter
recorded r none m = m
recorded r (some u) m =
    push_call r.at (if is_known r.message_id m then m else mark_seen r m) (counted r (some u) m)

-- `record`
unfoldable pub record_usage : Report → TokenMeter → TokenMeter
record_usage r m = recorded r r.usage m

unfoldable pub add_all : TokenCounts → List CountedCall → TokenCounts
unfolding add
add_all into [] = into
add_all into (c ∷ calls) = add_all (add into c.counts) calls

-- `at - call.at <= span`
unfoldable pub is_within : ℕ → ℕ → CountedCall → Bool
is_within span at c = leb at (c.at + span)

abbrev or_zero : Option ℕ → ℕ
or_zero none = 0
or_zero (some n) = n

unfoldable pub by_session : List CountedCall → JsMap ℕ → JsMap ℕ
unfolding JsMap.set JsMap.get
by_session [] recent = recent
by_session (c ∷ calls) recent =
    by_session calls
      (JsMap.set c.session_id (or_zero (JsMap.get c.session_id recent) + c.counts.processed) recent)

abbrev is_busier : String × ℕ → String × ℕ → Bool
is_busier (a, m) (b, n) = ltb n m

pub record TokenFlow : Type 0 where
  pub last_minute : TokenCounts
  pub last_hour : TokenCounts
  pub minute_calls : ℕ
  pub hour_calls : ℕ
  pub by_session : List (String × ℕ)

-- The source's one loop, as one pass for each of its sums.
unfoldable pub flow_of : ℕ → List CountedCall → TokenFlow
unfolding add_all is_within by_session sort_by
flow_of at calls = record {
  last_minute = add_all zero_counts (keep_if (is_within minute at) calls);
  last_hour = add_all zero_counts calls;
  minute_calls = length (keep_if (is_within minute at) calls);
  hour_calls = length calls;
  by_session = take 5 (sort_by is_busier (by_session (keep_if (is_within recent_ms at) calls) []));
}

unfoldable pub snapshot : ℕ → TokenMeter → TokenFlow × TokenMeter
snapshot at m = let m' = prune at m in (flow_of at m'.calls, m')
