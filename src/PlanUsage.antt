-- ===== src/PlanUsage.antt =====
-- daemon/src/usage.ts and daemon/src/accountUsage.ts: the plan usage, merged from two sources that
-- each report half of it, and the last reading of each account. `Date.parse` is an argument; what
-- is read of an unknown value is none where it is not of the type that is asked for.
pub mod Kept
mod Tests
use claude_persist.JsMap
use claude_persist.JsMap.{JsMap}
use claude_persist.Limits.{RateLimitWindow, RateLimitStatus, allowed}
use claude_persist.Prelude.{
  ℕ, ◌*◌, String, Bool, not, Option, none, some, List, [], ◌∷◌, ◌==◌, ltb, if◌then◌else◌,
}

pub data WindowKind : Type 0 where
  five_hour : WindowKind
  seven_day : WindowKind
  seven_day_opus : WindowKind
  seven_day_sonnet : WindowKind
  seven_day_overage_included : WindowKind
  overage : WindowKind

-- The order of the windows in the source's lists.
abbrev pub kinds : List WindowKind
kinds =
    five_hour ∷ seven_day ∷ seven_day_opus ∷ seven_day_sonnet ∷ seven_day_overage_included ∷ overage
    ∷ []

abbrev index_of : WindowKind → ℕ
index_of five_hour = 0
index_of seven_day = 1
index_of seven_day_opus = 2
index_of seven_day_sonnet = 3
index_of seven_day_overage_included = 4
index_of overage = 5

abbrev pub same_kind : WindowKind → WindowKind → Bool
same_kind a b = index_of a == index_of b

abbrev pub RateLimits : Type 0
RateLimits = WindowKind → Option RateLimitWindow

unfoldable pub with_window : WindowKind → RateLimitWindow → RateLimits → RateLimits
with_window kind w windows k = if same_kind kind k then some w else windows k

-- 10 ^ 11
abbrev pub epoch_ms_floor : ℕ
epoch_ms_floor = 100000000000

-- An instant as it is reported: a number, or a text.
pub data Instant : Type 0 where
  number : ℕ → Instant
  text : String → Instant

abbrev pub first_known {ℓ} : {A : Type ℓ} → Option A → Option A → Option A
first_known none b = b
first_known (some a) b = some a

-- `rate_limit_event`: the kind if it is known, and the status if it is one.
pub record RateLimitInfo : Type 0 where
  pub kind : Option WindowKind
  pub status : Option RateLimitStatus
  pub utilization : Option ℕ
  pub resets_at : Option Instant

abbrev utilization_of : Option RateLimitWindow → Option ℕ
utilization_of none = none
utilization_of (some w) = w.utilization

abbrev resets_of : Option RateLimitWindow → Option ℕ
resets_of none = none
resets_of (some w) = w.resets_at

abbrev status_of : Option RateLimitWindow → RateLimitStatus
status_of none = allowed
status_of (some w) = w.status

abbrev or_allowed : Option RateLimitStatus → RateLimitStatus
or_allowed none = allowed
or_allowed (some s) = s

pub record WindowReading : Type 0 where
  pub utilization : Option ℕ
  pub resets_at : Option Instant

pub record UsageSnapshot : Type 0 where
  pub windows : RateLimits
  pub subscription_type : Option String
  pub available : Bool

-- `subscription_type` is none where it is neither a text nor null; `rate_limits` is empty where
-- it is no object.
pub record UsageResponse : Type 0 where
  pub subscription_type : Option (Option String)
  pub rate_limits_available : Option Bool
  pub rate_limits : List (Option WindowKind × Option WindowReading)

abbrev given {ℓ} : {A : Type ℓ} → Option A → A → A
given none a = a
given (some b) a = b

module _ (parse_date : String → Option ℕ) where
  unfoldable pub to_epoch_ms : Option Instant → Option ℕ
  to_epoch_ms none = none
  to_epoch_ms (some (number n)) = some (if ltb n epoch_ms_floor then n * 1000 else n)
  to_epoch_ms (some (text t)) = parse_date t

  unfoldable pub event_window : RateLimitInfo → Option RateLimitWindow → RateLimitWindow
  event_window info previous = record {
    utilization = first_known info.utilization (utilization_of previous);
    resets_at = first_known (to_epoch_ms info.resets_at) (resets_of previous);
    status = or_allowed info.status;
  }

  abbrev apply_to : RateLimits → RateLimitInfo → Option WindowKind → RateLimits
  apply_to windows info none = windows
  apply_to windows info (some kind) = with_window kind (event_window info (windows kind)) windows

  unfoldable pub apply_rate_limit_event : RateLimits → RateLimitInfo → RateLimits
  apply_rate_limit_event windows info = apply_to windows info info.kind

  unfoldable pub response_window : WindowReading → Option RateLimitWindow → RateLimitWindow
  response_window reading before = record {
    utilization = first_known reading.utilization (utilization_of before);
    resets_at = first_known (to_epoch_ms reading.resets_at) (resets_of before);
    status = status_of before;
  }

  abbrev fold_entry : Option WindowKind → Option WindowReading → RateLimits → RateLimits
  fold_entry none reading windows = windows
  fold_entry (some kind) none windows = windows
  fold_entry (some kind) (some reading) windows =
      with_window kind (response_window reading (windows kind)) windows

  -- The loop over the entries: a kind that is not known, or no object, is passed over.
  unfoldable pub fold_entries :
      List (Option WindowKind × Option WindowReading) → RateLimits → RateLimits
  fold_entries [] windows = windows
  fold_entries ((kind, reading) ∷ entries) windows =
      fold_entries entries (fold_entry kind reading windows)

  unfoldable pub apply_usage_response : UsageSnapshot → UsageResponse → UsageSnapshot
  apply_usage_response previous usage = record {
    windows = fold_entries usage.rate_limits previous.windows;
    subscription_type = given usage.subscription_type previous.subscription_type;
    available = given usage.rate_limits_available previous.available;
  }

pub record AccountReading : Type 0 where
  pub windows : RateLimits
  pub at : ℕ

abbrev windows_of : Option AccountReading → Option RateLimits
windows_of none = none
windows_of (some r) = some r.windows

-- `same` compares the JSON of two sets of windows; the Boolean says whether they changed, and then
-- the readings are written to their file.
unfoldable pub record_reading :
    (Option RateLimits → RateLimits → Bool)
    → String
    → RateLimits
    → ℕ
    → JsMap AccountReading
    → Bool × JsMap AccountReading
unfolding JsMap.set JsMap.get
record_reading same key windows now readings = (
  not (same (windows_of (JsMap.get key readings)) windows),
  JsMap.set key (record { windows = windows; at = now }) readings,
)
