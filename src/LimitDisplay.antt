-- ===== src/LimitDisplay.antt =====
-- extension/src/rateLimits.ts: the limit that is shown. A text that is shown is given by its parts;
-- a utilization is a whole percent, so that `Math.round` leaves it.
pub mod Next
mod Tests
use claude_persist.Limits.{RateLimitStatus, allowed, allowed_warning, rejected}
use claude_persist.PlanUsage.{WindowKind, kinds, Instant, to_epoch_ms}
use claude_persist.Prelude.{
  ℕ, ◌+◌, ◌-◌, ◌*◌, ◌/◌, ◌%◌, String, Bool, true, false, not, ◌&&◌, ◌||◌, Option, none, some, List,
  [], ◌∷◌, ◌==◌, ltb, leb, if◌then◌else◌,
}

pub record RawWindow : Type 0 where
  pub utilization : Option ℕ
  pub resets_at : Option Instant
  pub status : Option RateLimitStatus

abbrev pub RawWindows : Type 0
RawWindows = WindowKind → Option RawWindow

pub record NextLimit : Type 0 where
  pub kind : WindowKind
  pub utilization : ℕ
  pub resets_at_ms : Option ℕ
  pub status : RateLimitStatus

abbrev or_allowed : Option RateLimitStatus → RateLimitStatus
or_allowed none = allowed
or_allowed (some s) = s

abbrev is_allowed : RateLimitStatus → Bool
is_allowed allowed = true
is_allowed s = false

-- A null reset never wins a tie against a known one.
unfoldable pub resets_sooner : Option ℕ → Option ℕ → Bool
resets_sooner none b = false
resets_sooner (some a) none = true
resets_sooner (some a) (some b) = ltb a b

unfoldable pub beats : NextLimit → NextLimit → Bool
unfolding resets_sooner
beats a b =
    ltb b.utilization a.utilization
    || a.utilization == b.utilization && resets_sooner a.resets_at_ms b.resets_at_ms

abbrev better : NextLimit → Option NextLimit → Option NextLimit
better c none = some c
better c (some best) = if beats c best then some c else some best

abbrev better_of : Option NextLimit → Option NextLimit → Option NextLimit
better_of none best = best
better_of (some c) best = better c best

-- `15` and so on of a reset, as text is built from them.
pub data RelativeReset : Type 0 where
  unknown : RelativeReset
  any_moment : RelativeReset
  days_hours : ℕ → ℕ → RelativeReset
  days : ℕ → RelativeReset
  hours_minutes : ℕ → ℕ → RelativeReset
  hours : ℕ → RelativeReset
  minutes : ℕ → RelativeReset

-- `Math.round(ms / unit)`
abbrev rounded : ℕ → ℕ → ℕ
rounded ms unit = (ms + unit / 2) / unit

abbrev of_minutes : ℕ → RelativeReset
of_minutes total =
    let h = total / 60 in
    let m = total % 60 in
    if leb 24 h
    then (if ltb 0 (h % 24) then days_hours (h / 24) (h % 24) else days (h / 24))
    else if ltb 0 h && ltb 0 m
    then hours_minutes h m
    else if ltb 0 h
    then hours h
    else minutes m

unfoldable pub format_relative_reset : Option ℕ → ℕ → RelativeReset
format_relative_reset none now = unknown
format_relative_reset (some at) now =
    if leb at now then any_moment else of_minutes (rounded (at - now) 60000)

pub data Age : Type 0 where
  just_now : Age
  minutes_ago : ℕ → Age
  hours_ago : ℕ → Age
  days_ago : ℕ → Age

unfoldable pub format_age : ℕ → ℕ → Age
format_age at now =
    let m = rounded (now - at) 60000 in
    let h = rounded m 60 in
    if ltb m 2
    then just_now
    else if ltb m 60
    then minutes_ago m
    else if ltb h 24
    then hours_ago h
    else days_ago (rounded h 24)

pub data Severity : Type 0 where
  normal : Severity
  warning : Severity
  error : Severity

abbrev was_rejected : RateLimitStatus → Bool
was_rejected rejected = true
was_rejected s = false

abbrev is_warning : RateLimitStatus → Bool
is_warning allowed_warning = true
is_warning s = false

unfoldable pub severity_for : Option NextLimit → Severity
severity_for none = normal
severity_for (some next) =
    if was_rejected next.status || leb 90 next.utilization
    then error
    else if is_warning next.status || leb 75 next.utilization
    then warning
    else normal

-- What the status bar says: its default, a percentage, a status or a reset.
pub data BarText : Type 0 where
  default_text : BarText
  percent : WindowKind → ℕ → BarText
  status_text : WindowKind → RateLimitStatus → BarText
  reset_text : WindowKind → RateLimitStatus → RelativeReset → BarText

unfoldable pub format_status_bar_text : Option NextLimit → BarText
format_status_bar_text none = default_text
format_status_bar_text (some next) = percent next.kind next.utilization

-- A line of the tooltip: the window, its percentage and its reset.
pub record TooltipLine : Type 0 where
  pub kind : WindowKind
  pub percentage : ℕ
  pub reset : RelativeReset

pub record AccountLimits : Type 0 where
  pub windows : RawWindows
  pub at : ℕ

module _ (parse_date : String → Option ℕ) where
  abbrev limit_of : WindowKind → RawWindow → Option ℕ → Option NextLimit
  limit_of kind w none = none
  limit_of kind w (some u) = some (record {
    kind = kind;
    utilization = u;
    resets_at_ms = to_epoch_ms parse_date w.resets_at;
    status = or_allowed w.status;
  })

  unfoldable pub to_next_limit : WindowKind → Option RawWindow → Option NextLimit
  to_next_limit kind none = none
  to_next_limit kind (some w) = limit_of kind w w.utilization

  unfoldable pub pick_from : List WindowKind → RawWindows → Option NextLimit → Option NextLimit
  pick_from [] windows best = best
  pick_from (kind ∷ rest) windows best =
      pick_from rest windows (better_of (to_next_limit kind (windows kind)) best)

  unfoldable pub pick_next_limit : Option RawWindows → Option NextLimit
  pick_next_limit none = none
  pick_next_limit (some windows) = pick_from kinds windows none

  -- One window of the fallback: nothing where it has a utilization or nothing to say.
  abbrev text_of : WindowKind → RateLimitStatus → Option ℕ → ℕ → Option BarText
  text_of kind status none now = if is_allowed status then none else some (status_text kind status)
  text_of kind status (some at) now =
      some (reset_text kind status (format_relative_reset (some at) now))

  abbrev fallback_of : WindowKind → RawWindow → ℕ → Option ℕ → Option BarText
  fallback_of kind w now (some u) = none
  fallback_of kind w now none =
      text_of kind (or_allowed w.status) (to_epoch_ms parse_date w.resets_at) now

  unfoldable pub fallback_text : WindowKind → Option RawWindow → ℕ → Option BarText
  fallback_text kind none now = none
  fallback_text kind (some w) now = fallback_of kind w now w.utilization

  abbrev first_text : Option BarText → Option BarText → Option BarText
  first_text none later = later
  first_text (some t) later = some t

  unfoldable pub fallback_from : List WindowKind → RawWindows → ℕ → Option BarText
  fallback_from [] windows now = none
  fallback_from (kind ∷ rest) windows now =
      first_text (fallback_text kind (windows kind) now) (fallback_from rest windows now)

  unfoldable pub format_status_bar_fallback : Option RawWindows → ℕ → Option BarText
  unfolding fallback_from fallback_text
  format_status_bar_fallback none now = none
  format_status_bar_fallback (some windows) now = fallback_from kinds windows now

  abbrev line_of : WindowKind → Option NextLimit → ℕ → List TooltipLine → List TooltipLine
  line_of kind none now lines = lines
  line_of kind (some l) now lines =
      record {
        kind = kind;
        percentage = l.utilization;
        reset = format_relative_reset l.resets_at_ms now;
      }
      ∷ lines

  -- The lines of the tooltip; without any it is the default.
  unfoldable pub tooltip_lines : List WindowKind → RawWindows → ℕ → List TooltipLine
  unfolding to_next_limit
  tooltip_lines [] windows now = []
  tooltip_lines (kind ∷ rest) windows now =
      line_of kind (to_next_limit kind (windows kind)) now (tooltip_lines rest windows now)

  abbrev shown_label : Option NextLimit → Option BarText → Option BarText
  shown_label none fallback = fallback
  shown_label (some next) fallback = some (percent next.kind next.utilization)

  abbrev aged : ℕ → ℕ → Bool → Option BarText → Option (BarText × Option Age)
  aged at now is_active none = none
  aged at now is_active (some label) =
      some (label, if is_active then none else some (format_age at now))

  -- The label of an account, with its age where it is not the active one.
  unfoldable pub format_account_usage :
      Option AccountLimits → ℕ → Bool → Option (BarText × Option Age)
  unfolding pick_next_limit format_status_bar_fallback
  format_account_usage none now is_active = none
  format_account_usage (some r) now is_active = aged r.at now is_active (
      shown_label (pick_next_limit (some r.windows))
        (format_status_bar_fallback (some r.windows) now))
