-- ===== src/LimitDisplay/Next.antt =====
-- extension/src/rateLimits.ts, `pickNextLimit`: no reported window beats the one that is picked.
use claude_persist.PlanUsage.{WindowKind}
use claude_persist.LimitDisplay.{RawWindows, NextLimit, beats, to_next_limit}
use claude_persist.Prelude.{ℕ, ◌<◌, ◌≤◌, String, false, Option, none, some, ◌≡◌, ◌⊎◌}

-- Where `o` is a limit, there is a best one and `o` does not beat it.
abbrev Covers : Option NextLimit → Option NextLimit → Type 0
Covers none best = Unit
Covers (some c) none = ⊥
Covers (some c) (some best) = beats c best ≡ false

-- A reset is no later than another one, where none comes last.
abbrev pub IsNoLater : Option ℕ → Option ℕ → Type 0
IsNoLater none none = Unit
IsNoLater none (some b) = ⊥
IsNoLater (some a) none = Unit
IsNoLater (some a) (some b) = a ≤ b

-- A limit is used more than another one, or as much with a reset that is no later.
abbrev pub IsTighter : NextLimit → NextLimit → Type 0
IsTighter best c =
    (c.utilization < best.utilization)
    ⊎ ((c.utilization ≡ best.utilization) × IsNoLater best.resets_at_ms c.resets_at_ms)

module _ (parse_date : String → Option ℕ) (windows : RawWindows) where
  abbrev limit_at : WindowKind → Option NextLimit
  limit_at kind = to_next_limit parse_date kind (windows kind)

  -- A best one is the limit of its window.
  abbrev IsLimit : Option NextLimit → Type 0
  IsLimit none = Unit
  IsLimit (some b) = limit_at b.kind ≡ some b
