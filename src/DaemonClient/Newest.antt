-- ===== src/DaemonClient/Newest.antt =====
-- extension/src/daemonClient.ts, `verifyProtocol`: windows of several builds replace each other's
-- daemon only until the newest one runs.
use claude_persist.DaemonClient.Builds.{Build, behind}
use claude_persist.DaemonClient.{gt}
use claude_persist.Prelude.{◌≢◌}

abbrev NotNewer : Build → Build → Type 0
NotNewer a b = behind a b ≢ gt
