-- ===== src/Titler.antt =====
-- daemon/src/titler.ts, with `maybeRetitle` of daemon/src/session.ts: the names of the tabs. A text
-- is its UTF-16 code units; `lower` and `upper` stand for `toLowerCase` and `toUpperCase`, whose
-- Unicode tables are not modelled.
pub mod Names
pub mod Compose
pub mod Clean
mod Tests
pub mod Rename
pub mod Exchanges
pub mod Evidence
