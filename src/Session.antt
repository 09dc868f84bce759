-- ===== src/Session.antt =====
-- daemon/src/session.ts.
pub mod Event
pub mod Queue
pub mod State
pub mod Append
pub mod Parking
pub mod Sending
pub mod Message
pub mod Consume
pub mod Control
pub mod Sound
pub mod Actions
pub mod Transcript
pub mod Restart
mod Tests
