-- ===== src/Apply.antt =====
-- Applying to a whole network as one change: src/apply/. Each phase is a module below; Apply/Network
-- runs them across every device and decides what to undo.
pub mod Job
pub mod Io
pub mod Run
pub mod Traces
pub mod Kept
pub mod Reconnect
pub mod Recover
pub mod Arm
pub mod Configure
pub mod Confirm
pub mod Plan
pub mod After
pub mod Network
