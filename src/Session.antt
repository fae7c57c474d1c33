-- ===== src/Session.antt =====
-- include/llfix/fix_session.h and the classes it is built from: the state of one FIX session and what
-- it does with session-level messages.
pub mod State
pub mod SequenceStore
pub mod Schedule
pub mod ScheduleLaws
pub mod ThrottlerAction
pub mod Settings
pub mod Record
pub mod Builders
pub mod Receive
pub mod ReceiveLaws
pub mod Validate
pub mod ValidateLaws
