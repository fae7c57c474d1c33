-- ===== src/Utilities.antt =====
-- include/llfix/fix_utilities.h: helpers over the bytes of FIX messages.
pub mod Checksum
pub mod ChecksumSimd
pub mod MessageType
pub mod Framing
pub mod RejectText
