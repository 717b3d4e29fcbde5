-- ===== src/Util.antt =====
-- src/util
pub mod Message
pub mod ErrorCode
pub mod StringT
pub mod StringView
pub mod Text
pub mod Log
