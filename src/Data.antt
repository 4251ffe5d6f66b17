-- ===== src/Data.antt =====
-- The value types of include/zmf and src/data.
pub mod UniqueId
pub mod Handle
pub mod RequestIdentity
pub mod MessageType
pub mod Message
pub mod Reply
mod Examples
