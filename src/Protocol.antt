-- ===== src/Protocol.antt =====
-- runtime/protocol: the messages between stages.
pub mod Message
pub mod Generation
pub mod Utf8
pub mod Json
pub mod Fields
pub mod Control
pub mod Frame
pub mod Stage
