-- ===== src/Rekor.antt =====
-- src/rekor.rs: the transparency-log entry of a bundle. This module composes the steps, which its
-- children model.
pub mod Merkle
pub mod Body
pub mod Set
pub mod Checkpoint
pub mod Window
pub mod Entry
