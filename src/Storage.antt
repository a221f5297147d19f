-- ===== src/Storage.antt =====
-- src/twin/storage: the blob store and the checkpoints of a recording.
pub mod Blob
pub mod Checkpoints
