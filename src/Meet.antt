-- ===== src/Meet.antt =====
-- src/twin/meet: joining a meeting, and the recorder.
pub mod Vocabulary
pub mod Join
pub mod Recorder
