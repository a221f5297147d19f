-- ===== src/Core.antt =====
-- src/twin/core: the errors that every component raises, and the calls that raise them.
pub mod Errors
pub mod Action
pub mod Waiting
pub mod Moves
