-- ===== src/Operations.antt =====
-- operations.cc: the entry points that FUSE calls.
pub mod Path
pub mod Effect
pub mod Modify
pub mod Make
pub mod Handles
pub mod Permission
mod Runs
