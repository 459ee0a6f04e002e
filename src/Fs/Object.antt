-- ===== src/Fs/Object.antt =====
-- fs/object.cc: the operations of an object on the store (Commit), its members as
-- headers (Headers), its urls (Url) and its extended attributes (Xattr, Metadata).
pub mod Commit
pub mod Xattr
pub mod Metadata
pub mod Headers
pub mod Url
mod Runs
