-- ===== src/Services.antt =====
-- services/: how files are moved to and from the stores, and how requests are signed.
pub mod Ranges
pub mod Transfer
pub mod MultiUpload
pub mod Resumable
pub mod Signing
