-- ===== src/Crypto.antt =====
-- crypto/: text encodings of digests and the chunk hashes of a file.
pub mod Hex
pub mod HashList
