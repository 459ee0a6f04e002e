-- ===== src/Base.antt =====
-- base/: HTTP requests, as the rest of the program sees them and as libcurl runs them, and the LRU map.
pub mod Http
pub mod Lru
pub mod Request
