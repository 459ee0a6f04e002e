-- ===== src/Fs.antt =====
-- fs/: the objects of the file system, their cache, the listing of the bucket and the directories.
pub mod File
pub mod Object
pub mod Listing
pub mod Directory
pub mod Cache
pub mod Integrity
