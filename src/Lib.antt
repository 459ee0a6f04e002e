-- ===== src/Lib.antt =====
-- s3fuse: a FUSE file system on the objects of a bucket (S3, Google Storage, IIJ GIO).
--
-- FUSE calls the entry points of src/operations.cc. These look objects up through the cache of src/fs,
-- and call the objects' methods: files keep a local copy under a small state machine, directories list
-- the bucket, and every object commits its metadata. Objects send HTTP requests (src/base/request.cc)
-- from the workers of src/threads; transfers and renames spread their parts over a pool by a parallel
-- work queue, and src/services says how a file is split and what is sent. Digests and attribute keys are
-- written in hexadecimal by src/crypto. In the other files' comments paths start below src/.
--
-- Prelude    names, lists over native numbers, Boolean tests, strings as lists of numbers; Prelude/Code
--            is the `int` that most functions return (0, a count, or -errno).
-- Base       Base/Http: the part of src/base/request.h that the rest uses. A request is answered, or
--            throws, or is given up by the watchdog; the two last end a work item with the codes that
--            src/threads/request_worker.cc gives it. Base/Request: src/base/request.cc itself, the
--            object, libcurl's callbacks (`perform`) and the attempts of `run`. Base/Lru:
--            src/base/lru_cache_map.h, whose pointers are keys into the map that owns the entries.
-- Crypto     Crypto/Hex: src/crypto/hex.cc, hex_with_quotes.h and the digest test of md5.h.
--            Crypto/HashList: src/crypto/hash_list.h.
-- Threads    Threads/ParallelQueue: src/threads/parallel_work_queue.h. `start` is its first loop, `step`
--            the body of the second, made of `collect` and `post_next`; `settle` is the specification of
--            one part. What the pool answers to an attempt at a part is an argument. Threads/Pool: a pool
--            of src/threads/pool.cc with its queue, request_worker.cc and the watchdog; `act` is a section
--            of a worker's thread, and the runs are a step relation.
-- Services   Services/Ranges: the table of parts of src/services/file_transfer.cc; Services/Transfer: its
--            downloads and single uploads, the downloads on Threads/ParallelQueue.
--            Services/MultiUpload: upload_multi of src/services/aws/file_transfer.cc.
--            Services/Resumable: that of src/services/gs/file_transfer.cc. Services/Signing: the hook of
--            src/services/aws/impl.cc that Base/Request takes, and when it asks for a retry.
-- Fs         Fs/File: src/fs/file.cc as the sections between two waits on its condition (write_enter and
--            write_exit are the two ends of file::write), and Fs/File/System the threads that run them
--            in any order. Fs/Integrity: the hash checks of its transfers. Fs/Object/Commit:
--            object::commit of src/fs/object.cc. Fs/Object/Headers: its init and set_request_headers.
--            Fs/Object/Url: its urls. Fs/Object/Xattr: src/fs/static_xattr.cc. Fs/Object/Metadata: the
--            calls of src/fs/object.cc on attributes. Fs/Listing: src/fs/list_reader.cc. Fs/Directory and
--            Fs/Directory/Rename: src/fs/directory.cc, on Fs/Listing and Threads/ParallelQueue.
--            Fs/Cache: src/fs/cache.h and cache.cc on Base/Lru.
-- Operations src/operations.cc over an interface to src/fs (the record `Backend` of Operations/Effect):
--            Path has ASSERT_VALID_PATH, Modify the calls that change an object's attributes (Permission for chmod and chown), Make those
--            that make and remove objects, Handles those on open files.
--
-- State is passed explicitly. An exception and an early return are values. A size_t or off_t that can
-- wrap keeps its `% 2 ^ 64`. Strings are lists of character codes.
--
-- Fuel: `process` of Threads/ParallelQueue has one round for each attempt that a part may have and one
-- more; `hash_chunks` has one for each byte, and a chunk has at least one. `read_all` of Fs/Listing takes
-- the fuel as an argument, since a store could go on for ever; the source has no bound there. The loops of
-- `commit`, `getattr` and `run` count down the source's own retries.
--
-- Arguments: what the store answers or libcurl does, base64 and hashes (OpenSSL), what libxml2 finds in an
-- answer, what pread and pwrite return, the decimal printing, configuration values.
--
-- Not modelled: the credentials and the tokens of the services, the uploads in parts of
-- src/services/iijgio (a copy of those of aws), encrypted, special and glacier objects, access lists,
-- listxattr, readlink and statfs; start-up, configuration, logging, statistics and the tools, which are
-- input and output. Log lines, waiting times and the sums of run times are left out throughout.

pub mod Prelude
pub mod Base
pub mod Crypto
pub mod Threads
pub mod Services
pub mod Fs
pub mod Operations
