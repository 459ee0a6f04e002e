-- ===== src/Fs/Integrity.antt =====
-- The checks of fs/file.cc on what it transfers: write_chunk and read_chunk, and the two ends of download
-- and upload. The calls that the transfer makes of them are arguments, and so are what pwrite and
-- pread do, and md5. An exception ends the item with -ECANCELED.
pub mod Laws
mod Runs
use s3fuse.Prelude.{
  ℕ, zero, suc, ◌+◌, ◌-◌, ◌%◌, Bool, true, false, ◌&&◌, ◌||◌, not, List, [], ◌∷◌, ◌++◌, Option,
  none, some, ◌==◌, if◌then◌else◌, length, take, drop, replicate,
}
use s3fuse.Prelude.Code.{Code, ret, err, success, is_failure, system, eio, ecanceled}
use s3fuse.Prelude.Text.{Text, same, is_empty}
use s3fuse.Crypto.Hex.{is_valid_quoted_hex_hash}
use s3fuse.Crypto.HashList.{HashType, HashList, new_hash_list, compute_hash, get_root_hash}

-- What pwrite or pread returns, with `none` for -1, and `errno` after it.
pub record Io : Type 0 where
  pub count : Option ℕ
  pub errno : ℕ

pub record LocalFile : Type 0 where
  -- What is behind `_fd`.
  pub bytes : Text
  pub hash_list : Option HashList
  pub sha256_hash : Text
  pub etag : Text
  pub sha256_mismatches : ℕ
  pub md5_mismatches : ℕ
  pub no_hash_checks : ℕ

-- `-errno`
unfoldable pub negated : ℕ → Code
negated zero = success
negated (suc n) = err (system (suc n))

-- The bytes behind a write of `buffer` at an offset; a hole is filled with zeros.
unfoldable pub written : Text → ℕ → Text → Text
written buffer offset bytes =
    take offset (bytes ++ replicate (offset - length bytes) 0)
    ++ buffer
    ++ drop (offset + length buffer) bytes

abbrev pub count_of : Io → ℕ
count_of io = elim io.count [ none ↦ 0 | some n ↦ n ]

unfoldable pub is_whole : Io → ℕ → Bool
is_whole io size = elim io.count [ none ↦ false | some n ↦ n == size ]

-- `if (_hash_list) _hash_list->compute_hash(offset, ...)`
unfoldable pub hash_chunk : HashType → Text → ℕ → LocalFile → Code × LocalFile
hash_chunk h buffer offset f = elim f.hash_list [
  | none ↦ (success, f)
  | some l ↦ elim (compute_hash h offset buffer l) [
    | none ↦ (err ecanceled, f)
    | some l' ↦ (success, record f { hash_list = some l' })
  ]
]

unfoldable pub write_chunk : HashType → Io → Text → ℕ → LocalFile → Code × LocalFile
unfolding negated written is_whole hash_chunk
write_chunk h io buffer offset f =
    let g = record f {
      bytes =
          if count_of io == 0 then f.bytes else written (take (count_of io) buffer) offset f.bytes;
    } in
    if not (is_whole io (length buffer))
    then (negated io.errno, g)
    else hash_chunk h buffer offset g

-- The buffer is of use only behind the code 0.
unfoldable pub read_chunk : HashType → Io → ℕ → ℕ → LocalFile → Code × Text × LocalFile
unfolding negated is_whole hash_chunk
read_chunk h io size offset f =
    let buffer = take size (drop offset f.bytes) in
    if not (is_whole io size)
    then (negated io.errno, buffer, f)
    else let r = hash_chunk h buffer offset f in (r.0, buffer, r.1)

pub record WriteCall : Type 0 where
  pub io : Io
  pub buffer : Text
  pub offset : ℕ

pub record ReadCall : Type 0 where
  pub io : Io
  pub size : ℕ
  pub offset : ℕ

-- What the calls of a transfer make of the file.
unfoldable pub all_writes : HashType → List WriteCall → LocalFile → LocalFile
all_writes h [] f = f
all_writes h (c ∷ cs) f = all_writes h cs (write_chunk h c.io c.buffer c.offset f).1

unfoldable pub all_reads : HashType → List ReadCall → LocalFile → LocalFile
all_reads h [] f = f
all_reads h (c ∷ cs) f = all_reads h cs (read_chunk h c.io c.size c.offset f).2

unfoldable pub prepare_download : HashType → LocalFile → LocalFile
prepare_download h f =
    if not (is_empty f.sha256_hash)
    then record f { hash_list = some (new_hash_list h (length f.bytes)) }
    else f

-- `_hash_list->get_root_hash`; without a list, which does not happen here, an empty string.
unfoldable pub root_hash : HashType → LocalFile → Text
root_hash h f = elim f.hash_list [ none ↦ [] | some l ↦ get_root_hash h l ]

unfoldable pub finalize_download : HashType → (Text → Text) → LocalFile → Code × LocalFile
unfolding root_hash
finalize_download h md5 f =
    if not (is_empty f.sha256_hash)
    then (if not (same (root_hash h f) f.sha256_hash)
        then (err eio, record f { sha256_mismatches = suc f.sha256_mismatches })
        else (success, f))
    else if is_valid_quoted_hex_hash f.etag
    then (if not (same (md5 f.bytes) f.etag)
        then (err eio, record f { md5_mismatches = suc f.md5_mismatches })
        else (success, f))
    else (success, record f { no_hash_checks = suc f.no_hash_checks })

-- `calls` and `r` are what file_transfer::download does and returns.
unfoldable pub download :
    HashType → (Text → Text) → List WriteCall → Code → LocalFile → Code × LocalFile
unfolding prepare_download all_writes finalize_download
download h md5 calls r f =
    let g = all_writes h calls (prepare_download h f) in
    if is_failure r then (r, g) else finalize_download h md5 g

unfoldable pub set_sha256_hash : Text → LocalFile → LocalFile
set_sha256_hash hash f = if is_empty hash then f else record f { sha256_hash = hash }

unfoldable pub prepare_upload : HashType → LocalFile → LocalFile
prepare_upload h f = record f { hash_list = some (new_hash_list h (length f.bytes)) }

unfoldable pub finalize_upload : HashType → Text → LocalFile → LocalFile
unfolding set_sha256_hash root_hash
finalize_upload h returned_etag f =
    set_sha256_hash (root_hash h f) (record f { etag = returned_etag })

-- `calls`, `r` and the etag are what file_transfer::upload does and returns; `commit` is the code of commit.
unfoldable pub upload : HashType → List ReadCall → Code → Text → Code → LocalFile → Code × LocalFile
unfolding prepare_upload all_reads finalize_upload
upload h calls r returned_etag commit f =
    let g = all_reads h calls (prepare_upload h f) in
    if is_failure r then (r, g) else (commit, finalize_upload h returned_etag g)

-- Whether the chunks of both directions are whole chunks of the hash list; the source throws otherwise.
unfoldable pub test_transfer_chunk_sizes : HashType → ℕ → ℕ → Bool
test_transfer_chunk_sizes h download_chunk_size upload_chunk_size =
    download_chunk_size % h.chunk_size == 0 && upload_chunk_size % h.chunk_size == 0
