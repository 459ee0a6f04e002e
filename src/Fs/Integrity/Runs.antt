-- ===== src/Fs/Integrity/Runs.antt =====
-- A file of five bytes that is uploaded and downloaded in parts of four, hashed in chunks of two.
use s3fuse.Prelude.{ℕ, ◌≡◌, refl, List, [], ◌∷◌, ◌++◌, none, some}
use s3fuse.Prelude.Code.{success, err, eio}
use s3fuse.Prelude.Text.{Text, codes, same, is_empty}
use s3fuse.Crypto.HashList.{
  HashType, new_hash_list, put_digest, hash_chunks, compute_hash, concat_digests, get_root_hash,
}
use s3fuse.Fs.Integrity.{
  Io, LocalFile, download, is_whole, written, hash_chunk, write_chunk, all_writes, prepare_download,
  root_hash, finalize_download,
}
use s3fuse.Fs.Integrity.Laws.{writes}

abbrev brackets : HashType
brackets = record {
  chunk_size = 2;
  hash_len = 4;
  compute = λ s. codes "(" ++ s ++ codes ")";
  encode = λ s. s;
}

abbrev uploaded : LocalFile
uploaded = record {
  bytes = codes "abcde";
  hash_list = none;
  sha256_hash = [];
  etag = [];
  sha256_mismatches = 0;
  md5_mismatches = 0;
  no_hash_checks = 0;
}

abbrev root : Text
root = codes "((ab)(cd)(e))"

abbrev opened : LocalFile
opened = record uploaded { bytes = codes "....."; sha256_hash = root }

-- A read of part 0 that fails with EINTR, and then whole reads of the parts.
abbrev read_calls : List (ℕ × Io)
read_calls =
    (0, record { count = none; errno = 4 })
    ∷ (1, record { count = some 1; errno = 0 })
    ∷ (0, record { count = some 4; errno = 0 })
    ∷ []

-- Writes of which the first one is short.
abbrev write_calls : List (ℕ × Io)
write_calls =
    (1, record { count = some 0; errno = 28 })
    ∷ (1, record { count = some 1; errno = 0 })
    ∷ (0, record { count = some 4; errno = 0 })
    ∷ []

rejects :
    (download brackets (λ s. s) (writes brackets (codes "abcdE") 4 write_calls) success opened).0
    ≡ err eio
unfolding download prepare_download all_writes finalize_download root_hash write_chunk is_whole
    hash_chunk written new_hash_list compute_hash hash_chunks put_digest get_root_hash
    concat_digests is_empty same
rejects = refl
