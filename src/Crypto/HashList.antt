-- ===== src/Crypto/HashList.antt =====
-- crypto/hash_list.h. The hash (OpenSSL) and CHUNK_SIZE are arguments. `_hashes` holds a block of HASH_LEN
-- bytes for each chunk, and is written and read by whole blocks: `digest` is the block with a number.
pub mod Slices
pub mod Parts
pub mod Root
mod Runs
use s3fuse.Prelude.{
  ℕ, zero, suc, ◌+◌, ◌-◌, ◌/◌, ◌%◌, Bool, true, false, not, List, [], ◌∷◌, ◌++◌, Option, none, some,
  ltb, ◌==◌, if◌then◌else◌, length, take, drop, replicate,
}
use s3fuse.Prelude.Text.{Text}
use s3fuse.Services.Ranges.{word}

-- CHUNK_SIZE and HASH_LEN, in the program 128 KB and 32.
pub record HashType : Type 0 where
  pub chunk_size : ℕ
  pub hash_len : ℕ
  pub compute : Text → Text
  -- hex, base64 or the like: encoder::encode.
  pub encode : Text → Text

pub record HashList : Type 0 where
  pub blocks : ℕ
  pub digest : ℕ → Text

unfoldable pub new_hash_list : HashType → ℕ → HashList
new_hash_list h total_size = record {
  blocks = (total_size + h.chunk_size - 1) % word / h.chunk_size;
  digest = λ i. replicate h.hash_len 0;
}

-- The block `i` is written; there is none behind the last one, where the source writes out of bounds.
unfoldable pub put_digest : ℕ → Text → HashList → Option HashList
put_digest i d l =
    if ltb i l.blocks
    then some (record l { digest = λ j. if j == i then d else l.digest j })
    else none

-- The loop from `o` on.
unfoldable pub hash_chunks : HashType → ℕ → ℕ → ℕ → ℕ → Text → HashList → Option HashList
unfolding put_digest
hash_chunks h zero offset o remaining buffer l = if ltb o (length buffer) then none else some l
hash_chunks h (suc fuel) offset o remaining buffer l = elim (ltb o (length buffer)) [
  | false ↦ some l
  | true ↦
      let size = if ltb h.chunk_size remaining then h.chunk_size else remaining in
      elim (put_digest ((offset + o) % word / h.chunk_size) (h.compute (take size (drop o buffer)))
        l) [
          | none ↦ none
          | some l' ↦ hash_chunks h fuel offset (o + h.chunk_size) (remaining - size) buffer l'
        ]
]

-- `none` is the exception for an offset that is not aligned; a chunk has at least one byte, so that the size
-- is fuel enough.
unfoldable pub compute_hash : HashType → ℕ → Text → HashList → Option HashList
unfolding hash_chunks
compute_hash h offset buffer l =
    if not (offset % h.chunk_size == 0)
    then none
    else hash_chunks h (length buffer) offset 0 (length buffer) buffer l

-- The first `n` blocks.
unfoldable pub concat_digests : ℕ → (ℕ → Text) → Text
concat_digests zero digest = []
concat_digests (suc n) digest = concat_digests n digest ++ digest n

unfoldable pub get_root_hash : HashType → HashList → Text
unfolding concat_digests
get_root_hash h l = h.encode (h.compute (concat_digests l.blocks l.digest))
