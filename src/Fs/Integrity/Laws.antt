-- ===== src/Fs/Integrity/Laws.antt =====
-- What the checks find of a file that is uploaded, and downloaded again, in parts.
use s3fuse.Prelude.{ℕ, ◌<◌, ◌≡◌, ◌≢◌, refl, List, [], ◌∷◌, some, length, All, map}
use s3fuse.Prelude.Code.{Code, success}
use s3fuse.Prelude.Text.{Text}
use s3fuse.Services.Ranges.{Range, num_parts}
use s3fuse.Services.Transfer.Download.{nth_range}
use s3fuse.Crypto.HashList.{HashType, HashList, compute_hash}
use s3fuse.Crypto.HashList.Slices.{slice}
use s3fuse.Crypto.HashList.Root.{Listed}
use s3fuse.Fs.Integrity.{Io, LocalFile, hash_chunk, WriteCall, ReadCall}

abbrev pub part_of : Text → ℕ → ℕ → Text
part_of content chunk i =
    slice content (nth_range (length content) chunk i).offset
      (nth_range (length content) chunk i).size

-- The parts for which pwrite or pread has moved all bytes, in the order of the attempts; the other attempts fail,
-- or move some of the bytes.
pub data Moved (size_of : ℕ → ℕ) : List (ℕ × Io) → List ℕ → Type 0 where
  no_more : Moved size_of [] []
  whole :
      {i : ℕ} {io : Io} {rest : List (ℕ × Io)} {is : List ℕ}
      → io.count ≡ some (size_of i)
      → Moved size_of rest is
      → Moved size_of ((i, io) ∷ rest) (i ∷ is)
  partial :
      {i : ℕ} {io : Io} {rest : List (ℕ × Io)} {is : List ℕ}
      → io.count ≢ some (size_of i)
      → Moved size_of rest is
      → Moved size_of ((i, io) ∷ rest) is

module _ (h : HashType) where
  -- The attempts at parts of a transfer, by the part's number and what pwrite or pread does: writes of
  -- the parts of the content that the store sends, and reads of parts of the file.
  abbrev pub writes : Text → ℕ → List (ℕ × Io) → List WriteCall
  writes content chunk = map (λ a. record {
    io = a.1;
    buffer = part_of content chunk a.0;
    offset = (nth_range (length content) chunk a.0).offset;
  })

  abbrev pub reads : ℕ → ℕ → List (ℕ × Io) → List ReadCall
  reads size chunk = map (λ a. record {
    io = a.1;
    size = (nth_range size chunk a.0).size;
    offset = (nth_range size chunk a.0).offset;
  })

  abbrev pub part_ranges : ℕ → ℕ → List ℕ → List Range
  part_ranges size chunk = map (nth_range size chunk)

  hash_chunk-some :
      (buffer : Text) (offset : ℕ) (f : LocalFile) (l l' : HashList)
      → f.hash_list ≡ some l
      → compute_hash h offset buffer l ≡ some l'
      → hash_chunk h buffer offset f ≡ (success, record f { hash_list = some l' })
  unfolding hash_chunk
  hash_chunk-some buffer offset f l l' e d = rw (hash_chunk, e, d) refl

  -- The list and the hash of a file.
  record Has (f : LocalFile) (l : HashList) (sha : Text) : Type 0 where
    hash_list : f.hash_list ≡ some l
    sha256_hash : f.sha256_hash ≡ sha

  -- The parts of a transfer of `size` bytes, by their numbers: each at least once.
  abbrev pub AllParts : ℕ → ℕ → List ℕ → Type 0
  AllParts size chunk is =
      All (λ i. i < num_parts size chunk) is × ((i : ℕ) → i < num_parts size chunk → Listed i is)
