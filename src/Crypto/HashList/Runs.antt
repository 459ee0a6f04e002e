-- ===== src/Crypto/HashList/Runs.antt =====
-- A file of five bytes in chunks of two, hashed in parts of four.
use s3fuse.Prelude.{ℕ, ◌≡◌, ◌<◌, refl, List, [], ◌∷◌, ◌++◌, none, some, map, arith}
use s3fuse.Prelude.Text.{Text, codes}
use s3fuse.Services.Ranges.{num_parts}
use s3fuse.Services.Transfer.Download.{nth_range}
use s3fuse.Crypto.HashList.{
  HashType, HashList, new_hash_list, compute_hash, concat_digests, get_root_hash,
}
use s3fuse.Crypto.HashList.Parts.{hash_all}
use s3fuse.Crypto.HashList.Root.{Listed, root_of, root-any_order}

abbrev brackets : HashType
brackets = record {
  chunk_size = 2;
  hash_len = 4;
  compute = λ s. codes "(" ++ s ++ codes ")";
  encode = λ s. s;
}

abbrev file : Text
file = codes "abcde"

abbrev order : List ℕ
order = 1 ∷ 0 ∷ 1 ∷ []

in_order : (i : ℕ) → i < num_parts 5 4 → Listed i order
in_order i lt = ground arith

root-any_order_example :
    (l : HashList) × (hash_all brackets file (map (nth_range 5 4) order) (new_hash_list brackets 5)
      ≡ some l)
    × (get_root_hash brackets l ≡ root_of brackets file)
root-any_order_example =
    root-any_order brackets file 4 2 refl (omega arith) (omega arith) (omega arith) (omega arith)
      order (omega arith, (omega arith, (omega arith, tt))) in_order

root : root_of brackets file ≡ codes "((ab)(cd)(e))"
unfolding concat_digests
root = refl

misaligned : compute_hash brackets 1 (codes "ab") (new_hash_list brackets 5) ≡ none
unfolding compute_hash
misaligned = refl
