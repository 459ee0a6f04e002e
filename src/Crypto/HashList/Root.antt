-- ===== src/Crypto/HashList/Root.antt =====
-- The root hash of a file whose parts are hashed in any order.
use s3fuse.Prelude.{
  ℕ, ◌≢◌, suc, ◌+◌, ◌-◌, ◌*◌, ◌/◌, ◌≤◌, ◌<◌, ◌≡◌, refl, sym, ◌∙◌, ap, subst, true, false, List, [],
  ◌∷◌, some, ◌==◌, length, arith, ◌⊎◌, inl, inr, All, map, Bool-cases,
}
use native.Mathlib.Nat.{
  mul_assoc, div-mul-le_self, lt-div-mul-add, lt_of_mul-lt-mul_right, mul-le-mul_right,
}
use s3fuse.Prelude.Text.{Text}
use s3fuse.Services.Ranges.{Range, word, num_parts, num_parts_bounds}
use s3fuse.Services.Transfer.Download.{nth_range}
use s3fuse.Crypto.HashList.{HashType, HashList, new_hash_list, concat_digests, get_root_hash}
use s3fuse.Crypto.HashList.Slices.{IsAligned}
use s3fuse.Crypto.HashList.Parts.{
  reference, hash_all, Covered, hash_all-reference, concat_digests-agree,
}

-- The number is in the list.
abbrev pub Listed : ℕ → List ℕ → Type 0
Listed i [] = ⊥
Listed i (j ∷ js) = (i ≡ j) ⊎ Listed i js

-- The root hash of a file: that of the digests of its chunks, the first one first.
abbrev pub root_of : HashType → Text → Text
root_of h file =
    h.encode (h.compute (concat_digests (num_parts (length file) h.chunk_size) (reference h file)))

module _ (h : HashType) (file : Text) (chunk r : ℕ) where
  part_size :
      (i : ℕ)
      → i < num_parts (length file) chunk
      → suc i ≢ num_parts (length file) chunk
      → (nth_range (length file) chunk i).size ≡ chunk
  part_size i lt d = ground arith

  last_part_size :
      (i : ℕ)
      → suc i ≡ num_parts (length file) chunk
      → (nth_range (length file) chunk i).size ≡ length file - chunk * i
  last_part_size i e = ground arith

  module _ (whole_chunks : chunk ≡ r * h.chunk_size) (pos : 0 < h.chunk_size)
      (some_chunk : 0 < chunk) (some_bytes : 0 < length file)
      (fits : length file + chunk ≤ word) where
    chunk_fits : length file + h.chunk_size ≤ word
    chunk_fits =
        let some_chunks : 0 < r =
          lt_of_mul-lt-mul_right h.chunk_size (omega (arith, whole_chunks)) in
        omega (arith, whole_chunks, mul-le-mul_right h.chunk_size some_chunks)

    part-IsAligned :
        (i : ℕ)
        → i < num_parts (length file) chunk
        → IsAligned h file
            (nth_range (length file) chunk i).offset
            (nth_range (length file) chunk i).size
    part-IsAligned i lt =
        by_place (num_parts_bounds (length file) chunk some_chunk some_bytes fits)
          (Bool-cases (suc i == n))
      where
        n : ℕ
        n = num_parts (length file) chunk

        starts : i * chunk ≡ i * r * h.chunk_size
        starts = ap (λ x. i * x) whole_chunks ∙ sym (mul_assoc i r h.chunk_size)

        by_place :
            (0 < n) × (length file ≤ n * chunk) × ((n - 1) * chunk < length file)
            → ((suc i == n) ≡ true) ⊎ ((suc i == n) ≡ false)
            → IsAligned h file
                (nth_range (length file) chunk i).offset
                (nth_range (length file) chunk i).size
        by_place (p, hi, lo) (inl y) =
            let last : suc i ≡ n = ground arith in
            let i_last : n - 1 ≡ i = omega arith in
            let before : i * chunk < length file = subst (λ x. x * chunk < length file) i_last lo in
            rw (last_part_size i last) (record {
              first = i * r;
              starts = starts;
              inside = omega arith;
              ends = inl (omega arith);
            })
        by_place (p, hi, lo) (inr z) =
            let inner : suc i ≢ n = ground arith in
            let upto : suc i * chunk ≤ (n - 1) * chunk = mul-le-mul_right chunk (omega arith) in
            rw (part_size i lt inner) (record {
              first = i * r;
              starts = starts;
              inside = omega arith;
              ends = inr (r, whole_chunks);
            })

    -- The part that a byte of the file is in.
    part_of :
        (j : ℕ)
        → j < length file
        → (i : ℕ) × (i < num_parts (length file) chunk)
          × ((nth_range (length file) chunk i).offset ≤ j)
          × (j < (nth_range (length file) chunk i).offset + (nth_range (length file) chunk i).size)
    part_of j lt =
        let (p, hi, lo) = num_parts_bounds (length file) chunk some_chunk some_bytes fits in
        let low : j / chunk * chunk ≤ j = div-mul-le_self j chunk in
        let high : j < j / chunk * chunk + chunk = lt-div-mul-add {a = j} {b = chunk} some_chunk in
        let inside : j / chunk < num_parts (length file) chunk =
          lt_of_mul-lt-mul_right chunk (omega arith) in
        (
          j / chunk,
          inside,
          low,
          by_place (j / chunk) inside low high
              (Bool-cases (suc (j / chunk) == num_parts (length file) chunk)),
        )
      where
        by_place :
            (i : ℕ)
            → i < num_parts (length file) chunk
            → i * chunk ≤ j
            → j < i * chunk + chunk
            → ((suc i == num_parts (length file) chunk) ≡ true)
              ⊎ ((suc i == num_parts (length file) chunk) ≡ false)
            → j < i * chunk + (nth_range (length file) chunk i).size
        by_place i i_lt low high (inl y) = rw (last_part_size i (ground arith)) (omega arith)
        by_place i i_lt low high (inr z) = rw (part_size i i_lt (ground arith)) high

    abbrev ranges : List ℕ → List Range
    ranges is = map (nth_range (length file) chunk) is

    AllAligned-ranges :
        (is : List ℕ)
        → All (λ i. i < num_parts (length file) chunk) is
        → All (λ q. IsAligned h file q.offset q.size) (ranges is)
    AllAligned-ranges [] a = tt
    AllAligned-ranges (i ∷ is) (lt, a) = (part-IsAligned i lt, AllAligned-ranges is a)

    Covered-ranges :
        (k i : ℕ) (is : List ℕ)
        → Listed i is
        → (nth_range (length file) chunk i).offset ≤ k * h.chunk_size
        → k * h.chunk_size
          < (nth_range (length file) chunk i).offset + (nth_range (length file) chunk i).size
        → Covered h file k (ranges is)
    Covered-ranges k i [] l from upto = l
    Covered-ranges k i (j ∷ is) (inr l) from upto = inr (Covered-ranges k i is l from upto)
    Covered-ranges k i (j ∷ is) (inl e) from upto = inl (
        subst
          (λ x.
            ((nth_range (length file) chunk x).offset ≤ k * h.chunk_size)
            × (k * h.chunk_size
                < (nth_range (length file) chunk x).offset
                  + (nth_range (length file) chunk x).size))
          e (from, upto))

    -- Let a chunk of a transfer be one or more whole chunks of the hash list, which are not empty, and let a file
    -- have at least one byte and its size fit, with such a chunk, a size_t. When compute_hash has been called for
    -- each part of the file, in any order and as often as one likes, then every call has returned, no digest has been
    -- written out of bounds, and the root hash is that of the digests of the file's chunks.
    pub root-any_order :
        (is : List ℕ)
        → All (λ i. i < num_parts (length file) chunk) is
        → ((i : ℕ) → i < num_parts (length file) chunk → Listed i is)
        → (l : HashList) × (hash_all h file (ranges is) (new_hash_list h (length file)) ≡ some l)
          × (get_root_hash h l ≡ root_of h file)
    unfolding new_hash_list get_root_hash
    root-any_order is inside all =
        let (l, e, b, done) =
          hash_all-reference h file pos chunk_fits (ranges is) (new_hash_list h (length file))
            (AllAligned-ranges is inside) refl in
        (
          l,
          e,
          rw (get_root_hash, b)
              (ap (λ s. h.encode (h.compute s))
                (concat_digests-agree (num_parts (length file) h.chunk_size) l.digest
                  (reference h file) (λ k lt. (done k).0 (cover k lt)))),
        )
      where
        cover : (k : ℕ) → k < num_parts (length file) h.chunk_size → Covered h file k (ranges is)
        cover k lt =
            let (p, hi, lo) =
              num_parts_bounds (length file) h.chunk_size pos some_bytes chunk_fits in
            let upto : k * h.chunk_size
                ≤ (num_parts (length file) h.chunk_size - 1) * h.chunk_size =
              mul-le-mul_right h.chunk_size (omega arith) in
            let (i, i_lt, from, to) = part_of (k * h.chunk_size) (omega arith) in
            Covered-ranges k i is (all i i_lt) from to
