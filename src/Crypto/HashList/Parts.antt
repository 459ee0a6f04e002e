-- ===== src/Crypto/HashList/Parts.antt =====
-- The hash list of a file that is hashed in parts.
use s3fuse.Prelude.{
  ℕ, zero, suc, ◌+◌, ◌-◌, ◌*◌, ◌/◌, ◌%◌, ◌≤◌, ◌<◌, ◌≡◌, refl, sym, ◌∙◌, ap, subst, true, false,
  List, [], ◌∷◌, Option, none, some, ltb, ◌==◌, if◌then◌else◌, length, arith, ◌⊎◌, inl, inr,
  Bool-cases, All,
}
use native.Mathlib.Nat.{
  mod-eq_of_lt, mul-div_cancel, lt_of_mul-lt-mul_right, mul-mod_left, mul-le-mul_right, add-mul,
  suc-mul, zero-mul, add-zero, le_of_mul-le-mul_right,
}
use s3fuse.Prelude.Text.{Text}
use s3fuse.Services.Ranges.{Range, word, num_parts, num_parts_bounds}
use s3fuse.Crypto.HashList.{
  HashType, HashList, put_digest, hash_chunks, compute_hash, concat_digests,
}
use s3fuse.Crypto.HashList.Slices.{slice, chunk_of, IsAligned, chunk_of-slice, length-slice}

module _ (h : HashType) (file : Text) where
  -- The digest of a chunk of the file.
  abbrev pub reference : ℕ → Text
  reference k = h.compute (chunk_of h file k)

  -- compute_hash on one range of the file after the other.
  abbrev pub hash_all : List Range → HashList → Option HashList
  hash_all [] l = some l
  hash_all (r ∷ rs) l = elim (compute_hash h r.offset (slice file r.offset r.size) l) [
    | none ↦ none
    | some l' ↦ hash_all rs l'
  ]

  -- One of the ranges has the start of the chunk.
  abbrev pub Covered : ℕ → List Range → Type 0
  Covered k [] = ⊥
  Covered k (r ∷ rs) =
      ((r.offset ≤ k * h.chunk_size) × (k * h.chunk_size < r.offset + r.size)) ⊎ Covered k rs

module _ (h : HashType) (file : Text) (pos : 0 < h.chunk_size)
    (fits : length file + h.chunk_size ≤ word) where
  abbrev with_digest : ℕ → HashList → HashList
  with_digest i l = record l { digest = λ j. if j == i then reference h file i else l.digest j }

  put_digest-with_digest :
      (i : ℕ) (l : HashList)
      → i < l.blocks
      → put_digest i (reference h file i) l ≡ some (with_digest i l)
  unfolding put_digest
  put_digest-with_digest i l lt = ground arith

  -- `l'` is `l` with the digests of chunks of the file, among them those from `start` to the end of a range.
  record Hashed (start end : ℕ) (l l' : HashList) : Type 0 where
    blocks : l'.blocks ≡ l.blocks
    kept : (k : ℕ) → (l'.digest k ≡ l.digest k) ⊎ (l'.digest k ≡ reference h file k)
    done : (k : ℕ) → start ≤ k → k * h.chunk_size < end → l'.digest k ≡ reference h file k

  module _ (offset size : ℕ) (v : IsAligned h file offset size) where
    place : (m : ℕ) → offset + m * h.chunk_size ≡ (v.first + m) * h.chunk_size
    place m = ap (λ x. x + m * h.chunk_size) v.starts ∙ sym (add-mul v.first m h.chunk_size)

    block_of :
        (m : ℕ)
        → m * h.chunk_size < size
        → (offset + m * h.chunk_size) % word / h.chunk_size ≡ v.first + m
    block_of m lt =
        let small : offset + m * h.chunk_size < word = omega (arith, v.inside) in
        ap (λ x. x / h.chunk_size) (mod-eq_of_lt small ∙ place m) ∙ mul-div_cancel (v.first + m) pos

    in_range :
        (m : ℕ) → m * h.chunk_size < size → v.first + m < num_parts (length file) h.chunk_size
    in_range m lt =
        let bounds =
          num_parts_bounds (length file) h.chunk_size pos (omega (arith, v.inside)) fits in
        lt_of_mul-lt-mul_right h.chunk_size (omega (arith, place m, v.inside, bounds.1))

    finished :
        (m : ℕ) (l : HashList) → size ≤ m * h.chunk_size → Hashed (v.first + m) (offset + size) l l
    finished m l le = record {
      blocks = refl;
      kept = λ k. inl refl;
      done = λ k from upto. absurd (omega (arith, place m, mul-le-mul_right h.chunk_size from));
    }

    Hashed-with_digest :
        (m : ℕ) (l l' : HashList)
        → Hashed (v.first + suc m) (offset + size) (with_digest (v.first + m) l) l'
        → Hashed (v.first + m) (offset + size) l l'
    Hashed-with_digest m l l' g = record {
      blocks = g.blocks;
      kept = λ k. keep k (g.kept k);
      done = λ k from upto. finish k from upto (Bool-cases (k == v.first + m)) (g.kept k);
    }
      where
        keep :
            (k : ℕ)
            → (l'.digest k ≡ (with_digest (v.first + m) l).digest k)
              ⊎ (l'.digest k ≡ reference h file k)
            → (l'.digest k ≡ l.digest k) ⊎ (l'.digest k ≡ reference h file k)
        keep k (inr e) = inr e
        keep k (inl e) = elim (Bool-cases (k == v.first + m)) [
          | inl y ↦ inr (ground arith)
          | inr n ↦ inl (ground arith)
        ]

        finish :
            (k : ℕ)
            → v.first + m ≤ k
            → k * h.chunk_size < offset + size
            → ((k == v.first + m) ≡ true) ⊎ ((k == v.first + m) ≡ false)
            → (l'.digest k ≡ (with_digest (v.first + m) l).digest k)
              ⊎ (l'.digest k ≡ reference h file k)
            → l'.digest k ≡ reference h file k
        finish k from upto (inr n) e = g.done k (ground arith) upto
        finish k from upto (inl y) (inr e) = e
        finish k from upto (inl y) (inl e) = ground arith

    hash_chunks-Hashed :
        (fuel m : ℕ) (l : HashList)
        → l.blocks ≡ num_parts (length file) h.chunk_size
        → size ≤ m * h.chunk_size + fuel
        → (l' : HashList) × (hash_chunks h fuel offset
              (m * h.chunk_size)
              (size - m * h.chunk_size)
              (slice file offset size)
              l
            ≡ some l')
          × Hashed (v.first + m) (offset + size) l l'
    unfolding hash_chunks
    hash_chunks-Hashed zero m l b enough =
        (l, ground (arith, length-slice file offset size v.inside), finished m l (omega arith))
    hash_chunks-Hashed (suc fuel) m l b enough =
        by_test (Bool-cases (ltb (m * h.chunk_size) size))
          (λ l1. hash_chunks-Hashed fuel (suc m) l1)
      where
        o : ℕ
        o = m * h.chunk_size

        whole : length (slice file offset size) ≡ size
        whole = length-slice file offset size v.inside

        by_test :
            (ltb o size ≡ true) ⊎ (ltb o size ≡ false)
            → ((l1 : HashList)
                → l1.blocks ≡ num_parts (length file) h.chunk_size
                → size ≤ suc m * h.chunk_size + fuel
                → (l' : HashList) × (hash_chunks h fuel offset
                      (suc m * h.chunk_size)
                      (size - suc m * h.chunk_size)
                      (slice file offset size)
                      l1
                    ≡ some l')
                  × Hashed (v.first + suc m) (offset + size) l1 l')
            → (l' : HashList) × (hash_chunks h
                  (suc fuel)
                  offset
                  o
                  (size - o)
                  (slice file offset size)
                  l
                ≡ some l')
              × Hashed (v.first + m) (offset + size) l l'
        by_test (inr t) later = (l, rw (hash_chunks, whole, t) refl, finished m l (ground arith))
        by_test (inl t) later =
            let lt : o < size = ground arith in
            let (l', e, g) =
              later (with_digest (v.first + m) l) b (omega (arith, suc-mul m h.chunk_size)) in
            let stored =
              put_digest-with_digest (v.first + m) l
                (subst (λ n. v.first + m < n) (sym b) (in_range m lt)) in
            let further : o + h.chunk_size ≡ suc m * h.chunk_size = sym (suc-mul m h.chunk_size) in
            let less : size - o - (if ltb h.chunk_size (size - o) then h.chunk_size else size - o)
                ≡ size - suc m * h.chunk_size =
              ground (arith, suc-mul m h.chunk_size) in
            (
              l',
              rw
                  (
                    hash_chunks,
                    whole,
                    t,
                    block_of m lt,
                    chunk_of-slice h file offset size v m lt pos,
                    stored,
                    further,
                    less,
                  )
                  e,
              Hashed-with_digest m l l' g,
            )

  -- A call of compute_hash with an aligned part of the file.
  compute_hash-Hashed :
      (offset size : ℕ) (v : IsAligned h file offset size) (l : HashList)
      → l.blocks ≡ num_parts (length file) h.chunk_size
      → (l' : HashList) × (compute_hash h offset (slice file offset size) l ≡ some l')
        × Hashed v.first (offset + size) l l'
  unfolding compute_hash
  compute_hash-Hashed offset size v l b =
      let (l', e, g) = hash_chunks-Hashed offset size v size 0 l b (omega arith) in
      from_start l' e g
    where
      from_start :
          (l' : HashList)
          → hash_chunks h size offset
              (0 * h.chunk_size)
              (size - 0 * h.chunk_size)
              (slice file offset size)
              l
            ≡ some l'
          → Hashed (v.first + 0) (offset + size) l l'
          → (l' : HashList) × (compute_hash h offset (slice file offset size) l ≡ some l')
            × Hashed v.first (offset + size) l l'
      from_start l' e g =
          let aligned : offset % h.chunk_size ≡ 0 =
            ap (λ x. x % h.chunk_size) v.starts ∙ mul-mod_left v.first h.chunk_size in
          let whole = length-slice file offset size v.inside in
          let none_taken : size - 0 * h.chunk_size ≡ size = omega arith in
          let e0 : hash_chunks h size offset (0 * h.chunk_size) size (slice file offset size) l
              ≡ some l' =
            rw none_taken at e in
          (l', rw (compute_hash, aligned, whole) (rw zero-mul at e0), rw add-zero at g)

  pub hash_all-reference :
      (rs : List Range) (l : HashList)
      → All (λ r. IsAligned h file r.offset r.size) rs
      → l.blocks ≡ num_parts (length file) h.chunk_size
      → (l' : HashList) × (hash_all h file rs l ≡ some l')
        × (l'.blocks ≡ l.blocks)
        × ((k : ℕ)
            → (Covered h file k rs → l'.digest k ≡ reference h file k)
              × ((l'.digest k ≡ l.digest k) ⊎ (l'.digest k ≡ reference h file k)))
  hash_all-reference [] l a b = (l, refl, refl, λ k. (λ c. absurd c, inl refl))
  hash_all-reference (r ∷ rs) l (v, a) b =
      let (l1, e1, g) = compute_hash-Hashed r.offset r.size v l b in
      let (l2, e2, same_blocks, rest) = hash_all-reference rs l1 a (g.blocks ∙ b) in
      (
        l2,
        rw (hash_all, e1) e2,
        same_blocks ∙ g.blocks,
        λ k. (λ c. by_cover k l1 l2 g (rest k) c, by_kept k l1 l2 (g.kept k) (rest k).1),
      )
    where
      by_kept :
          (k : ℕ) (l1 l2 : HashList)
          → (l1.digest k ≡ l.digest k) ⊎ (l1.digest k ≡ reference h file k)
          → (l2.digest k ≡ l1.digest k) ⊎ (l2.digest k ≡ reference h file k)
          → (l2.digest k ≡ l.digest k) ⊎ (l2.digest k ≡ reference h file k)
      by_kept k l1 l2 x (inr f) = inr f
      by_kept k l1 l2 (inl e) (inl f) = inl (f ∙ e)
      by_kept k l1 l2 (inr e) (inl f) = inr (f ∙ e)

      by_cover :
          (k : ℕ) (l1 l2 : HashList)
          → Hashed v.first (r.offset + r.size) l l1
          → (Covered h file k rs → l2.digest k ≡ reference h file k)
            × ((l2.digest k ≡ l1.digest k) ⊎ (l2.digest k ≡ reference h file k))
          → Covered h file k (r ∷ rs)
          → l2.digest k ≡ reference h file k
      by_cover k l1 l2 g (later, kept) (inr c) = later c
      by_cover k l1 l2 g (later, inr f) (inl c) = f
      by_cover k l1 l2 g (later, inl f) (inl (from, upto)) =
          f
          ∙ g.done k (le_of_mul-le-mul_right (subst (λ x. x ≤ k * h.chunk_size) v.starts from) pos)
              upto

pub concat_digests-agree :
    (n : ℕ) (d e : ℕ → Text)
    → ((k : ℕ) → k < n → d k ≡ e k)
    → concat_digests n d ≡ concat_digests n e
unfolding concat_digests
concat_digests-agree zero d e h = refl
concat_digests-agree (suc n) d e h =
    let front = concat_digests-agree n d e (λ k lt. h k (omega arith)) in
    rw (front, h n (omega arith))
