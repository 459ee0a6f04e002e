-- ===== src/Crypto/HashList/Slices.antt =====
-- Slices of a file, and the hash of one of them.
use s3fuse.Prelude.{
  ℕ, zero, suc, ◌+◌, ◌-◌, ◌*◌, ◌≤◌, ◌<◌, ◌≡◌, refl, sym, ◌∙◌, ap, subst, true, false, List, [], ◌∷◌,
  ltb, if◌then◌else◌, length, take, drop, length-take, length-drop, arith, ◌⊎◌, inl, inr,
  Bool-cases,
}
use native.Mathlib.Nat.{lt_of_mul-lt-mul_right, mul-le-mul_right, add-mul}
use s3fuse.Prelude.Text.{Text}
use s3fuse.Crypto.HashList.{HashType}

module _ {ℓ} {A : Type ℓ} where
  take_nil : (k : ℕ) → ◌≡◌ {A = List A} [] (take k [])
  take_nil zero = refl
  take_nil (suc k) = refl

  drop_nil : (k : ℕ) → ◌≡◌ {A = List A} [] (drop k [])
  drop_nil zero = refl
  drop_nil (suc k) = refl

  pub drop-take : (o n : ℕ) (xs : List A) → drop o (take n xs) ≡ take (n - o) (drop o xs)
  drop-take zero n xs = let e : n - 0 ≡ n = omega arith in rw e
  drop-take (suc o) zero xs = let e : 0 - suc o ≡ 0 = omega arith in rw e
  drop-take (suc o) (suc n) [] = take_nil (suc n - suc o)
  drop-take (suc o) (suc n) (x ∷ xs) =
      let e : suc n - suc o ≡ n - o = omega arith in rw e (drop-take o n xs)

  pub drop-drop : (a b : ℕ) (xs : List A) → drop a (drop b xs) ≡ drop (b + a) xs
  drop-drop a zero xs = let e : 0 + a ≡ a = omega arith in rw e
  drop-drop a (suc b) [] = sym (drop_nil a) ∙ drop_nil (suc b + a)
  drop-drop a (suc b) (x ∷ xs) =
      let e : suc b + a ≡ suc (b + a) = omega arith in rw e (drop-drop a b xs)

  pub take-take : (a b : ℕ) (xs : List A) → a ≤ b → take a (take b xs) ≡ take a xs
  take-take zero b xs h = refl
  take-take (suc a) zero xs h = absurd (omega arith)
  take-take (suc a) (suc b) [] h = refl
  take-take (suc a) (suc b) (x ∷ xs) h = ap (λ r. x ∷ r) (take-take a b xs (omega arith))

  pub take_all : (n : ℕ) (xs : List A) → length xs ≤ n → take n xs ≡ xs
  take_all zero [] h = refl
  take_all zero (x ∷ xs) h = absurd (omega arith)
  take_all (suc n) [] h = refl
  take_all (suc n) (x ∷ xs) h = ap (λ r. x ∷ r) (take_all n xs (omega arith))

-- The bytes of a file from an offset on, and its chunk with a number.
abbrev pub slice : Text → ℕ → ℕ → Text
slice file offset size = take size (drop offset file)

abbrev pub chunk_of : HashType → Text → ℕ → Text
chunk_of h file k = slice file (k * h.chunk_size) h.chunk_size

-- A range starts with a chunk, and ends with one or with the file.
pub record IsAligned (h : HashType) (file : Text) (offset size : ℕ) : Type 0 where
  pub first : ℕ
  pub starts : offset ≡ first * h.chunk_size
  pub inside : offset + size ≤ length file
  pub ends : (offset + size ≡ length file) ⊎ ((n : ℕ) × (size ≡ n * h.chunk_size))

pub length-slice :
    (file : Text) (offset size : ℕ)
    → offset + size ≤ length file
    → length (slice file offset size) ≡ size
length-slice file offset size h =
    omega (arith, length-take size (drop offset file), length-drop offset file)

-- A whole chunk, or what is left where that is all.
take_chunk :
    (c left : ℕ) (xs : Text)
    → (left ≡ length xs) ⊎ (c ≤ left)
    → take (if ltb c left then c else left) xs ≡ take c xs
take_chunk c left xs h = by_size (Bool-cases (ltb c left)) h
  where
    by_size :
        (ltb c left ≡ true) ⊎ (ltb c left ≡ false)
        → (left ≡ length xs) ⊎ (c ≤ left)
        → take (if ltb c left then c else left) xs ≡ take c xs
    by_size (inl b) e = rw b
    by_size (inr b) (inl e) =
        rw b (take_all left xs (omega arith) ∙ sym (take_all c xs (ground arith)))
    by_size (inr b) (inr e) = let same : left ≡ c = ground arith in rw (b, same)

-- What the loop takes for the chunk behind `o` is that chunk of the file.
pub chunk_of-slice :
    (h : HashType) (file : Text) (offset size : ℕ) (v : IsAligned h file offset size) (m : ℕ)
    → m * h.chunk_size < size
    → 0 < h.chunk_size
    → take
        (if ltb h.chunk_size (size - m * h.chunk_size)
          then h.chunk_size
          else size - m * h.chunk_size)
        (drop (m * h.chunk_size) (slice file offset size))
      ≡ chunk_of h file (v.first + m)
chunk_of-slice h file offset size v m lt pos =
    ap (take cs) (drop-take o size (drop offset file) ∙ ap (take left) (drop-drop o offset file))
    ∙ take-take cs left (drop (offset + o) file) (ground arith)
    ∙ ap (λ at. take cs (drop at file)) place
    ∙ take_chunk h.chunk_size left (drop ((v.first + m) * h.chunk_size) file) whole
  where
    o : ℕ
    o = m * h.chunk_size

    left : ℕ
    left = size - o

    cs : ℕ
    cs = if ltb h.chunk_size left then h.chunk_size else left

    place : offset + o ≡ (v.first + m) * h.chunk_size
    place = ap (λ x. x + o) v.starts ∙ sym (add-mul v.first m h.chunk_size)

    whole : (left ≡ length (drop ((v.first + m) * h.chunk_size) file)) ⊎ (h.chunk_size ≤ left)
    whole = elim v.ends [
      | inl e ↦ inl (omega (arith, length-drop ((v.first + m) * h.chunk_size) file, place))
      | inr (n, e) ↦
          let after : m < n =
            lt_of_mul-lt-mul_right h.chunk_size (subst (λ x. m * h.chunk_size < x) e lt) in
          let more : suc m * h.chunk_size ≤ n * h.chunk_size =
            mul-le-mul_right h.chunk_size after in
          inr (omega arith)
    ]
