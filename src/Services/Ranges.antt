-- ===== src/Services/Ranges.antt =====
-- The parts of a transfer: the loops that fill `parts` in download_multi (services/file_transfer.cc)
-- and in the two upload_multi (services/aws and services/gs). size_t has 64 bits.
use s3fuse.Prelude.{
  ℕ, zero, suc, ◌+◌, ◌-◌, ◌*◌, ◌/◌, ◌%◌, ◌^◌, ◌≤◌, ◌<◌, ◌≡◌, refl, ap, subst, List, [], ◌∷◌, not,
  if◌then◌else◌, ◌==◌, arith, length, get_elem?, some, ◌∙◌,
}
use native.Mathlib.Nat.{zero-add, div-mul-le_self, lt-div-mul-add, mod-eq_of_lt}

pub record Range : Type 0 where
  pub size : ℕ
  pub offset : ℕ

abbrev pub word : ℕ
word = 2 ^ 64

-- `(size + chunk - 1) / chunk`, for a chunk of at least one byte.
abbrev pub num_parts : ℕ → ℕ → ℕ
num_parts size chunk = (size + chunk - 1) % word / chunk

abbrev pub part_range : ℕ → ℕ → ℕ → ℕ → Range
part_range size chunk n i = record {
  size = if not (i == n - 1) then chunk else size - chunk * i;
  offset = i * chunk;
}

-- The `k` parts from number `i` on, of `n` in all.
unfoldable pub fill : ℕ → ℕ → ℕ → ℕ → ℕ → List Range
fill size chunk n i zero = []
fill size chunk n i (suc k) = part_range size chunk n i ∷ fill size chunk n (suc i) k

unfoldable pub parts : ℕ → ℕ → List Range
parts size chunk = fill size chunk (num_parts size chunk) 0 (num_parts size chunk)

-- The ranges follow one another from `a` to `size`, and none is empty or longer than a chunk.
abbrev pub Tiles : ℕ → ℕ → ℕ → List Range → Type 0
Tiles chunk size a [] = a ≡ size
Tiles chunk size a (r ∷ rs) =
    (r.offset ≡ a) × (0 < r.size) × (r.size ≤ chunk) × Tiles chunk size (a + r.size) rs

last_size : (size chunk n i : ℕ) → suc i ≡ n → (part_range size chunk n i).size ≡ size - chunk * i
last_size size chunk n i e = ground arith

inner_size : (size chunk n i : ℕ) → suc i < n → (part_range size chunk n i).size ≡ chunk
inner_size size chunk n i h = ground arith

fill-Tiles :
    (size chunk n i k : ℕ)
    → 0 < chunk
    → i + suc k ≡ n
    → size ≤ n * chunk
    → (n - 1) * chunk < size
    → Tiles chunk size (i * chunk) (fill size chunk n i (suc k))
unfolding fill
fill-Tiles size chunk n i zero hc e hi lo =
    let k : n - 1 ≡ i = omega arith in
    let below : i * chunk < size = rw (← k) lo in
    let above : size ≤ i * chunk + chunk = omega (arith, ap (λ (t : ℕ). t * chunk) e) in
    rw (last_size size chunk n i (omega arith)) (refl, omega arith, omega arith, omega arith)
fill-Tiles size chunk n i (suc k) hc e hi lo =
    rw (inner_size size chunk n i (omega arith))
      (refl, hc, omega arith, rw (next) (fill-Tiles size chunk n (suc i) k hc (omega arith) hi lo))
  where
    next : i * chunk + chunk ≡ suc i * chunk
    next = omega arith

pub num_parts_bounds :
    (size chunk : ℕ)
    → 0 < chunk
    → 0 < size
    → size + chunk ≤ word
    → (0 < num_parts size chunk)
      × (size ≤ num_parts size chunk * chunk)
      × ((num_parts size chunk - 1) * chunk < size)
num_parts_bounds size chunk hc hs hw = rw fits (
    bounds (total / chunk) (omega (arith, div-mul-le_self total chunk))
      (omega (arith, lt-div-mul-add {a = total} {b = chunk} hc)))
  where
    total : ℕ
    total = size + chunk - 1

    fits : total % word ≡ total
    fits = mod-eq_of_lt (omega arith)

    bounds :
        (q : ℕ)
        → q * chunk ≤ size + chunk - 1
        → size + chunk ≤ q * chunk + chunk
        → (0 < q) × (size ≤ q * chunk) × ((q - 1) * chunk < size)
    bounds zero lo hi = absurd (omega arith)
    bounds (suc q) lo hi = rw pred_suc (omega arith, omega arith, omega arith)
      where
        pred_suc : suc q - 1 ≡ q
        pred_suc = omega arith

-- For a positive size and chunk whose sum fits a size_t, the parts cover the file from its first
-- byte to its last, one after the other, each at least one byte and at most a chunk long.
pub parts-Tiles :
    (size chunk : ℕ)
    → 0 < chunk
    → 0 < size
    → size + chunk ≤ word
    → Tiles chunk size 0 (parts size chunk)
unfolding parts
parts-Tiles size chunk hc hs hw =
    let (pos, hi, lo) = num_parts_bounds size chunk hc hs hw in
    let e : suc (num_parts size chunk - 1) ≡ num_parts size chunk = omega arith in
    subst (λ n. Tiles chunk size 0 (fill size chunk (num_parts size chunk) 0 n)) e
      (rw origin at (
        fill-Tiles size chunk (num_parts size chunk) 0 (num_parts size chunk - 1) hc (omega arith)
          hi lo))
  where
    origin : 0 * chunk ≡ 0
    origin = omega arith

pub length-fill : (size chunk n i k : ℕ) → length (fill size chunk n i k) ≡ k
unfolding fill
length-fill size chunk n i zero = refl
length-fill size chunk n i (suc k) = ap suc (length-fill size chunk n (suc i) k)

pub length-parts : (size chunk : ℕ) → length (parts size chunk) ≡ num_parts size chunk
unfolding parts
length-parts size chunk = length-fill size chunk (num_parts size chunk) 0 (num_parts size chunk)

pub get-fill :
    (size chunk n i k j : ℕ)
    → j < k
    → get_elem? (fill size chunk n i k) j ≡ some (part_range size chunk n (i + j))
unfolding fill
get-fill size chunk n i zero j h = absurd (omega arith)
get-fill size chunk n i (suc k) zero h = rw zero_right
  where
    zero_right : i + 0 ≡ i
    zero_right = omega arith
get-fill size chunk n i (suc k) (suc j) h =
    rw shift (get-fill size chunk n (suc i) k j (omega arith))
  where
    shift : i + suc j ≡ suc i + j
    shift = omega arith

-- `parts[i]`
pub get-parts :
    (size chunk i : ℕ)
    → i < num_parts size chunk
    → get_elem? (parts size chunk) i ≡ some (part_range size chunk (num_parts size chunk) i)
unfolding parts
get-parts size chunk i h =
    get-fill size chunk (num_parts size chunk) 0 (num_parts size chunk) i h ∙ rw zero-add
