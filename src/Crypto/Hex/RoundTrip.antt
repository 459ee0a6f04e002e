-- ===== src/Crypto/Hex/RoundTrip.antt =====
-- hex.cc: what `encode` writes, `decode` reads back.
use s3fuse.Prelude.{
  ℕ, suc, ◌+◌, ◌*◌, ◌/◌, ◌%◌, ◌-◌, ◌<◌, ◌≡◌, refl, true, List, [], ◌∷◌, ◌++◌, some, arith, ==_iff,
  ◌==◌, All, every, every_holds, length, length-append, get_or, take, drop,
}
use s3fuse.Crypto.Hex.{
  IsByte, hex_digit, hex_char_to_int, encode, decode_pairs, decode, encode_quoted, decode_quoted,
  is_hex, all_hex, is_valid_quoted_hex_hash,
}

pair_table :
    every
      (λ b.
        (hex_char_to_int (hex_digit (b / 16)) * 16 + hex_char_to_int (hex_digit (b % 16))) % 256
        == b)
      256
    ≡ true
unfolding every hex_char_to_int hex_digit
pair_table = refl

pair :
    (b : ℕ)
    → IsByte b
    → (hex_char_to_int (hex_digit (b / 16)) * 16 + hex_char_to_int (hex_digit (b % 16))) % 256 ≡ b
pair b h = (==_iff _ b).0 (every_holds _ 256 b h pair_table)

pub length-encode : (bs : List ℕ) → length (encode bs) ≡ 2 * length bs
unfolding encode
length-encode [] = refl
length-encode (b ∷ bs) = omega (arith, length-encode bs)

decode_pairs-encode : (bs : List ℕ) → All IsByte bs → decode_pairs (encode bs) ≡ bs
unfolding encode decode_pairs
decode_pairs-encode [] h = refl
decode_pairs-encode (b ∷ bs) (hb, h) = rw (pair b hb, decode_pairs-encode bs h)

-- Decoding the text of a sequence of bytes gives the bytes back.
pub decode-encode : (bs : List ℕ) → All IsByte bs → decode (encode bs) ≡ some bs
unfolding decode
decode-encode bs h = ground (arith, length-encode bs, decode_pairs-encode bs h)

take_all : {A : Type 0} (xs : List A) (y : A) → take (length xs) (xs ++ (y ∷ [])) ≡ xs
take_all [] y = refl
take_all (x ∷ xs) y = rw (take_all xs y)

last_char : (xs : List ℕ) (y : ℕ) → get_or (xs ++ (y ∷ [])) (length xs) 0 ≡ y
last_char [] y = refl
last_char (x ∷ xs) y = last_char xs y

quoted_length : (bs : List ℕ) → length (encode_quoted bs) ≡ suc (suc (length (encode bs)))
unfolding encode_quoted
quoted_length bs = omega (arith, length-append (encode bs) (b'"' ∷ []))

length-suc : (n : ℕ) → suc (suc n) - 2 ≡ n
length-suc n = omega arith

last_quote : (bs : List ℕ) → get_or (encode_quoted bs) (length (encode_quoted bs) - 1) 0 ≡ b'"'
unfolding encode_quoted
last_quote bs =
    rw (length-append (encode bs) (b'"' ∷ []), plus_one (length (encode bs)))
      (last_char (encode bs) b'"')
  where
    plus_one : (n : ℕ) → suc (n + 1) - 1 ≡ suc n
    plus_one n = omega arith

inside :
    (bs : List ℕ) → take (length (encode_quoted bs) - 2) (drop 1 (encode_quoted bs)) ≡ encode bs
inside bs =
    rw (quoted_length bs, length-suc (length (encode bs)))
      (unfold encode_quoted in take_all (encode bs) b'"')

-- For a sequence of bytes, decode_quoted returns what encode_quoted was given.
pub decode_quoted-encode_quoted :
    (bs : List ℕ) → All IsByte bs → decode_quoted (encode_quoted bs) ≡ some bs
unfolding decode_quoted
decode_quoted-encode_quoted bs h =
    rw (inside bs, last_quote bs) (unfold encode_quoted in decode-encode bs h)

digit_table : every (λ n. is_hex (hex_digit n)) 16 ≡ true
unfolding every is_hex hex_digit
digit_table = refl

digit-is_hex : (n : ℕ) → n < 16 → is_hex (hex_digit n) ≡ true
digit-is_hex n h = every_holds _ 16 n h digit_table

encode-all_hex : (bs : List ℕ) → All IsByte bs → all_hex (encode bs) ≡ true
unfolding all_hex encode
encode-all_hex [] h = refl
encode-all_hex (b ∷ bs) (hb, h) =
    rw (digit-is_hex (b / 16) (omega arith), digit-is_hex (b % 16) (omega arith))
      (encode-all_hex bs h)

pub encode_quoted-is_valid :
    (bs : List ℕ) → All IsByte bs → is_valid_quoted_hex_hash (encode_quoted bs) ≡ (length bs == 16)
unfolding is_valid_quoted_hex_hash
encode_quoted-is_valid bs h =
    rw (inside bs, last_quote bs, encode-all_hex bs h, quoted_length bs, length-encode bs)
      (unfold encode_quoted in ground arith)
