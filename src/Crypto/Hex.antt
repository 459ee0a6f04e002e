-- ===== src/Crypto/Hex.antt =====
-- crypto/hex.cc and crypto/hex_with_quotes.h. A byte or a char is a number below 256, a string or
-- a vector is a list of them, and `none` stands for a thrown runtime_error.
mod RoundTrip
mod Runs
use s3fuse.Prelude.{
  ℕ, ◌+◌, ◌*◌, ◌/◌, ◌%◌, ◌<◌, Bool, true, ◌&&◌, ◌||◌, List, [], ◌∷◌, ◌++◌, Option, none, some, ltb,
  leb, ◌==◌, not, if◌then◌else◌, length, get_or, take, drop, ◌-◌,
}

abbrev pub IsByte : ℕ → Type 0
IsByte b = b < 256

-- The characters of "0123456789abcdef".
abbrev digits : List ℕ
digits = 48 ∷ 49 ∷ 50 ∷ 51 ∷ 52 ∷ 53 ∷ 54 ∷ 55 ∷ 56 ∷ 57 ∷ 97 ∷ 98 ∷ 99 ∷ 100 ∷ 101 ∷ 102 ∷ []

-- `HEX[n]`; n is below 16, so the default is not reached.
hex_digit : ℕ → ℕ
hex_digit n = get_or digits n 0

-- The int result modulo 256, which is all that reaches the output byte. A char above 127 is
-- negative, hence below 'a'.
hex_char_to_int : ℕ → ℕ
hex_char_to_int c = if ltb c b'a' || leb 128 c then (c + 256 - b'0') % 256 else c - b'a' + 10

pub encode : List ℕ → List ℕ
encode [] = []
encode (b ∷ bs) = hex_digit (b / 16) ∷ hex_digit (b % 16) ∷ encode bs

-- The loop over pairs of characters; the length is even.
decode_pairs : List ℕ → List ℕ
decode_pairs [] = []
decode_pairs (c ∷ []) = []
decode_pairs (c ∷ d ∷ s) = (hex_char_to_int c * 16 + hex_char_to_int d) % 256 ∷ decode_pairs s

pub decode : List ℕ → Option (List ℕ)
decode s = if length s % 2 == 0 then some (decode_pairs s) else none

-- hex_with_quotes
pub encode_quoted : List ℕ → List ℕ
encode_quoted bs = b'"' ∷ encode bs ++ (b'"' ∷ [])

-- `input.substr(1, input.size() - 2)` between the tests of the first and the last character. The
-- source reads `input[-1]` of an empty string; the model refuses it.
pub decode_quoted : List ℕ → Option (List ℕ)
decode_quoted s =
    if not (get_or s 0 0 == b'"') || not (get_or s (length s - 1) 0 == b'"')
    then none
    else decode (take (length s - 2) (drop 1 s))

-- The loop of md5::is_valid_quoted_hex_hash, whose test for one character is `is_hex`.
is_hex : ℕ → Bool
is_hex c =
    not ((ltb c b'0' || ltb b'9' c) && (ltb c b'a' || ltb b'f' c) && (ltb c b'A' || ltb b'F' c))

all_hex : List ℕ → Bool
all_hex [] = true
all_hex (c ∷ s) = is_hex c && all_hex s

-- md5::is_valid_quoted_hex_hash: 2 * HASH_LEN + 2 characters.
pub is_valid_quoted_hex_hash : List ℕ → Bool
is_valid_quoted_hex_hash s =
    length s == 34
    && get_or s 0 0 == b'"'
    && get_or s (length s - 1) 0 == b'"'
    && all_hex (take (length s - 2) (drop 1 s))
