-- ===== src/Crypto/Hex/Runs.antt =====
-- Tests of hex.cc and the theorems at concrete inputs.
use s3fuse.Prelude.{ℕ, ◌≡◌, refl, List, [], ◌∷◌, some, none, arith}
use s3fuse.Crypto.Hex.{
  encode, decode, encode_quoted, decode_quoted, hex_digit, decode_pairs, hex_char_to_int,
}
use s3fuse.Crypto.Hex.RoundTrip.{decode-encode, decode_quoted-encode_quoted}

abbrev bytes : List ℕ
bytes = 0 ∷ 0xab ∷ 0xff ∷ []

encode_run : encode (0x1f ∷ []) ≡ b'1' ∷ b'f' ∷ []
unfolding encode hex_digit
encode_run = refl

decode_odd : decode (b'1' ∷ []) ≡ none
unfolding decode
decode_odd = refl

-- An upper-case digit is not refused, and is read as another number.
decode_upper : decode (b'0' ∷ b'A' ∷ []) ≡ some (17 ∷ [])
unfolding decode decode_pairs hex_char_to_int
decode_upper = refl

decode-encode_example : decode (encode bytes) ≡ some bytes
decode-encode_example = decode-encode bytes (omega arith)

decode_quoted-encode_quoted_example : decode_quoted (encode_quoted bytes) ≡ some bytes
decode_quoted-encode_quoted_example = decode_quoted-encode_quoted bytes (omega arith)
