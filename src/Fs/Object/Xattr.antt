-- ===== src/Fs/Object/Xattr.antt =====
-- fs/static_xattr.cc, the flags of fs/xattr.h and the names of fs/metadata.cc. Base64 (OpenSSL) and
-- the hash of a key are arguments. `none` stands for a thrown runtime_error.
pub mod RoundTrip
use s3fuse.Prelude.{
  ℕ, ◌+◌, ◌≡◌, ◌≤◌, ◌<◌, ◌≢◌, Bool, true, false, ◌&&◌, ◌||◌, not, List, [], ◌∷◌, ◌++◌, Option, none,
  some, ltb, leb, ◌==◌, if◌then◌else◌, length, take, All,
}
use s3fuse.Prelude.Code.{Code, ret, err, success, erange}
use s3fuse.Prelude.Text.{Text, codes, is_empty}

-- The bits of access_mode.
pub record Mode : Type 0 where
  pub writable : Bool
  pub serializable : Bool
  pub visible : Bool
  pub removable : Bool
  pub commit_required : Bool

pub record Xattr : Type 0 where
  pub key : Text
  pub value : Text
  pub encode_key : Bool
  pub encode_value : Bool
  pub hide_on_empty : Bool
  pub mode : Mode

-- `strncmp(s, prefix, strlen(prefix)) == 0`
unfoldable pub starts_with : Text → Text → Bool
starts_with [] s = true
starts_with (p ∷ ps) [] = false
starts_with (p ∷ ps) (c ∷ s) = p == c && starts_with ps s

abbrev reserved_prefix : Text
reserved_prefix = codes "s3fuse-"

abbrev xattr_prefix : Text
xattr_prefix = codes "s3fuse_xattr_"

unfoldable pub is_key_char : ℕ → Bool
is_key_char c =
    c == b'.' || c == b'-' || c == b'_' || (leb b'0' c && leb c b'9') || (leb b'a' c && leb c b'z')

unfoldable pub all_chars : (ℕ → Bool) → Text → Bool
all_chars p [] = true
all_chars p (c ∷ s) = p c && all_chars p s

unfoldable pub is_key_valid : Text → Bool
unfolding is_key_char all_chars
is_key_valid key =
    if starts_with reserved_prefix key
    then false
    else if starts_with xattr_prefix key
    then false
    else all_chars is_key_char key

abbrev max_string_scan_len : ℕ
max_string_scan_len = 128

-- A char above 127 is negative, hence below 32.
unfoldable pub is_value_char : ℕ → Bool
is_value_char c = not (ltb c 32 || leb 127 c)

unfoldable pub is_value_valid : Text → Bool
unfolding is_value_char all_chars
is_value_valid s = if ltb max_string_scan_len (length s) then false else all_chars is_value_char s

unfoldable pub new_xattr : Text → Bool → Bool → Mode → Xattr
new_xattr key encode_key encode_value mode = record {
  key = key;
  value = [];
  encode_key = encode_key;
  encode_value = encode_value;
  hide_on_empty = mode.visible;
  mode = mode;
}

unfoldable pub create_xattr : Text → Mode → Xattr
unfolding new_xattr
create_xattr key mode = new_xattr key (not (is_key_valid key)) true mode

-- XM_VISIBLE follows the size, if the attribute is hidden while it is empty.
unfoldable pub set_value : Text → Xattr → Xattr
set_value s x = record x {
  value = s;
  encode_value = not (is_value_valid s);
  mode = if x.hide_on_empty then record x.mode { visible = not (is_empty s) } else x.mode;
}

unfoldable pub from_string : Text → Text → Mode → Xattr
unfolding create_xattr set_value
from_string key s mode = set_value s (create_xattr key mode)

-- The code, and what is copied into the caller's buffer; `none` is the null buffer.
unfoldable pub get_value : Option ℕ → Xattr → Code × Text
get_value none x = (ret (length x.value), [])
get_value (some max_size) x =
    if ltb max_size (length x.value)
    then (err erange, take max_size x.value)
    else (ret (length x.value), x.value)

-- The C string at the start of a vector.
unfoldable pub c_string : Text → Text
c_string [] = []
c_string (c ∷ s) = let rest = c_string s in if c == 0 then [] else c ∷ rest

-- `find(' ')`: what stands before and behind the first space.
unfoldable pub split_space : Text → Option (Text × Text)
split_space [] = none
split_space (c ∷ s) = elim (c == 32) [
  | true ↦ some ([], s)
  | false ↦ elim (split_space s) [ none ↦ none | some (a, b) ↦ some (c ∷ a, b) ]
]

-- Base64 as the source uses it: it decodes what it has encoded, and writes no spaces.
pub record Base64 : Type 0 where
  pub encode_bytes : Text → Text
  pub decode_bytes : Text → Option Text
  pub decode-encode_bytes : (s : Text) → decode_bytes (encode_bytes s) ≡ some s
  pub no_spaces : (s : Text) → All (λ c. c ≢ 32) (encode_bytes s)

unfoldable hide_if_empty : Xattr → Xattr
hide_if_empty x =
    if x.hide_on_empty && is_empty x.value
    then record x { mode = record x.mode { visible = false } }
    else x

module _ (b : Base64) (hash_of : Text → Text) where
  -- The name and the value of the header. A std::string is encoded with its terminating null.
  unfoldable pub to_header : Xattr → Text × Text
  to_header x =
      if x.encode_key || x.encode_value
      then (
        xattr_prefix ++ hash_of x.key,
        b.encode_bytes (x.key ++ (0 ∷ [])) ++ (32 ∷ b.encode_bytes x.value),
      )
      else (x.key, x.value)

module _ (b : Base64) where
  -- from_header once the value is split into an encoded key and an encoded value.
  unfoldable decode_parts : Text → Text → Mode → Option Xattr
  unfolding hide_if_empty new_xattr
  decode_parts k v mode = elim (b.decode_bytes k) [
    | none ↦ none
    | some key ↦ elim (b.decode_bytes v) [
      | none ↦ none
      | some s ↦
          some (hide_if_empty (record (new_xattr (c_string key) true true mode) { value = s }))
    ]
  ]

  unfoldable pub from_header : Text → Text → Mode → Option Xattr
  unfolding decode_parts
  from_header header_key header_value mode =
      if starts_with xattr_prefix header_key
      then elim (split_space header_value) [ none ↦ none | some (k, v) ↦ decode_parts k v mode ]
      else some
          (hide_if_empty (record (new_xattr header_key false false mode) { value = header_value }))
