-- ===== src/Fs/Object/Xattr/RoundTrip.antt =====
-- An extended attribute that is sent as a header and read back.
use s3fuse.Prelude.{
  ℕ, ◌≡◌, ◌≤◌, ◌≢◌, length, refl, Bool, true, false, [], ◌∷◌, ◌++◌, Option, some, All, arith,
  Bool-cases, ◌⊎◌, inl, inr,
}
use s3fuse.Prelude.Code.{ret}
use s3fuse.Prelude.Text.{Text}
use s3fuse.Fs.Object.Xattr.{
  Mode, Xattr, starts_with, xattr_prefix, is_key_valid, is_value_valid, new_xattr, create_xattr,
  set_value, get_value, from_string, c_string, split_space, Base64, hide_if_empty, to_header,
  decode_parts, from_header,
}

starts_with-append : (p s : Text) → starts_with p (p ++ s) ≡ true
unfolding starts_with
starts_with-append [] s = refl
starts_with-append (c ∷ p) s = ground (arith, starts_with-append p s)

c_string-append : (s : Text) → All (λ c. c ≢ 0) s → c_string (s ++ (0 ∷ [])) ≡ s
unfolding c_string
c_string-append [] h = refl
c_string-append (c ∷ s) (hc, h) = ground (arith, c_string-append s h)

split_space-append : (a b : Text) → All (λ c. c ≢ 32) a → split_space (a ++ (32 ∷ b)) ≡ some (a, b)
unfolding split_space
split_space-append [] b h = refl
split_space-append (c ∷ a) b (hc, h) = ground (arith, split_space-append a b h)

valid_key-plain : (key : Text) → is_key_valid key ≡ true → starts_with xattr_prefix key ≡ false
unfolding is_key_valid
valid_key-plain key h = ground arith

module _ (b : Base64) where
  decode_parts-encode :
      (key value : Text) (mode : Mode)
      → All (λ c. c ≢ 0) key
      → decode_parts b (b.encode_bytes (key ++ (0 ∷ []))) (b.encode_bytes value) mode
        ≡ some (hide_if_empty (record (new_xattr key true true mode) { value = value }))
  unfolding decode_parts hide_if_empty
  decode_parts-encode key value mode plain = rw (
    b.decode-encode_bytes (key ++ (0 ∷ [])),
    b.decode-encode_bytes value,
    c_string-append key plain,
    decode_parts,
  )

  from_header-encoded :
      (name key value : Text) (mode : Mode)
      → All (λ c. c ≢ 0) key
      → from_header b
          (xattr_prefix ++ name)
          (b.encode_bytes (key ++ (0 ∷ [])) ++ (32 ∷ b.encode_bytes value))
          mode
        ≡ some (hide_if_empty (record (new_xattr key true true mode) { value = value }))
  unfolding from_header
  from_header-encoded name key value mode plain = rw (
    starts_with-append xattr_prefix name,
    split_space-append (b.encode_bytes (key ++ (0 ∷ []))) (b.encode_bytes value)
        (b.no_spaces (key ++ (0 ∷ []))),
    decode_parts-encode key value mode plain,
  )

  from_header-plain :
      (key value : Text) (mode : Mode)
      → is_key_valid key ≡ true
      → from_header b key value mode
        ≡ some (hide_if_empty (record (new_xattr key false false mode) { value = value }))
  unfolding from_header
  from_header-plain key value mode valid = rw (valid_key-plain key valid)

-- What an attribute keeps on its way through a header: its key, its value and its mode.
abbrev Agrees : Xattr → Xattr → Type 0
Agrees x y = (y.key ≡ x.key) × (y.value ≡ x.value) × (y.mode ≡ x.mode)

abbrev ReadBackAs : Xattr → Option Xattr → Type 0
ReadBackAs x o = (y : Xattr) × (o ≡ some y) × Agrees x y

hidden-Agrees :
    (key value : Text) (mode : Mode) (e : Bool)
    → Agrees
        (from_string key value mode)
        (hide_if_empty (record (new_xattr key e e mode) { value = value }))
unfolding from_string create_xattr new_xattr set_value hide_if_empty
hidden-Agrees key value mode e = ground arith

-- The header of an attribute with one part encoded, and of one with none.
header-encoded :
    (b : Base64) (hash_of : Text → Text) (key value : Text) (mode : Mode)
    → (is_key_valid key ≡ false) ⊎ (is_value_valid value ≡ false)
    → to_header b hash_of (from_string key value mode) ≡ (
      xattr_prefix ++ hash_of key,
      b.encode_bytes (key ++ (0 ∷ [])) ++ (32 ∷ b.encode_bytes value),
    )
unfolding to_header from_string create_xattr new_xattr set_value
header-encoded b hash_of key value mode (inl h) = rw h
header-encoded b hash_of key value mode (inr h) = elim (Bool-cases (is_key_valid key)) [
  | inl k ↦ rw (h, k)
  | inr k ↦ rw (h, k)
]

header-plain :
    (b : Base64) (hash_of : Text → Text) (key value : Text) (mode : Mode)
    → is_key_valid key ≡ true
    → is_value_valid value ≡ true
    → to_header b hash_of (from_string key value mode) ≡ (key, value)
unfolding to_header from_string create_xattr new_xattr set_value
header-plain b hash_of key value mode hk hv = rw (hk, hv)

abbrev pub Survives : Base64 → (Text → Text) → Text → Text → Mode → Type 0
Survives b hash_of key value mode =
    let x = from_string key value mode in
    let header = to_header b hash_of x in ReadBackAs x (from_header b header.0 header.1 mode)

Survives-encoded :
    (b : Base64) (hash_of : Text → Text) (key value : Text) (mode : Mode)
    → All (λ c. c ≢ 0) key
    → (is_key_valid key ≡ false) ⊎ (is_value_valid value ≡ false)
    → Survives b hash_of key value mode
Survives-encoded b hash_of key value mode plain h =
    rw (header-encoded b hash_of key value mode h) (
      _,
      from_header-encoded b (hash_of key) key value mode plain,
      hidden-Agrees key value mode true,
    )

-- An attribute that is set from a string survives the trip through a header, whether or not its
-- key and its value are encoded, if its key holds no null character.
pub from_header-to_header :
    (b : Base64) (hash_of : Text → Text) (key value : Text) (mode : Mode)
    → All (λ c. c ≢ 0) key
    → Survives b hash_of key value mode
from_header-to_header b hash_of key value mode plain = elim (Bool-cases (is_key_valid key)) [
  | inr k ↦ Survives-encoded b hash_of key value mode plain (inl k)
  | inl k ↦ elim (Bool-cases (is_value_valid value)) [
    | inr v ↦ Survives-encoded b hash_of key value mode plain (inr v)
    | inl v ↦
        rw (header-plain b hash_of key value mode k v)
          (_, from_header-plain b key value mode k, hidden-Agrees key value mode false)
  ]
]

pub get_value-set_value :
    (value : Text) (x : Xattr) (size : ℕ)
    → length value ≤ size
    → get_value (some size) (set_value value x) ≡ (ret (length value), value)
unfolding get_value set_value
get_value-set_value value x size h = ground arith
