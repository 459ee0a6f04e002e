-- ===== src/Fs/Object/Metadata.antt =====
-- The calls of fs/object.cc on the map of extended attributes, where NEED_XATTR_PREFIX is defined.
-- The map is a list of keys and attributes; its order is that of insertion.
pub mod Laws
use s3fuse.Prelude.{
  ℕ, ◌+◌, Bool, true, false, ◌&&◌, ◌||◌, not, List, [], ◌∷◌, ◌++◌, Option, none, some, ltb,
  if◌then◌else◌, length, drop,
}
use s3fuse.Prelude.Code.{Code, err, success, einval, eexist, enodata}
use s3fuse.Prelude.Text.{Text, codes, same}
use s3fuse.Fs.Object.Xattr.{Mode, Xattr, create_xattr, set_value, get_value, starts_with}

abbrev pub XattrMap : Type 0
XattrMap = List (Text × Xattr)

unfoldable pub find : Text → XattrMap → Option Xattr
find key [] = none
find key ((k, x) ∷ m) = let rest = find key m in if same k key then some x else rest

-- The value of a key that is there, replaced; a key that is not there, inserted.
unfoldable pub put : Text → Xattr → XattrMap → XattrMap
put key x [] = (key, x) ∷ []
put key x ((k, y) ∷ m) = let rest = put key x m in if same k key then (k, x) ∷ m else (k, y) ∷ rest

unfoldable pub erase : Text → XattrMap → XattrMap
erase key [] = []
erase key ((k, x) ∷ m) = let rest = erase key m in if same k key then rest else (k, x) ∷ rest

-- XATTR_PREFIX and its length.
abbrev pub user_prefix : Text
user_prefix = codes "user."

-- `key.substr(XATTR_PREFIX_LEN)`, which throws on a shorter key.
unfoldable pub user_key : Text → Option Text
user_key key = if ltb (length key) 5 then none else some (drop 5 key)

abbrev pub user_flags : Mode
user_flags = record {
  writable = true;
  serializable = true;
  visible = true;
  removable = true;
  commit_required = true;
}

-- XATTR_CREATE and XATTR_REPLACE.
pub record Flags : Type 0 where
  pub create : Bool
  pub replace : Bool

-- The code, `needs_commit` and the map after a call.
pub record Changed : Type 0 where
  pub code : Code
  pub needs_commit : Bool
  pub metadata : XattrMap

abbrev refuse : Code → XattrMap → Changed
refuse c m = record { code = c; needs_commit = false; metadata = m }

-- What set_metadata does with the attribute it has found or made.
unfoldable pub assign : Text → Text → Xattr → XattrMap → Changed
assign uk value x m =
    if not x.mode.writable
    then record { code = success; needs_commit = false; metadata = put uk x m }
    else record {
      code = success;
      needs_commit = x.mode.commit_required;
      metadata = put uk (set_value value x) m;
    }

unfoldable pub set_with : Text → Text → Text → Flags → XattrMap → Changed
unfolding assign
set_with key uk value flags m =
    if not (starts_with user_prefix key) then refuse (err einval) m else elim (find uk m) [
      | some x ↦ if flags.create then refuse (err eexist) m else assign uk value x m
      | none ↦
          if flags.replace
          then refuse (err enodata) m
          else assign uk value (create_xattr uk user_flags) m
    ]

unfoldable pub set_metadata : Text → Text → Flags → XattrMap → Option Changed
unfolding set_with
set_metadata key value flags m = elim (user_key key) [
  | none ↦ none
  | some uk ↦ some (set_with key uk value flags m)
]

unfoldable pub get_metadata : Text → Option ℕ → XattrMap → Option (Code × Text)
get_metadata key size m = elim (user_key key) [
  | none ↦ none
  | some uk ↦
      if not (starts_with user_prefix key)
      then some (err enodata, [])
      else elim (find uk m) [ none ↦ some (err enodata, []) | some x ↦ some (get_value size x) ]
]

-- The prefix of the key is not looked at here.
unfoldable pub remove_metadata : Text → XattrMap → Option (Code × XattrMap)
remove_metadata key m = elim (user_key key) [
  | none ↦ none
  | some uk ↦ elim (find uk m) [
    | none ↦ some (err enodata, m)
    | some x ↦ if x.mode.removable then some (success, erase uk m) else some (err enodata, m)
  ]
]

unfoldable pub get_metadata_keys : XattrMap → List Text
get_metadata_keys [] = []
get_metadata_keys ((k, x) ∷ m) =
    let rest = get_metadata_keys m in if x.mode.visible then (user_prefix ++ k) ∷ rest else rest
