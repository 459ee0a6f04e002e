-- ===== src/Operations/Effect.antt =====
-- What the operations use of fs/: an interface, and the ways in which a body can end.
use s3fuse.Prelude.{[], ◌∷◌, ℕ, Bool, true, false, Option, none, some, if◌then◌else◌, ◌==◌}
use s3fuse.Prelude.Code.{Code, err, is_failure, success, ecanceled, enoent, eperm}
use s3fuse.Prelude.Text.{Text}
use s3fuse.Operations.Path.{valid, invalid, assert_valid_path}

-- The end of a piece of a body: a value, a `return` from the operation, or an exception; and what
-- has become of the file system.
pub data Ends {ℓ} (W : Type 0) (A : Type ℓ) : Type ℓ where
  value : A → W → Ends W A
  leaves : Code → W → Ends W A
  throws : W → Ends W A

abbrev pub Op : Type 0 → Type 0 → Type 0
Op W A = W → Ends W A

infixl 5 ◌>>=◌ ◌>>◌
abbrev pub ◌>>=◌ : {W A B : Type 0} → Op W A → (A → Op W B) → Op W B
◌>>=◌ m f w = elim (m w) [ value a v ↦ f a v | leaves c v ↦ leaves c v | throws v ↦ throws v ]

abbrev pub ◌>>◌ : {W B : Type 0} → Op W (Unit {0}) → Op W B → Op W B
m >> k = m >>= λ _. k

-- The last value of a body.
abbrev pub pure : {A W : Type 0} → A → Op W A
pure a w = value a w

abbrev pub return_code : {A W : Type 0} → Code → Op W A
return_code c w = leaves c w

abbrev pub return_on_error : {W : Type 0} → Code → Op W (Unit {0})
return_on_error c w = if is_failure c then leaves c w else value tt w

-- BEGIN_TRY and END_TRY.
abbrev pub try : {W : Type 0} → Op W Code → W → Code × W
try m w = elim (m w) [ value c v ↦ (c, v) | leaves c v ↦ (c, v) | throws v ↦ (err ecanceled, v) ]

-- ASSERT_VALID_PATH before the body, which has the path without its slash.
unfoldable pub on_path : {W : Type 0} → Text → (Text → Op W Code) → W → Code × W
on_path path body w = elim (assert_valid_path path) [
  | valid p ↦ try (body p) w
  | invalid e ↦ (err e, w)
]

-- `get_type()`: the S_IFMT bits.
pub data Kind : Type 0 where
  regular directory link device : Kind

abbrev pub is_directory : Kind → Bool
is_directory Kind.directory = true
is_directory k = false

abbrev pub is_link : Kind → Bool
is_link Kind.link = true
is_link k = false

-- The setters of fs::object, which write the object in memory.
pub data Change : Type 0 where
  mode uid gid mtime : ℕ → Change
  ctime_now mtime_now : Change
  type_bits device_number : ℕ → Change
  target : Text → Change

-- The classes of which an operation makes an object.
pub data Class : Type 0 where
  plain_file encrypted_file new_directory special symlink : Class

-- The parts of fs/ that the operations call. `World` is the cache, the store and the open files;
-- a method that throws ends in `throws`.
pub record Backend : Type 1 where
  pub World : Type 0
  pub Object : Type 0
  pub cache_get : Text → Op World (Option Object)
  pub cache_remove : Text → World → World
  pub get_type : Object → World → Kind
  pub get_uid : Object → World → ℕ
  pub set : Object → Change → World → World
  pub commit : Object → Op World Code
  pub remove : Object → Op World Code
  pub rename : Object → Text → Op World Code
  pub copy_stat : Object → Op World (Unit {0})
  pub is_empty : Object → Op World Bool
  pub make : Class → Text → Op World Object
  pub file_open : Text → Bool → Op World (Code × Object)
  pub file_truncate : ℕ → Object → Op World Code
  pub file_flush : Object → Op World Code
  pub file_release : Object → Op World Code
  pub file_read : ℕ → ℕ → Object → Op World Code
  pub file_write : Text → ℕ → Object → Op World Code
  pub read_directory : Object → Op World Code
  pub read_link : Object → Op World (Code × Text)
  pub set_metadata : Text → Text → ℕ → Object → Op World (Code × Bool)
  pub get_metadata : Text → ℕ → Object → Op World Code
  pub remove_metadata : Text → Object → Op World Code

-- The caller, and the configuration values that the operations read.
pub record Context : Type 0 where
  pub caller_uid : ℕ
  pub caller_gid : ℕ
  pub max_inconsistent_state_retries : ℕ
  pub encrypts_new_files : Bool
  pub is_iijgio : Bool

module _ (b : Backend) where
  open b use {World, Object, cache_get, cache_remove, get_uid, set, commit}

  -- GET_OBJECT
  abbrev pub get_object : Text → Op World Object
  get_object path w = elim (cache_get path w) [
    | value none v ↦ leaves (err enoent) v
    | value (some o) v ↦ value o v
    | leaves c v ↦ leaves c v
    | throws v ↦ throws v
  ]

  -- CHECK_OWNER
  abbrev pub check_owner : ℕ → Object → Op World (Unit {0})
  check_owner curr_uid o w =
      if curr_uid == 0
      then value tt w
      else if curr_uid == get_uid o w
      then value tt w
      else leaves (err eperm) w

  -- A setter.
  abbrev pub apply : Object → Change → Op World (Unit {0})
  apply o c w = value tt (set o c w)

  -- `invalidate`
  abbrev pub invalidate : Text → Op World (Unit {0})
  invalidate [] w = value tt w
  invalidate (c ∷ s) w = value tt (cache_remove (c ∷ s) w)

  -- `touch` once cache::get has answered.
  unfoldable pub touch_found : Option Object → Op World Code
  touch_found none = pure (err enoent)
  touch_found (some o) = do apply o ctime_now; apply o mtime_now; commit o

  unfoldable pub touch : Text → Op World Code
  unfolding touch_found
  touch [] = pure success
  touch (c ∷ s) = do found ← cache_get (c ∷ s); touch_found found
