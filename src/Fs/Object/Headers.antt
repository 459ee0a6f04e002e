-- ===== src/Fs/Object/Headers.antt =====
-- object::init and object::set_request_headers of fs/object.cc: an object's attributes as headers of the
-- store. strtol and the formats of snprintf are arguments; a long is taken modulo 2 ^ 64. The glacier
-- attributes are left out.
pub mod Kept
mod Runs
use s3fuse.Prelude.{
  ℕ, ◌+◌, ◌-◌, ◌*◌, ◌/◌, ◌%◌, ◌^◌, Bool, true, false, ◌&&◌, ◌||◌, not, List, [], ◌∷◌, ◌++◌, Option,
  none, some, ltb, ◌==◌, if◌then◌else◌, length, take, drop,
}
use s3fuse.Prelude.Text.{Text, codes, same, is_empty}
use s3fuse.Base.Http.{Headers, get_header}
use s3fuse.Base.Request.{put_header}
use s3fuse.Fs.Object.Xattr.{Mode, Xattr, Base64, starts_with, from_string, from_header, to_header}
use s3fuse.Fs.Object.Metadata.{XattrMap, find, put, erase, user_flags}

pub record Formats : Type 0 where
  pub octal : ℕ → Text
  pub int : ℕ → Text
  pub long : ℕ → Text
  pub strtol : Text → ℕ

-- The keys of fs/metadata.cc.
abbrev pub reserved_prefix : Text
reserved_prefix = codes "s3fuse-"

abbrev pub last_update_etag : Text
last_update_etag = codes "s3fuse-lu-etag"

abbrev pub mode_key : Text
mode_key = codes "s3fuse-mode"

abbrev pub uid_key : Text
uid_key = codes "s3fuse-uid"

abbrev pub gid_key : Text
gid_key = codes "s3fuse-gid"

abbrev pub created_time : Text
created_time = codes "s3fuse-ctime"

abbrev pub last_modified_time : Text
last_modified_time = codes "s3fuse-mtime"

abbrev pub cache_control_xattr : Text
cache_control_xattr = codes "s3fuse_cache_control"

pub record ObjectState : Type 0 where
  -- `_stat`: st_mode is the bits of S_IFMT and the others.
  pub type_bits : ℕ
  pub mode : ℕ
  pub uid : ℕ
  pub gid : ℕ
  pub size : ℕ
  pub blocks : ℕ
  pub ctime : ℕ
  pub mtime : ℕ
  pub content_type : Text
  pub etag : Text
  pub intact : Bool
  pub expiry : ℕ
  pub metadata : XattrMap

-- `mode & ~S_IFMT` of 32 bits.
unfoldable pub without_type : ℕ → ℕ
without_type n = n / 2 ^ 16 * 2 ^ 16 + n % 2 ^ 12

-- What `snprintf(buf, 16, ...)` leaves.
abbrev pub in_buffer : Text → Text
in_buffer = take 15

abbrev visible_only : Mode
visible_only = record {
  writable = false;
  serializable = false;
  visible = true;
  removable = false;
  commit_required = false;
}

-- META_XATTR_FLAGS
abbrev meta_flags : Mode
meta_flags = record {
  writable = true;
  serializable = false;
  visible = true;
  removable = true;
  commit_required = true;
}

-- `<` of two numbers of type time_t.
unfoldable pub time_lt : ℕ → ℕ → Bool
time_lt a b = ltb ((a + 2 ^ 63) % 2 ^ 64) ((b + 2 ^ 63) % 2 ^ 64)

module _ (b : Base64) (hash_of : Text → Text) (formats : Formats) (meta_prefix : Text) where
  -- The serializable attributes.
  unfoldable pub put_attributes : XattrMap → Headers → Headers
  put_attributes [] hs = hs
  put_attributes ((k, x) ∷ m) hs =
      let h = to_header b hash_of x in
      let hs' = if not x.mode.serializable then hs else put_header (meta_prefix ++ h.0) h.1 hs in
      put_attributes m hs'

  -- `none` is the exception of static_xattr::to_string.
  unfoldable pub put_cache_control : XattrMap → Headers → Option Headers
  put_cache_control m hs = elim (find cache_control_xattr m) [
    | none ↦ some hs
    | some x ↦ if x.encode_value then none else some (put_header (codes "Cache-Control") x.value hs)
  ]

  -- The headers but that of the cache control.
  unfoldable pub put_members : ObjectState → Headers → Headers
  unfolding put_attributes
  put_members o hs =
      (put_header (codes "Content-Type") o.content_type (
        put_header (meta_prefix ++ last_update_etag) o.etag (
          put_header (meta_prefix ++ last_modified_time) (in_buffer (formats.long o.mtime)) (
            put_header (meta_prefix ++ created_time) (in_buffer (formats.long o.ctime)) (
              put_header (meta_prefix ++ gid_key) (in_buffer (formats.int o.gid)) (
                put_header (meta_prefix ++ uid_key) (in_buffer (formats.int o.uid)) (
                  put_header (meta_prefix ++ mode_key) (in_buffer (formats.octal o.mode))
                    (put_attributes o.metadata hs))))))))

  unfoldable pub set_request_headers : ObjectState → Headers → Option Headers
  unfolding put_members put_cache_control
  set_request_headers o hs = put_cache_control o.metadata (put_members o hs)

  -- The loop over the response's headers; `none` is the exception of from_header.
  unfoldable pub read_attributes : Headers → XattrMap → Option XattrMap
  read_attributes [] m = some m
  read_attributes ((k, v) ∷ hs) m =
      elim (starts_with meta_prefix k
        && not (starts_with reserved_prefix (drop (length meta_prefix) k))) [
          | false ↦ read_attributes hs m
          | true ↦ elim (from_header b (drop (length meta_prefix) k) v user_flags) [
            | none ↦ none
            | some x ↦ read_attributes hs (put x.key x m)
          ]
        ]

  -- The attributes that show what the response says.
  unfoldable pub shown_attributes : Headers → XattrMap → XattrMap
  shown_attributes hs m =
      let cache_control = get_header (codes "Cache-Control") hs in
      let typed =
        put (codes "s3fuse_content_type")
          (from_string (codes "s3fuse_content_type") (get_header (codes "Content-Type") hs)
            visible_only)
          m in
      let tagged =
        put (codes "s3fuse_etag")
          (from_string (codes "s3fuse_etag") (get_header (codes "ETag") hs) visible_only) typed in
      if is_empty cache_control
      then erase cache_control_xattr tagged
      else put cache_control_xattr (from_string cache_control_xattr cache_control meta_flags) tagged

  -- The members, once the attributes are `m`; `last_modified` and `deadline` are get_last_modified() and the
  -- expiry of the cache.
  unfoldable pub init_members : Headers → ℕ → ℕ → XattrMap → ObjectState → ObjectState
  unfolding without_type time_lt
  init_members hs last_modified deadline m o =
      let field = λ (k : Text). formats.strtol (get_header (meta_prefix ++ k) hs) in
      let mode = without_type (field mode_key % 2 ^ 32) in
      let uid = field uid_key % 2 ^ 32 in
      let gid = field gid_key % 2 ^ 32 in
      let etag = get_header (codes "ETag") hs in
      let intact = same etag (get_header (meta_prefix ++ last_update_etag) hs) in
      let mtime = field last_modified_time in
      let size = formats.strtol (get_header (codes "Content-Length") hs) in
      record {
        type_bits = o.type_bits;
        mode = if intact || not (mode == 0) then mode else o.mode;
        uid = if intact || not (uid == 0) then uid else o.uid;
        gid = if intact || not (gid == 0) then gid else o.gid;
        size = size;
        blocks = (size + 512 - 1) / 512;
        ctime = field created_time;
        mtime = if not intact && time_lt mtime last_modified then last_modified else mtime;
        content_type = get_header (codes "Content-Type") hs;
        etag = etag;
        intact = intact;
        expiry = deadline;
        metadata = m;
      }

  unfoldable pub init : Headers → ℕ → ℕ → ObjectState → Option ObjectState
  unfolding read_attributes shown_attributes init_members
  init hs last_modified deadline o = elim (read_attributes hs o.metadata) [
    | none ↦ none
    | some m ↦ some (init_members hs last_modified deadline (shown_attributes hs m) o)
  ]
