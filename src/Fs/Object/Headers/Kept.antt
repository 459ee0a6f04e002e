-- ===== src/Fs/Object/Headers/Kept.antt =====
-- What an object writes into its headers, and reads back.
use s3fuse.Prelude.{ℕ, ◌%◌, ◌^◌, ◌<◌, ◌≡◌, true, ◌∷◌, some}
use s3fuse.Prelude.Text.{Text}
use s3fuse.Base.Http.{Headers}
use s3fuse.Fs.Object.Xattr.{Base64}
use s3fuse.Fs.Object.Headers.{Formats, ObjectState, in_buffer, put_members, set_request_headers}

-- The members that the headers keep.
pub record SameMembers (o p : ObjectState) : Type 0 where
  pub mode : p.mode ≡ o.mode
  pub uid : p.uid ≡ o.uid
  pub gid : p.gid ≡ o.gid
  pub ctime : p.ctime ≡ o.ctime
  pub mtime : p.mtime ≡ o.mtime
  pub content_type : p.content_type ≡ o.content_type
  pub etag : p.etag ≡ o.etag
  pub intact : p.intact ≡ true

-- What the formats are used for is read back by strtol: a mode of twelve bits in octal, an id of 32 bits, and a
-- time of at most fifteen digits.
pub record ReadsBack (formats : Formats) : Type 0 where
  pub octal : (n : ℕ) → n < 2 ^ 12 → formats.strtol (in_buffer (formats.octal n)) ≡ n
  pub int : (n : ℕ) → n < 2 ^ 32 → formats.strtol (in_buffer (formats.int n)) % 2 ^ 32 ≡ n
  pub long : (n : ℕ) → n < 10 ^ 15 → formats.strtol (in_buffer (formats.long n)) ≡ n

pub record InRange (o : ObjectState) : Type 0 where
  pub mode : o.mode < 2 ^ 12
  pub uid : o.uid < 2 ^ 32
  pub gid : o.gid < 2 ^ 32
  pub ctime : o.ctime < 10 ^ 15
  pub mtime : o.mtime < 10 ^ 15

module _ (b : Base64) (hash_of : Text → Text) (formats : Formats) (tail : Text) where
  -- `x-amz-meta-`, `x-goog-meta-` or the like.
  abbrev pub prefix : Text
  prefix = 120 ∷ tail

  module _ (o : ObjectState) (start sent : Headers)
      (sends : set_request_headers b hash_of formats prefix o start ≡ some sent) where
    members : Headers
    members = put_members b hash_of formats prefix o start
