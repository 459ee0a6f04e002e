-- ===== src/Fs/Object/Headers/Runs.antt =====
-- An object that is sent and read back, with numbers as characters of their own.
use s3fuse.Prelude.{◌≡◌, refl, true, [], ◌∷◌, none, false, get_or}
use s3fuse.Prelude.Text.{codes, same}
use s3fuse.Base.Http.{Headers}
use s3fuse.Fs.Object.Xattr.{new_xattr}
use s3fuse.Fs.Object.Runs.{shifted}
use s3fuse.Fs.Object.Headers.{
  Formats, cache_control_xattr, ObjectState, put_members, set_request_headers, put_cache_control,
}
use s3fuse.Fs.Object.Metadata.{find}

abbrev formats : Formats
formats = record {
  octal = λ n. n ∷ [];
  int = λ n. n ∷ [];
  long = λ n. n ∷ [];
  strtol = λ s. get_or s 0 0;
}

abbrev object : ObjectState
object = record {
  type_bits = 8;
  mode = 420;
  uid = 1000;
  gid = 0;
  size = 5;
  blocks = 1;
  ctime = 1500000000;
  mtime = 1600000000;
  content_type = codes "text";
  etag = codes "e";
  intact = true;
  expiry = 7;
  metadata = [];
}

abbrev made : ObjectState
made = record object { mode = 1; uid = 2; gid = 3; etag = []; ctime = 4; mtime = 5 }

abbrev response : Headers
response =
    (codes "ETag", codes "e") ∷ put_members shifted (λ k. k) formats (codes "x-meta-") object []

-- A value that is not text.
throws :
    set_request_headers shifted
      (λ k. k)
      formats
      (codes "x-meta-")
      (record object {
        metadata =
            (
              cache_control_xattr,
              new_xattr cache_control_xattr false true (record {
                writable = true;
                serializable = false;
                visible = true;
                removable = true;
                commit_required = true;
              }),
            )
            ∷ [];
      })
      []
    ≡ none
unfolding set_request_headers put_cache_control find same new_xattr
throws = refl
