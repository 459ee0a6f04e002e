-- ===== src/Fs/Object/Url/Runs.antt =====
-- A file with a space in its name, and an object of the program's own.
use s3fuse.Prelude.{◌≡◌, ◌≢◌, ◌<◌, refl, some, none, All, arith}
use s3fuse.Prelude.Text.{Text, codes}
use s3fuse.Base.Request.UrlEncode.{url_encode, is_kept, is_alnum, upper_hex}
use s3fuse.Fs.Object.Xattr.{starts_with}
use s3fuse.Fs.Object.Url.{
  build_url, is_internal_path, build_url_no_internal_check, build_internal_url, has_slash,
  build_url_apart,
}

url_of_file : build_url (codes "/b") (codes "a c") ≡ some (codes "/b/a%20c")
unfolding build_url is_internal_path build_url_no_internal_check url_encode is_kept is_alnum
    upper_hex starts_with
url_of_file = refl

internal : build_internal_url (codes "/b") (codes "k") ≡ some (codes "/b/%24s3fuse%24_k")
unfolding build_internal_url has_slash build_url_no_internal_check url_encode is_kept is_alnum
    upper_hex
internal = refl

no_url : build_url (codes "/b") (codes "$s3fuse$_k") ≡ none
unfolding build_url is_internal_path starts_with
no_url = refl

build_url_apart_example :
    ((other : Text)
      → All (λ c. c < 256) other
      → build_url (codes "/b") other ≡ some (codes "/b/a%20c")
      → other ≡ codes "a c")
    × ((key : Text)
        → All (λ c. c < 256) key
        → build_internal_url (codes "/b") key ≢ some (codes "/b/a%20c"))
build_url_apart_example =
    build_url_apart (codes "/b") (codes "a c") (codes "/b/a%20c")
      (omega arith, (omega arith, (omega arith, tt))) url_of_file
