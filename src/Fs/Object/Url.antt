-- ===== src/Fs/Object/Url.antt =====
-- The urls of fs/object.cc: those of paths and those of the program's own objects. `none` is an exception.
mod Runs
use s3fuse.Prelude.{
  ℕ, ◌≡◌, ◌≢◌, ◌<◌, refl, sym, ◌∙◌, ap, Bool, true, false, ◌||◌, not, List, [], ◌∷◌, ◌++◌, Option,
  none, some, ◌==◌, ==_refl, if◌then◌else◌, All, All-append, arith,
}
use s3fuse.Prelude.Text.{Text, codes}
use s3fuse.Base.Request.UrlEncode.{url_encode, url_encode_injective}
use s3fuse.Fs.Object.Xattr.{starts_with}

abbrev pub internal_object_prefix : Text
internal_object_prefix = codes "$s3fuse$_"

unfoldable pub is_internal_path : Text → Bool
is_internal_path path = starts_with internal_object_prefix path

unfoldable pub has_slash : Text → Bool
has_slash [] = false
has_slash (c ∷ s) = c == 47 || has_slash s

-- The url of the bucket is an argument.
unfoldable pub build_url_no_internal_check : Text → Text → Text
build_url_no_internal_check bucket_url path = bucket_url ++ codes "/" ++ url_encode path

unfoldable pub build_url : Text → Text → Option Text
unfolding is_internal_path build_url_no_internal_check
build_url bucket_url path =
    if is_internal_path path then none else some (build_url_no_internal_check bucket_url path)

unfoldable pub build_internal_url : Text → Text → Option Text
unfolding has_slash build_url_no_internal_check
build_internal_url bucket_url key =
    if has_slash key
    then none
    else some (build_url_no_internal_check bucket_url (internal_object_prefix ++ key))

append_injective : (b s t : Text) → b ++ s ≡ b ++ t → s ≡ t
append_injective [] s t e = e
append_injective (c ∷ b) s t e = append_injective b s t (ground arith)

starts_with-append : (p s : Text) → starts_with p (p ++ s) ≡ true
unfolding starts_with
starts_with-append [] s = refl
starts_with-append (c ∷ p) s = ground (arith, starts_with-append p s)

no_check_injective :
    (bucket_url s t : Text)
    → All (λ c. c < 256) s
    → All (λ c. c < 256) t
    → build_url_no_internal_check bucket_url s ≡ build_url_no_internal_check bucket_url t
    → s ≡ t
unfolding build_url_no_internal_check
no_check_injective bucket_url s t hs ht e =
    url_encode_injective s t hs ht
      (append_injective (bucket_url ++ codes "/") (url_encode s) (url_encode t) e)

-- The path of a url names it alone: another path of bytes has another url, or none; and a url of the program's
-- own objects is the url of no path of bytes, so that the file system does not reach them.
pub build_url_apart :
    (bucket_url path url : Text)
    → All (λ c. c < 256) path
    → build_url bucket_url path ≡ some url
    → ((other : Text)
        → All (λ c. c < 256) other
        → build_url bucket_url other ≡ some url
        → other ≡ path)
      × ((key : Text) → All (λ c. c < 256) key → build_internal_url bucket_url key ≢ some url)
unfolding build_url is_internal_path build_internal_url
build_url_apart bucket_url path url hp h = (
  λ other ho e. no_check_injective bucket_url other path ho hp (ground arith),
  λ key hk e.
      let whole = All-append (λ c. c < 256) internal_object_prefix key prefix_bytes hk in
      let same_path =
        no_check_injective bucket_url path (internal_object_prefix ++ key) hp whole
          (ground arith) in
      let internal : starts_with internal_object_prefix path ≡ true =
        ap (starts_with internal_object_prefix) same_path
        ∙ starts_with-append internal_object_prefix key in
      absurd (ground arith),
)
  where
    prefix_bytes : All (λ c. c < 256) internal_object_prefix
    prefix_bytes = (
      omega arith,
      (
        omega arith,
        (
          omega arith,
          (
            omega arith,
            (omega arith, (omega arith, (omega arith, (omega arith, (omega arith, tt))))),
          ),
        ),
      ),
    )
