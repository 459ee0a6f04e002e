-- ===== src/Services/Signing/Verified.antt =====
-- The signature of a request against the headers that are sent with it.
use s3fuse.Prelude.{
  ℕ, Bool, ◌&&◌, if◌then◌else◌, ◌++◌, ◌≡◌, refl, sym, ◌∙◌, ap, true, false, [], ◌∷◌, Option, none,
  some, length, take, arith, subst,
}
use s3fuse.Prelude.Text.{Text, codes, same, same_char, same_iff, is_empty}
use s3fuse.Base.Http.{
  Method, http_delete, http_get, http_head, http_post, http_put, Headers, get_header,
}
use s3fuse.Base.Request.{RequestState, put_header}
use s3fuse.Base.Request.HeaderLine.{get_header-put_header, put_header-other}
use s3fuse.Services.Signing.{
  Account, is_signed_header, method_name, header_block, string_to_sign, authorization, sign,
  signing_hook,
}

header_block-put_header :
    (prefix k v : Text) (hs : Headers)
    → same (take (length prefix) k) prefix ≡ false
    → header_block prefix (put_header k v hs) ≡ header_block prefix hs
unfolding header_block is_signed_header put_header
header_block-put_header prefix k v [] d = ground arith
header_block-put_header prefix k v ((j, w) ∷ hs) d =
    ground (arith, header_block-put_header prefix k v hs d, (same_iff j k).0)

-- What the service reads of a request: whether a text begins with another one, the word for its method, and a
-- line for each of the headers that begin with the service's prefix and are not empty.
begins : Text → Text → Bool
begins [] k = true
begins (p ∷ ps) [] = false
begins (p ∷ ps) (c ∷ cs) = same_char c p && begins ps cs

pub verb : Option Method → Text
verb none = []
verb (some http_delete) = codes "DELETE"
verb (some http_get) = codes "GET"
verb (some http_head) = codes "HEAD"
verb (some http_post) = codes "POST"
verb (some http_put) = codes "PUT"

line : Text → Text × Text → Text
unfolding begins
line prefix (k, []) = []
line prefix (k, c ∷ v) = if begins prefix k then k ++ codes ":" ++ (c ∷ v) ++ codes "\n" else []

pub lines : Text → Headers → Text
unfolding line
lines prefix [] = []
lines prefix (h ∷ hs) = line prefix h ++ lines prefix hs

-- What the service computes of a request that it receives: the header Authorization must give the
-- account's key and the mac, with its secret, of the method, of the values of Content-MD5, Content-Type and Date, each
-- on a line, of the service's own headers, and of the url.
abbrev pub Verifies : Account → Option Method → Text → Headers → Type 0
Verifies a method url hs =
    get_header (codes "Authorization") hs
    ≡ a.scheme
      ++ a.key
      ++ codes ":"
      ++ a.mac a.secret (
          verb method
          ++ codes "\n"
          ++ get_header (codes "Content-MD5") hs
          ++ codes "\n"
          ++ get_header (codes "Content-Type") hs
          ++ codes "\n"
          ++ get_header (codes "Date") hs
          ++ codes "\n"
          ++ lines a.header_prefix hs
          ++ url)

begins-same : (p k : Text) → same (take (length p) k) p ≡ begins p k
unfolding same begins
begins-same [] k = refl
begins-same (p ∷ ps) [] = refl
begins-same (p ∷ ps) (c ∷ cs) = rw (begins-same ps cs)

header_block-lines : (prefix : Text) (hs : Headers) → header_block prefix hs ≡ lines prefix hs
unfolding header_block is_signed_header lines line is_empty
header_block-lines prefix [] = refl
header_block-lines prefix ((k, []) ∷ hs) = header_block-lines prefix hs
header_block-lines prefix ((k, c ∷ v) ∷ hs) =
    ground (arith, begins-same prefix k, header_block-lines prefix hs)

method_name-verb : (m : Option Method) → method_name m ≡ verb m
unfolding method_name verb
method_name-verb none = refl
method_name-verb (some http_delete) = refl
method_name-verb (some http_get) = refl
method_name-verb (some http_head) = refl
method_name-verb (some http_post) = refl
method_name-verb (some http_put) = refl

-- The text that is signed is the one that the service computes.
authorization-Verifies :
    (a : Account) (method : Option Method) (url : Text) (hs : Headers)
    → get_header (codes "Authorization") hs
      ≡ authorization a
          (string_to_sign a.header_prefix (get_header (codes "Date") hs) method url hs)
    → Verifies a method url hs
unfolding authorization string_to_sign
authorization-Verifies a method url hs h =
    rw (method_name-verb method, header_block-lines a.header_prefix hs) at h

same_text :
    (prefix : Text) (hs gs : Headers) {d e : Text}
    → d ≡ e
    → get_header (codes "Content-MD5") hs ≡ get_header (codes "Content-MD5") gs
    → get_header (codes "Content-Type") hs ≡ get_header (codes "Content-Type") gs
    → header_block prefix hs ≡ header_block prefix gs
    → (method : Option Method) (url : Text)
    → string_to_sign prefix d method url hs ≡ string_to_sign prefix e method url gs
unfolding string_to_sign
same_text prefix hs gs date md5 type block method url =
    rw (string_to_sign, date, md5, type, block) refl

sign-authorization :
    (a : Account) (date : Text) (method : Option Method) (url : Text) (hs : Headers)
    → same (take (length a.header_prefix) (codes "Authorization")) a.header_prefix ≡ false
    → get_header (codes "Authorization") (sign a date method url hs)
      ≡ authorization a (
          string_to_sign a.header_prefix
            (get_header (codes "Date") (sign a date method url hs))
            method
            url
            (sign a date method url hs))
unfolding sign same
sign-authorization a date method url hs d =
    let dated = put_header (codes "Date") date hs in
    let signature = authorization a (string_to_sign a.header_prefix date method url dated) in
    let final = put_header (codes "Authorization") signature dated in
    let date_kept : get_header (codes "Date") final ≡ date =
      put_header-other (codes "Authorization") signature (codes "Date") dated refl
      ∙ get_header-put_header (codes "Date") date hs in
    let md5_kept : get_header (codes "Content-MD5") final ≡ get_header (codes "Content-MD5") dated =
      put_header-other (codes "Authorization") signature (codes "Content-MD5") dated refl in
    let type_kept : get_header (codes "Content-Type") final
        ≡ get_header (codes "Content-Type") dated =
      put_header-other (codes "Authorization") signature (codes "Content-Type") dated refl in
    let block_kept =
      header_block-put_header a.header_prefix (codes "Authorization") signature dated d in
    get_header-put_header (codes "Authorization") signature dated
    ∙ ap (authorization a) (
        sym (
          same_text a.header_prefix final dated date_kept md5_kept type_kept block_kept method url))

-- Let `Authorization` not begin with the service's header prefix. Whatever headers a request has, an old signature of
-- an earlier attempt among them, those that the hook gives it for an attempt have the signature that the
-- service computes from them, and carry the date of that attempt.
pub pre_run-Verifies :
    (a : Account) (s : RequestState) (iter : ℕ) (hs : Headers)
    → same (take (length a.header_prefix) (codes "Authorization")) a.header_prefix ≡ false
    → (signing_hook a).pre_run s iter ≡ some hs
    → Verifies a s.method s.url hs × (get_header (codes "Date") hs ≡ a.http_time iter)
unfolding signing_hook sign same
pre_run-Verifies a s iter hs d h =
    let same_headers : sign a (a.http_time iter) s.method s.url s.headers ≡ hs = ground arith in
    subst (λ x. Verifies a s.method s.url x × (get_header (codes "Date") x ≡ a.http_time iter))
      same_headers
      (
        authorization-Verifies a s.method s.url _
            (sign-authorization a (a.http_time iter) s.method s.url s.headers d),
        put_header-other (codes "Authorization") _ (codes "Date") _ refl
            ∙ get_header-put_header (codes "Date") (a.http_time iter) s.headers,
      )
