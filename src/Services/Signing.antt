-- ===== src/Services/Signing.antt =====
-- The hook of services/aws/impl.cc, that of services/iijgio/impl.cc, and should_retry of services/impl.cc and
-- services/gs/impl.cc. HMAC and base64 (OpenSSL), the clock and what xml::match finds in an answer are
-- arguments; the counters are left out.
pub mod Verified
mod Runs
use s3fuse.Prelude.{
  ℕ, Bool, true, false, ◌&&◌, ◌||◌, not, List, [], ◌∷◌, ◌++◌, Option, none, some, ◌==◌,
  if◌then◌else◌, length, take,
}
use s3fuse.Prelude.Text.{Text, codes, same, is_empty}
use s3fuse.Base.Http.{
  Method, http_delete, http_get, http_head, http_post, http_put, Headers, get_header,
}
use s3fuse.Base.Request.{RequestState, Hook, put_header}

pub record Account : Type 0 where
  -- "AWS " or "IIJGIO ".
  pub scheme : Text
  pub key : Text
  pub secret : Text
  pub endpoint : Text
  pub header_prefix : Text
  -- base64 of hmac_sha1::sign, of a secret and a text.
  pub mac : Text → Text → Text
  -- timer::get_http_time(), by the number of the attempt.
  pub http_time : ℕ → Text
  -- Whether an answer is the error RequestTimeout.
  pub is_request_timeout : Text → Bool

-- `_method`
unfoldable pub method_name : Option Method → Text
method_name none = []
method_name (some http_delete) = codes "DELETE"
method_name (some http_get) = codes "GET"
method_name (some http_head) = codes "HEAD"
method_name (some http_post) = codes "POST"
method_name (some http_put) = codes "PUT"

abbrev pub newline : Text
newline = 10 ∷ []

unfoldable pub is_signed_header : Text → Text → Text → Bool
is_signed_header prefix k v = not (is_empty v) && same (take (length prefix) k) prefix

-- The lines of the headers with the service's prefix, in the order of the map.
unfoldable pub header_block : Text → Headers → Text
unfolding is_signed_header
header_block prefix [] = []
header_block prefix ((k, v) ∷ hs) =
    let rest = header_block prefix hs in
    if is_signed_header prefix k v then k ++ codes ":" ++ v ++ newline ++ rest else rest

-- `to_sign`, from the headers and the date.
unfoldable pub string_to_sign : Text → Text → Option Method → Text → Headers → Text
unfolding method_name header_block
string_to_sign prefix date method url hs =
    method_name method
    ++ newline
    ++ get_header (codes "Content-MD5") hs
    ++ newline
    ++ get_header (codes "Content-Type") hs
    ++ newline
    ++ date
    ++ newline
    ++ header_block prefix hs
    ++ url

unfoldable pub authorization : Account → Text → Text
authorization a to_sign = a.scheme ++ a.key ++ codes ":" ++ a.mac a.secret to_sign

-- The headers behind `sign`.
unfoldable pub sign : Account → Text → Option Method → Text → Headers → Headers
unfolding string_to_sign authorization
sign a date method url hs =
    let dated = put_header (codes "Date") date hs in
    put_header (codes "Authorization")
      (authorization a (string_to_sign a.header_prefix date method url dated)) dated

unfoldable pub should_retry : Account → RequestState → ℕ → Bool
should_retry a s iter =
    s.response_code == 500
    || s.response_code == 503
    || s.response_code == 400 && a.is_request_timeout s.output_buffer

-- services/gs/impl.cc: also once if the token is refused.
unfoldable pub gs_should_retry : Account → RequestState → ℕ → Bool
unfolding should_retry
gs_should_retry a s iter = should_retry a s iter || s.response_code == 401 && iter == 0

unfoldable pub signing_hook : Account → Hook
unfolding sign should_retry
signing_hook a = record {
  adjust_url = λ url. a.endpoint ++ url;
  pre_run = λ s iter. some (sign a (a.http_time iter) s.method s.url s.headers);
  should_retry = should_retry a;
}
