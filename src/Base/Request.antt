-- ===== src/Base/Request.antt =====
-- base/request.cc with the inline methods of request.h: a request object, the callbacks that libcurl
-- makes while it performs a transfer; Run has `run` with its retries, UrlEncode the encoding of a url.
-- libcurl, the clock and the hook of the service are arguments; setting an option of libcurl succeeds.
-- Times are left out, but for the timeout.
pub mod Run
pub mod Delivery
pub mod Answered
pub mod HeaderLine
pub mod UrlEncode
mod Runs
use s3fuse.Prelude.{
  ℕ, zero, suc, ◌+◌, ◌-◌, ◌/◌, ◌%◌, ◌^◌, Bool, true, false, ◌&&◌, ◌||◌, not, List, [], ◌∷◌, ◌++◌,
  Option, none, some, ltb, leb, ◌==◌, if◌then◌else◌, length, take, drop, get_or,
}
use s3fuse.Prelude.Text.{Text, codes, same, is_empty}
use s3fuse.Base.Http.{Method, http_delete, http_get, http_head, http_post, http_put, Headers}

-- CURLE_OK, the codes after which the transfer is tried again, and the others.
pub data CurlCode : Type 0 where
  curle_ok curle_couldnt_resolve_proxy curle_couldnt_resolve_host curle_couldnt_connect
        curle_partial_file :
      CurlCode
  curle_upload_failed curle_operation_timedout curle_ssl_connect_error curle_got_nothing
        curle_send_error :
      CurlCode
  curle_recv_error curle_bad_content_encoding : CurlCode
  other : ℕ → CurlCode

-- What libcurl does in curl_easy_perform: it calls back, and goes on by what the callback returns. The
-- watchdog's thread may call check_timeout in between, at some time.
pub data Transfer : Type 0 where
  -- The data of a header, and whether a null character stands behind it; the callback returns a size.
  header : Text → Bool → (ℕ → Transfer) → Transfer
  output : Text → (ℕ → Transfer) → Transfer
  -- Space for so many bytes; the callback returns what it has put there.
  input : ℕ → (Text → Transfer) → Transfer
  -- An offset, and whether the origin is SEEK_SET; the callback returns whether it did seek.
  seek : ℕ → Bool → (Bool → Transfer) → Transfer
  watchdog : ℕ → Transfer → Transfer
  -- The code, and what curl_easy_getinfo says of the response code and the file time.
  ends : CurlCode → ℕ → ℕ → Transfer

pub record Counters : Type 0 where
  pub curl_failures : ℕ
  pub request_failures : ℕ
  pub timeouts : ℕ
  pub aborts : ℕ
  pub hook_retries : ℕ
  pub rewinds : ℕ

pub record RequestState : Type 0 where
  -- `_method`, which is empty before init.
  pub method : Option Method
  pub url : Text
  pub curl_url : Text
  pub response_headers : Headers
  pub output_buffer : Text
  pub response_code : ℕ
  pub last_modified : ℕ
  pub headers : Headers
  pub input_buffer : Option Text
  -- What `_input_pos` and `_input_remaining` leave of the buffer.
  pub input_left : Text
  pub canceled : Bool
  pub timeout : ℕ
  pub run_count : ℕ
  pub total_bytes_transferred : ℕ
  pub counters : Counters

pub record Hook : Type 0 where
  pub adjust_url : Text → Text
  -- The hooks of the services only set headers, or throw.
  pub pre_run : RequestState → ℕ → Option Headers
  pub should_retry : RequestState → ℕ → Bool

-- Strings in the order of std::map.
unfoldable pub before : Text → Text → Bool
before [] [] = false
before [] (b ∷ t) = true
before (a ∷ s) [] = false
before (a ∷ s) (b ∷ t) = let rest = before s t in if a == b then rest else ltb a b

-- `headers[name] = value`
unfoldable pub put_header : Text → Text → Headers → Headers
unfolding before
put_header k v [] = (k, v) ∷ []
put_header k v ((j, w) ∷ hs) =
    let rest = put_header k v hs in
    if same j k then (k, v) ∷ hs else if before k j then (k, v) ∷ (j, w) ∷ hs else (j, w) ∷ rest

-- The part before the first colon and that behind it: strchr stops at a null character.
unfoldable pub split_colon : Text → Option (Text × Text)
split_colon [] = none
split_colon (c ∷ s) =
    let rest = split_colon s in
    if c == 58
    then some ([], s)
    else if c == 0
    then none
    else elim rest [ none ↦ none | some (name, tail) ↦ some (c ∷ name, tail) ]

-- `if (*++p1 == ' ') p1++;`
unfoldable pub skip_space : Text → Text
skip_space [] = []
skip_space (c ∷ s) = if c == 32 then s else c ∷ s

-- Up to a carriage return, a line feed or a null character.
unfoldable pub until_eol : Text → Text
until_eol [] = []
until_eol (c ∷ s) = let rest = until_eol s in if c == 13 || c == 10 || c == 0 then [] else c ∷ rest

unfoldable pub header_process : Text → Bool → RequestState → ℕ × RequestState
unfolding split_colon skip_space until_eol put_header
header_process chunk is_terminated s =
    if s.canceled
    then (0, s)
    else if not is_terminated
    then (length chunk, s)
    else elim (split_colon chunk) [
      | none ↦ (length chunk, s)
      | some (name, tail) ↦ (
        length chunk,
        record s {
          response_headers = put_header name (until_eol (skip_space tail)) s.response_headers;
        },
      )
    ]

unfoldable pub output_write : Text → RequestState → ℕ × RequestState
output_write chunk s =
    if s.canceled
    then (0, s)
    else (length chunk, record s { output_buffer = s.output_buffer ++ chunk })

unfoldable pub input_read : ℕ → RequestState → Text × RequestState
input_read size s =
    if s.canceled
    then ([], s)
    else (take size s.input_left, record s { input_left = drop size s.input_left })

abbrev pub whole_input : Option Text → Text
whole_input none = []
whole_input (some b) = b

unfoldable pub rewind : RequestState → RequestState
rewind s = record s { input_left = whole_input s.input_buffer }

unfoldable pub input_seek : ℕ → Bool → RequestState → Bool × RequestState
unfolding rewind
input_seek offset is_seek_set s = if not is_seek_set || not (offset == 0) then (false, s) else (
  true,
  record (rewind s) { counters = record s.counters { rewinds = suc s.counters.rewinds } },
)

unfoldable pub check_timeout : ℕ → RequestState → Bool × RequestState
check_timeout now s =
    if not (s.timeout == 0) && ltb s.timeout now
    then (true, record s { canceled = true })
    else (false, s)

-- curl_easy_perform: the code, the response code, the file time, and what the callbacks have made of `s`.
unfoldable pub perform : Transfer → RequestState → CurlCode × ℕ × ℕ × RequestState
unfolding header_process output_write input_read input_seek check_timeout
perform (header chunk z k) s = let r = header_process chunk z s in perform (k r.0) r.1
perform (output chunk k) s = let r = output_write chunk s in perform (k r.0) r.1
perform (input size k) s = let r = input_read size s in perform (k r.0) r.1
perform (seek offset set k) s = let r = input_seek offset set s in perform (k r.0) r.1
perform (watchdog now k) s = perform k (check_timeout now s).1
perform (ends r code filetime) s = (r, code, filetime, s)

-- `_hook ? _hook->adjust_url(url) : url`, with the query string behind it.
unfoldable pub adjusted : Option Hook → Text → Text
adjusted none url = url
adjusted (some hook) url = hook.adjust_url url

unfoldable pub has_question_mark : Text → Bool
has_question_mark [] = false
has_question_mark (c ∷ s) = c == 63 || has_question_mark s

unfoldable pub set_url : Option Hook → Text → Text → RequestState → RequestState
unfolding adjusted has_question_mark
set_url hook url query_string s =
    let a = adjusted hook url in
    record s {
      url = url;
      curl_url =
          if is_empty query_string
          then a
          else a ++ (if has_question_mark a then codes "&" else codes "?") ++ query_string;
    }

unfoldable pub set_header : Text → Text → RequestState → RequestState
unfolding put_header
set_header name value s = record s { headers = put_header name value s.headers }

unfoldable pub set_input_buffer : Option Text → RequestState → RequestState
set_input_buffer buffer s = record s { input_buffer = buffer }

-- What `init` and `run` end with: they return, or throw.
pub data Ran : Type 0 where
  returned : RequestState → Ran
  thrown : RequestState → Ran

unfoldable pub init : Method → RequestState → Ran
init method s =
    if s.canceled
    then thrown s
    else returned (record s {
      method = some method;
      url = [];
      curl_url = [];
      output_buffer = [];
      response_headers = [];
      response_code = 0;
      last_modified = 0;
      headers = [];
      input_buffer = none;
    })
