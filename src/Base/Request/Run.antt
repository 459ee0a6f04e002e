-- ===== src/Base/Request/Run.antt =====
-- request::run of base/request.cc: the attempts at a transfer, with the hook and the statistics.
use s3fuse.Prelude.{
  ℕ, zero, suc, ◌+◌, ◌%◌, ◌^◌, Bool, true, false, ◌&&◌, ◌||◌, not, List, [], ◌∷◌, ◌++◌, Option,
  none, some, ltb, leb, ◌==◌, if◌then◌else◌, length,
}
use s3fuse.Prelude.Text.{Text, codes, is_empty}
use s3fuse.Base.Http.{Method, http_post, http_put, Headers}
use s3fuse.Base.Request.{
  CurlCode, curle_ok, other, Transfer, RequestState, Hook, perform, rewind, whole_input, Ran,
  returned, thrown,
}

-- What libcurl is asked for.
pub record Sent : Type 0 where
  pub method : Method
  pub curl_url : Text
  pub headers : List Text
  pub size : ℕ

pub record Host : Type 0 where
  -- By the number of the attempt.
  pub perform : ℕ → Sent → Transfer
  pub clock : ℕ → ℕ
  pub max_transfer_retries : ℕ
  pub remove_expect_header : Bool

-- The codes after which `run` tries again.
unfoldable pub is_retried : CurlCode → Bool
is_retried curle_ok = false
is_retried (other n) = false
is_retried _ = true

abbrev pub is_ok : CurlCode → Bool
is_ok curle_ok = true
is_ok _ = false

-- The lines of the headers, and their size.
unfoldable pub header_lines : Headers → List Text
header_lines [] = []
header_lines ((k, v) ∷ hs) = (k ++ codes ": " ++ v) ∷ header_lines hs

unfoldable pub sent_headers : Host → Headers → List Text
unfolding header_lines
sent_headers host hs =
    header_lines hs ++ (if host.remove_expect_header then codes "Expect:" ∷ [] else [])

unfoldable pub lines_size : List Text → ℕ
lines_size [] = 0
lines_size (l ∷ ls) = length l + lines_size ls

-- How an attempt ends: run throws, goes on to the next one, or leaves the loop.
pub data Attempt : Type 0 where
  throws : RequestState → Attempt
  retries : CurlCode → ℕ → RequestState → Attempt
  stops : CurlCode → ℕ → RequestState → Attempt

abbrev pub hook_wants_retry : Option Hook → RequestState → ℕ → Bool
hook_wants_retry none s iter = false
hook_wants_retry (some hook) s iter = hook.should_retry s iter

abbrev pub hook_headers : Option Hook → RequestState → ℕ → Option Headers
hook_headers none s iter = some s.headers
hook_headers (some hook) s iter = hook.pre_run s iter

-- The attempt from the end of curl_easy_perform.
unfoldable pub conclude : Option Hook → ℕ → ℕ → ℕ → CurlCode × ℕ × ℕ × RequestState → Attempt
unfolding is_retried
conclude hook iter request_size bytes (r, code, filetime, s) =
    if s.canceled
    then throws (record s {
      timeout = 0;
      counters = record s.counters { timeouts = suc s.counters.timeouts };
    })
    else if is_retried r
    then retries r bytes (record s {
      timeout = 0;
      counters = record s.counters { curl_failures = suc s.counters.curl_failures };
    })
    else if not (is_ok r)
    then stops r bytes (record s { timeout = 0 })
    else let t = record s { timeout = 0; response_code = code; last_modified = filetime } in
      let b = bytes + request_size + length s.output_buffer in
      if hook_wants_retry hook t iter
      then retries r b
          (record t { counters = record t.counters { hook_retries = suc t.counters.hook_retries } })
      else stops r b t

-- What an attempt starts from, once the hook has set the headers.
unfoldable pub prepared : ℕ → Headers → RequestState → RequestState
unfolding rewind
prepared deadline hs s =
    rewind
      (record s { output_buffer = []; response_headers = []; headers = hs; timeout = deadline })

unfoldable pub request_of : Host → Method → Headers → RequestState → Sent
unfolding sent_headers
request_of host method hs s = record {
  method = method;
  curl_url = s.curl_url;
  headers = sent_headers host hs;
  size = length (whole_input s.input_buffer);
}

unfoldable pub attempt : Host → Option Hook → Method → ℕ → ℕ → ℕ → RequestState → Attempt
unfolding conclude prepared request_of lines_size
attempt host hook method timeout_in_s iter bytes s =
    let cleared = record s { output_buffer = []; response_headers = [] } in
    elim (hook_headers hook cleared iter) [
      | none ↦ throws cleared
      | some hs ↦
          let q = request_of host method hs s in
          conclude hook iter (lines_size q.headers + q.size) bytes
            (perform (host.perform iter q) (prepared (host.clock iter + timeout_in_s) hs s))
    ]

-- The end of the loop: an exception, or `r`, `iter` and the bytes.
pub data LoopEnd : Type 0 where
  raised : RequestState → LoopEnd
  left : CurlCode → ℕ → ℕ → RequestState → LoopEnd

-- The loop from `iter` on, with `k` attempts left and the last code `r`.
unfoldable pub run_loop :
    Host → Option Hook → Method → ℕ → ℕ → CurlCode → ℕ → ℕ → RequestState → LoopEnd
unfolding attempt
run_loop host hook method timeout_in_s zero r iter bytes s = left r iter bytes s
run_loop host hook method timeout_in_s (suc k) r iter bytes s =
    elim (attempt host hook method timeout_in_s iter bytes s) [
      | throws t ↦ raised t
      | retries r' b t ↦ run_loop host hook method timeout_in_s k r' (suc iter) b t
      | stops r' b t ↦ left r' iter b t
    ]

-- What `run` does behind the loop.
unfoldable pub close_run : LoopEnd → Ran
close_run (raised s) = thrown s
close_run (left r iter bytes s) =
    if not (is_ok r)
    then thrown (record s { counters = record s.counters { aborts = suc s.counters.aborts } })
    else returned (record s {
      total_bytes_transferred =
          if ltb 0 s.run_count
          then (s.total_bytes_transferred + bytes) % 2 ^ 64
          else s.total_bytes_transferred;
      run_count = (s.run_count + iter + 1) % 2 ^ 64;
      counters =
          if leb 400 s.response_code && not (s.response_code == 404)
          then record s.counters { request_failures = suc s.counters.request_failures }
          else s.counters;
    })

-- Whether a method takes no input, and there is some.
unfoldable pub is_unexpected_input : Method → Option Text → Bool
is_unexpected_input http_put b = false
is_unexpected_input http_post b = false
is_unexpected_input _ b = not (is_empty (whole_input b))

unfoldable pub run : Host → Option Hook → ℕ → RequestState → Ran
unfolding run_loop close_run is_unexpected_input
run host hook timeout_in_s s = elim s.method [
  | none ↦ thrown s
  | some method ↦
      if is_empty s.url || s.canceled || is_unexpected_input method s.input_buffer
      then thrown s
      else close_run
          (run_loop host hook method timeout_in_s host.max_transfer_retries curle_ok 0 0 s)
]
