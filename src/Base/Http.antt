-- ===== src/Base/Http.antt =====
-- The interface of base/request.h that the other components use: what is sent, what comes back,
-- and what becomes of a failed request in a worker of a request pool (threads/request_worker.cc).
use s3fuse.Prelude.{ℕ, List, [], ◌∷◌, if◌then◌else◌}
use s3fuse.Prelude.Code.{Code, err, ecanceled, etimedout}
use s3fuse.Prelude.Text.{Text, same}

pub data Method : Type 0 where
  http_delete http_get http_head http_post http_put : Method

abbrev pub Headers : Type 0
Headers = List (Text × Text)

-- What `init`, `set_url`, `set_header` and `set_input_buffer` collect before `run`.
pub record Request : Type 0 where
  pub method : Method
  pub url : Text
  pub headers : Headers
  pub input : Text

-- What `run` leaves in the request.
pub record Response : Type 0 where
  pub response_code : ℕ
  pub response_headers : Headers
  pub output : Text

-- `run` fills the response in, or throws, or hangs until the watchdog gives the item up.
pub data Answer : Type 0 where
  replied : Response → Answer
  threw timed_out : Answer

-- The code of a work item whose one request is answered by `a` and whose code from there on is `k`.
abbrev pub run_request : Answer → (Response → Code) → Code
run_request (replied r) k = k r
run_request threw k = err ecanceled
run_request timed_out k = err etimedout

abbrev pub sc_ok : ℕ
sc_ok = 200

abbrev pub sc_created : ℕ
sc_created = 201

abbrev pub sc_no_content : ℕ
sc_no_content = 204

abbrev pub sc_partial_content : ℕ
sc_partial_content = 206

abbrev pub sc_resume : ℕ
sc_resume = 308

abbrev pub sc_not_found : ℕ
sc_not_found = 404

abbrev pub sc_precondition_failed : ℕ
sc_precondition_failed = 412

-- A header that is not there reads as the empty string.
unfoldable pub get_header : Text → Headers → Text
get_header name [] = []
get_header name ((k, v) ∷ hs) = let rest = get_header name hs in if same k name then v else rest
