-- ===== src/Services/Signing/Runs.antt =====
-- A request that is signed a second time.
use s3fuse.Prelude.{◌≡◌, refl, true, false, [], ◌∷◌, ◌++◌, some, none}
use s3fuse.Prelude.Text.{codes, same, is_empty}
use s3fuse.Base.Http.{http_get, Headers, get_header}
use s3fuse.Base.Request.{RequestState, put_header, before}
use s3fuse.Services.Signing.{
  Account, signing_hook, sign, string_to_sign, method_name, header_block, is_signed_header,
  authorization, should_retry, gs_should_retry,
}
use s3fuse.Services.Signing.Verified.{Verifies, pre_run-Verifies}

abbrev account : Account
account = record {
  scheme = codes "AWS ";
  key = codes "k";
  secret = codes "s";
  endpoint = codes "http://h";
  header_prefix = codes "x-amz-";
  mac = λ secret s. s;
  http_time = λ i. codes "today";
  is_request_timeout = λ s. false;
}

abbrev request : RequestState
request = record {
  method = some http_get;
  url = codes "/b";
  curl_url = codes "http://h/b";
  response_headers = [];
  output_buffer = [];
  response_code = 503;
  last_modified = 0;
  headers = (codes "Authorization", codes "old") ∷ (codes "x-amz-acl", codes "private") ∷ [];
  input_buffer = none;
  input_left = [];
  canceled = false;
  timeout = 0;
  run_count = 0;
  total_bytes_transferred = 0;
  counters = record {
    curl_failures = 0;
    request_failures = 0;
    timeouts = 0;
    aborts = 0;
    hook_retries = 0;
    rewinds = 0;
  };
}

abbrev signed : Headers
signed =
    (
      codes "Authorization",
      codes "AWS k:GET"
          ++ (10 ∷ 10 ∷ 10 ∷ [])
          ++ codes "today"
          ++ (10 ∷ [])
          ++ codes "x-amz-acl:private"
          ++ (10 ∷ [])
          ++ codes "/b",
    )
    ∷ (codes "Date", codes "today")
    ∷ (codes "x-amz-acl", codes "private")
    ∷ []

signs : (signing_hook account).pre_run request 1 ≡ some signed
unfolding signing_hook sign string_to_sign method_name header_block is_signed_header authorization
    put_header before get_header is_empty same
signs = refl

pre_run-Verifies_example :
    Verifies account (some http_get) (codes "/b") signed
    × (get_header (codes "Date") signed ≡ codes "today")
unfolding same
pre_run-Verifies_example = pre_run-Verifies account request 1 signed refl signs

retries : should_retry account request 1 ≡ true
unfolding should_retry
retries = refl

-- A refused token is tried again only after the first attempt.
refused : gs_should_retry account (record request { response_code = 401 }) 1 ≡ false
unfolding gs_should_retry should_retry
refused = refl
