-- ===== src/Base/Request/Runs.antt =====
-- A request whose first transfer breaks off, headers, and urls.
use s3fuse.Prelude.{
  ℕ, ◌≡◌, ◌≢◌, ◌<◌, refl, true, false, [], ◌∷◌, ◌++◌, none, some, ◌==◌, length, arith,
  if◌then◌else◌,
}
use s3fuse.Prelude.Text.{Text, codes, same, is_empty}
use s3fuse.Base.Http.{http_put, get_header}
use s3fuse.Base.Request.{
  curle_ok, curle_partial_file, Transfer, header, output, input, watchdog, ends, RequestState,
  header_process, output_write, input_read, check_timeout, perform, rewind, split_colon, skip_space,
  until_eol, put_header, before, returned, thrown,
}
use s3fuse.Base.Request.Run.{
  Host, run, run_loop, attempt, conclude, close_run, prepared, request_of, is_retried, sent_headers,
  header_lines, lines_size, is_unexpected_input,
}
use s3fuse.Base.Request.UrlEncode.{url_encode, is_kept, is_alnum, upper_hex, url_encode_injective}
use s3fuse.Base.Request.Answered.{Answered, run-Answered}
use s3fuse.Base.Request.HeaderLine.{line, get_header-header_process}

abbrev request : RequestState
request = record {
  method = some http_put;
  url = codes "u";
  curl_url = codes "u";
  response_headers = [];
  output_buffer = [];
  response_code = 0;
  last_modified = 0;
  headers = (codes "a", codes "b") ∷ [];
  input_buffer = some (codes "abcd");
  input_left = [];
  canceled = false;
  timeout = 0;
  run_count = 1;
  total_bytes_transferred = 100;
  counters = record {
    curl_failures = 0;
    request_failures = 0;
    timeouts = 0;
    aborts = 0;
    hook_retries = 0;
    rewinds = 0;
  };
}

-- Two characters are read, and some output comes, before the connection breaks.
abbrev broken : Transfer
broken = input 2 (λ s. output s (λ n. ends curle_partial_file 0 0))

-- All the input is read, and comes back.
abbrev echo : Transfer
echo = header (codes "ETag: x" ++ (13 ∷ 10 ∷ [])) true (λ n.
    input 3 (λ s. output s (λ n. input 3 (λ t. output t (λ m. watchdog 5 (ends curle_ok 200 7))))))

abbrev host : Host
host = record {
  perform = λ i q. if i == 0 then broken else echo;
  clock = λ i. i;
  max_transfer_retries = 3;
  remove_expect_header = false;
}

abbrev answered : RequestState
answered = record request {
  response_headers = (codes "ETag", codes "x") ∷ [];
  output_buffer = codes "abcd";
  response_code = 200;
  last_modified = 7;
  run_count = 3;
  total_bytes_transferred = 112;
  counters = record request.counters { curl_failures = 1 };
}

runs : run host none 20 request ≡ returned answered
unfolding run run_loop attempt conclude close_run prepared request_of is_retried sent_headers
    header_lines lines_size is_unexpected_input perform header_process output_write input_read
    check_timeout rewind split_colon skip_space until_eol put_header before is_empty same
runs = refl

-- The same, with a timeout of 3 seconds: the watchdog comes in second 5, when 4 was the limit.
cancels :
    run host none 3 request
    ≡ thrown (record answered {
      canceled = true;
      response_code = 0;
      last_modified = 0;
      run_count = 1;
      total_bytes_transferred = 100;
      counters = record request.counters { curl_failures = 1; timeouts = 1 };
    })
unfolding run run_loop attempt conclude close_run prepared request_of is_retried sent_headers
    header_lines lines_size is_unexpected_input perform header_process output_write input_read
    check_timeout rewind split_colon skip_space until_eol put_header before is_empty same
cancels = refl

run-Answered_example : (i : ℕ) × (i < 3) × Answered host request answered i
run-Answered_example = run-Answered host none 20 request answered (omega arith) runs

get_header-header_process_example :
    let r = header_process (line (codes "ETag") (codes "x")) true request in
    (r.0 ≡ length (line (codes "ETag") (codes "x")))
    × (get_header (codes "ETag") r.1.response_headers ≡ codes "x")
    × ((other : Text)
        → other ≢ codes "ETag"
        → get_header other r.1.response_headers ≡ get_header other request.response_headers)
    × (header_process (line (codes "ETag") (codes "x")) false request
        ≡ (length (line (codes "ETag") (codes "x")), request))
get_header-header_process_example =
    get_header-header_process (codes "ETag") (codes "x") request
      (
        (omega arith, omega arith),
        (
          (omega arith, omega arith),
          ((omega arith, omega arith), ((omega arith, omega arith), tt)),
        ),
      )
      ((omega arith, omega arith, omega arith), tt) refl

spaces : url_encode (codes "a b/c~") ≡ codes "a%20b/c%7E"
unfolding url_encode is_kept is_alnum upper_hex
spaces = refl

url_encode_injective_example : codes "a b" ≡ codes "a b"
url_encode_injective_example =
    url_encode_injective (codes "a b") (codes "a b") (omega arith, (omega arith, (omega arith, tt)))
      (omega arith, (omega arith, (omega arith, tt))) refl
