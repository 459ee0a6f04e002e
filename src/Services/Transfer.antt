-- ===== src/Services/Transfer.antt =====
-- services/file_transfer.cc. Config values, boost::lexical_cast (`show`) and the digests are
-- arguments; `on_write` and `on_read` stand for the callbacks that a file passes in, with the
-- number of the attempt, since a later one may see other data.
pub mod Download
mod Runs
use mathlib.Core.Option
use s3fuse.Prelude.{
  ℕ, zero, suc, ◌+◌, ◌<◌, Bool, ◌&&◌, not, List, [], ◌∷◌, ◌++◌, Option, none, some, ltb, ◌==◌,
  if◌then◌else◌, length, take, get_elem?,
}
use s3fuse.Prelude.Code.{
  Code, ret, err, success, is_failure, ◌and_then◌, enoent, eio, enotsup, einval, ecanceled,
  etimedout,
}
use s3fuse.Prelude.Text.{Text, codes, same}
use s3fuse.Base.Http.{
  Method, Headers, Request, Response, Answer, replied, threw, timed_out, run_request, http_get,
  http_put, get_header, sc_ok, sc_not_found, sc_partial_content,
}
use s3fuse.Crypto.Hex.{encode_quoted, is_valid_quoted_hex_hash}
use s3fuse.Services.Ranges.{Range, parts, num_parts}
use s3fuse.Threads.ParallelQueue.{Progress, process}

-- The counters of one kind of transfer: `++(*success)` or `++(*failure)`.
pub record Counters : Type 0 where
  pub succeeded : ℕ
  pub failed : ℕ

pub increment_on_result : Code → Counters → Code × Counters
increment_on_result r c =
    if is_failure r
    then (r, record c { failed = suc c.failed })
    else (r, record c { succeeded = suc c.succeeded })

module _ (show : ℕ → Text) where
  -- The request that download_part sends.
  pub range_request : Text → Range → Request
  range_request url r = record {
    method = http_get;
    url = url;
    headers =
        (
          codes "Range",
          codes "bytes=" ++ (show r.offset ++ (codes "-" ++ show (r.offset + r.size))),
        )
        ∷ [];
    input = [];
  }

-- What download_part does with the response. `on_write` has the bytes that it is to write, of
-- which there are `range.size`, and the offset.
pub store_part : (List ℕ → ℕ → Code) → Range → Response → Code
store_part on_write r res =
    if not (res.response_code == sc_partial_content)
    then err eio
    else if ltb (length res.output) r.size
    then err eio
    else on_write (take r.size res.output) r.offset

-- One attempt at one part, as the worker that runs it reports it.
pub download_part : (List ℕ → ℕ → Code) → Range → Answer → Code
unfolding store_part
download_part on_write r a = run_request a (store_part on_write r)

-- `&parts[i]`. The queue asks for the ids below the number of parts alone.
pub on_part : (Range → Code) → Option Range → Code
on_part f none = err einval
on_part f (some r) = f r

module _ (show : ℕ → Text) (server : ℕ → ℕ → Request → Answer)
    (on_write : ℕ → ℕ → List ℕ → ℕ → Code) where
  -- The code of the attempt `c` at the part `i`. `server i c` answers its request.
  pub download_outcome : Text → ℕ → ℕ → ℕ → ℕ → Code
  download_outcome url size chunk i c =
      on_part (λ r. download_part (on_write i c) r (server i c (range_request show url r)))
        (get_elem? (parts size chunk) i)

  pub download_multi : ℕ → ℕ → Text → ℕ → ℕ → Option Progress
  download_multi max_retries max_parts_in_progress url size chunk =
      process (download_outcome url size chunk) max_retries max_parts_in_progress
        (length (parts size chunk))

-- download_single's answer to its one request; the whole body goes to offset 0.
pub store_whole : (List ℕ → ℕ → Code) → Response → Code
store_whole on_write res =
    if res.response_code == sc_not_found
    then err enoent
    else if not (res.response_code == sc_ok)
    then err eio
    else on_write res.output 0

pub download_single : (List ℕ → ℕ → Code) → Answer → Code
unfolding store_whole
download_single on_write a = run_request a (store_whole on_write)

-- Whether `download` splits the file, and whether `upload` does.
pub is_multipart : ℕ → ℕ → Bool
is_multipart chunk size = ltb 0 chunk && ltb chunk size

-- upload_single up to `run`: the digests and the request.
module _ (md5 : List ℕ → List ℕ) (base64 : List ℕ → Text) where
  pub upload_request : Text → List ℕ → Request
  upload_request url buffer = record {
    method = http_put;
    url = url;
    headers = (codes "Content-MD5", base64 (md5 buffer)) ∷ [];
    input = buffer;
  }

-- The test of the etag at the end of upload_single: the code, and the etag to return.
pub check_upload : (List ℕ → List ℕ) → List ℕ → Response → Code × Option Text
check_upload md5 buffer res =
    if not (res.response_code == sc_ok)
    then (err eio, none)
    else let etag = get_header (codes "ETag") res.response_headers in
      if is_valid_quoted_hex_hash etag && not (same etag (encode_quoted (md5 buffer)))
      then (err eio, none)
      else (success, some etag)

module _ (md5 : List ℕ → List ℕ) (base64 : List ℕ → Text) where
  -- `read` is what `on_read(size, 0, buffer)` returned and left in the buffer.
  pub upload_single : Text → Code × List ℕ → (Request → Answer) → Code × Option Text
  upload_single url (r, buffer) server =
      if is_failure r then (r, none) else answered (server (upload_request md5 base64 url buffer))
    where
      answered : Answer → Code × Option Text
      answered (replied res) = check_upload md5 buffer res
      answered threw = (err ecanceled, none)
      answered timed_out = (err etimedout, none)

-- file_transfer::upload_multi of the base class.
pub upload_multi : Code
upload_multi = err enotsup

-- The statistics of downloads.
pub record Stats : Type 0 where
  pub single : Counters
  pub multi : Counters

count_single : Code → Stats → Code × Stats
count_single r st = let (c, n) = increment_on_result r st.single in (c, record st { single = n })

count_multi : Code → Stats → Code × Stats
count_multi r st = let (c, n) = increment_on_result r st.multi in (c, record st { multi = n })

module _ (show : ℕ → Text) (server : ℕ → ℕ → Request → Answer)
    (on_write : ℕ → ℕ → List ℕ → ℕ → Code) where
  -- `download`; the one request of download_single is numbered (0, 0). `none` cannot be returned.
  pub download : ℕ → ℕ → Text → ℕ → ℕ → Stats → Option (Code × Stats)
  unfolding download_multi count_single count_multi
  download max_retries max_parts_in_progress url size chunk st =
      if is_multipart chunk size
      then Option.map (λ t. count_multi t.status st)
          (download_multi show server on_write max_retries max_parts_in_progress url size chunk)
      else some (
          count_single
            (download_single (on_write 0 0)
              (server 0 0 (record { method = http_get; url = url; headers = []; input = [] })))
            st)
