-- ===== src/Services/MultiUpload.antt =====
-- upload_multi of services/aws/file_transfer.cc. The digest of a buffer, the decimal printing, what
-- xml::parse and xml::find make of an answer (libxml) and the store's answers are arguments, and so is
-- `on_read`, by part and attempt. The count of failed chunks is left out.
pub mod Stored
mod Runs
use s3fuse.Prelude.{
  ℕ, suc, ◌+◌, Bool, true, false, not, List, [], ◌∷◌, ◌++◌, Option, none, some, ◌==◌, if◌then◌else◌,
  length, get_elem?,
}
use s3fuse.Prelude.Code.{
  Code, Errno, err, success, is_failure, eio, eagain, einval, ecanceled, etimedout,
}
use s3fuse.Prelude.Text.{Text, codes, same, is_empty}
use s3fuse.Base.Http.{
  Request, Response, Answer, replied, threw, timed_out, run_request, http_put, http_post,
  get_header, sc_ok,
}
use s3fuse.Services.Ranges.{Range, parts}
use s3fuse.Threads.ParallelQueue.{process}
use s3fuse.Threads.ParallelQueue.Attempts.{last_attempt}

-- The answer has no such element, or it is this.
pub data Found : Type 0 where
  missing : Errno → Found
  element : Text → Found

pub record Uploader : Type 0 where
  pub url : Text
  pub show : ℕ → Text
  pub digest : Text → Text
  pub find_upload_id : Text → Found
  pub find_etag : Text → Found
  -- The code and the buffer that `on_read` gives the attempt at a part, for a size and an offset.
  pub on_read : ℕ → ℕ → ℕ → ℕ → Code × Text
  pub max_retries : ℕ
  pub max_parts_in_progress : ℕ

pub record Store : Type 0 where
  pub initiating : Request → Answer
  pub storing : ℕ → ℕ → Request → Answer
  pub completing : Request → Answer

-- What a request for an element ends with: an error, or the element.
pub data Named : Type 0 where
  failed : Errno → Named
  named : Text → Named

-- An answer that must be 200 and hold an element that is not empty.
unfoldable pub named_in : (Text → Found) → Answer → Named
named_in find threw = failed ecanceled
named_in find timed_out = failed etimedout
named_in find (replied res) =
    if not (res.response_code == sc_ok) then failed eio else elim (find res.output) [
      | missing e ↦ failed e
      | element s ↦ if is_empty s then failed eio else named s
    ]

unfoldable pub part_element : (ℕ → Text) → ℕ → Text → Text
part_element show number etag =
    codes "<Part><PartNumber>"
    ++ show number
    ++ codes "</PartNumber><ETag>"
    ++ etag
    ++ codes "</ETag></Part>"

-- The elements of the parts from number `i` on; the parts are numbered from 1 here.
unfoldable pub part_elements : (ℕ → Text) → ℕ → List Text → Text
unfolding part_element
part_elements show i [] = []
part_elements show i (e ∷ es) = part_element show (suc i) e ++ part_elements show (suc i) es

-- The end of upload_multi: its code, `returned_etag`, and whether the upload was cancelled.
pub record Uploaded : Type 0 where
  pub code : Code
  pub returned_etag : Text
  pub cancelled : Bool

module _ (u : Uploader) (store : Store) where
  unfoldable pub init_request : Request
  init_request = record {
    method = http_post;
    url = u.url ++ codes "?uploads";
    headers = (codes "Content-Type", []) ∷ [];
    input = [];
  }

  unfoldable pub part_request : Text → ℕ → Text → Request
  part_request upload_id i buffer = record {
    method = http_put;
    url = u.url ++ codes "?partNumber=" ++ u.show (suc i) ++ codes "&uploadId=" ++ upload_id;
    headers = [];
    input = buffer;
  }

  unfoldable pub check_etag : Text → Response → Code
  check_etag etag res =
      if not (res.response_code == sc_ok)
      then err eio
      else if same (get_header (codes "ETag") res.response_headers) etag
      then success
      else err eagain

  unfoldable pub send_part : Text → ℕ → ℕ → Code × Text → Code
  unfolding check_etag part_request
  send_part upload_id i c (r, buffer) =
      if is_failure r
      then r
      else run_request (store.storing i c (part_request upload_id i buffer))
          (check_etag (u.digest buffer))

  unfoldable pub upload_part : Text → ℕ → ℕ → Range → Code
  unfolding send_part
  upload_part upload_id i c range = send_part upload_id i c (u.on_read i c range.size range.offset)

  -- The queue asks for the ids of the parts alone.
  unfoldable pub upload_outcome : Text → List Range → ℕ → ℕ → Code
  unfolding upload_part
  upload_outcome upload_id ranges i c = elim (get_elem? ranges i) [
    | none ↦ err einval
    | some range ↦ upload_part upload_id i c range
  ]

  -- `parts[i].etag` once the queue has ended with 0: what the part's last attempt has set.
  unfoldable pub part_etags : Text → List Range → ℕ → List Range → List Text
  part_etags upload_id ranges i [] = []
  part_etags upload_id ranges i (range ∷ rest) =
      u.digest
        (u.on_read i (last_attempt (upload_outcome upload_id ranges) u.max_retries i) range.size
          range.offset).1
      ∷ part_etags upload_id ranges (suc i) rest

  unfoldable pub complete_request : Text → List Text → Request
  unfolding part_elements
  complete_request upload_id etags = record {
    method = http_post;
    url = u.url ++ codes "?uploadId=" ++ upload_id;
    headers = (codes "Content-Type", []) ∷ [];
    input =
        codes "<CompleteMultipartUpload>"
        ++ part_elements u.show 0 etags
        ++ codes "</CompleteMultipartUpload>";
  }

  unfoldable pub complete_upload : Text → List Text → Uploaded
  unfolding complete_request named_in
  complete_upload upload_id etags =
      elim (named_in u.find_etag (store.completing (complete_request upload_id etags))) [
        | failed e ↦ record { code = err e; returned_etag = []; cancelled = false }
        | named etag ↦ record { code = success; returned_etag = etag; cancelled = false }
      ]

  unfoldable pub upload_parts : Text → List Range → Option Uploaded
  unfolding upload_outcome part_etags complete_upload
  upload_parts upload_id ranges =
      elim (process (upload_outcome upload_id ranges) u.max_retries u.max_parts_in_progress
        (length ranges)) [
          | none ↦ none
          | some s ↦
              if is_failure s.status
              then some (record { code = s.status; returned_etag = []; cancelled = true })
              else some (complete_upload upload_id (part_etags upload_id ranges 0 ranges))
        ]

  unfoldable pub upload_multi : ℕ → ℕ → Option Uploaded
  unfolding init_request upload_parts
  upload_multi size chunk = elim (named_in u.find_upload_id (store.initiating init_request)) [
    | failed e ↦ some (record { code = err e; returned_etag = []; cancelled = false })
    | named upload_id ↦ upload_parts upload_id (parts size chunk)
  ]
