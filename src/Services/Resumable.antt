-- ===== src/Services/Resumable.antt =====
-- upload_multi of services/gs/file_transfer.cc: a resumable upload, whose parts but the last go through
-- the queue. The decimal printing, `on_read` (by part and attempt) and the store's answers are arguments.
-- The count of failed chunks is left out.
pub mod Received
mod Runs
use s3fuse.Prelude.{
  ℕ, zero, suc, ◌+◌, ◌-◌, ◌%◌, Bool, true, false, not, List, [], ◌∷◌, ◌++◌, Option, none, some,
  ◌==◌, if◌then◌else◌, length, take, get_elem?,
}
use s3fuse.Prelude.Code.{Code, Errno, err, success, is_failure, eio, einval, ecanceled, etimedout}
use s3fuse.Prelude.Text.{Text, codes, same}
use s3fuse.Base.Http.{
  Request, Response, Answer, replied, threw, timed_out, http_put, http_post, get_header, sc_ok,
  sc_created, sc_resume,
}
use s3fuse.Services.Ranges.{Range, parts, word}
use s3fuse.Threads.ParallelQueue.{process}

pub record Uploader : Type 0 where
  pub url : Text
  pub show : ℕ → Text
  -- The code and the buffer that `on_read` gives the attempt at a part, for a size and an offset.
  pub on_read : ℕ → ℕ → ℕ → ℕ → Code × Text
  -- config::get_max_transfer_retries(): the default of the queue.
  pub max_retries : ℕ

pub record Store : Type 0 where
  pub initiating : Request → Answer
  pub storing : ℕ → ℕ → Request → Answer

-- What read_and_upload ends with: an error, or a response.
pub data Sent : Type 0 where
  halted : Code → Sent
  sent : Response → Sent

-- The location that upload_multi_init returns, or its error.
pub data Location : Type 0 where
  refused : Errno → Location
  located : Text → Location

pub record Ended : Type 0 where
  pub code : Code
  pub returned_etag : Text

abbrev pub upload_id_delim : Text
upload_id_delim = codes "?upload_id="

-- `s.substr(s.find(delim))`
unfoldable pub suffix_from : Text → Text → Option Text
suffix_from delim [] = if same [] delim then some [] else none
suffix_from delim (c ∷ s) =
    let rest = suffix_from delim s in
    if same (take (length delim) (c ∷ s)) delim then some (c ∷ s) else rest

-- `parts.back()` and what `parts.pop_back()` leaves; there is no last part of an empty vector.
unfoldable pub pop_back : List Range → Option (List Range × Range)
pop_back [] = none
pop_back (r ∷ rs) = elim (pop_back rs) [
  | none ↦ some ([], r)
  | some (front, last) ↦ some (r ∷ front, last)
]

unfoldable pub locate : Text → Answer → Location
unfolding suffix_from
locate url threw = refused ecanceled
locate url timed_out = refused etimedout
locate url (replied res) =
    if not (res.response_code == sc_created)
    then refused eio
    else elim (suffix_from upload_id_delim (get_header (codes "Location") res.response_headers)) [
      | none ↦ refused eio
      | some id ↦ located (url ++ id)
    ]

-- `bytes first-last/total`, where a total of 0 is written as a star.
unfoldable pub content_range : (ℕ → Text) → Range → ℕ → Text
content_range show range total_size =
    codes "bytes "
    ++ show range.offset
    ++ codes "-"
    ++ show ((range.offset + range.size + (word - 1)) % word)
    ++ codes "/"
    ++ (if total_size == 0 then codes "*" else show total_size)

unfoldable pub sent_by : Answer → Sent
sent_by threw = halted (err ecanceled)
sent_by timed_out = halted (err etimedout)
sent_by (replied res) = sent res

module _ (u : Uploader) (store : Store) where
  unfoldable pub init_request : Request
  init_request = record {
    method = http_post;
    url = u.url;
    headers = (codes "x-goog-resumable", codes "start") ∷ [];
    input = [];
  }

  unfoldable pub range_request : Text → ℕ → Range → Text → Request
  unfolding content_range
  range_request location total_size range buffer = record {
    method = http_put;
    url = location;
    headers = (codes "Content-Range", content_range u.show range total_size) ∷ [];
    input = buffer;
  }

  -- The upload of what `on_read` has given.
  unfoldable pub upload_read : Text → ℕ → ℕ → Range → ℕ → Code × Text → Sent
  unfolding range_request sent_by
  upload_read location i c range total_size (r, buffer) =
      if is_failure r
      then halted r
      else sent_by (store.storing i c (range_request location total_size range buffer))

  unfoldable pub read_and_upload : Text → ℕ → ℕ → Range → ℕ → Sent
  unfolding upload_read
  read_and_upload location i c range total_size =
      upload_read location i c range total_size (u.on_read i c range.size range.offset)

  unfoldable pub upload_part : Text → ℕ → ℕ → Range → Code
  unfolding read_and_upload
  upload_part location i c range = elim (read_and_upload location i c range 0) [
    | halted r ↦ r
    | sent res ↦ if not (res.response_code == sc_resume) then err eio else success
  ]

  -- The queue asks for the ids of the parts alone.
  unfoldable pub part_outcome : Text → List Range → ℕ → ℕ → Code
  unfolding upload_part
  part_outcome location ranges i c = elim (get_elem? ranges i) [
    | none ↦ err einval
    | some range ↦ upload_part location i c range
  ]

  unfoldable pub upload_last_part : Text → ℕ → Range → ℕ → Ended
  unfolding read_and_upload
  upload_last_part location i range total_size =
      elim (read_and_upload location i 0 range total_size) [
        | halted r ↦ record { code = r; returned_etag = [] }
        | sent res ↦
            if not (res.response_code == sc_ok)
            then record { code = err eio; returned_etag = [] }
            else record {
              code = success;
              returned_etag = get_header (codes "ETag") res.response_headers;
            }
      ]

  -- One part at a time goes through the queue.
  unfoldable pub upload_parts : Text → List Range → Range → ℕ → Option Ended
  unfolding part_outcome upload_last_part
  upload_parts location front last size =
      elim (process (part_outcome location front) u.max_retries 1 (length front)) [
        | none ↦ none
        | some s ↦
            if is_failure s.status
            then some (record { code = s.status; returned_etag = [] })
            else some (upload_last_part location (length front) last size)
      ]

  -- `none` stands for a queue that does not end, and for the last part of none.
  unfoldable pub upload_multi : ℕ → ℕ → Option Ended
  unfolding locate init_request pop_back upload_parts
  upload_multi size chunk = elim (locate u.url (store.initiating init_request)) [
    | refused e ↦ some (record { code = err e; returned_etag = [] })
    | located location ↦ elim (pop_back (parts size chunk)) [
      | none ↦ none
      | some (front, last) ↦ upload_parts location front last size
    ]
  ]
