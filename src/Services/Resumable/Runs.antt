-- ===== src/Services/Resumable/Runs.antt =====
-- A resumable upload of ten bytes in parts of four, after one part that on_read fails to read at first.
use s3fuse.Prelude.{ℕ, ◌+◌, ◌≡◌, refl, ◌==◌, if◌then◌else◌, [], ◌∷◌, some, arith}
use s3fuse.Prelude.Code.{success, err, eagain}
use s3fuse.Prelude.Text.{codes, same}
use s3fuse.Base.Http.{Request, Answer, replied, sc_ok, sc_created, sc_resume, get_header}
use s3fuse.Services.Ranges.{parts, fill}
use s3fuse.Services.Resumable.{
  Uploader, Store, Ended, suffix_from, pop_back, locate, content_range, sent_by, init_request,
  range_request, upload_read, read_and_upload, upload_part, part_outcome, upload_last_part,
  upload_parts, upload_multi,
}
use s3fuse.Services.Resumable.Received.{Succeeded, resumable-Succeeded}
use s3fuse.Threads.ParallelQueue.{process, loop, step, start, initial_parts, collect, post_next}

abbrev uploader : Uploader
uploader = record {
  url = codes "/b/f";
  show = λ n. (48 + n) ∷ [];
  on_read = λ i c size offset. (if i + c == 0 then err eagain else success, (48 + i) ∷ []);
  max_retries = 1;
}

abbrev answer : ℕ → Request → Answer
answer code q = replied (record {
  response_code = code;
  response_headers = (codes "ETag", q.input) ∷ (codes "Location", codes "x?upload_id=7") ∷ [];
  output = [];
})

abbrev store : Store
store = record {
  initiating = answer sc_created;
  storing = λ i c q. answer (if i == 2 then sc_ok else sc_resume) q;
}

resumable-Succeeded_example :
    (r : Ended) × (upload_multi uploader store 10 4 ≡ some r)
    × (r.code ≡ success → Succeeded uploader store 10 4 r)
resumable-Succeeded_example =
    resumable-Succeeded uploader store 10 4 (omega arith) (omega arith) (omega arith)

uploads :
    upload_multi uploader store 10 4 ≡ some (record { code = success; returned_etag = codes "2" })
unfolding upload_multi upload_parts upload_last_part part_outcome upload_part read_and_upload
    upload_read range_request init_request content_range sent_by locate suffix_from pop_back parts
    fill process loop step start initial_parts collect post_next same get_header
uploads = refl

last_range : content_range uploader.show (record { size = 2; offset = 8 }) 10 ≡ codes "bytes 8-9/:"
unfolding content_range
last_range = refl
