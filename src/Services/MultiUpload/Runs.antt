-- ===== src/Services/MultiUpload/Runs.antt =====
-- An upload of ten bytes in parts of four, to a store that takes them all.
use s3fuse.Prelude.{false, ◌≡◌, refl, [], ◌∷◌, some, arith, ◌+◌}
use s3fuse.Prelude.Code.{success}
use s3fuse.Prelude.Text.{codes, same, is_empty}
use s3fuse.Base.Http.{Request, Answer, replied, sc_ok, get_header}
use s3fuse.Services.MultiUpload.{
  element, Uploader, Store, Uploaded, upload_multi, upload_parts, upload_outcome, upload_part,
  send_part, check_etag, part_request, init_request, named_in, complete_upload, complete_request,
  part_elements, part_element, part_etags,
}
use s3fuse.Services.Ranges.{parts, fill}
use s3fuse.Threads.ParallelQueue.{process, loop, step, start, initial_parts, collect, post_next}
use s3fuse.Threads.ParallelQueue.Attempts.{last_attempt, last_from}
use s3fuse.Services.MultiUpload.Stored.{Succeeded, upload_multi-Succeeded}

abbrev uploader : Uploader
uploader = record {
  url = codes "/b/f";
  show = λ n. (48 + n) ∷ [];
  digest = λ s. s;
  find_upload_id = λ s. element (codes "id");
  find_etag = λ s. element (codes "tag");
  on_read = λ i c size offset. (success, (48 + i) ∷ []);
  max_retries = 1;
  max_parts_in_progress = 2;
}

abbrev answer : Request → Answer
answer q = replied (record {
  response_code = sc_ok;
  response_headers = (codes "ETag", q.input) ∷ [];
  output = codes "xml";
})

abbrev store : Store
store = record { initiating = answer; storing = λ i c q. answer q; completing = answer }

upload_multi-Succeeded_example :
    (r : Uploaded) × (upload_multi uploader store 10 4 ≡ some r)
    × (r.code ≡ success → Succeeded uploader store 10 4 r)
upload_multi-Succeeded_example = upload_multi-Succeeded uploader store 10 4 (omega arith)

uploads :
    upload_multi uploader store 10 4
    ≡ some (record { code = success; returned_etag = codes "tag"; cancelled = false })
unfolding upload_multi upload_parts upload_outcome upload_part send_part check_etag part_request
    init_request named_in complete_upload complete_request part_elements part_element part_etags
    parts fill process loop step start initial_parts collect post_next last_attempt last_from
    is_empty same get_header
uploads = refl
