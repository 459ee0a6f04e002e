-- ===== src/Services/MultiUpload/Stored.antt =====
-- What an upload in parts that reports success has stored.
use s3fuse.Prelude.{
  ℕ, zero, suc, ◌+◌, ◌≤◌, ◌<◌, ◌≡◌, ◌≢◌, refl, sym, ap, ◌∙◌, subst, Bool, true, false, List, [],
  ◌∷◌, ◌++◌, get_elem?, some, arith, length,
}
use native.Mathlib.Nat.{zero-add}
use s3fuse.Prelude.Code.{Code, err, success, is_failure}
use s3fuse.Prelude.Text.{Text, codes, same_iff, is_empty}
use s3fuse.Base.Http.{Response, Answer, replied, threw, timed_out, http_put, http_post, get_header}
use s3fuse.Services.Ranges.{Range, parts, num_parts, get-parts, length-parts}
use s3fuse.Services.Transfer.Download.{nth_range}
use s3fuse.Threads.ParallelQueue.{Progress, process}
use s3fuse.Threads.ParallelQueue.Attempts.{last_attempt, last_attempt-le, settle-last_attempt}
use s3fuse.Threads.ParallelQueue.Settle.{process-Decided}
use s3fuse.Services.MultiUpload.{
  Found, missing, element, part_element, part_elements, Uploader, Store, Named, failed, named,
  named_in, Uploaded, init_request, part_request, check_etag, send_part, upload_part,
  upload_outcome, part_etags, complete_request, complete_upload, upload_parts, upload_multi,
}

-- An answer of 200 that has this element, which is not empty.
abbrev pub Names : (Text → Found) → Answer → Text → Type 0
Names find answer name =
    (res : Response) × (answer ≡ replied res)
    × (res.response_code ≡ 200)
    × (find res.output ≡ element name)
    × (name ≢ [])

named_in-Names :
    (find : Text → Found) (answer : Answer) (name : Text)
    → named_in find answer ≡ named name
    → Names find answer name
unfolding named_in is_empty
named_in-Names find threw name h = absurd (ground arith)
named_in-Names find timed_out name h = absurd (ground arith)
named_in-Names find (replied res) name h = split (find res.output) refl
  where
    not_empty : (s : Text) → is_empty s ≡ false → s ≢ []
    not_empty [] e g = absurd (ground arith)
    not_empty (c ∷ s) e g = ground arith

    split : (f : Found) → find res.output ≡ f → Names find (replied res) name
    split (missing e) g = absurd (ground arith)
    split (element s) g =
        let same_name : s ≡ name = ground arith in
        let filled : is_empty s ≡ false = ground arith in
        (
          res,
          refl,
          ground arith,
          g ∙ ap element same_name,
          subst (λ x. x ≢ []) same_name (not_empty s filled),
        )

-- The elements of the parts that have these etags, numbered from `n` on.
pub listed : (ℕ → Text) → ℕ → List Text → Text
listed show n [] = []
listed show n (e ∷ es) =
    (codes "<Part><PartNumber>"
      ++ show n
      ++ codes "</PartNumber><ETag>"
      ++ e
      ++ codes "</ETag></Part>")
    ++ listed show (suc n) es

part_elements-listed :
    (show : ℕ → Text) (i : ℕ) (es : List Text) → part_elements show i es ≡ listed show (suc i) es
unfolding part_elements part_element listed
part_elements-listed show i [] = refl
part_elements-listed show i (e ∷ es) =
    ap (λ x. part_element show (suc i) e ++ x) (part_elements-listed show (suc i) es)

module _ (u : Uploader) (store : Store) where
  -- The attempt `c` has read a buffer of this digest, which the store took as the part number `i + 1`
  -- of the upload, answering by 200 with the digest.
  abbrev pub Stored : Text → ℕ → ℕ → Range → Text → Type 0
  Stored upload_id i c range etag =
      (buffer : Text) × (res : Response) × (u.on_read i c range.size range.offset
        ≡ (success, buffer))
      × (store.storing i c (record {
        method = http_put;
        url = u.url ++ codes "?partNumber=" ++ u.show (suc i) ++ codes "&uploadId=" ++ upload_id;
        headers = [];
        input = buffer;
      })
          ≡ replied res)
      × (res.response_code ≡ 200)
      × (etag ≡ u.digest buffer)
      × (get_header (codes "ETag") res.response_headers ≡ etag)

  check_etag-success :
      (etag : Text) (res : Response)
      → check_etag u store etag res ≡ success
      → (res.response_code ≡ 200) × (get_header (codes "ETag") res.response_headers ≡ etag)
  unfolding check_etag
  check_etag-success etag res h =
      ground (arith, same_iff (get_header (codes "ETag") res.response_headers) etag)

  send_part-Stored :
      (upload_id : Text) (i c : ℕ) (range : Range) (r : Code × Text)
      → u.on_read i c range.size range.offset ≡ r
      → send_part u store upload_id i c r ≡ success
      → Stored upload_id i c range (u.digest r.1)
  unfolding send_part part_request
  send_part-Stored upload_id i c range (r, buffer) e h =
      answered (store.storing i c (part_request u store upload_id i buffer)) refl
    where
      read_ok : r ≡ success
      read_ok = ground arith

      answered :
          (a : Answer)
          → store.storing i c (part_request u store upload_id i buffer) ≡ a
          → Stored upload_id i c range (u.digest buffer)
      answered threw g = absurd (ground arith)
      answered timed_out g = absurd (ground arith)
      answered (replied res) g =
          let (ok, tag) = check_etag-success (u.digest buffer) res (ground arith) in
          (
            buffer,
            res,
            subst (λ k. u.on_read i c range.size range.offset ≡ (k, buffer)) read_ok e,
            g,
            ok,
            refl,
            tag,
          )

  outcome-Stored :
      (upload_id : Text) (size chunk i c : ℕ)
      → i < num_parts size chunk
      → upload_outcome u store upload_id (parts size chunk) i c ≡ success
      → Stored upload_id i c
          (nth_range size chunk i)
          (u.digest (u.on_read i c (nth_range size chunk i).size (nth_range size chunk i).offset).1)
  unfolding upload_outcome upload_part
  outcome-Stored upload_id size chunk i c lt h =
      send_part-Stored upload_id i c (nth_range size chunk i)
        (u.on_read i c (nth_range size chunk i).size (nth_range size chunk i).offset) refl
        (rw (get-parts size chunk i lt, upload_outcome, upload_part) at h)

  -- The store has answered the request for the completion, which lists these etags by part number, by
  -- 200 and an etag.
  abbrev pub Completed : Text → List Text → Text → Type 0
  Completed upload_id etags etag =
      Names u.find_etag
        (store.completing (record {
          method = http_post;
          url = u.url ++ codes "?uploadId=" ++ upload_id;
          headers = (codes "Content-Type", []) ∷ [];
          input =
              codes "<CompleteMultipartUpload>"
              ++ listed u.show 1 etags
              ++ codes "</CompleteMultipartUpload>";
        }))
        etag

  -- There is an etag for each part, and it is that of a buffer that the store has of the part.
  abbrev pub AllStored : Text → ℕ → ℕ → List Text → Type 0
  AllStored upload_id size chunk etags =
      (length etags ≡ num_parts size chunk)
      × ((i : ℕ)
          → i < num_parts size chunk
          → (c : ℕ) × (etag : Text) × (c ≤ u.max_retries)
            × (get_elem? etags i ≡ some etag)
            × Stored upload_id i c (nth_range size chunk i) etag)

  length-part_etags :
      (upload_id : Text) (ranges : List Range) (j : ℕ) (rest : List Range)
      → length (part_etags u store upload_id ranges j rest) ≡ length rest
  unfolding part_etags
  length-part_etags upload_id ranges j [] = refl
  length-part_etags upload_id ranges j (r ∷ rest) =
      rw (length-part_etags upload_id ranges (suc j) rest)

  get-part_etags :
      (upload_id : Text) (ranges : List Range) (j : ℕ) (rest : List Range) (i : ℕ) (range : Range)
      → get_elem? rest i ≡ some range
      → get_elem? (part_etags u store upload_id ranges j rest) i
        ≡ some (
            u.digest
              (u.on_read
                (j + i)
                (last_attempt (upload_outcome u store upload_id ranges) u.max_retries (j + i))
                range.size
                range.offset).1)
  unfolding part_etags
  get-part_etags upload_id ranges j [] i range h = absurd (ground arith)
  get-part_etags upload_id ranges j (r ∷ rest) zero range h =
      let e : j + 0 ≡ j = omega arith in
      let same_range : r ≡ range = ground arith in rw (e, same_range) refl
  get-part_etags upload_id ranges j (r ∷ rest) (suc i) range h =
      let e : j + suc i ≡ suc j + i = omega arith in
      rw e (get-part_etags upload_id ranges (suc j) rest i range h)

  complete_upload-Completed :
      (upload_id : Text) (etags : List Text)
      → (complete_upload u store upload_id etags).code ≡ success
      → Completed upload_id etags (complete_upload u store upload_id etags).returned_etag
  unfolding complete_upload complete_request
  complete_upload-Completed upload_id etags h = rw (sym (part_elements-listed u.show 0 etags)) (
      split (named_in u.find_etag (store.completing (complete_request u store upload_id etags)))
        refl)
    where
      split :
          (n : Named)
          → named_in u.find_etag (store.completing (complete_request u store upload_id etags)) ≡ n
          → Names u.find_etag
              (store.completing (complete_request u store upload_id etags))
              (complete_upload u store upload_id etags).returned_etag
      split (failed e) g = absurd (ground arith)
      split (named etag) g = rw (g, complete_upload) (named_in-Names u.find_etag _ etag g)

  queue-AllStored :
      (upload_id : Text) (size chunk : ℕ) (s : Progress)
      → 0 < u.max_parts_in_progress
      → process
          (upload_outcome u store upload_id (parts size chunk))
          u.max_retries
          u.max_parts_in_progress
          (length (parts size chunk))
        ≡ some s
      → s.status ≡ success
      → AllStored upload_id size chunk
          (part_etags u store upload_id (parts size chunk) 0 (parts size chunk))
  queue-AllStored upload_id size chunk s h e ok = (
    length-part_etags upload_id (parts size chunk) 0 (parts size chunk) ∙ length-parts size chunk,
    λ i lt.
        let out = upload_outcome u store upload_id (parts size chunk) in
        let (t, e', d) =
          process-Decided out u.max_retries u.max_parts_in_progress (length (parts size chunk)) h in
        let same_status : t.status ≡ s.status = ground (arith, e, e') in
        let c = last_attempt out u.max_retries i in
        (
          c,
          _,
          last_attempt-le out u.max_retries i,
          rw zero-add at (
              get-part_etags upload_id (parts size chunk) 0 (parts size chunk) i
                (nth_range size chunk i) (get-parts size chunk i lt)),
          outcome-Stored upload_id size chunk i c lt (
              sym (settle-last_attempt out u.max_retries i)
              ∙ d.0.0 (same_status ∙ ok) i (rw (length-parts size chunk) lt)),
        ),
  )

  -- The upload was started under an id, all its parts are stored, and it is completed with their etags.
  abbrev pub Succeeded : ℕ → ℕ → Uploaded → Type 0
  Succeeded size chunk r =
      (upload_id : Text) × (etags : List Text) × Names u.find_upload_id
        (store.initiating (init_request u store)) upload_id
      × AllStored upload_id size chunk etags
      × Completed upload_id etags r.returned_etag

  upload_parts-total :
      (upload_id : Text) (size chunk : ℕ)
      → 0 < u.max_parts_in_progress
      → (r : Uploaded) × (upload_parts u store upload_id (parts size chunk) ≡ some r)
        × (r.code ≡ success
            → AllStored upload_id size chunk
                (part_etags u store upload_id (parts size chunk) 0 (parts size chunk))
              × Completed upload_id
                  (part_etags u store upload_id (parts size chunk) 0 (parts size chunk))
                  r.returned_etag)
  unfolding upload_parts
  upload_parts-total upload_id size chunk h =
      let (s, e, _) =
        process-Decided (upload_outcome u store upload_id (parts size chunk)) u.max_retries
          u.max_parts_in_progress (length (parts size chunk)) h in
      by_status s e (is_failure s.status) refl
    where
      by_status :
          (s : Progress)
          → process
              (upload_outcome u store upload_id (parts size chunk))
              u.max_retries
              u.max_parts_in_progress
              (length (parts size chunk))
            ≡ some s
          → (b : Bool) → is_failure s.status ≡ b
          → (r : Uploaded) × (upload_parts u store upload_id (parts size chunk) ≡ some r)
            × (r.code ≡ success
                → AllStored upload_id size chunk
                    (part_etags u store upload_id (parts size chunk) 0 (parts size chunk))
                  × Completed upload_id
                      (part_etags u store upload_id (parts size chunk) 0 (parts size chunk))
                      r.returned_etag)
      by_status s e true f = (
        record { code = s.status; returned_etag = []; cancelled = true },
        rw (e, upload_parts, f) refl,
        λ ok. absurd (ground arith),
      )
      by_status s e false f = (
        complete_upload u store upload_id
            (part_etags u store upload_id (parts size chunk) 0 (parts size chunk)),
        rw (e, upload_parts, f) refl,
        λ ok. (
          queue-AllStored upload_id size chunk s h e (ground arith),
          complete_upload-Completed upload_id _ ok,
        ),
      )

  -- If at least one part may be in progress then an upload in parts ends, and if it returns 0 then: the
  -- store has answered the first request by 200 and an upload id that is not empty; there is an etag
  -- for each part, which is the digest of a buffer that an attempt at the part has read without error and
  -- that the store, asked to take it as the part of that number, counted from 1, has answered by 200 and
  -- this digest; and the store has answered the completing request, which lists these etags with the
  -- parts' numbers, by 200 and an etag that is not empty, which is the one returned.
  pub upload_multi-Succeeded :
      (size chunk : ℕ)
      → 0 < u.max_parts_in_progress
      → (r : Uploaded) × (upload_multi u store size chunk ≡ some r)
        × (r.code ≡ success → Succeeded size chunk r)
  unfolding upload_multi
  upload_multi-Succeeded size chunk h =
      split (named_in u.find_upload_id (store.initiating (init_request u store))) refl
    where
      split :
          (n : Named)
          → named_in u.find_upload_id (store.initiating (init_request u store)) ≡ n
          → (r : Uploaded) × (upload_multi u store size chunk ≡ some r)
            × (r.code ≡ success → Succeeded size chunk r)
      split (failed x) g = (
        record { code = err x; returned_etag = []; cancelled = false },
        rw (g, upload_multi) refl,
        λ ok. absurd (ground arith),
      )
      split (named upload_id) g =
          let (r, e, done) = upload_parts-total upload_id size chunk h in
          (
            r,
            rw (g, upload_multi) e,
            λ ok.
                let (all, end) = done ok in
                (upload_id, _, named_in-Names u.find_upload_id _ upload_id g, all, end),
          )
