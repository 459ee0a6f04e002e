-- ===== src/Services/Transfer/Download.antt =====
-- What a download that reports success has fetched and handed to the file.
use s3fuse.Prelude.{ℕ, ◌≤◌, ◌<◌, ◌≡◌, ◌⊎◌, true, refl, sym, ◌∙◌, List, some, arith, length, take}
use s3fuse.Prelude.Code.{Code, err, eagain, etimedout, success}
use s3fuse.Prelude.Text.{Text}
use s3fuse.Base.Http.{Request, Response, Answer, replied, threw, timed_out, sc_partial_content}
use s3fuse.Services.Ranges.{Range, parts, num_parts, part_range, length-parts, get-parts}
use s3fuse.Services.Transfer.{
  range_request, store_part, download_part, on_part, download_outcome, download_multi,
}
use s3fuse.Threads.ParallelQueue.{Progress, is_transient}
use s3fuse.Threads.ParallelQueue.Attempts.{
  last_attempt, last_attempt-le, last_attempt-earlier, settle-last_attempt,
}
use s3fuse.Threads.ParallelQueue.Settle.{process-Decided}

-- The server sent the range or more of it, and `on_write` took exactly the range.
abbrev pub Fetched : (List ℕ → ℕ → Code) → Range → Answer → Type 0
Fetched on_write r a =
    (res : Response) × (a ≡ replied res)
    × (res.response_code ≡ sc_partial_content)
    × (r.size ≤ length res.output)
    × (on_write (take r.size res.output) r.offset ≡ success)

download_part-Fetched :
    (on_write : List ℕ → ℕ → Code) (r : Range) (a : Answer)
    → download_part on_write r a ≡ success
    → Fetched on_write r a
unfolding download_part store_part
download_part-Fetched on_write r (replied res) e =
    (res, refl, ground arith, ground arith, ground arith)
download_part-Fetched on_write r threw e = cc
download_part-Fetched on_write r timed_out e = cc

-- The range of the part `i`.
abbrev pub nth_range : ℕ → ℕ → ℕ → Range
nth_range size chunk i = part_range size chunk (num_parts size chunk) i

module _ (show : ℕ → Text) (server : ℕ → ℕ → Request → Answer)
    (on_write : ℕ → ℕ → List ℕ → ℕ → Code) (max_retries max_parts_in_progress : ℕ) (url : Text)
    (size chunk : ℕ) where
  outcome-Fetched :
      (i c : ℕ)
      → i < num_parts size chunk
      → download_outcome show server on_write url size chunk i c ≡ success
      → Fetched
          (on_write i c)
          (nth_range size chunk i)
          (server i c (range_request show url (nth_range size chunk i)))
  unfolding download_outcome on_part
  outcome-Fetched i c h e =
      download_part-Fetched (on_write i c) (nth_range size chunk i) _
        (rw (get-parts size chunk i h) at e)

  -- The attempt `b` at part `i` ends with EAGAIN or ETIMEDOUT.
  abbrev pub Retried : ℕ → ℕ → Type 0
  Retried i b =
      (download_outcome show server on_write url size chunk i b ≡ err eagain)
      ⊎ (download_outcome show server on_write url size chunk i b ≡ err etimedout)

  transient-Retried :
      (i b : ℕ)
      → is_transient (download_outcome show server on_write url size chunk i b) ≡ true
      → Retried i b
  transient-Retried i b h = ground arith

  -- If at least one part may be in progress then a multi-part download ends. If it then reports
  -- success, every part has an attempt, before which all attempts at it ended with EAGAIN or
  -- ETIMEDOUT, and in which the server answered the part's range request with 206 and at least as many
  -- bytes as the part has, and `on_write` accepted exactly that many of them at the part's offset.
  pub download_multi-Fetched :
      0 < max_parts_in_progress
      → (t : Progress) × (download_multi show server on_write max_retries max_parts_in_progress url
            size chunk
          ≡ some t)
        × (t.status ≡ success
            → (i : ℕ) → i < num_parts size chunk
            → (c : ℕ) × (c ≤ max_retries)
              × ((b : ℕ) → b < c → Retried i b)
              × Fetched
                  (on_write i c)
                  (nth_range size chunk i)
                  (server i c (range_request show url (nth_range size chunk i))))
  unfolding download_multi
  download_multi-Fetched h =
      let out = download_outcome show server on_write url size chunk in
      let (t, e, d) =
        process-Decided out max_retries max_parts_in_progress (length (parts size chunk)) h in
      (
        t,
        e,
        λ ok i lt.
            let c = last_attempt out max_retries i in
            (
              c,
              last_attempt-le out max_retries i,
              λ b lt_c. transient-Retried i b (last_attempt-earlier out max_retries i b lt_c),
              outcome-Fetched i c lt (
                  sym (settle-last_attempt out max_retries i)
                  ∙ d.0.0 ok i (rw (length-parts size chunk) lt)),
            ),
      )
