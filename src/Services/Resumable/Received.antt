-- ===== src/Services/Resumable/Received.antt =====
-- What a resumable upload that reports success has sent.
use s3fuse.Prelude.{
  ℕ, zero, suc, ◌+◌, ◌-◌, ◌≤◌, ◌<◌, ◌≡◌, refl, sym, ◌∙◌, subst, Bool, true, false, List, [], ◌∷◌,
  ◌++◌, Option, none, some, ap, arith, length, take, drop, take-append-drop, append-nil,
}
use native.Mathlib.Nat.{zero-add}
use s3fuse.Prelude.Code.{Code, ret, err, success, is_failure}
use s3fuse.Prelude.Text.{Text, codes, same, same_iff}
use s3fuse.Base.Http.{Response, Answer, replied, threw, timed_out, get_header, sc_ok, sc_resume}
use s3fuse.Services.Ranges.{
  Range, parts, fill, part_range, num_parts, num_parts_bounds, get-fill, length-fill, word,
}
use s3fuse.Services.Transfer.Download.{nth_range}
use s3fuse.Threads.ParallelQueue.{Progress, process, settle}
use s3fuse.Threads.ParallelQueue.Attempts.{last_attempt, last_attempt-le, settle-last_attempt}
use s3fuse.Threads.ParallelQueue.Settle.{process-Decided}
use s3fuse.Services.Resumable.{
  Uploader, Store, Sent, halted, sent, Location, refused, located, Ended, upload_id_delim,
  suffix_from, pop_back, locate, sent_by, init_request, range_request, upload_read, read_and_upload,
  upload_part, part_outcome, upload_last_part, upload_parts, upload_multi,
}

pop_back-fill :
    (size chunk n i k : ℕ)
    → pop_back (fill size chunk n i (suc k))
      ≡ some (fill size chunk n i k, part_range size chunk n (i + k))
unfolding pop_back fill
pop_back-fill size chunk n i zero = let e : i + 0 ≡ i = omega arith in rw (e, pop_back, fill) refl
pop_back-fill size chunk n i (suc k) =
    let e : i + suc k ≡ suc i + k = omega arith in
    rw (e) (ground (arith, pop_back-fill size chunk n (suc i) k))

take-prefix : (d s : Text) → take (length d) s ≡ d → (rest : Text) × (s ≡ d ++ rest)
take-prefix d s e =
    (drop (length d) s, sym (take-append-drop (length d) s) ∙ ap (λ x. x ++ drop (length d) s) e)

suffix_from-some :
    (d s t : Text)
    → suffix_from d s ≡ some t
    → (before : Text) × (rest : Text) × (s ≡ before ++ t) × (t ≡ d ++ rest)
unfolding suffix_from
suffix_from-some d [] t h = ([], [], ground arith, ground (arith, same_iff [] d, append-nil d))
suffix_from-some d (c ∷ s) t h =
    split (suffix_from-some d s t) (same (take (length d) (c ∷ s)) d) refl
  where
    split :
        (suffix_from d s ≡ some t
          → (before : Text) × (rest : Text) × (s ≡ before ++ t) × (t ≡ d ++ rest))
        → (b : Bool) → same (take (length d) (c ∷ s)) d ≡ b
        → (before : Text) × (rest : Text) × (c ∷ s ≡ before ++ t) × (t ≡ d ++ rest)
    split later true e =
        let (rest, g) = take-prefix d (c ∷ s) ((same_iff (take (length d) (c ∷ s)) d).0 e) in
        let whole : c ∷ s ≡ t = ground arith in ([], rest, whole, sym whole ∙ g)
    split later false e =
        let (before, rest, g, k) = later (ground arith) in (c ∷ before, rest, ap (λ x. c ∷ x) g, k)

-- The answer is a 201 whose Location header has an upload id in it, and the location of the upload
-- is the url followed by that id, from `?upload_id=` on.
abbrev pub Started : Text → Answer → Text → Type 0
Started url answer location =
    (res : Response) × (before : Text) × (id : Text) × (answer ≡ replied res)
    × (res.response_code ≡ 201)
    × (get_header (codes "Location") res.response_headers ≡ before ++ (codes "?upload_id=" ++ id))
    × (location ≡ url ++ (codes "?upload_id=" ++ id))

locate-Started :
    (url : Text) (answer : Answer) (location : Text)
    → locate url answer ≡ located location
    → Started url answer location
unfolding locate
locate-Started url threw location h = absurd (ground arith)
locate-Started url timed_out location h = absurd (ground arith)
locate-Started url (replied res) location h =
    split (suffix_from upload_id_delim (get_header (codes "Location") res.response_headers)) refl
  where
    split :
        (o : Option Text)
        → suffix_from upload_id_delim (get_header (codes "Location") res.response_headers) ≡ o
        → Started url (replied res) location
    split none g = absurd (ground arith)
    split (some t) g =
        let created : res.response_code ≡ 201 = ground arith in
        let named : location ≡ url ++ t = ground arith in
        let (before, id, e, k) = suffix_from-some upload_id_delim _ t g in
        (res, before, id, refl, created, e ∙ ap (λ x. before ++ x) k, named ∙ ap (λ x. url ++ x) k)

module _ (u : Uploader) (store : Store) where
  -- on_read has read a buffer without error, and the store has answered its request by the response.
  abbrev pub Taken : Text → ℕ → ℕ → Range → ℕ → Response → Type 0
  Taken location i c range total_size res =
      (buffer : Text) × (u.on_read i c range.size range.offset ≡ (success, buffer))
      × (store.storing i c (range_request u store location total_size range buffer) ≡ replied res)

  abbrev HasSent : Text → ℕ → ℕ → Range → ℕ → Sent → Type 0
  HasSent location i c range total_size (halted r) = is_failure r ≡ true
  HasSent location i c range total_size (sent res) = Taken location i c range total_size res

  upload_read-HasSent :
      (location : Text) (i c : ℕ) (range : Range) (total_size : ℕ) (r : Code) (buffer : Text)
      → u.on_read i c range.size range.offset ≡ (r, buffer)
      → HasSent location i c range total_size
          (upload_read u store location i c range total_size (r, buffer))
  unfolding upload_read sent_by
  upload_read-HasSent location i c range total_size (err x) buffer e = refl
  upload_read-HasSent location i c range total_size (ret (suc n)) buffer e = refl
  upload_read-HasSent location i c range total_size (ret zero) buffer e =
      by_answer (store.storing i c (range_request u store location total_size range buffer)) refl
    where
      by_answer :
          (a : Answer)
          → store.storing i c (range_request u store location total_size range buffer) ≡ a
          → HasSent location i c range total_size (sent_by a)
      by_answer threw g = refl
      by_answer timed_out g = refl
      by_answer (replied res) g = (buffer, e, g)

  read_and_upload-HasSent :
      (location : Text) (i c : ℕ) (range : Range) (total_size : ℕ)
      → HasSent location i c range total_size
          (read_and_upload u store location i c range total_size)
  unfolding read_and_upload
  read_and_upload-HasSent location i c range total_size =
      upload_read-HasSent location i c range total_size (u.on_read i c range.size range.offset).0
        (u.on_read i c range.size range.offset).1 refl

  -- A part is taken by 308, the last one by 200 with the etag that is returned.
  abbrev pub PartTaken : Text → ℕ → ℕ → Range → Type 0
  PartTaken location i c range =
      (res : Response) × Taken location i c range 0 res × (res.response_code ≡ sc_resume)

  abbrev pub LastTaken : Text → ℕ → Range → ℕ → Text → Type 0
  LastTaken location i range size etag =
      (res : Response) × Taken location i 0 range size res
      × (res.response_code ≡ sc_ok)
      × (get_header (codes "ETag") res.response_headers ≡ etag)

  upload_part-PartTaken :
      (location : Text) (i c : ℕ) (range : Range)
      → upload_part u store location i c range ≡ success
      → PartTaken location i c range
  unfolding upload_part
  upload_part-PartTaken location i c range h =
      by_sent (read_and_upload u store location i c range 0) refl
        (read_and_upload-HasSent location i c range 0)
    where
      by_sent :
          (s : Sent)
          → read_and_upload u store location i c range 0 ≡ s
          → HasSent location i c range 0 s
          → PartTaken location i c range
      by_sent (halted r) e f = absurd (ground arith)
      by_sent (sent res) e t = (res, t, ground arith)

  upload_last_part-LastTaken :
      (location : Text) (i : ℕ) (range : Range) (size : ℕ)
      → (upload_last_part u store location i range size).code ≡ success
      → LastTaken location i range size
          (upload_last_part u store location i range size).returned_etag
  unfolding upload_last_part
  upload_last_part-LastTaken location i range size h =
      by_sent (read_and_upload u store location i 0 range size) refl
        (read_and_upload-HasSent location i 0 range size)
    where
      by_sent :
          (s : Sent)
          → read_and_upload u store location i 0 range size ≡ s
          → HasSent location i 0 range size s
          → LastTaken location i range size
              (upload_last_part u store location i range size).returned_etag
      by_sent (halted r) e f = absurd (ground arith)
      by_sent (sent res) e t = (res, t, ground arith, ground arith)

  -- The upload was given the location; each part but the last has an attempt that the store took as a part,
  -- and it took the last part as the end of an object of this size, with the etag that is returned.
  abbrev pub Succeeded : ℕ → ℕ → Ended → Type 0
  Succeeded size chunk r =
      (location : Text) × Started u.url (store.initiating (init_request u store)) location
      × ((i : ℕ)
          → i < num_parts size chunk - 1
          → (c : ℕ) × (c ≤ u.max_retries) × PartTaken location i c (nth_range size chunk i))
      × LastTaken location (num_parts size chunk - 1)
          (nth_range size chunk (num_parts size chunk - 1)) size r.returned_etag

  -- The parts but the last, and the last.
  abbrev front : ℕ → ℕ → List Range
  front size chunk = fill size chunk (num_parts size chunk) 0 (num_parts size chunk - 1)

  pop_back-parts :
      (size chunk : ℕ)
      → 0 < num_parts size chunk
      → pop_back (parts size chunk)
        ≡ some (front size chunk, nth_range size chunk (num_parts size chunk - 1))
  unfolding parts
  pop_back-parts size chunk pos =
      let e : suc (num_parts size chunk - 1) ≡ num_parts size chunk = omega arith in
      subst
        (λ n.
          pop_back (fill size chunk (num_parts size chunk) 0 n)
          ≡ some (front size chunk, nth_range size chunk (num_parts size chunk - 1)))
        e
        (rw zero-add at
          (pop_back-fill size chunk (num_parts size chunk) 0 (num_parts size chunk - 1)))

  part_outcome-PartTaken :
      (location : Text) (size chunk i c : ℕ)
      → i < num_parts size chunk - 1
      → part_outcome u store location (front size chunk) i c ≡ success
      → PartTaken location i c (nth_range size chunk i)
  unfolding part_outcome
  part_outcome-PartTaken location size chunk i c lt h =
      upload_part-PartTaken location i c (nth_range size chunk i) (
        rw
          (
            get-fill size chunk (num_parts size chunk) 0 (num_parts size chunk - 1) i lt,
            part_outcome,
            zero-add,
          )
          at h)

  upload_parts-total :
      (location : Text) (size chunk : ℕ) (last : Range)
      → (r : Ended) × (upload_parts u store location (front size chunk) last size ≡ some r)
        × (r.code ≡ success
            → ((i : ℕ)
                → i < num_parts size chunk - 1
                → (c : ℕ) × (c ≤ u.max_retries) × PartTaken location i c (nth_range size chunk i))
              × LastTaken location (num_parts size chunk - 1) last size r.returned_etag)
  unfolding upload_parts
  upload_parts-total location size chunk last =
      let (s, e, d) =
        process-Decided out u.max_retries 1 (length (front size chunk)) (omega arith) in
      by_status s e d.0.0 (is_failure s.status) refl
    where
      out : ℕ → ℕ → Code
      out = part_outcome u store location (front size chunk)

      same_length : length (front size chunk) ≡ num_parts size chunk - 1
      same_length = length-fill size chunk (num_parts size chunk) 0 (num_parts size chunk - 1)

      by_status :
          (s : Progress)
          → process out u.max_retries 1 (length (front size chunk)) ≡ some s
          → (s.status ≡ success
              → (i : ℕ) → i < length (front size chunk)
              → settle out u.max_retries i ≡ success)
          → (b : Bool) → is_failure s.status ≡ b
          → (r : Ended) × (upload_parts u store location (front size chunk) last size ≡ some r)
            × (r.code ≡ success
                → ((i : ℕ)
                    → i < num_parts size chunk - 1
                    → (c : ℕ) × (c ≤ u.max_retries)
                      × PartTaken location i c (nth_range size chunk i))
                  × LastTaken location (num_parts size chunk - 1) last size r.returned_etag)
      by_status s e d true f = (
        record { code = s.status; returned_etag = [] },
        rw (e, upload_parts, f) refl,
        λ ok. absurd (ground arith),
      )
      by_status s e d false f = (
        upload_last_part u store location (length (front size chunk)) last size,
        rw (e, upload_parts, f) refl,
        λ ok. (
          λ i lt.
              let c = last_attempt out u.max_retries i in
              (
                c,
                last_attempt-le out u.max_retries i,
                part_outcome-PartTaken location size chunk i c lt (
                    sym (settle-last_attempt out u.max_retries i)
                    ∙ d (ground arith) i (rw same_length lt)),
              ),
          subst
              (λ n.
                LastTaken location n last size
                  (upload_last_part u store location (length (front size chunk)) last
                    size).returned_etag)
              same_length
              (upload_last_part-LastTaken location (length (front size chunk)) last size ok),
        ),
      )

  -- For a positive size and chunk whose sum fits a size_t, a resumable upload ends. If it returns 0 then the
  -- store has answered the first request by 201 and a location with an upload id; each part but the last
  -- has an attempt whose buffer on_read has read without error and whose request, for the part's range of an
  -- object of unknown size, the store has answered by 308; and it has answered that for the last range,
  -- with the object's size, by 200 and the etag that is returned.
  pub resumable-Succeeded :
      (size chunk : ℕ)
      → 0 < chunk
      → 0 < size
      → size + chunk ≤ word
      → (r : Ended) × (upload_multi u store size chunk ≡ some r)
        × (r.code ≡ success → Succeeded size chunk r)
  unfolding upload_multi
  resumable-Succeeded size chunk hc hs hw =
      by_location (locate u.url (store.initiating (init_request u store))) refl
    where
      by_location :
          (l : Location)
          → locate u.url (store.initiating (init_request u store)) ≡ l
          → (r : Ended) × (upload_multi u store size chunk ≡ some r)
            × (r.code ≡ success → Succeeded size chunk r)
      by_location (refused x) g = (
        record { code = err x; returned_etag = [] },
        rw (g, upload_multi) refl,
        λ ok. absurd (ground arith),
      )
      by_location (located location) g =
          let last : Range = nth_range size chunk (num_parts size chunk - 1) in
          let (r, e, done) = upload_parts-total location size chunk last in
          (
            r,
            rw (g, upload_multi, pop_back-parts size chunk (num_parts_bounds size chunk hc hs hw).0)
                e,
            λ ok.
                let (all, end) = done ok in (location, locate-Started u.url _ location g, all, end),
          )
