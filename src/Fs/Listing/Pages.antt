-- ===== src/Fs/Listing/Pages.antt =====
-- A listing that the store serves in pages is read to its end.
use s3fuse.Prelude.{
  ℕ, zero, suc, ◌++◌, if◌then◌else◌, ltb, ◌≢◌, ◌⊎◌, inl, inr, ap, ◌∙◌, ◌<◌, ◌≡◌, refl, Bool, true,
  false, List, [], ◌∷◌, some, arith, length,
}
use s3fuse.Prelude.Code.{ret, success}
use s3fuse.Prelude.Text.{Text, codes, same_iff, same_refl}
use s3fuse.Base.Http.{Request, Response, Answer, replied, http_get}
use s3fuse.Fs.Listing.{
  Document, Service, Reader, Page, no_page, size, back, advance, collect_page, list_request,
  read_document, read_response, read, read_all,
}

back-append : (front : List Text) (m : Text) → back (front ++ (m ∷ [])) ≡ some m
unfolding back
back-append [] m = refl
back-append (k ∷ []) m = refl
back-append (k ∷ j ∷ front) m = back-append (j ∷ front) m

module _ (service : Service) (server : ℕ → Request → Answer) (want : Bool) where
  -- The request for the prefix from the marker on, with the delimiter and the limit if there are such.
  abbrev pub page_request : Reader → Request
  page_request r = record {
    method = http_get;
    url =
        service.bucket_url
        ++ codes "?prefix="
        ++ service.url_encode r.prefix
        ++ codes "&marker="
        ++ service.url_encode r.marker
        ++ (if r.group_common_prefixes then codes "&delimiter=/" else [])
        ++ (if ltb 0 r.max_keys then codes "&max-keys=" ++ service.decimal r.max_keys else []);
    headers = [];
    input = [];
  }

  -- The document says that the listing goes on: from the marker that it names, or where the service
  -- has none from the last of the page's keys.
  abbrev pub GoesOn : Reader → Document → Page → Reader → Type 0
  GoesOn r document p after =
      (marker : Text) × (document.is_truncated ≡ some (codes "true"))
      × (service.is_next_marker_supported ≡ true → document.next_marker ≡ some marker)
      × (service.is_next_marker_supported ≡ false
          → (front : List Text) × (p.keys ≡ front ++ (marker ∷ [])))
      × (after ≡ record r { truncated = true; marker = marker })

  abbrev pub IsLast : Reader → Document → Reader → Type 0
  IsLast r document after =
      (t : Text) × (document.is_truncated ≡ some t)
      × (t ≢ codes "true")
      × (after ≡ record r { truncated = false })

  -- The request number `i` of the reader is answered by 200 and a document with the page's keys, and
  -- its prefixes if they are wanted, and the reader goes on as `after`.
  pub record Serves (i : ℕ) (r : Reader) (p : Page) (after : Reader) : Type 0 where
    pub response : Response
    pub document : Document
    pub answered : server i (page_request r) ≡ replied response
    pub accepted : response.response_code ≡ 200
    pub parsed : service.parse response.output ≡ some document
    pub keys : document.found_keys ≡ some p.keys
    pub prefixes : want ≡ true → document.found_prefixes ≡ some p.prefixes
    pub no_prefixes : want ≡ false → p.prefixes ≡ []
    pub follows : IsLast r document after ⊎ GoesOn r document p after

  -- The pages of a listing, up to the end or a page without entries: `read` returns 0 for such a page
  -- even if it is truncated, so that its callers stop there.
  pub data Chain : ℕ → Reader → List Page → Type 0 where
    done : {i : ℕ} {r : Reader} → r.truncated ≡ false → Chain i r []
    empty :
        {i : ℕ} {r after : Reader} {p : Page}
        → r.truncated ≡ true
        → Serves i r p after
        → size p ≡ 0
        → Chain i r []
    more :
        {i : ℕ} {r after : Reader} {p : Page} {ps : List Page}
        → r.truncated ≡ true
        → Serves i r p after
        → 0 < size p
        → Chain (suc i) after ps
        → Chain i r (p ∷ ps)

  collected :
      (i : ℕ) (r : Reader) (p : Page) (after : Reader)
      → Serves i r p after
      → (document : Document) → document.found_keys ≡ some p.keys
      → (want ≡ true → document.found_prefixes ≡ some p.prefixes)
      → (want ≡ false → p.prefixes ≡ [])
      → IsLast r document after ⊎ GoesOn r document p after
      → read_document service want document r
        ≡ some (record { code = ret (size p); page = p; reader = after })
  unfolding read_document collect_page advance
  collected i r p after s document keys prefixes none_wanted (inl (t, e, d, n)) =
      ground (arith, (same_iff t (codes "true")).0)
  collected i r p after s document keys prefixes none_wanted (inr (m, e, named, last, n)) =
      let key : service.is_next_marker_supported ≡ false → back p.keys ≡ some m =
        λ w. let (front, g) = last w in ap back g ∙ back-append front m in
      ground (arith, key, same_refl (codes "true"))

  read-Serves :
      (i : ℕ) (r : Reader) (p : Page) (after : Reader)
      → r.truncated ≡ true
      → Serves i r p after
      → read service server want i r
        ≡ some (record { code = ret (size p); page = p; reader = after })
  unfolding read list_request
  read-Serves i r p after t s =
      rw (t, s.answered, read, s.accepted, s.parsed, read_response)
        (collected i r p after s s.document s.keys s.prefixes s.no_prefixes s.follows)

  read-done :
      (i : ℕ) (r : Reader)
      → r.truncated ≡ false
      → read service server want i r ≡ some (record { code = success; page = no_page; reader = r })
  unfolding read
  read-done i r t = ground arith

  -- One round of the loop, by what `read` returns.
  read_all-stop :
      (fuel i : ℕ) (r after : Reader) (p : Page) (n : ℕ)
      → read service server want i r ≡ some (record { code = ret n; page = p; reader = after })
      → n ≡ 0
      → read_all service server want (suc fuel) i r ≡ some (success, [])
  unfolding read_all
  read_all-stop fuel i r after p zero e z = rw (e, read_all)
  read_all-stop fuel i r after p (suc n) e z = absurd (omega arith)

  read_all-more :
      (fuel i : ℕ) (r after : Reader) (p : Page) (ps : List Page) (n : ℕ)
      → read service server want i r ≡ some (record { code = ret n; page = p; reader = after })
      → 0 < n
      → read_all service server want fuel (suc i) after ≡ some (success, ps)
      → read_all service server want (suc fuel) i r ≡ some (success, p ∷ ps)
  unfolding read_all
  read_all-more fuel i r after p ps zero e z rest = absurd (omega arith)
  read_all-more fuel i r after p ps (suc n) e z rest = rw (e, read_all, rest)

  -- If the store answers the request for each marker by 200 and a page, the first one for the reader's
  -- marker and the others for the marker that the page before them names, or for its last key, and the last
  -- page says that it is not truncated or has no entries, then reading ends with 0 after exactly the
  -- pages with entries, on any fuel that exceeds their number.
  pub read_all-Chain :
      (fuel i : ℕ) (r : Reader) (ps : List Page)
      → Chain i r ps
      → length ps < fuel
      → read_all service server want fuel i r ≡ some (success, ps)
  read_all-Chain zero i r ps c lt = absurd (omega arith)
  read_all-Chain (suc fuel) i r [] (done t) lt =
      read_all-stop fuel i r r no_page 0 (read-done i r t) refl
  read_all-Chain (suc fuel) i r [] (empty {after = a} {p = p} t s z) lt =
      read_all-stop fuel i r a p (size p) (read-Serves i r p a t s) z
  read_all-Chain (suc fuel) i r (p ∷ ps) (more {after = a} t s z c) lt =
      read_all-more fuel i r a p ps (size p) (read-Serves i r p a t s) z
        (read_all-Chain fuel (suc i) a ps c (omega arith))
