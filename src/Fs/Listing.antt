-- ===== src/Fs/Listing.antt =====
-- fs/list_reader.cc, and the loop in which its callers read page after page. The parsed answer
-- (libxml), the url encoding and the decimal printing are arguments. `none` stands for `back()` of
-- an empty list of keys.
pub mod Pages
use s3fuse.Prelude.{
  ℕ, zero, suc, ◌+◌, Bool, true, false, ◌&&◌, ◌||◌, not, List, [], ◌∷◌, ◌++◌, Option, none, some,
  ltb, ◌==◌, if◌then◌else◌, length,
}
use s3fuse.Prelude.Code.{Code, Errno, ret, err, success, eio, ecanceled, etimedout}
use s3fuse.Prelude.Text.{Text, codes, same}
use s3fuse.Base.Http.{Request, Response, Answer, replied, threw, timed_out, http_get, sc_ok}

-- What xml::find gives for each of the four paths, `none` for an error.
pub record Document : Type 0 where
  pub is_truncated : Option Text
  pub found_prefixes : Option (List Text)
  pub found_keys : Option (List Text)
  pub next_marker : Option Text

pub record Service : Type 0 where
  pub url_encode : Text → Text
  pub decimal : ℕ → Text
  pub bucket_url : Text
  pub is_next_marker_supported : Bool
  pub parse : Text → Option Document

pub record Reader : Type 0 where
  pub truncated : Bool
  pub prefix : Text
  pub group_common_prefixes : Bool
  pub max_keys : ℕ
  pub marker : Text

-- `max_keys` is 0 for the -1 of the source, which sets no limit either.
unfoldable pub list_reader : Text → Bool → ℕ → Reader
list_reader prefix group max_keys = record {
  truncated = true;
  prefix = prefix;
  group_common_prefixes = group;
  max_keys = max_keys;
  marker = [];
}

pub record Page : Type 0 where
  pub keys : List Text
  pub prefixes : List Text

abbrev pub size : Page → ℕ
size p = length p.keys + length p.prefixes

-- The return value, the two lists, and the reader afterwards.
pub record Listing : Type 0 where
  pub code : Code
  pub page : Page
  pub reader : Reader

abbrev pub no_page : Page
no_page = record { keys = []; prefixes = [] }

abbrev fail : Errno → Reader → Option Listing
fail e r = some (record { code = err e; page = no_page; reader = r })

-- `read` itself returns no error but EIO: the others stand for an exception that it lets through.
abbrev pub is_thrown : Code → Bool
is_thrown (err Errno.ecanceled) = true
is_thrown (err Errno.etimedout) = true
is_thrown c = false

unfoldable pub back : List Text → Option Text
back [] = none
back (k ∷ ks) = let rest = back ks in elim ks [ [] ↦ some k | _ ∷ _ ↦ rest ]

module _ (service : Service) where
  unfoldable pub list_request : Reader → Request
  list_request r = record {
    method = http_get;
    url =
        service.bucket_url
        ++ codes "?prefix="
        ++ service.url_encode r.prefix
        ++ codes "&marker="
        ++ service.url_encode r.marker
        ++ (if r.group_common_prefixes then codes "&delimiter=/" else [])
        ++ (if ltb 0 r.max_keys then codes "&max-keys=" ++ service.decimal r.max_keys else []);
    headers = [];
    input = [];
  }

  -- The marker of the next request, once the keys are known and more are to come.
  unfoldable pub advance : Document → Page → Reader → Option Listing
  advance doc p r =
      if not r.truncated
      then some (record { code = ret (size p); page = p; reader = r })
      else if service.is_next_marker_supported
      then elim doc.next_marker [
        | none ↦ fail eio r
        | some m ↦ some (record { code = ret (size p); page = p; reader = record r { marker = m } })
      ]
      else elim (back p.keys) [
        | none ↦ none
        | some m ↦ some (record { code = ret (size p); page = p; reader = record r { marker = m } })
      ]

  -- `want` tells whether the caller passed a list for the prefixes.
  unfoldable pub collect_page : Bool → Document → Reader → Option Listing
  unfolding advance
  collect_page want doc r = elim (if want then doc.found_prefixes else some []) [
    | none ↦ fail eio r
    | some prefixes ↦ elim doc.found_keys [
      | none ↦ fail eio r
      | some keys ↦ advance doc (record { keys = keys; prefixes = prefixes }) r
    ]
  ]

  unfoldable pub read_document : Bool → Document → Reader → Option Listing
  unfolding collect_page
  read_document want doc r = elim doc.is_truncated [
    | none ↦ fail eio r
    | some t ↦ collect_page want doc (record r { truncated = same t (codes "true") })
  ]

  unfoldable pub read_response : Bool → Response → Reader → Option Listing
  unfolding read_document
  read_response want res r =
      if not (res.response_code == sc_ok) then fail eio r else elim (service.parse res.output) [
        | none ↦ fail eio r
        | some doc ↦ read_document want doc r
      ]

  module _ (server : ℕ → Request → Answer) where
    -- `i` counts the requests of the reader.
    unfoldable pub read : Bool → ℕ → Reader → Option Listing
    unfolding list_request read_response
    read want i r =
        if not r.truncated
        then some (record { code = success; page = no_page; reader = r })
        else elim (server i (list_request r)) [
          | threw ↦ fail ecanceled r
          | timed_out ↦ fail etimedout r
          | replied res ↦ read_response want res r
        ]

    -- `while ((r = reader->read(...)) > 0)`, on fuel: the last code, and the pages before it.
    unfoldable pub read_all : Bool → ℕ → ℕ → Reader → Option (Code × List Page)
    unfolding read
    read_all want zero i r = none
    read_all want (suc fuel) i r = elim (read want i r) [
      | none ↦ none
      | some l ↦ elim l.code [
        | err e ↦ some (err e, [])
        | ret n ↦ elim n [
          | zero ↦ some (success, [])
          | suc _ ↦ elim (read_all want fuel (suc i) l.reader) [
            | none ↦ none
            | some (c, pages) ↦ some (c, l.page ∷ pages)
          ]
        ]
      ]
    ]
