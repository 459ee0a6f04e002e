-- ===== src/Base/Request/HeaderLine.antt =====
-- header_process on a line as HTTP writes it, and the table of the headers.
use s3fuse.Prelude.{◌≡◌, ◌≢◌, refl, true, false, [], ◌∷◌, ◌++◌, some, length, All, arith}
use s3fuse.Prelude.Text.{Text, same, same_iff, same_refl}
use s3fuse.Base.Http.{Headers, get_header}
use s3fuse.Base.Request.{
  RequestState, put_header, split_colon, skip_space, until_eol, header_process,
}

pub get_header-put_header : (k v : Text) (hs : Headers) → get_header k (put_header k v hs) ≡ v
unfolding put_header get_header
get_header-put_header k v [] = ground (arith, same_refl k)
get_header-put_header k v ((j, w) ∷ hs) = ground (arith, same_refl k, get_header-put_header k v hs)

pub put_header-other :
    (k v l : Text) (hs : Headers)
    → same k l ≡ false
    → get_header l (put_header k v hs) ≡ get_header l hs
unfolding put_header get_header
put_header-other k v l [] d = ground arith
put_header-other k v l ((j, w) ∷ hs) d =
    ground (arith, put_header-other k v l hs d, (same_iff j k).0, (same_iff j l).0)

abbrev pub IsName : Text → Type 0
IsName = All (λ c. (c ≢ 58) × (c ≢ 0))

abbrev pub IsValue : Text → Type 0
IsValue = All (λ c. (c ≢ 13) × (c ≢ 10) × (c ≢ 0))

split_colon-append :
    (name tail : Text) → IsName name → split_colon (name ++ (58 ∷ tail)) ≡ some (name, tail)
unfolding split_colon
split_colon-append [] tail h = refl
split_colon-append (c ∷ name) tail (hc, h) = ground (arith, split_colon-append name tail h)

until_eol-append : (value tail : Text) → IsValue value → until_eol (value ++ (13 ∷ tail)) ≡ value
unfolding until_eol
until_eol-append [] tail h = refl
until_eol-append (c ∷ value) tail (hc, h) = ground (arith, until_eol-append value tail h)

-- A header line: a name, a colon and a space, a value, and the end of the line.
abbrev pub line : Text → Text → Text
line name value = name ++ (58 ∷ 32 ∷ value ++ (13 ∷ 10 ∷ []))

-- While a request is not canceled, header_process takes a whole header line. If a null character stands
-- behind the line's data then it sets the header that the line names to its value, and leaves the
-- other headers as they were; if none does then it leaves the request as it was.
pub get_header-header_process :
    (name value : Text) (s : RequestState)
    → IsName name
    → IsValue value
    → s.canceled ≡ false
    → let r = header_process (line name value) true s in
      (r.0 ≡ length (line name value))
      × (get_header name r.1.response_headers ≡ value)
      × ((other : Text)
          → other ≢ name
          → get_header other r.1.response_headers ≡ get_header other s.response_headers)
      × (header_process (line name value) false s ≡ (length (line name value), s))
unfolding header_process skip_space
get_header-header_process name value s hn hv h =
    let e = split_colon-append name (32 ∷ value ++ (13 ∷ 10 ∷ [])) hn in
    let v = until_eol-append value (10 ∷ []) hv in
    rw (h, header_process, e, skip_space, v)
      (
        refl,
        get_header-put_header name value s.response_headers,
        λ other d.
            put_header-other name value other s.response_headers
              (ground (arith, (same_iff name other).0)),
        refl,
      )
