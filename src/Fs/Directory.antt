-- ===== src/Fs/Directory.antt =====
-- fs/directory.cc: `read`, `is_empty`, `remove` and, in Rename, `rename`. What the store answers is an
-- argument; `none` stands for a thrown out_of_range (a listed name without the requested prefix) or
-- the fuel's end. Precaching and the count of skipped objects are left out.
pub mod Names
pub mod Rename
mod Runs
use s3fuse.Prelude.{
  ℕ, zero, suc, ◌+◌, ◌-◌, Bool, true, false, not, List, [], ◌∷◌, ◌++◌, Option, none, some, ltb, leb,
  ◌==◌, if◌then◌else◌, length, take, drop, map, get_or,
}
use s3fuse.Prelude.Code.{Code, ret, err, success, is_failure, einval, enotempty, eio}
use s3fuse.Prelude.Text.{Text, codes, same, is_empty}
use s3fuse.Base.Http.{
  Request, Response, Answer, Headers, run_request, http_put, http_delete, sc_ok, sc_no_content,
}
use s3fuse.Fs.Listing.{Service, Reader, Page, Listing, list_reader, read, read_all}
use s3fuse.Threads.ParallelQueue.{Progress, process}

unfoldable pub substr_from : ℕ → Text → Option Text
substr_from n s = if ltb (length s) n then none else some (drop n s)

-- `substr(path_len, size - path_len - 1)`, which strips the slash that ends a prefix.
unfoldable pub relative_prefix : ℕ → Text → Option Text
relative_prefix n s = if ltb (length s) n then none else some (take (length s - n - 1) (drop n s))

infixl 5 ◌>>=◌
abbrev ◌>>=◌ {ℓ κ} : {A : Type ℓ} {B : Type κ} → Option A → (A → Option B) → Option B
none >>= f = none
some a >>= f = f a

unfoldable pub subdirs : ℕ → List Text → Option (List Text)
unfolding relative_prefix
subdirs n [] = some []
subdirs n (p ∷ ps) = do d ← relative_prefix n p; ds ← subdirs n ps; some (d ∷ ds)

module _ (is_internal_path : Text → Bool) where
  unfoldable pub files : Text → List Text → Option (List Text)
  unfolding substr_from
  files path [] = some []
  files path (k ∷ ks) = do
    rest ← files path ks
    name ← if same path k then some [] else substr_from (length path) k
    some (if same path k then rest else if is_internal_path name then rest else name ∷ rest)

  -- What the filler is called with for each page.
  unfoldable pub page_entries : Text → List Page → Option (List Text)
  unfolding subdirs files
  page_entries path [] = some []
  page_entries path (p ∷ ps) = do
    ds ← subdirs (length path) p.prefixes
    fs ← files path p.keys
    rest ← page_entries path ps
    some (ds ++ (fs ++ rest))

-- The code, the names that the filler has got, and the new `_cache`, if there is one.
pub record Read : Type 0 where
  pub code : Code
  pub filled : List Text
  pub cached : Option (List Text)

-- `path` with a slash, but for the root.
unfoldable pub listed_path : Text → Text
listed_path path = if is_empty path then [] else path ++ codes "/"

module _ (service : Service) (server : ℕ → Request → Answer) (fuel : ℕ) where
  -- get_cache_directories decides whether the names are kept.
  unfoldable pub read_directory : (Text → Bool) → Bool → Text → Option Read
  unfolding page_entries listed_path
  read_directory is_internal_path cache_directories path = do
    (c, pages) ← read_all service server true fuel 0 (list_reader (listed_path path) true 0)
    names ← page_entries is_internal_path (listed_path path) pages
    some (record {
      code = c;
      filled = codes "." ∷ codes ".." ∷ names;
      cached = if is_failure c then none else if cache_directories then some names else none;
    })

  -- Two keys are asked for, since the store always lists the path itself.
  unfoldable pub is_empty_directory : Text → Option Bool
  is_empty_directory path = if is_empty path then some false else do
    l ← read service server false 0 (list_reader (path ++ codes "/") false 2)
    some (elim l.code [ ret n ↦ n == 1 | err e ↦ false ])

  -- `base` stands for object::remove.
  unfoldable pub remove_directory : Text → Code → Option Code
  unfolding is_empty_directory
  remove_directory path base = do
    e ← is_empty_directory path
    some (if e then base else err enotempty)

-- The requests of object::copy_by_path and object::remove_by_url, and their codes.
unfoldable pub copy_request : (Text → Text) → Text → Headers → Text → Text → Request
copy_request build_url header_prefix acl source target = record {
  method = http_put;
  url = build_url target;
  headers =
      (header_prefix ++ codes "copy-source", build_url source)
      ∷ (header_prefix ++ codes "metadata-directive", codes "COPY")
      ∷ acl;
  input = [];
}

unfoldable pub copy_code : Answer → Code
copy_code a = run_request a (λ res. if res.response_code == sc_ok then success else err eio)

unfoldable pub delete_request : Text → Request
delete_request url = record { method = http_delete; url = url; headers = []; input = [] }

unfoldable pub delete_code : Answer → Code
delete_code a =
    run_request a (λ res. if res.response_code == sc_no_content then success else err eio)
