-- ===== src/Fs/Directory/Rename.antt =====
-- directory::rename of fs/directory.cc. What cache::remove returns for a path is an argument (what it
-- does to the cache is left out), and so are
-- the store's answers: to the listing, and to the attempt number `c` of copying or deleting the part `i`.
pub mod Laws
use s3fuse.Prelude.{
  ℕ, zero, suc, ◌+◌, Bool, true, false, not, List, [], ◌∷◌, ◌++◌, Option, none, some, if◌then◌else◌,
  length, get_or,
}
use s3fuse.Prelude.Code.{Code, err, success, is_failure, einval}
use s3fuse.Prelude.Text.{Text, codes, is_empty}
use s3fuse.Base.Http.{Request, Response, Answer, Headers}
use s3fuse.Fs.Listing.{Service, Page, list_reader, read_all, is_thrown}
use s3fuse.Threads.ParallelQueue.{Progress, process}
use s3fuse.Fs.Directory.{substr_from, copy_request, copy_code, delete_request, delete_code}

-- What the directory is renamed with: the urls and headers of requests, and the settings of the queues.
pub record Setup : Type 0 where
  pub service : Service
  pub build_url : Text → Text
  pub header_prefix : Text
  pub acl_headers : Text → Headers
  pub cache_remove : Text → Code
  pub max_retries : ℕ
  pub max_parts_in_progress : ℕ

-- What the store answers to each attempt of each part, by the request.
pub record Store : Type 0 where
  pub listing : ℕ → Request → Answer
  pub copying : ℕ → ℕ → Request → Answer
  pub deleting : ℕ → ℕ → Request → Answer

-- How far the rename got: the deletions have been started, or not.
pub data Renamed : Type 0 where
  kept : Code → Renamed
  deleted : Code → Renamed

-- The body of the listing loop: forget each key, and collect the relative paths.
pub data Collected : Type 0 where
  refused : Code → Collected
  collected : List Text → Collected

unfoldable pub collect_keys : (Text → Code) → ℕ → List Text → Option Collected
unfolding substr_from
collect_keys cache_remove n [] = some (collected [])
collect_keys cache_remove n (k ∷ ks) =
    let rest = collect_keys cache_remove n ks in
    if is_failure (cache_remove k)
    then some (refused (cache_remove k))
    else elim (substr_from n k) [
      | none ↦ none
      | some name ↦ elim rest [
        | none ↦ none
        | some (refused c) ↦ some (refused c)
        | some (collected names) ↦ some (collected (name ∷ names))
      ]
    ]

unfoldable pub all_keys : List Page → List Text
all_keys [] = []
all_keys (p ∷ ps) = p.keys ++ all_keys ps

module _ (d : Setup) (store : Store) where
  -- The part `i` of the queues is the name at that place.
  unfoldable pub copy_outcome : List Text → Text → Text → ℕ → ℕ → Code
  copy_outcome names old_base new_base i c =
      let old_name = old_base ++ get_or names i [] in
      let new_name = new_base ++ get_or names i [] in
      copy_code (
        store.copying i c
          (copy_request d.build_url d.header_prefix (d.acl_headers new_name) old_name new_name))

  unfoldable pub delete_outcome : List Text → Text → ℕ → ℕ → Code
  delete_outcome names old_base i c =
      delete_code
        (store.deleting i c (delete_request (d.build_url (old_base ++ get_or names i []))))

  -- The two queues, one after the other.
  unfoldable pub run_queues : List Text → Text → Text → Option Renamed
  unfolding copy_outcome delete_outcome
  run_queues names from to =
      elim (process (copy_outcome names from to) d.max_retries d.max_parts_in_progress
        (length names)) [
          | none ↦ none
          | some s ↦
              if is_failure s.status
              then some (kept s.status)
              else elim (process (delete_outcome names from) d.max_retries d.max_parts_in_progress
                  (length names)) [ none ↦ none | some t ↦ some (deleted t.status) ]
        ]

  -- What follows the listing loop, which ended with the code `c`: only an exception ends the function.
  unfoldable pub rename_listed : Text → Text → Code → List Page → Option Renamed
  unfolding collect_keys all_keys run_queues
  rename_listed from to c pages =
      elim (collect_keys d.cache_remove (length from) (all_keys pages)) [
        | none ↦ none
        | some (refused e) ↦ some (kept e)
        | some (collected names) ↦ if is_thrown c then some (kept c) else run_queues names from to
      ]

  unfoldable pub rename_directory : ℕ → Text → Text → Option Renamed
  unfolding rename_listed
  rename_directory fuel path to =
      if is_empty path
      then some (kept (err einval))
      else elim (read_all d.service store.listing false fuel 0
          (list_reader (path ++ codes "/") false 0)) [
            | none ↦ none
            | some (c, pages) ↦ rename_listed (path ++ codes "/") (to ++ codes "/") c pages
          ]
