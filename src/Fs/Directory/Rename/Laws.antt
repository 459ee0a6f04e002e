-- ===== src/Fs/Directory/Rename/Laws.antt =====
-- A directory that is renamed loses no object.
use s3fuse.Prelude.{ℕ, ◌≤◌, ◌<◌, ◌≡◌, false, List, [], ◌++◌, some, length, get_or}
use s3fuse.Prelude.Code.{Code}
use s3fuse.Prelude.Text.{Text, codes}
use s3fuse.Base.Http.{Response, Answer, replied, sc_ok, sc_no_content}
use s3fuse.Fs.Listing.{Page, list_reader, read_all}
use s3fuse.Fs.Directory.{copy_request, delete_request}
use s3fuse.Fs.Directory.Rename.{Setup, Store, collected, collect_keys, all_keys}

abbrev pub Confirmed : Answer → ℕ → Type 0
Confirmed a code = (res : Response) × (a ≡ replied res) × (res.response_code ≡ code)

module _ (d : Setup) (store : Store) where
  -- Each name has been copied, in an attempt that the store answered by 200.
  abbrev pub AllCopied : List Text → Text → Text → Type 0
  AllCopied names from to =
      (i : ℕ)
      → i < length names
      → (c : ℕ) × (c ≤ d.max_retries)
        × Confirmed
            (store.copying i c (
              copy_request d.build_url d.header_prefix (d.acl_headers (to ++ get_or names i []))
                (from ++ get_or names i []) (to ++ get_or names i [])))
            sc_ok

  -- Each name has been deleted, in an attempt that the store answered by 204.
  abbrev pub AllDeleted : List Text → Text → Type 0
  AllDeleted names from =
      (i : ℕ)
      → i < length names
      → (c : ℕ) × (c ≤ d.max_retries)
        × Confirmed (store.deleting i c (delete_request (d.build_url (from ++ get_or names i []))))
            sc_no_content

  -- The names that the listing gave, from the keys of all its pages.
  abbrev pub Listed : ℕ → Text → List Text → Type 0
  Listed fuel path names =
      (code : Code) × (pages : List Page) × (read_all d.service store.listing false fuel 0
          (list_reader (path ++ codes "/") false 0)
        ≡ some (code, pages))
      × (collect_keys d.cache_remove (length (path ++ codes "/")) (all_keys pages)
          ≡ some (collected names))
