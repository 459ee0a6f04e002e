-- ===== src/Fs/Directory/Names.antt =====
-- The names that directory::read gives to the filler.
use s3fuse.Prelude.{
  ℕ, ◌-◌, ◌<◌, ◌≤◌, ◌≡◌, refl, Bool, true, List, [], ◌∷◌, ◌++◌, none, some, arith, length,
  length-append, length-map, take, drop, map, if◌then◌else◌,
}
use s3fuse.Prelude.Code.{success}
use s3fuse.Prelude.Text.{Text, codes, same, is_empty}
use s3fuse.Base.Http.{Request, Answer}
use s3fuse.Fs.Listing.{Service, Page, list_reader}
use s3fuse.Fs.Listing.Pages.{Chain, read_all-Chain}
use s3fuse.Fs.Directory.{
  substr_from, relative_prefix, subdirs, files, page_entries, listed_path, read_directory,
}

drop-append : (a b : Text) → drop (length a) (a ++ b) ≡ b
drop-append [] b = refl
drop-append (c ∷ a) b = drop-append a b

take-append : (a b : Text) → take (length a) (a ++ b) ≡ a
take-append [] b = refl
take-append (c ∷ a) b = rw (take-append a b)

substr_from-append : (path name : Text) → substr_from (length path) (path ++ name) ≡ some name
unfolding substr_from
substr_from-append path name = ground (arith, drop-append path name, length-append path name)

relative_prefix-append :
    (path name : Text) → relative_prefix (length path) (path ++ (name ++ (47 ∷ []))) ≡ some name
unfolding relative_prefix
relative_prefix-append path name = ground (arith, fits, drops, measures)
  where
    fits : length path ≤ length (path ++ (name ++ (47 ∷ [])))
    fits = omega (arith, length-append path (name ++ (47 ∷ [])))

    measures : length (path ++ (name ++ (47 ∷ []))) - length path - 1 ≡ length name
    measures = omega (arith, length-append path (name ++ (47 ∷ [])), length-append name (47 ∷ []))

    drops :
        take
          (length (path ++ (name ++ (47 ∷ []))) - length path - 1)
          (drop (length path) (path ++ (name ++ (47 ∷ []))))
        ≡ name
    drops = rw (measures, drop-append path (name ++ (47 ∷ []))) (take-append name (47 ∷ []))

same-append : (path name : Text) → same path (path ++ name) ≡ is_empty name
unfolding same is_empty
same-append [] [] = refl
same-append [] (c ∷ name) = refl
same-append (c ∷ path) name = ground (arith, same-append path name)

-- The names of directories and files that a page of the listing of a path stands for.
pub record Names : Type 0 where
  pub directories : List Text
  pub objects : List Text

abbrev pub page_of : Text → Names → Page
page_of path n = record {
  keys = map (λ f. path ++ f) n.objects;
  prefixes = map (λ d. path ++ (d ++ codes "/")) n.directories;
}

subdirs-map :
    (path : Text) (ds : List Text)
    → subdirs (length path) (map (λ d. path ++ (d ++ (47 ∷ []))) ds) ≡ some ds
unfolding subdirs
subdirs-map path [] = refl
subdirs-map path (d ∷ ds) = rw (relative_prefix-append path d, subdirs-map path ds) refl

module _ (is_internal_path : Text → Bool) where
  -- All files but the object of the path itself and the internal ones.
  abbrev pub visible : List Text → List Text
  visible [] = []
  visible (f ∷ fs) =
      let rest = visible fs in
      if is_empty f then rest else if is_internal_path f then rest else f ∷ rest

  abbrev pub all_names : List Names → List Text
  all_names [] = []
  all_names (n ∷ ns) = n.directories ++ (visible n.objects ++ all_names ns)

  files-map :
      (path : Text) (fs : List Text)
      → files is_internal_path path (map (λ f. path ++ f) fs) ≡ some (visible fs)
  unfolding files
  files-map path [] = refl
  files-map path (f ∷ fs) =
      rw (files-map path fs, same-append path f, substr_from-append path f) (ground arith)

  page_entries-map :
      (path : Text) (ns : List Names)
      → page_entries is_internal_path path (map (page_of path) ns) ≡ some (all_names ns)
  unfolding page_entries
  page_entries-map path [] = refl
  page_entries-map path (n ∷ ns) =
      rw (subdirs-map path n.directories, files-map path n.objects, page_entries-map path ns) refl

-- If the store serves a directory as a chain of pages then `read` returns 0, on any fuel that exceeds
-- their number. It fills in the two dots and then, page by page, the directories, with the path and the
-- slash taken off, and the objects, with the path taken off, but for the directory's own object and the
-- internal ones; and these names are kept if directories are cached.
pub read_directory-names :
    (service : Service) (server : ℕ → Request → Answer) (fuel : ℕ) (is_internal_path : Text → Bool)
    (cache_directories : Bool) (path : Text) (ns : List Names)
    → Chain service server true 0
        (list_reader (listed_path path) true 0)
        (map (page_of (listed_path path)) ns)
    → length ns < fuel
    → read_directory service server fuel is_internal_path cache_directories path
      ≡ some (record {
        code = success;
        filled = codes "." ∷ codes ".." ∷ all_names is_internal_path ns;
        cached = if cache_directories then some (all_names is_internal_path ns) else none;
      })
unfolding read_directory
read_directory-names service server fuel is_internal_path cache_directories path ns chain lt =
    rw
      (
        read_directory,
        read_all-Chain service server true fuel 0 (list_reader (listed_path path) true 0)
            (map (page_of (listed_path path)) ns) chain enough,
        page_entries-map is_internal_path (listed_path path) ns,
      )
      refl
  where
    enough : length (map (page_of (listed_path path)) ns) < fuel
    enough = omega (arith, length-map ns (page_of (listed_path path)), lt)
