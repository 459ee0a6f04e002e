-- ===== src/Fs/Directory/Runs.antt =====
-- Concrete listings and renames.
use s3fuse.Prelude.{
  map, ℕ, zero, suc, ◌≡◌, refl, true, false, List, [], ◌∷◌, none, some, arith, if◌then◌else◌, inl,
  inr,
}
use s3fuse.Prelude.Code.{success}
use s3fuse.Prelude.Text.{Text, codes, same, is_empty}
use s3fuse.Base.Http.{Request, Answer, replied, sc_ok, sc_no_content}
use s3fuse.Fs.Listing.{
  Document, Service, Reader, Page, list_reader, back, advance, collect_page, read_document,
  read_response, read, read_all,
}
use s3fuse.Fs.Listing.Pages.{Chain, done, more, read_all-Chain}
use s3fuse.Threads.ParallelQueue.{initial_parts, start, collect, post_next, step, loop, process}
use s3fuse.Fs.Directory.{
  substr_from, relative_prefix, subdirs, files, page_entries, listed_path, read_directory,
  copy_code, delete_code,
}
use s3fuse.Fs.Directory.Names.{Names, page_of, read_directory-names}
use s3fuse.Fs.Directory.Rename.{
  Setup, Store, deleted, collect_keys, all_keys, copy_outcome, delete_outcome, run_queues,
  rename_listed, rename_directory,
}

-- A bucket with the objects a/x and a/y/z, listed in two pages.
abbrev first_page : Document
first_page = record {
  is_truncated = some (codes "true");
  found_prefixes = some [];
  found_keys = some (codes "a/x" ∷ []);
  next_marker = none;
}

abbrev second_page : Document
second_page = record {
  is_truncated = some (codes "false");
  found_prefixes = some (codes "a/y/" ∷ []);
  found_keys = some [];
  next_marker = none;
}

abbrev service : Service
service = record {
  url_encode = λ s. s;
  decimal = λ n. codes "2";
  bucket_url = codes "/b";
  is_next_marker_supported = false;
  parse = λ s. if is_empty s then some first_page else some second_page;
}

abbrev reply : ℕ → Text → Answer
reply code output =
    replied (record { response_code = code; response_headers = []; output = output })

abbrev two_pages : ℕ → Request → Answer
two_pages zero q = reply sc_ok []
two_pages (suc i) q = reply sc_ok (codes "2")

-- The second page is refused.
abbrev one_page : ℕ → Request → Answer
one_page zero q = reply sc_ok []
one_page (suc i) q = reply 500 []

abbrev reader : Reader
reader = record {
  truncated = true;
  prefix = codes "a/";
  group_common_prefixes = true;
  max_keys = 0;
  marker = [];
}

abbrev served : List Page
served =
    record { keys = codes "a/x" ∷ []; prefixes = [] }
    ∷ record { keys = []; prefixes = codes "a/y/" ∷ [] }
    ∷ []

served-Chain : Chain service two_pages true 0 reader served
unfolding read_document collect_page advance back same is_empty
served-Chain =
    more {after = record reader { marker = codes "a/x" }} refl
      (record {
        response = record { response_code = sc_ok; response_headers = []; output = [] };
        document = first_page;
        answered = refl;
        accepted = refl;
        parsed = refl;
        keys = refl;
        prefixes = λ w. refl;
        no_prefixes = λ w. absurd (ground arith);
        follows = inr (codes "a/x", refl, λ w. absurd (ground arith), λ w. ([], refl), refl);
      })
      (omega arith)
      (more {after = record reader { marker = codes "a/x"; truncated = false }} refl
        (record {
          response = record { response_code = sc_ok; response_headers = []; output = codes "2" };
          document = second_page;
          answered = refl;
          accepted = refl;
          parsed = refl;
          keys = refl;
          prefixes = λ w. refl;
          no_prefixes = λ w. absurd (ground arith);
          follows = inl (codes "false", refl, λ e. absurd (ground arith), refl);
        })
        (omega arith) (done refl))

read_all-Chain_example : read_all service two_pages true 3 0 reader ≡ some (success, served)
read_all-Chain_example =
    read_all-Chain service two_pages true 3 0 reader served served-Chain (omega arith)

abbrev names : List Names
names =
    record { directories = []; objects = codes "x" ∷ [] }
    ∷ record { directories = codes "y" ∷ []; objects = [] }
    ∷ []

reader_a : list_reader (listed_path (codes "a")) true 0 ≡ reader
unfolding list_reader listed_path is_empty
reader_a = refl

path_a : listed_path (codes "a") ≡ codes "a/"
unfolding listed_path is_empty
path_a = refl

names-Chain :
    Chain service two_pages true 0
      (list_reader (listed_path (codes "a")) true 0)
      (map (page_of (listed_path (codes "a"))) names)
names-Chain = rw (reader_a, path_a) served-Chain

read_directory-names_example :
    read_directory service two_pages 3 (λ s. false) true (codes "a")
    ≡ some (record {
      code = success;
      filled = codes "." ∷ codes ".." ∷ codes "x" ∷ codes "y" ∷ [];
      cached = some (codes "x" ∷ codes "y" ∷ []);
    })
unfolding is_empty
read_directory-names_example =
    read_directory-names service two_pages 3 (λ s. false) true (codes "a") names names-Chain
      (omega arith)

-- The names of the directory a.
read_directory_a :
    read_directory service two_pages 3 (λ s. false) true (codes "a")
    ≡ some (record {
      code = success;
      filled = codes "." ∷ codes ".." ∷ codes "x" ∷ codes "y" ∷ [];
      cached = some (codes "x" ∷ codes "y" ∷ []);
    })
unfolding read_directory read_all read read_response read_document collect_page advance back
    list_reader listed_path page_entries subdirs files substr_from relative_prefix same is_empty
read_directory_a = refl

abbrev setup : Setup
setup = record {
  service = service;
  build_url = λ s. s;
  header_prefix = codes "x-amz-";
  acl_headers = λ s. [];
  cache_remove = λ s. success;
  max_retries = 1;
  max_parts_in_progress = 2;
}

abbrev store_with : (ℕ → Request → Answer) → Store
store_with listing = record {
  listing = listing;
  copying = λ i c q. reply sc_ok [];
  deleting = λ i c q. reply sc_no_content [];
}

-- The refused second page goes unnoticed: the rename goes on with the keys of the first, and returns 0.
rename_after_error :
    rename_directory setup (store_with one_page) 3 (codes "a") (codes "b") ≡ some (deleted success)
unfolding rename_directory rename_listed run_queues copy_outcome delete_outcome copy_code
    delete_code collect_keys all_keys substr_from read_all read read_response read_document
    collect_page advance back list_reader process loop step start initial_parts collect post_next
    same is_empty
rename_after_error = refl
