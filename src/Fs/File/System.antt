-- ===== src/Fs/File/System.antt =====
-- An open file with its local copy, its object in the store, and the threads that are inside one of
-- its methods, or run its download, while the mutex is free.
use s3fuse.Prelude.{
  ℕ, suc, ◌-◌, ◌<◌, ◌≡◌, ◌==◌, ◌&&◌, not, Bool, true, false, List, [], ◌∷◌, ◌++◌, length, replicate,
  if◌then◌else◌,
}
use s3fuse.Prelude.Code.{Code, is_failure}
use s3fuse.Fs.File.{
  File, OpenEnv, enters, open_file, on_download_complete, release, write_enter, write_exit,
  flush_enter, flush_called, flush_exit, update_stat,
}

abbrev pub Bytes : Type 0
Bytes = List ℕ

-- A thread in `write` or `truncate`, and whether its pwrite or ftruncate is done. What that call
-- makes of the local file is the system's: any function.
pub record Writer : Type 0 where
  pub edit : Bytes → Bytes
  pub stored : Bool

-- A thread in `flush`: before and after `upload` has read the local file and returned its code.
pub data Flusher : Type 0 where
  absent sending : Flusher
  sent : Code → Flusher

pub record System : Type 0 where
  pub file : File
  pub content : Bytes
  pub remote : Bytes
  pub writers : List Writer
  pub flusher : Flusher
  -- The downloads that are posted and have not ended, and whether the local file is the one that they
  -- began with.
  pub downloads : ℕ
  pub same_fd : Bool

-- Whether `open` makes a new local file.
abbrev pub makes_file : OpenEnv → File → Bool
makes_file env f = f.ref_count == 0 && not (is_failure env.mkstemp)

-- What the local file holds after `open`: the new file is empty until ftruncate has grown it to the
-- object's size.
abbrev pub opened_content : Bool → OpenEnv → File → Bytes → Bytes
opened_content truncate_to_zero env f content =
    if makes_file env f
    then if truncate_to_zero
      then []
      else if is_failure env.ftruncate
      then []
      else replicate f.size 0
    else content

-- What `upload` with the code `r` leaves in the store, and a download in the local file. A failure
-- may leave anything.
abbrev pub Copied : Code → Bytes → Bytes → Type 0
Copied r source target = is_failure r ≡ false → target ≡ source

-- One section under the mutex, or one call outside it.
pub data Step (s : System) : System → Type 0 where
  opens :
      (truncate_to_zero : Bool) (env : OpenEnv)
      → Step s (record s {
        file = (open_file truncate_to_zero env s.file).file;
        content = opened_content truncate_to_zero env s.file s.content;
        downloads =
            if (open_file truncate_to_zero env s.file).posts then suc s.downloads else s.downloads;
        same_fd = if makes_file env s.file then s.downloads == 0 else s.same_fd;
      })
  download_ends :
      (r : Code) (bytes : Bytes)
      → 0 < s.downloads
      → (s.same_fd ≡ true → Copied r s.remote bytes)
      → Step s (record s {
        file = on_download_complete r s.file;
        content = bytes;
        downloads = s.downloads - 1;
      })
  releases : Step s (record s { file = (release (length s.content) s.file).1 })
  stats : Step s (record s { file = update_stat (length s.content) s.file })
  write_enters :
      (edit : Bytes → Bytes) (f : File)
      → 0 < s.file.ref_count
      → write_enter s.file ≡ enters f
      → Step s (record s {
        file = f;
        writers = s.writers ++ (record { edit = edit; stored = false } ∷ []);
      })
  stores :
      (before after : List Writer) (edit : Bytes → Bytes)
      → s.writers ≡ before ++ (record { edit = edit; stored = false } ∷ after)
      → Step s (record s {
        content = edit s.content;
        writers = before ++ (record { edit = edit; stored = true } ∷ after);
      })
  write_exits :
      (before after : List Writer) (edit : Bytes → Bytes)
      → s.writers ≡ before ++ (record { edit = edit; stored = true } ∷ after)
      → Step s (record s { file = write_exit s.file; writers = before ++ after })
  flush_enters :
      (f : File)
      → 0 < s.file.ref_count
      → flush_enter s.file ≡ enters f
      → Step s (record s { file = f; flusher = sending })
  uploads :
      (r : Code) (bytes : Bytes)
      → s.flusher ≡ sending
      → Copied r s.content bytes
      → Step s (record s { file = flush_called r s.file; remote = bytes; flusher = sent r })
  flush_exits :
      (r : Code)
      → s.flusher ≡ sent r
      → Step s (record s { file = flush_exit s.file; flusher = absent })
