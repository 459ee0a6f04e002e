-- ===== src/Fs/File/Durable.antt =====
-- The flags of a file against its local copy and the store, over orderly runs.
use s3fuse.Prelude.{
  ℕ, suc, ◌-◌, ◌==◌, if◌then◌else◌, ◌≤◌, ◌<◌, ◌≡◌, refl, ap, ◌⊎◌, inl, inr, Bool, true, false, List,
  [], ◌∷◌, ◌++◌, arith, length, length-append, length-replicate, replicate,
}
use s3fuse.Prelude.Code.{Code, success, is_failure}
use s3fuse.Fs.File.{
  File, idle, OpenEnv, enters, returns, open_file, open_first, on_download_complete, release,
  write_enter, write_exit, flush_enter, flush_called, flush_exit, update_stat, hold, grant, refuse,
}
use s3fuse.Fs.File.System.{
  Bytes, Writer, absent, sending, sent, System, Copied, makes_file, opened_content, Step, opens,
  download_ends, releases, stats, write_enters, stores, write_exits, flush_enters, uploads,
  flush_exits,
}

-- The flags against the threads, the local copy and the store.
pub record Inv (s : System) : Type 0 where
  pub one_writer : length s.writers ≤ 1
  pub writers_flag : s.file.status.writing ≡ false → length s.writers ≡ 0
  pub writers_dirty : s.file.status.writing ≡ true → s.file.status.dirty ≡ true
  pub upload_flag : s.file.status.uploading ≡ false → s.flusher ≡ absent
  pub upload_alone :
      s.file.status.uploading ≡ true
      → (s.file.status.writing ≡ false) × (s.file.status.dirty ≡ true)
  pub held : 0 < s.file.ref_count → s.file.has_fd ≡ true
  pub download_alone :
      s.file.status.downloading ≡ true
      → (s.file.status.uploading ≡ false)
        × (s.file.status.writing ≡ false)
        × (s.file.status.dirty ≡ false)
  pub sent_all : (r : Code) → s.flusher ≡ sent r → is_failure r ≡ false → s.remote ≡ s.content
  pub clean :
      0 < s.file.ref_count
      → s.file.status.dirty ≡ false
      → s.file.status.downloading ≡ false
      → is_failure s.file.async_error ≡ false
      → s.remote ≡ s.content
  pub download_count : s.file.status.downloading ≡ false → s.downloads ≡ 0
  pub one_download : s.file.status.downloading ≡ true → (s.downloads ≡ 1) × (s.same_fd ≡ true)
  pub download_size : s.file.status.downloading ≡ true → (0 < s.file.size) × (0 < length s.content)
  pub sent_code : (r : Code) → s.flusher ≡ sent r → s.file.async_error ≡ r
  pub closed_quiet :
      s.file.ref_count ≡ 0 → (s.file.status.uploading ≡ false) × (s.file.status.writing ≡ false)
  pub closed_size :
      s.file.ref_count ≡ 0
      → s.file.status.dirty ≡ false
      → s.file.status.downloading ≡ false
      → is_failure s.file.async_error ≡ false
      → s.file.size ≡ 0
      → length s.remote ≡ 0
  pub closed_length :
      s.file.ref_count ≡ 0
      → s.file.has_fd ≡ true
      → s.file.status.dirty ≡ false
      → s.file.status.downloading ≡ false
      → is_failure s.file.async_error ≡ false
      → length s.content ≡ 0
      → length s.remote ≡ 0

flush_enters-Inv :
    (s : System) (f : File)
    → Inv s
    → 0 < s.file.ref_count
    → flush_enter s.file ≡ enters f
    → Inv (record s { file = f; flusher = sending })
unfolding flush_enter
flush_enters-Inv s f v pos e = ground arith

write_exits-Inv :
    (s : System) (before after : List Writer) (w : Writer)
    → Inv s
    → s.writers ≡ before ++ (w ∷ after)
    → Inv (record s { file = write_exit s.file; writers = before ++ after })
unfolding write_exit
write_exits-Inv s before after w v e =
    ground (arith, length-append before (w ∷ after), length-append before after, ap length e)

flush_exits-Inv :
    (s : System) (r : Code)
    → Inv s
    → s.flusher ≡ sent r
    → Inv (record s { file = flush_exit s.file; flusher = absent })
unfolding flush_exit
flush_exits-Inv s r v e = ground (arith, v.sent_all r, v.sent_code r)

uploads-Inv :
    (s : System) (r : Code) (bytes : Bytes)
    → Inv s
    → s.flusher ≡ sending
    → Copied r s.content bytes
    → Inv (record s { file = flush_called r s.file; remote = bytes; flusher = sent r })
unfolding flush_called
uploads-Inv s r bytes v e c = ground arith

stores-Inv :
    (s : System) (before after : List Writer) (edit : Bytes → Bytes)
    → Inv s
    → s.writers ≡ before ++ (record { edit = edit; stored = false } ∷ after)
    → Inv (record s {
      content = edit s.content;
      writers = before ++ (record { edit = edit; stored = true } ∷ after);
    })
stores-Inv s before after edit v e = ground (
  arith,
  length-append before (record { edit = edit; stored = false } ∷ after),
  length-append before (record { edit = edit; stored = true } ∷ after),
  ap length e,
)

write_enters-Inv :
    (s : System) (f : File) (w : Writer)
    → Inv s
    → 0 < s.file.ref_count
    → write_enter s.file ≡ enters f
    → length s.writers ≡ 0
    → Inv (record s { file = f; writers = s.writers ++ (w ∷ []) })
unfolding write_enter
write_enters-Inv s f w v pos e few = ground (arith, length-append s.writers (w ∷ []))

releases-Inv :
    (s : System)
    → Inv s
    → (s.file.ref_count ≡ 1 → (s.file.status.uploading ≡ false) × (s.file.status.writing ≡ false))
    → Inv (record s { file = (release (length s.content) s.file).1 })
unfolding release
releases-Inv s v h = ground arith

stats-Inv : (s : System) → Inv s → Inv (record s { file = update_stat (length s.content) s.file })
unfolding update_stat
stats-Inv s v = ground arith

download_ends-Inv :
    (s : System) (r : Code) (bytes : Bytes)
    → Inv s
    → 0 < s.downloads
    → (s.same_fd ≡ true → Copied r s.remote bytes)
    → Inv (record s {
      file = on_download_complete r s.file;
      content = bytes;
      downloads = s.downloads - 1;
    })
unfolding on_download_complete
download_ends-Inv s r bytes v d c = ground arith

zeros : (n : ℕ) → length (replicate {A = ℕ} n 0) ≡ n
zeros n = length-replicate n 0

no_bytes : (b : Bytes) → length b ≡ 0 → b ≡ []
no_bytes [] e = refl
no_bytes (x ∷ b) e = absurd (omega arith)

opens-Inv :
    (s : System) (t : Bool) (env : OpenEnv)
    → Inv s
    → (s.file.ref_count ≡ 0 → s.file.status.downloading ≡ false)
    → is_failure env.ftruncate ≡ false
    → Inv (record s {
      file = (open_file t env s.file).file;
      content = opened_content t env s.file s.content;
      downloads = if (open_file t env s.file).posts then suc s.downloads else s.downloads;
      same_fd = if makes_file env s.file then s.downloads == 0 else s.same_fd;
    })
unfolding open_file open_first hold grant refuse
opens-Inv s t env v q ok = ground (arith, zeros s.file.size, no_bytes s.remote)

-- No handle is the last to be released while a write or a flush still runs, ftruncate does not fail
-- on a new local file, and nobody opens an unheld file before its last download has ended.
unfoldable pub Orderly : {s t : System} → Step s t → Type 0
Orderly {s = s} (opens t env) =
    (s.file.ref_count ≡ 0 → s.file.status.downloading ≡ false) × (is_failure env.ftruncate ≡ false)
Orderly {s = s} releases =
    s.file.ref_count ≡ 1 → (s.file.status.uploading ≡ false) × (s.file.status.writing ≡ false)
Orderly (download_ends r bytes d c) = Unit
Orderly stats = Unit
Orderly (write_enters edit f pos e) = Unit
Orderly (stores before after edit e) = Unit
Orderly (write_exits before after edit e) = Unit
Orderly (flush_enters f pos e) = Unit
Orderly (uploads r bytes e c) = Unit
Orderly (flush_exits r e) = Unit

Step-Inv : {s t : System} → (st : Step s t) → Orderly st → length t.writers ≤ 1 → Inv s → Inv t
unfolding Orderly
Step-Inv {s = s} (opens t env) (q, ok) few v = opens-Inv s t env v q ok
Step-Inv {s = s} (download_ends r bytes d c) o few v = download_ends-Inv s r bytes v d c
Step-Inv {s = s} releases o few v = releases-Inv s v o
Step-Inv {s = s} stats o few v = stats-Inv s v
Step-Inv {s = s} (write_enters edit f pos e) o few v =
    write_enters-Inv s f (record { edit = edit; stored = false }) v pos e
      (omega (arith, length-append s.writers (record { edit = edit; stored = false } ∷ [])))
Step-Inv {s = s} (stores before after edit e) o few v = stores-Inv s before after edit v e
Step-Inv {s = s} (write_exits before after edit e) o few v = write_exits-Inv s before after _ v e
Step-Inv {s = s} (flush_enters f pos e) o few v = flush_enters-Inv s f v pos e
Step-Inv {s = s} (uploads r bytes e c) o few v = uploads-Inv s r bytes v e c
Step-Inv {s = s} (flush_exits r e) o few v = flush_exits-Inv s r v e

-- Orderly runs in which no two threads are inside `write` or `truncate` at a time.
pub data Serial (s : System) : System → Type 0 where
  here : Serial s s
  next :
      {t u : System} → Serial s t → (st : Step t u) → Orderly st → length u.writers ≤ 1 → Serial s u

-- A file that nobody holds, with the size that the store reports.
pub record IsClosed (s : System) : Type 0 where
  pub unheld : s.file.ref_count ≡ 0
  pub quiet : s.file.status ≡ idle
  pub no_writers : s.writers ≡ []
  pub no_flusher : s.flusher ≡ absent
  pub no_local_file : s.file.has_fd ≡ false
  pub no_downloads : s.downloads ≡ 0
  pub known_size : s.file.size ≡ length s.remote

IsClosed-Inv : (s : System) → IsClosed s → Inv s
IsClosed-Inv s c = ground (arith, ap length c.no_writers)

Serial-Inv : {s t : System} → Inv s → Serial s t → Inv t
Serial-Inv v here = v
Serial-Inv v (next r st o few) = Step-Inv st o few (Serial-Inv v r)

-- From a closed file without a local copy, over any steps of open, release, update_stat, write,
-- truncate, flush and the download, those that fail included, in which: no two threads are inside
-- `write` or `truncate` at a time, the last handle is not released while a write or a flush runs,
-- an unheld file is not opened before its last download has ended, and ftruncate does not fail on a
-- new local file. Whenever the file is held, not dirty, not downloading and without an error, the
-- store has exactly the local file's bytes.
pub Serial-clean :
    (s t : System)
    → IsClosed s
    → Serial s t
    → 0 < t.file.ref_count
    → t.file.status.dirty ≡ false
    → t.file.status.downloading ≡ false
    → is_failure t.file.async_error ≡ false
    → t.remote ≡ t.content
Serial-clean s t c r pos = (Serial-Inv (IsClosed-Inv s c) r).clean pos

-- In a run from a closed file without a local copy, over any steps of open, release, update_stat, write,
-- truncate, flush and the download, those that fail included, in which no two threads are inside
-- `write` or `truncate` at a time, the last handle is not released while a write or a flush runs, an
-- unheld file is not opened before its last download has ended, and ftruncate does not fail on a
-- new local file: while the file is held, `flush` returns 0 only with the local file in the store, at
-- once, or as the code of the upload that it has made.
pub Serial-flush :
    (s t : System)
    → IsClosed s
    → Serial s t
    → 0 < t.file.ref_count
    → (flush_enter t.file ≡ returns success) ⊎ (t.flusher ≡ sent success)
    → t.remote ≡ t.content
Serial-flush s t c r pos (inl e) = skipped (Serial-Inv (IsClosed-Inv s c) r) e
  where
    skipped : Inv t → flush_enter t.file ≡ returns success → t.remote ≡ t.content
    skipped v h = unfold flush_enter in ground arith
Serial-flush s t c r pos (inr e) = (Serial-Inv (IsClosed-Inv s c) r).sent_all success e refl
