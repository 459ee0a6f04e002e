-- ===== src/Fs/File/Race.antt =====
-- FS_WRITING is one bit for all writers: the first of two that overlap clears it for both.
use s3fuse.Prelude.{ℕ, suc, ◌≡◌, refl, [], ◌∷◌, arith, true, false}
use s3fuse.Prelude.Code.{success}
use s3fuse.Fs.File.{idle, returns, write_enter, write_exit, flush_enter, flush_called, flush_exit}
use s3fuse.Fs.File.System.{
  Bytes, absent, System, Step, write_enters, stores, write_exits, flush_enters, uploads,
  flush_exits,
}

-- Any interleaving of threads.
pub data Reach (s : System) : System → Type 0 where
  here : Reach s s
  next : {t u : System} → Reach s t → Step t u → Reach s u

-- A file that `holders + 1` handles hold, with its `content` in the store.
abbrev pub stored_file : ℕ → ℕ → Bytes → System
stored_file holders size content = record {
  file = record {
    has_fd = true;
    status = idle;
    async_error = success;
    ref_count = suc holders;
    size = size;
    expired = false;
  };
  content = content;
  remote = content;
  writers = [];
  flusher = absent;
  downloads = 0;
  same_fd = true;
}

-- From any held file that is in the store, two overlapping writes and a flush can end in a state
-- where every thread has left its method, a further `flush` returns 0 without an upload, and the
-- store has the first write alone, while the local file has both.
pub lost_update :
    (holders size : ℕ) (content : Bytes) (first second : Bytes → Bytes)
    → (t : System) × Reach (stored_file holders size content) t
      × (t.writers ≡ [])
      × (t.flusher ≡ absent)
      × (flush_enter t.file ≡ returns success)
      × (t.remote ≡ first content)
      × (t.content ≡ second (first content))
unfolding write_enter write_exit flush_enter flush_called flush_exit
lost_update n size c e1 e2 = (
  record (stored_file n size c) { content = e2 (e1 c); remote = e1 c },
  next
      (next
        (next
          (next
            (next
              (next
                (next
                  (next (next here (write_enters e1 _ (omega arith) refl))
                    (write_enters e2 _ (omega arith) refl))
                  (stores [] (record { edit = e2; stored = false } ∷ []) e1 refl))
                (write_exits [] (record { edit = e2; stored = false } ∷ []) e1 refl))
              (flush_enters _ (omega arith) refl))
            (uploads success (e1 c) refl (λ _. refl)))
          (stores [] [] e2 refl))
        (flush_exits success refl))
      (write_exits [] [] e2 refl),
  refl,
  refl,
  refl,
  refl,
  refl,
)
