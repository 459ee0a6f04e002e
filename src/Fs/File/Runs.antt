-- ===== src/Fs/File/Runs.antt =====
-- Tests of the sections of file.cc, and the theorems at concrete runs.
use s3fuse.Prelude.{◌≡◌, refl, [], ◌∷◌, ◌++◌, inr, false, true, arith}
use s3fuse.Prelude.Code.{success, err, ebusy}
use s3fuse.Fs.File.{
  File, idle, OpenEnv, returns, waits, open_file, release, write_enter, write_exit, flush_enter,
  flush_called, flush_exit,
}
use s3fuse.Fs.File.System.{
  Bytes, absent, sent, System, opens, write_enters, stores, write_exits, flush_enters, uploads,
  flush_exits,
}
use s3fuse.Fs.File.Durable.{IsClosed, Orderly, Serial, here, next, Serial-clean, Serial-flush}
use s3fuse.Fs.File.Race.{Reach, stored_file, lost_update}

abbrev closed_file : File
closed_file = record {
  has_fd = false;
  status = idle;
  async_error = success;
  ref_count = 0;
  size = 2;
  expired = false;
}

abbrev good_env : OpenEnv
good_env = record { mkstemp = success; ftruncate = success; downloadable = success }

abbrev at_rest : System
at_rest = record {
  file = closed_file;
  content = [];
  remote = 7 ∷ 8 ∷ [];
  writers = [];
  flusher = absent;
  downloads = 0;
  same_fd = true;
}

at_rest-IsClosed : IsClosed at_rest
at_rest-IsClosed = record {
  unheld = refl;
  quiet = refl;
  no_writers = refl;
  no_flusher = refl;
  no_local_file = refl;
  no_downloads = refl;
  known_size = refl;
}

abbrev append_nine : Bytes → Bytes
append_nine b = b ++ (9 ∷ [])

-- After open(O_TRUNC), one write and a flush.
abbrev saved : System
saved = record {
  file = record closed_file { has_fd = true; ref_count = 1 };
  content = 9 ∷ [];
  remote = 9 ∷ [];
  writers = [];
  flusher = absent;
  downloads = 0;
  same_fd = true;
}

-- The same, before the flush has seen the code of its upload.
abbrev saving : System
saving = record saved {
  file = record saved.file { status = record idle { uploading = true; dirty = true } };
  flusher = sent success;
}

saving_run : Serial at_rest saving
unfolding open_file write_enter write_exit flush_enter flush_called Orderly
saving_run =
    next
      (next
        (next
          (next
            (next (next here (opens true good_env) (λ _. refl, refl) (omega arith))
              (write_enters append_nine _ (omega arith) refl) tt (omega arith))
            (stores [] [] append_nine refl) tt (omega arith))
          (write_exits [] [] append_nine refl) tt (omega arith))
        (flush_enters _ (omega arith) refl) tt (omega arith))
      (uploads success (9 ∷ []) refl (λ _. refl)) tt (omega arith)

saved_run : Serial at_rest saved
unfolding flush_exit Orderly
saved_run = next saving_run (flush_exits success refl) tt (omega arith)

write_waits :
    write_enter (record closed_file { status = record idle { downloading = true } }) ≡ waits
unfolding write_enter
write_waits = refl

release_busy :
    (release 0 (record closed_file { ref_count = 1; status = record idle { dirty = true } })).0
    ≡ err ebusy
unfolding release
release_busy = refl

Serial-clean_example : ◌≡◌ {A = Bytes} (9 ∷ []) (9 ∷ [])
Serial-clean_example =
    Serial-clean at_rest saved at_rest-IsClosed saved_run (omega arith) refl refl refl

Serial-flush_example : ◌≡◌ {A = Bytes} (9 ∷ []) (9 ∷ [])
Serial-flush_example =
    Serial-flush at_rest saving at_rest-IsClosed saving_run (omega arith) (inr refl)

lost_update_example :
    (t : System) × Reach (stored_file 1 2 (7 ∷ 8 ∷ [])) t
    × (t.writers ≡ [])
    × (t.flusher ≡ absent)
    × (flush_enter t.file ≡ returns success)
    × (t.remote ≡ 7 ∷ 8 ∷ 9 ∷ [])
    × (t.content ≡ 7 ∷ 8 ∷ 9 ∷ 9 ∷ [])
lost_update_example = lost_update 1 2 (7 ∷ 8 ∷ []) append_nine append_nine
