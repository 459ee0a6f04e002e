-- ===== src/Operations/Handles.antt =====
-- The operations of operations.cc on open files: open, truncate, ftruncate, flush, read, write and
-- release.
use s3fuse.Prelude.{ℕ, Bool, ◌==◌, if◌then◌else◌}
use s3fuse.Prelude.Code.{Code, is_failure, success}
use s3fuse.Prelude.Text.{Text}
use s3fuse.Operations.Effect.{
  Op, ◌>>=◌, ◌>>◌, pure, return_on_error, try, on_path, Backend, apply, ctime_now, mtime_now,
}

module _ (b : Backend) where
  open b use {World, Object}

  -- `truncates` is `file_info->flags & O_TRUNC`.
  unfoldable pub open_path : Bool → Text → World → Code × World
  open_path truncates path = on_path path λ p. do
    (c, f) ← b.file_open p truncates
    return_on_error c
    (if truncates
        then (do apply b f ctime_now; apply b f mtime_now; pure success)
        else pure success)

  -- What follows a successful `f->truncate` in `truncate`.
  flush_if : Code → Object → Op World Code
  flush_if r f = if is_failure r then pure r else (do apply b f ctime_now; b.file_flush f)

  -- The body of `truncate`: the handle is released whatever came before, and the code of the release
  -- is dropped.
  unfoldable pub truncate_body : ℕ → Text → Op World Code
  unfolding flush_if
  truncate_body size p = do
    (c, f) ← b.file_open p (size == 0)
    return_on_error c
    r ← b.file_truncate size f
    s ← flush_if r f
    dropped ← b.file_release f
    pure s

  unfoldable pub truncate_path : Text → ℕ → World → Code × World
  truncate_path path size = on_path path (truncate_body size)

  unfoldable pub ftruncate : ℕ → Object → World → Code × World
  ftruncate offset f =
      try (do c ← b.file_truncate offset f; return_on_error c; apply b f ctime_now; pure success)

  pub flush : Object → World → Code × World
  flush f = try (b.file_flush f)

  pub release_handle : Object → World → Code × World
  release_handle f = try (b.file_release f)

  pub read : ℕ → ℕ → Object → World → Code × World
  read size offset f = try (b.file_read size offset f)

  pub write : Text → ℕ → Object → World → Code × World
  write buffer offset f = try (b.file_write buffer offset f)
