-- ===== src/Fs/File.antt =====
-- fs/file.cc: the state of an open file and the sections of its methods that run under _fs_mutex.
-- `write`, `truncate`, `flush` and `read` give the mutex up for their I/O: each is an `_enter`
-- before it and an `_exit` after it. System calls enter by their results.
pub mod System
pub mod Durable
pub mod Race
mod Runs
use s3fuse.Prelude.{
  ℕ, suc, ◌+◌, ◌-◌, ◌*◌, ◌^◌, Bool, true, false, ◌&&◌, ◌||◌, not, ltb, ◌==◌, if◌then◌else◌,
}
use s3fuse.Prelude.Code.{Code, ret, err, success, is_failure, einval, ebusy}

-- The bits of `_status`.
pub record Status : Type 0 where
  pub downloading : Bool
  pub uploading : Bool
  pub writing : Bool
  pub dirty : Bool

abbrev pub idle : Status
idle = record { downloading = false; uploading = false; writing = false; dirty = false }

-- `_status == 0`
abbrev pub is_idle : Status → Bool
is_idle s = not (s.downloading || s.uploading || s.writing || s.dirty)

-- `_status == FS_DOWNLOADING`
abbrev pub only_downloading : Status → Bool
only_downloading s = s.downloading && not (s.uploading || s.writing || s.dirty)

-- `has_fd` is `_fd != -1`, `size` is `get_stat()->st_size`, `expired` is `_expiry == 0`.
pub record File : Type 0 where
  pub has_fd : Bool
  pub status : Status
  pub async_error : Code
  pub ref_count : ℕ
  pub size : ℕ
  pub expired : Bool

-- A section under the mutex waits on `_condition`, returns from the method, or goes on.
pub data Entry : Type 0 where
  waits : Entry
  returns : Code → Entry
  enters : File → Entry

-- What `open` meets: the results of mkstemp, ftruncate and is_downloadable.
pub record OpenEnv : Type 0 where
  pub mkstemp : Code
  pub ftruncate : Code
  pub downloadable : Code

-- The code, the file, and whether a download was posted.
pub record Opened : Type 0 where
  pub code : Code
  pub file : File
  pub posts : Bool

hold : File → File
hold f = record f { ref_count = suc f.ref_count }

refuse : Code → File → Opened
refuse c f = record { code = c; file = f; posts = false }

grant : Bool → File → Opened
unfolding hold
grant posts f = record { code = success; file = hold f; posts = posts }

-- The branch of `open` for a file that nobody holds, once mkstemp has succeeded.
open_first : Bool → OpenEnv → File → Opened
unfolding refuse grant
open_first truncate_to_zero env f =
    if truncate_to_zero
    then grant false (if f.size == 0 then f else record f { status = record idle { dirty = true } })
    else if is_failure env.ftruncate
    then refuse env.ftruncate f
    else if f.size == 0
    then grant false f
    else if is_failure env.downloadable
    then refuse env.downloadable f
    else grant true (record f { status = record idle { downloading = true } })

pub open_file : Bool → OpenEnv → File → Opened
unfolding open_first
open_file truncate_to_zero env f =
    if f.ref_count == 0
    then if is_failure env.mkstemp
      then refuse env.mkstemp (record f { has_fd = false })
      else open_first truncate_to_zero env (record f { has_fd = true })
    else grant false f

pub on_download_complete : Code → File → File
on_download_complete r f =
    if only_downloading f.status then record f { async_error = r; status = idle } else f

-- `release`; `local_size` is what fstat says of the local file.
pub release : ℕ → File → Code × File
release local_size f =
    if f.ref_count == 0
    then (err einval, f)
    else let g = record f { ref_count = f.ref_count - 1 } in
      if g.ref_count == 0
      then if not (is_idle g.status) then (err ebusy, g) else (
        success,
        record g { size = if g.has_fd then local_size else g.size; has_fd = false; expired = true },
      )
      else (success, g)

pub write_enter : File → Entry
write_enter f =
    if f.status.downloading || f.status.uploading
    then waits
    else if is_failure f.async_error
    then returns f.async_error
    else enters (record f { status = record f.status { dirty = true; writing = true } })

pub write_exit : File → File
write_exit f = record f { status = record f.status { writing = false } }

abbrev pub truncate_limit : ℕ
truncate_limit = 4 * 1024 * 1024 * 1024

pub truncate_enter : ℕ → File → Entry
unfolding write_enter
truncate_enter length f = if ltb truncate_limit length then returns (err einval) else write_enter f

pub read_enter : File → Entry
read_enter f =
    if f.status.downloading
    then waits
    else if is_failure f.async_error
    then returns f.async_error
    else enters f

pub flush_enter : File → Entry
flush_enter f =
    if f.status.downloading || f.status.uploading || f.status.writing
    then waits
    else if is_failure f.async_error
    then returns f.async_error
    else if not f.status.dirty
    then returns success
    else enters (record f { status = record f.status { uploading = true } })

-- The assignment of what the upload has returned, which `flush` makes before it takes the mutex again.
pub flush_called : Code → File → File
flush_called r f = record f { async_error = r }

pub flush_exit : File → File
flush_exit f = record f { status = idle }

-- update_stat
pub update_stat : ℕ → File → File
update_stat local_size f = if f.has_fd then record f { size = local_size } else f

pub is_removable : File → Bool
is_removable f = f.ref_count == 0
