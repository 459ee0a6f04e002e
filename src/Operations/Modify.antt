-- ===== src/Operations/Modify.antt =====
-- The operations of operations.cc on an object that is there: chmod, chown, utimens, the extended
-- attributes, readdir and readlink. Log lines and counters are left out.
use s3fuse.Prelude.{ℕ, Bool, ◌^◌, ◌-◌, ◌==◌, if◌then◌else◌}
use s3fuse.Prelude.Code.{Code, err, einval, success}
use s3fuse.Prelude.Text.{Text}
use s3fuse.Operations.Effect.{
  Op, value, ◌>>=◌, ◌>>◌, pure, return_code, return_on_error, on_path, Backend, Context, get_object,
  check_owner, apply, is_directory, mode, uid, gid, mtime, ctime_now,
}

-- (uid_t) -1 and (gid_t) -1: leave the owner or the group alone.
abbrev pub unchanged_id : ℕ
unchanged_id = 2 ^ 32 - 1

module _ (b : Backend) (ctx : Context) where
  open b use {World, Object}

  unfoldable pub chmod : Text → ℕ → World → Code × World
  chmod path m =
      on_path path
        λ p. do o ← get_object b p; check_owner b ctx.caller_uid o; apply b o (mode m); b.commit o

  -- The setter runs unless the id is -1.
  unfoldable pub set_unless : Bool → Op World (Unit {0}) → Op World (Unit {0})
  set_unless skip setter = if skip then pure tt else setter

  unfoldable pub chown : Text → ℕ → ℕ → World → Code × World
  unfolding set_unless
  chown path u g = on_path path λ p. do
    o ← get_object b p
    check_owner b ctx.caller_uid o
    set_unless (u == unchanged_id) (apply b o (uid u))
    set_unless (g == unchanged_id) (apply b o (gid g))
    apply b o ctime_now
    b.commit o

module _ (b : Backend) where
  open b use {World, Object}

  unfoldable pub utimens : Text → ℕ → World → Code × World
  utimens path seconds =
      on_path path λ p. do o ← get_object b p; apply b o (mtime seconds); b.commit o

  unfoldable pub removexattr : Text → Text → World → Code × World
  removexattr path name =
      on_path path
        λ p. do o ← get_object b p; r ← b.remove_metadata name o; return_on_error r; b.commit o

  unfoldable pub setxattr : Text → Text → Text → ℕ → World → Code × World
  setxattr path name attr flags = on_path path λ p. do
    o ← get_object b p
    (r, needs_commit) ← b.set_metadata name attr flags o
    return_on_error r
    (if needs_commit then b.commit o else pure success)

  unfoldable pub getxattr : Text → Text → ℕ → World → Code × World
  getxattr path name max_size =
      on_path path λ p. do o ← get_object b p; b.get_metadata name max_size o

  -- GET_OBJECT_AS(directory, S_IFDIR)
  unfoldable pub readdir : Text → World → Code × World
  readdir path = on_path path λ p. do
    o ← get_object b p
    is_dir ← λ w. value (is_directory (b.get_type o w)) w
    (if is_dir then b.read_directory o else return_code (err einval))
