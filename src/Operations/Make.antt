-- ===== src/Operations/Make.antt =====
-- The operations of operations.cc that add, move or remove a name: create, mkdir, mknod, symlink,
-- unlink (also rmdir) and rename. Log lines, counters and the sleeps between retries are left out.
use s3fuse.Prelude.{ℕ, zero, suc, Bool, true, false, [], ◌∷◌, Option, some, none, if◌then◌else◌}
use s3fuse.Prelude.Code.{
  Code, err, success, enoent, eexist, eisdir, enotdir, enotempty, eio, is_failure,
}
use s3fuse.Prelude.Text.{Text}
use s3fuse.Operations.Path.{get_parent, assert_valid_path, valid, invalid}
use s3fuse.Operations.Effect.{
  Op, value, leaves, throws, ◌>>=◌, ◌>>◌, pure, return_code, return_on_error, on_path, Backend,
  Context, get_object, apply, invalidate, touch, is_directory, mode, uid, gid, ctime_now, type_bits,
  device_number, target, plain_file, encrypted_file, new_directory, special, symlink,
}

module _ (b : Backend) where
  open b use {World, Object}

  -- `if (cache::get(path)) return -EEXIST;`
  unfoldable pub must_be_new : Text → Op World (Unit {0})
  must_be_new p w = elim (b.cache_get p w) [
    | value none v ↦ value tt v
    | value (some o) v ↦ leaves (err eexist) v
    | leaves c v ↦ leaves c v
    | throws v ↦ throws v
  ]

  -- The loop of `create` around file::open: `k` rounds, with the code of the last one.
  unfoldable pub open_new : ℕ → Text → Code → Op World Code
  open_new zero p r w = value r w
  open_new (suc k) p r w = elim (b.file_open p false w) [
    | value (err enoent, h) v ↦ open_new k p (err enoent) v
    | value (c, h) v ↦ value c v
    | leaves c v ↦ leaves c v
    | throws v ↦ throws v
  ]

  -- The loop of `rename` that waits for the object at its new path.
  unfoldable pub await_object : ℕ → Text → Op World (Option Object)
  await_object zero p w = value none w
  await_object (suc k) p w = elim (b.cache_get p w) [
    | value none v ↦ await_object k p v
    | value (some o) v ↦ value (some o) v
    | leaves c v ↦ leaves c v
    | throws v ↦ throws v
  ]

  unfoldable pub stat_object : Text → Op World Code
  stat_object [] = pure success
  stat_object (c ∷ p) = do o ← get_object b (c ∷ p); b.copy_stat o; pure success

  -- `getattr`, whose result but for the code goes to the caller's buffer. The root needs no object.
  unfoldable pub getattr : Text → World → Code × World
  unfolding stat_object
  getattr path = on_path path stat_object

  -- The loop of strict_check, which stats the path until that succeeds.
  unfoldable pub check_rounds : ℕ → Text → World → World
  unfolding getattr
  check_rounds zero path w = w
  check_rounds (suc k) path w =
      let (c, v) = getattr path w in
      let again = check_rounds k path v in if is_failure c then again else v

  unfoldable pub strict_check : Bool → Text → Op World (Unit {0})
  unfolding check_rounds
  strict_check is_iijgio path w = value tt (if is_iijgio then check_rounds 3 path w else w)

  -- The checks of `rename` on an object that is already at the new path: is it a directory, and is
  -- the object to rename?
  unfoldable pub may_replace : Bool → Bool → Object → Op World (Unit {0})
  may_replace true true to w = elim (b.is_empty to w) [
    | value e v ↦ if e then value tt v else leaves (err enotempty) v
    | leaves c v ↦ leaves c v
    | throws v ↦ throws v
  ]
  may_replace true false to w = leaves (err eisdir) w
  may_replace false true to w = leaves (err enotdir) w
  may_replace false false to w = value tt w

  unfoldable pub replace_target : Object → Option Object → Op World (Unit {0})
  unfolding may_replace
  replace_target from none = pure tt
  replace_target from (some to) = do
    (λ w. may_replace (is_directory (b.get_type to w)) (is_directory (b.get_type from w)) to w)
    r ← b.remove to
    return_on_error r

  -- The end of `rename`.
  unfoldable pub stamp : Option Object → Op World Code
  stamp none = return_code (err eio)
  stamp (some o) = do apply b o ctime_now; b.commit o

module _ (b : Backend) (ctx : Context) where
  open b use {World, Object}

  unfoldable pub mkdir : Text → ℕ → World → Code × World
  mkdir path m = on_path path λ p. do
    must_be_new b p
    invalidate b (get_parent p)
    d ← b.make new_directory p
    apply b d (mode m)
    apply b d (uid ctx.caller_uid)
    apply b d (gid ctx.caller_gid)
    c ← b.commit d
    return_on_error c
    t ← touch b (get_parent p)
    strict_check b ctx.is_iijgio path
    pure t

  unfoldable pub create : Bool → Text → ℕ → World → Code × World
  create encrypt path m = on_path path λ p. do
    must_be_new b p
    invalidate b (get_parent p)
    f ← b.make (if encrypt then encrypted_file else plain_file) p
    apply b f (mode m)
    apply b f (uid ctx.caller_uid)
    apply b f (gid ctx.caller_gid)
    c ← b.commit f
    return_on_error c
    t ← touch b (get_parent p)
    return_on_error t
    open_new b ctx.max_inconsistent_state_retries p success

  unfoldable pub mknod : Text → ℕ → ℕ → World → Code × World
  mknod path m dev = on_path path λ p. do
    must_be_new b p
    invalidate b (get_parent p)
    o ← b.make special p
    apply b o (type_bits m)
    apply b o (device_number dev)
    apply b o (mode m)
    apply b o (uid ctx.caller_uid)
    apply b o (gid ctx.caller_gid)
    c ← b.commit o
    return_on_error c
    touch b (get_parent p)

  unfoldable pub make_symlink : Text → Text → World → Code × World
  make_symlink to path = on_path path λ p. do
    must_be_new b p
    invalidate b (get_parent p)
    o ← b.make symlink p
    apply b o (uid ctx.caller_uid)
    apply b o (gid ctx.caller_gid)
    apply b o (target to)
    c ← b.commit o
    return_on_error c
    touch b (get_parent p)

  -- The body of `rename`, on the two paths without their slashes.
  unfoldable pub rename_body : Text → Text → Op World Code
  rename_body from to = do
    from_obj ← get_object b from
    to_obj ← b.cache_get to
    invalidate b (get_parent from)
    invalidate b (get_parent to)
    replace_target b from_obj to_obj
    r ← b.rename from_obj to
    return_on_error r
    found ← await_object b ctx.max_inconsistent_state_retries to
    stamp b found

  -- Both paths are checked, the old one first.
  unfoldable pub rename : Text → Text → World → Code × World
  rename from to w = elim (assert_valid_path from) [
    | invalid e ↦ (err e, w)
    | valid f ↦ on_path to (rename_body f) w
  ]

module _ (b : Backend) where
  open b use {World}

  -- `unlink`, which is also `rmdir`.
  unfoldable pub unlink : Text → World → Code × World
  unlink path = on_path path λ p. do
    o ← get_object b p
    invalidate b (get_parent p)
    r ← b.remove o
    return_on_error r
    touch b (get_parent p)
