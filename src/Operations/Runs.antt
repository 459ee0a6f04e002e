-- ===== src/Operations/Runs.antt =====
-- The operations on a small backend.
use s3fuse.Prelude.{
  ℕ, suc, ◌-◌, ◌^◌, ◌≡◌, ◌≢◌, refl, true, false, [], ◌∷◌, Option, some, none, ◌==◌, if◌then◌else◌,
  arith,
}
use s3fuse.Prelude.Code.{Code, err, success, einval, eperm}
use s3fuse.Prelude.Text.{Text, codes}
use s3fuse.Operations.Path.{
  assert_valid_path, valid, invalid, get_parent, split_last, get_parent-append, IsPath,
}
use s3fuse.Operations.Effect.{
  Ends, value, leaves, try, on_path, Backend, Context, Kind, regular, directory, mode, uid,
  ctime_now, touch,
}
use s3fuse.Operations.Modify.{chmod, chown, set_unless}
use s3fuse.Operations.Make.{mkdir, must_be_new, strict_check}
use s3fuse.Operations.Permission.{MayChange, chmod-permitted, chown-permitted}

-- The world counts the changes. A path of one character is a file, a longer one a directory; the
-- file is empty of nothing and belongs to user 5.
abbrev lookup_at : Text → ℕ → Ends ℕ (Option ℕ)
lookup_at [] w = value none w
lookup_at (c ∷ []) w = value (some 1) w
lookup_at (c ∷ d ∷ s) w = value (some 2) w

abbrev change : ℕ → Ends ℕ Code
change w = value success (suc w)

abbrev opened : ℕ → Ends ℕ (Code × ℕ)
opened w = value (success, 1) (suc w)

abbrev kind_of : ℕ → Kind
kind_of o = if o == 1 then regular else directory

abbrev small : Backend
small = record {
  World = ℕ;
  Object = ℕ;
  cache_get = lookup_at;
  cache_remove = λ p w. suc w;
  get_type = λ o w. kind_of o;
  get_uid = λ o w. 5;
  set = λ o c w. suc w;
  commit = λ o. change;
  remove = λ o. change;
  rename = λ o p. change;
  copy_stat = λ o w. value tt w;
  is_empty = λ o w. value true w;
  make = λ c p w. value 3 (suc w);
  file_open = λ p t. opened;
  file_truncate = λ n o. change;
  file_flush = λ o. change;
  file_release = λ o. change;
  file_read = λ n m o. change;
  file_write = λ t n o. change;
  read_directory = λ o. change;
  read_link = λ o w. value (success, []) w;
  set_metadata = λ n t f o w. value (success, true) (suc w);
  get_metadata = λ n m o. change;
  remove_metadata = λ n o. change;
}

abbrev owner : Context
owner = record {
  caller_uid = 5;
  caller_gid = 9;
  max_inconsistent_state_retries = 2;
  encrypts_new_files = false;
  is_iijgio = false;
}

no_slash : assert_valid_path (codes "a") ≡ invalid einval
unfolding assert_valid_path
no_slash = refl

plain_path : assert_valid_path (codes "/a") ≡ valid (codes "a")
unfolding assert_valid_path split_last
plain_path = refl

long_path : assert_valid_path (codes "/dir") ≡ valid (codes "dir")
unfolding assert_valid_path split_last
long_path = refl

get_parent-append_example : (get_parent (codes "d/f") ≡ codes "d") × (get_parent (codes "f") ≡ [])
get_parent-append_example = get_parent-append (codes "d") (codes "f") (omega arith)

-- The look-up ends with an answer.
answers : (p : Text) (c : Code) (w : ℕ) → lookup_at p 0 ≢ leaves c w
answers [] c w e = ground arith
answers (x ∷ []) c w e = ground arith
answers (x ∷ y ∷ p) c w e = ground arith

chmod_run : chmod small owner (codes "/a") 7 0 ≡ (success, 2)
unfolding chmod on_path assert_valid_path split_last
chmod_run = refl

chown_run : chown small owner (codes "/a") 7 (2 ^ 32 - 1) 0 ≡ (success, 3)
unfolding chown on_path assert_valid_path split_last set_unless
chown_run = refl

-- The same by another user.
stranger : (chmod small (record owner { caller_uid = 9 }) (codes "/a") 7 0).0 ≡ err eperm
unfolding chmod on_path assert_valid_path split_last
stranger = refl

makes : mkdir small owner (codes "/") 7 0 ≡ (success, 5)
unfolding mkdir on_path assert_valid_path split_last must_be_new get_parent touch strict_check
makes = refl

chmod-permitted_example :
    (p : Text) × (o : ℕ) × (found : ℕ) × IsPath (codes "/a") p
    × MayChange small owner p 0 o found
    × (try (small.commit o) (small.set o (mode 7) found) ≡ (success, 2))
chmod-permitted_example = chmod-permitted small owner (codes "/a") 7 0 2 answers chmod_run

chown-permitted_example :
    (p : Text) × (o : ℕ) × (found : ℕ) × IsPath (codes "/a") p
    × MayChange small owner p 0 o found
    × (try (small.commit o) (small.set o ctime_now (small.set o (uid 7) found)) ≡ (success, 3))
chown-permitted_example =
    chown-permitted small owner (codes "/a") 7 (2 ^ 32 - 1) 0 3 answers chown_run
