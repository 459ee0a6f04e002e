-- ===== src/Operations/Permission.antt =====
-- Whom chmod and chown of operations.cc serve, and for which paths.
use s3fuse.Prelude.{
  ℕ, ◌-◌, ◌^◌, ◌≡◌, ◌≢◌, ◌⊎◌, inl, inr, refl, sym, ap, ◌∙◌, Bool, true, false, Option, none, some,
  arith, ◌==◌, if◌then◌else◌,
}
use s3fuse.Prelude.Code.{Code, Errno, err, success, eperm, enoent, ecanceled}
use s3fuse.Prelude.Text.{Text}
use s3fuse.Operations.Path.{
  Checked, valid, invalid, assert_valid_path, IsPath, assert_valid_path-IsPath,
}
use s3fuse.Operations.Effect.{
  Ends, value, leaves, throws, Op, ◌>>=◌, ◌>>◌, try, on_path, Backend, Context, get_object,
  check_owner, apply, Change, mode, uid, gid, ctime_now,
}
use s3fuse.Operations.Modify.{unchanged_id, chmod, chown, set_unless}

on_path-success :
    {W : Type 0} (path : Text) (body : Text → Op W Code) (w v : W)
    → on_path path body w ≡ (success, v)
    → (p : Text) × IsPath path p × (try (body p) w ≡ (success, v))
unfolding on_path
on_path-success path body w v h = split (assert_valid_path path) refl
  where
    split :
        (c : Checked)
        → assert_valid_path path ≡ c
        → (p : Text) × IsPath path p × (try (body p) w ≡ (success, v))
    split (valid p) e = (p, assert_valid_path-IsPath path p e, rw (e, on_path) at h)
    split (invalid x) e = absurd (ground arith)

-- A body whose first step returns from the operation or throws, and one whose first step goes on.
try-leaves :
    {W A : Type 0} (m : Op W A) (k : A → Op W Code) (w v : W) (c : Code)
    → m w ≡ leaves c v
    → try (m >>= k) w ≡ (c, v)
try-leaves m k w v c h = ground arith

try-throws :
    {W A : Type 0} (m : Op W A) (k : A → Op W Code) (w v : W)
    → m w ≡ throws v
    → try (m >>= k) w ≡ (err ecanceled, v)
try-throws m k w v h = ground arith

try-value :
    {W A : Type 0} (m : Op W A) (k : A → Op W Code) (w v : W) (a : A)
    → m w ≡ value a v
    → try (m >>= k) w ≡ try (k a) v
try-value m k w v a h = ground arith

not_ok : {e : Errno} → err e ≡ success → ⊥
not_ok h = ground arith

module _ (b : Backend) (ctx : Context) where
  open b use {World, Object}

  -- The cache has an object under the path, and the caller is root or owns it.
  abbrev pub MayChange : Text → World → Object → World → Type 0
  MayChange p w o v =
      (b.cache_get p w ≡ value (some o) v)
      × ((ctx.caller_uid ≡ 0) ⊎ (ctx.caller_uid ≡ b.get_uid o v))

  owner-success :
      (o : Object) (m : Op World Code) (w v : World)
      → try (check_owner b ctx.caller_uid o >> m) w ≡ (success, v)
      → ((ctx.caller_uid ≡ 0) ⊎ (ctx.caller_uid ≡ b.get_uid o w)) × (try m w ≡ (success, v))
  owner-success o m w v h = by_root (ctx.caller_uid == 0) refl
    where
      by_owner :
          (ctx.caller_uid == 0) ≡ false
          → (t : Bool) → (ctx.caller_uid == b.get_uid o w) ≡ t
          → ((ctx.caller_uid ≡ 0) ⊎ (ctx.caller_uid ≡ b.get_uid o w)) × (try m w ≡ (success, v))
      by_owner e true g = (
        inr (ground (arith, g)),
        sym (try-value (check_owner b ctx.caller_uid o) (λ _. m) w w tt (rw (e, g))) ∙ h,
      )
      by_owner e false g = absurd (
          not_ok (
            ap (λ q. q.0)
              (sym
                  (try-leaves (check_owner b ctx.caller_uid o) (λ _. m) w w (err eperm) (rw (e, g)))
                ∙ h)))

      by_root :
          (t : Bool)
          → (ctx.caller_uid == 0) ≡ t
          → ((ctx.caller_uid ≡ 0) ⊎ (ctx.caller_uid ≡ b.get_uid o w)) × (try m w ≡ (success, v))
      by_root true e = (
        inl (ground (arith, e)),
        sym (try-value (check_owner b ctx.caller_uid o) (λ _. m) w w tt (rw e)) ∙ h,
      )
      by_root false e = by_owner e (ctx.caller_uid == b.get_uid o w) refl

  try-owner :
      (p : Text) (k : Object → Op World Code) (w v : World)
      → ((c : Code) (x : World) → b.cache_get p w ≢ leaves c x)
      → try (get_object b p >>= λ o. check_owner b ctx.caller_uid o >> k o) w ≡ (success, v)
      → (o : Object) × (found : World) × MayChange p w o found × (try (k o) found ≡ (success, v))
  try-owner p k w v total h = split (b.cache_get p w) refl
    where
      split :
          (e : Ends World (Option Object))
          → b.cache_get p w ≡ e
          → (o : Object) × (found : World) × MayChange p w o found
            × (try (k o) found ≡ (success, v))
      split (value none x) e = absurd (
          not_ok (
            ap (λ q. q.0)
              (sym (
                  try-leaves (get_object b p) (λ o. check_owner b ctx.caller_uid o >> k o) w x
                    (err enoent) (ground arith))
                ∙ h)))
      split (value (some o) x) e =
          let (who, rest) = owner-success o (k o) x v (
            sym (
              try-value (get_object b p) (λ o. check_owner b ctx.caller_uid o >> k o) w x o
                (ground arith))
            ∙ h) in
          (o, x, (e, who), rest)
      split (leaves c x) e = absurd (total c x e)
      split (throws x) e = absurd (
          not_ok (
            ap (λ q. q.0)
              (sym (
                  try-throws (get_object b p) (λ o. check_owner b ctx.caller_uid o >> k o) w x
                    (ground arith))
                ∙ h)))

  set_unless-value :
      (skip : Bool) (o : Object) (c : Change) (w : World)
      → set_unless b ctx skip (apply b o c) w ≡ value tt (if skip then w else b.set o c w)
  unfolding set_unless
  set_unless-value true o c w = refl
  set_unless-value false o c w = refl

  -- If the look-up in the cache ends with an answer or an exception, and chmod returns 0, then the path
  -- begins with a slash and, but for the root's, does not end in one, its last name has at most 255
  -- characters, the cache has an object there, the caller is root or the object's owner, and the world is
  -- that after the object has been committed with code 0 with the mode set.
  pub chmod-permitted :
      (path : Text) (m : ℕ) (w v : World)
      → ((p : Text) (c : Code) (x : World) → b.cache_get p w ≢ leaves c x)
      → chmod b ctx path m w ≡ (success, v)
      → (p : Text) × (o : Object) × (found : World) × IsPath path p
        × MayChange p w o found
        × (try (b.commit o) (b.set o (mode m) found) ≡ (success, v))
  unfolding chmod
  chmod-permitted path m w v total h =
      let (p, is_path, body) = on_path-success path _ w v h in
      let (o, found, may, rest) =
        try-owner p (λ o. apply b o (mode m) >> b.commit o) w v (total p) body in
      (p, o, found, is_path, may, rest)

  changes : ℕ → ℕ → Object → Op World Code
  changes u g o =
      set_unless b ctx (u == unchanged_id) (apply b o (uid u))
      >> (set_unless b ctx (g == unchanged_id) (apply b o (gid g))
          >> (apply b o ctime_now >> b.commit o))

  steps :
      (u g : ℕ) (o : Object) (found v : World)
      → try (changes u g o) found ≡ (success, v)
      → let owned = if u == 2 ^ 32 - 1 then found else b.set o (uid u) found in
        let grouped = if g == 2 ^ 32 - 1 then owned else b.set o (gid g) owned in
        try (b.commit o) (b.set o ctime_now grouped) ≡ (success, v)
  unfolding changes
  steps u g o found v h =
      let owned = if u == 2 ^ 32 - 1 then found else b.set o (uid u) found in
      sym (
        try-value (set_unless b ctx (u == unchanged_id) (apply b o (uid u))) _ found owned tt
          (set_unless-value (u == unchanged_id) o (uid u) found)
        ∙ try-value (set_unless b ctx (g == unchanged_id) (apply b o (gid g))) _ owned _ tt
            (set_unless-value (g == unchanged_id) o (gid g) owned))
      ∙ h

  -- If the look-up in the cache ends with an answer or an exception, and chown returns 0, then the path
  -- begins with a slash and, but for the root's, does not end in one, its last name has at most 255
  -- characters, the cache has an object there, the caller is root or the object's owner, and the world is
  -- that after the object has been committed with code 0 with the owner and the group set, each unless it is
  -- 2 ^ 32 - 1, and the change time set.
  pub chown-permitted :
      (path : Text) (u g : ℕ) (w v : World)
      → ((p : Text) (c : Code) (x : World) → b.cache_get p w ≢ leaves c x)
      → chown b ctx path u g w ≡ (success, v)
      → (p : Text) × (o : Object) × (found : World) × IsPath path p
        × MayChange p w o found
        × (let owned = if u == 2 ^ 32 - 1 then found else b.set o (uid u) found in
            let grouped = if g == 2 ^ 32 - 1 then owned else b.set o (gid g) owned in
            try (b.commit o) (b.set o ctime_now grouped) ≡ (success, v))
  unfolding chown changes
  chown-permitted path u g w v total h =
      let (p, is_path, body) = on_path-success path _ w v h in
      let (o, found, may, rest) = try-owner p (changes u g) w v (total p) body in
      (p, o, found, is_path, may, steps u g o found v rest)
