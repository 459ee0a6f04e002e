-- ===== src/Fs/Object/Metadata/Laws.antt =====
-- What the calls on extended attributes promise one another.
use s3fuse.Prelude.{
  ℕ, ◌≡◌, ◌≤◌, refl, sym, subst, ap, ◌∙◌, true, [], ◌∷◌, Option, none, some, arith, length,
}
use s3fuse.Prelude.Code.{ret}
use s3fuse.Prelude.Text.{Text, same, same_iff, same_refl}
use s3fuse.Fs.Object.Xattr.{Xattr, set_value, get_value, create_xattr, starts_with}
use s3fuse.Fs.Object.Xattr.RoundTrip.{get_value-set_value}
use s3fuse.Fs.Object.Metadata.{
  XattrMap, user_flags, find, put, user_key, user_prefix, Flags, Changed, assign, set_with,
  set_metadata, get_metadata,
}

find-put : (key : Text) (x : Xattr) (m : XattrMap) → find key (put key x m) ≡ some x
unfolding find put
find-put key x [] = ground (arith, same_refl key)
find-put key x ((k, y) ∷ m) = ground (arith, find-put key x m, same_iff k key)

assign-needs_commit :
    (uk value : Text) (x : Xattr) (m : XattrMap)
    → (assign uk value x m).needs_commit ≡ true
    → find uk (assign uk value x m).metadata ≡ some (set_value value x)
unfolding assign
assign-needs_commit uk value x m h = ground (arith, find-put uk (set_value value x) m)

-- The attribute that a call of set_metadata has assigned to.
abbrev Assigned : Text → Text → XattrMap → Type 0
Assigned uk value m = (x : Xattr) × (find uk m ≡ some (set_value value x))

set_with-needs_commit :
    (key uk value : Text) (flags : Flags) (m : XattrMap)
    → (set_with key uk value flags m).needs_commit ≡ true
    → Assigned uk value (set_with key uk value flags m).metadata
unfolding set_with
set_with-needs_commit key uk value flags m h = picked (find uk m) refl
  where
    picked :
        (o : Option Xattr)
        → find uk m ≡ o
        → Assigned uk value (set_with key uk value flags m).metadata
    picked none e = (
      create_xattr uk user_flags,
      ground (arith, assign-needs_commit uk value (create_xattr uk user_flags) m),
    )
    picked (some x) e = (x, ground (arith, assign-needs_commit uk value x m))

set_with-prefix :
    (key uk value : Text) (flags : Flags) (m : XattrMap)
    → (set_with key uk value flags m).needs_commit ≡ true
    → starts_with user_prefix key ≡ true
unfolding set_with
set_with-prefix key uk value flags m h = ground arith

get_metadata-found :
    (key uk : Text) (size : Option ℕ) (x : Xattr) (m : XattrMap)
    → user_key key ≡ some uk
    → starts_with user_prefix key ≡ true
    → find uk m ≡ some x
    → get_metadata key size m ≡ some (get_value size x)
unfolding get_metadata
get_metadata-found key uk size x m h p e = rw (h, p, e, get_metadata)

-- A value that set_metadata has stored, with a commit asked for, is what get_metadata returns, into
-- any buffer that is large enough.
pub get_metadata-set_metadata :
    (key value : Text) (flags : Flags) (m : XattrMap) (c : Changed) (size : ℕ)
    → set_metadata key value flags m ≡ some c
    → c.needs_commit ≡ true
    → length value ≤ size
    → get_metadata key (some size) c.metadata ≡ some (ret (length value), value)
unfolding set_metadata
get_metadata-set_metadata key value flags m c size h n fits = split (user_key key) refl
  where
    stored :
        (uk : Text)
        → user_key key ≡ some uk
        → set_with key uk value flags m ≡ c
        → get_metadata key (some size) c.metadata ≡ some (ret (length value), value)
    stored uk e same =
        let (x, f) =
          set_with-needs_commit key uk value flags m
            (subst (λ d. d.needs_commit ≡ true) (sym same) n) in
        get_metadata-found key uk (some size) (set_value value x) c.metadata e
          (set_with-prefix key uk value flags m (subst (λ d. d.needs_commit ≡ true) (sym same) n))
          (subst (λ d. find uk d.metadata ≡ some (set_value value x)) same f)
        ∙ ap some (get_value-set_value value x size fits)

    split :
        (o : Option Text)
        → user_key key ≡ o
        → get_metadata key (some size) c.metadata ≡ some (ret (length value), value)
    split none e = ground arith
    split (some uk) e = stored uk e (ground arith)
