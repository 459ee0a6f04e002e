-- ===== src/Operations/Path.antt =====
-- The macro ASSERT_VALID_PATH and get_parent of operations.cc.
use s3fuse.Prelude.{
  ℕ, ◌≤◌, ◌≡◌, refl, sym, ap, ◌∙◌, subst, length-append, ◌&&◌, not, [], ◌∷◌, ◌++◌, Option, none,
  some, arith, ltb, ◌==◌, if◌then◌else◌, length, get_or, All, ◌≢◌,
}
use s3fuse.Prelude.Code.{Errno, einval, enametoolong}
use s3fuse.Prelude.Text.{Text}

abbrev pub slash : ℕ
slash = 47

-- NAME_MAX
abbrev pub name_max : ℕ
name_max = 255

-- rfind('/'): what stands before and after the last slash.
unfoldable pub split_last : Text → Option (Text × Text)
split_last [] = none
split_last (c ∷ s) = elim (split_last s) [
  | some (dir, name) ↦ some (c ∷ dir, name)
  | none ↦ if c == slash then some ([], s) else none
]

unfoldable pub get_parent : Text → Text
get_parent path = elim (split_last path) [ none ↦ [] | some (dir, name) ↦ dir ]

-- strrchr finds a slash, since the first test has passed.
last_component : Text → Text
last_component path = elim (split_last path) [ none ↦ [] | some (dir, name) ↦ name ]

pub data Checked : Type 0 where
  valid : Text → Checked
  invalid : Errno → Checked

-- The path without its leading slash, or the code to return.
unfoldable pub assert_valid_path : Text → Checked
unfolding last_component
assert_valid_path [] = invalid einval
assert_valid_path (c ∷ rest) =
    if not (c == slash)
    then invalid einval
    else if ltb 1 (length (c ∷ rest)) && get_or (c ∷ rest) (length rest) 0 == slash
    then invalid einval
    else if ltb name_max (length (last_component (c ∷ rest)))
    then invalid enametoolong
    else valid rest

abbrev pub NoSlash : Text → Type 0
NoSlash = All (λ c. c ≢ slash)

split_last-name : (name : Text) → NoSlash name → split_last name ≡ none
unfolding split_last
split_last-name [] h = refl
split_last-name (c ∷ s) (hc, h) = rw (split_last-name s h) (ground arith)

split_last-append :
    (dir name : Text) → NoSlash name → split_last (dir ++ (slash ∷ name)) ≡ some (dir, name)
unfolding split_last
split_last-append [] name h = rw (split_last-name name h)
split_last-append (c ∷ dir) name h = rw (split_last-append dir name h)

-- The parent of a name in a directory is the directory, and that of a name in the root is the root.
pub get_parent-append :
    (dir name : Text)
    → NoSlash name
    → (get_parent (dir ++ (slash ∷ name)) ≡ dir) × (get_parent name ≡ [])
unfolding get_parent
get_parent-append dir name h =
    (rw (split_last-append dir name h, get_parent), rw (split_last-name name h, get_parent))

-- A path with a slash before it and none behind it, but for the root's, whose last name has at most
-- 255 characters.
abbrev pub IsPath : Text → Text → Type 0
IsPath path p =
    (path ≡ slash ∷ p)
    × ((dir name : Text)
        → path ≡ dir ++ (slash ∷ name)
        → NoSlash name
        → (length name ≤ 255) × (name ≡ [] → p ≡ []))

get_or-last : (dir : Text) (c d : ℕ) → get_or (dir ++ (c ∷ [])) (length dir) d ≡ c
get_or-last [] c d = refl
get_or-last (x ∷ dir) c d = get_or-last dir c d

last_component-append :
    (path dir name : Text)
    → path ≡ dir ++ (slash ∷ name)
    → NoSlash name
    → last_component path ≡ name
unfolding last_component
last_component-append path dir name e h = rw (e, last_component, split_last-append dir name h) refl

trailing-slash :
    (c : ℕ) (rest dir : Text)
    → c ∷ rest ≡ dir ++ (slash ∷ [])
    → get_or (c ∷ rest) (length rest) 0 ≡ slash
trailing-slash c rest dir e =
    let same_length : length rest ≡ length dir =
      omega (arith, ap length e, length-append dir (slash ∷ [])) in
    ap (λ n. get_or (c ∷ rest) n 0) same_length
    ∙ ap (λ s. get_or s (length dir) 0) e
    ∙ get_or-last dir slash 0

assert_valid_path-rest :
    (c : ℕ) (rest p : Text)
    → assert_valid_path (c ∷ rest) ≡ valid p
    → (c ≡ slash)
      × (rest ≡ p)
      × (get_or (c ∷ rest) (length rest) 0 ≡ slash → length rest ≡ 0)
      × (length (last_component (c ∷ rest)) ≤ 255)
unfolding assert_valid_path
assert_valid_path-rest c rest p h = ground arith

pub assert_valid_path-IsPath : (path p : Text) → assert_valid_path path ≡ valid p → IsPath path p
unfolding assert_valid_path
assert_valid_path-IsPath [] p h = absurd (ground arith)
assert_valid_path-IsPath (c ∷ rest) p h =
    let (first, same_rest, no_trailing, short) = assert_valid_path-rest c rest p h in
    (
      ap (λ x. x ∷ rest) first ∙ ap (λ s. slash ∷ s) same_rest,
      λ dir name e no_slash. (
        subst (λ s. length s ≤ 255) (last_component-append (c ∷ rest) dir name e no_slash) short,
        λ empty.
            sym same_rest
            ∙ no_text rest
                (no_trailing (trailing-slash c rest dir (e ∙ ap (λ s. dir ++ (slash ∷ s)) empty))),
      ),
    )
  where
    no_text : (s : Text) → length s ≡ 0 → s ≡ []
    no_text [] z = refl
    no_text (x ∷ s) z = absurd (omega arith)
