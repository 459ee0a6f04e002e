-- ===== src/Base/Lru/Rows.antt =====
-- The entries that a list of items has in a doubly linked list: what std::map must hold under each key.
use s3fuse.Prelude.{
  ◌≡◌, refl, Bool, true, false, List, [], ◌∷◌, ◌++◌, Option, none, some, if◌then◌else◌, arith,
}
use s3fuse.Prelude.Text.{Text, same, same_iff}
use s3fuse.Prelude.Map.{map_some, is_some}
use s3fuse.Base.Lru.{Entry}
use s3fuse.Base.Lru.Order.{has, Distinct}

module _ {ℓ} {V : Type ℓ} where
  -- The first key of a list with `n` behind it, and the last key of one with `p` before it.
  abbrev pub first : List (Text × V) → Option Text → Option Text
  first [] n = n
  first ((k, v) ∷ l) n = some k

  abbrev pub last : Option Text → List (Text × V) → Option Text
  last p [] = p
  last p ((k, v) ∷ l) = last (some k) l

  abbrev pub entry : Text → V → Option Text → Option Text → Entry V
  entry k v p n = record { key = k; value = v; older = p; newer = n; valid = true }

  -- The entry of the key `j` in the list, between `p` and `n`.
  abbrev pub row : Option Text → List (Text × V) → Option Text → Text → Option (Entry V)
  row p [] n j = none
  row p ((k, v) ∷ l) n j =
      let rest = row (some k) l n j in if same k j then some (entry k v p (first l n)) else rest

  -- Whether the key is the last of the list, and the first.
  abbrev pub is_last : Text → List (Text × V) → Bool
  is_last j [] = false
  is_last j ((k, v) ∷ []) = same k j
  is_last j ((k, v) ∷ y ∷ l) = is_last j (y ∷ l)

  abbrev pub is_first : Text → List (Text × V) → Bool
  is_first j [] = false
  is_first j ((k, v) ∷ l) = same k j

  abbrev pub or_else : Option (Entry V) → Option (Entry V) → Option (Entry V)
  or_else none o = o
  or_else (some e) o = some e

  pub first-append :
      (a b : List (Text × V)) (n : Option Text) → first (a ++ b) n ≡ first a (first b n)
  first-append [] b n = refl
  first-append ((k, v) ∷ a) b n = refl

  pub last-append : (a b : List (Text × V)) (p : Option Text) → last p (a ++ b) ≡ last (last p a) b
  last-append [] b p = refl
  last-append ((k, v) ∷ a) b p = last-append a b (some k)

  pub row-append :
      (a b : List (Text × V)) (p n : Option Text) (j : Text)
      → row p (a ++ b) n j ≡ or_else (row p a (first b n) j) (row (last p a) b n j)
  row-append [] b p n j = refl
  row-append ((k, v) ∷ a) b p n j = ground (arith, row-append a b (some k) n j, first-append a b n)

  pub row-absent :
      (l : List (Text × V)) (p n : Option Text) (j : Text) → has j l ≡ false → row p l n j ≡ none
  row-absent [] p n j h = refl
  row-absent ((k, v) ∷ l) p n j h = ground (arith, row-absent l (some k) n j)

  pub row-present :
      (l : List (Text × V)) (p n : Option Text) (j : Text)
      → has j l ≡ true
      → is_some (row p l n j) ≡ true
  row-present [] p n j h = ground arith
  row-present ((k, v) ∷ l) p n j h = ground (arith, row-present l (some k) n j)

  pub is_last-has : (j : Text) (l : List (Text × V)) → is_last j l ≡ true → has j l ≡ true
  is_last-has j [] h = ground arith
  is_last-has j ((k, v) ∷ []) h = ground arith
  is_last-has j ((k, v) ∷ (i, w) ∷ l) h = ground (arith, is_last-has j ((i, w) ∷ l))

  -- Another neighbour behind the list changes the entry of its last key, and no other.
  pub row-newer :
      (l : List (Text × V)) (p m n : Option Text) (j : Text)
      → Distinct l
      → row p l n j ≡ (
          if is_last j l then map_some (λ x. record x { newer = n }) (row p l m j) else row p l m j)
  row-newer [] p m n j d = refl
  row-newer ((k, v) ∷ []) p m n j d = ground arith
  row-newer ((k, v) ∷ (i, w) ∷ l) p m n j (h, d) =
      ground
        (arith, row-newer ((i, w) ∷ l) (some k) m n j d, is_last-has j ((i, w) ∷ l), same_iff k j)

  -- Another neighbour before the list changes the entry of its first key, and no other.
  pub row-older :
      (l : List (Text × V)) (p q n : Option Text) (j : Text)
      → Distinct l
      → row p l n j ≡ (
          if is_first j l
          then map_some (λ x. record x { older = p }) (row q l n j)
          else row q l n j)
  row-older [] p q n j d = refl
  row-older ((k, v) ∷ l) p q n j (h, d) = ground arith
