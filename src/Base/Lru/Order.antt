-- ===== src/Base/Lru/Order.antt =====
-- The order of an LRU map as a list of keys and values, the oldest first: what the map promises.
use s3fuse.Prelude.{
  ℕ, suc, ◌≡◌, refl, Bool, true, false, ◌||◌, List, [], ◌∷◌, ◌++◌, Option, none, some, ltb,
  if◌then◌else◌, length, arith, ap,
}
use s3fuse.Prelude.Text.{Text, same, same_iff}

module _ {ℓ} {V : Type ℓ} where
  abbrev pub has : Text → List (Text × V) → Bool
  has j [] = false
  has j ((k, v) ∷ l) = same k j || has j l

  abbrev pub Distinct : List (Text × V) → Type 0
  Distinct [] = Unit
  Distinct ((k, v) ∷ l) = (has k l ≡ false) × Distinct l

  abbrev pub value_of : Text → List (Text × V) → Option V
  value_of j [] = none
  value_of j ((k, v) ∷ l) = if same k j then some v else value_of j l

  abbrev pub remove : Text → List (Text × V) → List (Text × V)
  remove j [] = []
  remove j ((k, v) ∷ l) = if same k j then l else (k, v) ∷ remove j l

  abbrev pub replace : Text → V → List (Text × V) → List (Text × V)
  replace j w [] = []
  replace j w ((k, v) ∷ l) = (if same k j then (k, w) else (k, v)) ∷ replace j w l

  -- The list without the oldest item whose value may be removed.
  abbrev pub drop_removable : (V → Bool) → List (Text × V) → List (Text × V)
  drop_removable is_removable [] = []
  drop_removable is_removable ((k, v) ∷ l) =
      if is_removable v then l else (k, v) ∷ drop_removable is_removable l

  -- What the operator [] does to the order: a key that is there becomes the newest; a new key comes
  -- last, once there is one item less if the map is full and one may be removed.
  abbrev pub touched : (V → Bool) → ℕ → V → Text → List (Text × V) → List (Text × V)
  touched is_removable max_size blank k l = elim (value_of k l) [
    | some v ↦ remove k l ++ ((k, v) ∷ [])
    | none ↦
        (if ltb max_size (suc (length l)) then drop_removable is_removable l else l)
        ++ ((k, blank) ∷ [])
  ]

  pub has-append : (j : Text) (a b : List (Text × V)) → has j (a ++ b) ≡ (has j a || has j b)
  has-append j [] b = refl
  has-append j ((k, v) ∷ a) b = ground (arith, has-append j a b)

  -- Distinct keys before, at and behind a place.
  pub Distinct-split :
      (a b : List (Text × V)) (k : Text) (v : V)
      → Distinct (a ++ ((k, v) ∷ b))
      → (has k a ≡ false) × (has k b ≡ false) × Distinct (a ++ b)
  Distinct-split [] b k v (h, d) = (refl, h, d)
  Distinct-split ((j, w) ∷ a) b k v (h, d) =
      let (ka, kb, dab) = Distinct-split a b k v d in
      (
        ground (arith, has-append j a ((k, v) ∷ b), same_iff k j, same_iff j k),
        kb,
        (ground (arith, has-append j a ((k, v) ∷ b), has-append j a b), dab),
      )

  -- The place of a key that is there.
  pub split :
      (k : Text) (l : List (Text × V)) (v : V)
      → value_of k l ≡ some v
      → (a : List (Text × V)) × (b : List (Text × V)) × (l ≡ a ++ ((k, v) ∷ b))
        × (remove k l ≡ a ++ b)
  split k [] v h = absurd (ground arith)
  split k ((j, w) ∷ l) v h = at_head (same j k) refl (split k l v)
    where
      Place : List (Text × V) → Type ℓ
      Place m =
          (a : List (Text × V)) × (b : List (Text × V)) × (m ≡ a ++ ((k, v) ∷ b))
          × (remove k m ≡ a ++ b)

      at_head : (c : Bool) → same j k ≡ c → (value_of k l ≡ some v → Place l) → Place ((j, w) ∷ l)
      at_head true e later = ([], l, ground (arith, same_iff j k), ground arith)
      at_head false e later =
          let (a, b, p, q) = later (ground arith) in
          ((j, w) ∷ a, b, ap (λ m. (j, w) ∷ m) p, ground arith)
