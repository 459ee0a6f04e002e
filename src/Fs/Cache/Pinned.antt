-- ===== src/Fs/Cache/Pinned.antt =====
-- An object that may not be removed stays in the cache, and is the one that every call finds.
use s3fuse.Prelude.{
  ℕ, suc, ◌≡◌, ◌≢◌, refl, sym, ◌∙◌, subst, Bool, true, false, List, [], ◌∷◌, ◌++◌, Option, none,
  some, if◌then◌else◌, ltb, arith, length, Bool-cases, Option-cases, inl, inr, ◌⊎◌,
}
use s3fuse.Prelude.Text.{Text, same, same_iff, same_refl}
use s3fuse.Base.Lru.{access, assign, find_value}
use s3fuse.Base.Lru.Order.{has, Distinct, value_of, remove, replace, drop_removable, touched}
use s3fuse.Base.Lru.Links.{Holds}
use s3fuse.Base.Lru.Refines.{find-Holds, access-Holds, assign-Holds}
use s3fuse.Base.Lru.Calls.{new-Holds}
use s3fuse.Fs.Cache.{Cache, Host, init, is_object_removable, at_path}

-- The values of keys in the order of the items.
module _ {V : Type 0} where
  value_of-last :
      (a : List (Text × V)) (k q : Text) (v : V)
      → value_of q (a ++ ((k, v) ∷ [])) ≡ elim (value_of q a) as (λ _. Option V) [
        | some w ↦ some w
        | none ↦ (if same k q then some v else none)
      ]
  value_of-last [] k q v = refl
  value_of-last ((j, w) ∷ a) k q v = ground (arith, value_of-last a k q v)

  pub value_of-remove :
      (l : List (Text × V)) (k q : Text) → same k q ≡ false → value_of q (remove k l) ≡ value_of q l
  value_of-remove [] k q h = refl
  value_of-remove ((j, w) ∷ l) k q h =
      ground (arith, value_of-remove l k q, same_iff j k, same_iff j q, same_iff k q)

  value_of-absent : (l : List (Text × V)) (k : Text) → has k l ≡ false → value_of k l ≡ none
  value_of-absent [] k h = refl
  value_of-absent ((j, w) ∷ l) k h = ground (arith, value_of-absent l k)

  value_of-removed : (l : List (Text × V)) (k : Text) → Distinct l → value_of k (remove k l) ≡ none
  value_of-removed [] k d = refl
  value_of-removed ((j, w) ∷ l) k (f, d) =
      ground (arith, value_of-removed l k d, value_of-absent l k, same_iff j k)

  value_of-replace :
      (l : List (Text × V)) (k q : Text) (w : V)
      → value_of q (replace k w l) ≡ (
          if same k q
          then elim (value_of q l) as (λ _. Option V) [ none ↦ none | some v ↦ some w ]
          else value_of q l)
  value_of-replace [] k q w = ground arith
  value_of-replace ((j, v) ∷ l) k q w =
      ground (arith, value_of-replace l k q w, same_iff j k, same_iff j q, same_iff k q)

  value_of-drop_removable :
      (p : V → Bool) (l : List (Text × V)) (q : Text) (v : V)
      → value_of q l ≡ some v
      → p v ≡ false
      → value_of q (drop_removable p l) ≡ some v
  value_of-drop_removable p [] q v h f = ground arith
  value_of-drop_removable p ((j, w) ∷ l) q v h f = ground (arith, value_of-drop_removable p l q v)

  drop_removable-absent :
      (p : V → Bool) (l : List (Text × V)) (q : Text)
      → value_of q l ≡ none
      → value_of q (drop_removable p l) ≡ none
  drop_removable-absent p [] q h = refl
  drop_removable-absent p ((j, w) ∷ l) q h = ground (arith, drop_removable-absent p l q)

  -- A touched key keeps its value, or has a blank one.
  value_of-touched_self :
      (p : V → Bool) (m : ℕ) (d : V) (k : Text) (l : List (Text × V))
      → Distinct l
      → value_of k (touched p m d k l)
        ≡ elim (value_of k l) as (λ _. Option V) [ some v ↦ some v | none ↦ some d ]
  value_of-touched_self p m d k l u = elim (Option-cases (value_of k l)) [
    | inl e ↦ rw (e, touched) (room e (ltb m (suc (length l))))
    | inr (w, e) ↦
        rw (e, touched)
          (ground (arith, value_of-last (remove k l) k k w, value_of-removed l k u, same_refl k))
  ]
    where
      room :
          value_of k l ≡ none
          → (t : Bool)
          → value_of k ((if t then drop_removable p l else l) ++ ((k, d) ∷ [])) ≡ some d
      room e true = ground (
        arith,
        value_of-last (drop_removable p l) k k d,
        drop_removable-absent p l k,
        same_refl k,
      )
      room e false = ground (arith, value_of-last l k k d, same_refl k)

  -- A value that may not be removed survives.
  value_of-touched :
      (p : V → Bool) (m : ℕ) (d : V) (k q : Text) (l : List (Text × V)) (v : V)
      → Distinct l
      → value_of q l ≡ some v
      → p v ≡ false
      → value_of q (touched p m d k l) ≡ some v
  value_of-touched p m d k q l v u h f = by_key (Bool-cases (same k q))
    where
      room :
          (t : Bool) → value_of q ((if t then drop_removable p l else l) ++ ((k, d) ∷ [])) ≡ some v
      room true =
          ground
            (arith, value_of-last (drop_removable p l) k q d, value_of-drop_removable p l q v h f)
      room false = ground (arith, value_of-last l k q d)

      other : same k q ≡ false → value_of q (touched p m d k l) ≡ some v
      other e = elim (Option-cases (value_of k l)) [
        | inl n ↦ rw (n, touched) (room (ltb m (suc (length l))))
        | inr (w, n) ↦
            rw (n, touched)
              (ground (arith, value_of-last (remove k l) k q w, value_of-remove l k q e))
      ]

      by_key : (same k q ≡ true) ⊎ (same k q ≡ false) → value_of q (touched p m d k l) ≡ some v
      by_key (inr e) = other e
      by_key (inl e) =
          let k_q : k ≡ q = (same_iff k q).0 e in
          subst (λ i. value_of i (touched p m d k l) ≡ some v) k_q
            (rw (value_of-touched_self p m d k l u, subst (λ i. value_of i l ≡ some v) (sym k_q) h)
              refl)

module _ {O : Type 0} where
  -- The invariant of the cache: its map is a doubly linked list of its entries.
  abbrev pub IsLinked : Cache O → Type 0
  IsLinked c = (l : List (Text × Option O)) × Holds c.cache_map l []

  abbrev pub Cached : Text → O → Cache O → Type 0
  Cached path o c = find_value path c.cache_map ≡ some (some o)

  pub init-IsLinked : (n : ℕ) → IsLinked (init n)
  unfolding init
  init-IsLinked n = ([], new-Holds n)

  pub at_path-IsLinked :
      (host : Host O) (path : Text) (c : Cache O) → IsLinked c → IsLinked (at_path host path c).1
  unfolding at_path
  at_path-IsLinked host path c (l, h) =
      (_, access-Holds (is_object_removable host.is_removable) none path c.cache_map l h)

  -- What stands in the map at the path once the operator [] has been called.
  pub at_path_self :
      (host : Host O) (path : Text) (c : Cache O)
      → IsLinked c
      → find_value path (at_path host path c).1.cache_map ≡ some (at_path host path c).0
  unfolding at_path
  at_path_self host path c (l, h) =
      kept (find_value path (access (is_object_removable host.is_removable) none path c.cache_map))
        refl
    where
      l' : List (Text × Option O)
      l' = touched (is_object_removable host.is_removable) c.cache_map.max_size none path l

      value :
          find_value path (access (is_object_removable host.is_removable) none path c.cache_map)
          ≡ value_of path l'
      value =
          find-Holds _ l' path
            (access-Holds (is_object_removable host.is_removable) none path c.cache_map l h)

      held : value_of path l' ≡ elim (value_of path l) as (λ _. Option (Option O)) [
        | some v ↦ some v
        | none ↦ some none
      ]
      held =
          value_of-touched_self (is_object_removable host.is_removable) c.cache_map.max_size none
            path l h.distinct

      kept :
          (o : Option (Option O))
          → find_value path (access (is_object_removable host.is_removable) none path c.cache_map)
            ≡ o
          → find_value path (at_path host path c).1.cache_map ≡ some (at_path host path c).0
      kept none e = absurd (ground (arith, value, held))
      kept (some v) e = rw (e, at_path) refl

  pub at_path-Cached :
      (host : Host O) (path q : Text) (o : O) (c : Cache O)
      → IsLinked c
      → host.is_removable o ≡ false
      → Cached q o c
      → Cached q o (at_path host path c).1
  unfolding at_path
  at_path-Cached host path q o c (l, h) f e =
      find-Holds _ (touched p c.cache_map.max_size none path l) q
        (access-Holds p none path c.cache_map l h)
      ∙ value_of-touched p c.cache_map.max_size none path q l (some o) h.distinct
          (sym (find-Holds c.cache_map l q h) ∙ e) f
    where
      p : Option O → Bool
      p = is_object_removable host.is_removable

  pub assign-IsLinked :
      (path : Text) (o : Option O) (c : Cache O)
      → IsLinked c
      → IsLinked (record c { cache_map = assign path o c.cache_map })
  assign-IsLinked path o c (l, h) = (_, assign-Holds path o c.cache_map l h)

  pub assign-Cached :
      (path q : Text) (v : Option O) (o : O) (c : Cache O)
      → IsLinked c
      → path ≢ q
      → Cached q o c
      → Cached q o (record c { cache_map = assign path v c.cache_map })
  assign-Cached path q v o c (l, h) ne e =
      find-Holds _ (replace path v l) q (assign-Holds path v c.cache_map l h)
      ∙ ground (arith, value_of-replace l path q v, find-Holds c.cache_map l q h, same_iff path q)

  pub assign_self :
      (path : Text) (v w : Option O) (c : Cache O)
      → IsLinked c
      → find_value path c.cache_map ≡ some w
      → find_value path (assign path v c.cache_map) ≡ some v
  assign_self path v w c (l, h) e =
      find-Holds _ (replace path v l) path (assign-Holds path v c.cache_map l h)
      ∙ ground
          (arith, value_of-replace l path path v, find-Holds c.cache_map l path h, same_refl path)
