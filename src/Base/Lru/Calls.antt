-- ===== src/Base/Lru/Calls.antt =====
-- Any sequence of calls on an LRU map, against the same calls on the list of its items.
use mathlib.Core.List.{reverse, reverse-reverse, reverse-cons}
use s3fuse.Prelude.{
  ℕ, zero, suc, ◌-◌, ◌≤◌, ◌≡◌, refl, sym, ◌∙◌, ap, subst, Bool, true, List, [], ◌∷◌, ◌++◌, Option,
  none, some, if◌then◌else◌, arith, length, length-append, ltb, append_assoc, append-nil, max,
}
use s3fuse.Prelude.Text.{Text}
use s3fuse.Base.Lru.{
  LruCacheMap, erase_key, access, assign, walk_newer, walk_older, for_each_oldest, for_each_newest,
  get_size, find_value, new_lru_cache_map,
}
use s3fuse.Base.Lru.Order.{Distinct, value_of, remove, replace, drop_removable, touched}
use s3fuse.Base.Lru.Rows.{first, last, last-append}
use s3fuse.Base.Lru.Links.{Holds}
use s3fuse.Base.Lru.Refines.{
  held-at, find-Holds, access-max_size, access-Holds, erase_key-Holds, assign-Holds, length-replace,
}

-- `m[k]`, `m[k] = v` and `m.erase(k)`.
pub data Call {ℓ} (V : Type ℓ) : Type ℓ where
  get : Text → Call V
  put : Text → V → Call V
  drop_key : Text → Call V

module _ {ℓ} {V : Type ℓ} (is_removable : V → Bool) (blank : V) where
  abbrev pub run : List (Call V) → LruCacheMap V → LruCacheMap V
  run [] c = c
  run (get k ∷ calls) c = run calls (access is_removable blank k c)
  run (put k v ∷ calls) c = run calls (assign k v (access is_removable blank k c))
  run (drop_key k ∷ calls) c = run calls (erase_key k c)

  -- The same on the items.
  abbrev pub ordered : ℕ → List (Call V) → List (Text × V) → List (Text × V)
  ordered max_size [] l = l
  ordered max_size (get k ∷ calls) l =
      ordered max_size calls (touched is_removable max_size blank k l)
  ordered max_size (put k v ∷ calls) l =
      ordered max_size calls (replace k v (touched is_removable max_size blank k l))
  ordered max_size (drop_key k ∷ calls) l = ordered max_size calls (remove k l)

  erase-max_size : (k : Text) (c : LruCacheMap V) → (erase_key k c).max_size ≡ c.max_size
  unfolding erase_key
  erase-max_size k c = ground arith

  run-Holds :
      (max_size : ℕ) (calls : List (Call V)) (c : LruCacheMap V) (l : List (Text × V))
      → c.max_size ≡ max_size
      → Holds c l []
      → Holds (run calls c) (ordered max_size calls l) []
  unfolding assign
  run-Holds m [] c l e h = h
  run-Holds m (get k ∷ calls) c l e h =
      run-Holds m calls (access is_removable blank k c) (touched is_removable m blank k l)
        (access-max_size is_removable blank k c ∙ e)
        (subst (λ n. Holds (access is_removable blank k c) (touched is_removable n blank k l) []) e
          (access-Holds is_removable blank k c l h))
  run-Holds m (put k v ∷ calls) c l e h =
      run-Holds m calls (assign k v (access is_removable blank k c))
        (replace k v (touched is_removable m blank k l))
        (access-max_size is_removable blank k c ∙ e)
        (assign-Holds k v (access is_removable blank k c) (touched is_removable m blank k l) (
          subst (λ n. Holds (access is_removable blank k c) (touched is_removable n blank k l) []) e
            (access-Holds is_removable blank k c l h)))
  run-Holds m (drop_key k ∷ calls) c l e h =
      run-Holds m calls (erase_key k c) (remove k l) (erase-max_size k c ∙ e)
        (erase_key-Holds k c l h)

module _ {ℓ} {V : Type ℓ} where
  pub new-Holds : (max_size : ℕ) → Holds {V = V} (new_lru_cache_map max_size) [] []
  unfolding new_lru_cache_map
  new-Holds m = record {
    held = λ j. refl;
    oldest_first = refl;
    newest_last = refl;
    counted = refl;
    distinct = tt;
  }

  walk_newer-Holds :
      (c : LruCacheMap V) (n : ℕ) (a b : List (Text × V))
      → Holds c (a ++ b) []
      → length b ≤ n
      → walk_newer n (first b none) c.map ≡ b
  unfolding walk_newer
  walk_newer-Holds c zero a [] h le = refl
  walk_newer-Holds c (suc n) a [] h le = refl
  walk_newer-Holds c zero a ((k, v) ∷ b) h le = absurd (omega arith)
  walk_newer-Holds c (suc n) a ((k, v) ∷ b) h le =
      rw (held-at c a b [] k v h, walk_newer)
        (ap (λ m. (k, v) ∷ m)
          (walk_newer-Holds c n (a ++ ((k, v) ∷ [])) b
            (subst (λ m. Holds c m []) (sym (append_assoc a ((k, v) ∷ []) b)) h) (omega arith)))

  walk_older-Holds :
      (c : LruCacheMap V) (n : ℕ) (a b : List (Text × V))
      → Holds c (reverse a ++ b) []
      → length a ≤ n
      → walk_older n (last none (reverse a)) c.map ≡ a
  unfolding walk_older
  walk_older-Holds c zero [] b h le = refl
  walk_older-Holds c (suc n) [] b h le = refl
  walk_older-Holds c zero ((k, v) ∷ a) b h le = absurd (omega arith)
  walk_older-Holds c (suc n) ((k, v) ∷ a) b h le =
      let h' : Holds c (reverse a ++ ((k, v) ∷ b)) [] =
        subst (λ m. Holds c m []) (append_assoc (reverse a) ((k, v) ∷ []) b)
          (subst (λ m. Holds c (m ++ b) []) (reverse-cons (k, v) a) h) in
      rw
        (
          reverse-cons (k, v) a,
          last-append (reverse a) ((k, v) ∷ []) none,
          held-at c (reverse a) b [] k v h',
          walk_older,
        )
        (ap (λ m. (k, v) ∷ m) (walk_older-Holds c n a ((k, v) ∷ b) h' (omega arith)))

  length-reverse : (l : List (Text × V)) → length (reverse l) ≡ length l
  length-reverse [] = refl
  length-reverse (x ∷ l) =
      ap length (reverse-cons x l)
      ∙ omega (arith, length-append (reverse l) (x ∷ []), length-reverse l)

  for_each_oldest-Holds :
      (c : LruCacheMap V) (l : List (Text × V)) → Holds c l [] → for_each_oldest c ≡ l
  unfolding for_each_oldest
  for_each_oldest-Holds c l h =
      rw h.oldest_first (walk_newer-Holds c c.map.size [] l h (omega (arith, h.counted)))

  for_each_newest-Holds :
      (c : LruCacheMap V) (l : List (Text × V)) → Holds c l [] → for_each_newest c ≡ reverse l
  unfolding for_each_newest
  for_each_newest-Holds c l h =
      rw (h.newest_last, ap (λ m. last none m) (sym (reverse-reverse l)))
        (walk_older-Holds c c.map.size (reverse l) []
          (rw (append-nil (reverse (reverse l)), reverse-reverse l) h)
          (omega (arith, h.counted, length-reverse l)))

  -- A map that has come out of any calls shows the items in their order, oldest first and newest first,
  -- has as many, holds each key once, and finds the value of every key, as the list of the items that the same
  -- calls make: a touched key becomes the newest, and a new one drives out the oldest item that may be
  -- removed, if the map is full.
  pub run-ordered :
      (is_removable : V → Bool) (blank : V) (max_size : ℕ) (calls : List (Call V))
      → (let c = run is_removable blank calls (new_lru_cache_map max_size) in
          let l = ordered is_removable blank max_size calls [] in
          (for_each_oldest c ≡ l)
          × (for_each_newest c ≡ reverse l)
          × (get_size c ≡ length l)
          × Distinct l
          × ((k : Text) → find_value k c ≡ value_of k l))
  unfolding get_size new_lru_cache_map
  run-ordered p d m calls = (
    for_each_oldest-Holds c l h,
    for_each_newest-Holds c l h,
    omega (arith, h.counted),
    h.distinct,
    λ k. find-Holds c l k h,
  )
    where
      c : LruCacheMap V
      c = run p d calls (new_lru_cache_map m)

      l : List (Text × V)
      l = ordered p d m calls []

      h : Holds c l []
      h = run-Holds p d m calls (new_lru_cache_map m) [] refl (new-Holds m)

  length-remove : (k : Text) (l : List (Text × V)) → length (remove k l) ≤ length l
  length-remove k [] = omega arith
  length-remove k ((j, v) ∷ l) = ground (arith, length-remove k l)

  length-remove_found :
      (k : Text) (l : List (Text × V)) (v : V)
      → value_of k l ≡ some v
      → suc (length (remove k l)) ≡ length l
  length-remove_found k [] v h = ground arith
  length-remove_found k ((j, w) ∷ l) v h = ground (arith, length-remove_found k l v)

  length-touched :
      (p : V → Bool) (m : ℕ) (d : V) (k : Text) (l : List (Text × V))
      → ((v : V) → p v ≡ true)
      → length l ≤ max 1 m
      → length (touched p m d k l) ≤ max 1 m
  length-touched p m d k l all h = by_value (value_of k l) refl
    where
      Bounded : Option V → Type 0
      Bounded o =
          length (elim o as (λ _. List (Text × V)) [
            | some v ↦ remove k l ++ ((k, v) ∷ [])
            | none ↦ (if ltb m (suc (length l)) then drop_removable p l else l) ++ ((k, d) ∷ [])
          ])
          ≤ max 1 m

      dropped : (n : List (Text × V)) → length (drop_removable p n) ≡ length n - 1
      dropped [] = refl
      dropped ((j, v) ∷ n) = ground (arith, all v)

      by_value : (o : Option V) → value_of k l ≡ o → Bounded o
      by_value (some v) e =
          omega (arith, length-append (remove k l) ((k, v) ∷ []), length-remove_found k l v e)
      by_value none e = ground (
        arith,
        length-append (drop_removable p l) ((k, d) ∷ []),
        length-append l ((k, d) ∷ []),
        dropped l,
      )

  length-ordered :
      (p : V → Bool) (d : V) (m : ℕ) (calls : List (Call V)) (l : List (Text × V))
      → ((v : V) → p v ≡ true)
      → length l ≤ max 1 m
      → length (ordered p d m calls l) ≤ max 1 m
  length-ordered p d m [] l all h = h
  length-ordered p d m (get k ∷ calls) l all h =
      length-ordered p d m calls (touched p m d k l) all (length-touched p m d k l all h)
  length-ordered p d m (put k v ∷ calls) l all h =
      length-ordered p d m calls (replace k v (touched p m d k l)) all
        (omega (arith, length-replace (touched p m d k l) k v, length-touched p m d k l all h))
  length-ordered p d m (drop_key k ∷ calls) l all h =
      length-ordered p d m calls (remove k l) all (omega (arith, length-remove k l, h))

  -- While every value may be removed, no calls make the map larger than its limit, or than 1 if that is 0.
  pub get_size-le :
      (is_removable : V → Bool) (blank : V) (max_size : ℕ) (calls : List (Call V))
      → ((v : V) → is_removable v ≡ true)
      → get_size (run is_removable blank calls (new_lru_cache_map max_size)) ≤ max 1 max_size
  get_size-le p d m calls all =
      omega (arith, (run-ordered p d m calls).2, length-ordered p d m calls [] all (omega arith))
