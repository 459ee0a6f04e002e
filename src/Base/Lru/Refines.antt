-- ===== src/Base/Lru/Refines.antt =====
-- The operations of the LRU map against the list of its items, the oldest first.
use s3fuse.Prelude.{
  ℕ, zero, suc, ◌≤◌, ◌≡◌, refl, sym, ap, subst, Bool, true, false, List, [], ◌∷◌, ◌++◌, Option,
  none, some, if◌then◌else◌, arith, length, ltb, append_assoc,
}
use s3fuse.Prelude.Text.{Text, same, same_iff, same_refl}
use s3fuse.Prelude.Map.{map_some, modify, insert}
use s3fuse.Base.Lru.{
  Entry, LruCacheMap, unlink, make_newest, erase_key, first_removable, get_removable, evict, access,
  assign, find_value,
}
use s3fuse.Base.Lru.Order.{has, Distinct, value_of, remove, replace, drop_removable, touched, split}
use s3fuse.Base.Lru.Rows.{first, last, entry, row, row-append, row-absent}
use s3fuse.Base.Lru.Links.{Holds, Apart, Distinct-Apart}
use s3fuse.Base.Lru.Unlink.{linked, unlink-Holds}
use s3fuse.Base.Lru.Join.{make_newest-Holds, erase-Holds, insert-Holds}

module _ {ℓ} {V : Type ℓ} where
  -- The entry of an item that the map holds.
  pub held-at :
      (c : LruCacheMap V) (a b x : List (Text × V)) (k : Text) (v : V)
      → Holds c (a ++ ((k, v) ∷ b)) x
      → c.map.find k ≡ some (linked a b k v)
  held-at c a b x k v h =
      rw (h.held k, row-append a ((k, v) ∷ b) none none k)
        (ground (arith, f.mine_before (same_refl k), f.mine_loose (same_refl k), same_refl k))
    where
      f : Apart a b x k k
      f = Distinct-Apart a b x k v k h.distinct

  erase_key-in :
      (c : LruCacheMap V) (a b x : List (Text × V)) (k : Text) (v : V)
      → Holds c (a ++ ((k, v) ∷ b)) x
      → Holds (erase_key k c) (a ++ b) x
  unfolding erase_key
  erase_key-in c a b x k v h =
      rw (held-at c a b x k v h, erase_key)
        (erase-Holds (unlink k (linked a b k v) c) (a ++ b) x k v (unlink-Holds c a b x k v h))

  -- The key of the oldest item that may be removed.
  abbrev removable_key : (V → Bool) → List (Text × V) → Option Text
  removable_key p [] = none
  removable_key p ((k, v) ∷ l) = let rest = removable_key p l in if p v then some k else rest

  first_removable_lem :
      (p : V → Bool) (c : LruCacheMap V) (n : ℕ) (a b x : List (Text × V))
      → Holds c (a ++ b) x
      → length b ≤ n
      → first_removable p n (first b none) c.map ≡ removable_key p b
  unfolding first_removable
  first_removable_lem p c zero a [] x h le = refl
  first_removable_lem p c (suc n) a [] x h le = refl
  first_removable_lem p c zero a ((k, v) ∷ b) x h le = absurd (omega arith)
  first_removable_lem p c (suc n) a ((k, v) ∷ b) x h le =
      rw (held-at c a b x k v h, first_removable)
        (ground (
          arith,
          first_removable_lem p c n (a ++ ((k, v) ∷ [])) b x
              (subst (λ m. Holds c m x) (sym (append_assoc a ((k, v) ∷ []) b)) h) (omega arith),
        ))

  -- drop_removable takes out the item of that key.
  drop_removable-split :
      (p : V → Bool) (l : List (Text × V)) (r : Text)
      → removable_key p l ≡ some r
      → (a : List (Text × V)) × (b : List (Text × V)) × (v : V) × (l ≡ a ++ ((r, v) ∷ b))
        × (drop_removable p l ≡ a ++ b)
  drop_removable-split p [] r h = absurd (ground arith)
  drop_removable-split p ((k, v) ∷ l) r h = at_head (p v) refl (drop_removable-split p l r)
    where
      Place : List (Text × V) → Type ℓ
      Place m =
          (a : List (Text × V)) × (b : List (Text × V)) × (v : V) × (m ≡ a ++ ((r, v) ∷ b))
          × (drop_removable p m ≡ a ++ b)

      at_head : (t : Bool) → p v ≡ t → (removable_key p l ≡ some r → Place l) → Place ((k, v) ∷ l)
      at_head true e later = ([], l, v, ground arith, ground arith)
      at_head false e later =
          let (a, b, w, q, s) = later (ground arith) in
          ((k, v) ∷ a, b, w, ap (λ m. (k, v) ∷ m) q, ground arith)

  drop_removable-none :
      (p : V → Bool) (l : List (Text × V)) → removable_key p l ≡ none → drop_removable p l ≡ l
  drop_removable-none p [] h = refl
  drop_removable-none p ((k, v) ∷ l) h = ground (arith, drop_removable-none p l)

  pub find-Holds :
      (c : LruCacheMap V) (l : List (Text × V)) (k : Text)
      → Holds c l []
      → find_value k c ≡ value_of k l
  unfolding find_value
  find-Holds c l k h = rw (h.held k, find_value) (row-value none l none k)
    where
      row-value :
          (q : Option Text) (l : List (Text × V)) (n : Option Text) (k : Text)
          → elim (row q l n k) as (λ _. Option V) [ none ↦ none | some e ↦ some e.value ]
            ≡ value_of k l
      row-value q [] n k = refl
      row-value q ((j, v) ∷ l) n k = ground (arith, row-value (some j) l n k)

  value_of-none : (l : List (Text × V)) (k : Text) → value_of k l ≡ none → has k l ≡ false
  value_of-none [] k h = refl
  value_of-none ((j, v) ∷ l) k h = ground (arith, value_of-none l k)

  get_removable-Holds :
      (p : V → Bool) (c : LruCacheMap V) (l x : List (Text × V))
      → Holds c l x
      → get_removable p c ≡ removable_key p l
  unfolding get_removable
  get_removable-Holds p c l x h =
      rw h.oldest_first (first_removable_lem p c c.map.size [] l x h (omega (arith, h.counted)))

  evict-Holds :
      (p : V → Bool) (c : LruCacheMap V) (l x : List (Text × V))
      → Holds c l x
      → Holds (evict p c) (if ltb c.max_size c.map.size then drop_removable p l else l) x
  unfolding evict
  evict-Holds p c l x h = full (ltb c.max_size c.map.size)
    where
      chosen :
          (o : Option Text)
          → removable_key p l ≡ o
          → Holds
              (elim o [
                | none ↦ c
                | some r ↦ elim (c.map.find r) [ none ↦ c | some e ↦ erase_key e.key c ]
              ])
              (drop_removable p l)
              x
      chosen none e = rw (drop_removable-none p l e) h
      chosen (some r) e =
          let (a, b, v, q, s) = drop_removable-split p l r e in
          let h' : Holds c (a ++ ((r, v) ∷ b)) x = subst (λ m. Holds c m x) q h in
          rw (s, held-at c a b x r v h') (erase_key-in c a b x r v h')

      full :
          (t : Bool)
          → Holds
              (if t
                then elim (get_removable p c) [
                  | none ↦ c
                  | some r ↦ elim (c.map.find r) [ none ↦ c | some e ↦ erase_key e.key c ]
                ]
                else c)
              (if t then drop_removable p l else l)
              x
      full false = h
      full true = rw (get_removable-Holds p c l x h) (chosen (removable_key p l) refl)

  evict-max_size : (p : V → Bool) (c : LruCacheMap V) → (evict p c).max_size ≡ c.max_size
  unfolding evict erase_key unlink
  evict-max_size p c = ground arith

  pub access-max_size :
      (p : V → Bool) (d : V) (k : Text) (c : LruCacheMap V) → (access p d k c).max_size ≡ c.max_size
  unfolding access make_newest unlink
  access-max_size p d k c = by_entry (c.map.find k) refl
    where
      by_entry : (o : Option (Entry V)) → c.map.find k ≡ o → (access p d k c).max_size ≡ c.max_size
      by_entry none e =
          rw (e, access)
            (evict-max_size p (record c { map = insert k (entry k d none none) c.map }))
      by_entry (some x) e =
          rw (e, access)
            (ground (
              arith,
              evict-max_size p
                  (record c { map = modify k (λ y. record y { key = k; valid = true }) c.map }),
            ))

  -- The operator [] against the order of the items.
  pub access-Holds :
      (p : V → Bool) (d : V) (k : Text) (c : LruCacheMap V) (l : List (Text × V))
      → Holds c l []
      → Holds (access p d k c) (touched p c.max_size d k l) []
  unfolding access
  access-Holds p d k c l h = by_value (value_of k l) refl
    where
      Result : Option V → Type ℓ
      Result o =
          Holds (access p d k c)
            (elim o as (λ _. List (Text × V)) [
              | some v ↦ remove k l ++ ((k, v) ∷ [])
              | none ↦
                  (if ltb c.max_size (suc (length l)) then drop_removable p l else l)
                  ++ ((k, d) ∷ [])
            ])
            []

      by_value : (o : Option V) → value_of k l ≡ o → Result o
      by_value none e =
          let new : c.map.find k ≡ none =
            rw (h.held k) (row-absent l none none k (value_of-none l k e)) in
          let inserted = insert-Holds c l [] k d h (value_of-none l k e) in
          let full : LruCacheMap V = record c { map = insert k (entry k d none none) c.map } in
          let counted : full.map.size ≡ suc (length l) = omega (arith, inserted.counted) in
          rw (new, access)
            (subst
              (λ n.
                Holds (make_newest k (evict p full))
                  ((if ltb c.max_size n then drop_removable p l else l) ++ ((k, d) ∷ [])) [])
              counted
              (make_newest-Holds (evict p full) _ [] k d
                (evict-Holds p full l ((k, d) ∷ []) inserted)))
      by_value (some v) e =
          let (a, b, q, s) = split k l v e in
          let h' : Holds c (a ++ ((k, v) ∷ b)) [] = subst (λ m. Holds c m []) q h in
          rw (s, held-at c a b [] k v h', access)
            (make_newest-Holds (unlink k (linked a b k v) c) (a ++ b) [] k v
              (unlink-Holds c a b [] k v h'))

  -- erase.
  remove-absent : (l : List (Text × V)) (k : Text) → value_of k l ≡ none → remove k l ≡ l
  remove-absent [] k h = refl
  remove-absent ((j, v) ∷ l) k h = ground (arith, remove-absent l k)

  pub erase_key-Holds :
      (k : Text) (c : LruCacheMap V) (l : List (Text × V))
      → Holds c l []
      → Holds (erase_key k c) (remove k l) []
  unfolding erase_key
  erase_key-Holds k c l h = by_value (value_of k l) refl
    where
      by_value : (o : Option V) → value_of k l ≡ o → Holds (erase_key k c) (remove k l) []
      by_value none e =
          let gone : c.map.find k ≡ none =
            rw (h.held k) (row-absent l none none k (value_of-none l k e)) in
          rw (gone, erase_key, remove-absent l k e) h
      by_value (some v) e =
          let (a, b, q, s) = split k l v e in
          rw s (erase_key-in c a b [] k v (subst (λ m. Holds c m []) q h))

  -- An assignment through the reference.
  replace-first :
      (l : List (Text × V)) (k : Text) (v : V) (n : Option Text)
      → first (replace k v l) n ≡ first l n
  replace-first [] k v n = refl
  replace-first ((j, w) ∷ l) k v n = ground arith

  replace-last :
      (l : List (Text × V)) (k : Text) (v : V) (p : Option Text) → last p (replace k v l) ≡ last p l
  replace-last [] k v p = refl
  replace-last ((j, w) ∷ l) k v p = ground (arith, replace-last l k v (some j))

  replace-row :
      (l : List (Text × V)) (k : Text) (v : V) (p n : Option Text) (j : Text)
      → row p (replace k v l) n j
        ≡ (if same k j then map_some (λ x. record x { value = v }) (row p l n j) else row p l n j)
  replace-row [] k v p n j = ground arith
  replace-row ((i, w) ∷ l) k v p n j = ground (
    arith,
    replace-row l k v (some i) n j,
    replace-first l k v n,
    same_iff i k,
    same_iff i j,
    same_iff k j,
  )

  replace-has :
      (l : List (Text × V)) (k : Text) (v : V) (j : Text) → has j (replace k v l) ≡ has j l
  replace-has [] k v j = refl
  replace-has ((i, w) ∷ l) k v j = ground (arith, replace-has l k v j)

  replace-Distinct :
      (l : List (Text × V)) (k : Text) (v : V) → Distinct l → Distinct (replace k v l)
  replace-Distinct [] k v d = tt
  replace-Distinct ((i, w) ∷ l) k v (f, d) =
      ground (arith, replace-Distinct l k v d, replace-has l k v i)

  pub length-replace : (l : List (Text × V)) (k : Text) (v : V) → length (replace k v l) ≡ length l
  length-replace [] k v = refl
  length-replace ((i, w) ∷ l) k v = ap suc (length-replace l k v)

  pub assign-Holds :
      (k : Text) (v : V) (c : LruCacheMap V) (l : List (Text × V))
      → Holds c l []
      → Holds (assign k v c) (replace k v l) []
  unfolding assign
  assign-Holds k v c l h = record {
    held = λ j. rw (replace-row l k v none none j, h.held j) refl;
    oldest_first = rw (replace-first l k v none) h.oldest_first;
    newest_last = rw (replace-last l k v none) h.newest_last;
    counted = omega (arith, h.counted, length-replace l k v);
    distinct = replace-Distinct l k v h.distinct;
  }
