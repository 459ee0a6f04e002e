-- ===== src/Base/Lru/Unlink.antt =====
-- unlink takes an entry out of the list.
use s3fuse.Prelude.{
  ◌≡◌, refl, ◌∙◌, Bool, true, false, List, [], ◌∷◌, ◌++◌, Option, none, some, if◌then◌else◌, arith,
  length-append,
}
use s3fuse.Prelude.Text.{Text, same, same_refl}
use s3fuse.Prelude.Map.{map_some}
use s3fuse.Base.Lru.{Entry, LruCacheMap, is_at, follow, unlink}
use s3fuse.Base.Lru.Order.{has, Distinct, Distinct-split}
use s3fuse.Base.Lru.Rows.{
  first, last, entry, row, or_else, is_last, is_first, last-append, row-append, row-newer,
  row-older, is_last-has,
}
use s3fuse.Base.Lru.Links.{
  loose, Holds, follow-find, follow-size, is_at-last, is_at-first, Distinct-back, Distinct-front,
  Distinct-move, Apart, Distinct-Apart,
}

module _ {ℓ} {V : Type ℓ} where
  -- The entry of the item that stands between `a` and `b`.
  abbrev pub linked : List (Text × V) → List (Text × V) → Text → V → Entry V
  linked a b k v = entry k v (last none a) (first b none)

  -- The values that the pointers of `unlink` lead to, in the old map.
  pub unlink-find :
      (c : LruCacheMap V) (e : Entry V) (k j : Text)
      → (unlink k e c).map.find j ≡ (
          let found = c.map.find j in
          let one =
            if is_at e.older j then map_some (λ x. record x { newer = e.newer }) found else found in
          let two =
            if is_at e.newer j then map_some (λ x. record x { older = e.older }) one else one in
          if same k j then map_some (λ x. record x { older = none; newer = none }) two else two)
  unfolding unlink
  unlink-find c e k j =
      rw
        (
          follow-find e.newer (λ x. record x { older = e.older })
              (follow e.older (λ x. record x { newer = e.newer }) c.map) j,
          follow-find e.older (λ x. record x { newer = e.newer }) c.map j,
        )
        refl

  -- The three changes of unlink, at a key that is its own (`mine`), that of its older neighbour
  -- (`at_last`) or that of its newer one (`at_first`), or none of these.
  pub relink :
      (mine at_last at_first : Bool) (A B X : Option (Entry V)) (k : Text) (v : V)
      (p n : Option Text)
      → (mine ≡ true → A ≡ none)
      → (mine ≡ true → B ≡ none)
      → (mine ≡ true → X ≡ none)
      → (mine ≡ true → at_last ≡ false)
      → (mine ≡ true → at_first ≡ false)
      → (at_last ≡ true → X ≡ none)
      → (at_last ≡ true → B ≡ none)
      → (at_last ≡ true → at_first ≡ false)
      → (at_first ≡ true → A ≡ none)
      → (at_first ≡ true → X ≡ none)
      → (let found = or_else X (or_else A (if mine then some (entry k v p n) else B)) in
          let one = if at_last then map_some (λ x. record x { newer = n }) found else found in
          let two = if at_first then map_some (λ x. record x { older = p }) one else one in
          if mine then map_some (λ x. record x { older = none; newer = none }) two else two)
        ≡ or_else (if mine then some (entry k v none none) else X) (
            or_else
              (if at_last then map_some (λ x. record x { newer = n }) A else A)
              (if at_first then map_some (λ x. record x { older = p }) B else B))
  relink mine at_last at_first A B X k v p n h1 h2 h3 h4 h5 h6 h7 h8 h9 h10 = ground arith

  pub unlink-held :
      (c : LruCacheMap V) (a b x : List (Text × V)) (k : Text) (v : V) (j : Text)
      → Holds c (a ++ ((k, v) ∷ b)) x
      → (unlink k (linked a b k v) c).map.find j
        ≡ or_else (loose ((k, v) ∷ x) j) (row none (a ++ b) none j)
  unlink-held c a b x k v j h =
      rw
        (
          unlink-find c (linked a b k v) k j,
          h.held j,
          is_at-last a j,
          is_at-first b j,
          row-append a ((k, v) ∷ b) none none j,
          row-append a b none none j,
          row-newer a none (some k) (first b none) j (Distinct-front a b parts.2),
          row-older b (last none a) (some k) none j (Distinct-back a b parts.2),
        )
        (relink (same k j) (is_last j a) (is_first j b) (row none a (some k) j)
          (row (some k) b none j) (loose x j) k v (last none a) (first b none) f.mine_before
          f.mine_behind f.mine_loose f.mine_last f.mine_first f.last_loose f.last_behind
          f.last_first f.first_before f.first_loose)
    where
      parts : (has k a ≡ false) × (has k b ≡ false) × Distinct (a ++ b)
      parts = Distinct-split a b k v (Distinct-back x (a ++ ((k, v) ∷ b)) h.distinct)

      f : Apart a b x k j
      f = Distinct-Apart a b x k v j h.distinct

  pub unlink-oldest :
      (a b : List (Text × V)) (k : Text) (v : V)
      → has k a ≡ false
      → (if is_at (first (a ++ ((k, v) ∷ b)) none) k
          then first b none
          else first (a ++ ((k, v) ∷ b)) none)
        ≡ first (a ++ b) none
  unfolding is_at
  unlink-oldest [] b k v h = ground (arith, same_refl k)
  unlink-oldest ((i, w) ∷ a) b k v h = ground arith

  pub unlink-newest :
      (a b : List (Text × V)) (k : Text) (v : V)
      → has k b ≡ false
      → (if is_at (last none (a ++ ((k, v) ∷ b))) k
          then last none a
          else last none (a ++ ((k, v) ∷ b)))
        ≡ last none (a ++ b)
  unfolding is_at
  unlink-newest a [] k v h =
      rw (last-append a ((k, v) ∷ []) none, last-append a [] none) (ground (arith, same_refl k))
  unlink-newest a ((i, w) ∷ b) k v h =
      rw (last-append a ((k, v) ∷ (i, w) ∷ b) none, last-append a ((i, w) ∷ b) none)
        (ground (arith, is_at-last ((i, w) ∷ b) k, is_last-has k ((i, w) ∷ b)))

  pub unlink-size :
      (c : LruCacheMap V) (e : Entry V) (k : Text) → (unlink k e c).map.size ≡ c.map.size
  unfolding unlink
  unlink-size c e k =
      follow-size e.newer (λ x. record x { older = e.older })
        (follow e.older (λ x. record x { newer = e.newer }) c.map)
      ∙ follow-size e.older (λ x. record x { newer = e.newer }) c.map

  -- unlink takes an item out of the list, and leaves it in the map.
  pub unlink-Holds :
      (c : LruCacheMap V) (a b x : List (Text × V)) (k : Text) (v : V)
      → Holds c (a ++ ((k, v) ∷ b)) x
      → Holds (unlink k (linked a b k v) c) (a ++ b) ((k, v) ∷ x)
  unfolding unlink
  unlink-Holds c a b x k v h = record {
    held = λ j. unlink-held c a b x k v j h;
    oldest_first = rw h.oldest_first (unlink-oldest a b k v parts.0);
    newest_last = rw h.newest_last (unlink-newest a b k v parts.1);
    counted = omega (
      arith,
      unlink-size c (linked a b k v) k,
      h.counted,
      length-append a ((k, v) ∷ b),
      length-append a b,
    );
    distinct = Distinct-move a b x k v h.distinct;
  }
    where
      parts : (has k a ≡ false) × (has k b ≡ false) × Distinct (a ++ b)
      parts = Distinct-split a b k v (Distinct-back x (a ++ ((k, v) ∷ b)) h.distinct)
