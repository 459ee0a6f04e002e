-- ===== src/Base/Lru/Join.antt =====
-- make_newest joins an entry to the list; the removal and the insertion of an entry that stands alone.
use s3fuse.Prelude.{
  ◌≡◌, refl, sym, Bool, true, false, List, [], ◌∷◌, ◌++◌, Option, none, some, if◌then◌else◌, arith,
  length-append,
}
use s3fuse.Prelude.Text.{Text, same, same_iff, same_refl}
use s3fuse.Prelude.Map.{map_some, is_some, modify, erase, insert}
use s3fuse.Base.Lru.{Entry, LruCacheMap, make_newest}
use s3fuse.Base.Lru.Order.{has, has-append}
use s3fuse.Base.Lru.Rows.{
  first, last, entry, row, or_else, is_last, last-append, row-append, row-absent, row-newer,
  is_last-has,
}
use s3fuse.Base.Lru.Links.{
  loose, Holds, follow-find, follow-size, is_at-last, loose-absent, Distinct-disjoint,
  Distinct-back, Distinct-last,
}

module _ {ℓ} {V : Type ℓ} where
  -- The two changes of make_newest, at its own key or that of the item that was the newest.
  rejoin :
      (mine at_last : Bool) (A X : Option (Entry V)) (k : Text) (v : V) (p : Option Text)
      → (mine ≡ true → A ≡ none)
      → (mine ≡ true → X ≡ none)
      → (mine ≡ true → at_last ≡ false)
      → (at_last ≡ true → X ≡ none)
      → (let found = or_else (if mine then some (entry k v none none) else X) A in
          let one = if mine then map_some (λ y. record y { older = p }) found else found in
          if at_last then map_some (λ y. record y { newer = some k }) one else one)
        ≡ or_else X (
            or_else
              (if at_last then map_some (λ y. record y { newer = some k }) A else A)
              (if mine then some (entry k v p none) else none))
  rejoin mine at_last A X k v p h1 h2 h3 h4 = ground arith

  make_newest-held :
      (c : LruCacheMap V) (l x : List (Text × V)) (k : Text) (v : V) (j : Text)
      → Holds c l ((k, v) ∷ x)
      → (make_newest k c).map.find j ≡ or_else (loose x j) (row none (l ++ ((k, v) ∷ [])) none j)
  unfolding make_newest
  make_newest-held c l x k v j h =
      rw
        (
          follow-find c.newest (λ y. record y { newer = some k })
              (modify k (λ y. record y { older = c.newest }) c.map) j,
          h.held j,
          h.newest_last,
          is_at-last l j,
          row-append l ((k, v) ∷ []) none none j,
          row-newer l none none (some k) j (Distinct-back x l h.distinct.1),
        )
        (rejoin (same k j) (is_last j l) (row none l none j) (loose x j) k v (last none l)
          (λ e. ground (arith, row-absent l none none j, kl, same_iff k j))
          (λ e. ground (arith, loose-absent x j, kx, same_iff k j))
          (λ e. ground (arith, is_last-has j l, kl, same_iff k j))
          (λ e.
            ground
              (arith, loose-absent x j, is_last-has j l, Distinct-disjoint x l j h.distinct.1)))
    where
      kl : has k l ≡ false
      kl = ground (arith, h.distinct.0, has-append k x l)

      kx : has k x ≡ false
      kx = ground (arith, h.distinct.0, has-append k x l)

  pub make_newest-Holds :
      (c : LruCacheMap V) (l x : List (Text × V)) (k : Text) (v : V)
      → Holds c l ((k, v) ∷ x)
      → Holds (make_newest k c) (l ++ ((k, v) ∷ [])) x
  unfolding make_newest
  make_newest-Holds c l x k v h = record {
    held = λ j. make_newest-held c l x k v j h;
    oldest_first = rw h.oldest_first (oldest l);
    newest_last = sym (last-append l ((k, v) ∷ []) none);
    counted = omega (
      arith,
      follow-size c.newest (λ y. record y { newer = some k })
          (modify k (λ y. record y { older = c.newest }) c.map),
      h.counted,
      length-append l ((k, v) ∷ []),
    );
    distinct = Distinct-last l x k v h.distinct;
  }
    where
      oldest :
          (l : List (Text × V))
          → (if is_some (first l none) then first l none else some k)
            ≡ first (l ++ ((k, v) ∷ [])) none
      oldest [] = refl
      oldest ((i, w) ∷ l) = refl

  -- The removal of an item that is out of the list, and the insertion of a new one.
  pub erase-Holds :
      (c : LruCacheMap V) (l x : List (Text × V)) (k : Text) (v : V)
      → Holds c l ((k, v) ∷ x)
      → Holds (record c { map = erase k c.map }) l x
  erase-Holds c l x k v h = record {
    held = λ j. rw (h.held j) (
        ground
          (arith, loose-absent x j, row-absent l none none j, absent.0, absent.1, same_iff k j));
    oldest_first = h.oldest_first;
    newest_last = h.newest_last;
    counted = ground (arith, h.held k, same_refl k, h.counted);
    distinct = h.distinct.1;
  }
    where
      absent : (has k x ≡ false) × (has k l ≡ false)
      absent = (
        ground (arith, h.distinct.0, has-append k x l),
        ground (arith, h.distinct.0, has-append k x l),
      )

  pub insert-Holds :
      (c : LruCacheMap V) (l x : List (Text × V)) (k : Text) (v : V)
      → Holds c l x
      → has k (x ++ l) ≡ false
      → Holds (record c { map = insert k (entry k v none none) c.map }) l ((k, v) ∷ x)
  insert-Holds c l x k v h new = record {
    held = λ j. rw (h.held j) (ground arith);
    oldest_first = h.oldest_first;
    newest_last = h.newest_last;
    counted = ground (
      arith,
      h.held k,
      absent.0,
      absent.1,
      loose-absent x k,
      row-absent l none none k,
      h.counted,
    );
    distinct = (new, h.distinct);
  }
    where
      absent : (has k x ≡ false) × (has k l ≡ false)
      absent = (ground (arith, new, has-append k x l), ground (arith, new, has-append k x l))
