-- ===== src/Base/Lru/Links.antt =====
-- The entries of the map as a doubly linked list, and what distinct keys say of it.
use s3fuse.Prelude.{
  ◌+◌, ◌≡◌, refl, true, false, List, [], ◌∷◌, ◌++◌, Option, none, some, if◌then◌else◌, arith,
  length, append_assoc,
}
use s3fuse.Prelude.Text.{Text, same, same_iff}
use s3fuse.Prelude.Map.{Map, map_some}
use s3fuse.Base.Lru.{Entry, LruCacheMap, is_at, follow}
use s3fuse.Base.Lru.Order.{has, Distinct, has-append, Distinct-split}
use s3fuse.Base.Lru.Rows.{
  first, last, entry, row, or_else, is_last, is_first, row-absent, is_last-has,
}

module _ {ℓ} {V : Type ℓ} where
  -- The entries that stand in the map, but not in the list.
  abbrev pub loose : List (Text × V) → Text → Option (Entry V)
  loose [] j = none
  loose ((k, v) ∷ x) j =
      let rest = loose x j in if same k j then some (entry k v none none) else rest

  -- The map holds the items of `l` as a doubly linked list, the oldest first, and those of `x` by themselves.
  pub record Holds (c : LruCacheMap V) (l x : List (Text × V)) : Type ℓ where
    pub held : (j : Text) → c.map.find j ≡ or_else (loose x j) (row none l none j)
    pub oldest_first : c.oldest ≡ first l none
    pub newest_last : c.newest ≡ last none l
    pub counted : c.map.size ≡ length l + length x
    pub distinct : Distinct (x ++ l)

  pub follow-find :
      (p : Option Text) (f : Entry V → Entry V) (m : Map (Entry V)) (j : Text)
      → (follow p f m).find j ≡ (if is_at p j then map_some f (m.find j) else m.find j)
  unfolding follow is_at
  follow-find none f m j = refl
  follow-find (some k) f m j = refl

  pub follow-size :
      (p : Option Text) (f : Entry V → Entry V) (m : Map (Entry V)) → (follow p f m).size ≡ m.size
  unfolding follow
  follow-size none f m = refl
  follow-size (some k) f m = refl

  pub is_at-last : (l : List (Text × V)) (j : Text) → is_at (last none l) j ≡ is_last j l
  unfolding is_at
  is_at-last [] j = refl
  is_at-last ((k, v) ∷ []) j = refl
  is_at-last ((k, v) ∷ (i, w) ∷ l) j = is_at-last ((i, w) ∷ l) j

  pub is_at-first : (l : List (Text × V)) (j : Text) → is_at (first l none) j ≡ is_first j l
  unfolding is_at
  is_at-first [] j = refl
  is_at-first ((k, v) ∷ l) j = refl

  pub loose-absent : (x : List (Text × V)) (j : Text) → has j x ≡ false → loose x j ≡ none
  loose-absent [] j h = refl
  loose-absent ((k, v) ∷ x) j h = ground (arith, loose-absent x j)

  -- A key of the second part is no key of the first.
  pub Distinct-disjoint :
      (a b : List (Text × V)) (j : Text) → Distinct (a ++ b) → has j b ≡ true → has j a ≡ false
  Distinct-disjoint [] b j d h = refl
  Distinct-disjoint ((k, v) ∷ a) b j (f, d) h =
      ground (arith, Distinct-disjoint a b j d h, has-append k a b, same_iff k j)

  pub Distinct-back : (a b : List (Text × V)) → Distinct (a ++ b) → Distinct b
  Distinct-back [] b d = d
  Distinct-back ((k, v) ∷ a) b (f, d) = Distinct-back a b d

  pub Distinct-front : (a b : List (Text × V)) → Distinct (a ++ b) → Distinct a
  Distinct-front [] b d = tt
  Distinct-front ((k, v) ∷ a) b (f, d) = (ground (arith, has-append k a b), Distinct-front a b d)

  -- The list with one more item in front, taken out of its place.
  pub Distinct-move :
      (a b x : List (Text × V)) (k : Text) (v : V)
      → Distinct (x ++ (a ++ ((k, v) ∷ b)))
      → Distinct ((k, v) ∷ (x ++ (a ++ b)))
  Distinct-move a b x k v d =
      let (ka, kb, dab) = Distinct-split (x ++ a) b k v (rw (append_assoc x a ((k, v) ∷ b)) d) in
      (
        ground (arith, has-append k x (a ++ b), has-append k x a, has-append k a b),
        rw⁻¹ (append_assoc x a b) dab,
      )

  pub Distinct-snoc :
      (m : List (Text × V)) (k : Text) (v : V)
      → has k m ≡ false
      → Distinct m
      → Distinct (m ++ ((k, v) ∷ []))
  Distinct-snoc [] k v h d = (refl, tt)
  Distinct-snoc ((j, w) ∷ m) k v h (f, d) = (
    ground (arith, has-append j m ((k, v) ∷ []), same_iff j k, same_iff k j),
    Distinct-snoc m k v (ground arith) d,
  )

  pub Distinct-last :
      (l x : List (Text × V)) (k : Text) (v : V)
      → Distinct ((k, v) ∷ (x ++ l))
      → Distinct (x ++ (l ++ ((k, v) ∷ [])))
  Distinct-last l x k v (h, d) =
      rw⁻¹ (append_assoc x l ((k, v) ∷ [])) (Distinct-snoc (x ++ l) k v h d)

  pub is_first-has : (j : Text) (l : List (Text × V)) → is_first j l ≡ true → has j l ≡ true
  is_first-has j [] h = ground arith
  is_first-has j ((k, v) ∷ l) h = ground arith

  -- What the distinct keys say of one key `j`, for a list with the item `k` between `a` and `b`.
  pub record Apart (a b x : List (Text × V)) (k j : Text) : Type ℓ where
    pub mine_before : same k j ≡ true → row none a (some k) j ≡ none
    pub mine_behind : same k j ≡ true → row (some k) b none j ≡ none
    pub mine_loose : same k j ≡ true → loose x j ≡ none
    pub mine_last : same k j ≡ true → is_last j a ≡ false
    pub mine_first : same k j ≡ true → is_first j b ≡ false
    pub last_loose : is_last j a ≡ true → loose x j ≡ none
    pub last_behind : is_last j a ≡ true → row (some k) b none j ≡ none
    pub last_first : is_last j a ≡ true → is_first j b ≡ false
    pub first_before : is_first j b ≡ true → row none a (some k) j ≡ none
    pub first_loose : is_first j b ≡ true → loose x j ≡ none

  pub Distinct-Apart :
      (a b x : List (Text × V)) (k : Text) (v : V) (j : Text)
      → Distinct (x ++ (a ++ ((k, v) ∷ b)))
      → Apart a b x k j
  Distinct-Apart a b x k v j d = record {
    mine_before = λ e. ground (arith, row-absent a none (some k) j, ka, same_iff k j);
    mine_behind = λ e. ground (arith, row-absent b (some k) none j, kb, same_iff k j);
    mine_loose = λ e. ground (arith, loose-absent x j, kx, same_iff k j);
    mine_last = λ e. ground (arith, is_last-has j a, ka, same_iff k j);
    mine_first = λ e. ground (arith, is_first-has j b, kb, same_iff k j);
    last_loose = λ e.
        ground (arith, loose-absent x j, apart_x, is_last-has j a, has-append j a ((k, v) ∷ b));
    last_behind = λ e. ground (arith, row-absent b (some k) none j, is_last-has j a, apart_a);
    last_first = λ e. ground (arith, is_last-has j a, is_first-has j b, apart);
    first_before = λ e. ground (arith, row-absent a none (some k) j, is_first-has j b, apart);
    first_loose = λ e.
        ground (arith, loose-absent x j, apart_x, is_first-has j b, has-append j a ((k, v) ∷ b));
  }
    where
      parts : (has k a ≡ false) × (has k b ≡ false) × Distinct (a ++ b)
      parts = Distinct-split a b k v (Distinct-back x (a ++ ((k, v) ∷ b)) d)

      ka : has k a ≡ false
      ka = parts.0

      kb : has k b ≡ false
      kb = parts.1

      kx : has k x ≡ false
      kx = ground (arith, (Distinct-move a b x k v d).0, has-append k x (a ++ b))

      apart : has j b ≡ true → has j a ≡ false
      apart h = Distinct-disjoint a b j parts.2 h

      apart_a : has j a ≡ true → has j b ≡ false
      apart_a h = ground (arith, Distinct-disjoint a b j parts.2)

      apart_x : has j (a ++ ((k, v) ∷ b)) ≡ true → has j x ≡ false
      apart_x h = Distinct-disjoint x (a ++ ((k, v) ∷ b)) j d h
