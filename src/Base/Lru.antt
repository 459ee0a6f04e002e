-- ===== src/Base/Lru.antt =====
-- base/lru_cache_map.h, with strings as keys. A pointer to an entry is the key under which std::map
-- holds the entry; `none` is NULL. std::map is the record Map of Prelude/Map.
pub mod Order
pub mod Rows
pub mod Links
pub mod Unlink
pub mod Join
pub mod Refines
pub mod Calls
mod Runs
use s3fuse.Prelude.{
  ℕ, zero, suc, ◌+◌, Bool, true, false, List, [], ◌∷◌, ◌++◌, Option, none, some, ltb, if◌then◌else◌,
}
use s3fuse.Prelude.Text.{Text, same}
use s3fuse.Prelude.Map.{Map, is_some, empty, insert, erase, modify}

pub record Entry {ℓ} (V : Type ℓ) : Type ℓ where
  pub key : Text
  pub value : V
  pub older : Option Text
  pub newer : Option Text
  pub valid : Bool

pub record LruCacheMap {ℓ} (V : Type ℓ) : Type ℓ where
  pub map : Map (Entry V)
  pub max_size : ℕ
  pub newest : Option Text
  pub oldest : Option Text

-- `e == p`
unfoldable pub is_at : Option Text → Text → Bool
is_at none k = false
is_at (some j) k = same j k

module _ {ℓ} {V : Type ℓ} where
  -- `if (p) p->... = ...;`
  unfoldable pub follow : Option Text → (Entry V → Entry V) → Map (Entry V) → Map (Entry V)
  follow none f m = m
  follow (some k) f m = modify k f m

  unfoldable pub new_lru_cache_map : ℕ → LruCacheMap V
  new_lru_cache_map max_size = record {
    map = empty;
    max_size = max_size;
    newest = none;
    oldest = none;
  }

  -- `e` is the entry of the key `k`.
  unfoldable pub unlink : Text → Entry V → LruCacheMap V → LruCacheMap V
  unfolding is_at follow
  unlink k e c = record c {
    oldest = if is_at c.oldest k then e.newer else c.oldest;
    newest = if is_at c.newest k then e.older else c.newest;
    map =
        modify k (λ x. record x { older = none; newer = none })
          (follow e.newer (λ x. record x { older = e.older })
            (follow e.older (λ x. record x { newer = e.newer }) c.map));
  }

  unfoldable pub make_newest : Text → LruCacheMap V → LruCacheMap V
  unfolding follow
  make_newest k c = record c {
    map =
        follow c.newest (λ x. record x { newer = some k })
          (modify k (λ x. record x { older = c.newest }) c.map);
    newest = some k;
    oldest = if is_some c.oldest then c.oldest else some k;
  }

  unfoldable pub erase_key : Text → LruCacheMap V → LruCacheMap V
  unfolding unlink
  erase_key k c = elim (c.map.find k) [
    | none ↦ c
    | some e ↦ record (unlink k e c) { map = erase k (unlink k e c).map }
  ]

  -- The loops along `newer` and `older`, on fuel.
  unfoldable pub walk_newer : ℕ → Option Text → Map (Entry V) → List (Text × V)
  walk_newer zero p m = []
  walk_newer (suc n) none m = []
  walk_newer (suc n) (some k) m = elim (m.find k) [
    | none ↦ []
    | some e ↦ (e.key, e.value) ∷ walk_newer n e.newer m
  ]

  unfoldable pub walk_older : ℕ → Option Text → Map (Entry V) → List (Text × V)
  walk_older zero p m = []
  walk_older (suc n) none m = []
  walk_older (suc n) (some k) m = elim (m.find k) [
    | none ↦ []
    | some e ↦ (e.key, e.value) ∷ walk_older n e.older m
  ]

  -- What the callback is called with, in order.
  unfoldable pub for_each_oldest : LruCacheMap V → List (Text × V)
  unfolding walk_newer
  for_each_oldest c = walk_newer c.map.size c.oldest c.map

  unfoldable pub for_each_newest : LruCacheMap V → List (Text × V)
  unfolding walk_older
  for_each_newest c = walk_older c.map.size c.newest c.map

  unfoldable pub get_size : LruCacheMap V → ℕ
  get_size c = c.map.size

  unfoldable pub find_value : Text → LruCacheMap V → Option V
  find_value k c = elim (c.map.find k) [ none ↦ none | some e ↦ some e.value ]

  -- An assignment through the reference that the operator [] has returned.
  unfoldable pub assign : Text → V → LruCacheMap V → LruCacheMap V
  assign k v c = record c { map = modify k (λ x. record x { value = v }) c.map }

  module _ (is_removable : V → Bool) where
    unfoldable pub first_removable : ℕ → Option Text → Map (Entry V) → Option Text
    first_removable zero p m = none
    first_removable (suc n) none m = none
    first_removable (suc n) (some k) m = elim (m.find k) [
      | none ↦ none
      | some e ↦ elim (is_removable e.value) [ true ↦ some k | false ↦ first_removable n e.newer m ]
    ]

    unfoldable pub get_removable : LruCacheMap V → Option Text
    unfolding first_removable
    get_removable c = first_removable c.map.size c.oldest c.map

    unfoldable pub evict : LruCacheMap V → LruCacheMap V
    unfolding get_removable erase_key
    evict c =
        if ltb c.max_size c.map.size
        then elim (get_removable c) [
          | none ↦ c
          | some r ↦ elim (c.map.find r) [ none ↦ c | some e ↦ erase_key e.key c ]
        ]
        else c

    -- The operator []. `blank` is what value_type() makes.
    unfoldable pub access : V → Text → LruCacheMap V → LruCacheMap V
    unfolding make_newest unlink evict
    access blank k c = elim (c.map.find k) [
      | none ↦ make_newest k (evict (record c { map = insert k (fresh blank k) c.map }))
      | some e ↦
          if e.valid
          then make_newest k (unlink k e c)
          else make_newest k
              (evict (record c { map = modify k (λ x. record x { key = k; valid = true }) c.map }))
    ]
      where
        fresh : V → Text → Entry V
        fresh v k = record { key = k; value = v; older = none; newer = none; valid = true }
