-- ===== src/Base/Lru/Runs.antt =====
-- Tests of the LRU map, after base/tests/lru_cache_map.cc.
use mathlib.Core.List.{reverse}
use s3fuse.Prelude.{ℕ, ◌≡◌, ◌≤◌, refl, Bool, true, List, [], ◌∷◌, length, max, ltb}
use s3fuse.Prelude.Text.{Text, codes, same}
use s3fuse.Base.Lru.{
  new_lru_cache_map, is_at, follow, unlink, make_newest, erase_key, first_removable, get_removable,
  evict, access, assign, walk_newer, walk_older, for_each_oldest, for_each_newest, get_size,
  find_value,
}
use s3fuse.Base.Lru.Order.{Distinct, value_of}
use s3fuse.Base.Lru.Calls.{Call, get, put, drop_key, run, ordered, run-ordered, get_size-le}

abbrev over_100 : ℕ → Bool
over_100 n = ltb 100 n

abbrev always : ℕ → Bool
always n = true

-- The start of the test remove_if_over_100, up to the erasure of e1.
abbrev calls : List (Call ℕ)
calls =
    put (codes "e1") 1
    ∷ put (codes "e2") 2
    ∷ put (codes "e3") 101
    ∷ put (codes "e4") 102
    ∷ put (codes "e5") 200
    ∷ put (codes "e6") 300
    ∷ get (codes "e2")
    ∷ put (codes "e7") 400
    ∷ drop_key (codes "e1")
    ∷ []

oldest_first :
    for_each_oldest (run over_100 0 calls (new_lru_cache_map 5))
    ≡ (codes "e5", 200) ∷ (codes "e6", 300) ∷ (codes "e2", 2) ∷ (codes "e7", 400) ∷ []
unfolding for_each_oldest new_lru_cache_map walk_newer access assign erase_key evict get_removable
    first_removable unlink make_newest follow is_at same
oldest_first = refl

newest_first :
    for_each_newest (run over_100 0 calls (new_lru_cache_map 5))
    ≡ (codes "e7", 400) ∷ (codes "e2", 2) ∷ (codes "e6", 300) ∷ (codes "e5", 200) ∷ []
unfolding for_each_newest new_lru_cache_map walk_older access assign erase_key evict get_removable
    first_removable unlink make_newest follow is_at same
newest_first = refl

run-ordered_example :
    (let c = run over_100 0 calls (new_lru_cache_map 5) in
      let l = ordered over_100 0 5 calls [] in
      (for_each_oldest c ≡ l)
      × (for_each_newest c ≡ reverse l)
      × (get_size c ≡ length l)
      × Distinct l
      × ((k : Text) → find_value k c ≡ value_of k l))
run-ordered_example = run-ordered over_100 0 5 calls

get_size-le_example : get_size (run always 0 calls (new_lru_cache_map 2)) ≤ max 1 2
get_size-le_example = get_size-le always 0 2 calls (λ v. refl)
