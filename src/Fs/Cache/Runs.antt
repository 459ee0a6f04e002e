-- ===== src/Fs/Cache/Runs.antt =====
-- Concrete runs of the cache.
use s3fuse.Prelude.{ℕ, ◌≡◌, refl, true, false, [], some}
use s3fuse.Prelude.Text.{codes, same, is_empty}
use s3fuse.Base.Http.{replied, sc_ok}
use s3fuse.Base.Lru.{
  new_lru_cache_map, is_at, follow, unlink, make_newest, first_removable, get_removable, evict,
  access, assign, find_value,
}
use s3fuse.Fs.Cache.{
  Hints, Cache, Host, object, init, at_path, judge_found, find, look_for_object, look, save,
  fetch_seen, fetch, get,
}
use s3fuse.Fs.Cache.Pinned.{init-IsLinked}
use s3fuse.Fs.Cache.Shared.{Steps, here, next, finds, saves, get-again}

abbrev host : Host ℕ
host = record {
  is_expired = λ o. true;
  is_removable = λ o. false;
  directory_url = λ p. p;
  object_url = λ p. p;
  server = λ q. replied (record { response_code = sc_ok; response_headers = []; output = [] });
  create = λ p r. some 7;
}

abbrev unhinted : Hints
unhinted = record { is_dir = false; is_file = false }

-- The cache, with room for one object, after its first `get`.
abbrev first_use : Cache ℕ
first_use = (get host unhinted (codes "a") (init 1)).1

first_get : get host unhinted (codes "a") (init 1) ≡ (object (some 7), first_use)
unfolding get find at_path judge_found look look_for_object save fetch_seen fetch init
    new_lru_cache_map access assign evict get_removable first_removable unlink make_newest follow
    find_value is_at same is_empty
first_get = refl

-- Another thread puts an object at another path.
abbrev later_use : Cache ℕ
later_use = (save host (codes "b") 8 (find host (codes "b") first_use).1).1

others : Steps 7 first_use later_use
others = next (next here (finds host (codes "b") refl)) (saves host (codes "b") 8 refl)

get-again_example : (get host unhinted (codes "a") later_use).0 ≡ object (some 7)
get-again_example =
    get-again host host unhinted unhinted (codes "a") (init 1) first_use later_use 7
      (init-IsLinked 1) first_get others refl
