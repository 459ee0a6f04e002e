-- ===== src/Fs/Cache.antt =====
-- fs/cache.h and fs/cache.cc: the cache of objects, on the LRU map. A null pointer is `none`. Whether an
-- object may be removed or has expired is asked at each call, and is an argument of it; so are the store's
-- answers, what object::create makes of one, and the urls (build_url throws for an internal path).
pub mod Pinned
pub mod Shared
mod Runs
use s3fuse.Prelude.{
  ℕ, suc, Bool, true, false, ◌&&◌, ◌||◌, not, List, [], ◌∷◌, Option, none, some, ◌==◌,
  if◌then◌else◌,
}
use s3fuse.Prelude.Code.{Code, Errno, err, success, ebusy, ecanceled, etimedout}
use s3fuse.Prelude.Text.{Text, is_empty}
use s3fuse.Base.Http.{Request, Response, Answer, replied, threw, timed_out, http_head, sc_ok}
use s3fuse.Base.Lru.{LruCacheMap, new_lru_cache_map, access, assign, erase_key, find_value}

-- HINT_IS_DIR and HINT_IS_FILE; HINT_NONE has neither.
pub record Hints : Type 0 where
  pub is_dir : Bool
  pub is_file : Bool

pub record Cache (O : Type 0) : Type 0 where
  pub cache_map : LruCacheMap (Option O)
  pub hits : ℕ
  pub misses : ℕ
  pub expiries : ℕ
  pub get_failures : ℕ

-- What a call knows of the objects and of the store.
pub record Host (O : Type 0) : Type 0 where
  pub is_expired : O → Bool
  pub is_removable : O → Bool
  pub directory_url : Text → Text
  pub object_url : Text → Text
  pub server : Request → Answer
  -- object::create, from a path and the last response (there is none for the root); it may throw.
  pub create : Text → Option Response → Option O

-- What the two HEAD requests find.
pub data Looked : Type 0 where
  seen : Option Response → Looked
  missing : Looked
  failed : Errno → Looked

-- A pointer, or an exception.
pub data Got (O : Type 0) : Type 0 where
  object : Option O → Got O
  thrown : Errno → Got O

abbrev pub head : Text → Request
head url = record { method = http_head; url = url; headers = []; input = [] }

module _ {O : Type 0} where
  unfoldable pub init : ℕ → Cache O
  init max_objects_in_cache = record {
    cache_map = new_lru_cache_map max_objects_in_cache;
    hits = 0;
    misses = 0;
    expiries = 0;
    get_failures = 0;
  }

  -- is_object_removable: a null pointer may be removed.
  abbrev pub is_object_removable : (O → Bool) → Option O → Bool
  is_object_removable is_removable none = true
  is_object_removable is_removable (some o) = is_removable o

  -- `(*s_cache_map)[path]`: the pointer that is found or made there, and the map.
  unfoldable pub at_path : Host O → Text → Cache O → Option O × Cache O
  at_path host path c =
      let m = access (is_object_removable host.is_removable) none path c.cache_map in
      (elim (find_value path m) [ none ↦ none | some o ↦ o ], record c { cache_map = m })

  -- The branches of `find` on the pointer.
  unfoldable pub judge_found : Host O → Text → Option O → Cache O → Option O × Cache O
  judge_found host path none c = (none, record c { misses = suc c.misses })
  judge_found host path (some o) c =
      if host.is_expired o && host.is_removable o
      then (none, record c { expiries = suc c.expiries; cache_map = assign path none c.cache_map })
      else (some o, record c { hits = suc c.hits })

  unfoldable pub find : Host O → Text → Cache O → Option O × Cache O
  unfolding at_path judge_found
  find host path c = let found = at_path host path c in judge_found host path found.0 found.1

  -- The requests of `fetch`: for a directory first, unless the hint is that the path is a file.
  unfoldable pub look_for_object : Host O → Text → Looked
  look_for_object host path = elim (host.server (head (host.object_url path))) [
    | threw ↦ failed ecanceled
    | timed_out ↦ failed etimedout
    | replied res ↦ if res.response_code == sc_ok then seen (some res) else missing
  ]

  unfoldable pub look : Host O → Hints → Text → Looked
  unfolding look_for_object
  look host hints path =
      if is_empty path
      then seen none
      else if not (not hints.is_dir && not hints.is_file || hints.is_dir)
      then look_for_object host path
      else elim (host.server (head (host.directory_url path))) [
        | threw ↦ failed ecanceled
        | timed_out ↦ failed etimedout
        | replied res ↦
            if hints.is_file || not (res.response_code == sc_ok)
            then look_for_object host path
            else seen (some res)
      ]

  -- The locked end of `fetch`: an object that is in the map already is not overwritten.
  unfoldable pub save : Host O → Text → O → Cache O → Option O × Cache O
  unfolding at_path
  save host path new c =
      let found = at_path host path c in
      elim found.0 [
        | some o ↦ (some o, found.1)
        | none ↦ (some new, record found.1 { cache_map = assign path (some new) found.1.cache_map })
      ]

  unfoldable pub fetch_seen : Host O → Text → Looked → Cache O → Got O × Cache O
  unfolding save
  fetch_seen host path missing c = (object none, record c { get_failures = suc c.get_failures })
  fetch_seen host path (failed e) c = (thrown e, c)
  fetch_seen host path (seen res) c = elim (host.create path res) [
    | none ↦ (thrown ecanceled, c)
    | some new ↦ let saved = save host path new c in (object saved.0, saved.1)
  ]

  unfoldable pub fetch : Host O → Hints → Text → Cache O → Got O × Cache O
  unfolding look fetch_seen
  fetch host hints path c = fetch_seen host path (look host hints path) c

  unfoldable pub get : Host O → Hints → Text → Cache O → Got O × Cache O
  unfolding find fetch
  get host hints path c =
      let found = find host path c in
      elim found.0 [ some o ↦ (object (some o), found.1) | none ↦ fetch host hints path found.1 ]

  unfoldable pub remove : Host O → Text → Cache O → Code × Cache O
  remove host path c = elim (find_value path c.cache_map) [
    | none ↦ (success, c)
    | some o ↦
        if not (is_object_removable host.is_removable o)
        then (err ebusy, c)
        else (success, record c { cache_map = erase_key path c.cache_map })
  ]

  -- lock_object, up to the call of `fn` on the pointer. The first `get` runs in the pool, so that an
  -- exception in it is only a code, which is dropped.
  unfoldable pub lock_object : Host O → Text → Cache O → Option O × Cache O
  unfolding get at_path
  lock_object host path c =
      at_path host path (get host (record { is_dir = false; is_file = false }) path c).1
