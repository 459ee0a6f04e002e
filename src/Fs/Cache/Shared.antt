-- ===== src/Fs/Cache/Shared.antt =====
-- All threads that use a path share one object, as long as it may not be removed.
use s3fuse.Prelude.{
  suc, ◌≡◌, ◌≢◌, refl, sym, ◌∙◌, ap, subst, Bool, true, false, ◌&&◌, Option, none, some, arith,
  Bool-cases, inl, inr, ◌⊎◌,
}
use s3fuse.Prelude.Text.{Text, same_iff}
use s3fuse.Base.Lru.{assign, erase_key, find_value}
use s3fuse.Base.Lru.Order.{remove as remove_key}
use s3fuse.Base.Lru.Refines.{find-Holds, erase_key-Holds}
use s3fuse.Fs.Cache.{
  Hints, Cache, Host, Looked, seen, missing, failed, Got, object, is_object_removable, at_path,
  judge_found, find, look, save, fetch_seen, fetch, get, remove,
}
use s3fuse.Fs.Cache.Pinned.{
  IsLinked, Cached, at_path-IsLinked, at_path_self, at_path-Cached, assign-IsLinked, assign-Cached,
  assign_self, value_of-remove,
}

module _ {O : Type 0} where
  judge_found-IsLinked :
      (host : Host O) (path : Text) (x : Option O) (c : Cache O)
      → IsLinked c
      → IsLinked (judge_found host path x c).1
  unfolding judge_found
  judge_found-IsLinked host path none c h = h
  judge_found-IsLinked host path (some o) c h =
      elim (Bool-cases (host.is_expired o && host.is_removable o)) [
        | inl e ↦ rw (e, judge_found) (assign-IsLinked path none c h)
        | inr e ↦ rw (e, judge_found) h
      ]

  judge_found-Cached :
      (host : Host O) (path q : Text) (o : O) (x : Option O) (c : Cache O)
      → IsLinked c
      → find_value path c.cache_map ≡ some x
      → host.is_removable o ≡ false
      → Cached q o c
      → Cached q o (judge_found host path x c).1
  unfolding judge_found
  judge_found-Cached host path q o none c h e f k = k
  judge_found-Cached host path q o (some w) c h e f k =
      by_test (host.is_expired w && host.is_removable w) refl
    where
      by_test :
          (t : Bool)
          → (host.is_expired w && host.is_removable w) ≡ t
          → Cached q o (judge_found host path (some w) c).1
      by_test false t = rw (t, judge_found) k
      by_test true t = rw (t, judge_found) (assign-Cached path q none o c h apart k)
        where
          apart : path ≢ q
          apart p =
              let w_o : some (some w) ≡ some (some o) =
                sym e ∙ subst (λ r. find_value r c.cache_map ≡ some (some o)) (sym p) k in
              let eq : w ≡ o = cc in
              let free : host.is_removable w ≡ false = ap host.is_removable eq ∙ f in ground arith

  find-IsLinked :
      (host : Host O) (path : Text) (c : Cache O) → IsLinked c → IsLinked (find host path c).1
  unfolding find
  find-IsLinked host path c h =
      judge_found-IsLinked host path (at_path host path c).0 (at_path host path c).1
        (at_path-IsLinked host path c h)

  find-Cached :
      (host : Host O) (path q : Text) (o : O) (c : Cache O)
      → IsLinked c
      → host.is_removable o ≡ false
      → Cached q o c
      → Cached q o (find host path c).1
  unfolding find
  find-Cached host path q o c h f k =
      judge_found-Cached host path q o (at_path host path c).0 (at_path host path c).1
        (at_path-IsLinked host path c h) (at_path_self host path c h) f
        (at_path-Cached host path q o c h f k)

  -- The ends of `save`, by the pointer that it finds.
  save-found :
      (host : Host O) (path : Text) (new w : O) (c : Cache O)
      → (at_path host path c).0 ≡ some w
      → save host path new c ≡ (some w, (at_path host path c).1)
  unfolding save
  save-found host path new w c e = rw (e, save)

  save-new :
      (host : Host O) (path : Text) (new : O) (c : Cache O)
      → (at_path host path c).0 ≡ none
      → save host path new c ≡ (
        some new,
        record (at_path host path c).1 {
          cache_map = assign path (some new) (at_path host path c).1.cache_map;
        },
      )
  unfolding save
  save-new host path new c e = rw (e, save)

  -- What `save` returns is what then stands at the path, and all else is kept.
  record Saved (host : Host O) (path : Text) (c : Cache O) (r : Option O × Cache O) : Type 0 where
    linked : IsLinked r.1
    cached : (o : O) × (r.0 ≡ some o) × Cached path o r.1
    kept : (q : Text) (o : O) → host.is_removable o ≡ false → Cached q o c → Cached q o r.1

  save-Saved :
      (host : Host O) (path : Text) (new : O) (c : Cache O)
      → IsLinked c
      → Saved host path c (save host path new c)
  save-Saved host path new c h = by_pointer (at_path host path c).0 refl
    where
      at_linked : IsLinked (at_path host path c).1
      at_linked = at_path-IsLinked host path c h

      at_self : find_value path (at_path host path c).1.cache_map ≡ some (at_path host path c).0
      at_self = at_path_self host path c h

      by_pointer :
          (x : Option O) → (at_path host path c).0 ≡ x → Saved host path c (save host path new c)
      by_pointer (some w) e = rw (save-found host path new w c e) (record {
        linked = at_linked;
        cached = (w, refl, at_self ∙ ap some e);
        kept = λ q o f k. at_path-Cached host path q o c h f k;
      })
      by_pointer none e = rw (save-new host path new c e) (record {
        linked = assign-IsLinked path (some new) (at_path host path c).1 at_linked;
        cached = (
          new,
          refl,
          assign_self path (some new) none (at_path host path c).1 at_linked (at_self ∙ ap some e),
        );
        kept = λ q o f k.
            assign-Cached path q (some new) o (at_path host path c).1 at_linked
              (λ p. clash (
                sym (at_self ∙ ap some e)
                ∙ subst (λ r. Cached r o (at_path host path c).1) (sym p)
                    (at_path-Cached host path q o c h f k)))
              (at_path-Cached host path q o c h f k);
      })
        where
          clash : {o : O} → ◌≡◌ {A = Option (Option O)} (some none) (some (some o)) → ⊥
          clash e = cc

  -- `remove` keeps the cache, or erases an entry that may be removed.
  remove-cases :
      (host : Host O) (path : Text) (c : Cache O)
      → ((remove host path c).1 ≡ c)
        ⊎ ((x : Option O) × (find_value path c.cache_map ≡ some x)
            × (is_object_removable host.is_removable x ≡ true)
            × ((remove host path c).1 ≡ record c { cache_map = erase_key path c.cache_map }))
  unfolding remove
  remove-cases host path c = by_value (find_value path c.cache_map) refl
    where
      by_value :
          (x : Option (Option O))
          → find_value path c.cache_map ≡ x
          → ((remove host path c).1 ≡ c)
            ⊎ ((x : Option O) × (find_value path c.cache_map ≡ some x)
                × (is_object_removable host.is_removable x ≡ true)
                × ((remove host path c).1 ≡ record c { cache_map = erase_key path c.cache_map }))
      by_value none e = inl (rw (e, remove) refl)
      by_value (some x) e = elim (Bool-cases (is_object_removable host.is_removable x)) [
        | inl t ↦ inr (x, e, t, rw (e, remove, t) refl)
        | inr t ↦ inl (rw (e, remove, t) refl)
      ]

  erased-IsLinked :
      (path : Text) (c : Cache O)
      → IsLinked c
      → IsLinked (record c { cache_map = erase_key path c.cache_map })
  erased-IsLinked path c (l, h) = (_, erase_key-Holds path c.cache_map l h)

  remove-IsLinked :
      (host : Host O) (path : Text) (c : Cache O) → IsLinked c → IsLinked (remove host path c).1
  remove-IsLinked host path c h = elim (remove-cases host path c) [
    | inl e ↦ subst IsLinked (sym e) h
    | inr (x, f, t, e) ↦ subst IsLinked (sym e) (erased-IsLinked path c h)
  ]

  erased-Cached :
      (path q : Text) (o : O) (c : Cache O)
      → IsLinked c
      → path ≢ q
      → Cached q o c
      → Cached q o (record c { cache_map = erase_key path c.cache_map })
  erased-Cached path q o c (l, h) ne k =
      find-Holds _ (remove_key path l) q (erase_key-Holds path c.cache_map l h)
      ∙ ground (arith, value_of-remove l path q, find-Holds c.cache_map l q h, same_iff path q)

  remove-Cached :
      (host : Host O) (path q : Text) (o : O) (c : Cache O)
      → IsLinked c
      → host.is_removable o ≡ false
      → Cached q o c
      → Cached q o (remove host path c).1
  remove-Cached host path q o c h f k = elim (remove-cases host path c) [
    | inl e ↦ subst (Cached q o) (sym e) k
    | inr (x, v, t, e) ↦ subst (Cached q o) (sym e) (erased-Cached path q o c h (apart x v t) k)
  ]
    where
      apart :
          (x : Option O)
          → find_value path c.cache_map ≡ some x
          → is_object_removable host.is_removable x ≡ true
          → path ≢ q
      apart x v t p =
          let same_value : ◌≡◌ {A = Option (Option O)} (some x) (some (some o)) =
            sym v ∙ subst (λ r. find_value r c.cache_map ≡ some (some o)) (sym p) k in
          let same_object : x ≡ some o = cc in
          let free : false ≡ true =
            sym f ∙ subst (λ y. is_object_removable host.is_removable y ≡ true) same_object t in
          cc

  -- One locked section of a thread, at a time when `o` may not be removed: that of find, of fetch (on a path
  -- that is not the root's, or is), of remove, or of lock_object; or the count of a failed fetch.
  pub data Step (o : O) (c : Cache O) : Cache O → Type 0 where
    finds :
        (host : Host O) (path : Text) → host.is_removable o ≡ false → Step o c (find host path c).1
    saves :
        (host : Host O) (path : Text) (new : O)
        → host.is_removable o ≡ false
        → Step o c (save host path new c).1
    removes :
        (host : Host O) (path : Text)
        → host.is_removable o ≡ false
        → Step o c (remove host path c).1
    locks :
        (host : Host O) (path : Text)
        → host.is_removable o ≡ false
        → Step o c (at_path host path c).1
    fails : Step o c (record c { get_failures = suc c.get_failures })

  pub data Steps (o : O) (c : Cache O) : Cache O → Type 0 where
    here : Steps o c c
    next : {d e : Cache O} → Steps o c d → Step o d e → Steps o c e

  Step-kept :
      {c d : Cache O} (o : O) (path : Text)
      → Step o c d
      → IsLinked c × Cached path o c
      → IsLinked d × Cached path o d
  Step-kept {c} o path (finds host p f) (h, k) =
      (find-IsLinked host p c h, find-Cached host p path o c h f k)
  Step-kept {c} o path (saves host p new f) (h, k) =
      let s = save-Saved host p new c h in (s.linked, s.kept path o f k)
  Step-kept {c} o path (removes host p f) (h, k) =
      (remove-IsLinked host p c h, remove-Cached host p path o c h f k)
  Step-kept {c} o path (locks host p f) (h, k) =
      (at_path-IsLinked host p c h, at_path-Cached host p path o c h f k)
  Step-kept o path fails h = h

  Steps-kept :
      (o : O) (path : Text) {c d : Cache O}
      → Steps o c d
      → IsLinked c × Cached path o c
      → IsLinked d × Cached path o d
  Steps-kept o path here h = h
  Steps-kept o path (next r s) h = Step-kept o path s (Steps-kept o path r h)

  -- The pointer that `find` returns, if it is not null, is the one at the path.
  judge_found_self :
      (host : Host O) (path : Text) (x : Option O) (c : Cache O) (o : O)
      → find_value path c.cache_map ≡ some x
      → (judge_found host path x c).0 ≡ some o
      → Cached path o (judge_found host path x c).1
  unfolding judge_found
  judge_found_self host path none c o e f = ground arith
  judge_found_self host path (some w) c o e f = ground arith

  fetch_seen-Cached :
      (host : Host O) (path : Text) (found : Looked) (c d : Cache O) (o : O)
      → IsLinked c
      → fetch_seen host path found c ≡ (object (some o), d)
      → IsLinked d × Cached path o d
  unfolding fetch_seen
  fetch_seen-Cached host path missing c d o h e = absurd (ground arith)
  fetch_seen-Cached host path (failed x) c d o h e = absurd (ground arith)
  fetch_seen-Cached host path (seen res) c d o h e = by_object (host.create path res) refl
    where
      returned :
          (r : Option O × Cache O)
          → Saved host path c r
          → ◌≡◌ {A = Got O × Cache O} (object r.0, r.1) (object (some o), d)
          → IsLinked d × Cached path o d
      returned (x, c') s f =
          let (w, g, k) = s.cached in
          let same_cache : c' ≡ d = ap (λ y. y.1) f in
          let same_pointer : x ≡ some o = ground arith in
          let same_object : w ≡ o = cc in
          (
            subst IsLinked same_cache s.linked,
            subst (λ y. Cached path y d) same_object (subst (Cached path w) same_cache k),
          )

      by_object : (x : Option O) → host.create path res ≡ x → IsLinked d × Cached path o d
      by_object none f = absurd (ground arith)
      by_object (some new) f =
          returned (save host path new c) (save-Saved host path new c h) (rw (f, fetch_seen) at e)

  -- A pointer that `get` has returned is the one at the path, and the map is in order.
  pub get-Cached :
      (host : Host O) (hints : Hints) (path : Text) (c d : Cache O) (o : O)
      → IsLinked c
      → get host hints path c ≡ (object (some o), d)
      → IsLinked d × Cached path o d
  unfolding get fetch
  get-Cached host hints path c d o h e = by_pointer (find host path c).0 refl
    where
      found : Option O × Cache O
      found = find host path c

      by_pointer : (x : Option O) → (find host path c).0 ≡ x → IsLinked d × Cached path o d
      by_pointer none f =
          fetch_seen-Cached host path (look host hints path) (find host path c).1 d o
            (find-IsLinked host path c h) (rw (f, get) at e)
      by_pointer (some w) f =
          let both : ◌≡◌ {A = Got O × Cache O} (object (some w), (find host path c).1)
              (object (some o), d) =
            rw (f, get) at e in
          let same_cache : (find host path c).1 ≡ d = ap (λ y. y.1) both in
          let same_object : w ≡ o = ground arith in
          (
            subst IsLinked same_cache (find-IsLinked host path c h),
            subst (Cached path o) same_cache (find-self (f ∙ ap some same_object)),
          )
        where
          find-self : (find host path c).0 ≡ some o → Cached path o (find host path c).1
          find-self g =
              judge_found_self host path (at_path host path c).0 (at_path host path c).1 o
                (at_path_self host path c h) (unfold find in g)

  find-pinned :
      (host : Host O) (path : Text) (c : Cache O) (o : O)
      → IsLinked c
      → host.is_removable o ≡ false
      → Cached path o c
      → (find host path c).0 ≡ some o
  unfolding find judge_found
  find-pinned host path c o h f k = rw at_object (ground arith)
    where
      at_object : (at_path host path c).0 ≡ some o
      at_object =
          let both : some (at_path host path c).0 ≡ some (some o) =
            sym (at_path_self host path c h) ∙ at_path-Cached host path path o c h f k in
          cc

  -- If `get` has returned an object then, however many other calls on any paths the threads make, whatever
  -- they find in the store and whatever has expired, as long as the object may not be removed, `get` on the
  -- same path returns the same object.
  pub get-again :
      (host later : Host O) (hints again : Hints) (path : Text) (c d e : Cache O) (o : O)
      → IsLinked c
      → get host hints path c ≡ (object (some o), d)
      → Steps o d e
      → later.is_removable o ≡ false
      → (get later again path e).0 ≡ object (some o)
  unfolding get
  get-again host later hints again path c d e o h g s f =
      let (linked, cached) = Steps-kept o path s (get-Cached host hints path c d o h g) in
      rw (find-pinned later path e o linked f cached, get) refl
