-- ===== src/Threads/Pool/Steps.antt =====
-- The runs of a pool, and what becomes of the items that are posted to it.
use s3fuse.Prelude.{
  ℕ, ◌+◌, ◌*◌, ◌<◌, ◌≡◌, ◌≢◌, refl, ◌∙◌, Bool, true, false, List, [], ◌∷◌, ◌++◌, Option, none, some,
  ◌==◌, if◌then◌else◌, arith, All, All-append,
}
use s3fuse.Prelude.Code.{Code}
use s3fuse.Threads.Pool.{
  WorkItem, idle, taken, running, returned, gone, Worker, Shared, Pool, new_pool, post, complete,
  has_retries_left, decrement_retry_counter, check_timeout, Section, takes, starts, finishes,
  leaves, times_out, returns, act, respawn_worker, act_at, num_threads_per_pool,
}

-- Work of the pool's own threads: a section of a worker, or a respawn.
pub data Work (use_watchdog : Bool) (p q : Pool) : Type 0 where
  section :
      (e : Section) (a b : List Worker) (w : Worker)
      → p.workers ≡ a ++ (w ∷ b)
      → act_at use_watchdog e a w b p.shared ≡ some q
      → Work use_watchdog p q
  respawns : respawn_worker p ≡ some q → Work use_watchdog p q

-- The runs of a pool to which the items have been posted, the last first, and that has not been aborted.
pub data Reach (use_watchdog : Bool) : List WorkItem → Pool → Type 0 where
  start : Reach use_watchdog [] new_pool
  posts :
      {items : List WorkItem} {p : Pool} (i : WorkItem)
      → Reach use_watchdog items p
      → Reach use_watchdog (i ∷ items) (record p { shared = post i p.shared })
  works :
      {items : List WorkItem} {p q : Pool}
      → Reach use_watchdog items p
      → Work use_watchdog p q
      → Reach use_watchdog items q

-- How often a handle stands in a list of items, and in the log of completions.
abbrev pub one_if : Bool → ℕ
one_if b = if b then 1 else 0

abbrev pub count : ℕ → List WorkItem → ℕ
count h [] = 0
count h (i ∷ is) = one_if (i.handle == h) + count h is

abbrev pub completions : ℕ → List (ℕ × Code) → ℕ
completions h [] = 0
completions h ((k, c) ∷ log) = one_if (k == h) + completions h log

-- The item that a worker answers for.
abbrev pub in_hand : Worker → Option WorkItem
in_hand w = elim w.phase [ taken i ↦ some i | _ ↦ w.current_item ]

abbrev pub count_hand : ℕ → Option WorkItem → ℕ
count_hand h none = 0
count_hand h (some i) = one_if (i.handle == h)

abbrev pub hands : ℕ → List Worker → ℕ
hands h [] = 0
hands h (w ∷ ws) = count_hand h (in_hand w) + hands h ws

-- A worker has an item between `starts` and `finishes` only, and always if it is attached.
abbrev pub IsTidy : Worker → Type 0
IsTidy w = elim w.phase [
  | idle ↦ w.current_item ≡ none
  | taken i ↦ w.current_item ≡ none
  | gone ↦ (w.current_item ≡ none) × (w.attached ≡ false)
  | _ ↦ w.attached ≡ true → w.current_item ≢ none
]

-- The work that is left, in sections: each attempt at an item takes less than ten.
abbrev pub load : List WorkItem → ℕ
load [] = 0
load (i ∷ is) = 10 * i.retries + 10 + load is

abbrev effort_of : Option WorkItem → ℕ → ℕ → ℕ
effort_of none more less = less
effort_of (some i) more less = 10 * i.retries + more

abbrev pub effort : Worker → ℕ
effort w = elim w.phase [
  | idle ↦ 1
  | taken i ↦ 10 * i.retries + 9
  | running ↦ effort_of w.current_item 8 3
  | returned c ↦ effort_of w.current_item 7 2
  | gone ↦ 0
]

abbrev pub efforts : List Worker → ℕ
efforts [] = 0
efforts (w ∷ ws) = effort w + efforts ws

abbrev pub work_left : Pool → ℕ
work_left p = load p.shared.queue + efforts p.workers + 2 * p.shared.respawn

-- The workers that the watchdog looks after.
abbrev pub live : List Worker → ℕ
live [] = 0
live (w ∷ ws) = one_if w.attached + live ws

pub count-append : (h : ℕ) (xs ys : List WorkItem) → count h (xs ++ ys) ≡ count h xs + count h ys
count-append h [] ys = omega arith
count-append h (x ∷ xs) ys = omega (arith, count-append h xs ys)

load-append : (xs ys : List WorkItem) → load (xs ++ ys) ≡ load xs + load ys
load-append [] ys = omega arith
load-append (x ∷ xs) ys = omega (arith, load-append xs ys)

-- What a section keeps, by the worker alone.
pub record Kept (h : ℕ) (s : Shared) (w : Worker) (s' : Shared) (w' : Worker) : Type 0 where
  tidy : IsTidy w'
  balanced :
      count h s'.queue + count_hand h (in_hand w') + completions h s'.completed
      ≡ count h s.queue + count_hand h (in_hand w) + completions h s.completed
  still : s'.done ≡ s.done
  lighter : load s'.queue + effort w' + 2 * s'.respawn < load s.queue + effort w + 2 * s.respawn
  manned : one_if w'.attached + s'.respawn ≡ one_if w.attached + s.respawn

takes-Kept :
    (d : Bool) (h : ℕ) (s s' : Shared) (w w' : Worker)
    → IsTidy w
    → s.done ≡ false
    → act d takes s w ≡ some (s', w')
    → Kept h s w s' w'
unfolding act
takes-Kept d h s s' w w' t e a = record {
  tidy = ground arith;
  balanced = ground (arith);
  still = ground arith;
  lighter = ground (arith);
  manned = ground arith;
}

starts-Kept :
    (d : Bool) (h : ℕ) (s s' : Shared) (w w' : Worker)
    → IsTidy w
    → s.done ≡ false
    → act d starts s w ≡ some (s', w')
    → Kept h s w s' w'
unfolding act
starts-Kept d h s s' w w' t e a = record {
  tidy = ground arith;
  balanced = ground (arith);
  still = ground arith;
  lighter = ground (arith);
  manned = ground arith;
}

returns-Kept :
    (d : Bool) (c : Code) (h : ℕ) (s s' : Shared) (w w' : Worker)
    → IsTidy w
    → s.done ≡ false
    → act d (returns c) s w ≡ some (s', w')
    → Kept h s w s' w'
unfolding act
returns-Kept d c h s s' w w' t e a = record {
  tidy = ground arith;
  balanced = ground (arith);
  still = ground arith;
  lighter = ground (arith);
  manned = ground arith;
}

finishes-Kept :
    (d : Bool) (h : ℕ) (s s' : Shared) (w w' : Worker)
    → IsTidy w
    → s.done ≡ false
    → act d finishes s w ≡ some (s', w')
    → Kept h s w s' w'
unfolding act
finishes-Kept d h s s' w w' t e a = record {
  tidy = ground arith;
  balanced = ground (arith);
  still = ground arith;
  lighter = ground (arith);
  manned = ground arith;
}

leaves-Kept :
    (d : Bool) (h : ℕ) (s s' : Shared) (w w' : Worker)
    → IsTidy w
    → s.done ≡ false
    → act d leaves s w ≡ some (s', w')
    → Kept h s w s' w'
unfolding act
leaves-Kept d h s s' w w' t e a = record {
  tidy = ground arith;
  balanced = ground (arith);
  still = ground arith;
  lighter = ground (arith);
  manned = ground arith;
}

times_out-Kept :
    (d : Bool) (h : ℕ) (s s' : Shared) (w w' : Worker)
    → IsTidy w
    → s.done ≡ false
    → act d times_out s w ≡ some (s', w')
    → Kept h s w s' w'
unfolding act check_timeout post has_retries_left decrement_retry_counter complete
times_out-Kept d h s s' w w' t e a = by_item w.current_item refl
  where
    by_item : (o : Option WorkItem) → w.current_item ≡ o → Kept h s w s' w'
    by_item none n = absurd (ground arith)
    by_item (some i) n =
        let j : WorkItem = decrement_retry_counter i in
        record {
          tidy = ground arith;
          balanced = ground (arith, count-append h s.queue (j ∷ []));
          still = ground arith;
          lighter = ground (arith, load-append s.queue (j ∷ []));
          manned = ground arith;
        }

pub act-Kept :
    (d : Bool) (e : Section) (h : ℕ) (s s' : Shared) (w w' : Worker)
    → IsTidy w
    → s.done ≡ false
    → act d e s w ≡ some (s', w')
    → Kept h s w s' w'
act-Kept d takes = takes-Kept d
act-Kept d starts = starts-Kept d
act-Kept d finishes = finishes-Kept d
act-Kept d leaves = leaves-Kept d
act-Kept d times_out = times_out-Kept d
act-Kept d (returns c) = returns-Kept d c

pub hands-append : (h : ℕ) (a b : List Worker) → hands h (a ++ b) ≡ hands h a + hands h b
hands-append h [] b = omega arith
hands-append h (w ∷ a) b = omega (arith, hands-append h a b)

pub efforts-append : (a b : List Worker) → efforts (a ++ b) ≡ efforts a + efforts b
efforts-append [] b = omega arith
efforts-append (w ∷ a) b = omega (arith, efforts-append a b)

pub live-append : (a b : List Worker) → live (a ++ b) ≡ live a + live b
live-append [] b = omega arith
live-append (w ∷ a) b = omega (arith, live-append a b)

pub AllTidy-split : (a b : List Worker) → All IsTidy (a ++ b) → All IsTidy a × All IsTidy b
AllTidy-split [] b t = (tt, t)
AllTidy-split (w ∷ a) b (t, ts) = let (ta, tb) = AllTidy-split a b ts in ((t, ta), tb)

-- The invariant of a pool to which the items have been posted.
pub record Inv (items : List WorkItem) (p : Pool) : Type 0 where
  pub tidy : All IsTidy p.workers
  -- Each handle is in the queue, in a worker's hand or completed, as often as it was posted.
  pub balanced :
      (h : ℕ)
      → count h p.shared.queue + hands h p.workers + completions h p.shared.completed
        ≡ count h items
  pub still : p.shared.done ≡ false
  pub manned : live p.workers + p.shared.respawn ≡ num_threads_per_pool

-- What a step of the pool's threads does to it.
pub record Worked (items : List WorkItem) (p q : Pool) : Type 0 where
  pub inv : Inv items q
  pub lighter : work_left q < work_left p

pub section-Worked :
    (items : List WorkItem) (s s' : Shared) (a b : List Worker) (w w' : Worker)
    → Inv items (record { shared = s; workers = a ++ (w ∷ b) })
    → ((h : ℕ) → Kept h s w s' w')
    → Worked items
        (record { shared = s; workers = a ++ (w ∷ b) })
        (record { shared = s'; workers = a ++ (w' ∷ b) })
section-Worked items s s' a b w w' v k =
    let (ta, tb) = AllTidy-split a (w ∷ b) v.tidy in
    record {
      inv = record {
        tidy = All-append IsTidy a (w' ∷ b) ta ((k 0).tidy, tb.1);
        balanced = λ h. omega (
          arith,
          (k h).balanced,
          v.balanced h,
          hands-append h a (w ∷ b),
          hands-append h a (w' ∷ b),
        );
        still = (k 0).still ∙ v.still;
        manned =
            omega (arith, (k 0).manned, v.manned, live-append a (w ∷ b), live-append a (w' ∷ b));
      };
      lighter = omega (arith, (k 0).lighter, efforts-append a (w ∷ b), efforts-append a (w' ∷ b));
    }
