-- ===== src/Threads/Pool/Runs.antt =====
-- A run of a pool: the first attempt at an item times out, and a new worker makes the second.
use s3fuse.Prelude.{
  ℕ, ◌+◌, ◌++◌, ◌<◌, ◌≡◌, refl, true, false, List, [], ◌∷◌, none, some, replicate, ◌⊎◌,
}
use s3fuse.Prelude.Code.{Code, success, err, etimedout}
use s3fuse.Threads.Pool.{
  WorkItem, Worker, idle, taken, running, returned, gone, Shared, Pool, new_worker, new_pool, post,
  complete, has_retries_left, decrement_retry_counter, check_timeout, finish, takes, starts,
  finishes, leaves, times_out, returns, act, respawn_worker, act_at,
}
use s3fuse.Threads.Pool.Steps.{
  Work, section, respawns, Reach, start, posts, works, count, hands, completions, work_left,
}
use s3fuse.Threads.Pool.Completion.{Reach-balanced, Work-lighter, progress}

abbrev item : WorkItem
item = record { handle = 7; retries = 1 }

abbrev others : List Worker
others = replicate 7 new_worker

abbrev shared_with : List WorkItem → List (ℕ × Code) → ℕ → ℕ → ℕ → Shared
shared_with queue log respawn count reposted = record {
  queue = queue;
  done = false;
  completed = log;
  respawn = respawn;
  respawn_counter = count;
  reposted_items = reposted;
}

-- The first worker has the item.
abbrev attempted : Pool
attempted = record {
  shared = shared_with [] [] 0 0 0;
  workers = record { phase = running; attached = true; current_item = some item } ∷ others;
}

-- The watchdog has taken it away, and posted it again.
abbrev dropped : Worker
dropped = record { phase = running; attached = false; current_item = none }

abbrev timed_out : Pool
timed_out = record {
  shared = shared_with (record { handle = 7; retries = 0 } ∷ []) [] 1 1 1;
  workers = dropped ∷ others;
}

-- The second worker has completed it, and the first one, back from its function, has left.
abbrev completed : Pool
completed = record {
  shared = shared_with [] ((7, success) ∷ []) 0 1 1;
  workers = record { phase = gone; attached = false; current_item = none } ∷ replicate 8 new_worker;
}

start-attempted : Reach true (item ∷ []) attempted
unfolding act_at act new_pool new_worker post
start-attempted =
    works (works (posts item start) (section takes [] others new_worker refl refl))
      (section starts [] others (record new_worker { phase = taken item }) refl refl)

attempted-timed_out : Work true attempted timed_out
unfolding act_at act check_timeout post has_retries_left decrement_retry_counter complete new_worker
attempted-timed_out =
    section times_out [] others (record new_worker { phase = running; current_item = some item })
      refl refl

start-completed : Reach true (item ∷ []) completed
unfolding act_at act finish complete respawn_worker new_worker
start-completed =
    let again : WorkItem = record { handle = 7; retries = 0 } in
    let rest : List Worker = replicate 6 new_worker ++ (new_worker ∷ []) in
    let back : Worker = record dropped { phase = returned (err etimedout) } in
    works
      (works
        (works
          (works
            (works
              (works
                (works (works (works start-attempted attempted-timed_out) (respawns refl))
                  (section takes (dropped ∷ []) rest new_worker refl refl))
                (section starts (dropped ∷ []) rest (record new_worker { phase = taken again }) refl
                  refl))
              (section (returns success) (dropped ∷ []) rest
                (record new_worker { phase = running; current_item = some again }) refl refl))
            (section (returns (err etimedout)) [] _ dropped refl refl))
          (section finishes (back ∷ []) rest
            (record new_worker { phase = returned success; current_item = some again }) refl refl))
        (section finishes [] _ back refl refl))
      (section leaves [] _ (record dropped { phase = idle }) refl refl)

Reach-balanced_example :
    count 7 completed.shared.queue
      + hands 7 completed.workers
      + completions 7 completed.shared.completed
    ≡ count 7 (item ∷ [])
Reach-balanced_example = Reach-balanced 7 start-completed

Work-lighter_example : work_left timed_out < work_left attempted
Work-lighter_example = Work-lighter timed_out start-attempted attempted-timed_out

progress_example :
    ((q : Pool) × Work true completed q)
    ⊎ ((h : ℕ) → completions h completed.shared.completed ≡ count h (item ∷ []))
progress_example = progress true (item ∷ []) completed start-completed
