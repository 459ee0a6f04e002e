-- ===== src/Threads/Pool.antt =====
-- A thread pool: threads/pool.cc with its queue (work_item_queue.h), its workers (worker.cc,
-- request_worker.cc) and its watchdog, as the sections that threads run under a mutex. A work item is its
-- handle and the retries it has left; a function that runs and what it returns are up to the environment.
pub mod Steps
pub mod Completion
mod Runs
use s3fuse.Prelude.{
  ℕ, zero, suc, ◌-◌, Bool, true, false, ◌&&◌, ◌||◌, not, List, [], ◌∷◌, ◌++◌, Option, none, some,
  ltb, if◌then◌else◌, replicate,
}
use s3fuse.Prelude.Code.{Code, err, etimedout}

pub record WorkItem : Type 0 where
  pub handle : ℕ
  pub retries : ℕ

-- Where the thread of a worker is in `work`: before get_next, behind it, in the item's function, behind it
-- with its code (-ECANCELED for an exception), or out of the loop.
pub data Phase : Type 0 where
  idle : Phase
  taken : WorkItem → Phase
  running : Phase
  returned : Code → Phase
  gone : Phase

pub record Worker : Type 0 where
  pub phase : Phase
  -- Whether `_queue` has not been reset; check_timeout resets it when the watchdog drops the worker.
  pub attached : Bool
  pub current_item : Option WorkItem

-- What the threads of a pool share. `completed` lists the calls of async_handle::complete, the last first.
pub record Shared : Type 0 where
  pub queue : List WorkItem
  pub done : Bool
  pub completed : List (ℕ × Code)
  -- The watchdog's `respawn`, and the counters.
  pub respawn : ℕ
  pub respawn_counter : ℕ
  pub reposted_items : ℕ

pub record Pool : Type 0 where
  pub shared : Shared
  pub workers : List Worker

abbrev pub num_threads_per_pool : ℕ
num_threads_per_pool = 8

unfoldable pub new_worker : Worker
new_worker = record { phase = idle; attached = true; current_item = none }

unfoldable pub new_pool : Pool
unfolding new_worker
new_pool = record {
  shared = record {
    queue = [];
    done = false;
    completed = [];
    respawn = 0;
    respawn_counter = 0;
    reposted_items = 0;
  };
  workers = replicate num_threads_per_pool new_worker;
}

unfoldable pub post : WorkItem → Shared → Shared
post i s = record s { queue = s.queue ++ (i ∷ []) }

unfoldable pub abort : Shared → Shared
abort s = record s { done = true }

unfoldable pub complete : ℕ → Code → Shared → Shared
complete handle code s = record s { completed = (handle, code) ∷ s.completed }

unfoldable pub has_retries_left : WorkItem → Bool
has_retries_left i = ltb 0 i.retries

unfoldable pub decrement_retry_counter : WorkItem → WorkItem
decrement_retry_counter i = record i { retries = i.retries - 1 }

-- check_timeout once the request has timed out; the queue lives, since the pool joins the watchdog
-- before it drops the queue.
unfoldable pub check_timeout : Shared → Worker → Shared × Worker
unfolding post complete has_retries_left decrement_retry_counter
check_timeout s w = (
  record (elim w.current_item [
    | none ↦ s
    | some i ↦
        if has_retries_left i
        then record (post (decrement_retry_counter i) s) { reposted_items = suc s.reposted_items }
        else complete i.handle (err etimedout) s
  ]) { respawn = suc s.respawn; respawn_counter = suc s.respawn_counter },
  record w { attached = false; current_item = none },
)

-- The last section of the loop of `work`.
unfoldable pub finish : Code → Shared → Worker → Shared × Worker
unfolding complete
finish code s w = elim w.current_item [
  | none ↦ (s, record w { phase = idle })
  | some i ↦ (complete i.handle code s, record w { phase = idle; current_item = none })
]

-- The sections of a worker's thread, and the watchdog's check of it.
pub data Section : Type 0 where
  takes starts finishes leaves times_out : Section
  -- The function returns, or throws.
  returns : Code → Section

-- What a section does, where it is due: `none` otherwise.
unfoldable pub act : Bool → Section → Shared → Worker → Option (Shared × Worker)
unfolding check_timeout finish
act use_watchdog takes s w = elim w.phase [
  | idle ↦ elim s.queue [
    | [] ↦ none
    | i ∷ rest ↦
        if w.attached && not s.done
        then some (record s { queue = rest }, record w { phase = taken i })
        else none
  ]
  | _ ↦ none
]
act use_watchdog starts s w = elim w.phase [
  | taken i ↦ some (s, record w { phase = running; current_item = some i })
  | _ ↦ none
]
act use_watchdog (returns c) s w = elim w.phase [
  | running ↦ some (s, record w { phase = returned c })
  | _ ↦ none
]
act use_watchdog finishes s w = elim w.phase [ returned c ↦ some (finish c s w) | _ ↦ none ]
act use_watchdog leaves s w = elim w.phase [
  | idle ↦ if not w.attached || s.done then some (s, record w { phase = gone }) else none
  | _ ↦ none
]
act use_watchdog times_out s w = elim w.phase [
  | running ↦ if use_watchdog && w.attached then some (check_timeout s w) else none
  | _ ↦ none
]

-- The watchdog makes a worker for one that it has dropped.
unfoldable pub respawn_worker : Pool → Option Pool
unfolding new_worker
respawn_worker p = elim p.shared.respawn [
  | zero ↦ none
  | suc n ↦ some (record {
    shared = record p.shared { respawn = n };
    workers = p.workers ++ (new_worker ∷ []);
  })
]

-- The section of the worker that stands between `a` and `b`.
unfoldable pub act_at : Bool → Section → List Worker → Worker → List Worker → Shared → Option Pool
unfolding act
act_at use_watchdog e a w b s = elim (act use_watchdog e s w) [
  | none ↦ none
  | some (s', w') ↦ some (record { shared = s'; workers = a ++ (w' ∷ b) })
]
