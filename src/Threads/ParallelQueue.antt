-- ===== src/Threads/ParallelQueue.antt =====
-- threads/parallel_work_queue.h. `process` posts parts to a thread pool and waits for them in
-- order. What the pool answers is the section's `outcome`: the code that the attempt number
-- `retry_count` (0 is the first) of the part `id` returns. Each attempt is posted once at most.
pub mod Measure
pub mod Attempts
pub mod Rounds
pub mod Settle
pub mod InFlight
mod Runs
use s3fuse.Prelude.{
  ℕ, zero, suc, ◌+◌, ◌*◌, ◌<◌, Bool, true, false, ◌&&◌, not, List, [], ◌∷◌, ◌++◌, Option, none,
  some, ltb, if◌then◌else◌, min,
}
use s3fuse.Prelude.Code.{Code, Errno, ret, err, success, is_failure, eagain, etimedout}

-- process_part, less the handle: the pool's answer is looked up by `id` and `retry_count`.
pub record Part : Type 0 where
  pub id : ℕ
  pub retry_count : ℕ

-- The local variables of `process`.
pub record Progress : Type 0 where
  pub last_part : ℕ
  pub in_progress : List Part
  pub status : Code

abbrev pub is_transient_errno : Errno → Bool
is_transient_errno Errno.eagain = true
is_transient_errno Errno.etimedout = true
is_transient_errno e = false

-- `part_r == -EAGAIN || part_r == -ETIMEDOUT`
abbrev pub is_transient : Code → Bool
is_transient (ret n) = false
is_transient (err e) = is_transient_errno e

abbrev pub first_attempt : ℕ → Part
first_attempt i = record { id = i; retry_count = 0 }

-- The first loop of `process`, which posts `k` parts from the part `i` on.
unfoldable pub initial_parts : ℕ → ℕ → List Part
initial_parts i zero = []
initial_parts i (suc k) = first_attempt i ∷ initial_parts (suc i) k

unfoldable pub start : ℕ → ℕ → Progress
start max_parts_in_progress size = record {
  last_part = min max_parts_in_progress size;
  in_progress = initial_parts 0 (min max_parts_in_progress size);
  status = success;
}

-- What the body of the second loop does with a part's code: retry, or keep the first failure.
unfoldable pub collect : ℕ → Part → Code → Progress → Progress
collect max_retries p r s =
    if is_failure r
    then if is_transient r && ltb p.retry_count max_retries
      then record s {
        in_progress = s.in_progress ++ (record p { retry_count = suc p.retry_count } ∷ []);
      }
      else if is_failure s.status
      then s
      else record s { status = r }
    else s

-- Post one more of the `size` parts, unless something has failed.
unfoldable pub post_next : ℕ → Progress → Progress
post_next size s =
    if not (is_failure s.status) && ltb s.last_part size
    then record s {
      last_part = suc s.last_part;
      in_progress = s.in_progress ++ (first_attempt s.last_part ∷ []);
    }
    else s

module _ (outcome : ℕ → ℕ → Code) where
  -- The code that the part `i` ends with, if its attempts from number `c` on run alone, with `k`
  -- retries left.
  pub settle_from : ℕ → ℕ → ℕ → Code
  settle_from zero i c = outcome i c
  settle_from (suc k) i c =
      let later = settle_from k i (suc c) in
      if is_transient (outcome i c) then later else outcome i c

module _ (outcome : ℕ → ℕ → Code) (max_retries : ℕ) where
  -- The specification of one part.
  pub settle : ℕ → Code
  settle i = settle_from outcome max_retries i 0

module _ (outcome : ℕ → ℕ → Code) (max_retries size : ℕ) where
  -- One round, with the part `p` taken from the front and `rest` behind it.
  unfoldable pub step : Part → List Part → Progress → Progress
  step p rest s =
      post_next size
        (collect max_retries p (outcome p.id p.retry_count) (record s { in_progress = rest }))

  -- The second loop, on fuel.
  unfoldable pub loop : ℕ → Progress → Option Progress
  loop zero s = none
  loop (suc fuel) s = elim s.in_progress [ [] ↦ some s | p ∷ rest ↦ loop fuel (step p rest s) ]

-- Each round uses up one of the attempts that the parts have.
unfoldable pub process : (ℕ → ℕ → Code) → ℕ → ℕ → ℕ → Option Progress
unfolding loop start
process outcome max_retries max_parts_in_progress size =
    loop outcome max_retries size (suc (size * suc max_retries)) (start max_parts_in_progress size)
