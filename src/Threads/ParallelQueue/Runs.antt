-- ===== src/Threads/ParallelQueue/Runs.antt =====
-- Tests of `process`, and the theorems about it at a queue of three parts, one of which is retried.
use s3fuse.Prelude.{ℕ, ◌≡◌, ◌≤◌, ◌&&◌, refl, [], ◌∷◌, some, arith, ◌==◌, if◌then◌else◌, length}
use s3fuse.Prelude.Code.{Code, success, err, eagain, eio}
use s3fuse.Threads.ParallelQueue.{
  Progress, first_attempt, initial_parts, start, collect, post_next, step, process,
}
use s3fuse.Threads.ParallelQueue.Settle.{Decided, process-Decided}
use s3fuse.Threads.ParallelQueue.InFlight.{
  Reach, begin, Reach-bounded, step-overcommits, limit_exceeded,
}

-- The first attempt at part 0 asks to be repeated; all else succeeds.
abbrev flaky : ℕ → ℕ → Code
flaky i c = if i == 0 && c == 0 then err eagain else success

abbrev steady : ℕ → ℕ → Code
steady i c = success

-- Part 1 fails for good.
abbrev broken : ℕ → ℕ → Code
broken i c = if i == 1 then err eio else success

flaky_run :
    process flaky 2 1 3 ≡ some (record { last_part = 3; in_progress = []; status = success })
unfolding process step collect post_next initial_parts
flaky_run = refl

broken_run :
    process broken 2 1 3 ≡ some (record { last_part = 2; in_progress = []; status = err eio })
unfolding process step collect post_next initial_parts
broken_run = refl

process-Decided_example :
    (t : Progress) × (process flaky 2 1 3 ≡ some t) × Decided flaky 2 3 t.status
process-Decided_example = process-Decided flaky 2 1 3 (omega arith)

Reach-bounded_example : length (start 2 3).in_progress ≤ 2
Reach-bounded_example = Reach-bounded steady 1 2 3 (λ i c. refl) (start 2 3) begin

step-overcommits_example :
    length
      (step flaky 2 3 (first_attempt 0) [] (record {
        last_part = 1;
        in_progress = first_attempt 0 ∷ [];
        status = success;
      })).in_progress
    ≡ 2
step-overcommits_example =
    step-overcommits flaky 2 3
      (record { last_part = 1; in_progress = first_attempt 0 ∷ []; status = success })
      (first_attempt 0) [] refl refl (omega arith) refl (omega arith)

limit_exceeded_example : (s : Progress) × Reach flaky 2 1 3 s × (length s.in_progress ≡ 2)
limit_exceeded_example = limit_exceeded flaky 2 1 3 (omega arith) (omega arith) (omega arith) refl
