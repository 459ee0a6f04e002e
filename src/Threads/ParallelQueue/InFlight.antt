-- ===== src/Threads/ParallelQueue/InFlight.antt =====
-- How many parts `process` has posted and not yet waited for.
use s3fuse.Prelude.{
  ℕ, zero, suc, ◌≤◌, ◌<◌, ◌≡◌, refl, ap, List, [], ◌∷◌, ◌++◌, arith, length, length-append, min,
  true, false,
}
use s3fuse.Prelude.Code.{Code, success}
use s3fuse.Threads.ParallelQueue.{
  Part, Progress, is_transient, first_attempt, initial_parts, start, collect, post_next, step,
}

module _ (outcome : ℕ → ℕ → Code) (m k size : ℕ) where
  -- The states in which `process` tests for the end of its loop.
  pub data Reach : Progress → Type 0 where
    begin : Reach (start k size)
    round :
        (s : Progress) (p : Part) (rest : List Part)
        → Reach s
        → s.in_progress ≡ p ∷ rest
        → Reach (step outcome m size p rest s)

length-initial : (k i : ℕ) → length (initial_parts i k) ≡ k
unfolding initial_parts
length-initial zero i = refl
length-initial (suc k) i = ap suc (length-initial k (suc i))

length-push : (xs : List Part) (p : Part) → length (xs ++ (p ∷ [])) ≡ suc (length xs)
length-push xs p = omega (arith, length-append xs (p ∷ []))

length-start : (k size : ℕ) → length (start k size).in_progress ≡ min k size
unfolding start
length-start k size = length-initial (min k size) 0

length-step :
    (outcome : ℕ → ℕ → Code) (m size : ℕ) (p : Part) (rest : List Part) (s : Progress)
    → is_transient (outcome p.id p.retry_count) ≡ false
    → length (step outcome m size p rest s).in_progress ≤ suc (length rest)
unfolding step collect post_next
length-step outcome m size p rest s h = ground (arith, length-push rest (first_attempt s.last_part))

-- While no part returns EAGAIN or ETIMEDOUT, at most `max_parts_in_progress` parts are in progress.
pub Reach-bounded :
    (outcome : ℕ → ℕ → Code) (m k size : ℕ)
    → ((i c : ℕ) → is_transient (outcome i c) ≡ false)
    → (s : Progress) → Reach outcome m k size s
    → length s.in_progress ≤ k
Reach-bounded outcome m k size h _ begin = omega (arith, length-start k size)
Reach-bounded outcome m k size h _ (round s p rest r e) = omega (
  arith,
  length-step outcome m size p rest s (h p.id p.retry_count),
  Reach-bounded outcome m k size h s r,
  ap length e,
)

-- A part that fails with EAGAIN or ETIMEDOUT and may be retried is put back, and the same round
-- posts a further part if no part has failed for good and one is left: one more part is in progress
-- than before.
pub step-overcommits :
    (outcome : ℕ → ℕ → Code) (m size : ℕ) (s : Progress) (p : Part) (rest : List Part)
    → s.in_progress ≡ p ∷ rest
    → s.status ≡ success
    → s.last_part < size
    → is_transient (outcome p.id p.retry_count) ≡ true
    → p.retry_count < m
    → length (step outcome m size p rest s).in_progress ≡ suc (length s.in_progress)
unfolding step collect post_next
step-overcommits outcome m size s p rest e ok more tr lt = ground (
  arith,
  ap length e,
  length-push rest (record p { retry_count = suc p.retry_count }),
  length-push (rest ++ (record p { retry_count = suc p.retry_count } ∷ []))
      (first_attempt s.last_part),
)

-- So the limit is passed whenever it is positive and below the number of parts, retries are allowed
-- and the first part's first attempt fails with EAGAIN or ETIMEDOUT.
pub limit_exceeded :
    (outcome : ℕ → ℕ → Code) (m k size : ℕ)
    → 0 < k
    → k < size
    → 0 < m
    → is_transient (outcome 0 0) ≡ true
    → (s : Progress) × Reach outcome m k size s × (length s.in_progress ≡ suc k)
limit_exceeded outcome m k size hk hs hm tr = go (min k size) refl
  where
    go :
        (n : ℕ)
        → min k size ≡ n
        → (s : Progress) × Reach outcome m k size s × (length s.in_progress ≡ suc k)
    go zero e = absurd (omega arith)
    go (suc n) e = (
      step outcome m size (first_attempt 0) (initial_parts 1 n) (start k size),
      round _ _ _ begin posted,
      omega (
        arith,
        length-start k size,
        step-overcommits outcome m size (start k size) (first_attempt 0) (initial_parts 1 n) posted
            (unfold start in refl) (unfold start in omega arith) tr hm,
      ),
    )
      where
        posted : (start k size).in_progress ≡ first_attempt 0 ∷ initial_parts 1 n
        posted = unfold start in unfold initial_parts in rw (e, initial_parts)
