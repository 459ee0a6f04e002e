-- ===== src/Threads/ParallelQueue/Measure.antt =====
-- `process` ends, and never has more than `max_parts_in_progress` parts posted.
use s3fuse.Prelude.{
  ℕ, zero, suc, ◌+◌, ◌-◌, ◌*◌, ◌≤◌, ◌<◌, ◌≡◌, refl, ap, subst, List, [], ◌∷◌, ◌++◌, some, arith,
  length, length-append, min, ◌⊎◌, inl, inr,
}
use s3fuse.Prelude.Code.{Code, success}
use s3fuse.Threads.ParallelQueue.{
  Part, Progress, initial_parts, start, collect, post_next, step, loop, process,
}

-- The attempts that the posted parts can still use.
abbrev budget : ℕ → List Part → ℕ
budget r [] = 0
budget r (p ∷ ps) = suc (r - p.retry_count) + budget r ps

budget-append : (r : ℕ) (xs ys : List Part) → budget r (xs ++ ys) ≡ budget r xs + budget r ys
budget-append r [] ys = omega arith
budget-append r (x ∷ xs) ys = omega (arith, budget-append r xs ys)

abbrev work_left : ℕ → ℕ → Progress → ℕ
work_left max_retries size s =
    (size - s.last_part) * suc max_retries + budget max_retries s.in_progress

-- What a round does to the posted parts, put in one statement for the lemmas below.
collect-budget :
    (m : ℕ) (p : Part) (r : Code) (s : Progress)
    → (budget m (collect m p r s).in_progress ≤ budget m s.in_progress + (m - p.retry_count))
      × ((collect m p r s).last_part ≡ s.last_part)
      × (length (collect m p r s).in_progress ≤ suc (length s.in_progress))
unfolding collect
collect-budget m p r s = ground (
  arith,
  budget-append m s.in_progress (record p { retry_count = suc p.retry_count } ∷ []),
  length-append s.in_progress (record p { retry_count = suc p.retry_count } ∷ []),
)

-- What one more part costs.
spend : (n l m : ℕ) → l < n → (n - l) * suc m ≡ (n - suc l) * suc m + suc m
spend n l m h = omega (arith, ap (λ (k : ℕ). k * suc m) split)
  where
    split : n - l ≡ suc (n - suc l)
    split = omega arith

pub post_next-cases :
    (size : ℕ) (s : Progress)
    → (post_next size s ≡ s)
      ⊎ (s.last_part < size)
        × (s.status ≡ success)
        × (post_next size s ≡ record s {
          last_part = suc s.last_part;
          in_progress = s.in_progress ++ (record { id = s.last_part; retry_count = 0 } ∷ []);
        })
unfolding post_next
post_next-cases size s = ground arith

post_next-work :
    (m size : ℕ) (s : Progress) → work_left m size (post_next size s) ≤ work_left m size s
post_next-work m size s = elim (post_next-cases size s) [
  | inl e ↦ rw e (omega arith)
  | inr (h, _, e) ↦ rw e (
      omega (
        arith,
        spend size s.last_part m h,
        budget-append m s.in_progress (record { id = s.last_part; retry_count = 0 } ∷ []),
      ))
]

module _ (outcome : ℕ → ℕ → Code) (m size : ℕ) where
  -- Each round uses an attempt up.
  step-work :
      (p : Part) (rest : List Part) (s : Progress)
      → s.in_progress ≡ p ∷ rest
      → work_left m size (step outcome m size p rest s) < work_left m size s
  unfolding step
  step-work p rest s e =
      let s' : Progress = record s { in_progress = rest } in
      let c : Progress = collect m p (outcome p.id p.retry_count) s' in
      let (a, b, _) = collect-budget m p (outcome p.id p.retry_count) s' in
      omega
        (arith, post_next-work m size c, a, ap (λ (k : ℕ). (size - k) * suc m) b, ap (budget m) e)

  loop-total :
      (fuel : ℕ) (s : Progress)
      → work_left m size s < fuel
      → (t : Progress) × (loop outcome m size fuel s ≡ some t) × (t.in_progress ≡ [])
  unfolding loop
  loop-total zero s h = absurd (omega arith)
  loop-total (suc fuel) s h = go s.in_progress refl (loop-total fuel)
    where
      go :
          (ps : List Part)
          → s.in_progress ≡ ps
          → ((u : Progress)
              → work_left m size u < fuel
              → (t : Progress) × (loop outcome m size fuel u ≡ some t) × (t.in_progress ≡ []))
          → (t : Progress) × (loop outcome m size (suc fuel) s ≡ some t) × (t.in_progress ≡ [])
      go [] e ih = (s, ground arith, e)
      go (p ∷ rest) e ih =
          rw (e, loop) (ih (step outcome m size p rest s) (omega (arith, step-work p rest s e)))

-- The initial posts.
start-work :
    (k i m : ℕ) → (budget m (initial_parts i k) ≡ k * suc m) × (length (initial_parts i k) ≡ k)
unfolding initial_parts
start-work zero i m = omega arith
start-work (suc k) i m = omega (arith, start-work k (suc i) m)

budget-whole : (a b n : ℕ) → a ≤ n → (n - a) * b + a * b ≡ n * b
budget-whole a b n h = omega (arith, ap (λ (k : ℕ). k * b) split)
  where
    split : n ≡ (n - a) + a
    split = omega arith

-- Whatever the parts return, `process` ends, with no part left in progress.
pub process-total :
    (outcome : ℕ → ℕ → Code) (max_retries max_parts_in_progress size : ℕ)
    → (t : Progress) × (process outcome max_retries max_parts_in_progress size ≡ some t)
      × (t.in_progress ≡ [])
unfolding process start
process-total outcome m k size = loop-total outcome m size (suc (size * suc m)) (start k size) (
    omega
      (arith, start-work (min k size) 0 m, budget-whole (min k size) (suc m) size (omega arith)))

module _ (outcome : ℕ → ℕ → Code) (m size : ℕ) where
  -- An invariant of the rounds holds of the result.
  pub loop-invariant {ℓ} :
      (P : Progress → Type ℓ)
      → ((s : Progress) (p : Part) (rest : List Part)
          → s.in_progress ≡ p ∷ rest
          → P s
          → P (step outcome m size p rest s))
      → (fuel : ℕ) (s t : Progress) → P s
      → loop outcome m size fuel s ≡ some t
      → P t
  unfolding loop
  loop-invariant P keep zero s t h e = cc
  loop-invariant P keep (suc fuel) s t h e = go s.in_progress refl (loop-invariant P keep fuel)
    where
      go :
          (ps : List Part)
          → s.in_progress ≡ ps
          → ((u v : Progress) → P u → loop outcome m size fuel u ≡ some v → P v)
          → P t
      go [] f ih = subst P (ground arith) h
      go (p ∷ rest) f ih = ih (step outcome m size p rest s) t (keep s p rest f h) (ground arith)
