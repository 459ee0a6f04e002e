-- ===== src/Threads/ParallelQueue/Settle.antt =====
-- The code that `process` returns against what each part, run alone, settles on.
use s3fuse.Prelude.{
  ℕ, zero, suc, ◌+◌, ◌*◌, ◌≤◌, ◌<◌, ◌≡◌, refl, subst, sym, ◌∙◌, List, [], ◌∷◌, ◌++◌, some, arith,
  All, All-append, min, ◌⊎◌, inl, inr, ◌↔◌, Bool-cases, ℕ_discrete, true,
}
use s3fuse.Prelude.Code.{Code, success, is_failure}
use s3fuse.Threads.ParallelQueue.{
  Part, Progress, first_attempt, initial_parts, start, post_next, step, process, settle,
}
use s3fuse.Threads.ParallelQueue.Measure.{post_next-cases, loop-invariant, process-total}
use s3fuse.Threads.ParallelQueue.Rounds.{
  Pending, Pending-left, Pending-last, OnTrack, OnTrack-first, Mid, collect-cases, collect-Mid,
}

module _ (outcome : ℕ → ℕ → Code) (m size : ℕ) where
  -- What holds at each test of the loop.
  record Inv (s : Progress) : Type 0 where
    mid : Mid outcome m size s
    open mid use *
    busy : s.status ≡ success → s.in_progress ≡ [] → s.last_part ≡ size

  not-empty : (xs : List Part) (p : Part) → xs ++ (p ∷ []) ≡ [] → ⊥
  not-empty [] p e = cc
  not-empty (x ∷ xs) p e = cc

  post_next-busy :
      (s : Progress)
      → s.last_part ≤ size
      → (post_next size s).status ≡ success
      → (post_next size s).in_progress ≡ []
      → (post_next size s).last_part ≡ size
  unfolding post_next
  post_next-busy s h st e = ground (arith, not-empty s.in_progress (first_attempt s.last_part))

  -- The second half of a round.
  post_next-Inv : (s : Progress) → Mid outcome m size s → Inv (post_next size s)
  post_next-Inv s v = record { mid = half; busy = post_next-busy s v.bounded }
    where
      next : Part
      next = first_attempt s.last_part

      widen :
          (i : ℕ)
          → i < suc s.last_part
          → s.status ≡ success
          → (settle outcome m i ≡ success) ⊎ Pending i (s.in_progress ++ (next ∷ []))
      widen i lt st = elim (ℕ_discrete s.last_part i) [
        | yes same ↦ inr (Pending-last i s.in_progress next same)
        | no other ↦ elim (v.accounted i (omega arith) st) [
          | inl h ↦ inl h
          | inr h ↦ inr (Pending-left i s.in_progress (next ∷ []) h)
        ]
      ]

      half : Mid outcome m size (post_next size s)
      half = elim (post_next-cases size s) [
        | inl e ↦ subst (Mid outcome m size) (sym e) v
        | inr (lt, st, e) ↦ subst (Mid outcome m size) (sym e) (record {
          on_track =
              All-append (OnTrack outcome m size) s.in_progress (next ∷ []) v.on_track
                (OnTrack-first outcome m size s.last_part lt, tt);
          accounted = widen;
          bounded = lt;
          failed = v.failed;
        })
      ]

  step-Inv :
      (s : Progress) (p : Part) (rest : List Part)
      → s.in_progress ≡ p ∷ rest
      → Inv s
      → Inv (step outcome m size p rest s)
  unfolding step
  step-Inv s p rest e v = post_next-Inv _ (
      collect-Mid outcome m size p rest s _ e v.mid (
        collect-cases outcome m size p (outcome p.id p.retry_count)
          (record s { in_progress = rest })))

  initial-OnTrack : (k i : ℕ) → i + k ≤ size → All (OnTrack outcome m size) (initial_parts i k)
  unfolding initial_parts
  initial-OnTrack zero i h = tt
  initial-OnTrack (suc k) i h =
      (OnTrack-first outcome m size i (omega arith), initial-OnTrack k (suc i) (omega arith))

  initial-Pending : (k i j : ℕ) → i ≤ j → j < i + k → Pending j (initial_parts i k)
  unfolding initial_parts
  initial-Pending zero i j h lt = absurd (omega arith)
  initial-Pending (suc k) i j h lt = elim (ℕ_discrete i j) [
    | yes same ↦ inl same
    | no other ↦ inr (initial-Pending k (suc i) j (omega arith) (omega arith))
  ]

  initial-empty : (k i : ℕ) → initial_parts i k ≡ [] → k ≡ 0
  unfolding initial_parts
  initial-empty zero i e = refl
  initial-empty (suc k) i e = cc

  start-Inv : (max_parts : ℕ) → 0 < max_parts → Inv (start max_parts size)
  unfolding start
  start-Inv k h = record {
    mid = record {
      on_track = initial-OnTrack (min k size) 0 (omega arith);
      accounted = λ i lt _. inr (initial-Pending (min k size) 0 i (omega arith) (omega arith));
      bounded = omega arith;
      failed = λ e. cc;
    };
    busy = λ _ e. omega (arith, initial-empty (min k size) 0 e);
  }

  -- The parts' own codes decide that of the queue.
  abbrev pub Decided : Code → Type 0
  Decided c =
      ((c ≡ success) ↔ ((i : ℕ) → i < size → settle outcome m i ≡ success))
      × (is_failure c ≡ true → (i : ℕ) × (i < size) × (settle outcome m i ≡ c))

  Inv-Decided : (t : Progress) → t.in_progress ≡ [] → Inv t → Decided t.status
  Inv-Decided t e v = ((all_done, one_failed), v.failed)
    where
      all_done : t.status ≡ success → (i : ℕ) → i < size → settle outcome m i ≡ success
      all_done st i lt = elim (v.accounted i (omega (arith, v.busy st e)) st) [
        | inl h ↦ h
        | inr h ↦ absurd (subst (Pending i) e h)
      ]

      one_failed : ((i : ℕ) → i < size → settle outcome m i ≡ success) → t.status ≡ success
      one_failed all = elim (Bool-cases (is_failure t.status)) [
        | inl bad ↦ let (i, lt, h) = v.failed bad in sym h ∙ all i lt
        | inr good ↦ ground arith
      ]

-- Whatever the parts return and however often they are retried, `process` ends, and if it may have
-- a part in progress at all then its code is 0 exactly when every part, retried on its own while
-- its error is EAGAIN or ETIMEDOUT and retries are left, ends with 0; another code is the code that
-- one of the parts ends with.
pub process-Decided :
    (outcome : ℕ → ℕ → Code) (max_retries max_parts_in_progress size : ℕ)
    → 0 < max_parts_in_progress
    → (t : Progress) × (process outcome max_retries max_parts_in_progress size ≡ some t)
      × Decided outcome max_retries size t.status
unfolding process
process-Decided outcome m k size h =
    let (t, e, done) = process-total outcome m k size in
    (
      t,
      e,
      Inv-Decided outcome m size t done (
          loop-invariant outcome m size (Inv outcome m size) (step-Inv outcome m size)
            (suc (size * suc m)) _ t (start-Inv outcome m size k h) e),
    )
