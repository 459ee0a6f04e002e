-- ===== src/Threads/ParallelQueue/Rounds.antt =====
-- The first half of a round of `process`, in which the code of one part is collected.
use s3fuse.Prelude.{
  ℕ, zero, suc, ◌-◌, ◌≤◌, ◌<◌, ◌≡◌, refl, ap, subst, sym, ◌∙◌, List, [], ◌∷◌, ◌++◌, true, false,
  arith, All, All-append, ◌⊎◌, inl, inr,
}
use s3fuse.Prelude.Code.{Code, success, is_failure}
use s3fuse.Threads.ParallelQueue.{
  Part, Progress, is_transient, first_attempt, collect, settle_from, settle,
}

-- Some attempt of the part `i` is in progress.
abbrev pub Pending : ℕ → List Part → Type 0
Pending i [] = ⊥
Pending i (p ∷ ps) = (p.id ≡ i) ⊎ Pending i ps

pub Pending-left : (i : ℕ) (xs ys : List Part) → Pending i xs → Pending i (xs ++ ys)
Pending-left i [] ys h = elim h [ ]
Pending-left i (x ∷ xs) ys (inl e) = inl e
Pending-left i (x ∷ xs) ys (inr h) = inr (Pending-left i xs ys h)

pub Pending-last : (i : ℕ) (xs : List Part) (p : Part) → p.id ≡ i → Pending i (xs ++ (p ∷ []))
Pending-last i [] p e = inl e
Pending-last i (x ∷ xs) p e = inr (Pending-last i xs p e)

module _ (outcome : ℕ → ℕ → Code) (m size : ℕ) where
  -- A posted part has used `retry_count` transient attempts, and its next ones decide.
  abbrev pub OnTrack : Part → Type 0
  OnTrack p =
      (p.id < size)
      × (p.retry_count ≤ m)
      × (settle_from outcome (m - p.retry_count) p.id p.retry_count ≡ settle outcome m p.id)

  -- What holds between the two halves of a round.
  pub record Mid (s : Progress) : Type 0 where
    pub on_track : All OnTrack s.in_progress
    pub accounted :
        (i : ℕ)
        → i < s.last_part
        → s.status ≡ success
        → (settle outcome m i ≡ success) ⊎ Pending i s.in_progress
    pub bounded : s.last_part ≤ size
    pub failed : is_failure s.status ≡ true → (i : ℕ) × (i < size) × (settle outcome m i ≡ s.status)

  settle-stop :
      (k i c : ℕ) → is_transient (outcome i c) ≡ false → settle_from outcome k i c ≡ outcome i c
  unfolding settle_from
  settle-stop zero i c h = refl
  settle-stop (suc k) i c h = rw h

  settle-retry :
      (i c : ℕ)
      → is_transient (outcome i c) ≡ true
      → c < m
      → settle_from outcome (m - c) i c ≡ settle_from outcome (m - suc c) i (suc c)
  unfolding settle_from
  settle-retry i c h lt = rw (split, settle_from, h)
    where
      split : m - c ≡ suc (m - suc c)
      split = omega arith

  settle-last : (i c : ℕ) → m ≤ c → settle_from outcome (m - c) i c ≡ outcome i c
  unfolding settle_from
  settle-last i c h = rw (none_left, settle_from)
    where
      none_left : m - c ≡ 0
      none_left = omega arith

  -- The three things that `collect` does.
  abbrev pub Collected : Part → Code → Progress → Progress → Type 0
  Collected p r s t =
      ((r ≡ success) × (t ≡ s))
      ⊎ ((is_transient r ≡ true)
          × (p.retry_count < m)
          × (t ≡ record s {
            in_progress = s.in_progress ++ (record p { retry_count = suc p.retry_count } ∷ []);
          }))
      ⊎ ((is_failure r ≡ true)
          × ((is_transient r ≡ false) ⊎ (m ≤ p.retry_count))
          × (((is_failure s.status ≡ true) × (t ≡ s))
              ⊎ ((s.status ≡ success) × (t ≡ record s { status = r }))))

  pub collect-cases : (p : Part) (r : Code) (s : Progress) → Collected p r s (collect m p r s)
  unfolding collect
  collect-cases p r s = ground arith

  OnTrack-settles :
      (p : Part)
      → OnTrack p
      → (is_transient (outcome p.id p.retry_count) ≡ false) ⊎ (m ≤ p.retry_count)
      → settle outcome m p.id ≡ outcome p.id p.retry_count
  OnTrack-settles p (_, _, e) (inl h) = sym e ∙ settle-stop _ p.id p.retry_count h
  OnTrack-settles p (_, _, e) (inr h) = sym e ∙ settle-last p.id p.retry_count h

  OnTrack-retry :
      (p : Part)
      → OnTrack p
      → is_transient (outcome p.id p.retry_count) ≡ true
      → p.retry_count < m
      → OnTrack (record p { retry_count = suc p.retry_count })
  OnTrack-retry p (a, b, e) h lt = (a, lt, sym (settle-retry p.id p.retry_count h lt) ∙ e)

  pub not-both : (c : Code) → is_failure c ≡ true → c ≡ success → ⊥
  not-both c h e = ground arith

  -- The first half of a round, which takes `p` off the front.
  pub collect-Mid :
      (p : Part) (rest : List Part) (s t : Progress)
      → s.in_progress ≡ p ∷ rest
      → Mid s
      → Collected p (outcome p.id p.retry_count) (record s { in_progress = rest }) t
      → Mid t
  collect-Mid p rest s t e v (inl (ok, refl_t)) = subst Mid (sym refl_t) (record {
    on_track = tracks.1;
    accounted = λ i lt st. step_over i (v.accounted i lt st);
    bounded = v.bounded;
    failed = v.failed;
  })
    where
      tracks : All OnTrack (p ∷ rest)
      tracks = subst (All OnTrack) e v.on_track

      settled : settle outcome m p.id ≡ success
      settled = OnTrack-settles p tracks.0 (inl (rw ok)) ∙ ok

      step_over :
          (i : ℕ)
          → (settle outcome m i ≡ success) ⊎ Pending i s.in_progress
          → (settle outcome m i ≡ success) ⊎ Pending i rest
      step_over i (inl h) = inl h
      step_over i (inr h) = elim (subst (Pending i) e h) [
        | inl same ↦ inl (subst (λ k. settle outcome m k ≡ success) same settled)
        | inr later ↦ inr later
      ]
  collect-Mid p rest s t e v (inr (inl (tr, lt, refl_t))) = subst Mid (sym refl_t) (record {
    on_track = All-append OnTrack rest (again ∷ []) tracks.1 (OnTrack-retry p tracks.0 tr lt, tt);
    accounted = λ i h st. requeue i (v.accounted i h st);
    bounded = v.bounded;
    failed = v.failed;
  })
    where
      again : Part
      again = record p { retry_count = suc p.retry_count }

      tracks : All OnTrack (p ∷ rest)
      tracks = subst (All OnTrack) e v.on_track

      requeue :
          (i : ℕ)
          → (settle outcome m i ≡ success) ⊎ Pending i s.in_progress
          → (settle outcome m i ≡ success) ⊎ Pending i (rest ++ (again ∷ []))
      requeue i (inl h) = inl h
      requeue i (inr h) = elim (subst (Pending i) e h) [
        | inl same ↦ inr (Pending-last i rest again same)
        | inr later ↦ inr (Pending-left i rest (again ∷ []) later)
      ]
  collect-Mid p rest s t e v (inr (inr (bad, final, inl (old, refl_t)))) =
      subst Mid (sym refl_t) (record {
        on_track = (subst (All OnTrack) e v.on_track).1;
        accounted = λ i lt st. absurd (not-both s.status old st);
        bounded = v.bounded;
        failed = v.failed;
      })
  collect-Mid p rest s t e v (inr (inr (bad, final, inr (_, refl_t)))) =
      subst Mid (sym refl_t) (record {
        on_track = tracks.1;
        accounted = λ i lt st. absurd (not-both (outcome p.id p.retry_count) bad st);
        bounded = v.bounded;
        failed = λ _. (p.id, tracks.0.0, OnTrack-settles p tracks.0 final);
      })
    where
      tracks : All OnTrack (p ∷ rest)
      tracks = subst (All OnTrack) e v.on_track

  pub OnTrack-first : (i : ℕ) → i < size → OnTrack (first_attempt i)
  unfolding settle
  OnTrack-first i h = (h, omega arith, ap (λ (k : ℕ). settle_from outcome k i 0) all_left)
    where
      all_left : m - 0 ≡ m
      all_left = omega arith
