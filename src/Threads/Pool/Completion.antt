-- ===== src/Threads/Pool/Completion.antt =====
-- Every item that is posted to a pool is completed, once.
use s3fuse.Prelude.{
  ℕ, zero, suc, ◌+◌, ◌<◌, ◌≡◌, refl, sym, ◌∙◌, subst, Bool, true, false, List, [], ◌∷◌, ◌++◌,
  Option, none, some, arith, replicate, All, All-append, Bool-cases, inl, inr, ◌⊎◌, append_assoc,
}
use s3fuse.Prelude.Code.{success}
use s3fuse.Threads.Pool.{
  WorkItem, Phase, idle, taken, running, returned, gone, Worker, Shared, Pool, new_worker, new_pool,
  post, Section, takes, starts, finishes, returns, act, respawn_worker, act_at, finish,
}
use s3fuse.Threads.Pool.Steps.{
  Work, section, respawns, Reach, start, posts, works, count, completions, in_hand, hands, IsTidy,
  live, work_left, Inv, Worked, section-Worked, act-Kept, count-append, hands-append,
  efforts-append, live-append, AllTidy-split,
}

act_at-some :
    (d : Bool) (e : Section) (a : List Worker) (w : Worker) (b : List Worker) (s : Shared)
    (q : Pool)
    → act_at d e a w b s ≡ some q
    → (s' : Shared) × (w' : Worker) × (act d e s w ≡ some (s', w'))
      × (q ≡ record { shared = s'; workers = a ++ (w' ∷ b) })
unfolding act_at
act_at-some d e a w b s q h = by_result (act d e s w) refl
  where
    by_result :
        (o : Option (Shared × Worker))
        → act d e s w ≡ o
        → (s' : Shared) × (w' : Worker) × (o ≡ some (s', w'))
          × (q ≡ record { shared = s'; workers = a ++ (w' ∷ b) })
    by_result none f = absurd (ground arith)
    by_result (some (s', w')) f = (s', w', refl, ground arith)

respawn-Worked :
    (items : List WorkItem) (p q : Pool)
    → Inv items p
    → respawn_worker p ≡ some q
    → Worked items p q
unfolding respawn_worker new_worker
respawn-Worked items p q v e = by_count p.shared.respawn refl
  where
    by_count : (n : ℕ) → p.shared.respawn ≡ n → Worked items p q
    by_count zero f = absurd (ground arith)
    by_count (suc n) f =
        let made : q ≡ record {
          shared = record p.shared { respawn = n };
          workers = p.workers ++ (new_worker ∷ []);
        } =
          ground arith in
        rw made (record {
          inv = record {
            tidy = All-append IsTidy p.workers (new_worker ∷ []) v.tidy (refl, tt);
            balanced = λ h. omega (arith, v.balanced h, hands-append h p.workers (new_worker ∷ []));
            still = v.still;
            manned = omega (arith, v.manned, f, live-append p.workers (new_worker ∷ []));
          };
          lighter = omega (arith, f, efforts-append p.workers (new_worker ∷ []));
        })

Work-Worked :
    (d : Bool) (items : List WorkItem) (p q : Pool) → Inv items p → Work d p q → Worked items p q
Work-Worked d items p q v (respawns e) = respawn-Worked items p q v e
Work-Worked d items p q v (section e a b w at_w h) =
    let (s', w', f, made) = act_at-some d e a w b p.shared q h in
    let same : p ≡ record { shared = p.shared; workers = a ++ (w ∷ b) } = ground arith in
    let v' : Inv items (record { shared = p.shared; workers = a ++ (w ∷ b) }) =
      subst (Inv items) same v in
    let tidy_w : IsTidy w = (AllTidy-split a (w ∷ b) v'.tidy).1.0 in
    rw made (
      subst (λ r. Worked items r (record { shared = s'; workers = a ++ (w' ∷ b) })) (sym same)
        (section-Worked items p.shared s' a b w w' v'
          (λ h. act-Kept d e h p.shared s' w w' tidy_w v.still f)))

hands-new : (h n : ℕ) → hands h (replicate n new_worker) ≡ 0
unfolding new_worker
hands-new h zero = refl
hands-new h (suc n) = omega (arith, hands-new h n)

live-new : (n : ℕ) → live (replicate n new_worker) ≡ n
unfolding new_worker
live-new zero = refl
live-new (suc n) = omega (arith, live-new n)

IsTidy-new : (n : ℕ) → All IsTidy (replicate n new_worker)
unfolding new_worker
IsTidy-new zero = tt
IsTidy-new (suc n) = (refl, IsTidy-new n)

new-Inv : Inv [] new_pool
unfolding new_pool
new-Inv = record {
  tidy = IsTidy-new 8;
  balanced = λ h. omega (arith, hands-new h 8);
  still = refl;
  manned = omega (arith, live-new 8);
}

post-Inv :
    (i : WorkItem) (items : List WorkItem) (p : Pool)
    → Inv items p
    → Inv (i ∷ items) (record p { shared = post i p.shared })
unfolding post
post-Inv i items p v = record {
  tidy = v.tidy;
  balanced = λ h. omega (arith, v.balanced h, count-append h p.shared.queue (i ∷ []));
  still = v.still;
  manned = v.manned;
}

pub Reach-Inv : {d : Bool} {items : List WorkItem} {p : Pool} → Reach d items p → Inv items p
Reach-Inv start = new-Inv
Reach-Inv (posts {items} {p} i r) = post-Inv i items p (Reach-Inv r)
Reach-Inv (works {items} {p} {q} r k) = (Work-Worked _ items p q (Reach-Inv r) k).inv

-- A worker that waits: it has nothing in hand, and nothing to take.
abbrev Waits : Shared → Worker → Type 0
Waits s w = (in_hand w ≡ none) × (w.attached ≡ true → s.queue ≡ [])

-- A worker either waits or has a section that is due.
blocked_or_due :
    (d : Bool) (s : Shared) (w : Worker)
    → IsTidy w
    → s.done ≡ false
    → Waits s w ⊎ ((e : Section) × (s' : Shared) × (w' : Worker) × (act d e s w ≡ some (s', w')))
unfolding act
blocked_or_due d s w t n = by_phase w.phase refl
  where
    Result : Type 0
    Result =
        Waits s w ⊎ ((e : Section) × (s' : Shared) × (w' : Worker) × (act d e s w ≡ some (s', w')))

    by_phase : (f : Phase) → w.phase ≡ f → Result
    by_phase (taken i) e =
        inr (starts, s, record w { phase = running; current_item = some i }, rw (e, act) refl)
    by_phase running e =
        inr (returns success, s, record w { phase = returned success }, rw (e, act) refl)
    by_phase (returned c) e = inr (finishes, (finish c s w).0, (finish c s w).1, rw (e, act) refl)
    by_phase gone e = inl (ground arith, ground arith)
    by_phase idle e = by_queue s.queue refl (Bool-cases w.attached)
      where
        by_queue :
            (is : List WorkItem)
            → s.queue ≡ is
            → (w.attached ≡ true) ⊎ (w.attached ≡ false)
            → Result
        by_queue [] q a = inl (ground arith, λ _. q)
        by_queue (i ∷ rest) q (inr a) = inl (ground arith, ground arith)
        by_queue (i ∷ rest) q (inl a) =
            inr (takes, record s { queue = rest }, record w { phase = taken i }, ground arith)

blocked_or_progressing :
    (d : Bool) (p : Pool) (a b : List Worker)
    → p.workers ≡ a ++ b
    → All IsTidy b
    → p.shared.done ≡ false
    → All (Waits p.shared) b ⊎ ((q : Pool) × Work d p q)
unfolding act_at
blocked_or_progressing d p a [] e t n = inl tt
blocked_or_progressing d p a (w ∷ b) e (t, ts) n =
    by_worker (blocked_or_due d p.shared w t n)
      (blocked_or_progressing d p (a ++ (w ∷ [])) b (e ∙ sym (append_assoc a (w ∷ []) b)) ts n)
  where
    by_worker :
        Waits p.shared w
          ⊎ ((e : Section) × (s' : Shared) × (w' : Worker) × (act d e p.shared w ≡ some (s', w')))
        → All (Waits p.shared) b ⊎ ((q : Pool) × Work d p q)
        → All (Waits p.shared) (w ∷ b) ⊎ ((q : Pool) × Work d p q)
    by_worker (inl x) (inl xs) = inl (x, xs)
    by_worker (inl x) (inr k) = inr k
    by_worker (inr (sec, s', w', f)) rest =
        inr (
          record { shared = s'; workers = a ++ (w' ∷ b) },
          section sec a b w e (rw (f, act_at) refl),
        )

waiting-hands : (s : Shared) (h : ℕ) (ws : List Worker) → All (Waits s) ws → hands h ws ≡ 0
waiting-hands s h [] t = refl
waiting-hands s h (w ∷ ws) (t, ts) = ground (arith, waiting-hands s h ws ts)

waiting-queue : (s : Shared) (ws : List Worker) → All (Waits s) ws → 0 < live ws → s.queue ≡ []
waiting-queue s [] t lt = absurd (omega arith)
waiting-queue s (w ∷ ws) (t, ts) lt = ground (arith, waiting-queue s ws ts)

-- In a run of a pool that is not aborted, each handle has been completed as often as an item was posted
-- with it, less the items in the queue or in the hand of a worker: no item is lost, and none is completed twice,
-- whatever times out, is posted again or comes back late.
pub Reach-balanced :
    {d : Bool} {items : List WorkItem} {p : Pool} (h : ℕ)
    → Reach d items p
    → count h p.shared.queue + hands h p.workers + completions h p.shared.completed ≡ count h items
Reach-balanced h r = (Reach-Inv r).balanced h

-- Every step of the pool's own threads, in whatever order, uses up some of the work that is left.
pub Work-lighter :
    {d : Bool} {items : List WorkItem} {p : Pool} (q : Pool)
    → Reach d items p
    → Work d p q
    → work_left q < work_left p
Work-lighter {d} {items} {p} q r k = (Work-Worked d items p q (Reach-Inv r) k).lighter

-- In a run of a pool that is not aborted, a thread of the pool can take a step, or every handle has been
-- completed as often as an item was posted with it.
pub progress :
    (d : Bool) (items : List WorkItem) (p : Pool)
    → Reach d items p
    → ((q : Pool) × Work d p q) ⊎ ((h : ℕ) → completions h p.shared.completed ≡ count h items)
unfolding respawn_worker
progress d items p r = by_respawn p.shared.respawn refl
  where
    v : Inv items p
    v = Reach-Inv r

    Result : Type 0
    Result =
        ((q : Pool) × Work d p q) ⊎ ((h : ℕ) → completions h p.shared.completed ≡ count h items)

    settled :
        p.shared.respawn ≡ 0
        → All (Waits p.shared) p.workers
        → (h : ℕ) → completions h p.shared.completed ≡ count h items
    settled n t h = ground (
      arith,
      v.balanced h,
      waiting-hands p.shared h p.workers t,
      waiting-queue p.shared p.workers t (omega (arith, v.manned)),
    )

    by_respawn : (n : ℕ) → p.shared.respawn ≡ n → Result
    by_respawn (suc n) e = inl (
      record { shared = record p.shared { respawn = n }; workers = p.workers ++ (new_worker ∷ []) },
      respawns (rw (e, respawn_worker) refl),
    )
    by_respawn zero e = elim (blocked_or_progressing d p [] p.workers refl v.tidy v.still) [
      | inl t ↦ inr (settled e t)
      | inr w ↦ inl w
    ]
