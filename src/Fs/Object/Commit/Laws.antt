-- ===== src/Fs/Object/Commit/Laws.antt =====
-- What a successful commit says about the store.
use s3fuse.Prelude.{
  ℕ, zero, suc, ◌+◌, ◌≤◌, ◌<◌, ◌≡◌, refl, true, [], ◌∷◌, arith, ◌⊎◌, inl, inr, subst, ◌∙◌, ap,
}
use s3fuse.Prelude.Code.{Errno, err, success, is_failure}
use s3fuse.Prelude.Text.{Text, same_iff, is_empty}
use s3fuse.Base.Http.{Request, Response, Answer, replied, threw, timed_out, sc_ok}
use s3fuse.Fs.Object.Commit.{
  Parsed, unparsed, not_found, found, Sender, commit_request, Round, stop, again, judge,
  compare_etag, State, Outcome, finished, thrown, note, commit_loop, Totals, commit, finish,
}

-- The store answered 200 to the request with the etag, and its answer is empty, or the object had
-- no etag, or the answer names the same etag.
abbrev pub Confirmed : Sender → Text → Answer → Type 0
Confirmed o etag a =
    (res : Response) × (a ≡ replied res)
    × (res.response_code ≡ sc_ok)
    × ((res.output ≡ []) ⊎ (etag ≡ []) ⊎ (o.parse res.output ≡ found etag))

empty-eq : (s : Text) → is_empty s ≡ true → s ≡ []
unfolding is_empty
empty-eq [] h = refl
empty-eq (c ∷ s) h = cc

abbrev Agrees : Text → Parsed → Type 0
Agrees etag p = p ≡ found etag

compare-success : (etag : Text) (p : Parsed) → compare_etag etag p ≡ stop success → Agrees etag p
unfolding compare_etag
compare-success etag unparsed h = ground arith
compare-success etag (not_found e) h = ground arith
compare-success etag (found new_etag) h = ground (arith, same_iff new_etag etag)

judge-success :
    (parse : Text → Parsed) (etag : Text) (res : Response)
    → judge parse etag res ≡ stop success
    → (res.response_code ≡ sc_ok)
      × ((res.output ≡ []) ⊎ (etag ≡ []) ⊎ (parse res.output ≡ found etag))
unfolding judge
judge-success parse etag res h =
    ground (arith, empty-eq res.output, empty-eq etag, compare-success etag (parse res.output))

noted :
    (x : Errno) (s : State)
    → is_failure s.current_error ≡ true
    → is_failure (note x s).current_error ≡ true
unfolding note
noted x s h = ground arith

module _ (o : Sender) (server : ℕ → Request → Answer) where
  -- The round in which the loop ended well.
  abbrev pub Ended : ℕ → ℕ → Text → Type 0
  Ended i n etag = (j : ℕ) × (i ≤ j) × (j < n) × Confirmed o etag (server j (commit_request o etag))

  loop-Ended :
      (k i : ℕ) (s t : State)
      → (is_failure s.current_error ≡ true) ⊎ (0 < k)
      → commit_loop o server k i s ≡ finished t
      → t.current_error ≡ success
      → Ended i (i + k) t.etag
  unfolding commit_loop
  loop-Ended zero i s t (inl f) e ok = absurd (wrong f)
    where
      wrong : is_failure s.current_error ≡ true → ⊥
      wrong f = ground arith
  loop-Ended zero i s t (inr lt) e ok = absurd (omega arith)
  loop-Ended (suc k) i s t pre e ok =
      answered (server i (commit_request o s.etag)) refl (loop-Ended k (suc i))
    where
      Later : Type 0
      Later =
          (u v : State)
          → (is_failure u.current_error ≡ true) ⊎ (0 < k)
          → commit_loop o server k (suc i) u ≡ finished v
          → v.current_error ≡ success
          → Ended (suc i) (suc i + k) v.etag

      judged :
          (res : Response)
          → server i (commit_request o s.etag) ≡ replied res
          → (r : Round) → judge o.parse s.etag res ≡ r
          → Later
          → Ended i (i + suc k) t.etag
      judged res a (stop c) j later = stopped (rw (a, j, commit_loop) at e)
        where
          stopped :
              finished (record s { last_error = s.current_error; current_error = c }) ≡ finished t
              → Ended i (i + suc k) t.etag
          stopped f = (
            i,
            omega arith,
            omega arith,
            subst (λ g. Confirmed o g (server i (commit_request o g))) same_etag confirmed,
          )
            where
              c_ok : c ≡ success
              c_ok = ground arith

              confirmed : Confirmed o s.etag (server i (commit_request o s.etag))
              confirmed =
                  let (p, q) = judge-success o.parse s.etag res (j ∙ ap stop c_ok) in (res, a, p, q)

              same_etag : s.etag ≡ t.etag
              same_etag = ground arith
      judged res a (again x new_etag) j later =
          let u : State =
            note x
              (record s { last_error = s.current_error; current_error = err x; etag = new_etag }) in
          widen (
            later u t
              (inl (
                noted x
                  (record s {
                    last_error = s.current_error;
                    current_error = err x;
                    etag = new_etag;
                  })
                  refl))
              (rw (a, j, commit_loop) at e) ok)
        where
          widen : Ended (suc i) (suc i + k) t.etag → Ended i (i + suc k) t.etag
          widen (n, lo, hi, c) = (n, omega arith, omega arith, c)

      answered :
          (a : Answer) → server i (commit_request o s.etag) ≡ a → Later → Ended i (i + suc k) t.etag
      answered threw a later = ground arith
      answered timed_out a later = ground arith
      answered (replied res) a later = judged res a (judge o.parse s.etag res) refl later

  abbrev first_state : Text → State
  first_state etag = record {
    etag = etag;
    current_error = success;
    last_error = success;
    precon_failed = 0;
    new_etags = 0;
  }

  finished-Ended :
      (m : ℕ) (t : Totals) (out : Outcome)
      → ((s : State) → out ≡ finished s → s.current_error ≡ success → Ended 0 m s.etag)
      → (finish t out).code ≡ success
      → Ended 0 m (finish t out).etag
  unfolding finish
  finished-Ended m t (finished s) h e = h s refl e
  finished-Ended m t (thrown x s) h e = cc

  -- With at least one round allowed, `commit` returns 0 only after a round whose request carried the
  -- etag that the object ends with, and which the store answered by 200 with no other etag: its
  -- answer was empty, or names the same etag, or the object had none.
  pub commit-Ended :
      (max_retries : ℕ) (etag : Text) (t : Totals)
      → 0 < max_retries
      → (commit o server max_retries etag t).code ≡ success
      → Ended 0 max_retries (commit o server max_retries etag t).etag
  unfolding commit
  commit-Ended m etag t h =
      finished-Ended m t (commit_loop o server m 0 (first_state etag))
        λ s e ok. rw plain at (loop-Ended m 0 (first_state etag) s (inr h) e ok)
    where
      plain : 0 + m ≡ m
      plain = omega arith
