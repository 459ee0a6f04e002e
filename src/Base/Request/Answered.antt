-- ===== src/Base/Request/Answered.antt =====
-- What a run that returns has left in the request.
use s3fuse.Prelude.{
  ℕ, zero, suc, ◌+◌, ◌<◌, ◌≡◌, refl, sym, ◌∙◌, ap, true, false, [], Option, none, some, arith,
  Bool-cases, Option-cases, inl, inr, ◌⊎◌, subst,
}
use s3fuse.Base.Http.{Method, Headers}
use s3fuse.Base.Request.{
  CurlCode, curle_ok, RequestState, Hook, perform, rewind, whole_input, returned,
}
use s3fuse.Base.Request.Run.{
  Sent, Host, is_retried, is_ok, Attempt, throws, retries, stops, conclude, prepared, request_of,
  hook_headers, attempt, LoopEnd, raised, left, run_loop, close_run, run, lines_size,
}
use s3fuse.Base.Request.Delivery.{
  delivered, ending, Kept, Kept-trans, perform-Kept, perform-Delivers,
}

-- The attempt `i` at the request that `s` holds has ended with CURLE_OK, and `t` has its answer.
abbrev pub Answered : Host → RequestState → RequestState → ℕ → Type 0
Answered host s t i =
    let w = whole_input s.input_buffer in
    (q : Sent) × (s.method ≡ some q.method)
    × (q.curl_url ≡ s.curl_url)
    × (ending w w (host.perform i q) ≡ (curle_ok, t.response_code, t.last_modified))
    × (t.output_buffer ≡ delivered w w (host.perform i q))

-- The code and the state of an attempt that does not throw.
abbrev outcome_of : Attempt → Option (CurlCode × RequestState)
outcome_of (throws t) = none
outcome_of (retries r b t) = some (r, t)
outcome_of (stops r b t) = some (r, t)

is_ok-curle_ok : (r : CurlCode) → is_ok r ≡ true → r ≡ curle_ok
is_ok-curle_ok curle_ok h = refl
is_ok-curle_ok _ h = absurd (ground arith)

ok_is_not_retried : (r : CurlCode) → is_ok r ≡ true → is_retried r ≡ false
unfolding is_retried
ok_is_not_retried curle_ok h = refl
ok_is_not_retried _ h = absurd (ground arith)

-- What is known of an attempt that is concluded with `r'` and `t`.
record Concluded (r : CurlCode) (code filetime : ℕ) (s : RequestState) (r' : CurlCode)
    (t : RequestState) : Type 0 where
  uncanceled : s.canceled ≡ false
  kept : Kept s t
  ok :
      is_ok r' ≡ true
      → (r ≡ curle_ok)
        × (t.response_code ≡ code)
        × (t.last_modified ≡ filetime)
        × (t.output_buffer ≡ s.output_buffer)

conclude-Concluded :
    (hook : Option Hook) (iter size bytes : ℕ) (r : CurlCode) (code filetime : ℕ) (s : RequestState)
    (r' : CurlCode) (t : RequestState)
    → outcome_of (conclude hook iter size bytes (r, code, filetime, s)) ≡ some (r', t)
    → Concluded r code filetime s r' t
unfolding conclude
conclude-Concluded hook iter size bytes r code filetime s r' t h =
    by_cases (Bool-cases s.canceled) (Bool-cases (is_retried r)) (Bool-cases (is_ok r))
  where
    by_cases :
        (s.canceled ≡ true) ⊎ (s.canceled ≡ false)
        → (is_retried r ≡ true) ⊎ (is_retried r ≡ false)
        → (is_ok r ≡ true) ⊎ (is_ok r ≡ false)
        → Concluded r code filetime s r' t
    by_cases (inl c) b o = absurd (ground arith)
    by_cases (inr c) (inl b) o = record {
      uncanceled = c;
      kept = record {
        method = ground arith;
        url = ground arith;
        curl_url = ground arith;
        input_buffer = ground arith;
      };
      ok = λ y. absurd (ground (arith, ok_is_not_retried r'));
    }
    by_cases (inr c) (inr b) (inr o) = record {
      uncanceled = c;
      kept = record {
        method = ground arith;
        url = ground arith;
        curl_url = ground arith;
        input_buffer = ground arith;
      };
      ok = λ y. absurd (ground arith);
    }
    by_cases (inr c) (inr b) (inl o) = record {
      uncanceled = c;
      kept = record {
        method = ground arith;
        url = ground arith;
        curl_url = ground arith;
        input_buffer = ground arith;
      };
      ok = λ y. (is_ok-curle_ok r o, ground arith, ground arith, ground arith);
    }

prepared-Kept : (deadline : ℕ) (hs : Headers) (s : RequestState) → Kept s (prepared deadline hs s)
unfolding prepared rewind
prepared-Kept deadline hs s = record {
  method = refl;
  url = refl;
  curl_url = refl;
  input_buffer = refl;
}

-- What an attempt that does not throw makes of the request, whose method is given.
record Attempted (host : Host) (iter : ℕ) (s : RequestState) (r : CurlCode) (t : RequestState)
    : Type 0 where
  kept : Kept s t
  answered : is_ok r ≡ true → Answered host s t iter

attempt-Attempted :
    (host : Host) (hook : Option Hook) (method : Method) (timeout_in_s iter bytes : ℕ)
    (s : RequestState) (r : CurlCode) (t : RequestState)
    → s.method ≡ some method
    → outcome_of (attempt host hook method timeout_in_s iter bytes s) ≡ some (r, t)
    → Attempted host iter s r t
unfolding attempt request_of prepared rewind
attempt-Attempted host hook method timeout_in_s iter bytes s r t m h =
    by_headers (hook_headers hook (record s { output_buffer = []; response_headers = [] }) iter)
      refl
  where
    by_headers :
        (o : Option Headers)
        → hook_headers hook (record s { output_buffer = []; response_headers = [] }) iter ≡ o
        → Attempted host iter s r t
    by_headers none e = absurd (ground arith)
    by_headers (some hs) e =
        let q = request_of host method hs s in
        let start = prepared (host.clock iter + timeout_in_s) hs s in
        let p = perform (host.perform iter q) start in
        let c =
          conclude-Concluded hook iter (lines_size q.headers + q.size) bytes p.0 p.1 p.2 p.3 r t
            (rw (attempt, e) at h) in
        let k = prepared-Kept (host.clock iter + timeout_in_s) hs s in
        let d =
          perform-Delivers (host.perform iter q) start (whole_input s.input_buffer)
            (whole_input s.input_buffer) [] refl refl refl c.uncanceled in
        record {
          kept = Kept-trans k (Kept-trans (perform-Kept (host.perform iter q) start) c.kept);
          answered = λ y.
              let (r_ok, code, filetime, same) = c.ok y in
              (q, m, refl, sym d.ended ∙ ground arith, same ∙ d.output_buffer);
        }

-- The request that a loop starts with is `s0`, and `s` is what it has become.
record Entered (host : Host) (s0 : RequestState) (iter : ℕ) (r : CurlCode) (s : RequestState)
    : Type 0 where
  kept : Kept s0 s
  answered : is_ok r ≡ true → (iter ≡ 0) ⊎ ((i : ℕ) × (i < iter) × Answered host s0 s i)

Answered-Kept :
    (host : Host) {s0 s : RequestState} (t : RequestState) (i : ℕ)
    → Kept s0 s
    → Answered host s t i
    → Answered host s0 t i
Answered-Kept host t i k (q, m, u, e, o) = (
  q,
  sym k.method ∙ m,
  u ∙ k.curl_url,
  subst
      (λ b.
        ending (whole_input b) (whole_input b) (host.perform i q)
        ≡ (curle_ok, t.response_code, t.last_modified))
      k.input_buffer e,
  subst (λ b. t.output_buffer ≡ delivered (whole_input b) (whole_input b) (host.perform i q))
      k.input_buffer o,
)

run_loop-Answered :
    (host : Host) (hook : Option Hook) (method : Method) (timeout_in_s k : ℕ) (r : CurlCode)
    (iter bytes : ℕ) (s0 s : RequestState)
    → s0.method ≡ some method
    → 0 < iter + k
    → Entered host s0 iter r s
    → (r' : CurlCode) (iter' bytes' : ℕ) (t : RequestState)
    → run_loop host hook method timeout_in_s k r iter bytes s ≡ left r' iter' bytes' t
    → is_ok r' ≡ true
    → (i : ℕ) × (i < iter + k) × Answered host s0 t i
unfolding run_loop
run_loop-Answered host hook method timeout_in_s zero r iter bytes s0 s m pos n r' iter' bytes' t h
      y =
    by_entered (n.answered (ground arith))
  where
    by_entered :
        (iter ≡ 0) ⊎ ((i : ℕ) × (i < iter) × Answered host s0 s i)
        → (i : ℕ) × (i < iter + 0) × Answered host s0 t i
    by_entered (inl e) = absurd (omega arith)
    by_entered (inr (i, lt, a)) =
        let same : s ≡ t = ground arith in
        (i, omega arith, subst (λ x. Answered host s0 x i) same a)
run_loop-Answered host hook method timeout_in_s (suc k) r iter bytes s0 s m pos n r' iter' bytes' t
      h y =
    by_attempt (attempt host hook method timeout_in_s iter bytes s) refl (λ r1 b1 t1.
      run_loop-Answered host hook method timeout_in_s k r1 (suc iter) b1 s0 t1 m (omega arith))
  where
    attempted :
        (r1 : CurlCode) (t1 : RequestState)
        → outcome_of (attempt host hook method timeout_in_s iter bytes s) ≡ some (r1, t1)
        → Attempted host iter s r1 t1
    attempted r1 t1 =
        attempt-Attempted host hook method timeout_in_s iter bytes s r1 t1 (n.kept.method ∙ m)

    by_attempt :
        (o : Attempt)
        → attempt host hook method timeout_in_s iter bytes s ≡ o
        → ((r1 : CurlCode) (b1 : ℕ) (t1 : RequestState)
            → Entered host s0 (suc iter) r1 t1
            → (r2 : CurlCode) (iter2 b2 : ℕ) (t2 : RequestState)
            → run_loop host hook method timeout_in_s k r1 (suc iter) b1 t1 ≡ left r2 iter2 b2 t2
            → is_ok r2 ≡ true
            → (i : ℕ) × (i < suc iter + k) × Answered host s0 t2 i)
        → (i : ℕ) × (i < iter + suc k) × Answered host s0 t i
    by_attempt (throws t1) e later = absurd (ground arith)
    by_attempt (retries r1 b1 t1) e later =
        let a = attempted r1 t1 (ap outcome_of e) in
        let entered : Entered host s0 (suc iter) r1 t1 = record {
          kept = Kept-trans n.kept a.kept;
          answered = λ z. inr (iter, omega arith, Answered-Kept host t1 iter n.kept (a.answered z));
        } in
        let (i, lt, found) = later r1 b1 t1 entered r' iter' bytes' t (rw (run_loop, e) at h) y in
        (i, omega arith, found)
    by_attempt (stops r1 b1 t1) e later =
        let a = attempted r1 t1 (ap outcome_of e) in
        let same : t1 ≡ t = ground arith in
        let ok : is_ok r1 ≡ true = ground arith in
        (
          iter,
          omega arith,
          subst (λ x. Answered host s0 x iter) same
              (Answered-Kept host t1 iter n.kept (a.answered ok)),
        )

close_run-left :
    (e : LoopEnd) (s' : RequestState)
    → close_run e ≡ returned s'
    → (r : CurlCode) × (iter bytes : ℕ) × (t : RequestState) × (e ≡ left r iter bytes t)
      × (is_ok r ≡ true)
      × (s'.response_code ≡ t.response_code)
      × (s'.last_modified ≡ t.last_modified)
      × (s'.output_buffer ≡ t.output_buffer)
unfolding close_run
close_run-left (raised s) s' h = absurd (ground arith)
close_run-left (left r iter bytes t) s' h =
    (r, iter, bytes, t, refl, ground arith, ground arith, ground arith, ground arith)

-- If a run may make an attempt at all and returns, then one of its attempts, within the limit, has sent the
-- request's method and url, and has ended with CURLE_OK. The output is what libcurl has delivered in
-- that attempt alone, reading the input from its start, and the response code and the time are those of it.
pub run-Answered :
    (host : Host) (hook : Option Hook) (timeout_in_s : ℕ) (s s' : RequestState)
    → 0 < host.max_transfer_retries
    → run host hook timeout_in_s s ≡ returned s'
    → (i : ℕ) × (i < host.max_transfer_retries) × Answered host s s' i
unfolding run
run-Answered host hook timeout_in_s s s' pos h = by_method (Option-cases s.method)
  where
    by_method :
        (s.method ≡ none) ⊎ ((m : Method) × (s.method ≡ some m))
        → (i : ℕ) × (i < host.max_transfer_retries) × Answered host s s' i
    by_method (inl e) = absurd (ground arith)
    by_method (inr (method, e)) =
        let end = run_loop host hook method timeout_in_s host.max_transfer_retries curle_ok 0 0 s in
        let g : close_run end ≡ returned s' = ground arith in
        let (r, iter, bytes, t, left_at, ok, code, filetime, out) = close_run-left end s' g in
        let entered : Entered host s 0 curle_ok s = record {
          kept = record { method = refl; url = refl; curl_url = refl; input_buffer = refl };
          answered = λ y. inl refl;
        } in
        let (i, lt, (q, m, u, ended, delivers)) =
          run_loop-Answered host hook method timeout_in_s host.max_transfer_retries curle_ok 0 0 s s
            e (omega arith) entered r iter bytes t left_at ok in
        let same_answer : (curle_ok, t.response_code, t.last_modified)
            ≡ (curle_ok, s'.response_code, s'.last_modified) =
          ground arith in
        (i, omega arith, (q, m, u, ended ∙ same_answer, out ∙ delivers))
