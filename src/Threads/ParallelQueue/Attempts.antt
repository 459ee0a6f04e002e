-- ===== src/Threads/ParallelQueue/Attempts.antt =====
-- The attempt of a part that decides its code.
use s3fuse.Prelude.{
  ℕ, zero, suc, ◌+◌, ◌≤◌, ◌<◌, ◌≡◌, ◌==◌, refl, ap, true, inl, inr, Bool-cases, if◌then◌else◌,
  arith,
}
use s3fuse.Prelude.Code.{Code}
use s3fuse.Threads.ParallelQueue.{is_transient, settle_from, settle}

module _ (outcome : ℕ → ℕ → Code) where
  -- The number of the last attempt of part `i`, from number `c` on with `k` retries left.
  unfoldable pub last_from : ℕ → ℕ → ℕ → ℕ
  last_from zero i c = c
  last_from (suc k) i c =
      let later = last_from k i (suc c) in if is_transient (outcome i c) then later else c

  last_from-bounds : (k i c : ℕ) → (c ≤ last_from k i c) × (last_from k i c ≤ c + k)
  unfolding last_from
  last_from-bounds zero i c = omega arith
  last_from-bounds (suc k) i c = ground (arith, last_from-bounds k i (suc c))

  settle_from-last : (k i c : ℕ) → settle_from outcome k i c ≡ outcome i (last_from k i c)
  unfolding last_from settle_from
  settle_from-last zero i c = refl
  settle_from-last (suc k) i c = ground (arith, settle_from-last k i (suc c))

  -- Each attempt before the last is retried.
  last_from-earlier :
      (k i c b : ℕ) → c ≤ b → b < last_from k i c → is_transient (outcome i b) ≡ true
  unfolding last_from
  last_from-earlier zero i c b le lt = absurd (omega arith)
  last_from-earlier (suc k) i c b le lt = elim (Bool-cases (b == c)) [
    | inl e ↦
        let same_attempt : b ≡ c = ground arith in
        ground (arith, ap (λ x. is_transient (outcome i x)) same_attempt)
    | inr n ↦
        let next : suc c ≤ b = ground arith in ground (arith, last_from-earlier k i (suc c) b next)
  ]

  unfoldable pub last_attempt : ℕ → ℕ → ℕ
  last_attempt max_retries i = last_from max_retries i 0

  pub last_attempt-le : (m i : ℕ) → last_attempt m i ≤ m
  unfolding last_attempt
  last_attempt-le m i = omega (arith, last_from-bounds m i 0)

  pub last_attempt-earlier : (m i b : ℕ) → b < last_attempt m i → is_transient (outcome i b) ≡ true
  unfolding last_attempt
  last_attempt-earlier m i b lt = last_from-earlier m i 0 b (omega arith) lt

  pub settle-last_attempt : (m i : ℕ) → settle outcome m i ≡ outcome i (last_attempt m i)
  unfolding last_attempt settle
  settle-last_attempt m i = settle_from-last m i 0
