-- ===== src/ApiError/Backoff.antt =====
-- The values of RequeueAfterForAttempt of pkg/scope/errors.go, over every attempt.
use cluster_api_provider_nvi.Common.{
  ℕ, zero, suc, Bool, true, false, ◌≡◌, ◌↔◌, ◌<◌, ◌≤◌, ◌*◌, ◌^◌, ◌&&◌, ◌||◌,
}
use cluster_api_provider_nvi.Common.{ltb, leb, nat_eq, if◌then◌else◌, arith, refl}
use cluster_api_provider_nvi.Common.Int.{ℤ, pos, negsuc}
use native.Mathlib.Decide.{dec_lt}
use cluster_api_provider_nvi.ApiError.{second, requeue_after_for_attempt}

-- 1, 2, 4, 8, 16, 32 and then 60 seconds.
abbrev pub capped_backoff : ℕ → ℕ
capped_backoff attempt = if ltb attempt 6 then 2 ^ attempt * second else 60 * second

-- Whether a test holds for every attempt under a limit.
holds_below : (ℕ → Bool) → ℕ → Bool
holds_below test zero = true
holds_below test (suc limit) = holds_below test limit && test limit

holds_below-true :
    (test : ℕ → Bool) (limit attempt : ℕ)
    → attempt < limit
    → holds_below test limit ≡ true
    → test attempt ≡ true
unfolding holds_below
holds_below-true test zero attempt below e = elim below [ ]
holds_below-true test (suc limit) attempt below e =
    ground (arith, holds_below-true test limit attempt)

same : ℤ → ℕ → Bool
same (pos a) b = nat_eq a b
same (negsuc a) b = false

same_iff : (z : ℤ) (b : ℕ) → (same z b ≡ true) ↔ (z ≡ pos b)
unfolding same
same_iff (pos a) b = ground arith
same_iff (negsuc a) b = ground arith

requeue_after_for_attempt_beyond : (n : ℕ) → ltb n 64 ≡ false → requeue_after_for_attempt n ≡ pos 0
unfolding requeue_after_for_attempt
requeue_after_for_attempt_beyond n h = rw h

-- The table of all shifts that are not 0: capped below 34, and 0 from 55 on.
abbrev row : ℕ → Bool
row n =
    let r = requeue_after_for_attempt n in
    (leb 34 n || same r (capped_backoff n)) && (ltb n 55 || same r 0)

table : holds_below row 64 ≡ true
unfolding holds_below same requeue_after_for_attempt
table = refl

-- For the attempts 0 to 33 the delay is 1, 2, 4, 8, 16, 32 and then always 60 seconds.
pub requeue_after_for_attempt-eq-capped :
    (attempt : ℕ) → attempt < 34 → requeue_after_for_attempt attempt ≡ pos (capped_backoff attempt)
requeue_after_for_attempt-eq-capped n h = ground (
  arith,
  holds_below-true row 64 n (omega arith) table,
  same_iff (requeue_after_for_attempt n) (capped_backoff n),
)

-- From attempt 55 on the shifted product is 0 in 64 bits, and the next attempt follows at once.
pub requeue_after_for_attempt-eq-zero :
    (attempt : ℕ) → 55 ≤ attempt → requeue_after_for_attempt attempt ≡ pos 0
requeue_after_for_attempt-eq-zero n h = elim (dec_lt n 64) [
  | yes p ↦
      ground (arith, holds_below-true row 64 n p table, same_iff (requeue_after_for_attempt n) 0)
  | no p ↦ requeue_after_for_attempt_beyond n (ground arith)
]
