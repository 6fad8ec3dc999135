-- ===== src/RetryPolicy/Backoff.antt =====
-- The backoff and the age limit.
use scamanager.Prelude.{ℕ, suc, ◌+◌, ◌*◌, ◌≤◌, max, ◌≡◌, ap, ◌↔◌, true, arith}
use native.Mathlib.Nat.{pow-suc}
use scamanager.Prelude.Int.{ℤ, pos, negsuc}
use scamanager.RetryPolicy.Defs.{
  seconds, hours, backoff_base, IsJitter, compute_next_retry_at, is_expired,
}

-- The base never passes the cap.
pub backoff_base-le : (attempts initial limit : ℕ) → backoff_base attempts initial limit ≤ limit
unfolding backoff_base
backoff_base-le attempts initial limit = omega arith

-- The base is never smaller after one more attempt.
pub backoff_base_mono :
    (attempts initial limit : ℕ)
    → backoff_base attempts initial limit ≤ backoff_base (suc attempts) initial limit
unfolding backoff_base
backoff_base_mono attempts initial limit =
    omega (arith, ap (λ (t : ℕ). initial * t) (pow-suc 2 attempts))

-- Whatever is drawn within a quarter of the base, the next retry lies at least one second ahead,
-- at least three quarters of the base ahead, and no further ahead than five quarters of the cap (or
-- the one second, if that is more).
pub compute_next_retry_at_bounds :
    (attempts now initial limit : ℕ) (jitter : ℤ)
    → IsJitter (backoff_base attempts initial limit) jitter
    → (now + seconds 1 ≤ compute_next_retry_at attempts now initial limit jitter)
      × (4 * now + 3 * seconds (backoff_base attempts initial limit)
          ≤ 4 * compute_next_retry_at attempts now initial limit jitter)
      × (4 * compute_next_retry_at attempts now initial limit jitter
          ≤ 4 * now + max (seconds 4) (5 * seconds limit))
unfolding compute_next_retry_at
compute_next_retry_at_bounds attempts now initial limit (pos n) h =
    omega (arith, backoff_base-le attempts initial limit)
compute_next_retry_at_bounds attempts now initial limit (negsuc n) h =
    omega (arith, backoff_base-le attempts initial limit)

-- A row is expired from the moment its age reaches the limit, and stays expired.
pub is_expired_iff :
    (created_at now max_age : ℕ)
    → (is_expired created_at now max_age ≡ true) ↔ (created_at + hours max_age ≤ now)
unfolding is_expired
is_expired_iff created_at now max_age = ground arith
