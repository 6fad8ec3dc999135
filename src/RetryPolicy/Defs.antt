-- ===== src/RetryPolicy/Defs.antt =====
-- src/gate/retry_policy.py: the four functions.
use scamanager.Prelude.{
  ℕ, ◌+◌, ◌*◌, ◌^◌, ◌≤◌, min, String, Option, none, some, Bool, false, ◌||◌, str_eq, leb,
  if◌then◌else◌,
}
use scamanager.Prelude.Text.{before_colon, strip, is_empty}
use scamanager.Prelude.Int.{ℤ, magnitude, add_at_least}
use scamanager.MergeReasons.{
  branch_protection_blocked, unknown_state_timeout, unstable_ci, is_retriable_tag,
}

or_unknown : String → String
or_unknown tag = if is_empty tag then "unknown" else tag

unfoldable pub parse_reason_tag : Option String → String
unfolding or_unknown
parse_reason_tag none = "unknown"
parse_reason_tag (some reason) =
    if is_empty reason then "unknown" else or_unknown (strip (before_colon reason))

unfoldable pub should_retry : String → String → Bool
should_retry reason_tag ci_status =
    if is_retriable_tag reason_tag
    then (if str_eq reason_tag unstable_ci
        then str_eq ci_status "running" || str_eq ci_status "passed" || str_eq ci_status "unknown"
        else if str_eq reason_tag branch_protection_blocked
        then str_eq ci_status "running"
        else if str_eq reason_tag unknown_state_timeout
        then str_eq ci_status "running"
        else false)
    else false

-- `timedelta(seconds=n)` and `timedelta(hours=n)`, in microseconds.
abbrev pub seconds : ℕ → ℕ
seconds n = n * 1000000

abbrev pub hours : ℕ → ℕ
hours n = n * 3600000000

unfoldable pub backoff_base : ℕ → ℕ → ℕ → ℕ
backoff_base attempts_count initial_backoff max_backoff =
    min (initial_backoff * 2 ^ attempts_count) max_backoff

-- What `random.uniform(-0.25 * base, 0.25 * base)` may return, in microseconds.
abbrev pub IsJitter : ℕ → ℤ → Type 0
IsJitter base jitter = 4 * magnitude jitter ≤ seconds base

unfoldable pub compute_next_retry_at : ℕ → ℕ → ℕ → ℕ → ℤ → ℕ
compute_next_retry_at attempts_count now initial_backoff max_backoff jitter =
    now
    + add_at_least (seconds 1) (seconds (backoff_base attempts_count initial_backoff max_backoff))
        jitter

unfoldable pub is_expired : ℕ → ℕ → ℕ → Bool
is_expired created_at now max_age_hours = leb (created_at + hours max_age_hours) now
