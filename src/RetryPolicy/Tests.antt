-- ===== src/RetryPolicy/Tests.antt =====
-- The retry policy at sample values.
use Prim.Native.String.{◌++◌}
use scamanager.Prelude.{◌+◌, ◌*◌, ◌≤◌, max, ◌≡◌, refl, ◌⊎◌, ◌↔◌, String, true, false, some, arith}
use scamanager.Prelude.Text.{before_colon, strip, left_strip, right_strip}
use scamanager.Prelude.Int.{negsuc}
use scamanager.MergeReasons.{
  unstable_ci, branch_protection_blocked, unknown_state_timeout, is_retriable_tag,
}
use scamanager.RetryPolicy.Defs.{
  seconds, backoff_base, compute_next_retry_at, parse_reason_tag, should_retry,
}
use scamanager.RetryPolicy.Tags.{parse_reason_tag-detail, should_retry_iff}
use scamanager.RetryPolicy.Backoff.{compute_next_retry_at_bounds}

parse_reason_tag_test : parse_reason_tag (some " dirty_conflict : a:b") ≡ "dirty_conflict"
unfolding parse_reason_tag before_colon strip left_strip right_strip
parse_reason_tag_test = refl

compute_next_retry_at_test :
    compute_next_retry_at 3 1000 60 3600 (negsuc 999999) ≡ 1000 + seconds 479
unfolding compute_next_retry_at backoff_base
compute_next_retry_at_test = refl

should_retry_test : should_retry branch_protection_blocked "passed" ≡ false
unfolding should_retry is_retriable_tag
should_retry_test = refl

parse_reason_tag-detail_example :
    parse_reason_tag (some ("unstable_ci" ++ (":" ++ " state=unstable"))) ≡ "unstable_ci"
parse_reason_tag-detail_example =
    parse_reason_tag-detail "unstable_ci" " state=unstable" (refl, refl)

abbrev passed : String
passed = "passed"

should_retry_iff_example : (should_retry unstable_ci passed ≡ true) ↔ (
    (unstable_ci ≡ unstable_ci)
      × ((passed ≡ "running") ⊎ (passed ≡ "passed") ⊎ (passed ≡ "unknown"))
    ⊎ (unstable_ci ≡ branch_protection_blocked) × (passed ≡ "running")
    ⊎ (unstable_ci ≡ unknown_state_timeout) × (passed ≡ "running"))
should_retry_iff_example = should_retry_iff unstable_ci passed

-- A hundred seconds early after three attempts from one minute.
compute_next_retry_at_bounds_example :
    (1000 + seconds 1 ≤ compute_next_retry_at 3 1000 60 3600 (negsuc 99999999))
    × (4 * 1000 + 3 * seconds (backoff_base 3 60 3600)
        ≤ 4 * compute_next_retry_at 3 1000 60 3600 (negsuc 99999999))
    × (4 * compute_next_retry_at 3 1000 60 3600 (negsuc 99999999)
        ≤ 4 * 1000 + max (seconds 4) (5 * seconds 3600))
compute_next_retry_at_bounds_example =
    compute_next_retry_at_bounds 3 1000 60 3600 (negsuc 99999999) small
  where
    small : 4 * 100000000 ≤ seconds (backoff_base 3 60 3600)
    small = unfold backoff_base in omega arith
