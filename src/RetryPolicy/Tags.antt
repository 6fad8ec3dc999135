-- ===== src/RetryPolicy/Tags.antt =====
-- Which failures are retried, from the text of the reason to the decision.
use Prim.Native.String.{◌++◌}
use Prim.Native.String.append
use scamanager.Prelude.{String, ◌≡◌, ◌⊎◌, ◌↔◌, some, true, false, arith, eq_iff}
use scamanager.Prelude.Text.{before_colon-append, strip-plain, all_plain, is_empty}
use scamanager.MergeReasons.{
  branch_protection_blocked, unknown_state_timeout, unstable_ci, is_retriable_tag,
}
use scamanager.RetryPolicy.Defs.{parse_reason_tag, should_retry}

-- What a reason such as "unstable_ci: state=unstable" is built from.
abbrev pub IsTag : String → Type 0
IsTag tag = (is_empty tag ≡ false) × (all_plain tag ≡ true)

is_empty-append : (s t : String) → is_empty s ≡ false → is_empty (s ++ t) ≡ false
is_empty-append String.[] t h = cc
is_empty-append (String.◌∷◌ c s) t h = rw append.cons

-- A tag that is not empty and has no colon or space is what the parser gives back from a reason built
-- as the tag, a colon and any detail.
pub parse_reason_tag-detail :
    (tag detail : String) → IsTag tag → parse_reason_tag (some (tag ++ (":" ++ detail))) ≡ tag
unfolding parse_reason_tag
parse_reason_tag-detail tag detail h = rw (
  before_colon-append tag detail h.1,
  strip-plain tag h.1,
  is_empty-append tag (":" ++ detail) h.0,
  h.0,
)

-- A reason is retried exactly when it is one of the three waitable tags at a CI state that can still change the outcome.
pub should_retry_iff :
    (tag ci : String)
    → (should_retry tag ci ≡ true) ↔ (
        (tag ≡ unstable_ci) × ((ci ≡ "running") ⊎ (ci ≡ "passed") ⊎ (ci ≡ "unknown"))
        ⊎ (tag ≡ branch_protection_blocked) × (ci ≡ "running")
        ⊎ (tag ≡ unknown_state_timeout) × (ci ≡ "running"))
unfolding should_retry is_retriable_tag
should_retry_iff tag ci = ground (
  arith,
  eq_iff tag unstable_ci,
  eq_iff tag branch_protection_blocked,
  eq_iff tag unknown_state_timeout,
  eq_iff ci "running",
  eq_iff ci "passed",
  eq_iff ci "unknown",
)
