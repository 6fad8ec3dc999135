-- ===== src/MergeReasons.antt =====
-- src/gate/merge_reasons.py: the canonical tags of a failed merge, and how HTTP codes and GitHub's
-- `mergeable_state` map to them.
use Prim.Native.String.{◌++◌}
use scamanager.Prelude.{ℕ, String, Bool, ◌||◌, ◌==◌, str_eq, if◌then◌else◌}
use scamanager.Prelude.Text.{show_int}

abbrev pub branch_protection_blocked : String
branch_protection_blocked = "branch_protection_blocked"

abbrev pub dirty_conflict : String
dirty_conflict = "dirty_conflict"

abbrev pub behind_base : String
behind_base = "behind_base"

abbrev pub draft_pr : String
draft_pr = "draft_pr"

abbrev pub unstable_ci : String
unstable_ci = "unstable_ci"

abbrev pub unknown_state_timeout : String
unknown_state_timeout = "unknown_state_timeout"

abbrev pub permission_denied : String
permission_denied = "permission_denied"

abbrev pub not_mergeable : String
not_mergeable = "not_mergeable"

abbrev pub unprocessable : String
unprocessable = "unprocessable"

abbrev pub conflict_sha_changed : String
conflict_sha_changed = "conflict_sha_changed"

abbrev pub network_error : String
network_error = "network_error"

abbrev pub unknown : String
unknown = "unknown"

abbrev pub already_merged : String
already_merged = "already_merged"

abbrev pub sha_drift : String
sha_drift = "sha_drift"

abbrev pub config_changed : String
config_changed = "config_changed"

-- Membership in `_RETRIABLE_TAGS`.
unfoldable pub is_retriable_tag : String → Bool
is_retriable_tag tag =
    str_eq tag unstable_ci
    || str_eq tag unknown_state_timeout
    || str_eq tag branch_protection_blocked

unfoldable pub http_status_to_reason : ℕ → String
http_status_to_reason code =
    if code == 403
    then permission_denied
    else if code == 405
    then not_mergeable
    else if code == 409
    then conflict_sha_changed
    else if code == 422
    then unprocessable
    else "http_" ++ show_int code

unfoldable pub mergeable_state_to_reason : String → String
mergeable_state_to_reason state =
    if str_eq state "dirty"
    then dirty_conflict
    else if str_eq state "blocked"
    then branch_protection_blocked
    else if str_eq state "behind"
    then behind_base
    else if str_eq state "draft"
    then draft_pr
    else if str_eq state "unstable"
    then unstable_ci
    else unknown
