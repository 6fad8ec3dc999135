-- ===== src/MergeMetrics.antt =====
-- src/shared/merge_metrics.py: the record of an attempt. The logging and the failures of the
-- database, which `log_merge_attempt` swallows, are not modelled.
use scamanager.Prelude.{ℕ, String, Option, none, some, Bool, List, [], ◌∷◌, ◌++◌, if◌then◌else◌}
use scamanager.Prelude.Text.{before_colon, strip, is_empty}
use scamanager.Prelude.Int.{ℤ}

-- `text or None`.
abbrev pub or_none : String → Option String
or_none text = if is_empty text then none else some text

unfoldable pub parse_reason_tag : Option String → Option String
parse_reason_tag none = none
parse_reason_tag (some reason) =
    if is_empty reason then none else or_none (strip (before_colon reason))

-- A row of `merge_attempts`.
pub record MergeAttempt : Type 0 where
  pub analysis_id : ℕ
  pub repo_name : String
  pub pr_number : ℕ
  pub score : ℕ
  pub threshold : ℤ
  pub success : Bool
  pub failure_reason : Option String
  pub detail_message : Option String
  pub state : String
  pub enabled_at : Option ℕ
  pub merged_at : Option ℕ

abbrev pub detail_of : Option String → Option String
detail_of none = none
detail_of (some reason) = or_none reason

-- The tag and the detail are kept of a failure only.
unfoldable pub log_merge_attempt :
    ℕ
    → String
    → ℕ
    → ℕ
    → ℤ
    → Bool
    → Option String
    → String
    → Option ℕ
    → Option ℕ
    → List MergeAttempt
    → List MergeAttempt
unfolding parse_reason_tag
log_merge_attempt analysis_id repo_name pr_number score threshold success reason state enabled_at
      merged_at table =
    table
    ++ (record {
      analysis_id = analysis_id;
      repo_name = repo_name;
      pr_number = pr_number;
      score = score;
      threshold = threshold;
      success = success;
      failure_reason = if success then none else parse_reason_tag reason;
      detail_message = if success then none else detail_of reason;
      state = state;
      enabled_at = enabled_at;
      merged_at = merged_at;
    }
        ∷ [])
