-- ===== src/Gate/Tests.antt =====
-- The gate over sample answers: a pull request that is merged, and one whose checks still run.
use scamanager.Prelude.{ℕ, max, ◌≤◌, ◌≡◌, refl, String, none, some, true, false, [], ◌∷◌, ◌++◌, All}
use scamanager.Prelude.Int.{pos}
use scamanager.Prelude.Effects.{returned, send_error, ◌>>=◌, pure}
use scamanager.ConfigManager.{RepoConfigData, default_config}
use scamanager.MergeReasons.{is_retriable_tag, mergeable_state_to_reason}
use scamanager.RetryPolicy.Defs.{parse_reason_tag}
use scamanager.RetryQueue.Samples.{queue, queue-IsSound, alone}
use scamanager.RetryQueue.Invariant.{IsSound}
use scamanager.RetryQueue.Sound.{AreSound, enqueue_or_bump-IsSound}
use scamanager.Gate.World.{
  Pull, merged, object, get_pull, put_merge, post_review, list_filenames, list_files, post_comment,
  ask_verifier, GateSettings, GateEnv, GateWorld, call,
}
use scamanager.Prelude.Text.{strip, before_colon}
use scamanager.Gate.Actions.{
  GateContext, run_gate_check, run_actions, review_comment, approve, run_auto, is_unreliable,
  review_and_decide, decide, auto_merge,
}
use scamanager.Gate.GithubReview.{
  failed, merge_pr, poll, look, on_send_error, get_pr_mergeable_state, merge_seen, is_blocking, put,
  post_github_review, post_bound,
}
use scamanager.Gate.NativeAutomerge.{
  enable_or_fallback_with_path, with_head, get_pr_node_id, with_node, fall_back,
}
use scamanager.Gate.Retriable.{merge_pr_retriable}
use scamanager.Gate.Rules.{IsAuthorised}
use scamanager.Gate.Safety.{run_gate_check-Authorised, run_gate_check_queue}
use scamanager.Gate.Clearance.{IsDecided}
use scamanager.Gate.Verified.{VerifierPassed, verifier_blocks_merge-IsDecided}
use scamanager.Gate.Guards.{
  on_any_error, sensitive_paths_block_merge, listed_names, sensitive_paths_in,
  verifier_blocks_merge, should_verify, verify_merge_safety, prepare, diff_exceeds_cap, judge, ask,
  interpret_verdict,
}
use scamanager.Gate.Engine.{
  run_auto_merge, verify_and_merge, merge_unless_blocked, on_listed_error, run_auto_merge_retry,
  has_drifted, merge_at, after_outcome, log_success, log_for,
}
use scamanager.Gate.Polling.{IsMerge, merge_pr-IsMerge, gets}

abbrev settings : GateSettings
settings = record {
  merge_retry_enabled = true;
  merge_unknown_retry_limit = 3;
  merge_retry_max_attempts = 30;
  merge_retry_initial_backoff_seconds = 60;
  telegram_bot_token = "bot";
  telegram_chat_id = "1";
  openai_api_key = "key";
  sensitive_path_guard_disabled = false;
  merge_verifier_disabled = false;
}

abbrev shown : String → Pull
shown state = record {
  mergeable_state = some state;
  head_sha = some "abc";
  base_ref = some "main";
  node_id = none;
}

-- GitHub shows the pull request at "abc" in this state and would merge it.
abbrev pub env_at : String → GateEnv
env_at state = record {
  settings = settings;
  pull = λ n repo pr. returned (shown state);
  merge_reply = λ n repo pr sha. merged;
  enable_reply = λ n node sha. send_error;
  done = λ n. returned tt;
  files = λ n repo pr. returned [];
  filenames = λ n repo pr. returned ("README.md" ∷ []);
  is_sensitive = λ name. false;
  verifier_prompt = λ patches. returned "prompt";
  verifier_reply = λ n prompt. returned (
      object (record {
        safe = some (some true);
        manipulation_detected = some (some false);
        reasons = none;
      }));
  required_check_contexts = λ n repo ref. returned [];
  ci_status = λ n repo sha required. returned "running";
  utc_now = 95;
  listed = true;
  meanwhile = λ n q. q;
  others = alone;
}

abbrev pub config : RepoConfigData
config = record (default_config "o/r") { approve_mode = "auto"; auto_merge = true }

abbrev ctx : GateContext
ctx = record {
  repo_name = "o/r";
  pr_number = 9;
  analysis_id = 5;
  result = record {
    score = 90;
    static_analysis_incomplete = false;
    ai_review_truncated = false;
    ai_review_status = some "success";
  };
  config = config;
  commit_sha = some "abc";
}

abbrev pub start : GateWorld
start = record { queue = queue; attempts = []; decisions = []; calls = [] }

-- A pull request without conflicts is reviewed and merged at the analysed commit, which the guards have let
-- pass; one that waits for checks is queued at that commit.
merged_test :
    (run_gate_check (env_at "clean") ctx start).1.calls
    ≡ post_comment "o/r" 9 "review"
      ∷ get_pull "o/r" 9
      ∷ post_review "o/r" 9 "APPROVE" (some "abc")
      ∷ list_filenames "o/r" 9
      ∷ list_files "o/r" 9
      ∷ ask_verifier "prompt"
      ∷ get_pull "o/r" 9
      ∷ get_pull "o/r" 9
      ∷ get_pull "o/r" 9
      ∷ put_merge "o/r" 9 (some "abc")
      ∷ []
unfolding run_gate_check run_actions default_config ◌>>=◌ pure on_any_error review_comment
    on_send_error call approve run_auto is_unreliable review_and_decide post_github_review
    get_pr_mergeable_state post_bound decide auto_merge run_auto_merge sensitive_paths_block_merge
    listed_names sensitive_paths_in verify_and_merge verifier_blocks_merge should_verify
    verify_merge_safety prepare diff_exceeds_cap judge ask interpret_verdict merge_unless_blocked
    on_listed_error run_auto_merge_retry look has_drifted merge_at enable_or_fallback_with_path
    with_head get_pr_node_id with_node fall_back merge_pr poll merge_seen is_blocking put
    after_outcome log_success log_for
merged_test = refl

run_gate_check-Authorised_example :
    All (IsAuthorised (env_at "clean") ctx) (run_gate_check (env_at "clean") ctx start).1.calls
run_gate_check-Authorised_example = run_gate_check-Authorised (env_at "clean") ctx start tt

alone-AreSound : AreSound alone
alone-AreSound = record { before_insert = λ h. h; before_requery = λ h. h }

run_gate_check_queue_example : IsSound (run_gate_check (env_at "blocked") ctx start).1.queue
run_gate_check_queue_example =
    run_gate_check_queue (env_at "blocked") ctx IsSound (λ n q h. h)
      (λ d q right ok. enqueue_or_bump-IsSound d 95 95 alone alone-AreSound ok) start queue-IsSound

verifier_blocks_merge-IsDecided_example :
    IsDecided
      (VerifierPassed (env_at "clean") "o/r" 9 (pos 90) (pos 75))
      (verifier_blocks_merge (env_at "clean") "o/r" 9 (pos 90) (pos 75) start).0
verifier_blocks_merge-IsDecided_example =
    verifier_blocks_merge-IsDecided (env_at "clean") "o/r" 9 (pos 90) (pos 75) start

merge_pr-IsMerge_example :
    IsMerge
      (env_at "unknown")
      "o/r"
      9
      (some "abc")
      start
      (merge_pr (env_at "unknown") "o/r" 9 (some "abc") start)
merge_pr-IsMerge_example = merge_pr-IsMerge (env_at "unknown") "o/r" 9 (some "abc") start

blocked_answer :
    (merge_pr (env_at "blocked") "o/r" 9 (some "abc") start).0
    ≡ returned (failed "branch_protection_blocked" "abc")
unfolding merge_pr ◌>>=◌ poll look on_send_error get_pr_mergeable_state call pure merge_seen
    is_blocking mergeable_state_to_reason
blocked_answer = refl

blocked_retriable : is_retriable_tag (parse_reason_tag (some "branch_protection_blocked")) ≡ true
unfolding is_retriable_tag parse_reason_tag strip before_colon
blocked_retriable = refl

merge_pr_retriable_example :
    (i : ℕ) × (i ≤ max 1 3)
    × ((merge_pr (env_at "blocked") "o/r" 9 (some "abc") start).1.calls
        ≡ [] ++ gets (env_at "blocked") "o/r" 9 i)
merge_pr_retriable_example =
    merge_pr_retriable (env_at "blocked") "o/r" 9 (some "abc") start
      (failed "branch_protection_blocked" "abc") blocked_answer blocked_retriable
