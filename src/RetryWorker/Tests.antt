-- ===== src/RetryWorker/Tests.antt =====
-- A turn and a batch of the worker over a small table.
use scamanager.Prelude.{none, some, true, false, [], ◌∷◌, ◌≡◌, refl, All}
use scamanager.Prelude.Int.{pos}
use scamanager.RetryQueue.Row.{Queue, Row}
use scamanager.RetryQueue.Defs.{get}
use scamanager.RetryQueue.Samples.{queue, queue-IsSound, claimed_row, get_claimed, other_token}
use scamanager.ConfigManager.{default_config}
use scamanager.RetryWorker.World.{
  Reply, returned, Env, World, Settings, write_back, count_up, pure, await, ◌>>=◌,
}
use scamanager.RetryWorker.Parts.{Authorised, FromEnv}
use scamanager.RetryWorker.Process.{
  process_turn, no_counts, turn_result, process_single_retry, after_preflight, settle_before_merge,
  after_settling, merge_or_handle, call_merge_pr, record_merged,
}
use scamanager.RetryWorker.Defs.{
  preflight_retry, resolve_github_token, user_token, check_config, config_is_changed, get_pr_data,
  log_merged, log_attempt, notify_merge_succeeded, post_notice, resolve_retry_chat_id,
  ignore_send_error,
}
use scamanager.RetryQueue.Claim.{mark_succeeded, mark_status, update_owned}
use scamanager.MergeMetrics.{log_merge_attempt}
use scamanager.RetryWorker.Outcome.{LeavesRow, IsFreed}
use scamanager.RetryWorker.Progress.{process_turn_frees}
use scamanager.RetryWorker.Safety.{process_turn-Authorised, process_turn_lost, KeepsSound, IsLost}

abbrev reply : {A : Type 0} → A → Reply A
reply a = record { answer = returned a; meanwhile = λ q. q }

abbrev settings : Settings
settings = record {
  github_token = "gh";
  telegram_bot_token = "bot";
  telegram_chat_id = "1";
  merge_retry_max_age_hours = 24;
  merge_retry_initial_backoff_seconds = 60;
  merge_retry_max_backoff_seconds = 3600;
}

-- GitHub shows the pull request open at "abc" and merges it; no other session writes.
abbrev pub env : Env
env = record {
  settings = settings;
  find_by_full_name = λ repo. none;
  find_by_id = λ user. none;
  repo_config = λ repo. record (default_config repo) { auto_merge = true };
  get_pull =
      λ token repo pr. reply (record { merged = false; head_sha = "abc"; base_ref = "main" });
  merge_pr = λ token repo pr sha. reply (true, none);
  required_check_contexts = λ token repo ref. reply [];
  get_ci_status = λ token repo sha required. reply "passed";
  telegram_post_message = λ bot chat notice. reply tt;
  create_merge_failure_issue = λ token repo pr. reply tt;
  utc_now = 95;
  jitter = pos 0;
  exc_detail = "";
}

abbrev pub world : World
world = record { queue = queue; attempts = []; counts = no_counts 1; merge_calls = [] }

pub env-KeepsSound : KeepsSound env
env-KeepsSound m (FromEnv.from_pull token repo pr) q h = h
env-KeepsSound m (FromEnv.from_merge token repo pr sha) q h = h
env-KeepsSound m (FromEnv.from_contexts token repo ref) q h = h
env-KeepsSound m (FromEnv.from_status token repo sha required) q h = h
env-KeepsSound m (FromEnv.from_telegram bot chat notice) q h = h
env-KeepsSound m (FromEnv.from_issue token repo pr) q h = h

process_turn-Authorised_example :
    All
      (λ c. (view : Row) × (get queue 2 ≡ some view) × Authorised env view c)
      (process_turn env 95 2 (some "tok") world).merge_calls
process_turn-Authorised_example = process_turn-Authorised env 95 2 (some "tok") world refl

-- The worker "old" has lost the row 2 to "tok".
old_IsLost : IsLost 2 "old" queue
old_IsLost = (queue-IsSound, (claimed_row, get_claimed, other_token))

abbrev IsKept : Queue → Type 0
IsKept q = IsLost 2 "old" q × (q ≡ queue)

env-keeps : (m : Queue → Queue) → FromEnv env m → (q : Queue) → IsKept q → IsKept (m q)
env-keeps m (FromEnv.from_pull token repo pr) q h = h
env-keeps m (FromEnv.from_merge token repo pr sha) q h = h
env-keeps m (FromEnv.from_contexts token repo ref) q h = h
env-keeps m (FromEnv.from_status token repo sha required) q h = h
env-keeps m (FromEnv.from_telegram bot chat notice) q h = h
env-keeps m (FromEnv.from_issue token repo pr) q h = h

process_turn_lost_example : (process_turn env 95 2 (some "old") world).queue ≡ queue
process_turn_lost_example =
    process_turn_lost (λ q. q ≡ queue) env 95 2 "old" world env-keeps old_IsLost refl

-- The turn asks GitHub once, for the queued commit, and counts the success.
process_turn_test :
    (process_turn env 95 2 (some "tok") world).merge_calls
    ≡ record { repo = "o/r"; pr = 8; expected_sha = "abc" } ∷ []
unfolding process_turn get turn_result process_single_retry preflight_retry resolve_github_token
    user_token check_config config_is_changed default_config after_preflight get_pr_data
    settle_before_merge after_settling merge_or_handle call_merge_pr record_merged log_merged
    log_attempt log_merge_attempt write_back mark_succeeded mark_status update_owned
    notify_merge_succeeded post_notice resolve_retry_chat_id ignore_send_error count_up pure await
    ◌>>=◌
process_turn_test = refl

env-LeavesRow : LeavesRow 2 env
env-LeavesRow m (FromEnv.from_pull token repo pr) q h = (h, refl)
env-LeavesRow m (FromEnv.from_merge token repo pr sha) q h = (h, refl)
env-LeavesRow m (FromEnv.from_contexts token repo ref) q h = (h, refl)
env-LeavesRow m (FromEnv.from_status token repo sha required) q h = (h, refl)
env-LeavesRow m (FromEnv.from_telegram bot chat notice) q h = (h, refl)
env-LeavesRow m (FromEnv.from_issue token repo pr) q h = (h, refl)

process_turn_frees_example : IsFreed 2 (process_turn env 95 2 (some "tok") world).queue
process_turn_frees_example =
    process_turn_frees env 95 2 "tok" world env-LeavesRow
      (queue-IsSound, (claimed_row, get_claimed, refl, refl))
