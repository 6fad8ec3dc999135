-- ===== src/Webhook/Changes.antt =====
-- What a request of GitHub's may change, one change at a time, and that a property which all of them keep
-- is kept by a request.
use scamanager.Prelude.{ℕ, ◌≡◌, ◌⊎◌, String, some, true, false, ◌==◌, List, str_eq}
use scamanager.Prelude.Text.{is_empty}
use scamanager.Prelude.Distinct.{AllDistinct}
use scamanager.RetryQueue.Claim.{abandon_stale_for_pr}
use scamanager.MergeAttempts.Defs.{find_latest_for_pr, mark_disabled_externally}
use scamanager.LoopGuard.Defs.{is_bot_sender, allow}
use scamanager.Webhook.World.{
  EventData, Task, run_analysis_pipeline, close_referenced_issues, notify_n8n_issue,
  trigger_retry_for_sha, WebhookEnv, Processed, WebhookWorld,
}
use scamanager.Webhook.PullRequest.{
  add_task, mark_merged, is_other_branch, inferred_reason, is_opening,
}
use scamanager.Webhook.Github.{has_skip_marker, message_of}

-- An analysis is run for a push, or for a pull request that was opened, reopened or got new commits.
abbrev pub IsAnalysable : String → EventData → Type 0
IsAnalysable event d =
    (event ≡ "push")
    ⊎ ((event ≡ "pull_request")
        × ((str_eq d.action "synchronize" ≡ true) ⊎ (is_opening d.action ≡ true)))

-- When a task may be run for an event.
abbrev pub IsTaskFor : WebhookEnv → String → EventData → Task → Type 0
IsTaskFor env event d (run_analysis_pipeline e data') =
    (e ≡ event)
    × (data' ≡ d)
    × IsAnalysable event d
    × (env.settings.scamanager_self_analysis_disabled ≡ false)
    × (is_bot_sender d.sender ≡ false)
    × (has_skip_marker env.lower (message_of d) ≡ false)
IsTaskFor env event d (close_referenced_issues repo numbers) =
    (repo ≡ d.full_name)
    × (d.pull_request.merged ≡ true)
    × (is_other_branch d ≡ false)
    × AllDistinct ◌==◌ numbers
IsTaskFor env event d (notify_n8n_issue url repo action token) =
    (repo ≡ d.full_name)
    × (url ≡ env.n8n_url repo)
    × ((token ≡ "")
        ⊎ ((env.settings.n8n_relay_repo_token ≡ true)
            × (is_empty env.settings.n8n_webhook_secret ≡ false)))
IsTaskFor env event d (trigger_retry_for_sha repo sha) =
    (repo ≡ d.full_name)
    × (sha ≡ d.check_suite_sha)
    × (str_eq d.action "completed" ≡ true)
    × (env.settings.merge_retry_check_suite_webhook_enabled ≡ true)

-- Each change that a handler of the event makes.
pub record KeepsHandled (env : WebhookEnv) (event : String) (d : EventData)
    (K : WebhookWorld → Type 0) : Type 0 where
  pub merged :
      (pr : ℕ) (w : WebhookWorld)
      → K w
      → K (record w {
        attempts =
            mark_merged env.utc_now (find_latest_for_pr d.full_name pr w.attempts) w.attempts;
      })
  pub disabled :
      (i : ℕ) (w : WebhookWorld)
      → K w
      → K (record w {
        attempts =
            (mark_disabled_externally i env.utc_now (some (inferred_reason d.sender)) w.attempts).1;
      })
  pub abandoned :
      (pr : ℕ) (sha : String) (w : WebhookWorld)
      → K w
      → K (record w {
        queue = (abandon_stale_for_pr d.full_name pr sha "sha_drift" env.utc_now w.queue).1;
      })
  pub limited :
      (w : WebhookWorld)
      → K w
      → K (record w { limiter = (allow env.limit_time d.full_name w.limiter).1 })
  pub debounced :
      (entries : List Processed) (w : WebhookWorld) → K w → K (record w { debounce = entries })
  pub task : (t : Task) (w : WebhookWorld) → IsTaskFor env event d t → K w → K (add_task t w)
