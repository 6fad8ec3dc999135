-- ===== src/Webhook/Tests.antt =====
-- Requests to the webhook, and the claims about them at small states.
use scamanager.Prelude.{
  ℕ, suc, ◌+◌, ◌≤◌, ◌≡◌, refl, inr, String, some, false, List, [], ◌∷◌, length, count, All, arith,
}
use scamanager.RetryQueue.Samples.{queue-IsSound, locked_none}
use scamanager.LoopGuard.Defs.{is_bot_sender, is_whitelisted_bot}
use scamanager.RetryWorker.Tests.{env as worker_env}
use scamanager.Webhook.Secrets.{
  lookup_failed, looked_up, verify_github_signature, get_webhook_secret, store_secret,
  make_secret_room, put_secret,
}
use scamanager.Webhook.World.{
  Request, Task, run_analysis_pipeline, trigger_retry_for_sha, Response, refused,
}
use scamanager.Webhook.PullRequest.{accepted, preprocess_pull_request, handle_pr_synchronize}
use scamanager.Webhook.Github.{
  github_webhook, secret_for, authenticated, handle_event, guarded_pipeline, loop_guard_check,
  has_skip_marker,
}
use scamanager.Webhook.CheckSuite.{
  handle_check_suite_completed, sweep, debounced_trigger, last_processed, put_processed,
}
use scamanager.RetryQueue.Claim.{abandon_stale_for_pr}
use scamanager.Prelude.Text.{starts_with, is_part_of}
use scamanager.Webhook.Trigger.{Sweep}
use scamanager.Webhook.Requests.{IsAllowed, secret_at, github_webhook-IsAllowed}
use scamanager.Webhook.Freshness.{Ask, cache_after, IsCurrent, get_webhook_secret-IsCurrent}
use scamanager.Webhook.Debounce.{is_trigger, deliver, deliver_once}
use scamanager.Webhook.Accepted.{IsDecided, github_webhook-IsDecided}
use scamanager.Webhook.Kept.{
  IsWellFormed, github_webhook-IsWellFormed, IsSameButSecrets, github_webhook-refused,
}
use scamanager.Webhook.Samples.{event, env, signed, world, later}

-- A pull request got new commits.
abbrev synced : Response × List Task × ℕ
synced =
    let (r, w) = github_webhook (env later) (signed "pull_request" "synchronize") world in
    (r, w.tasks, length w.secrets)

abbrev stormed : List Task
stormed =
    (deliver ((env later, event "completed") ∷ (env (later + 5), event "completed") ∷ [])
      world).tasks

synced_test :
    synced ≡ (accepted, run_analysis_pipeline "pull_request" (event "synchronize") ∷ [], 1)
unfolding github_webhook secret_for get_webhook_secret store_secret make_secret_room put_secret
    authenticated verify_github_signature starts_with handle_event preprocess_pull_request
    handle_pr_synchronize abandon_stale_for_pr guarded_pipeline loop_guard_check is_bot_sender
    has_skip_marker is_part_of is_whitelisted_bot
synced_test = refl

stormed_test : stormed ≡ trigger_retry_for_sha "o/r" "abc" ∷ []
unfolding deliver handle_check_suite_completed sweep debounced_trigger last_processed put_processed
stormed_test = refl

github_webhook-IsAllowed_example :
    All
      (IsAllowed
        (env later)
        (signed "pull_request" "synchronize")
        (secret_at (env later) (signed "pull_request" "synchronize") world))
      (github_webhook (env later) (signed "pull_request" "synchronize") world).1.tasks
github_webhook-IsAllowed_example =
    github_webhook-IsAllowed (env later) (signed "pull_request" "synchronize") world tt

abbrev forged : Request
forged = record (signed "pull_request" "closed") { signature = some "sha256=other" }

forged_wrong :
    verify_github_signature
      (env later).hexdigest
      forged.payload
      forged.signature
      (secret_at (env later) forged world)
    ≡ false
unfolding verify_github_signature starts_with secret_for get_webhook_secret store_secret
    make_secret_room put_secret
forged_wrong = refl

github_webhook-refused_example :
    ((detail : String) × ((github_webhook (env later) forged world).0 ≡ refused 401 detail))
    × IsSameButSecrets world (github_webhook (env later) forged world).1
github_webhook-refused_example =
    github_webhook-refused (env later) forged (some (event "closed")) world refl (inr forged_wrong)

world-IsWellFormed : IsWellFormed world
world-IsWellFormed = record {
  few_secrets = omega arith;
  small_limiter = record { few_repos = omega arith; few_events = tt };
  sound_queue = queue-IsSound;
}

github_webhook-IsWellFormed_example :
    IsWellFormed (github_webhook (env later) (signed "pull_request" "synchronize") world).1
github_webhook-IsWellFormed_example =
    github_webhook-IsWellFormed (env later) (signed "pull_request" "synchronize") world
      world-IsWellFormed

deliver_once_example :
    count
      (is_trigger "o/r" "abc")
      (deliver
        ((env later, event "completed") ∷ (env (later + 5), event "completed") ∷ [])
        world).tasks
    ≤ suc (count (is_trigger "o/r" "abc") world.tasks)
deliver_once_example =
    deliver_once "o/r" "abc" later
      ((env later, event "completed") ∷ (env (later + 5), event "completed") ∷ []) world
      ((omega arith, omega arith, omega arith), ((omega arith, omega arith, omega arith), tt))

abbrev asks : List Ask
asks = record { full_name = "o/r"; now = later; lookup = looked_up (some "own") } ∷ []

abbrev again : Ask
again = record { full_name = "o/r"; now = later + 7; lookup = lookup_failed }

get_webhook_secret-IsCurrent_example :
    IsCurrent "global" asks again
      (get_webhook_secret "global" again.full_name again.now again.lookup
        (cache_after "global" asks)).0
get_webhook_secret-IsCurrent_example = get_webhook_secret-IsCurrent "global" asks again

abbrev first_sweep : Sweep
first_sweep = record { envs = λ n. worker_env; now = 200; locked = locked_none; tok = "w" }

github_webhook-IsDecided_example :
    IsDecided
      (env later)
      "pull_request"
      (event "synchronize")
      world
      (github_webhook (env later) (signed "pull_request" "synchronize") world)
unfolding verify_github_signature starts_with secret_for get_webhook_secret store_secret
    make_secret_room put_secret
github_webhook-IsDecided_example =
    github_webhook-IsDecided (env later) (signed "pull_request" "synchronize") world "pull_request"
      (event "synchronize") (refl, refl) refl refl (inr (refl, inr (inr refl)))
