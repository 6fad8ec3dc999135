-- ===== src/Delivery/Tests.antt =====
-- A pull request that got new commits, from the request to the analysis.
use scamanager.Prelude.{◌≡◌, refl, inl, inr, some, [], ◌∷◌}
use scamanager.Prelude.Text.{starts_with, is_part_of}
use scamanager.LoopGuard.Defs.{is_bot_sender, is_whitelisted_bot}
use scamanager.Gate.Tests.{config}
use scamanager.Webhook.Samples.{event, signed, later, env as webhook_env, world as webhook_world}
use scamanager.Webhook.Secrets.{
  verify_github_signature, get_webhook_secret, store_secret, make_secret_room, put_secret,
}
use scamanager.Webhook.PullRequest.{accepted}
use scamanager.Webhook.Github.{secret_for, has_skip_marker, github_webhook}
use scamanager.Webhook.Accepted.{LetsThrough}
use scamanager.Pipeline.Samples.{env, file, review, world, registered_only}
use scamanager.Pipeline.Tables.{find_by_full_name, find_by_sha}
use scamanager.Pipeline.Body.{extract_event_metadata, is_blank_sha}
use scamanager.Pipeline.Analysed.{IsNewCommit}
use scamanager.Pipeline.Analysed.Stored.{IsStored}
use scamanager.Pipeline.Static.{run_static_with_timeout}
use scamanager.Delivery.{payload_of, run_analyses, github_webhook-IsStored}

synchronize-LetsThrough : LetsThrough (webhook_env later) (event "synchronize") webhook_world
unfolding is_bot_sender has_skip_marker is_part_of is_whitelisted_bot
synchronize-LetsThrough = (refl, refl, refl, inl refl)

new_delivery :
    IsNewCommit env
      (extract_event_metadata "pull_request" (payload_of (event "synchronize")))
      registered_only
unfolding extract_event_metadata is_blank_sha find_by_full_name find_by_sha
new_delivery = record {
  repo = record { id = 1; full_name = "o/r" };
  config = config;
  file = file;
  files = [];
  review = review;
  idle = λ n t. refl;
  is_sha = refl;
  is_repo = refl;
  is_unseen = refl;
  is_config = λ n. refl;
  is_changed = λ n. refl;
  is_review = λ n. refl;
}

github_webhook-IsStored_example :
    ((github_webhook (webhook_env later) (signed "pull_request" "synchronize") webhook_world).0
      ≡ accepted)
    × IsStored
        (extract_event_metadata "pull_request" (payload_of (event "synchronize")))
        1
        config
        (run_static_with_timeout env.loop_time env.file_clock
          (env.file_outcome (some config))
          (file ∷ [])).0
        (run_static_with_timeout env.loop_time env.file_clock
          (env.file_outcome (some config))
          (file ∷ [])).1
        review
        (world registered_only)
        (run_analyses env
          (github_webhook
            (webhook_env later)
            (signed "pull_request" "synchronize")
            webhook_world).1.tasks
          (world registered_only)).1
unfolding new_delivery verify_github_signature starts_with secret_for get_webhook_secret
    store_secret make_secret_room put_secret
github_webhook-IsStored_example =
    github_webhook-IsStored (webhook_env later) (signed "pull_request" "synchronize") webhook_world
      "pull_request" (event "synchronize") env (world registered_only) refl (refl, refl) refl refl
      (inr (refl, inr (inr refl))) synchronize-LetsThrough new_delivery
