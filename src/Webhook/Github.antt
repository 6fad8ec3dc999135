-- ===== src/Webhook/Github.antt =====
-- src/webhook/providers/github.py: the handlers of GitHub's events, with has_skip_marker of
-- src/webhook/loop_guard.py. A handler answers, or none lets the request go on.
use scamanager.Prelude.{
  String, Option, none, some, Bool, true, false, not, ◌&&◌, List, [], ◌∷◌, any, str_eq,
  if◌then◌else◌,
}
use scamanager.Prelude.Text.{is_empty, is_part_of}
use scamanager.LoopGuard.Defs.{Tracked, is_bot_sender, is_whitelisted_bot, allow}
use scamanager.Webhook.Secrets.{get_webhook_secret, verify_github_signature}
use scamanager.Webhook.World.{
  EventData, Request, run_analysis_pipeline, notify_n8n_issue, Response, refused, replied, crashed,
  Parsed, undecodable, decoded, WebhookEnv, WebhookWorld,
}
use scamanager.Webhook.PullRequest.{Answered, ignored, accepted, add_task, preprocess_pull_request}
use scamanager.Webhook.CheckSuite.{handle_check_suite_completed}

-- The token is relayed only where this is switched on and the relay is signed.
abbrev pub relayed_token : WebhookEnv → String → String
relayed_token env repo =
    if env.settings.n8n_relay_repo_token && not (is_empty env.settings.n8n_webhook_secret)
    then env.owner_token repo
    else ""

unfoldable pub handle_issues_event : WebhookEnv → EventData → WebhookWorld → Answered
handle_issues_event env d w =
    if is_empty d.full_name
    then (ignored, w)
    else if is_empty (env.n8n_url d.full_name)
    then (ignored, w)
    else (
      accepted,
      add_task
          (notify_n8n_issue (env.n8n_url d.full_name) d.full_name d.action
            (relayed_token env d.full_name))
          w,
    )

-- `has_skip_marker`.
unfoldable pub has_skip_marker : (String → String) → String → Bool
unfolding is_part_of
has_skip_marker lower message =
    any (λ marker. is_part_of marker (lower message))
      ("[skip ci]" ∷ "[skip-sca]" ∷ "[ci skip]" ∷ [])

abbrev pub message_of : EventData → String
message_of d = if is_empty d.commit_message then d.pull_request.title else d.commit_message

abbrev pub skipped : String → Option Response
skipped reason = some (replied "skipped" (some reason))

abbrev pub rate_limited : Bool × List Tracked → WebhookWorld → Option Response × WebhookWorld
rate_limited (true, limiter) w = (none, record w { limiter = limiter })
rate_limited (false, limiter) w = (skipped "bot_rate_limit", record w { limiter = limiter })

-- `_loop_guard_check`: the answer of a skipped event, or none.
unfoldable pub loop_guard_check :
    WebhookEnv → EventData → WebhookWorld → Option Response × WebhookWorld
loop_guard_check env d w =
    if env.settings.scamanager_self_analysis_disabled
    then (skipped "self_analysis_disabled", w)
    else if is_bot_sender d.sender
    then (skipped "bot_sender", w)
    else if has_skip_marker env.lower (message_of d)
    then (skipped "skip_marker", w)
    else if is_whitelisted_bot d.sender
    then rate_limited (allow env.limit_time d.full_name w.limiter) w
    else (none, w)

abbrev pub run_unless : String → EventData → Option Response × WebhookWorld → Answered
run_unless event d (some r, w) = (r, w)
run_unless event d (none, w) = (accepted, add_task (run_analysis_pipeline event d) w)

unfoldable pub guarded_pipeline : WebhookEnv → String → EventData → WebhookWorld → Answered
unfolding loop_guard_check
guarded_pipeline env event d w = run_unless event d (loop_guard_check env d w)

abbrev pub after_preprocess : WebhookEnv → EventData → Option Response × WebhookWorld → Answered
after_preprocess env d (some r, w) = (r, w)
after_preprocess env d (none, w) = guarded_pipeline env "pull_request" d w

-- An event of a payload that was signed.
unfoldable pub handle_event : WebhookEnv → String → EventData → WebhookWorld → Answered
unfolding preprocess_pull_request handle_issues_event handle_check_suite_completed guarded_pipeline
handle_event env event d w =
    if str_eq event "pull_request"
    then after_preprocess env d (preprocess_pull_request env d w)
    else if str_eq event "issues"
    then handle_issues_event env d w
    else if str_eq event "check_suite"
    then handle_check_suite_completed env d w
    else if str_eq event "push"
    then guarded_pipeline env "push" d w
    else (ignored, w)

abbrev pub name_of : Option EventData → String
name_of none = ""
name_of (some d) = d.full_name

-- The secret that the signature is checked with, and the cache.
unfoldable pub secret_for : WebhookEnv → String → WebhookWorld → String × WebhookWorld
secret_for env name w =
    if is_empty name
    then (env.settings.github_webhook_secret, w)
    else (let (secret, cache) =
          get_webhook_secret env.settings.github_webhook_secret name env.secret_time
            (env.secret_of name) w.secrets in
        (secret, record w { secrets = cache }))

abbrev pub dispatch : WebhookEnv → Option String → Option EventData → WebhookWorld → Answered
dispatch env event none w = (ignored, w)
dispatch env none (some d) w = (ignored, w)
dispatch env (some event) (some d) w = handle_event env event d w

unfoldable pub authenticated :
    WebhookEnv → Request → Option EventData → String × WebhookWorld → Answered
authenticated env request data' (secret, w) =
    if is_empty secret
    then (refused 401 "Webhook secret not configured", w)
    else if not (verify_github_signature env.hexdigest request.payload request.signature secret)
    then (refused 401 "Invalid signature", w)
    else dispatch env request.event data' w

abbrev pub after_parse : WebhookEnv → Request → Parsed → WebhookWorld → Answered
after_parse env request undecodable w = (crashed, w)
after_parse env request (decoded data') w =
    authenticated env request data' (secret_for env (name_of data') w)

unfoldable pub github_webhook : WebhookEnv → Request → WebhookWorld → Answered
unfolding secret_for authenticated handle_event
github_webhook env request w = after_parse env request (env.parse request.payload) w
