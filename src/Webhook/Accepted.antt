-- ===== src/Webhook/Accepted.antt =====
-- A signed push, or a pull request that is opened or gets new commits: whether its analysis is started.
mod Guard
unfoldable pub use Guard.*
use scamanager.Prelude.{
  ◌≡◌, refl, sym, ap, ◌∙◌, subst, ◌⊎◌, inl, inr, String, Option, none, some, Bool, true, false, not,
  List, [], ◌∷◌, ◌++◌, ◌&&◌, ◌||◌, ◌==◌, arith, Bool-cases, str_eq, eq_iff, if◌then◌else◌,
}
use scamanager.Prelude.Text.{is_empty}
use scamanager.Prelude.Lengths.{if_holds}
use scamanager.LoopGuard.Defs.{Tracked, is_bot_sender, is_whitelisted_bot, allow}
use scamanager.RetryQueue.Row.{Queue}
use scamanager.Webhook.World.{
  EventData, Request, decoded, run_analysis_pipeline, Response, replied, WebhookEnv, WebhookWorld,
}
use scamanager.Webhook.PullRequest.{
  Answered, accepted, is_opening, handle_pr_synchronize, preprocess_pull_request,
}
use scamanager.Webhook.Github.{
  has_skip_marker, message_of, skipped, rate_limited, run_unless, loop_guard_check,
  guarded_pipeline, after_preprocess, dispatch, handle_event, name_of, secret_for, authenticated,
  after_parse, github_webhook,
}
use scamanager.Webhook.Requests.{IsSigned, name_in, secret_at}
use scamanager.Webhook.Kept.{secret_for-IsSame}

-- A push, or a pull request that was opened, reopened or got new commits.
abbrev pub IsAnalysable : String → EventData → Type 0
IsAnalysable event d =
    (event ≡ "push")
    ⊎ ((event ≡ "pull_request")
        × ((d.action ≡ "opened") ⊎ (d.action ≡ "reopened") ⊎ (d.action ≡ "synchronize")))

handle_pr_synchronize-same :
    (env : WebhookEnv) (d : EventData) (w : WebhookWorld)
    → ((handle_pr_synchronize env d w).limiter ≡ w.limiter)
      × ((handle_pr_synchronize env d w).tasks ≡ w.tasks)
unfolding handle_pr_synchronize
handle_pr_synchronize-same env d w =
    if_holds {A = WebhookWorld} (λ v. (v.limiter ≡ w.limiter) × (v.tasks ≡ w.tasks)) _ _ w
      (λ _. (refl, refl)) (λ _. (refl, refl))

preprocess_opening :
    (env : WebhookEnv) (d : EventData) (w : WebhookWorld) (action : String)
    → d.action ≡ action
    → str_eq action "closed" ≡ false
    → str_eq action "auto_merge_disabled" ≡ false
    → str_eq action "synchronize" ≡ false
    → is_opening action ≡ true
    → preprocess_pull_request env d w ≡ (none, w)
unfolding preprocess_pull_request
preprocess_opening env d w action e closed disabled synced opening =
    let said : (test : String → Bool) → test d.action ≡ test action = λ test. ap test e in
    rw
      (
        said (λ a. str_eq a "closed") ∙ closed,
        said (λ a. str_eq a "auto_merge_disabled") ∙ disabled,
        said (λ a. str_eq a "synchronize") ∙ synced,
        said is_opening ∙ opening,
      )
      refl

preprocess_synchronize :
    (env : WebhookEnv) (d : EventData) (w : WebhookWorld)
    → d.action ≡ "synchronize"
    → preprocess_pull_request env d w ≡ (none, handle_pr_synchronize env d w)
unfolding preprocess_pull_request
preprocess_synchronize env d w e =
    rw
      (
        ap (λ a. str_eq a "closed") e,
        ap (λ a. str_eq a "auto_merge_disabled") e,
        ap (λ a. str_eq a "synchronize") e,
      )
      refl

-- A pull request goes on to the guard, in a world with the same limiter and tasks.
goes_on :
    (env : WebhookEnv) (d : EventData) (w v : WebhookWorld)
    → preprocess_pull_request env d w ≡ (none, v)
    → (v.limiter ≡ w.limiter) × (v.tasks ≡ w.tasks)
    → IsDecided env "pull_request" d w (handle_event env "pull_request" d w)
unfolding handle_event
goes_on env d w v e (limiters, tasks) =
    subst (λ r. IsDecided env "pull_request" d w (after_preprocess env d r)) (sym e)
      (IsDecided-same env "pull_request" d v w (guarded_pipeline env "pull_request" d v) limiters
        tasks (guarded_pipeline-IsDecided env "pull_request" d v))

pull_request-IsDecided :
    (env : WebhookEnv) (d : EventData) (w : WebhookWorld)
    → (d.action ≡ "opened") ⊎ (d.action ≡ "reopened") ⊎ (d.action ≡ "synchronize")
    → IsDecided env "pull_request" d w (handle_event env "pull_request" d w)
pull_request-IsDecided env d w (inl e) =
    goes_on env d w w (preprocess_opening env d w "opened" e refl refl refl refl) (refl, refl)
pull_request-IsDecided env d w (inr (inl e)) =
    goes_on env d w w (preprocess_opening env d w "reopened" e refl refl refl refl) (refl, refl)
pull_request-IsDecided env d w (inr (inr e)) =
    goes_on env d w _ (preprocess_synchronize env d w e) (handle_pr_synchronize-same env d w)

handle_event-IsDecided :
    (env : WebhookEnv) (event : String) (d : EventData) (w : WebhookWorld)
    → IsAnalysable event d
    → IsDecided env event d w (handle_event env event d w)
unfolding handle_event
handle_event-IsDecided env event d w (inl e) =
    subst (λ name. IsDecided env name d w (handle_event env name d w)) (sym e)
      (guarded_pipeline-IsDecided env "push" d w)
handle_event-IsDecided env event d w (inr (e, action)) =
    subst (λ name. IsDecided env name d w (handle_event env name d w)) (sym e)
      (pull_request-IsDecided env d w action)

authenticated_signed :
    (env : WebhookEnv) (request : Request) (event : String) (d : EventData)
    (checked : String × WebhookWorld)
    → IsSigned env request checked.0
    → request.event ≡ some event
    → authenticated env request (some d) checked ≡ handle_event env event d checked.1
unfolding authenticated
authenticated_signed env request event d (secret, w) (given, signed) named =
    rw (given, signed) (ap (λ o. dispatch env o (some d) w) named)

-- A signed push, or a signed pull request that was opened, reopened or got new commits, is answered with
-- `accepted` and leaves one more task, its analysis, if the guard against loops has nothing against it; that
-- is, if the switch is off, the sender is no bot that is not listed, there is no skip marker, and a listed bot
-- is within its limit. Otherwise it is answered with `skipped` and a reason, and leaves no task.
pub github_webhook-IsDecided :
    (env : WebhookEnv) (request : Request) (w : WebhookWorld) (event : String) (d : EventData)
    → IsSigned env request (secret_at env request w)
    → env.parse request.payload ≡ decoded (some d)
    → request.event ≡ some event
    → IsAnalysable event d
    → IsDecided env event d w (github_webhook env request w)
unfolding github_webhook
github_webhook-IsDecided env request w event d signed parsed named analysable =
    let checked = secret_for env d.full_name w in
    let same = secret_for-IsSame env d.full_name w in
    subst (IsDecided env event d w)
      (sym (
        ap (λ p. after_parse env request p w) parsed
        ∙ authenticated_signed env request event d checked
            (subst (λ p. IsSigned env request (secret_for env (name_in p) w).0) parsed signed)
            named))
      (IsDecided-same env event d checked.1 w (handle_event env event d checked.1)
        (ap (λ (v : WebhookWorld). v.limiter) same) (ap (λ (v : WebhookWorld). v.tasks) same)
        (handle_event-IsDecided env event d checked.1 analysable))
