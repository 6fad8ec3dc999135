-- ===== src/Webhook/Carried.antt =====
-- A property that every change of a request keeps is kept by the request.
use scamanager.Prelude.{
  ℕ, ◌≡◌, ◌⊎◌, inl, inr, refl, String, Option, none, some, Bool, true, false, not, ◌&&◌, ◌||◌, ◌==◌,
  List, [], ◌∷◌, str_eq, eq_iff, subst, arith,
}
use scamanager.Prelude.Text.{is_empty}
use scamanager.Prelude.Lengths.{if_holds}
use scamanager.Prelude.Distinct.{AllDistinct}
use scamanager.MergeAttempts.Defs.{AttemptRow, find_latest_for_pr}
use scamanager.LoopGuard.Defs.{Tracked, is_bot_sender, is_whitelisted_bot, allow}
use scamanager.Webhook.World.{
  EventData, run_analysis_pipeline, close_referenced_issues, trigger_retry_for_sha, Response,
  replied, WebhookEnv, WebhookWorld,
}
use scamanager.Webhook.PullRequest.{
  Answered, ignored, distinct_numbers, extract_closing_issue_numbers, record_actual_merge,
  is_other_branch, close_later, handle_merged_pr_event, mark_disabled, disable_for,
  handle_auto_merge_disabled_event, synchronized_number, handle_pr_synchronize, is_opening,
  preprocess_pull_request,
}
use scamanager.Webhook.CheckSuite.{
  sweep, put_processed, is_recent, last_processed, debounced_trigger, swept,
  handle_check_suite_completed,
}
use scamanager.Webhook.Github.{
  relayed_token, handle_issues_event, has_skip_marker, message_of, rate_limited, loop_guard_check,
  skipped, run_unless, guarded_pipeline, after_preprocess, handle_event,
}
use scamanager.Webhook.Changes.{IsAnalysable, KeepsHandled}
use scamanager.Webhook.Numbers.{distinct_numbers-AllDistinct}

module _ (env : WebhookEnv) (event : String) (d : EventData) (K : WebhookWorld → Type 0)
    (keeps : KeepsHandled env event d K) where
  abbrev After : {A : Type 0} → A × WebhookWorld → Type 0
  After r = K r.1

  merge_recorded :
      (pr : Option ℕ) (w : WebhookWorld) → K w → K (record_actual_merge env d.full_name pr w)
  unfolding record_actual_merge
  merge_recorded none w k = k
  merge_recorded (some pr) w k = keeps.merged pr w k

  closed_later :
      (numbers : List ℕ) (w : WebhookWorld)
      → d.pull_request.merged ≡ true
      → is_other_branch d ≡ false
      → AllDistinct ◌==◌ numbers
      → K w
      → K (close_later d.full_name numbers w).1
  closed_later [] w m b distinct k = k
  closed_later (n ∷ ns) w m b distinct k =
      keeps.task (close_referenced_issues d.full_name (n ∷ ns)) w (refl, m, b, distinct) k

  extracted-AllDistinct :
      (body : String) → AllDistinct ◌==◌ (extract_closing_issue_numbers env body)
  unfolding extract_closing_issue_numbers
  extracted-AllDistinct body =
      if_holds (AllDistinct ◌==◌) (is_empty body) []
        (distinct_numbers [] (env.closing_numbers body)) (λ t. tt)
        (λ t. distinct_numbers-AllDistinct [] (env.closing_numbers body))

  merged_kept : (w : WebhookWorld) → K w → K (handle_merged_pr_event env d w).1
  unfolding handle_merged_pr_event
  merged_kept w k =
      if_holds After (not d.pull_request.merged) (ignored, w) _ (λ _. k)
        (λ m.
          if_holds After (is_empty d.full_name) (ignored, w) _ (λ _. k)
            (λ _.
              if_holds After (is_other_branch d) _ _ (λ _. merge_recorded d.pull_request.number w k)
                (λ b.
                  closed_later (extract_closing_issue_numbers env d.pull_request.body) _
                    (ground arith) b (extracted-AllDistinct d.pull_request.body)
                    (merge_recorded d.pull_request.number w k))))

  disabled_for : (pr : Option ℕ) (w : WebhookWorld) → K w → K (disable_for env d pr w).1
  disabled_for none w k = k
  disabled_for (some pr) w k = of (find_latest_for_pr d.full_name pr w.attempts)
    where
      of : (latest : Option AttemptRow) → K (mark_disabled env d latest w).1
      of none = k
      of (some latest) = keeps.disabled latest.id w k

  disabled_kept : (w : WebhookWorld) → K w → K (handle_auto_merge_disabled_event env d w).1
  unfolding handle_auto_merge_disabled_event
  disabled_kept w k =
      if_holds After (is_empty d.full_name) (ignored, w) _ (λ _. k)
        (λ _. disabled_for d.pull_request.number w k)

  synchronized : (w : WebhookWorld) → K w → K (handle_pr_synchronize env d w)
  unfolding handle_pr_synchronize
  synchronized w k =
      if_holds K
        (not (is_empty d.full_name)
          && not (synchronized_number d == 0)
          && not (is_empty d.pull_request.head_sha))
        _ w (λ _. keeps.abandoned (synchronized_number d) d.pull_request.head_sha w k) (λ _. k)

  issues_kept : (w : WebhookWorld) → K w → K (handle_issues_event env d w).1
  unfolding handle_issues_event
  issues_kept w k =
      if_holds After (is_empty d.full_name) (ignored, w) _ (λ _. k)
        (λ _.
          if_holds After (is_empty (env.n8n_url d.full_name)) (ignored, w) _ (λ _. k)
            (λ _. keeps.task _ w (refl, refl, relayed) k))
    where
      relayed :
          (relayed_token env d.full_name ≡ "")
          ⊎ ((env.settings.n8n_relay_repo_token ≡ true)
              × (is_empty env.settings.n8n_webhook_secret ≡ false))
      relayed =
          if_holds
            (λ token.
              (token ≡ "")
              ⊎ ((env.settings.n8n_relay_repo_token ≡ true)
                  × (is_empty env.settings.n8n_webhook_secret ≡ false)))
            (env.settings.n8n_relay_repo_token && not (is_empty env.settings.n8n_webhook_secret))
            (env.owner_token d.full_name) "" (λ t. inr (ground arith)) (λ _. inl refl)

  check_suite_kept : (w : WebhookWorld) → K w → K (handle_check_suite_completed env d w).1
  unfolding handle_check_suite_completed debounced_trigger
  check_suite_kept w k =
      if_holds After (not env.settings.merge_retry_check_suite_webhook_enabled)
        (replied "disabled" none, w) _ (λ _. k)
        (λ on.
          if_holds After (not (str_eq d.action "completed")) (ignored, swept env w) _
            (λ _. keeps.debounced _ w k)
            (λ done.
              if_holds After (is_empty d.check_suite_sha || is_empty d.full_name)
                (ignored, swept env w) _ (λ _. keeps.debounced _ w k)
                (λ _.
                  if_holds After
                    (is_recent env.debounce_time (
                      last_processed d.full_name d.check_suite_sha
                        (sweep env.sweep_time w.debounce)))
                    (replied "debounced" none, swept env w) _ (λ _. keeps.debounced _ w k)
                    (λ _.
                      keeps.task (trigger_retry_for_sha d.full_name d.check_suite_sha) _
                        (refl, refl, ground arith, ground arith)
                        (keeps.debounced
                          (put_processed d.full_name d.check_suite_sha env.debounce_time
                            (sweep env.sweep_time w.debounce))
                          (swept env w) (keeps.debounced _ w k))))))

  limit_kept :
      (w : WebhookWorld) → K w → K (rate_limited (allow env.limit_time d.full_name w.limiter) w).1
  limit_kept w k = of (allow env.limit_time d.full_name w.limiter) (keeps.limited w k)
    where
      of : (r : Bool × List Tracked) → K (record w { limiter = r.1 }) → K (rate_limited r w).1
      of (true, limiter) h = h
      of (false, limiter) h = h

  -- What a check of the guard leaves, and that an event it lets through is none that it is to stop.
  abbrev IsThrough : Option Response × WebhookWorld → Type 0
  IsThrough (some r, w) = K w
  IsThrough (none, w) =
      K w
      × (env.settings.scamanager_self_analysis_disabled ≡ false)
      × (is_bot_sender d.sender ≡ false)
      × (has_skip_marker env.lower (message_of d) ≡ false)

  through :
      (r : Option Response × WebhookWorld)
      → K r.1
      → env.settings.scamanager_self_analysis_disabled ≡ false
      → is_bot_sender d.sender ≡ false
      → has_skip_marker env.lower (message_of d) ≡ false
      → IsThrough r
  through (some r, w) k a b c = k
  through (none, w) k a b c = (k, a, b, c)

  guard-IsThrough : (w : WebhookWorld) → K w → IsThrough (loop_guard_check env d w)
  unfolding loop_guard_check
  guard-IsThrough w k =
      if_holds IsThrough env.settings.scamanager_self_analysis_disabled
        (skipped "self_analysis_disabled", w) _ (λ _. k)
        (λ a.
          if_holds IsThrough (is_bot_sender d.sender) (skipped "bot_sender", w) _ (λ _. k)
            (λ b.
              if_holds IsThrough (has_skip_marker env.lower (message_of d))
                (skipped "skip_marker", w) _ (λ _. k)
                (λ c.
                  if_holds IsThrough (is_whitelisted_bot d.sender) _ (none, w)
                    (λ _.
                      through (rate_limited (allow env.limit_time d.full_name w.limiter) w)
                        (limit_kept w k) a b c)
                    (λ _. (k, a, b, c)))))

  pipeline_kept :
      IsAnalysable event d → (w : WebhookWorld) → K w → K (guarded_pipeline env event d w).1
  unfolding guarded_pipeline
  pipeline_kept analysable w k = of (loop_guard_check env d w) (guard-IsThrough w k)
    where
      of : (r : Option Response × WebhookWorld) → IsThrough r → K (run_unless event d r).1
      of (some r, v) h = h
      of (none, v) (h, a, b, c) =
          keeps.task (run_analysis_pipeline event d) v (refl, refl, analysable, a, b, c) h

  -- What the first look at a pull request leaves: an answer, or an action that is to be analysed.
  abbrev IsPrepared : Option Response × WebhookWorld → Type 0
  IsPrepared (some r, w) = K w
  IsPrepared (none, w) =
      K w × ((str_eq d.action "synchronize" ≡ true) ⊎ (is_opening d.action ≡ true))

  preprocess-IsPrepared : (w : WebhookWorld) → K w → IsPrepared (preprocess_pull_request env d w)
  unfolding preprocess_pull_request
  preprocess-IsPrepared w k =
      if_holds IsPrepared (str_eq d.action "closed") _ _ (λ _. merged_kept w k)
        (λ _.
          if_holds IsPrepared (str_eq d.action "auto_merge_disabled") _ _ (λ _. disabled_kept w k)
            (λ _.
              if_holds IsPrepared (str_eq d.action "synchronize")
                (none, handle_pr_synchronize env d w) _ (λ e. (synchronized w k, inl e))
                (λ _.
                  if_holds IsPrepared (is_opening d.action) (none, w) (some ignored, w)
                    (λ e. (k, inr e)) (λ _. k))))

module _ (env : WebhookEnv) (d : EventData) (K : WebhookWorld → Type 0) where
  pull_request_kept :
      (keeps : KeepsHandled env "pull_request" d K) (w : WebhookWorld)
      → K w
      → K (after_preprocess env d (preprocess_pull_request env d w)).1
  pull_request_kept keeps w k =
      of (preprocess_pull_request env d w) (preprocess-IsPrepared env "pull_request" d K keeps w k)
    where
      of :
          (r : Option Response × WebhookWorld)
          → IsPrepared env "pull_request" d K keeps r
          → K (after_preprocess env d r).1
      of (some r, v) h = h
      of (none, v) (h, action) = pipeline_kept env "pull_request" d K keeps (inr (refl, action)) v h

  pub event_kept :
      (event : String) (keeps : KeepsHandled env event d K) (w : WebhookWorld)
      → K w
      → K (handle_event env event d w).1
  unfolding handle_event
  event_kept event keeps w k =
      if_holds {A = Answered} (λ r. K r.1) (str_eq event "pull_request") _ _
        (λ e.
          pull_request_kept
            (subst (λ s. KeepsHandled env s d K) ((eq_iff event "pull_request").0 e) keeps) w k)
        (λ _.
          if_holds {A = Answered} (λ r. K r.1) (str_eq event "issues") (handle_issues_event env d w)
            _ (λ _. issues_kept env event d K keeps w k)
            (λ _.
              if_holds {A = Answered} (λ r. K r.1) (str_eq event "check_suite")
                (handle_check_suite_completed env d w) _
                (λ _. check_suite_kept env event d K keeps w k)
                (λ _.
                  if_holds {A = Answered} (λ r. K r.1) (str_eq event "push")
                    (guarded_pipeline env "push" d w) (ignored, w)
                    (λ e.
                      let s = (eq_iff event "push").0 e in
                      pipeline_kept env "push" d K (subst (λ s. KeepsHandled env s d K) s keeps)
                        (inl refl) w k)
                    (λ _. k))))
