-- ===== src/Gate/Engine.antt =====
-- src/gate/engine.py: the automatic merge, from its guards to its record, its deferral or its failure.
-- Every merge is on behalf of one analysis: `Job` has the arguments of `_run_auto_merge`.
use Prim.Native.String.{◌++◌}
use scamanager.Prelude.{
  ℕ, String, Option, none, some, Bool, true, false, not, ◌&&◌, ◌||◌, str_eq, if◌then◌else◌,
}
use scamanager.Prelude.Int.{pos, leb_int}
use scamanager.Prelude.Text.{is_empty}
use scamanager.Prelude.Effects.{Answer, returned, send_error, unexpected, ◌>>=◌, ◌>>◌, pure}
use scamanager.MergeReasons.{is_retriable_tag}
use scamanager.MergeMetrics.{log_merge_attempt, or_none}
use scamanager.MergeAttempts.Defs.{legacy, enabled_pending_merge, direct_merged}
use scamanager.RetryPolicy.Defs.{parse_reason_tag, should_retry}
use scamanager.RetryQueue.Defs.{Deferral, EnqueueResult, enqueue_or_bump}
use scamanager.RetryWorker.Defs.{or_absent}
use scamanager.ConfigManager.{RepoConfigData}
use scamanager.Gate.World.{
  get_required_checks, get_checks, send_telegram, create_issue, GateEnv, Gate, call,
}
use scamanager.Gate.GithubReview.{or_default, or_else, on_send_error, look, get_pr_base_ref}
use scamanager.Gate.NativeAutomerge.{MergeOutcome, path_native_enable, enable_or_fallback_with_path}
use scamanager.Gate.Guards.{on_any_error, sensitive_paths_block_merge, verifier_blocks_merge}

pub record Job : Type 0 where
  pub config : RepoConfigData
  pub repo : String
  pub pr : ℕ
  pub score : ℕ
  pub analysis_id : Option ℕ
  pub analyzed_sha : Option String

-- `log_merge_attempt` where the analysis is known; `merged_at` is not given.
unfoldable pub log_for : Job → Bool → Option String → String → Option ℕ → Gate (Unit {0})
log_for job success reason state enabled_at w = elim job.analysis_id [
  | none ↦ (returned tt, w)
  | some analysis_id ↦ (
    returned tt,
    record w {
      attempts =
          log_merge_attempt analysis_id job.repo job.pr job.score job.config.merge_threshold success
            reason state enabled_at none w.attempts;
    },
  )
]

unfoldable pub chat_for : GateEnv → Job → String
chat_for env job = or_else (or_default job.config.notify_chat_id "") env.settings.telegram_chat_id

abbrev pub has_no_chat : GateEnv → Job → Bool
has_no_chat env job = is_empty (chat_for env job) || is_empty env.settings.telegram_bot_token

unfoldable pub notify_merge_failure : GateEnv → Job → Gate (Unit {0})
notify_merge_failure env job =
    if has_no_chat env job
    then pure tt
    else on_send_error tt (call env (send_telegram (chat_for env job)) env.done)

unfoldable pub notify_merge_deferred : GateEnv → Job → Gate (Unit {0})
notify_merge_deferred env job =
    if has_no_chat env job
    then pure tt
    else on_any_error tt (call env (send_telegram (chat_for env job)) env.done)

unfoldable pub create_failure_issue : GateEnv → Job → Gate (Unit {0})
create_failure_issue env job =
    if job.config.auto_merge_issue_on_failure
    then on_any_error tt (call env (create_issue job.repo job.pr) env.done)
    else pure tt

unfoldable pub handle_terminal_merge_failure : GateEnv → Job → Option String → Gate (Unit {0})
handle_terminal_merge_failure env job reason = do
  log_for job false reason legacy none
  notify_merge_failure env job
  create_failure_issue env job

-- The twin of the worker's function of this name.
unfoldable pub ci_status_safe : GateEnv → String → String → String → Gate String
ci_status_safe env repo sha base_ref = do
  required ←
      call env (get_required_checks repo base_ref)
        (λ n. env.required_check_contexts n repo base_ref)
  on_send_error "unknown" (
      call env (get_checks repo sha (or_absent required))
        (λ n. env.ci_status n repo sha (or_absent required)))

abbrev pub deferral_of : GateEnv → Job → ℕ → String → Deferral
deferral_of env job analysis_id sha = record {
  repo_full_name = job.repo;
  pr_number = job.pr;
  analysis_id = analysis_id;
  commit_sha = sha;
  score = job.score;
  threshold_at_enqueue = job.config.merge_threshold;
  notify_chat_id = job.config.notify_chat_id;
  max_attempts = env.settings.merge_retry_max_attempts;
  initial_next_retry_seconds = env.settings.merge_retry_initial_backoff_seconds;
}

abbrev pub enqueued : Option EnqueueResult → Answer Bool
enqueued none = unexpected
enqueued (some r) = returned r.is_first_deferral

-- `enqueue_or_bump`; its answer is whether this is the first deferral.
unfoldable pub enqueue : GateEnv → Deferral → Gate Bool
enqueue env d w =
    let (result, q) = enqueue_or_bump d env.utc_now env.utc_now env.others w.queue in
    (enqueued result, record w { queue = q })

unfoldable pub enqueue_and_notify : GateEnv → Job → Deferral → Gate (Unit {0})
enqueue_and_notify env job d = do
  is_first ← enqueue env d
  if is_first then notify_merge_deferred env job else pure tt

unfoldable pub enqueue_merge_retry : GateEnv → Job → String → String → Gate (Unit {0})
enqueue_merge_retry env job effective_sha reason_tag = elim job.analysis_id [
  | none ↦ pure tt
  | some analysis_id ↦ (do
    log_for job false (some (reason_tag ++ (":" ++ "deferred"))) legacy none
    on_any_error tt (enqueue_and_notify env job (deferral_of env job analysis_id effective_sha)))
]

-- The state and `enabled_at` of an outcome.
abbrev pub is_native : MergeOutcome → Bool
is_native o = str_eq o.path path_native_enable

unfoldable pub log_success : GateEnv → Job → MergeOutcome → Gate (Unit {0})
log_success env job o =
    if is_native o
    then log_for job true none enabled_pending_merge (some env.utc_now)
    else log_for job true none direct_merged none

unfoldable pub defer_or_end : GateEnv → Job → Option String → String → Gate (Unit {0})
defer_or_end env job reason effective_sha = do
  base_ref ← get_pr_base_ref env job.repo job.pr
  ci_status ← ci_status_safe env job.repo effective_sha base_ref
  if should_retry (parse_reason_tag reason) ci_status
      then enqueue_merge_retry env job effective_sha (parse_reason_tag reason)
      else handle_terminal_merge_failure env job reason

unfoldable pub after_outcome : GateEnv → Job → String → MergeOutcome → Gate (Unit {0})
after_outcome env job merge_sha o =
    if o.ok
    then log_success env job o
    else if is_retriable_tag (parse_reason_tag o.reason)
    then defer_or_end env job o.reason
        (or_else (or_default job.analyzed_sha "") (or_else o.head_sha merge_sha))
    else handle_terminal_merge_failure env job o.reason

-- The head is known, and it is not the analysed commit.
abbrev pub has_drifted : Job → String → Bool
has_drifted job head =
    let analyzed = or_default job.analyzed_sha "" in
    not (is_empty analyzed) && (not (is_empty head) && not (str_eq head analyzed))

unfoldable pub merge_at : GateEnv → Job → String → Gate (Unit {0})
merge_at env job merge_sha = do
  o ← enable_or_fallback_with_path env job.repo job.pr (or_none merge_sha)
  after_outcome env job merge_sha o

unfoldable pub run_auto_merge_retry : GateEnv → Job → Gate (Unit {0})
run_auto_merge_retry env job = do
  seen ← look env job.repo job.pr
  if has_drifted job seen.head_sha
      then pure tt
      else merge_at env job (or_else (or_default job.analyzed_sha "") seen.head_sha)

unfoldable pub log_legacy : GateEnv → Job → MergeOutcome → Gate (Unit {0})
log_legacy env job o =
    if o.ok && is_native o
    then log_for job o.ok o.reason enabled_pending_merge (some env.utc_now)
    else if o.ok
    then log_for job o.ok o.reason direct_merged none
    else log_for job o.ok o.reason legacy none

unfoldable pub run_auto_merge_legacy : GateEnv → Job → Gate (Unit {0})
run_auto_merge_legacy env job = do
  o ← enable_or_fallback_with_path env job.repo job.pr (or_none (or_default job.analyzed_sha ""))
  log_legacy env job o
  if o.ok then pure tt else (do notify_merge_failure env job; create_failure_issue env job)

-- `except (*HTTPX_SEND_ERRORS, KeyError, RuntimeError, ValueError)`.
unfoldable pub on_listed_error : GateEnv → Gate (Unit {0}) → Gate (Unit {0})
on_listed_error env m w =
    let (answer, w') = m w in
    (
      elim answer [
        | returned u ↦ returned u
        | send_error ↦ returned tt
        | unexpected ↦ (if env.listed then returned tt else unexpected)
      ],
      w',
    )

abbrev pub is_eligible : Job → Bool
is_eligible job = job.config.auto_merge && leb_int job.config.merge_threshold (pos job.score)

unfoldable pub merge_unless_blocked : GateEnv → Job → Bool → Gate (Unit {0})
merge_unless_blocked env job blocked =
    if blocked
    then pure tt
    else if env.settings.merge_retry_enabled
    then on_listed_error env (run_auto_merge_retry env job)
    else on_listed_error env (run_auto_merge_legacy env job)

unfoldable pub verify_and_merge : GateEnv → Job → Bool → Gate (Unit {0})
verify_and_merge env job withheld = if withheld then pure tt else (do
  blocked ← verifier_blocks_merge env job.repo job.pr (pos job.score) job.config.merge_threshold
  merge_unless_blocked env job blocked)

unfoldable pub run_auto_merge : GateEnv → Job → Gate (Unit {0})
run_auto_merge env job =
    if is_eligible job
    then (do
      withheld ← sensitive_paths_block_merge env job.repo job.pr
      verify_and_merge env job withheld)
    else pure tt
