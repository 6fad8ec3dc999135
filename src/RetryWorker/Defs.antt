-- ===== src/RetryWorker/Defs.antt =====
-- src/services/merge_retry_service.py: the functions of the worker, in the order of the source. Every
-- `await` is a call of the environment.
use scamanager.Prelude.{
  ℕ, ◌+◌, String, Option, none, some, Bool, true, false, not, ◌&&◌, ◌||◌, List, [], ◌∷◌, leb,
  if◌then◌else◌,
}
use scamanager.Prelude.Text.{is_empty}
use scamanager.Prelude.Int.{ℤ, pos, leb_int}
use scamanager.MergeReasons.{config_changed}
use scamanager.MergeMetrics.{log_merge_attempt, or_none}
use scamanager.RetryPolicy.Defs.{seconds}
use scamanager.RetryQueue.Row.{Row}
use scamanager.RetryQueue.Claim.{release_claim, mark_abandoned}
use scamanager.ConfigManager.{RepoConfigData}
use scamanager.RetryWorker.World.{
  returned, send_error, unexpected, PrData, Notice, retry_stopped, retry_succeeded, retry_terminal,
  Env, Step, ◌>>=◌, ◌>>◌, pure, await, write_back, count_up, add_abandoned, add_released,
}

-- `a or b` of texts.
abbrev pub or_text : Option String → String → String
or_text none b = b
or_text (some a) b = if is_empty a then b else a

unfoldable pub user_token : Env → String → Option ℕ → Option String
user_token env fallback none = or_none fallback
user_token env fallback (some user_id) = elim (env.find_by_id user_id) [
  | none ↦ or_none fallback
  | some token ↦ or_none (or_text (some token) fallback)
]

unfoldable pub resolve_github_token : Env → String → Option String
unfolding user_token
resolve_github_token env repo = elim (env.find_by_full_name repo) [
  | none ↦ or_none env.settings.github_token
  | some user_id ↦ user_token env env.settings.github_token user_id
]

unfoldable pub resolve_retry_chat_id : Env → Row → RepoConfigData → String
resolve_retry_chat_id env view cfg =
    or_text cfg.notify_chat_id (or_text view.notify_chat_id env.settings.telegram_chat_id)

-- `except HTTPX_SEND_ERRORS`: the failure to send is logged only.
unfoldable pub ignore_send_error : Step (Unit {0}) → Step (Unit {0})
ignore_send_error m w =
    let (a, w') = m w in
    (elim a [ returned u ↦ returned u | send_error ↦ returned tt | unexpected ↦ unexpected ], w')

unfoldable pub post_notice : Env → Row → RepoConfigData → Notice → Step (Unit {0})
post_notice env view cfg notice =
    let chat_id = resolve_retry_chat_id env view cfg in
    if is_empty chat_id || is_empty env.settings.telegram_bot_token
    then pure tt
    else ignore_send_error
        (await (env.telegram_post_message env.settings.telegram_bot_token chat_id notice))

unfoldable pub notify_config_changed : Env → Row → RepoConfigData → Step (Unit {0})
notify_config_changed env view cfg =
    post_notice env view cfg (retry_stopped view.repo_full_name view.pr_number)

unfoldable pub notify_merge_succeeded : Env → Row → RepoConfigData → Step (Unit {0})
notify_merge_succeeded env view cfg =
    post_notice env view cfg
      (retry_succeeded view.repo_full_name view.pr_number view.score view.attempts_count)

unfoldable pub notify_merge_terminal :
    Env → Row → RepoConfigData → Option String → String → Step (Unit {0})
notify_merge_terminal env view cfg reason reason_tag = post_notice env view cfg (
    retry_terminal view.repo_full_name view.pr_number view.score view.attempts_count
      (or_text reason reason_tag) reason_tag)

-- `except Exception`: whatever the call raises is logged only.
unfoldable pub create_failure_issue_safe : Env → String → Row → Step (Unit {0})
create_failure_issue_safe env token view w =
    let r = env.create_merge_failure_issue token view.repo_full_name view.pr_number in
    (returned tt, record w { queue = r.meanwhile w.queue })

unfoldable pub get_pr_data : Env → String → Row → Step (Option PrData)
get_pr_data env token view w =
    let r = env.get_pull token view.repo_full_name view.pr_number in
    (
      elim r.answer [
        | returned d ↦ returned (some d)
        | send_error ↦ returned none
        | unexpected ↦ unexpected
      ],
      record w { queue = r.meanwhile w.queue },
    )

abbrev pub or_absent : List String → Option (List String)
or_absent [] = none
or_absent (c ∷ cs) = some (c ∷ cs)

unfoldable pub unknown_if_unsent : Step String → Step String
unknown_if_unsent m w =
    let (a, w') = m w in
    (
      elim a [
        | returned s ↦ returned s
        | send_error ↦ returned "unknown"
        | unexpected ↦ unexpected
      ],
      w',
    )

unfoldable pub get_ci_status_safe : Env → String → Row → String → Step String
get_ci_status_safe env token view base_ref = do
  required ← await (env.required_check_contexts token view.repo_full_name base_ref)
  unknown_if_unsent
      (await (env.get_ci_status token view.repo_full_name view.commit_sha (or_absent required)))

-- `log_merge_attempt` of the row; `state` is "legacy" and `merged_at` absent unless they are given.
unfoldable pub log_attempt : Row → ℤ → Bool → Option String → String → Option ℕ → Step (Unit {0})
unfolding log_merge_attempt
log_attempt view threshold success reason state merged_at w = (
  returned tt,
  record w {
    attempts =
        log_merge_attempt view.analysis_id view.repo_full_name view.pr_number view.score threshold
          success reason state none merged_at w.attempts;
  },
)

unfoldable pub log_failure : Row → ℤ → Option String → Step (Unit {0})
log_failure view threshold reason = log_attempt view threshold false reason "legacy" none

unfoldable pub log_merged : Env → Row → ℤ → Step (Unit {0})
log_merged env view threshold =
    log_attempt view threshold true none "direct_merged" (some env.utc_now)

-- A row past the checks of token and settings.
pub record Preflight : Type 0 where
  pub view : Row
  pub claim_token : Option String
  pub token : String
  pub cfg : RepoConfigData
  pub config_changed : Bool

abbrev pub retry_soon : ℕ → ℕ
retry_soon now = now + seconds 30

unfoldable pub config_is_changed : Row → RepoConfigData → Bool
config_is_changed view cfg = not (cfg.auto_merge && leb_int cfg.merge_threshold (pos view.score))

abbrev pub preflight_of : Env → Row → Option String → String → Preflight
preflight_of env view tok token =
    let cfg = env.repo_config view.repo_full_name in
    record {
      view = view;
      claim_token = tok;
      token = token;
      cfg = cfg;
      config_changed = config_is_changed view cfg;
    }

unfoldable pub check_config : Env → Row → Option String → String → Step (Option Preflight)
check_config env view tok token =
    let cfg = env.repo_config view.repo_full_name in
    let pre = preflight_of env view tok token in
    if config_is_changed view cfg
    then (do
      log_failure view cfg.merge_threshold (some config_changed)
      write_back (mark_abandoned view.id config_changed env.utc_now tok)
      pure (some pre))
    else pure (some pre)

unfoldable pub preflight_retry : Env → ℕ → Row → Option String → Step (Option Preflight)
preflight_retry env now view tok =
    if leb view.max_attempts view.attempts_count
    then (do
      log_failure view view.threshold_at_enqueue (some "max_attempts_exceeded")
      write_back (mark_abandoned view.id "max_attempts_exceeded" env.utc_now tok)
      count_up add_abandoned
      pure none)
    else elim (resolve_github_token env view.repo_full_name) [
      | none ↦ (do
        write_back (release_claim view.id (retry_soon now) (some "no_token") none tok env.utc_now)
        count_up add_released
        pure none)
      | some token ↦ check_config env view tok token
    ]
