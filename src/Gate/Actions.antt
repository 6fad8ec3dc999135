-- ===== src/Gate/Actions.antt =====
-- src/gate/actions and `run_gate_check` of src/gate/engine.py: what the gate does for an analysed pull
-- request. An action that catches KeyError only logs it, as `run_gate_check` does with every exception
-- of an action, so here it goes on to `run_gate_check`. The actions run one after the other.
use scamanager.Prelude.{
  ℕ, String, Option, none, some, Bool, false, not, ◌||◌, List, [], ◌∷◌, filter, str_eq,
  if◌then◌else◌,
}
use scamanager.Prelude.Int.{pos, leb_int}
use scamanager.Prelude.Text.{is_empty}
use scamanager.Prelude.Effects.{returned, ◌>>=◌, ◌>>◌, pure}
use scamanager.ConfigManager.{RepoConfigData}
use scamanager.Gate.World.{post_comment, send_telegram, GateEnv, Gate, call}
use scamanager.GateDecisions.Defs.{upsert_decision}
use scamanager.Gate.GithubReview.{
  or_default, Posted, posted, head_moved, on_send_error, post_github_review,
}
use scamanager.Gate.Guards.{on_any_error}
use scamanager.Gate.Engine.{Job, run_auto_merge}

-- The keys of an analysis' result that the gate reads.
pub record AnalysisResult : Type 0 where
  pub score : ℕ
  pub static_analysis_incomplete : Bool
  pub ai_review_truncated : Bool
  pub ai_review_status : Option String

-- Membership in `AI_REVIEW_FAILED_STATUSES`.
abbrev pub is_failed_status : Option String → Bool
is_failed_status none = false
is_failed_status (some s) = str_eq s "api_error" || str_eq s "parse_error"

unfoldable pub ai_review_failed : AnalysisResult → Bool
ai_review_failed r = is_failed_status r.ai_review_status

-- The arguments of `run_gate_check`, as the context of the actions.
pub record GateContext : Type 0 where
  pub repo_name : String
  pub pr_number : ℕ
  pub analysis_id : ℕ
  pub result : AnalysisResult
  pub config : RepoConfigData
  pub commit_sha : Option String

-- The three guards, which each action tests one after the other.
unfoldable pub is_unreliable : AnalysisResult → Bool
unfolding ai_review_failed
is_unreliable r = r.static_analysis_incomplete || (r.ai_review_truncated || ai_review_failed r)

abbrev pub decision_of : GateContext → String
decision_of ctx =
    if leb_int ctx.config.approve_threshold (pos ctx.result.score)
    then "approve"
    else if leb_int ctx.config.reject_threshold (pos ctx.result.score)
    then "skip"
    else "reject"

unfoldable pub decide : GateContext → String → Gate (Unit {0})
decide ctx decision w = (
  returned tt,
  record w { decisions = upsert_decision ctx.analysis_id decision "auto" none w.decisions },
)

abbrev pub decide_if_posted : GateContext → String → Posted → Gate (Unit {0})
decide_if_posted ctx decision posted = decide ctx decision
decide_if_posted ctx decision head_moved = pure tt

unfoldable pub review_and_decide : GateEnv → GateContext → String → Gate (Unit {0})
review_and_decide env ctx decision = on_send_error tt (do
  p ← post_github_review env ctx.repo_name ctx.pr_number decision ctx.commit_sha
  decide_if_posted ctx decision p)

unfoldable pub run_auto : GateEnv → GateContext → Gate (Unit {0})
run_auto env ctx =
    if is_unreliable ctx.result
    then pure tt
    else if str_eq (decision_of ctx) "skip"
    then decide ctx "skip"
    else review_and_decide env ctx (decision_of ctx)

unfoldable pub run_semi_auto : GateEnv → GateContext → Gate (Unit {0})
run_semi_auto env ctx =
    let chat_id = or_default ctx.config.notify_chat_id "" in
    if is_unreliable ctx.result
    then pure tt
    else if is_empty chat_id
    then pure tt
    else on_send_error tt (call env (send_telegram chat_id) env.done)

unfoldable pub approve : GateEnv → GateContext → Gate (Unit {0})
approve env ctx =
    if str_eq ctx.config.approve_mode "auto"
    then run_auto env ctx
    else if str_eq ctx.config.approve_mode "semi-auto"
    then run_semi_auto env ctx
    else pure tt

abbrev pub job_of : GateContext → Job
job_of ctx = record {
  config = ctx.config;
  repo = ctx.repo_name;
  pr = ctx.pr_number;
  score = ctx.result.score;
  analysis_id = some ctx.analysis_id;
  analyzed_sha = ctx.commit_sha;
}

unfoldable pub auto_merge : GateEnv → GateContext → Gate (Unit {0})
auto_merge env ctx = if is_unreliable ctx.result then pure tt else run_auto_merge env (job_of ctx)

unfoldable pub review_comment : GateEnv → GateContext → Gate (Unit {0})
review_comment env ctx =
    on_send_error tt (call env (post_comment ctx.repo_name ctx.pr_number "review") env.done)

-- The registered actions, in the order of their imports.
pub data GateAction : Type 0 where
  review_comment_action approve_action auto_merge_action : GateAction

abbrev pub gate_actions : List GateAction
gate_actions = review_comment_action ∷ approve_action ∷ auto_merge_action ∷ []

abbrev pub is_applicable : RepoConfigData → GateAction → Bool
is_applicable config review_comment_action = config.pr_review_comment
is_applicable config approve_action = not (str_eq config.approve_mode "disabled")
is_applicable config auto_merge_action = config.auto_merge

abbrev pub execute : GateEnv → GateContext → GateAction → Gate (Unit {0})
execute env ctx review_comment_action = review_comment env ctx
execute env ctx approve_action = approve env ctx
execute env ctx auto_merge_action = auto_merge env ctx

-- `asyncio.gather(..., return_exceptions=True)`: an action's exception ends that action only.
unfoldable pub run_actions : GateEnv → GateContext → List GateAction → Gate (Unit {0})
run_actions env ctx [] = pure tt
run_actions env ctx (a ∷ as') = do on_any_error tt (execute env ctx a); run_actions env ctx as'

unfoldable pub run_gate_check : GateEnv → GateContext → Gate (Unit {0})
unfolding run_actions
run_gate_check env ctx = run_actions env ctx (filter (is_applicable ctx.config) gate_actions)
