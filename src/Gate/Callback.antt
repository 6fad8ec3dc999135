-- ===== src/Gate/Callback.antt =====
-- src/webhook/providers/telegram.py: `handle_gate_callback`, a click on a button of the gate. The rows it
-- looks up are parameters. A notice is kept with the key of its text; its language is left out.
use scamanager.Prelude.{
  ℕ, String, Option, none, some, Bool, false, not, ◌&&◌, ◌==◌, str_eq, if◌then◌else◌,
}
use scamanager.Prelude.Text.{is_empty}
use scamanager.Prelude.Effects.{Answer, returned, send_error, unexpected, ◌>>◌, pure}
use scamanager.ConfigManager.{RepoConfigData}
use scamanager.GateDecisions.Defs.{
  GateDecision, claim_decision, claim_post_attempt, mark_posted, release_post_claim,
}
use scamanager.Gate.World.{send_notice, GateEnv, Gate, call}
use scamanager.Gate.GithubReview.{Posted, posted, head_moved, on_send_error, post_github_review}
use scamanager.Gate.Engine.{on_listed_error, run_auto_merge}
use scamanager.Gate.Actions.{AnalysisResult, GateContext, is_unreliable, job_of}

-- `analysis.result` where it is a dict, of which each key may be absent.
pub record StoredResult : Type 0 where
  pub score : Option ℕ
  pub static_analysis_incomplete : Bool
  pub ai_review_truncated : Bool
  pub ai_review_status : Option String

pub record Analysis : Type 0 where
  pub repo_id : ℕ
  pub pr_number : Option ℕ
  pub commit_sha : String
  pub score : Option ℕ
  pub result : Option StoredResult

pub record Repository : Type 0 where
  pub full_name : String
  pub user_id : Option ℕ

-- The rows of the other tables: a user's id by his Telegram id, and a repository's settings by its name.
pub record Records : Type 0 where
  pub analysis : ℕ → Option Analysis
  pub repository : ℕ → Option Repository
  pub telegram_user : String → Option ℕ
  pub config : String → RepoConfigData

-- The arguments of the callback.
pub record Press : Type 0 where
  pub analysis_id : ℕ
  pub decision : String
  pub decided_by : String
  pub telegram_user_id : Option String
  pub chat_id : Option String

-- `_post_message_guarded` where there is a chat.
unfoldable pub notify : GateEnv → Option String → String → Gate (Unit {0})
notify env none key = pure tt
notify env (some chat) key = on_send_error tt (call env (send_notice chat key) env.done)

unfoldable pub notify_replay_blocked : GateEnv → Option String → Gate (Unit {0})
notify_replay_blocked env chat =
    on_listed_error env (notify env chat "notifier.gate.callback_already_decided")

unfoldable pub release : ℕ → Gate (Unit {0})
release i w = (returned tt, record w { decisions = release_post_claim i w.decisions })

unfoldable pub settle : ℕ → Gate (Unit {0})
settle i w = (returned tt, record w { decisions = mark_posted i w.decisions })

-- The two handlers of the callback's exceptions.
unfoldable pub report : GateEnv → Press → String → Gate (Unit {0})
report env press key = do release press.analysis_id; notify env press.chat_id key

abbrev pub after_error : GateEnv → Press → String → Answer (Unit {0}) → Gate (Unit {0})
after_error env press key (returned x) = pure x
after_error env press key send_error = report env press key
after_error env press key unexpected =
    if env.listed then report env press key else λ w. (unexpected, w)

unfoldable pub guarded : GateEnv → Press → String → Gate (Unit {0}) → Gate (Unit {0})
guarded env press key m w = let (answer, w') = m w in after_error env press key answer w'

-- `score or 0`.
abbrev pub zero_or : Option ℕ → ℕ
zero_or none = 0
zero_or (some n) = n

abbrev pub score_of : Analysis → Option ℕ → ℕ
score_of a none = zero_or a.score
score_of a (some n) = n

unfoldable pub result_of : Analysis → Option StoredResult → AnalysisResult
result_of a none = record {
  score = zero_or a.score;
  static_analysis_incomplete = false;
  ai_review_truncated = false;
  ai_review_status = none;
}
result_of a (some r) = record {
  score = score_of a r.score;
  static_analysis_incomplete = r.static_analysis_incomplete;
  ai_review_truncated = r.ai_review_truncated;
  ai_review_status = r.ai_review_status;
}

-- The analysis that was clicked on, as the context of the gate.
abbrev pub context_of : Records → Press → Analysis → Repository → ℕ → GateContext
context_of records press a repo pr = record {
  repo_name = repo.full_name;
  pr_number = pr;
  analysis_id = press.analysis_id;
  result = result_of a a.result;
  config = records.config repo.full_name;
  commit_sha = some a.commit_sha;
}

unfoldable pub merge_approved : GateEnv → GateContext → String → Gate (Unit {0})
merge_approved env ctx decision =
    if str_eq decision "approve" && (ctx.config.auto_merge && not (is_unreliable ctx.result))
    then run_auto_merge env (job_of ctx)
    else pure tt

unfoldable pub after_post : GateEnv → Press → GateContext → String → Answer Posted → Gate (Unit {0})
after_post env press ctx decision (returned posted) = do
  settle press.analysis_id
  guarded env press "notifier.gate.callback_posted_then_failed" (merge_approved env ctx decision)
after_post env press ctx decision (returned head_moved) =
    report env press "notifier.gate.callback_head_moved"
after_post env press ctx decision send_error = report env press "notifier.gate.callback_failed"
after_post env press ctx decision unexpected =
    if env.listed then report env press "notifier.gate.callback_failed" else λ w. (unexpected, w)

-- The decision that was claimed is posted, not the click's.
unfoldable pub post_claimed : GateEnv → Press → GateContext → Option GateDecision → Gate (Unit {0})
post_claimed env press ctx none w = notify_replay_blocked env press.chat_id w
post_claimed env press ctx (some claimed) w =
    let (answer, w') =
      post_github_review env ctx.repo_name ctx.pr_number claimed.decision ctx.commit_sha w in
    after_post env press ctx claimed.decision answer w'

unfoldable pub claim_and_post : GateEnv → Press → GateContext → Gate (Unit {0})
claim_and_post env press ctx w =
    let decided =
      (claim_decision press.analysis_id press.decision "manual" (some press.decided_by)
        w.decisions).1 in
    let (claimed, table) = claim_post_attempt press.analysis_id env.utc_now decided in
    post_claimed env press ctx claimed (record w { decisions = table })

-- `user is None or repo.user_id != user.id` is no owner.
abbrev pub same_user : Option ℕ → Option ℕ → Bool
same_user none owner = false
same_user (some u) none = false
same_user (some u) (some owner) = u == owner

-- `find_by_telegram_user_id(...) if telegram_user_id else None`.
abbrev pub user_of : Records → Option String → Option ℕ
user_of records none = none
user_of records (some t) = if is_empty t then none else records.telegram_user t

abbrev pub pressed : GateEnv → Records → Press → Analysis → Repository → Option ℕ → Gate (Unit {0})
pressed env records press a repo none = pure tt
pressed env records press a repo (some pr) =
    claim_and_post env press (context_of records press a repo pr)

abbrev pub in_repository :
    GateEnv → Records → Press → Analysis → Option Repository → Gate (Unit {0})
in_repository env records press a none = pure tt
in_repository env records press a (some repo) =
    if same_user (user_of records press.telegram_user_id) repo.user_id
    then pressed env records press a repo a.pr_number
    else pure tt

abbrev pub on_analysis : GateEnv → Records → Press → Option Analysis → Gate (Unit {0})
on_analysis env records press none = pure tt
on_analysis env records press (some a) =
    in_repository env records press a (records.repository a.repo_id)

unfoldable pub handle_gate_callback : GateEnv → Records → Press → Gate (Unit {0})
handle_gate_callback env records press =
    on_analysis env records press (records.analysis press.analysis_id)
