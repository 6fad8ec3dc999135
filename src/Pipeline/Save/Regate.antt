-- ===== src/Pipeline/Save/Regate.antt =====
-- src/worker/pipeline.py: the gate of a new analysis, and the two ways back to it.
use scamanager.Prelude.{
  ℕ, String, Option, none, some, Bool, false, ◌==◌, update_where, if◌then◌else◌,
}
use scamanager.Prelude.Effects.{◌>>=◌, ◌>>◌, pure}
use scamanager.ConfigManager.{RepoConfigData}
use scamanager.Gate.Actions.{AnalysisResult, GateContext}
use scamanager.Pipeline.Tables.{
  ResultDict, AnalysisRow, Tables, find_by_sha, find_by_full_name, has_analysis_id, is_cli_only,
}
use scamanager.Pipeline.World.{PipelineEnv, Pipe, transact, read_config, run_gate, raise, swallow}
use scamanager.Pipeline.Save.Params.{SaveParams, is_some}

-- The result as the gate reads it.
abbrev pub gate_result : ResultDict → AnalysisResult
gate_result d = record {
  score = d.score;
  static_analysis_incomplete = d.static_analysis_incomplete;
  ai_review_truncated = d.ai_review_truncated;
  ai_review_status = some d.ai_review_status;
}

abbrev pub context_for : String → String → ℕ → ℕ → ResultDict → RepoConfigData → GateContext
context_for name sha pr id result config = record {
  repo_name = name;
  pr_number = pr;
  analysis_id = id;
  result = gate_result result;
  config = config;
  commit_sha = some sha;
}

-- `run_gate_check` with the settings at hand, or those that it reads itself.
abbrev pub gate_with :
    PipelineEnv → String → String → ℕ → ℕ → ResultDict → Option RepoConfigData → Pipe (Unit {0})
gate_with env name sha pr id result none = raise
gate_with env name sha pr id result (some config) =
    run_gate env (context_for name sha pr id result config)

unfoldable pub gate :
    PipelineEnv → String → String → ℕ → ℕ → ResultDict → Option RepoConfigData → Pipe (Unit {0})
gate env name sha pr id result (some config) = gate_with env name sha pr id result (some config)
gate env name sha pr id result none = do
  config ← read_config env name
  gate_with env name sha pr id result config

abbrev pub with_pr : ℕ → AnalysisRow → AnalysisRow
with_pr pr a = record a { pr_number = some pr }

unfoldable pub set_pr : ℕ → ℕ → Tables → Tables
set_pr id pr t = record t { analyses = update_where (has_analysis_id id) (with_pr pr) t.analyses }

abbrev pub same_pr : Option ℕ → ℕ → Bool
same_pr none pr = false
same_pr (some p) pr = p == pr

-- The part of `_regate_pr_if_needed` before the gate: the row that is to be gated, and the tables.
unfoldable pub adopt_pushed : ℕ → Option AnalysisRow → Tables → Option AnalysisRow × Tables
unfolding set_pr
adopt_pushed pr none t = (none, t)
adopt_pushed pr (some a) t =
    if same_pr a.pr_number pr
    then (none, t)
    else if is_cli_only a
    then (none, t)
    else if is_some a.pr_number
    then (none, t)
    else (some a, set_pr a.id pr t)

abbrev pub find_pushed : String → String → Tables → Option AnalysisRow
find_pushed name sha t = elim (find_by_full_name name t) [
  | none ↦ none
  | some r ↦ find_by_sha sha r.id t
]

-- A row without a result is not gated.
abbrev pub gate_row :
    PipelineEnv
    → String
    → String
    → ℕ
    → ℕ
    → Option ResultDict
    → Option RepoConfigData
    → Pipe (Unit {0})
gate_row env name sha pr id none config = pure tt
gate_row env name sha pr id (some result) config = swallow (gate env name sha pr id result config)

abbrev pub regate_row : PipelineEnv → String → String → ℕ → Option AnalysisRow → Pipe (Unit {0})
regate_row env name sha pr none = pure tt
regate_row env name sha pr (some a) = gate_row env name sha pr a.id a.result none

unfoldable pub regate_pr_if_needed : PipelineEnv → String → String → ℕ → Pipe (Unit {0})
unfolding adopt_pushed
regate_pr_if_needed env name sha pr = do
  a ← transact (λ t. adopt_pushed pr (find_pushed name sha t) t)
  regate_row env name sha pr a

-- The part of `_race_recover_existing` before the gate. A row that has no result gets no number.
unfoldable pub adopt_raced : Option ℕ → Option AnalysisRow → Tables → Option AnalysisRow × Tables
unfolding set_pr
adopt_raced pr none t = (none, t)
adopt_raced none (some a) t = (none, t)
adopt_raced (some pr) (some a) t =
    if is_some a.pr_number
    then (none, t)
    else if is_some a.result
    then (some a, set_pr a.id pr t)
    else (none, t)

abbrev pub gate_raced :
    PipelineEnv
    → SaveParams
    → Option ℕ
    → Option AnalysisRow
    → Option RepoConfigData
    → Pipe (Unit {0})
gate_raced env params none a config = pure tt
gate_raced env params (some pr) none config = pure tt
gate_raced env params (some pr) (some a) config =
    gate_row env params.repo_name params.commit_sha pr a.id a.result config

-- The existing row is read here; its callers have just read it.
unfoldable pub race_recover_existing : PipelineEnv → SaveParams → ℕ → Pipe (Option RepoConfigData)
unfolding adopt_raced
race_recover_existing env params repo_id = do
  config ← read_config env params.repo_name
  a ← transact (λ t. adopt_raced params.pr_number (find_by_sha params.commit_sha repo_id t) t)
  gate_raced env params params.pr_number a config
  pure config
