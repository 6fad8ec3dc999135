-- ===== src/Pipeline/Save/Store.antt =====
-- src/worker/pipeline.py: the storing of an analysis, which may supersede the CLI hook's.
use scamanager.Prelude.{ℕ, Option, none, some, Bool, true, false, update_where, if◌then◌else◌}
use scamanager.Prelude.Effects.{◌>>=◌, ◌>>◌, pure}
use scamanager.ConfigManager.{RepoConfigData}
use scamanager.Pipeline.Tables.{
  ResultDict, AnalysisRow, RepositoryRow, Tables, find_by_sha, find_by_id, find_by_full_name,
  has_analysis_id, insert_analysis, score_is_unreliable, should_null_persist_score, is_cli_only,
}
use scamanager.Pipeline.World.{
  PipelineEnv, Pipe, transact, look, elsewhere, read_config, raise, swallow,
}
use scamanager.Pipeline.Save.Params.{SaveParams, build_analysis_result_dict}
use scamanager.Pipeline.Save.Register.{unless_analysed}
use scamanager.Pipeline.Save.Regate.{gate, race_recover_existing}

abbrev pub pr_or_kept : Option ℕ → Option ℕ → Option ℕ
pr_or_kept none kept = kept
pr_or_kept (some pr) kept = some pr

abbrev pub unless_null : {A : Type 0} → ResultDict → A → Option A
unless_null d a = if should_null_persist_score d then none else some a

abbrev pub superseded : SaveParams → ResultDict → AnalysisRow → AnalysisRow
superseded params d a = record a {
  pr_number = pr_or_kept params.pr_number a.pr_number;
  score = unless_null d params.score_result.total;
  grade = unless_null d params.score_result.grade;
  result = some d;
  score_unreliable = score_is_unreliable d;
}

abbrev pub supersede_locked :
    SaveParams → ResultDict → Option AnalysisRow → Tables → Option AnalysisRow × Tables
supersede_locked params d none t = (none, t)
supersede_locked params d (some a) t =
    if is_cli_only a
    then (
      some (superseded params d a),
      record t { analyses = update_where (has_analysis_id a.id) (superseded params d) t.analyses },
    )
    else (none, t)

-- The lock is taken and the row is read again: it is replaced only if it is still the CLI hook's.
unfoldable pub claim_and_supersede_cli :
    ℕ → SaveParams → ResultDict → Tables → Option AnalysisRow × Tables
claim_and_supersede_cli id params d t = supersede_locked params d (find_by_id id t) t

-- The row that is to be inserted; the sequence gives its id.
abbrev pub new_analysis : SaveParams → ℕ → ResultDict → AnalysisRow
new_analysis params repo_id d = record {
  id = 0;
  repo_id = repo_id;
  commit_sha = params.commit_sha;
  pr_number = params.pr_number;
  score = unless_null d params.score_result.total;
  grade = unless_null d params.score_result.grade;
  result = some d;
  score_unreliable = score_is_unreliable d;
}

abbrev pub try_insert : AnalysisRow → Tables → Option AnalysisRow × Tables
try_insert new t = elim (insert_analysis new t) [ none ↦ (none, t) | some (a, t') ↦ (some a, t') ]

abbrev pub found_existing : Option AnalysisRow → Pipe (AnalysisRow × Bool)
found_existing none = raise
found_existing (some a) = pure (a, false)

abbrev pub inserted : PipelineEnv → AnalysisRow → Option AnalysisRow → Pipe (AnalysisRow × Bool)
inserted env new (some a) = pure (a, true)
inserted env new none = do
  elsewhere env
  existing ← look (find_by_sha new.commit_sha new.repo_id)
  found_existing existing

-- `analysis_repo.save_new`.
unfoldable pub save_new : PipelineEnv → AnalysisRow → Pipe (AnalysisRow × Bool)
save_new env new = do a ← transact (try_insert new); inserted env new a

-- `(repo_config, analysis_id, result_dict)`, the two latter together or not at all.
pub record Saved : Type 0 where
  pub config : Option RepoConfigData
  pub analysis : Option (ℕ × ResultDict)

abbrev pub nothing_saved : Option RepoConfigData → Saved
nothing_saved config = record { config = config; analysis = none }

unfoldable pub recovered : PipelineEnv → SaveParams → ℕ → Pipe Saved
recovered env params repo_id = do
  config ← race_recover_existing env params repo_id
  pure (nothing_saved config)

abbrev pub gate_new :
    PipelineEnv → SaveParams → Option ℕ → ℕ → ResultDict → Option RepoConfigData → Pipe (Unit {0})
gate_new env params none id d config = pure tt
gate_new env params (some pr) id d config =
    swallow (gate env params.repo_name params.commit_sha pr id d config)

unfoldable pub gate_saved : PipelineEnv → SaveParams → ResultDict → ℕ → Pipe Saved
gate_saved env params d id = do
  config ← read_config env params.repo_name
  gate_new env params params.pr_number id d config
  pure (record { config = config; analysis = some (id, d) })

abbrev pub after_claim : PipelineEnv → SaveParams → ResultDict → ℕ → Option AnalysisRow → Pipe Saved
after_claim env params d repo_id none = recovered env params repo_id
after_claim env params d repo_id (some a) = gate_saved env params d a.id

unfoldable pub after_save :
    PipelineEnv → SaveParams → ResultDict → ℕ → AnalysisRow × Bool → Pipe Saved
after_save env params d repo_id (a, true) = gate_saved env params d a.id
after_save env params d repo_id (a, false) =
    if is_cli_only a
    then (do
      elsewhere env
      claimed ← transact (claim_and_supersede_cli a.id params d)
      after_claim env params d repo_id claimed)
    else recovered env params repo_id

unfoldable pub store : PipelineEnv → SaveParams → ℕ → Pipe Saved
store env params repo_id = do
  elsewhere env
  let d = build_analysis_result_dict params
  saved ← save_new env (new_analysis params repo_id d)
  after_save env params d repo_id saved

abbrev pub unless_saved : PipelineEnv → SaveParams → ℕ → Option RepositoryRow → Pipe Saved
unless_saved env params repo_id none = recovered env params repo_id
unless_saved env params repo_id (some r) = store env params repo_id

abbrev pub save_in : PipelineEnv → SaveParams → Option RepositoryRow → Pipe Saved
save_in env params none = pure (nothing_saved none)
save_in env params (some r) = do
  existing ← look (find_by_sha params.commit_sha r.id)
  unless_saved env params r.id (unless_analysed r existing)

unfoldable pub save_and_gate : PipelineEnv → SaveParams → Pipe Saved
save_and_gate env params = do
  repo ← look (find_by_full_name params.repo_name)
  save_in env params repo
