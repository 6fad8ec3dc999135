-- ===== src/Pipeline/Body.antt =====
-- src/worker/pipeline.py: the body of the pipeline, from the payload to the notices.
use Prim.Native.String.{[], ◌∷◌}
use Prim.Native.Char.{code}
use scamanager.Prelude.{
  ℕ, String, Option, none, some, Bool, true, ◌&&◌, ◌||◌, ◌==◌, List, str_eq, if◌then◌else◌,
}
use scamanager.Prelude.Text.{is_empty}
use scamanager.Prelude.Effects.{◌>>=◌, ◌>>◌, pure}
use scamanager.ConfigManager.{RepoConfigData}
use scamanager.Scorer.Defs.{StaticAnalysisResult, AiReviewResult, calculate_score}
use scamanager.Pipeline.Tables.{ResultDict, RepositoryRow, Tables, begin_attempt, finish_attempt}
use scamanager.Pipeline.Static.{SourceFile, is_empty_list, run_static_with_timeout}
use scamanager.Pipeline.World.{
  Payload, NotifyContext, PipelineEnv, Pipe, transact, await, read_config, notify, swallow,
}
use scamanager.Pipeline.Save.{SaveParams, Saved, ensure_repo, regate_pr_if_needed, save_and_gate}

-- `(repo_name, commit_sha, pr_number)`.
pub record EventMetadata : Type 0 where
  pub repo_name : String
  pub commit_sha : String
  pub pr_number : Option ℕ

abbrev pub text_or_empty : Option String → String
text_or_empty none = ""
text_or_empty (some s) = s

abbrev pub is_pull_request : String → Bool
is_pull_request event = str_eq event "pull_request"

unfoldable pub extract_event_metadata : String → Payload → EventMetadata
extract_event_metadata event p =
    if is_pull_request event
    then record {
      repo_name = text_or_empty p.full_name;
      commit_sha = text_or_empty p.head_sha;
      pr_number = p.number;
    }
    else record {
      repo_name = text_or_empty p.full_name;
      commit_sha = text_or_empty p.after;
      pr_number = none;
    }

abbrev pub all_zeros : String → Bool
all_zeros [] = true
all_zeros (c ∷ s) = code c == b'0' && all_zeros s

-- `not sha or set(sha) == {"0"}`.
unfoldable pub is_blank_sha : String → Bool
is_blank_sha sha = is_empty sha || all_zeros sha

unfoldable pub begin : PipelineEnv → ℕ → String → Option ℕ → String → Pipe Bool
begin env repo_id sha pr_number event = transact (begin_attempt repo_id sha pr_number event env.now)

abbrev pub finished_trace : ℕ → String → Tables → Unit {0} × Tables
finished_trace repo_id sha t = (tt, finish_attempt repo_id sha t)

unfoldable pub finish : ℕ → String → Pipe (Unit {0})
finish repo_id sha = transact (finished_trace repo_id sha)

unfoldable pub params_of :
    EventMetadata → List StaticAnalysisResult × Bool → AiReviewResult → SaveParams
params_of m (results, incomplete) review = record {
  repo_name = m.repo_name;
  commit_sha = m.commit_sha;
  pr_number = m.pr_number;
  analysis_results = results;
  ai_review = review;
  score_result = calculate_score results (some review);
  static_incomplete = incomplete;
}

-- The static analysis and the review, which run at the same time.
unfoldable pub analyse :
    PipelineEnv
    → EventMetadata
    → List SourceFile
    → Option RepoConfigData
    → AiReviewResult
    → SaveParams
unfolding params_of
analyse env m files config review =
    params_of m
      (run_static_with_timeout env.loop_time env.file_clock (env.file_outcome config) files) review

abbrev pub notice : EventMetadata → Option RepoConfigData → ℕ → ResultDict → NotifyContext
notice m config id d = record {
  repo_name = m.repo_name;
  commit_sha = m.commit_sha;
  pr_number = m.pr_number;
  analysis_id = id;
  result_dict = d;
  config = config;
}

abbrev pub notify_saved :
    PipelineEnv → EventMetadata → Option RepoConfigData → Option (ℕ × ResultDict) → Pipe (Unit {0})
notify_saved env m config none = pure tt
notify_saved env m config (some (id, d)) = notify env (notice m config id d)

-- The trace is cleared before the notices are sent.
unfoldable pub after_save_and_gate : PipelineEnv → EventMetadata → ℕ → Saved → Pipe (Unit {0})
after_save_and_gate env m repo_id saved = do
  finish repo_id m.commit_sha
  notify_saved env m saved.config saved.analysis

unfoldable pub analyse_and_save :
    PipelineEnv → EventMetadata → ℕ → List SourceFile → Pipe (Unit {0})
unfolding analyse
analyse_and_save env m repo_id files =
    if is_empty_list files then finish repo_id m.commit_sha else (do
      config ← read_config env m.repo_name
      review ← await env (λ n. env.ai_review n config files)
      saved ← save_and_gate env (analyse env m files config review)
      after_save_and_gate env m repo_id saved)

abbrev pub regate : PipelineEnv → EventMetadata → Option ℕ → Pipe (Unit {0})
regate env m none = pure tt
regate env m (some pr) = regate_pr_if_needed env m.repo_name m.commit_sha pr

abbrev pub after_ensure :
    PipelineEnv → String → EventMetadata → Option RepositoryRow → Pipe (Unit {0})
after_ensure env event m none = if is_pull_request event then regate env m m.pr_number else pure tt
after_ensure env event m (some r) = do
  begin env r.id m.commit_sha m.pr_number event
  files ← await env (λ n. env.changed_files n m.repo_name m.commit_sha m.pr_number)
  analyse_and_save env m r.id files

-- What stands under the terminal `except Exception`.
unfoldable pub guarded_body : PipelineEnv → String → EventMetadata → Pipe (Unit {0})
guarded_body env event m =
    if is_blank_sha m.commit_sha
    then pure tt
    else (do r ← ensure_repo env m.repo_name m.commit_sha; after_ensure env event m r)

unfoldable pub run_pipeline_body : PipelineEnv → String → Payload → Pipe (Unit {0})
run_pipeline_body env event data' =
    swallow (guarded_body env event (extract_event_metadata event data'))
