-- ===== src/Pipeline/Analysed.antt =====
-- The pipeline is given a commit that is new, and every call that it makes returns.
pub mod Idle
mod Begun
pub mod Results
pub mod Stored
use mathlib.Core.List.{append-nil}
use scamanager.Prelude.{
  eq_refl, ℕ, suc, ◌+◌, ◌≡◌, refl, sym, ap, ◌∙◌, ◌⊎◌, inl, inr, String, Option, none, some, Bool,
  true, false, not, ◌&&◌, ◌==◌, List, [], ◌∷◌, ◌++◌, any, filter, find?, str_eq, arith, Bool-cases,
  if◌then◌else◌,
}
use scamanager.Prelude.Effects.{Answer, returned, ◌>>=◌, pure}
use scamanager.ConfigManager.{RepoConfigData}
use scamanager.Scorer.Defs.{AiReviewResult}
use scamanager.Gate.Actions.{GateContext, run_gate_check}
use scamanager.Pipeline.Tables.{
  ResultDict, AnalysisRow, RepositoryRow, Tables, has_sha, has_full_name, find_by_sha,
  find_by_full_name, insert_analysis, is_trace_of, begin_attempt, finish_attempt,
}
use scamanager.Pipeline.Static.{SourceFile}
use scamanager.Pipeline.World.{
  Payload, PipelineEnv, PipelineWorld, Pipe, transact, look, await, read_config, run_gate, notify,
  swallow,
}
use scamanager.Pipeline.Save.{
  SaveParams, Saved, build_analysis_result_dict, register, ensure_repo, context_for, gate,
  new_analysis, try_insert, save_new, gate_new, gate_saved, after_save, store, save_and_gate,
}
use scamanager.Pipeline.Body.{
  EventMetadata, extract_event_metadata, is_blank_sha, begin, finish, params_of, analyse, notice,
  after_save_and_gate, analyse_and_save, after_ensure, guarded_body, run_pipeline_body,
}
use scamanager.Pipeline.Analysed.Idle.{
  with_tables, waited, gated, gate_context_of, in_list, stored_row, with_row, await_idle,
  analyse_and_save_idle, ensure_repo_new,
}
use scamanager.Pipeline.Analysed.Begun.{IsBegun, begin_attempt-IsBegun, found_begun}

-- A commit of a known repository that has no analysis, with changed files, and what the calls for it return:
-- the settings, the changed files and the review. No other session writes meanwhile.
pub record IsNewCommit (env : PipelineEnv) (m : EventMetadata) (t : Tables) : Type 0 where
  pub repo : RepositoryRow
  pub config : RepoConfigData
  pub file : SourceFile
  pub files : List SourceFile
  pub review : AiReviewResult
  pub idle : (n : ℕ) (t : Tables) → env.others n t ≡ t
  pub is_sha : is_blank_sha m.commit_sha ≡ false
  pub is_repo : find_by_full_name m.repo_name t ≡ some repo
  pub is_unseen : find_by_sha m.commit_sha repo.id t ≡ none
  pub is_config : (n : ℕ) → env.config n m.repo_name ≡ some config
  pub is_changed :
      (n : ℕ) → env.changed_files n m.repo_name m.commit_sha m.pr_number ≡ returned (file ∷ files)
  pub is_review : (n : ℕ) → env.ai_review n (some config) (file ∷ files) ≡ returned review

-- From `w` to `w'` the row of the analysis was added, its trace removed, and its gate's run and its notice added.
pub record IsSaved (m : EventMetadata) (repo_id : ℕ) (config : RepoConfigData) (params : SaveParams)
    (w w' : PipelineWorld) : Type 0 where
  pub is_row : w'.tables.analyses ≡ w.tables.analyses ++ (stored_row params repo_id w.tables ∷ [])
  pub is_untraced : w'.tables.attempts ≡ (finish_attempt repo_id m.commit_sha w.tables).attempts
  pub is_gated :
      w'.gate_runs
      ≡ w.gate_runs
        ++ in_list (
            gate_context_of params m.pr_number w.tables.next_analysis
              (build_analysis_result_dict params)
              config)
  pub is_noticed :
      w'.notified
      ≡ w.notified
        ++ (notice m (some config) w.tables.next_analysis (build_analysis_result_dict params) ∷ [])

-- What the gate's run leaves.
gated-tables :
    (env : PipelineEnv) (c : Option GateContext) (w : PipelineWorld)
    → (gated env c w).tables ≡ w.tables
gated-tables env none w = refl
gated-tables env (some c) w = refl

gated-notified :
    (env : PipelineEnv) (c : Option GateContext) (w : PipelineWorld)
    → (gated env c w).notified ≡ w.notified
gated-notified env none w = refl
gated-notified env (some c) w = refl

gated-gate_runs :
    (env : PipelineEnv) (c : Option GateContext) (w : PipelineWorld)
    → (gated env c w).gate_runs ≡ w.gate_runs ++ in_list c
gated-gate_runs env none w = sym (append-nil w.gate_runs)
gated-gate_runs env (some c) w = refl

module _ (env : PipelineEnv) (m : EventMetadata) (repo_id : ℕ) (config : RepoConfigData)
    (params : SaveParams) where
  abbrev gate_context : ℕ → Option GateContext
  gate_context id = gate_context_of params m.pr_number id (build_analysis_result_dict params) config

  -- The world when the trace is about to be removed.
  abbrev saved_world : PipelineWorld → PipelineWorld
  saved_world w =
      gated env (gate_context w.tables.next_analysis)
        (with_tables (with_row params repo_id w.tables) (waited (waited w)))

  abbrev saved_of : PipelineWorld → Saved
  saved_of w = record {
    config = some config;
    analysis = some (w.tables.next_analysis, build_analysis_result_dict params);
  }

  after_save_and_gate-IsSaved :
      (w v : PipelineWorld)
      → IsBegun repo_id m.commit_sha w.tables v.tables
      → v.gate_runs ≡ w.gate_runs
      → v.notified ≡ w.notified
      → IsSaved m repo_id config params w
          (after_save_and_gate env m repo_id (saved_of v) (saved_world v)).1
  unfolding after_save_and_gate finish transact notify finish_attempt ◌>>=◌
  after_save_and_gate-IsSaved w v begun runs notices =
      let c = gate_context v.tables.next_analysis in
      let u = with_tables (with_row params repo_id v.tables) (waited (waited v)) in
      record {
        is_row =
            ap (λ (t : Tables). t.analyses) (gated-tables env c u)
            ∙ rw (begun.is_analyses, begun.is_next) refl;
        is_untraced =
            ap (λ t. (finish_attempt repo_id m.commit_sha t).attempts) (gated-tables env c u)
            ∙ begun.is_left;
        is_gated = gated-gate_runs env c u ∙ rw (runs, begun.is_next) refl;
        is_noticed =
            ap
              (λ l.
                l
                ++ (notice m (some config) v.tables.next_analysis
                      (build_analysis_result_dict params)
                    ∷ []))
              (gated-notified env c u)
            ∙ rw (notices, begun.is_next) refl;
      }

-- What follows when the repository is known: the trace, the changed files, the analysis and the storing.
after_ensure_new :
    (env : PipelineEnv) (event : String) (m : EventMetadata) (w : PipelineWorld)
    (new : IsNewCommit env m w.tables)
    → IsSaved m new.repo.id new.config
        (analyse env m (new.file ∷ new.files) (some new.config) new.review)
        w
        (after_ensure env event m (some new.repo) w).1
unfolding begin transact ◌>>=◌
after_ensure_new env event m w new =
    let t = (begin_attempt new.repo.id m.commit_sha m.pr_number event env.now w.tables).1 in
    let begun : IsBegun new.repo.id m.commit_sha w.tables t =
      begin_attempt-IsBegun new.repo.id m.commit_sha m.pr_number event env.now w.tables in
    let (known, unseen) = found_begun new.repo.id m.commit_sha m.repo_name w.tables t begun in
    let v = waited (with_tables t w) in
    rw
      (
        await_idle env new.idle (λ n. env.changed_files n m.repo_name m.commit_sha m.pr_number)
            (new.file ∷ new.files) (with_tables t w) (new.is_changed w.tick),
        analyse_and_save_idle env new.idle m new.repo new.file new.files new.config new.review v
            (known ∙ new.is_repo) (unseen ∙ new.is_unseen) new.is_config new.is_review,
      )
      (after_save_and_gate-IsSaved env m new.repo.id new.config
        (analyse env m (new.file ∷ new.files) (some new.config) new.review) w v begun refl refl)

pub run_pipeline_body-IsSaved :
    (env : PipelineEnv) (event : String) (payload : Payload) (w : PipelineWorld)
    (new : IsNewCommit env (extract_event_metadata event payload) w.tables)
    → IsSaved
        (extract_event_metadata event payload)
        new.repo.id
        new.config
        (analyse env
          (extract_event_metadata event payload)
          (new.file ∷ new.files)
          (some new.config)
          new.review)
        w
        (run_pipeline_body env event payload w).1
unfolding run_pipeline_body guarded_body swallow ◌>>=◌
run_pipeline_body-IsSaved env event payload w new =
    let m = extract_event_metadata event payload in
    rw
      (
        new.is_sha,
        ensure_repo_new env m.repo_name m.commit_sha new.repo w new.is_repo new.is_unseen,
      )
      (after_ensure_new env event m w new)
