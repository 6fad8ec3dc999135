-- ===== src/Pipeline/NewCommit.antt =====
-- The analysis of a new commit in full: what is stored and sent out.
use scamanager.Prelude.{
  ℕ, zero, suc, ◌≡◌, refl, ap, ◌∙◌, ◌⊎◌, inl, inr, String, Option, none, some, Bool, true, false,
  List, ◌∷◌, ◌++◌, ◌==◌, arith, Bool-cases, if◌then◌else◌,
}
use scamanager.ConfigManager.{RepoConfigData}
use scamanager.Scorer.Defs.{StaticAnalysisResult, AiReviewResult, ScoreResult, calculate_score}
use scamanager.Gate.Actions.{is_failed_status}
use scamanager.Pipeline.Tables.{
  ResultDict, AnalysisRow, Tables, finish_attempt, should_null_persist_score,
}
use scamanager.Pipeline.Static.{run_static_with_timeout}
use scamanager.Pipeline.World.{Payload, PipelineEnv, PipelineWorld}
use scamanager.Pipeline.Save.{SaveParams, build_analysis_result_dict, source_of}
use scamanager.Pipeline.Body.{
  EventMetadata, extract_event_metadata, params_of, analyse, run_pipeline_body,
}
use scamanager.Pipeline.Analysed.{IsNewCommit, run_pipeline_body-IsSaved}
use scamanager.Pipeline.Analysed.Idle.{gate_context_of, in_list, stored_row}
use scamanager.Pipeline.Analysed.Stored.{IsScored, IsSource, IsStored, runs_for}
use scamanager.Pipeline.Analysed.Results.{
  IsFailedReview, failed-IsFailedReview, uncovered_languages-Lists,
  aggregate_no_dedicated_observers-Lists, score_is_unreliable_iff,
}

-- What the static analysis of the changed files comes to, and whether it is incomplete.
abbrev pub static_of :
    (env : PipelineEnv) (m : EventMetadata) (t : Tables)
    → IsNewCommit env m t
    → List StaticAnalysisResult × Bool
static_of env m t new =
    run_static_with_timeout env.loop_time env.file_clock (env.file_outcome (some new.config))
      (new.file ∷ new.files)

failed_or_not :
    (status : String)
    → (is_failed_status (some status) ≡ true) × IsFailedReview status
      ⊎ (is_failed_status (some status) ≡ false) × (¬ IsFailedReview status)
failed_or_not status = elim (Bool-cases (is_failed_status (some status))) [
  | inl e ↦ inl (e, (failed-IsFailedReview status).0 e)
  | inr e ↦ inr (e, λ failed. clash ((failed-IsFailedReview status).1 failed) e)
]
  where
    clash : {b : Bool} → b ≡ true → b ≡ false → ⊥
    clash t f = cc

scored :
    (status : String) (score : ScoreResult) (row : AnalysisRow)
    → row.score ≡ (if is_failed_status (some status) then none else some score.total)
    → row.grade ≡ (if is_failed_status (some status) then none else some score.grade)
    → IsScored status score row
scored status score row e f = elim (failed_or_not status) [
  | inl (t, failed) ↦ inl (failed, e ∙ rw t refl, f ∙ rw t refl)
  | inr (t, fine) ↦ inr (fine, e ∙ rw t refl, f ∙ rw t refl)
]

sourced : (pr : Option ℕ) → IsSource pr (source_of pr)
sourced none = refl
sourced (some zero) = refl
sourced (some (suc n)) = let e : (suc n == 0) ≡ false = ground arith in rw e refl

runs-runs_for :
    (pr : Option ℕ) (m : EventMetadata) (params : SaveParams) (id : ℕ) (d : ResultDict)
    (config : RepoConfigData) (total : ℕ) (review : AiReviewResult) (incomplete : Bool)
    → in_list (
        gate_context_of
          (record params { repo_name = m.repo_name; commit_sha = m.commit_sha })
          pr
          id
          (record d {
            score = total;
            ai_review_status = review.status;
            ai_review_truncated = review.truncated;
            static_analysis_incomplete = incomplete;
          })
          config)
      ≡ runs_for m pr id config total review incomplete
runs-runs_for none m params id d config total review incomplete = refl
runs-runs_for (some pr) m params id d config total review incomplete = refl

-- A new commit of a known repository is analysed whenever the calls for it return: its analysis is stored under
-- the next id, as IsStored says: with the score that the static results and the review come to, unless the review
-- failed, with the review's status, whether it was cut and whether the static analysis is incomplete, with the
-- languages that the results name, and with the flag of a score that is not reliable exactly if one of its
-- reasons holds. Its trace is removed, and no other; the gate is run with that score and those markers for its
-- pull request, and not for a push; and one notice is sent out. That holds whatever the gate's calls and the
-- notice come to. The conditions are that the commit has a SHA and no analysis, that the changed files are not
-- empty, and that no other session writes meanwhile.
pub run_pipeline_body-IsStored :
    (env : PipelineEnv) (event : String) (payload : Payload) (w : PipelineWorld)
    (new : IsNewCommit env (extract_event_metadata event payload) w.tables)
    → IsStored
        (extract_event_metadata event payload)
        new.repo.id
        new.config
        (static_of env (extract_event_metadata event payload) w.tables new).0
        (static_of env (extract_event_metadata event payload) w.tables new).1
        new.review
        w
        (run_pipeline_body env event payload w).1
unfolding analyse params_of build_analysis_result_dict finish_attempt should_null_persist_score
run_pipeline_body-IsStored env event payload w new =
    let m = extract_event_metadata event payload in
    let static = static_of env m w.tables new in
    let saved = run_pipeline_body-IsSaved env event payload w new in
    let params = analyse env m (new.file ∷ new.files) (some new.config) new.review in
    let d = build_analysis_result_dict params in
    let row = stored_row params new.repo.id w.tables in
    record {
      row = row;
      result = d;
      is_row = saved.is_row;
      is_id = refl;
      is_repo = refl;
      is_commit = refl;
      is_pull = refl;
      has_result = refl;
      is_scored =
          scored new.review.status (calculate_score static.0 (some new.review)) row refl refl;
      is_flagged = score_is_unreliable_iff d;
      is_source = sourced m.pr_number;
      is_total = refl;
      is_status = refl;
      is_truncated = refl;
      is_incomplete = refl;
      is_defaulted = refl;
      is_covered = uncovered_languages-Lists static.0;
      is_observed = aggregate_no_dedicated_observers-Lists static.0;
      is_untraced = saved.is_untraced;
      is_gated =
          saved.is_gated
          ∙ ap (λ runs. w.gate_runs ++ runs)
              (runs-runs_for m.pr_number m params w.tables.next_analysis d new.config
                (calculate_score static.0 (some new.review)).total new.review static.1);
      is_noticed = saved.is_noticed;
    }
