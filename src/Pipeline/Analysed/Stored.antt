-- ===== src/Pipeline/Analysed/Stored.antt =====
-- What is stored of an analysis and sent out for it, in terms of the static results, the review and the score.
use scamanager.Prelude.{
  ℕ, zero, suc, ◌≡◌, ◌↔◌, ◌⊎◌, String, Option, none, some, Bool, true, not, ◌&&◌, ◌==◌, str_eq,
  List, [], ◌∷◌, ◌++◌, filter,
}
use scamanager.ConfigManager.{RepoConfigData}
use scamanager.Scorer.Defs.{StaticAnalysisResult, AiReviewResult, ScoreResult, calculate_score}
use scamanager.Gate.Actions.{GateContext}
use scamanager.Pipeline.Tables.{ResultDict, AnalysisRow}
use scamanager.Pipeline.World.{PipelineWorld}
use scamanager.Pipeline.Body.{EventMetadata}
use scamanager.Pipeline.Analysed.Results.{Lists, IsDoubtful, IsFailedReview}

-- The score and the grade, or neither if the review failed.
abbrev pub IsScored : String → ScoreResult → AnalysisRow → Type 0
IsScored status score row =
    (IsFailedReview status × (row.score ≡ none) × (row.grade ≡ none))
    ⊎ ((¬ IsFailedReview status) × (row.score ≡ some score.total) × (row.grade ≡ some score.grade))

-- A pull request has a number that is not 0.
abbrev pub IsSource : Option ℕ → String → Type 0
IsSource none source = source ≡ "push"
IsSource (some zero) source = source ≡ "push"
IsSource (some (suc n)) source = source ≡ "pr"

-- The gate's run for a pull request, if it is one, with the score and the markers of the analysis.
abbrev pub runs_for :
    EventMetadata → Option ℕ → ℕ → RepoConfigData → ℕ → AiReviewResult → Bool → List GateContext
runs_for m none id config total review incomplete = []
runs_for m (some pr) id config total review incomplete =
    record {
      repo_name = m.repo_name;
      pr_number = pr;
      analysis_id = id;
      result = record {
        score = total;
        static_analysis_incomplete = incomplete;
        ai_review_truncated = review.truncated;
        ai_review_status = some review.status;
      };
      config = config;
      commit_sha = some m.commit_sha;
    }
    ∷ []

-- From `w` to `w'` the analysis was stored, its trace removed, the gate run for its pull request, and its
-- notice sent out.
pub record IsStored (m : EventMetadata) (repo_id : ℕ) (config : RepoConfigData)
    (results : List StaticAnalysisResult) (incomplete : Bool) (review : AiReviewResult)
    (w w' : PipelineWorld) : Type 0 where
  pub row : AnalysisRow
  pub result : ResultDict
  pub is_row : w'.tables.analyses ≡ w.tables.analyses ++ (row ∷ [])
  pub is_id : row.id ≡ w.tables.next_analysis
  pub is_repo : row.repo_id ≡ repo_id
  pub is_commit : row.commit_sha ≡ m.commit_sha
  pub is_pull : row.pr_number ≡ m.pr_number
  pub has_result : row.result ≡ some result
  pub is_scored : IsScored review.status (calculate_score results (some review)) row
  pub is_flagged : (row.score_unreliable ≡ true) ↔ IsDoubtful result
  pub is_source : IsSource m.pr_number result.source
  pub is_total : result.score ≡ (calculate_score results (some review)).total
  pub is_status : result.ai_review_status ≡ review.status
  pub is_truncated : result.ai_review_truncated ≡ review.truncated
  pub is_incomplete : result.static_analysis_incomplete ≡ incomplete
  pub is_defaulted :
      result.ai_defaults_applied
      ≡ (calculate_score results (some review)).breakdown.ai_defaults_applied
  pub is_covered : Lists (λ r. r.uncovered_language) results result.static_uncovered_languages
  pub is_observed :
      Lists (λ r. r.no_dedicated_observer) results result.static_no_dedicated_observers
  pub is_untraced :
      w'.tables.attempts
      ≡ filter
          (λ a. not (a.repo_id == repo_id && str_eq a.commit_sha m.commit_sha))
          w.tables.attempts
  pub is_gated :
      w'.gate_runs
      ≡ w.gate_runs
        ++ runs_for m m.pr_number w.tables.next_analysis config
            (calculate_score results (some review)).total
            review
            incomplete
  pub is_noticed :
      w'.notified
      ≡ w.notified
        ++ (record {
          repo_name = m.repo_name;
          commit_sha = m.commit_sha;
          pr_number = m.pr_number;
          analysis_id = w.tables.next_analysis;
          result_dict = result;
          config = some config;
        }
            ∷ [])
