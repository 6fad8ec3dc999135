-- ===== src/Pipeline/Save/Params.antt =====
-- src/worker/pipeline.py: what is stored of an analysis.
use scamanager.Prelude.{
  ℕ, String, Option, none, some, Bool, true, false, ◌==◌, List, [], ◌∷◌, if◌then◌else◌,
}
use scamanager.Scorer.Defs.{StaticAnalysisResult, AiReviewResult, ScoreResult}
use scamanager.Gate.Guards.{insert_sorted}
use scamanager.Pipeline.Tables.{ResultDict}

pub record SaveParams : Type 0 where
  pub repo_name : String
  pub commit_sha : String
  pub pr_number : Option ℕ
  pub analysis_results : List StaticAnalysisResult
  pub ai_review : AiReviewResult
  pub score_result : ScoreResult
  pub static_incomplete : Bool

abbrev pub is_some {ℓ} : {A : Type ℓ} → Option A → Bool
is_some none = false
is_some (some a) = true

abbrev pub add_language : Option String → List String → List String
add_language none languages = languages
add_language (some l) languages = insert_sorted l languages

unfoldable pub uncovered_languages : List StaticAnalysisResult → List String
uncovered_languages [] = []
uncovered_languages (r ∷ rs) = add_language r.uncovered_language (uncovered_languages rs)

unfoldable pub aggregate_no_dedicated_observers : List StaticAnalysisResult → List String
aggregate_no_dedicated_observers [] = []
aggregate_no_dedicated_observers (r ∷ rs) =
    add_language r.no_dedicated_observer (aggregate_no_dedicated_observers rs)

-- `"pr" if pr_number else "push"`.
abbrev pub source_of : Option ℕ → String
source_of none = "push"
source_of (some pr) = if pr == 0 then "push" else "pr"

-- `build_analysis_result_dict`, with the marker of an incomplete static analysis.
unfoldable pub build_analysis_result_dict : SaveParams → ResultDict
unfolding uncovered_languages aggregate_no_dedicated_observers
build_analysis_result_dict params = record {
  source = source_of params.pr_number;
  score = params.score_result.total;
  ai_review_status = params.ai_review.status;
  ai_review_truncated = params.ai_review.truncated;
  static_analysis_incomplete = params.static_incomplete;
  ai_defaults_applied = params.score_result.breakdown.ai_defaults_applied;
  static_uncovered_languages = uncovered_languages params.analysis_results;
  static_no_dedicated_observers = aggregate_no_dedicated_observers params.analysis_results;
}
