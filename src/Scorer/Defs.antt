-- ===== src/Scorer/Defs.antt =====
-- src/scorer/calculator.py with the constants of src/constants.py. The subtraction under `max(0, …)`
-- is that of the natural numbers.
use scamanager.Prelude.{
  ℕ, suc, ◌+◌, ◌-◌, ◌*◌, ◌/◌, ◌%◌, min, String, Option, none, some, Bool, true, false, ◌&&◌, List,
  [], ◌∷◌, ◌++◌, count, ltb, leb, ◌==◌, str_eq, if◌then◌else◌,
}
use scamanager.Prelude.Int.{ℤ, pos, negsuc}

pub data Category : Type 0 where
  code_quality security : Category

pub data Severity : Type 0 where
  error warning : Severity

-- The fields of an issue that the score reads.
pub record Issue : Type 0 where
  pub category : Category
  pub severity : Severity

pub record StaticAnalysisResult : Type 0 where
  pub filename : String
  pub issues : List Issue
  pub incomplete : Bool
  pub uncovered_language : Option String
  pub no_dedicated_observer : Option String

-- A file's result with these issues, the dataclass's defaults for the rest.
abbrev pub found_in : String → List Issue → StaticAnalysisResult
found_in filename issues = record {
  filename = filename;
  issues = issues;
  incomplete = false;
  uncovered_language = none;
  no_dedicated_observer = none;
}

pub record AiReviewResult : Type 0 where
  pub status : String
  pub commit_score : ℤ
  pub ai_score : ℤ
  pub test_score : ℤ
  pub truncated : Bool

pub record Breakdown : Type 0 where
  pub code_quality : ℕ
  pub security : ℕ
  pub commit_message : ℕ
  pub ai_review : ℕ
  pub test_coverage : ℕ
  pub ai_defaults_applied : Bool

pub record ScoreResult : Type 0 where
  pub total : ℕ
  pub grade : String
  pub code_quality_score : ℕ
  pub security_score : ℕ
  pub breakdown : Breakdown

-- The first grade, from the highest threshold down, that the score reaches.
unfoldable pub calculate_grade : ℕ → String
calculate_grade score =
    if leb 90 score
    then "A"
    else if leb 75 score
    then "B"
    else if leb 60 score
    then "C"
    else if leb 45 score
    then "D"
    else "F"

unfoldable pub all_issues : List StaticAnalysisResult → List Issue
all_issues [] = []
all_issues (r ∷ results) = r.issues ++ all_issues results

abbrev is_category : Category → Category → Bool
is_category code_quality code_quality = true
is_category security security = true
is_category _ _ = false

abbrev is_severity : Severity → Severity → Bool
is_severity error error = true
is_severity warning warning = true
is_severity _ _ = false

abbrev pub is_kind : Category → Severity → Issue → Bool
is_kind c s i = is_category i.category c && is_severity i.severity s

unfoldable pub code_quality_score : List Issue → ℕ
code_quality_score issues =
    25
    - count (is_kind code_quality error) issues * 3
    - min (count (is_kind code_quality warning) issues) 25 * 1

unfoldable pub security_score : List Issue → ℕ
security_score issues =
    20 - count (is_kind security error) issues * 7 - count (is_kind security warning) issues * 2

-- Python's `round(n / d)`: a tie goes to the even neighbour.
unfoldable pub round_div : ℕ → ℕ → ℕ
round_div n d =
    let q = n / d in
    if ltb (2 * (n % d)) d
    then q
    else if ltb d (2 * (n % d))
    then suc q
    else if q % 2 == 0
    then q
    else suc q

-- `max(0, min(round(raw * cap / raw_max), cap))`; a negative product rounds to at most 0.
unfoldable pub scale : ℕ → ℕ → ℤ → ℕ
unfolding round_div
scale cap raw_max (pos raw) = min (round_div (raw * cap) raw_max) cap
scale cap raw_max (negsuc raw) = 0

pub record AiScores : Type 0 where
  pub commit_score : ℕ
  pub ai_score : ℕ
  pub test_score : ℕ
  pub defaults_applied : Bool

abbrev pub ai_defaults : AiScores
ai_defaults = record { commit_score = 13; ai_score = 21; test_score = 10; defaults_applied = true }

unfoldable pub ai_scores : Option AiReviewResult → AiScores
unfolding scale
ai_scores none = ai_defaults
ai_scores (some review) =
    if str_eq review.status "success"
    then record {
      commit_score = scale 15 20 review.commit_score;
      ai_score = scale 25 20 review.ai_score;
      test_score = scale 15 10 review.test_score;
      defaults_applied = false;
    }
    else ai_defaults

unfoldable pub total_of : ℕ → ℕ → AiScores → ℕ
total_of code_quality_score security_score ai =
    min (code_quality_score + security_score + ai.commit_score + ai.ai_score + ai.test_score) 100

unfoldable pub calculate_score : List StaticAnalysisResult → Option AiReviewResult → ScoreResult
unfolding all_issues code_quality_score security_score ai_scores total_of calculate_grade
calculate_score results review =
    let issues = all_issues results in
    let ai = ai_scores review in
    let total = total_of (code_quality_score issues) (security_score issues) ai in
    record {
      total = total;
      grade = calculate_grade total;
      code_quality_score = code_quality_score issues;
      security_score = security_score issues;
      breakdown = record {
        code_quality = code_quality_score issues;
        security = security_score issues;
        commit_message = ai.commit_score;
        ai_review = ai.ai_score;
        test_coverage = ai.test_score;
        ai_defaults_applied = ai.defaults_applied;
      };
    }
