-- ===== src/Scorer/Tests.antt =====
-- Scores of small results.
use scamanager.Prelude.{◌+◌, ◌≤◌, ◌≡◌, refl, false, none, some, List, [], ◌∷◌}
use scamanager.Prelude.Int.{pos, negsuc}
use scamanager.Scorer.Defs.{
  found_in, Issue, StaticAnalysisResult, AiReviewResult, code_quality, security, error, warning,
  all_issues, code_quality_score, security_score, round_div, scale, ai_scores, ai_defaults,
  total_of, calculate_score,
}
use scamanager.Scorer.Laws.{calculate_score_bounds, calculate_score_mono}

-- An error of code quality.
abbrev slip : Issue
slip = record { category = code_quality; severity = error }

abbrev leak : Issue
leak = record { category = security; severity = warning }

abbrev results : List StaticAnalysisResult
results = found_in "a.py" (slip ∷ leak ∷ []) ∷ []

-- A review below and beyond the ranges that are asked for.
abbrev review : AiReviewResult
review = record {
  status = "success";
  commit_score = negsuc 3;
  ai_score = pos 17;
  test_score = pos 40;
  truncated = false;
}

calculate_score_test : (calculate_score results (some review)).total ≡ 22 + 18 + 0 + 21 + 15
unfolding calculate_score all_issues code_quality_score security_score ai_scores scale round_div
    total_of
calculate_score_test = refl

-- The raw defaults that the parser falls back to scale to the defaults of a missing review.
ai_defaults_test :
    (ai_scores (
      some (record {
        status = "success";
        commit_score = pos 17;
        ai_score = pos 17;
        test_score = pos 7;
        truncated = false;
      }))).test_score
    ≡ ai_defaults.test_score
unfolding ai_scores scale round_div
ai_defaults_test = refl

calculate_score_bounds_example :
    let s = calculate_score results (some review) in
    let b = s.breakdown in
    (b.code_quality ≤ 25)
    × (b.security ≤ 20)
    × (b.commit_message ≤ 15)
    × (b.ai_review ≤ 25)
    × (b.test_coverage ≤ 15)
    × (s.total ≡ b.code_quality + b.security + b.commit_message + b.ai_review + b.test_coverage)
calculate_score_bounds_example = calculate_score_bounds results (some review)

calculate_score_mono_example :
    let more = calculate_score (found_in "a.py" (slip ∷ leak ∷ []) ∷ []) none in
    let fewer = calculate_score (found_in "a.py" (leak ∷ []) ∷ []) none in
    (more.code_quality_score ≤ fewer.code_quality_score)
    × (more.security_score ≤ fewer.security_score)
    × (more.total ≤ fewer.total)
calculate_score_mono_example = calculate_score_mono slip (found_in "a.py" (leak ∷ [])) [] none
