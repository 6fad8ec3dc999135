-- ===== src/Scorer/Laws.antt =====
-- The score stays in its bounds and never rises with an issue.
use scamanager.Prelude.{
  ℕ, ◌+◌, ◌≤◌, ◌<◌, ◌≡◌, ◌⊎◌, inl, inr, Option, none, some, Bool, List, ◌∷◌, ◌++◌, count, str_eq,
  arith, Bool-cases,
}
use scamanager.Prelude.Int.{ℤ, pos, negsuc}
use scamanager.Scorer.Defs.{
  Issue, StaticAnalysisResult, AiReviewResult, AiScores, code_quality, security, error, warning,
  is_kind, calculate_grade, all_issues, code_quality_score, security_score, scale, ai_scores,
  total_of, calculate_score,
}

scale-le : (cap raw_max : ℕ) (raw : ℤ) → scale cap raw_max raw ≤ cap
unfolding scale
scale-le cap raw_max (pos raw) = omega arith
scale-le cap raw_max (negsuc raw) = omega arith

-- Each of the model's scores is within its part.
abbrev AreWithin : AiScores → Type 0
AreWithin ai = (ai.commit_score ≤ 15) × (ai.ai_score ≤ 25) × (ai.test_score ≤ 15)

ai_scores-AreWithin : (review : Option AiReviewResult) → AreWithin (ai_scores review)
unfolding ai_scores
ai_scores-AreWithin none = (omega arith, omega arith, omega arith)
ai_scores-AreWithin (some review) = elim (Bool-cases (str_eq review.status "success")) [
  | inl e ↦
      rw (e, ai_scores)
        (
          scale-le 15 20 review.commit_score,
          scale-le 25 20 review.ai_score,
          scale-le 15 10 review.test_score,
        )
  | inr e ↦ rw (e, ai_scores) (omega arith, omega arith, omega arith)
]

-- Each part of the breakdown is within its share of 25, 20, 15, 25 and 15, whatever the review says,
-- and the total is their sum: the last clamp to 100 never changes it.
pub calculate_score_bounds :
    (results : List StaticAnalysisResult) (review : Option AiReviewResult)
    → let s = calculate_score results review in
      let b = s.breakdown in
      (b.code_quality ≤ 25)
      × (b.security ≤ 20)
      × (b.commit_message ≤ 15)
      × (b.ai_review ≤ 25)
      × (b.test_coverage ≤ 15)
      × (s.total ≡ b.code_quality + b.security + b.commit_message + b.ai_review + b.test_coverage)
unfolding calculate_score code_quality_score security_score total_of
calculate_score_bounds results review =
    let (c, a, t) = ai_scores-AreWithin review in
    (omega arith, omega arith, c, a, t, omega (arith, c, a, t))

grade_of :
    (n : ℕ)
    → (calculate_grade n ≡ "A") × (90 ≤ n)
      ⊎ (calculate_grade n ≡ "B") × (75 ≤ n) × (n < 90)
      ⊎ (calculate_grade n ≡ "C") × (60 ≤ n) × (n < 75)
      ⊎ (calculate_grade n ≡ "D") × (45 ≤ n) × (n < 60)
      ⊎ (calculate_grade n ≡ "F") × (n < 45)
unfolding calculate_grade
grade_of n = ground arith

-- The grade is A from 90, B from 75, C from 60 and D from 45 points, and F below.
pub calculate_score_grade :
    (results : List StaticAnalysisResult) (review : Option AiReviewResult)
    → let s = calculate_score results review in
      (s.grade ≡ "A") × (90 ≤ s.total)
      ⊎ (s.grade ≡ "B") × (75 ≤ s.total) × (s.total < 90)
      ⊎ (s.grade ≡ "C") × (60 ≤ s.total) × (s.total < 75)
      ⊎ (s.grade ≡ "D") × (45 ≤ s.total) × (s.total < 60)
      ⊎ (s.grade ≡ "F") × (s.total < 45)
unfolding calculate_score
calculate_score_grade results review = grade_of (calculate_score results review).total

count-cons :
    (p : Issue → Bool) (i : Issue) (issues : List Issue) → count p issues ≤ count p (i ∷ issues)
count-cons p i issues = ground arith

-- One more issue, of whatever kind, never raises the code quality, the security or the total.
pub calculate_score_mono :
    (i : Issue) (r : StaticAnalysisResult) (results : List StaticAnalysisResult)
    (review : Option AiReviewResult)
    → let more = calculate_score (record r { issues = i ∷ r.issues } ∷ results) review in
      let fewer = calculate_score (r ∷ results) review in
      (more.code_quality_score ≤ fewer.code_quality_score)
      × (more.security_score ≤ fewer.security_score)
      × (more.total ≤ fewer.total)
unfolding calculate_score all_issues code_quality_score security_score total_of
calculate_score_mono i r results review =
    let all = r.issues ++ all_issues results in
    let ce = count-cons (is_kind code_quality error) i all in
    let cw = count-cons (is_kind code_quality warning) i all in
    let se = count-cons (is_kind security error) i all in
    let sw = count-cons (is_kind security warning) i all in
    (omega (arith, ce, cw), omega (arith, se, sw), omega (arith, ce, cw, se, sw))
