-- ===== src/Scorer.antt =====
-- src/scorer/calculator.py: the score of a change from the issues found and the model's review.
pub mod Defs
pub mod Laws
pub mod Tests
