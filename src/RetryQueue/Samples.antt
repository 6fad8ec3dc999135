-- ===== src/RetryQueue/Samples.antt =====
-- Small tables of the retry queue for the tests.
use scamanager.Prelude.{ℕ, ◌≢◌, ap, none, some, Bool, true, false, [], ◌∷◌, ◌≡◌, refl, arith}
use scamanager.Prelude.Int.{pos}
use scamanager.RetryQueue.Row.{pending, abandoned, Row, Queue, conflicts, has_key}
use scamanager.RetryQueue.Defs.{Deferral, Others, get}
use scamanager.RetryQueue.Invariant.{IsSound}
use scamanager.RetryQueue.Claim.{holds_token}

-- A free row of one pull request, due at 100.
abbrev pub free_row : Row
free_row = record {
  id = 1;
  repo_full_name = "o/r";
  pr_number = 7;
  analysis_id = 70;
  commit_sha = "abc";
  score = 80;
  threshold_at_enqueue = pos 75;
  status = pending;
  attempts_count = 0;
  max_attempts = 30;
  next_retry_at = 100;
  last_attempt_at = none;
  claimed_at = none;
  claim_token = none;
  last_failure_reason = none;
  last_detail_message = none;
  notify_chat_id = none;
  created_at = 50;
  updated_at = 50;
}

-- A row of another pull request that the worker "tok" has claimed.
abbrev pub claimed_row : Row
claimed_row = record free_row {
  id = 2;
  pr_number = 8;
  attempts_count = 1;
  claimed_at = some 90;
  claim_token = some "tok";
}

-- A row that has ended.
abbrev pub ended_row : Row
ended_row = record free_row { id = 3; pr_number = 9; status = abandoned }

abbrev pub queue : Queue
queue = record { rows = free_row ∷ claimed_row ∷ ended_row ∷ []; next_id = 4 }

pub queue-IsSound : IsSound queue
unfolding conflicts has_key
queue-IsSound = record {
  apart = (
    (((λ e. omega (arith, e)), refl), (((λ e. omega (arith, e)), refl), tt)),
    ((((λ e. omega (arith, e)), refl), tt), (tt, tt)),
  );
  fresh = (omega arith, (omega arith, (omega arith, tt)));
  claims = ((refl, λ h. refl), ((refl, λ h. cc), ((refl, λ h. refl), tt)));
}

abbrev pub deferral : Deferral
deferral = record {
  repo_full_name = "o/r";
  pr_number = 7;
  analysis_id = 71;
  commit_sha = "def";
  score = 82;
  threshold_at_enqueue = pos 75;
  notify_chat_id = none;
  max_attempts = 30;
  initial_next_retry_seconds = 60;
}

abbrev pub alone : Others
alone = record { before_insert = λ q. q; before_requery = λ q. q }

abbrev pub locked_none : ℕ → Bool
locked_none n = false

pub get_claimed : get queue 2 ≡ some claimed_row
unfolding get
get_claimed = refl

-- The row 2 is claimed by "tok", not by "old".
pub other_token : claimed_row.claim_token ≢ some "old"
other_token e = absurd_bool (ap (holds_token (some "old")) e)
  where
    absurd_bool : false ≡ true → ⊥
    absurd_bool f = cc
