-- ===== src/RetryQueue/Row.antt =====
-- src/models/merge_retry.py: the row of `merge_retry_queue`, the table with its id sequence, and the
-- partial unique index over pending rows. A time is a number of microseconds of naive UTC.
use scamanager.Prelude.{
  ℕ, ◌+◌, String, Option, Bool, true, false, ◌&&◌, List, ◌∷◌, [], ◌++◌, ◌==◌, str_eq, any,
}
use scamanager.Prelude.Int.{ℤ}

pub data Status : Type 0 where
  pending succeeded failed_terminal abandoned expired : Status

abbrev pub is_pending : Status → Bool
is_pending pending = true
is_pending _ = false

pub record Row : Type 0 where
  pub id : ℕ
  pub repo_full_name : String
  pub pr_number : ℕ
  pub analysis_id : ℕ
  pub commit_sha : String
  pub score : ℕ
  pub threshold_at_enqueue : ℤ
  pub status : Status
  pub attempts_count : ℕ
  pub max_attempts : ℕ
  pub next_retry_at : ℕ
  pub last_attempt_at : Option ℕ
  pub claimed_at : Option ℕ
  pub claim_token : Option String
  pub last_failure_reason : Option String
  pub last_detail_message : Option String
  pub notify_chat_id : Option String
  pub created_at : ℕ
  pub updated_at : ℕ

-- The rows in the table's order, and the next value of the id sequence.
pub record Queue : Type 0 where
  pub rows : List Row
  pub next_id : ℕ

-- The filter `repo_full_name == …, pr_number == …, commit_sha == …`.
unfoldable pub has_key : String → ℕ → String → Row → Bool
has_key repo pr sha r = str_eq r.repo_full_name repo && r.pr_number == pr && str_eq r.commit_sha sha

-- Two rows that `uq_merge_retry_queue_active` does not allow together.
unfoldable pub conflicts : Row → Row → Bool
unfolding has_key
conflicts r s =
    is_pending r.status
    && is_pending s.status
    && has_key s.repo_full_name s.pr_number s.commit_sha r

-- An INSERT that the partial unique index rejects.
unfoldable pub violates_active : Row → List Row → Bool
unfolding conflicts
violates_active new rows = any (λ r. conflicts r new) rows

-- An INSERT that it accepts; the sequence gives the id.
unfoldable pub insert_row : Row → Queue → Queue
insert_row new q = record { rows = q.rows ++ (new ∷ []); next_id = q.next_id + 1 }
