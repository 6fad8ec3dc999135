-- ===== src/RetryQueue/Defs.antt =====
-- src/repositories/merge_retry_repo.py: the queries and the updates of the retry queue. A function
-- that writes returns its result and the new table. `.first()` is the first row in the table's order.
use scamanager.Prelude.{
  ℕ, ◌+◌, ◌-◌, ◌*◌, String, Option, none, some, Bool, true, false, not, ◌&&◌, List, [], ◌∷◌, filter,
  find?, take, count, update_where, ltb, leb, ◌==◌, str_eq, if◌then◌else◌,
}
use scamanager.Prelude.Int.{ℤ}
use scamanager.RetryPolicy.Defs.{seconds}
use scamanager.RetryQueue.Row.{
  pending, is_pending, Row, Queue, has_key, violates_active, insert_row,
}

abbrev pub has_id : ℕ → Row → Bool
has_id row_id r = r.id == row_id

unfoldable pub get : Queue → ℕ → Option Row
get q row_id = find? (has_id row_id) q.rows

-- `order_by(next_retry_at.asc())`: rows of one time keep the table's order.
unfoldable pub insert_by_due : Row → List Row → List Row
insert_by_due r [] = r ∷ []
insert_by_due r (s ∷ rows) =
    let rest = insert_by_due r rows in
    if leb r.next_retry_at s.next_retry_at then r ∷ s ∷ rows else s ∷ rest

unfoldable pub order_by_due : List Row → List Row
unfolding insert_by_due
order_by_due [] = []
order_by_due (r ∷ rows) = insert_by_due r (order_by_due rows)

unfoldable pub list_pending : Queue → ℕ → ℕ → List Row
unfolding order_by_due
list_pending q now limit =
    take limit (order_by_due (filter (λ r. is_pending r.status && leb r.next_retry_at now) q.rows))

unfoldable pub get_by_sha : Queue → String → String → Option Row
get_by_sha q repo sha =
    find? (λ r. str_eq r.repo_full_name repo && str_eq r.commit_sha sha && is_pending r.status)
      q.rows

unfoldable pub find_pending_by_sha : Queue → String → String → List Row
find_pending_by_sha q repo sha =
    filter (λ r. str_eq r.repo_full_name repo && str_eq r.commit_sha sha && is_pending r.status)
      q.rows

unfoldable pub delete_all_for_repo : Queue → String → ℕ × Queue
delete_all_for_repo q repo = (
  count (λ r. str_eq r.repo_full_name repo) q.rows,
  record q { rows = filter (λ r. not (str_eq r.repo_full_name repo)) q.rows },
)

abbrev pub days : ℕ → ℕ
days n = n * 86400000000

abbrev pub is_purgeable : ℕ → Row → Bool
is_purgeable cutoff r = not (is_pending r.status) && ltb r.updated_at cutoff

unfoldable pub purge_terminal : Queue → ℕ → ℕ → ℕ × Queue
purge_terminal q older_than_days now =
    let cutoff = now - days older_than_days in
    (
      count (is_purgeable cutoff) q.rows,
      record q { rows = filter (λ r. not (is_purgeable cutoff r)) q.rows },
    )

-- The arguments of `enqueue_or_bump`.
pub record Deferral : Type 0 where
  pub repo_full_name : String
  pub pr_number : ℕ
  pub analysis_id : ℕ
  pub commit_sha : String
  pub score : ℕ
  pub threshold_at_enqueue : ℤ
  pub notify_chat_id : Option String
  pub max_attempts : ℕ
  pub initial_next_retry_seconds : ℕ

abbrev pub is_active_for : Deferral → Row → Bool
is_active_for d r = is_pending r.status && has_key d.repo_full_name d.pr_number d.commit_sha r

abbrev pub next_retry : Deferral → ℕ → ℕ
next_retry d now = now + seconds d.initial_next_retry_seconds

unfoldable pub new_row : Deferral → ℕ → ℕ → ℕ → Row
new_row d now inserted_at row_id = record {
  id = row_id;
  repo_full_name = d.repo_full_name;
  pr_number = d.pr_number;
  analysis_id = d.analysis_id;
  commit_sha = d.commit_sha;
  score = d.score;
  threshold_at_enqueue = d.threshold_at_enqueue;
  status = pending;
  attempts_count = 0;
  max_attempts = d.max_attempts;
  next_retry_at = next_retry d now;
  last_attempt_at = none;
  claimed_at = none;
  claim_token = none;
  last_failure_reason = none;
  last_detail_message = none;
  notify_chat_id = d.notify_chat_id;
  created_at = inserted_at;
  updated_at = inserted_at;
}

pub record EnqueueResult : Type 0 where
  pub row : Row
  pub is_first_deferral : Bool

abbrev pub bump_row : Deferral → ℕ → Row → Row
bump_row d now r = record r { next_retry_at = next_retry d now; updated_at = now }

unfoldable pub bump : Deferral → ℕ → Row → Queue → Option EnqueueResult × Queue
bump d now existing q = (
  some (record { row = bump_row d now existing; is_first_deferral = false }),
  record q { rows = update_where (has_id existing.id) (bump_row d now) q.rows },
)

-- What other sessions commit while this one is between two of its statements.
pub record Others : Type 0 where
  pub before_insert : Queue → Queue
  pub before_requery : Queue → Queue

-- The handler of `IntegrityError`: `none` is the error raised again.
unfoldable pub bump_winner : Deferral → ℕ → Queue → Option EnqueueResult × Queue
unfolding bump
bump_winner d now q = elim (find? (is_active_for d) q.rows) [
  | none ↦ (none, q)
  | some winner ↦ bump d now winner q
]

unfoldable pub insert_or_recover : Deferral → ℕ → ℕ → Others → Queue → Option EnqueueResult × Queue
unfolding bump_winner new_row insert_row violates_active
insert_or_recover d now inserted_at others q =
    let new = new_row d now inserted_at q.next_id in
    if violates_active new q.rows
    then bump_winner d now (others.before_requery q)
    else (some (record { row = new; is_first_deferral = true }), insert_row new q)

unfoldable pub enqueue_or_bump : Deferral → ℕ → ℕ → Others → Queue → Option EnqueueResult × Queue
unfolding insert_or_recover bump
enqueue_or_bump d now inserted_at others q = elim (find? (is_active_for d) q.rows) [
  | some existing ↦ bump d now existing q
  | none ↦ insert_or_recover d now inserted_at others (others.before_insert q)
]
