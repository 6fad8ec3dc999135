-- ===== src/RetryQueue/Claim.antt =====
-- src/repositories/merge_retry_repo.py: claims, their release, and the marks that end a row.
use scamanager.Prelude.{
  ℕ, ◌+◌, ◌-◌, String, Option, none, some, Bool, true, false, not, ◌&&◌, List, [], ◌∷◌, map, filter,
  find?, any, take, count, update_where, ltb, leb, ◌==◌, str_eq,
}
use scamanager.RetryPolicy.Defs.{seconds}
use scamanager.RetryQueue.Row.{
  Status, succeeded, failed_terminal, abandoned, expired, is_pending, Row, Queue,
}
use scamanager.RetryQueue.Defs.{has_id, order_by_due}

-- `claimed_at IS NULL OR claimed_at < stale_cutoff`.
abbrev pub is_free : ℕ → Option ℕ → Bool
is_free stale_cutoff none = true
is_free stale_cutoff (some t) = ltb t stale_cutoff

abbrev pub member : List ℕ → ℕ → Bool
member ids n = any (λ m. m == n) ids

-- The ids that the check_suite trigger names lift the backoff; no ids, or an empty list, keep it.
abbrev pub is_due : ℕ → Option (List ℕ) → Row → Bool
is_due now none r = leb r.next_retry_at now
is_due now (some []) r = leb r.next_retry_at now
is_due now (some (i ∷ ids)) r = member (i ∷ ids) r.id

unfoldable pub is_claimable : ℕ → ℕ → Option (List ℕ) → Row → Bool
is_claimable now stale_after_seconds only_ids r =
    is_pending r.status
    && is_free (now - seconds stale_after_seconds) r.claimed_at
    && is_due now only_ids r

abbrev pub claim_row : ℕ → String → Row → Row
claim_row now tok r = record r {
  claimed_at = some now;
  claim_token = some tok;
  attempts_count = r.attempts_count + 1;
  last_attempt_at = some now;
  updated_at = now;
}

-- The SELECT. Under PostgreSQL it skips the rows that other transactions hold locked; under SQLite
-- there are none.
unfoldable pub select_claimable : ℕ → ℕ → ℕ → Option (List ℕ) → (ℕ → Bool) → Queue → List Row
unfolding order_by_due is_claimable
select_claimable now limit stale_after_seconds only_ids locked q = take limit (
    order_by_due
      (filter (λ r. is_claimable now stale_after_seconds only_ids r && not (locked r.id)) q.rows))

abbrev pub row_ids : List Row → List ℕ
row_ids [] = []
row_ids (r ∷ rows) = r.id ∷ row_ids rows

-- The UPDATE of the selected rows, by primary key; an empty selection writes nothing.
unfoldable pub commit_claims : ℕ → String → Queue → List Row → List Row × Queue
commit_claims now tok q [] = ([], q)
commit_claims now tok q (r ∷ rest) =
    let ids = row_ids (r ∷ rest) in
    (
      map (claim_row now tok) (r ∷ rest),
      record q { rows = update_where (λ s. member ids s.id) (claim_row now tok) q.rows },
    )

unfoldable pub claim_batch :
    ℕ → ℕ → ℕ → Option (List ℕ) → (ℕ → Bool) → String → Queue → List Row × Queue
unfolding select_claimable commit_claims
claim_batch now limit stale_after_seconds only_ids locked tok q =
    commit_claims now tok q (select_claimable now limit stale_after_seconds only_ids locked q)

-- `claim_token == expected_claim_token`, a filter that is added only if a token is given. In SQL a
-- NULL token equals nothing.
abbrev pub holds_token : Option String → Option String → Bool
holds_token none held = true
holds_token (some tok) none = false
holds_token (some tok) (some held) = str_eq held tok

abbrev pub is_owned : ℕ → Option String → Row → Bool
is_owned row_id expected r = has_id row_id r && holds_token expected r.claim_token

-- `if value is not None: column = value`.
abbrev pub or_keep : Option String → Option String → Option String
or_keep none old = old
or_keep (some v) old = some v

-- `q.first()`, then a change of that row by its primary key; False if there is none.
unfoldable pub update_owned : ℕ → Option String → (Row → Row) → Queue → Bool × Queue
update_owned row_id expected change q = elim (find? (is_owned row_id expected) q.rows) [
  | none ↦ (false, q)
  | some row ↦ (true, record q { rows = update_where (has_id row.id) change q.rows })
]

abbrev pub released_row : ℕ → Option String → Option String → ℕ → Row → Row
released_row next_retry_at reason detail now r = record r {
  claimed_at = none;
  claim_token = none;
  next_retry_at = next_retry_at;
  last_failure_reason = or_keep reason r.last_failure_reason;
  last_detail_message = or_keep detail r.last_detail_message;
  updated_at = now;
}

unfoldable pub release_claim :
    ℕ → ℕ → Option String → Option String → Option String → ℕ → Queue → Bool × Queue
unfolding update_owned
release_claim row_id next_retry_at reason detail expected now =
    update_owned row_id expected (released_row next_retry_at reason detail now)

abbrev pub marked_row : Status → Option String → ℕ → Row → Row
marked_row status reason now r = record r {
  status = status;
  last_failure_reason = or_keep reason r.last_failure_reason;
  claimed_at = none;
  claim_token = none;
  updated_at = now;
}

unfoldable pub mark_status : ℕ → Status → Option String → ℕ → Option String → Queue → Bool × Queue
unfolding update_owned
mark_status row_id status reason now expected =
    update_owned row_id expected (marked_row status reason now)

unfoldable pub mark_succeeded : ℕ → Option String → ℕ → Option String → Queue → Bool × Queue
unfolding mark_status
mark_succeeded row_id reason now expected = mark_status row_id succeeded reason now expected

unfoldable pub mark_terminal : ℕ → String → ℕ → Option String → Queue → Bool × Queue
unfolding mark_status
mark_terminal row_id reason now expected =
    mark_status row_id failed_terminal (some reason) now expected

unfoldable pub mark_expired : ℕ → Option String → ℕ → Option String → Queue → Bool × Queue
unfolding mark_status
mark_expired row_id reason now expected = mark_status row_id expired reason now expected

unfoldable pub mark_abandoned : ℕ → String → ℕ → Option String → Queue → Bool × Queue
unfolding mark_status
mark_abandoned row_id reason now expected = mark_status row_id abandoned (some reason) now expected

abbrev pub is_stale_for : String → ℕ → String → Row → Bool
is_stale_for repo pr current_sha r =
    str_eq r.repo_full_name repo
    && r.pr_number == pr
    && is_pending r.status
    && not (str_eq r.commit_sha current_sha)

unfoldable pub abandon_stale_for_pr : String → ℕ → String → String → ℕ → Queue → ℕ × Queue
abandon_stale_for_pr repo pr current_sha reason now q = (
  count (is_stale_for repo pr current_sha) q.rows,
  record q {
    rows =
        update_where (is_stale_for repo pr current_sha) (marked_row abandoned (some reason) now)
          q.rows;
  },
)
