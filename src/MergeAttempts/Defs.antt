-- ===== src/MergeAttempts/Defs.antt =====
-- src/gate/_merge_attempt_states.py and src/repositories/merge_attempt_repo.py: the states of a
-- recorded attempt, the table `merge_attempts`, its queries and its two transitions.
use scamanager.Prelude.{
  ℕ, ◌+◌, String, Option, none, some, Bool, true, false, not, ◌&&◌, ◌||◌, ◌==◌, List, [], ◌∷◌, ◌++◌,
  take, filter, count, any, update_where, ltb, leb, str_eq, if◌then◌else◌,
}
use scamanager.MergeMetrics.{MergeAttempt}

abbrev pub legacy : String
legacy = "legacy"

abbrev pub enabled_pending_merge : String
enabled_pending_merge = "enabled_pending_merge"

abbrev pub actually_merged : String
actually_merged = "actually_merged"

abbrev pub disabled_externally : String
disabled_externally = "disabled_externally"

abbrev pub direct_merged : String
direct_merged = "direct_merged"

-- Membership in `ALLOWED_TRANSITIONS`.
unfoldable pub allowed_transition : String → String → Bool
allowed_transition s t =
    str_eq s enabled_pending_merge && (str_eq t actually_merged || str_eq t disabled_externally)

unfoldable pub is_terminal : String → Bool
is_terminal s =
    str_eq s legacy
    || str_eq s actually_merged
    || str_eq s disabled_externally
    || str_eq s direct_merged

-- Membership in `MERGED_STATES`.
abbrev pub is_merged_state : String → Bool
is_merged_state s = str_eq s actually_merged || str_eq s direct_merged

-- `bool(success)`.
abbrev pub truthy : Option Bool → Bool
truthy none = false
truthy (some b) = b

unfoldable pub is_merged : Option String → Option Bool → Bool
is_merged none success = false
is_merged (some s) success = if is_merged_state s then true else str_eq s legacy && truthy success

-- A truth value of SQL; a comparison with NULL is NULL.
pub data Sql : Type 0 where
  sql_true sql_false sql_null : Sql

abbrev pub sql_of : Bool → Sql
sql_of true = sql_true
sql_of false = sql_false

abbrev pub sql_or : Sql → Sql → Sql
sql_or sql_true b = sql_true
sql_or sql_false b = b
sql_or sql_null sql_true = sql_true
sql_or sql_null sql_false = sql_null
sql_or sql_null sql_null = sql_null

abbrev pub sql_and : Sql → Sql → Sql
sql_and sql_false b = sql_false
sql_and sql_true b = b
sql_and sql_null sql_false = sql_false
sql_and sql_null sql_true = sql_null
sql_and sql_null sql_null = sql_null

-- A test of a column that may be NULL, and `IS TRUE`, which is never NULL.
abbrev pub sql_test {ℓ} : {A : Type ℓ} → (A → Bool) → Option A → Sql
sql_test p none = sql_null
sql_test p (some x) = sql_of (p x)

unfoldable pub merged_sql_predicate : Option String → Option Bool → Sql
merged_sql_predicate state success =
    sql_or (sql_test is_merged_state state)
      (sql_and (sql_test (λ s. str_eq s legacy) state) (sql_of (truthy success)))

-- A row: what `create` is given, with its id, the time of its INSERT and the column that only a
-- transition sets.
pub record AttemptRow : Type 0 where
  pub id : ℕ
  pub attempted_at : ℕ
  pub disabled_at : Option ℕ
  pub attempt : MergeAttempt
  pub open attempt use *

pub record Attempts : Type 0 where
  pub rows : List AttemptRow
  pub next_id : ℕ

-- The row that the INSERT makes, and the table with it; the sequence gives the id.
abbrev pub created_row : ℕ → MergeAttempt → Attempts → AttemptRow
created_row now attempt table = record {
  id = table.next_id;
  attempted_at = now;
  disabled_at = none;
  attempt = attempt;
}

unfoldable pub create : ℕ → MergeAttempt → Attempts → AttemptRow × Attempts
create now attempt table =
    let row = created_row now attempt table in
    (row, record { rows = table.rows ++ (row ∷ []); next_id = table.next_id + 1 })

-- `ORDER BY attempted_at DESC`; rows of one time stay in the table's order.
unfoldable pub insert_by_latest : AttemptRow → List AttemptRow → List AttemptRow
insert_by_latest r [] = r ∷ []
insert_by_latest r (x ∷ xs) =
    let rest = insert_by_latest r xs in
    if leb x.attempted_at r.attempted_at then r ∷ x ∷ xs else x ∷ rest

unfoldable pub order_by_latest : List AttemptRow → List AttemptRow
unfolding insert_by_latest
order_by_latest [] = []
order_by_latest (r ∷ rs) = insert_by_latest r (order_by_latest rs)

unfoldable pub list_by_repo : String → ℕ → Attempts → List AttemptRow
unfolding order_by_latest
list_by_repo repo limit table =
    take limit (order_by_latest (filter (λ r. str_eq r.repo_name repo) table.rows))

abbrev pub first : List AttemptRow → Option AttemptRow
first [] = none
first (r ∷ rs) = some r

abbrev pub is_for_pr : String → ℕ → AttemptRow → Bool
is_for_pr repo pr r = str_eq r.repo_name repo && r.pr_number == pr

unfoldable pub find_latest_for_pr : String → ℕ → Attempts → Option AttemptRow
unfolding order_by_latest
find_latest_for_pr repo pr table = first (order_by_latest (filter (is_for_pr repo pr) table.rows))

abbrev pub is_since : Option ℕ → ℕ → Bool
is_since none t = true
is_since (some since) t = leb since t

-- The failed rows since then that have a reason, by their reasons.
abbrev pub failed_reason : Option ℕ → AttemptRow → Option String
failed_reason since r =
    if not r.success && is_since since r.attempted_at then r.failure_reason else none

abbrev pub has_reason : String → Option String → Bool
has_reason tag none = false
has_reason tag (some t) = str_eq t tag

-- A row of a GROUP BY.
pub record ReasonCount : Type 0 where
  pub reason : String
  pub total : ℕ

abbrev pub is_reason : String → ReasonCount → Bool
is_reason tag g = str_eq g.reason tag

unfoldable pub add_reason : Option String → List ReasonCount → List ReasonCount
add_reason none groups = groups
add_reason (some tag) groups =
    if any (is_reason tag) groups
    then update_where (is_reason tag) (λ g. record g { total = g.total + 1 }) groups
    else record { reason = tag; total = 1 } ∷ groups

unfoldable pub group_reasons : Option ℕ → List AttemptRow → List ReasonCount
unfolding add_reason
group_reasons since [] = []
group_reasons since (r ∷ rs) = add_reason (failed_reason since r) (group_reasons since rs)

unfoldable pub count_failures_by_reason : Option ℕ → Attempts → List ReasonCount
unfolding group_reasons
count_failures_by_reason since table = group_reasons since table.rows

-- `WHERE id = … AND state = 'enabled_pending_merge'`.
abbrev pub is_markable : ℕ → AttemptRow → Bool
is_markable i r = r.id == i && str_eq r.state enabled_pending_merge

unfoldable pub mark_where : ℕ → (AttemptRow → AttemptRow) → Attempts → Bool × Attempts
mark_where i change table = (
  ltb 0 (count (is_markable i) table.rows),
  record table { rows = update_where (is_markable i) change table.rows },
)

abbrev pub merged_row : ℕ → AttemptRow → AttemptRow
merged_row merged_at r = record r {
  attempt = record r.attempt { state = actually_merged; merged_at = some merged_at };
}

unfoldable pub mark_actually_merged : ℕ → ℕ → Attempts → Bool × Attempts
unfolding mark_where
mark_actually_merged i merged_at table = mark_where i (merged_row merged_at) table

-- `if reason is not None`.
abbrev pub reason_or_kept : Option String → Option String → Option String
reason_or_kept none kept = kept
reason_or_kept (some reason) kept = some reason

abbrev pub disabled_row : ℕ → Option String → AttemptRow → AttemptRow
disabled_row disabled_at reason r = record r {
  disabled_at = some disabled_at;
  attempt = record r.attempt {
    state = disabled_externally;
    failure_reason = reason_or_kept reason r.failure_reason;
  };
}

unfoldable pub mark_disabled_externally : ℕ → ℕ → Option String → Attempts → Bool × Attempts
unfolding mark_where
mark_disabled_externally i disabled_at reason table =
    mark_where i (disabled_row disabled_at reason) table
