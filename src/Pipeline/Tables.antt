-- ===== src/Pipeline/Tables.antt =====
-- src/repositories/analysis_repo.py, analysis_attempt_repo.py and repository_repo.py with
-- src/scorer/reliability.py: the tables that an analysis writes, and what its result says of the score.
use scamanager.Prelude.{
  ℕ, ◌+◌, ◌*◌, String, Option, none, some, Bool, true, false, not, ◌&&◌, ◌||◌, ◌==◌, List, [], ◌∷◌,
  ◌++◌, find?, any, filter, count, ltb, str_eq, if◌then◌else◌,
}
use scamanager.Gate.Actions.{is_failed_status}

-- `Analysis.result`, as far as its markers are read. An absent marker is false, or the empty list.
pub record ResultDict : Type 0 where
  pub source : String
  pub score : ℕ
  pub ai_review_status : String
  pub ai_review_truncated : Bool
  pub static_analysis_incomplete : Bool
  pub ai_defaults_applied : Bool
  pub static_uncovered_languages : List String
  pub static_no_dedicated_observers : List String

-- The columns of an analysis that are read here.
pub record AnalysisRow : Type 0 where
  pub id : ℕ
  pub repo_id : ℕ
  pub commit_sha : String
  pub pr_number : Option ℕ
  pub score : Option ℕ
  pub grade : Option String
  pub result : Option ResultDict
  pub score_unreliable : Bool

pub record RepositoryRow : Type 0 where
  pub id : ℕ
  pub full_name : String

-- The trace that an analysis leaves when it starts.
pub record AnalysisAttempt : Type 0 where
  pub id : ℕ
  pub repo_id : ℕ
  pub commit_sha : String
  pub pr_number : Option ℕ
  pub event : String
  pub started_at : ℕ

-- The rows of the three tables, and the next values of their id sequences.
pub record Tables : Type 0 where
  pub repos : List RepositoryRow
  pub next_repo : ℕ
  pub analyses : List AnalysisRow
  pub next_analysis : ℕ
  pub attempts : List AnalysisAttempt
  pub next_attempt : ℕ

abbrev pub has_sha : ℕ → String → AnalysisRow → Bool
has_sha repo_id sha a = a.repo_id == repo_id && str_eq a.commit_sha sha

unfoldable pub find_by_sha : String → ℕ → Tables → Option AnalysisRow
find_by_sha sha repo_id t = find? (has_sha repo_id sha) t.analyses

abbrev pub has_analysis_id : ℕ → AnalysisRow → Bool
has_analysis_id i a = a.id == i

unfoldable pub find_by_id : ℕ → Tables → Option AnalysisRow
find_by_id i t = find? (has_analysis_id i) t.analyses

abbrev pub has_full_name : String → RepositoryRow → Bool
has_full_name name r = str_eq r.full_name name

unfoldable pub find_by_full_name : String → Tables → Option RepositoryRow
find_by_full_name name t = find? (has_full_name name) t.repos

-- The INSERT of an analysis, which the unique (repo_id, commit_sha) may reject.
unfoldable pub insert_analysis : AnalysisRow → Tables → Option (AnalysisRow × Tables)
insert_analysis new t =
    let stored = record new { id = t.next_analysis } in
    if any (has_sha new.repo_id new.commit_sha) t.analyses
    then none
    else some (
      stored,
      record t { analyses = t.analyses ++ (stored ∷ []); next_analysis = t.next_analysis + 1 },
    )

-- The INSERT of a repository, which the unique full_name may reject.
unfoldable pub insert_repo : String → Tables → Option (RepositoryRow × Tables)
insert_repo name t =
    let stored : RepositoryRow = record { id = t.next_repo; full_name = name } in
    if any (has_full_name name) t.repos
    then none
    else some (stored, record t { repos = t.repos ++ (stored ∷ []); next_repo = t.next_repo + 1 })

-- `DELETE … WHERE repo_id = …`, with the number of rows.
unfoldable pub delete_by_repo_id : ℕ → Tables → ℕ × Tables
delete_by_repo_id repo_id t = (
  count (λ a. a.repo_id == repo_id) t.analyses,
  record t { analyses = filter (λ a. not (a.repo_id == repo_id)) t.analyses },
)

abbrev pub is_trace_of : ℕ → String → AnalysisAttempt → Bool
is_trace_of repo_id sha a = a.repo_id == repo_id && str_eq a.commit_sha sha

-- The INSERT of a trace, whether it was accepted, and the tables.
unfoldable pub begin_attempt : ℕ → String → Option ℕ → String → ℕ → Tables → Bool × Tables
begin_attempt repo_id sha pr_number event now t =
    if any (is_trace_of repo_id sha) t.attempts then (false, t) else (
      true,
      record t {
        attempts =
            t.attempts
            ++ (record {
              id = t.next_attempt;
              repo_id = repo_id;
              commit_sha = sha;
              pr_number = pr_number;
              event = event;
              started_at = now;
            }
                ∷ []);
        next_attempt = t.next_attempt + 1;
      },
    )

unfoldable pub finish_attempt : ℕ → String → Tables → Tables
finish_attempt repo_id sha t = record t {
  attempts = filter (λ a. not (is_trace_of repo_id sha a)) t.attempts;
}

-- `ORDER BY started_at ASC`.
unfoldable pub insert_by_start : AnalysisAttempt → List AnalysisAttempt → List AnalysisAttempt
insert_by_start a [] = a ∷ []
insert_by_start a (b ∷ bs) =
    let rest = b ∷ insert_by_start a bs in
    if ltb b.started_at a.started_at then rest else a ∷ b ∷ bs

unfoldable pub order_by_start : List AnalysisAttempt → List AnalysisAttempt
unfolding insert_by_start
order_by_start [] = []
order_by_start (a ∷ as') = insert_by_start a (order_by_start as')

-- The traces that started more than so many minutes ago.
unfoldable pub find_orphaned : ℕ → ℕ → Tables → List AnalysisAttempt
unfolding order_by_start
find_orphaned older_than_minutes now t =
    order_by_start (filter (λ a. ltb (a.started_at + older_than_minutes * 60000000) now) t.attempts)

abbrev pub is_listed : List ℕ → AnalysisAttempt → Bool
is_listed ids a = any (λ i. i == a.id) ids

unfoldable pub purge_by_ids : List ℕ → Tables → ℕ × Tables
purge_by_ids ids t = (
  count (is_listed ids) t.attempts,
  record t { attempts = filter (λ a. not (is_listed ids a)) t.attempts },
)

-- `score_is_unreliable` of a result; of none it is false.
unfoldable pub score_is_unreliable : ResultDict → Bool
score_is_unreliable r =
    is_failed_status (some r.ai_review_status)
    || r.static_analysis_incomplete
    || str_eq r.source "cli"
    || str_eq r.ai_review_status "disabled"
    || str_eq r.ai_review_status "no_api_key"
    || str_eq r.ai_review_status "empty_diff"
    || r.ai_defaults_applied
    || any (λ l. true) r.static_uncovered_languages
    || any (λ l. true) r.static_no_dedicated_observers

unfoldable pub should_null_persist_score : ResultDict → Bool
should_null_persist_score r = is_failed_status (some r.ai_review_status)

abbrev pub is_cli_result : Option ResultDict → Bool
is_cli_result none = false
is_cli_result (some r) = str_eq r.source "cli"

-- `_is_cli_only`.
abbrev pub is_cli_only : AnalysisRow → Bool
is_cli_only a = is_cli_result a.result
