-- ===== src/MergeAttempts/Tests.antt =====
-- The table of attempts with a pending row, a terminal one and two failures.
use mathlib.Core.Option
use scamanager.Prelude.{ℕ, String, Bool, ◌≡◌, refl, Option, none, some, true, false, List, [], ◌∷◌}
use scamanager.Prelude.Int.{pos}
use scamanager.MergeMetrics.{MergeAttempt}
use scamanager.MergeAttempts.Defs.{
  AttemptRow, Attempts, find_latest_for_pr, order_by_latest, insert_by_latest, mark_actually_merged,
  mark_disabled_externally, mark_where,
}
use scamanager.MergeAttempts.Lifecycle.{
  Event, inserted, merged, disabled, run, lookup, IsSuccessor, run-IsSuccessor,
}

abbrev pub attempt : String → Bool → Option String → MergeAttempt
attempt state success reason = record {
  analysis_id = 1;
  repo_name = "o/r";
  pr_number = 7;
  score = 80;
  threshold = pos 75;
  success = success;
  failure_reason = reason;
  detail_message = reason;
  state = state;
  enabled_at = none;
  merged_at = none;
}

abbrev pub row : ℕ → ℕ → MergeAttempt → AttemptRow
row i at a = record { id = i; attempted_at = at; disabled_at = none; attempt = a }

abbrev pub sample : Attempts
sample = record {
  rows =
      row 1 10 (attempt "enabled_pending_merge" true none)
      ∷ row 2 20 (attempt "direct_merged" true none)
      ∷ row 3 40 (attempt "legacy" false (some "unstable_ci"))
      ∷ row 4 30 (attempt "legacy" false (some "unstable_ci"))
      ∷ [];
  next_id = 5;
}

abbrev history : List Event
history =
    merged 1 50
    ∷ disabled 1 60 (some "user_disabled")
    ∷ inserted 70 (attempt "legacy" false none)
    ∷ merged 2 80
    ∷ []

mark_test : (mark_actually_merged 1 50 sample).0 ≡ true
unfolding mark_actually_merged mark_where
mark_test = refl

mark_terminal_test : (mark_disabled_externally 2 50 none sample).0 ≡ false
unfolding mark_disabled_externally mark_where
mark_terminal_test = refl

latest_test : Option.map (λ (r : AttemptRow). r.id) (find_latest_for_pr "o/r" 7 sample) ≡ some 3
unfolding find_latest_for_pr order_by_latest insert_by_latest
latest_test = refl

run-IsSuccessor_example :
    (r' : AttemptRow) × (lookup 1 (run history sample) ≡ some r')
    × IsSuccessor (row 1 10 (attempt "enabled_pending_merge" true none)) r'
run-IsSuccessor_example = run-IsSuccessor history 1 sample refl
