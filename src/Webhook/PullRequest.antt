-- ===== src/Webhook/PullRequest.antt =====
-- src/webhook/providers/github.py: what an event of a pull request does before it is analysed.
use scamanager.Prelude.{
  ℕ, String, Option, none, some, Bool, false, not, ◌&&◌, ◌||◌, ◌==◌, List, [], ◌∷◌, ◌++◌, any,
  str_eq, if◌then◌else◌,
}
use scamanager.Prelude.Text.{is_empty}
use scamanager.RetryQueue.Claim.{abandon_stale_for_pr}
use scamanager.MergeAttempts.Defs.{
  AttemptRow, Attempts, find_latest_for_pr, mark_actually_merged, mark_disabled_externally,
}
use scamanager.LoopGuard.Defs.{Sender, is_bot}
use scamanager.Webhook.World.{
  EventData, Task, close_referenced_issues, Response, replied, WebhookEnv, WebhookWorld,
}

abbrev pub Answered : Type 0
Answered = Response × WebhookWorld

abbrev pub ignored : Response
ignored = replied "ignored" none

abbrev pub accepted : Response
accepted = replied "accepted" none

abbrev pub add_task : Task → WebhookWorld → WebhookWorld
add_task task w = record w { tasks = w.tasks ++ (task ∷ []) }

-- The numbers in the order of their first occurrence, after those that were seen.
unfoldable pub distinct_numbers : List ℕ → List ℕ → List ℕ
distinct_numbers seen [] = []
distinct_numbers seen (n ∷ ns) =
    let again = distinct_numbers seen ns in
    let rest = distinct_numbers (n ∷ seen) ns in if any (λ x. x == n) seen then again else n ∷ rest

unfoldable pub extract_closing_issue_numbers : WebhookEnv → String → List ℕ
unfolding distinct_numbers
extract_closing_issue_numbers env body =
    if is_empty body then [] else distinct_numbers [] (env.closing_numbers body)

abbrev pub mark_merged : ℕ → Option AttemptRow → Attempts → Attempts
mark_merged now none table = table
mark_merged now (some latest) table = (mark_actually_merged latest.id now table).1

unfoldable pub record_actual_merge : WebhookEnv → String → Option ℕ → WebhookWorld → WebhookWorld
record_actual_merge env repo none w = w
record_actual_merge env repo (some pr) w = record w {
  attempts = mark_merged env.utc_now (find_latest_for_pr repo pr w.attempts) w.attempts;
}

abbrev pub is_other_branch : EventData → Bool
is_other_branch d =
    not (is_empty d.default_branch)
    && not (is_empty d.pull_request.base_ref)
    && not (str_eq d.pull_request.base_ref d.default_branch)

abbrev pub close_later : String → List ℕ → WebhookWorld → Answered
close_later repo [] w = (accepted, w)
close_later repo (n ∷ ns) w = (accepted, add_task (close_referenced_issues repo (n ∷ ns)) w)

unfoldable pub handle_merged_pr_event : WebhookEnv → EventData → WebhookWorld → Answered
unfolding record_actual_merge extract_closing_issue_numbers
handle_merged_pr_event env d w =
    if not d.pull_request.merged
    then (ignored, w)
    else if is_empty d.full_name
    then (ignored, w)
    else if is_other_branch d
    then (accepted, record_actual_merge env d.full_name d.pull_request.number w)
    else close_later d.full_name (extract_closing_issue_numbers env d.pull_request.body)
        (record_actual_merge env d.full_name d.pull_request.number w)

abbrev pub sent_by_bot : Option Sender → Bool
sent_by_bot none = false
sent_by_bot (some s) = is_bot s.kind

abbrev pub has_login : Option Sender → Bool
has_login none = false
has_login (some s) = not (is_empty s.login)

abbrev pub inferred_reason : Option Sender → String
inferred_reason sender =
    if sent_by_bot sender
    then "auto_merge_disabled_by_check_or_force_push"
    else if has_login sender
    then "auto_merge_disabled_by_user"
    else "auto_merge_disabled_external"

abbrev pub mark_disabled : WebhookEnv → EventData → Option AttemptRow → WebhookWorld → Answered
mark_disabled env d none w = (ignored, w)
mark_disabled env d (some latest) w = (
  accepted,
  record w {
    attempts =
        (mark_disabled_externally latest.id env.utc_now (some (inferred_reason d.sender))
          w.attempts).1;
  },
)

abbrev pub disable_for : WebhookEnv → EventData → Option ℕ → WebhookWorld → Answered
disable_for env d none w = (ignored, w)
disable_for env d (some pr) w = mark_disabled env d (find_latest_for_pr d.full_name pr w.attempts) w

unfoldable pub handle_auto_merge_disabled_event : WebhookEnv → EventData → WebhookWorld → Answered
handle_auto_merge_disabled_event env d w =
    if is_empty d.full_name then (ignored, w) else disable_for env d d.pull_request.number w

-- `data.get("number") or pull_request.get("number", 0)`.
abbrev pub number_or_zero : Option ℕ → ℕ
number_or_zero none = 0
number_or_zero (some n) = n

abbrev pub synchronized_number : EventData → ℕ
synchronized_number d =
    if number_or_zero d.number == 0
    then number_or_zero d.pull_request.number
    else number_or_zero d.number

unfoldable pub handle_pr_synchronize : WebhookEnv → EventData → WebhookWorld → WebhookWorld
handle_pr_synchronize env d w =
    let pr = synchronized_number d in
    if not (is_empty d.full_name) && not (pr == 0) && not (is_empty d.pull_request.head_sha)
    then record w {
      queue =
          (abandon_stale_for_pr d.full_name pr d.pull_request.head_sha "sha_drift" env.utc_now
            w.queue).1;
    }
    else w

abbrev pub is_opening : String → Bool
is_opening action = str_eq action "opened" || str_eq action "reopened"

-- `_preprocess_pull_request`: an answer, or none where the request goes on.
unfoldable pub preprocess_pull_request :
    WebhookEnv → EventData → WebhookWorld → Option Response × WebhookWorld
unfolding handle_merged_pr_event handle_auto_merge_disabled_event handle_pr_synchronize
preprocess_pull_request env d w =
    if str_eq d.action "closed"
    then (let (r, w') = handle_merged_pr_event env d w in (some r, w'))
    else if str_eq d.action "auto_merge_disabled"
    then (let (r, w') = handle_auto_merge_disabled_event env d w in (some r, w'))
    else if str_eq d.action "synchronize"
    then (none, handle_pr_synchronize env d w)
    else if is_opening d.action
    then (none, w)
    else (some ignored, w)
