-- ===== src/RetryWorker/Process.antt =====
-- src/services/merge_retry_service.py: one row from its checks to its end, and the batch.
use scamanager.Prelude.{
  ℕ, String, Option, none, some, Bool, true, false, not, ◌&&◌, ◌||◌, List, [], ◌∷◌, ◌++◌, str_eq,
  length, if◌then◌else◌,
}
use scamanager.Prelude.Text.{is_empty}
use scamanager.MergeReasons.{already_merged, sha_drift}
use scamanager.RetryPolicy.Defs.{parse_reason_tag, should_retry, compute_next_retry_at, is_expired}
use scamanager.RetryQueue.Row.{Row, is_pending}
use scamanager.RetryQueue.Defs.{get}
use scamanager.RetryQueue.Claim.{
  release_claim, mark_succeeded, mark_terminal, mark_expired, mark_abandoned, claim_batch,
}
use scamanager.RetryWorker.World.{
  Answer, returned, send_error, unexpected, PrData, Env, Counts, MergeCall, World, Step, ◌>>=◌,
  ◌>>◌, pure, await, write_back, count_up, add_succeeded, add_terminal, add_expired, add_abandoned,
  add_released,
}
use scamanager.RetryWorker.Defs.{
  Preflight, retry_soon, preflight_retry, get_pr_data, get_ci_status_safe, log_failure, log_merged,
  notify_config_changed, notify_merge_succeeded, notify_merge_terminal, create_failure_issue_safe,
}

-- A force-push: the head is known and is not the queued commit.
abbrev pub is_drifted : Row → PrData → Bool
is_drifted view d = not (is_empty d.head_sha) && not (str_eq d.head_sha view.commit_sha)

-- True when the row is done.
unfoldable pub settle_before_merge : Env → ℕ → Preflight → Option PrData → Step Bool
settle_before_merge env now pre none = do
  write_back (
      release_claim pre.view.id (retry_soon now) (some "pr_fetch_failed") none pre.claim_token
        env.utc_now)
  count_up add_released
  pure true
settle_before_merge env now pre (some d) =
    if d.merged
    then (do
      log_merged env pre.view pre.cfg.merge_threshold
      write_back (mark_succeeded pre.view.id (some already_merged) env.utc_now pre.claim_token)
      count_up add_succeeded
      pure true)
    else if is_drifted pre.view d
    then (do
      log_failure pre.view pre.cfg.merge_threshold (some sha_drift)
      write_back (mark_abandoned pre.view.id sha_drift env.utc_now pre.claim_token)
      count_up add_abandoned
      pure true)
    else pure false

-- The call of `merge_pr`, bound to the queued commit, and the note of it.
abbrev pub call_of : Preflight → MergeCall
call_of pre = record {
  repo = pre.view.repo_full_name;
  pr = pre.view.pr_number;
  expected_sha = pre.view.commit_sha;
}

unfoldable pub call_merge_pr : Env → Preflight → Step (Bool × Option String)
call_merge_pr env pre w =
    await (env.merge_pr pre.token pre.view.repo_full_name pre.view.pr_number pre.view.commit_sha)
      (record w { merge_calls = w.merge_calls ++ (call_of pre ∷ []) })

unfoldable pub record_merged : Env → Preflight → Step (Unit {0})
record_merged env pre = do
  log_merged env pre.view pre.cfg.merge_threshold
  write_back (mark_succeeded pre.view.id none env.utc_now pre.claim_token)

unfoldable pub record_retry_stop : Env → Preflight → Option String → String → Bool → Step (Unit {0})
record_retry_stop env pre reason reason_tag terminal = do
  log_failure pre.view pre.cfg.merge_threshold reason
  if terminal
      then write_back (mark_terminal pre.view.id reason_tag env.utc_now pre.claim_token)
      else write_back (mark_expired pre.view.id (some reason_tag) env.utc_now pre.claim_token)

unfoldable pub stop_retrying : Env → Preflight → Option String → String → Bool → Step (Unit {0})
stop_retrying env pre reason reason_tag terminal = do
  record_retry_stop env pre reason reason_tag terminal
  count_up (if terminal then add_terminal else add_expired)
  notify_merge_terminal env pre.view pre.cfg reason reason_tag
  if pre.cfg.auto_merge_issue_on_failure
      then create_failure_issue_safe env pre.token pre.view
      else pure tt

unfoldable pub back_off : Env → ℕ → Preflight → Option String → String → Step (Unit {0})
back_off env now pre reason reason_tag = do
  write_back (
      release_claim pre.view.id
        (compute_next_retry_at pre.view.attempts_count now
          env.settings.merge_retry_initial_backoff_seconds
          env.settings.merge_retry_max_backoff_seconds env.jitter)
        (some reason_tag) reason pre.claim_token env.utc_now)
  count_up add_released

unfoldable pub handle_merge_failure : Env → ℕ → Preflight → PrData → Option String → Step (Unit {0})
handle_merge_failure env now pre d reason =
    let reason_tag = parse_reason_tag reason in
    let expired = is_expired pre.view.created_at now env.settings.merge_retry_max_age_hours in
    (do
      ci_status ← get_ci_status_safe env pre.token pre.view d.base_ref
      if not (should_retry reason_tag ci_status) || expired
          then stop_retrying env pre reason reason_tag (not (should_retry reason_tag ci_status))
          else back_off env now pre reason reason_tag)

unfoldable pub merge_or_handle : Env → ℕ → Preflight → PrData → Step (Unit {0})
merge_or_handle env now pre d = do
  outcome ← call_merge_pr env pre
  if outcome.0
      then (do
        record_merged env pre
        notify_merge_succeeded env pre.view pre.cfg
        count_up add_succeeded)
      else handle_merge_failure env now pre d outcome.1

-- The rest of a row that `_settle_before_merge` has not ended; it ends each row with no data.
unfoldable pub after_settling : Env → ℕ → Preflight → Option PrData → Bool → Step (Unit {0})
after_settling env now pre data' true = pure tt
after_settling env now pre none false = pure tt
after_settling env now pre (some d) false = merge_or_handle env now pre d

unfoldable pub after_preflight : Env → ℕ → Option Preflight → Step (Unit {0})
after_preflight env now none = pure tt
after_preflight env now (some pre) =
    if pre.config_changed
    then (do notify_config_changed env pre.view pre.cfg; count_up add_abandoned)
    else (do
      pulled ← get_pr_data env pre.token pre.view
      settled ← settle_before_merge env now pre pulled
      after_settling env now pre pulled settled)

-- `view` is the row as the database has it when its turn starts.
unfoldable pub process_single_retry : Env → ℕ → Row → Option String → Step (Unit {0})
process_single_retry env now view tok = do
  pre ← preflight_retry env now view tok
  after_preflight env now pre

abbrev pub add_released_if : Bool → Counts → Counts
add_released_if true c = add_released c
add_released_if false c = c

-- After a raise: the claim is given up if the row is still pending and still this worker's. The row
-- is read again, and one that is gone is left alone.
unfoldable pub recover_and_release : Env → ℕ → ℕ → String → Option String → World → World
recover_and_release env now row_id reason tok w = elim (get w.queue row_id) [
  | none ↦ w
  | some row ↦
      (if is_pending row.status
        then (let (released, q) =
              release_claim row.id (retry_soon now) (some reason) (some env.exc_detail) tok
                env.utc_now w.queue in
            record w { queue = q; counts = add_released_if released w.counts })
        else w)
]

-- One turn of the batch loop. A row that is gone raises when it is read.
unfoldable pub turn_result : Env → ℕ → ℕ → Option String → Answer (Unit {0}) × World → World
turn_result env now row_id tok (returned _, w) = w
turn_result env now row_id tok (send_error, w) =
    recover_and_release env now row_id "infra_error" tok w
turn_result env now row_id tok (unexpected, w) =
    recover_and_release env now row_id "unexpected_error" tok w

unfoldable pub process_turn : Env → ℕ → ℕ → Option String → World → World
process_turn env now row_id tok w = elim (get w.queue row_id) [
  | none ↦ turn_result env now row_id tok (unexpected, w)
  | some view ↦ turn_result env now row_id tok (process_single_retry env now view tok w)
]

-- The loop over the ids and tokens that were taken when the batch was claimed; each row has its own
-- answers.
unfoldable pub process_claimed : (ℕ → Env) → ℕ → List Row → World → World
process_claimed envs now [] w = w
process_claimed envs now (r ∷ rows) w =
    process_claimed envs now rows (process_turn (envs r.id) now r.id r.claim_token w)

abbrev pub no_counts : ℕ → Counts
no_counts n = record {
  claimed = n;
  succeeded = 0;
  terminal = 0;
  expired = 0;
  abandoned = 0;
  released = 0;
  skipped = 0;
}

unfoldable pub process_pending_retries :
    (ℕ → Env) → ℕ → ℕ → Option (List ℕ) → (ℕ → Bool) → String → World → World
process_pending_retries envs now limit only_ids locked tok w =
    let (claimed, q) = claim_batch now limit 300 only_ids locked tok w.queue in
    process_claimed envs now claimed (record w { queue = q; counts = no_counts (length claimed) })
