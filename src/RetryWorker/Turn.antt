-- ===== src/RetryWorker/Turn.antt =====
-- A whole turn keeps whatever its parts keep; no call of `merge_pr` is made that is not authorised.
use mathlib.Core.Path.{subst₂}
use scamanager.Prelude.{
  ℕ, String, Option, none, some, Bool, true, false, ◌≡◌, refl, sym, Option-cases, inl, inr,
}
use scamanager.RetryQueue.Row.{Row}
use scamanager.RetryWorker.World.{returned, World, Env, PrData, ◌>>=◌, await}
use scamanager.Prelude.Preserves.{
  Preserves, preserves_rules, Preserves-pure, Preserves-if, Preserves-bind, Preserves-bind_when,
}
use scamanager.RetryWorker.Parts.{
  Parts, from_merge, release-Preserves, mark_succeeded-Preserves, mark_terminal-Preserves,
  mark_expired-Preserves, mark_abandoned-Preserves, count_up-Preserves, log_failure-Preserves,
  log_merged-Preserves, notify_config_changed-Preserves, notify_merge_succeeded-Preserves,
  notify_merge_terminal-Preserves, create_failure_issue_safe-Preserves, get_pr_data-Preserves,
  get_ci_status_safe-Preserves,
}
use scamanager.RetryWorker.Defs.{
  Preflight, resolve_github_token, check_config, preflight_retry, get_pr_data,
}
use scamanager.RetryWorker.Process.{
  is_drifted, call_of, settle_before_merge, call_merge_pr, record_merged, record_retry_stop,
  stop_retrying, back_off, handle_merge_failure, merge_or_handle, after_settling, after_preflight,
  process_single_retry,
}
use scamanager.RetryWorker.Checks.{
  IsPassed, call_of-Authorised, IsOpen, get_pr_data-returned, preflight_retry-returned,
  settle_before_merge-returned, IsCleared,
}

pub ruleset part_rules = (
  preserves_rules, release-Preserves, mark_succeeded-Preserves, mark_terminal-Preserves,
  mark_expired-Preserves, mark_abandoned-Preserves, count_up-Preserves, log_failure-Preserves,
  log_merged-Preserves, notify_config_changed-Preserves, notify_merge_succeeded-Preserves,
  notify_merge_terminal-Preserves, create_failure_issue_safe-Preserves, get_pr_data-Preserves,
  get_ci_status_safe-Preserves,
)

module _ {P : World → Type 0} {env : Env} (now : ℕ) (pre : Preflight)
    (parts : Parts P env pre.view pre.claim_token) where
  settle_before_merge-Preserves :
      (o : Option PrData) → Preserves P (settle_before_merge env now pre o)
  unfolding settle_before_merge
  settle_before_merge-Preserves none = search part_rules
  settle_before_merge-Preserves (some d) = search part_rules depth 9

  record_merged-Preserves : Preserves P (record_merged env pre)
  unfolding record_merged
  record_merged-Preserves = search part_rules

  record_retry_stop-Preserves :
      (reason : Option String) (tag : String) (terminal : Bool)
      → Preserves P (record_retry_stop env pre reason tag terminal)
  unfolding record_retry_stop
  record_retry_stop-Preserves reason tag terminal = search part_rules

  stop_retrying-Preserves :
      (reason : Option String) (tag : String) (terminal : Bool)
      → Preserves P (stop_retrying env pre reason tag terminal)
  unfolding stop_retrying
  stop_retrying-Preserves reason tag terminal = search (part_rules, record_retry_stop-Preserves)

  back_off-Preserves :
      (reason : Option String) (tag : String) → Preserves P (back_off env now pre reason tag)
  unfolding back_off
  back_off-Preserves reason tag = search part_rules

  handle_merge_failure-Preserves :
      (d : PrData) (reason : Option String)
      → Preserves P (handle_merge_failure env now pre d reason)
  unfolding handle_merge_failure
  handle_merge_failure-Preserves d reason =
      search (part_rules, stop_retrying-Preserves, back_off-Preserves)

  call_merge_pr-Preserves :
      (d : PrData)
      → IsCleared env pre
      → pre.config_changed ≡ false
      → IsOpen env pre d
      → Preserves P (call_merge_pr env pre)
  unfolding call_merge_pr await
  call_merge_pr-Preserves d cleared same opened = record {
    left = λ w h.
        parts.others _
          (from_merge pre.token pre.view.repo_full_name pre.view.pr_number pre.view.commit_sha) _
          (parts.called (call_of pre) (call_of-Authorised env pre d cleared same opened) w h);
  }

  merge_or_handle-Preserves :
      (d : PrData)
      → IsCleared env pre
      → pre.config_changed ≡ false
      → IsOpen env pre d
      → Preserves P (merge_or_handle env now pre d)
  unfolding merge_or_handle
  merge_or_handle-Preserves d cleared same opened =
      Preserves-bind (call_merge_pr env pre) _ (call_merge_pr-Preserves d cleared same opened)
        λ outcome. search (part_rules, record_merged-Preserves, handle_merge_failure-Preserves)

  after_settling-Preserves :
      (o : Option PrData) (settled : Bool)
      → IsCleared env pre
      → pre.config_changed ≡ false
      → ((d : PrData) → o ≡ some d → settled ≡ false → IsOpen env pre d)
      → Preserves P (after_settling env now pre o settled)
  unfolding after_settling
  after_settling-Preserves o true cleared same opened = Preserves-pure tt
  after_settling-Preserves none false cleared same opened = Preserves-pure tt
  after_settling-Preserves (some d) false cleared same opened =
      merge_or_handle-Preserves d cleared same (opened d refl refl)

  cleared_to_merge-Preserves :
      IsCleared env pre
      → pre.config_changed ≡ false
      → Preserves P (do
        pulled ← get_pr_data env pre.token pre.view
        settled ← settle_before_merge env now pre pulled
        after_settling env now pre pulled settled)
  cleared_to_merge-Preserves cleared same =
      Preserves-bind_when
        (λ pulled.
          (d : PrData)
          → pulled ≡ some d
          → (env.get_pull pre.token pre.view.repo_full_name pre.view.pr_number).answer ≡ returned d)
        (get_pr_data env pre.token pre.view) _ (get_pr_data-returned env pre.token pre.view)
        (get_pr_data-Preserves parts pre.token pre.view)
        λ pulled says.
          Preserves-bind_when
            (λ settled.
              (d : PrData)
              → pulled ≡ some d
              → settled ≡ false
              → (d.merged ≡ false) × (is_drifted pre.view d ≡ false))
            (settle_before_merge env now pre pulled) _
            (settle_before_merge-returned env now pre pulled) (settle_before_merge-Preserves pulled)
            λ settled left. after_settling-Preserves pulled settled cleared same λ d e f. record {
              pulled = says d e;
              unmerged = (left d e f).0;
              undrifted = (left d e f).1;
            }

  after_preflight-Preserves : IsCleared env pre → Preserves P (after_preflight env now (some pre))
  unfolding after_preflight
  after_preflight-Preserves cleared =
      Preserves-if pre.config_changed _ _ (λ e. search part_rules)
        (λ e. cleared_to_merge-Preserves cleared e)

module _ {P : World → Type 0} (env : Env) (now : ℕ) (view : Row) (tok : Option String)
    (parts : Parts P env view tok) where
  check_config-Preserves : (token : String) → Preserves P (check_config env view tok token)
  unfolding check_config
  check_config-Preserves token = search part_rules depth 9

  preflight_retry-Preserves : Preserves P (preflight_retry env now view tok)
  unfolding preflight_retry
  preflight_retry-Preserves = elim (Option-cases (resolve_github_token env view.repo_full_name)) [
    | inl t ↦ rw (t, preflight_retry) (search part_rules depth 9)
    | inr (token, t) ↦ rw (t, preflight_retry) (search (part_rules, check_config-Preserves) depth 9)
  ]

  pub process_single_retry-Preserves : Preserves P (process_single_retry env now view tok)
  unfolding process_single_retry
  process_single_retry-Preserves =
      Preserves-bind_when (IsPassed env view tok) (preflight_retry env now view tok)
        (after_preflight env now) (preflight_retry-returned env now view tok)
        preflight_retry-Preserves go
    where
      go :
          (o : Option Preflight) → IsPassed env view tok o → Preserves P (after_preflight env now o)
      go none passed = unfold after_preflight in Preserves-pure tt
      go (some pre) passed =
          let (v, t, cleared) = passed pre refl in
          after_preflight-Preserves now pre (subst₂ (Parts P env) (sym v) (sym t) parts) cleared
