-- ===== src/RetryWorker/Parts.antt =====
-- A turn keeps whatever its parts keep: the writes of the worker, its calls, and what other sessions
-- commit meanwhile.
use scamanager.Prelude.{
  ℕ, ◌<◌, String, Option, some, true, false, List, ◌≡◌, ◌⊎◌, refl, ◌++◌, ◌∷◌, [],
}
use scamanager.Prelude.Int.{ℤ, pos, leb_int}
use scamanager.MergeMetrics.{MergeAttempt}
use scamanager.RetryQueue.Row.{
  Queue, Row, is_pending, Status, succeeded, failed_terminal, abandoned, expired,
}
use scamanager.RetryQueue.Claim.{
  release_claim, mark_status, mark_succeeded, mark_terminal, mark_expired, mark_abandoned,
}
use scamanager.ConfigManager.{RepoConfigData}
use scamanager.RetryWorker.World.{
  returned, Reply, World, Env, Notice, Counts, PrData, MergeCall, await, count_up, write_back,
}
use scamanager.Prelude.Preserves.{Preserves, preserves_rules}
use scamanager.RetryWorker.Defs.{
  resolve_github_token, log_failure, log_merged, log_attempt, post_notice, notify_config_changed,
  notify_merge_succeeded, notify_merge_terminal, create_failure_issue_safe, get_pr_data,
  get_ci_status_safe, ignore_send_error, unknown_if_unsent,
}

-- What must hold of a call of `merge_pr` for a row: it is bound to the queued commit, attempts are
-- left, the settings still allow the merge, and GitHub's pull request is open at that commit (or
-- shows no head).
pub record Authorised (env : Env) (view : Row) (call : MergeCall) : Type 0 where
  pub repo_bound : call.repo ≡ view.repo_full_name
  pub pr_bound : call.pr ≡ view.pr_number
  pub sha_bound : call.expected_sha ≡ view.commit_sha
  pub attempts_left : view.attempts_count < view.max_attempts
  pub allowed : (env.repo_config view.repo_full_name).auto_merge ≡ true
  pub scored : leb_int (env.repo_config view.repo_full_name).merge_threshold (pos view.score) ≡ true
  pub open_at_sha :
      (token : String) × (d : PrData) × (resolve_github_token env view.repo_full_name ≡ some token)
      × ((env.get_pull token view.repo_full_name view.pr_number).answer ≡ returned d)
      × (d.merged ≡ false)
      × ((d.head_sha ≡ "") ⊎ (d.head_sha ≡ view.commit_sha))

-- What the other sessions commit during one of the calls.
pub data FromEnv (env : Env) : (Queue → Queue) → Type 0 where
  from_pull : (token repo : String) (pr : ℕ) → FromEnv env (env.get_pull token repo pr).meanwhile
  from_merge :
      (token repo : String) (pr : ℕ) (sha : String)
      → FromEnv env (env.merge_pr token repo pr sha).meanwhile
  from_contexts :
      (token repo ref : String) → FromEnv env (env.required_check_contexts token repo ref).meanwhile
  from_status :
      (token repo sha : String) (required : Option (List String))
      → FromEnv env (env.get_ci_status token repo sha required).meanwhile
  from_telegram :
      (bot chat : String) (notice : Notice)
      → FromEnv env (env.telegram_post_message bot chat notice).meanwhile
  from_issue :
      (token repo : String) (pr : ℕ)
      → FromEnv env (env.create_merge_failure_issue token repo pr).meanwhile

-- The parts of a turn keep `P`.
pub record Parts (P : World → Type 0) (env : Env) (view : Row) (tok : Option String) : Type 0 where
  pub released :
      (at : ℕ) (reason detail : Option String) (now : ℕ) (w : World)
      → P w
      → P (record w { queue = (release_claim view.id at reason detail tok now w.queue).1 })
  pub marked :
      (status : Status) (reason : Option String) (now : ℕ)
      → is_pending status ≡ false
      → (w : World) → P w
      → P (record w { queue = (mark_status view.id status reason now tok w.queue).1 })
  pub logged : (table : List MergeAttempt) (w : World) → P w → P (record w { attempts = table })
  pub counted : (c : Counts) (w : World) → P w → P (record w { counts = c })
  pub called :
      (call : MergeCall)
      → Authorised env view call
      → (w : World) → P w
      → P (record w { merge_calls = w.merge_calls ++ (call ∷ []) })
  pub others :
      (m : Queue → Queue) → FromEnv env m → (w : World) → P w → P (record w { queue = m w.queue })

module _ {P : World → Type 0} {env : Env} {view : Row} {tok : Option String}
    (parts : Parts P env view tok) where
  pub release-Preserves :
      (at : ℕ) (reason detail : Option String) (now : ℕ)
      → Preserves P (write_back (release_claim view.id at reason detail tok now))
  unfolding write_back
  release-Preserves at reason detail now = record { left = parts.released at reason detail now }

  pub mark_succeeded-Preserves :
      (reason : Option String) (now : ℕ)
      → Preserves P (write_back (mark_succeeded view.id reason now tok))
  unfolding write_back mark_succeeded
  mark_succeeded-Preserves reason now = record { left = parts.marked succeeded reason now refl }

  pub mark_terminal-Preserves :
      (reason : String) (now : ℕ) → Preserves P (write_back (mark_terminal view.id reason now tok))
  unfolding write_back mark_terminal
  mark_terminal-Preserves reason now = record {
    left = parts.marked failed_terminal (some reason) now refl;
  }

  pub mark_expired-Preserves :
      (reason : Option String) (now : ℕ)
      → Preserves P (write_back (mark_expired view.id reason now tok))
  unfolding write_back mark_expired
  mark_expired-Preserves reason now = record { left = parts.marked expired reason now refl }

  pub mark_abandoned-Preserves :
      (reason : String) (now : ℕ) → Preserves P (write_back (mark_abandoned view.id reason now tok))
  unfolding write_back mark_abandoned
  mark_abandoned-Preserves reason now = record {
    left = parts.marked abandoned (some reason) now refl;
  }

  pub count_up-Preserves : (f : Counts → Counts) → Preserves P (count_up f)
  unfolding count_up
  count_up-Preserves f = record { left = λ w h. parts.counted (f w.counts) w h }

  pub log_failure-Preserves :
      (v : Row) (threshold : ℤ) (reason : Option String)
      → Preserves P (log_failure v threshold reason)
  unfolding log_failure log_attempt
  log_failure-Preserves v threshold reason = record { left = λ w h. parts.logged _ w h }

  pub log_merged-Preserves :
      (e : Env) (v : Row) (threshold : ℤ) → Preserves P (log_merged e v threshold)
  unfolding log_merged log_attempt
  log_merged-Preserves e v threshold = record { left = λ w h. parts.logged _ w h }

  await-Preserves : {A : Type 0} (r : Reply A) → FromEnv env r.meanwhile → Preserves P (await r)
  unfolding await
  await-Preserves r from = record { left = λ w h. parts.others r.meanwhile from w h }

  ignored-Preserves :
      (bot chat : String) (notice : Notice)
      → Preserves P (ignore_send_error (await (env.telegram_post_message bot chat notice)))
  unfolding ignore_send_error await
  ignored-Preserves bot chat notice = record {
    left = λ w h. parts.others _ (from_telegram bot chat notice) w h;
  }

  post_notice-Preserves :
      (v : Row) (cfg : RepoConfigData) (notice : Notice)
      → Preserves P (post_notice env v cfg notice)
  unfolding post_notice
  post_notice-Preserves v cfg notice = search (preserves_rules, ignored-Preserves)

  pub notify_config_changed-Preserves :
      (v : Row) (cfg : RepoConfigData) → Preserves P (notify_config_changed env v cfg)
  unfolding notify_config_changed
  notify_config_changed-Preserves v cfg = post_notice-Preserves v cfg _

  pub notify_merge_succeeded-Preserves :
      (v : Row) (cfg : RepoConfigData) → Preserves P (notify_merge_succeeded env v cfg)
  unfolding notify_merge_succeeded
  notify_merge_succeeded-Preserves v cfg = post_notice-Preserves v cfg _

  pub notify_merge_terminal-Preserves :
      (v : Row) (cfg : RepoConfigData) (reason : Option String) (tag : String)
      → Preserves P (notify_merge_terminal env v cfg reason tag)
  unfolding notify_merge_terminal
  notify_merge_terminal-Preserves v cfg reason tag = post_notice-Preserves v cfg _

  pub create_failure_issue_safe-Preserves :
      (token : String) (v : Row) → Preserves P (create_failure_issue_safe env token v)
  unfolding create_failure_issue_safe
  create_failure_issue_safe-Preserves token v = record {
    left = λ w h. parts.others _ (from_issue _ _ _) w h;
  }

  pub get_pr_data-Preserves : (token : String) (v : Row) → Preserves P (get_pr_data env token v)
  unfolding get_pr_data
  get_pr_data-Preserves token v = record { left = λ w h. parts.others _ (from_pull _ _ _) w h }

  status-Preserves :
      (token repo sha : String) (required : Option (List String))
      → Preserves P (unknown_if_unsent (await (env.get_ci_status token repo sha required)))
  unfolding unknown_if_unsent await
  status-Preserves token repo sha required = record {
    left = λ w h. parts.others _ (from_status token repo sha required) w h;
  }

  pub get_ci_status_safe-Preserves :
      (token : String) (v : Row) (ref : String) → Preserves P (get_ci_status_safe env token v ref)
  unfolding get_ci_status_safe
  get_ci_status_safe-Preserves token v ref =
      search (preserves_rules, await-Preserves, from_contexts, status-Preserves)
