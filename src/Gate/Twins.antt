-- ===== src/Gate/Twins.antt =====
-- `_get_ci_status_safe` of the gate and of the worker, which the source keeps as two copies.
use scamanager.Prelude.{ℕ, ◌≡◌, refl, ap, String, Option, List, length}
use scamanager.Prelude.Effects.{Answer, returned, send_error, unexpected, continue, ◌>>=◌}
use scamanager.RetryQueue.Row.{Row}
use scamanager.RetryWorker.World.{Env, World, await}
use scamanager.RetryWorker.Defs.{or_absent, unknown_if_unsent, get_ci_status_safe}
use scamanager.Gate.World.{get_checks, GateEnv, GateWorld, call}
use scamanager.Gate.GithubReview.{on_send_error}
use scamanager.Gate.Engine.{ci_status_safe}

module _ (gate : GateEnv) (worker : Env) (token : String) (view : Row)
    (same_status : (n : ℕ) (required : Option (List String))
      → gate.ci_status n view.repo_full_name view.commit_sha required
        ≡ (worker.get_ci_status token view.repo_full_name view.commit_sha required).answer) where
  status_agrees :
      (required : Option (List String)) (w : GateWorld) (v : World)
      → (on_send_error "unknown"
          (call gate
            (get_checks view.repo_full_name view.commit_sha required)
            (λ n. gate.ci_status n view.repo_full_name view.commit_sha required))
          w).0
        ≡ (unknown_if_unsent
            (await (worker.get_ci_status token view.repo_full_name view.commit_sha required))
            v).0
  unfolding on_send_error call unknown_if_unsent await
  status_agrees required w v = ap read (same_status (length w.calls) required)
    where
      read : Answer String → Answer String
      read (returned s) = returned s
      read send_error = returned "unknown"
      read unexpected = unexpected

  -- Where GitHub's answers to the two are the same, whenever they are asked, so is the CI state that the gate
  -- and the worker work with for a queued row, errors included.
  pub ci_status_safe_agrees :
      (base_ref : String)
      → ((n : ℕ)
          → gate.required_check_contexts n view.repo_full_name base_ref
            ≡ (worker.required_check_contexts token view.repo_full_name base_ref).answer)
      → (w : GateWorld) (v : World)
      → (ci_status_safe gate view.repo_full_name view.commit_sha base_ref w).0
        ≡ (get_ci_status_safe worker token view base_ref v).0
  unfolding ci_status_safe get_ci_status_safe call await ◌>>=◌
  ci_status_safe_agrees base_ref same_required w v =
      rw (same_required (length w.calls))
        (by_answer (worker.required_check_contexts token view.repo_full_name base_ref).answer _ _)
    where
      by_answer :
          (a : Answer (List String)) (w1 : GateWorld) (v1 : World)
          → (continue a
              (λ required. on_send_error "unknown" (
                call gate
                  (get_checks view.repo_full_name view.commit_sha (or_absent required))
                  (λ n. gate.ci_status n view.repo_full_name view.commit_sha (or_absent required))))
              w1).0
            ≡ (continue a
                (λ required. unknown_if_unsent (
                  await (
                    worker.get_ci_status token view.repo_full_name view.commit_sha
                      (or_absent required))))
                v1).0
      by_answer (returned required) w1 v1 = status_agrees (or_absent required) w1 v1
      by_answer send_error w1 v1 = refl
      by_answer unexpected w1 v1 = refl
