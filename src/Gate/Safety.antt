-- ===== src/Gate/Safety.antt =====
-- The whole gate: every merge and every review that it asks for is authorised.
use scamanager.Prelude.{
  ℕ, ◌≡◌, refl, ◌∙◌, inl, inr, String, Option, none, some, true, List, [], ◌∷◌, All, filter, str_eq,
  eq_iff,
}
use scamanager.Prelude.Text.{is_empty}
use scamanager.Prelude.Effects.{Answer}
use scamanager.Prelude.Preserves.{
  Preserves, Preserves-pure, Preserves-if, Preserves-bind, Preserves-bind_when,
}
use scamanager.GateDecisions.Defs.{GateDecision}
use scamanager.Gate.World.{
  Call, put_merge, enable_auto_merge, post_review, post_comment, send_telegram, get_pull, GateEnv,
  GateWorld, Gate, call,
}
use scamanager.Gate.GithubReview.{
  or_default, get_pr_mergeable_state, post_bound, post_github_review, Posted, posted, head_moved,
  event_of,
}
use scamanager.RetryQueue.Row.{Queue}
use scamanager.RetryQueue.Invariant.{IsSound}
use scamanager.RetryQueue.Sound.{AreSound, enqueue_or_bump-IsSound}
use scamanager.RetryQueue.Defs.{Deferral, enqueue_or_bump}
use scamanager.Gate.Engine.{enqueue, deferral_of}
use scamanager.Gate.Binding.{AllCalls, call-AllCalls, on_send_error-Kept}
use scamanager.Gate.Kept.{IsFree, on_any_error-Kept}
use scamanager.Gate.Authorised.{run_auto_merge-Kept}
use scamanager.Gate.Kept.{Keeps, IsKey}
use scamanager.Gate.Rules.{
  IsAuthorised, MayReview, free, IsSeen, seen-IsSeen, Deserved, decision-Deserved,
}
use scamanager.Gate.Actions.{
  GateContext, is_unreliable, decision_of, decide, decide_if_posted, review_and_decide, run_auto,
  run_semi_auto, approve, job_of, auto_merge, review_comment, GateAction, review_comment_action,
  approve_action, auto_merge_action, gate_actions, is_applicable, execute, run_actions,
  run_gate_check,
}

module _ (env : GateEnv) (ctx : GateContext) (K : GateWorld → Type 0) (Fine : Call → Type 0)
    (keeps : Keeps env (job_of ctx) K Fine) (fine : (c : Call) → IsAuthorised env ctx c → Fine c)
    (decides : (w : GateWorld) (table : List GateDecision)
      → K w
      → K (record w { decisions = table })) where
  abbrev Held : {A : Type 0} → Gate A → Type 0
  Held m = Preserves K m

  free_call :
      {A : Type 0} (c : Call) (reply : ℕ → Answer A) → IsFree c → Preserves K (call env c reply)
  free_call c reply h = keeps.calls.keep c reply (fine c (free env ctx c h))

  auto_merge-Held : Held (auto_merge env ctx)
  unfolding auto_merge
  auto_merge-Held =
      Preserves-if (is_unreliable ctx.result) _ _ (λ _. Preserves-pure tt)
        λ reliable.
          run_auto_merge-Kept env (job_of ctx) K Fine keeps (λ c h. fine c (free env ctx c h))
            λ may. record {
              looks = fine (get_pull ctx.repo_name ctx.pr_number) tt;
              merges = λ sha h.
                  fine (put_merge ctx.repo_name ctx.pr_number (some sha))
                    (refl, refl, (sha, refl, h), (reliable, may));
              enables = λ node sha h.
                  fine (enable_auto_merge node (some sha)) ((sha, refl, h), (reliable, may));
            }

  look-Held : Held (get_pr_mergeable_state env ctx.repo_name ctx.pr_number)
  unfolding get_pr_mergeable_state
  look-Held =
      Preserves-bind _ _ (free_call (get_pull ctx.repo_name ctx.pr_number) _ tt)
        (λ d. Preserves-pure _)

  post-Held :
      (event : String) (commit_id : Option String)
      → MayReview env ctx event commit_id
      → Held (post_bound env ctx.repo_name ctx.pr_number event commit_id)
  unfolding post_bound
  post-Held event commit_id may =
      Preserves-bind _ _
        (keeps.calls.keep (post_review ctx.repo_name ctx.pr_number event commit_id) env.done
          (fine (post_review ctx.repo_name ctx.pr_number event commit_id) (refl, refl, may)))
        (λ _. Preserves-pure posted)

  review-Held :
      (decision : String)
      → Deserved ctx (event_of decision)
      → Held (post_github_review env ctx.repo_name ctx.pr_number decision ctx.commit_sha)
  unfolding post_github_review
  review-Held decision (mode, reliable, score) =
      Preserves-if (is_empty (or_default ctx.commit_sha "")) _ _
        (λ e. post-Held (event_of decision) none (mode, reliable, score, inl (refl, e)))
        λ _.
          Preserves-bind_when (IsSeen env ctx)
            (get_pr_mergeable_state env ctx.repo_name ctx.pr_number) _ (seen-IsSeen env ctx)
            look-Held
            λ seen (t, d, shown, head).
              Preserves-if (str_eq seen.head_sha (or_default ctx.commit_sha "")) _ _
                (λ same. post-Held (event_of decision) (some (or_default ctx.commit_sha "")) (
                  mode,
                  reliable,
                  score,
                  inr (refl, (t, d, shown, head ∙ (eq_iff seen.head_sha _).0 same)),
                ))
                (λ _. Preserves-pure head_moved)

  decide_if_posted-Held : (decision : String) (p : Posted) → Held (decide_if_posted ctx decision p)
  unfolding decide
  decide_if_posted-Held decision posted = record { left = λ w h. decides w _ h }
  decide_if_posted-Held decision head_moved = Preserves-pure tt

  auto-Held : str_eq ctx.config.approve_mode "auto" ≡ true → Held (run_auto env ctx)
  unfolding run_auto decide review_and_decide
  auto-Held mode =
      Preserves-if (is_unreliable ctx.result) _ _ (λ _. Preserves-pure tt)
        λ reliable.
          Preserves-if (str_eq (decision_of ctx) "skip") _ _
            (λ _. record { left = λ w h. decides w _ h })
            λ decided. on_send_error-Kept tt _ (
              Preserves-bind _ _
                (review-Held (decision_of ctx) (decision-Deserved ctx mode reliable decided))
                (decide_if_posted-Held (decision_of ctx)))

  approve-Held : Held (approve env ctx)
  unfolding approve run_semi_auto
  approve-Held = Preserves-if (str_eq ctx.config.approve_mode "auto") _ _ auto-Held λ _.
      Preserves-if (str_eq ctx.config.approve_mode "semi-auto") _ _
        (λ _.
          Preserves-if (is_unreliable ctx.result) _ _ (λ _. Preserves-pure tt)
            λ _.
              Preserves-if (is_empty (or_default ctx.config.notify_chat_id "")) _ _
                (λ _. Preserves-pure tt)
                λ _. on_send_error-Kept tt _ (free_call (send_telegram _) env.done tt))
        (λ _. Preserves-pure tt)

  execute-Held : (a : GateAction) → Held (execute env ctx a)
  unfolding review_comment
  execute-Held review_comment_action =
      on_send_error-Kept tt _
        (free_call (post_comment ctx.repo_name ctx.pr_number "review") env.done tt)
  execute-Held approve_action = approve-Held
  execute-Held auto_merge_action = auto_merge-Held

  pub run_actions-Held : (actions : List GateAction) → Held (run_actions env ctx actions)
  unfolding run_actions
  run_actions-Held [] = Preserves-pure tt
  run_actions-Held (a ∷ rest) =
      Preserves-bind _ _
        (on_any_error-Kept env (job_of ctx) K Fine keeps (λ c h. fine c (free env ctx c h)) tt _
          (execute-Held a))
        (λ _. run_actions-Held rest)

-- Whatever GitHub, OpenAI and Telegram answer: if the calls so far are authorised, so are all calls after
-- the gate. Each merge is of the analysed pull request, bound to the analysed commit if that is known
-- and to some commit otherwise, after a reliable analysis at a score that the settings merge at, and after
-- both guards let it pass; each review is deserved by its score and bound to the analysed commit,
-- which GitHub has shown as the head, if it is known.
pub run_gate_check-Authorised :
    (env : GateEnv) (ctx : GateContext) (w : GateWorld)
    → All (IsAuthorised env ctx) w.calls
    → All (IsAuthorised env ctx) (run_gate_check env ctx w).1.calls
unfolding run_gate_check
run_gate_check-Authorised env ctx w h =
    (run_actions-Held env ctx (AllCalls (IsAuthorised env ctx)) (IsAuthorised env ctx)
        (record {
          calls = record {
            keep = λ c reply fine. call-AllCalls (IsAuthorised env ctx) env c reply fine;
          };
          logs = λ v table held. held;
          defers = λ a sha key. unfold enqueue in record { left = λ v held. held };
        })
        (λ c fine. fine) (λ v table held. held)
        (filter (is_applicable ctx.config) gate_actions)).left
      w h

-- A deferral of the analysed pull request, under the analysed commit if that is known.
abbrev pub IsDeferralOf : GateEnv → GateContext → Deferral → Type 0
IsDeferralOf env ctx d =
    (a : ℕ) × (sha : String) × (d ≡ deferral_of env (job_of ctx) a sha) × IsKey ctx.commit_sha sha

-- Whatever is answered, the gate writes nothing to the retry queue but such deferrals: what holds of the
-- queue before it, and is kept by other sessions and by such deferrals, holds after it.
pub run_gate_check_queue :
    (env : GateEnv) (ctx : GateContext) (P : Queue → Type 0)
    → ((n : ℕ) (q : Queue) → P q → P (env.meanwhile n q))
    → ((d : Deferral) (q : Queue)
        → IsDeferralOf env ctx d
        → P q
        → P (enqueue_or_bump d env.utc_now env.utc_now env.others q).1)
    → (w : GateWorld) → P w.queue
    → P (run_gate_check env ctx w).1.queue
unfolding run_gate_check
run_gate_check_queue env ctx P others deferred w h =
    (run_actions-Held env ctx (λ v. P v.queue) (λ _. Unit {0})
        (record {
          calls = record {
            keep = λ c reply fine. unfold call in record { left = λ v held. others _ _ held };
          };
          logs = λ v table held. held;
          defers = λ a sha key.
              unfold enqueue in record { left = λ v held. deferred _ _ (a, sha, refl, key) held };
        })
        (λ c fine. tt) (λ v table held. held) (filter (is_applicable ctx.config) gate_actions)).left
      w h

-- The gate keeps the retry queue sound, whatever is answered, if the other sessions do.
pub run_gate_check-IsSound :
    (env : GateEnv) (ctx : GateContext)
    → ((n : ℕ) (q : Queue) → IsSound q → IsSound (env.meanwhile n q))
    → AreSound env.others
    → (w : GateWorld) → IsSound w.queue
    → IsSound (run_gate_check env ctx w).1.queue
run_gate_check-IsSound env ctx others sound w h =
    run_gate_check_queue env ctx IsSound others
      (λ d q right ok. enqueue_or_bump-IsSound d env.utc_now env.utc_now env.others sound ok) w h
