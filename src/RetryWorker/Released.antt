-- ===== src/RetryWorker/Released.antt =====
-- A turn that is not disturbed gives its claim up, on every path.
use scamanager.Prelude.{
  ℕ, String, Option, none, some, Bool, true, false, not, ◌||◌, List, ◌≡◌, refl,
}
use scamanager.RetryPolicy.Defs.{parse_reason_tag, should_retry, is_expired}
use scamanager.RetryQueue.Row.{
  Row, Status, is_pending, succeeded, failed_terminal, abandoned, expired,
}
use scamanager.RetryQueue.Claim.{
  release_claim, mark_status, mark_succeeded, mark_terminal, mark_expired, mark_abandoned,
}
use scamanager.RetryWorker.World.{
  World, Step, Env, PrData, MergeCall, Counts, add_abandoned, add_succeeded, add_released, ◌>>=◌,
  ◌>>◌, pure, await, count_up, write_back,
}
use scamanager.Prelude.Preserves.{Preserves}
use scamanager.Prelude.Ends.{Ends, Ends-kept, Ends-pure, Ends-if, Ends-bind, Ends-weaken}
use scamanager.RetryWorker.Parts.{
  Parts, from_merge, count_up-Preserves, log_failure-Preserves, log_merged-Preserves,
  get_pr_data-Preserves, get_ci_status_safe-Preserves,
}
use scamanager.RetryWorker.Turn.{part_rules}
use scamanager.RetryWorker.Defs.{Preflight, get_pr_data}
use scamanager.RetryWorker.Process.{
  is_drifted, settle_before_merge, call_merge_pr, record_merged, record_retry_stop, stop_retrying,
  back_off, handle_merge_failure, merge_or_handle, after_settling, after_preflight,
}

-- Any write of the worker frees the row; the other parts leave a freed row free.
pub record Frees (Fine Freed : World → Type 0) (env : Env) (view : Row) (tok : Option String)
    : Type 0 where
  pub released :
      (at : ℕ) (reason detail : Option String) (now : ℕ) (w : World)
      → Fine w
      → Freed (record w { queue = (release_claim view.id at reason detail tok now w.queue).1 })
  pub marked :
      (status : Status) (reason : Option String) (now : ℕ)
      → is_pending status ≡ false
      → (w : World) → Fine w
      → Freed (record w { queue = (mark_status view.id status reason now tok w.queue).1 })
  pub called :
      (calls : List MergeCall) (w : World) → Fine w → Fine (record w { merge_calls = calls })

module _ {Fine Freed : World → Type 0} {env : Env} {view : Row} {tok : Option String}
    (frees : Frees Fine Freed env view tok) where
  pub release-Ends :
      (at : ℕ) (reason detail : Option String) (now : ℕ)
      → Ends Fine (λ _. Freed) (write_back (release_claim view.id at reason detail tok now))
  unfolding write_back
  release-Ends at reason detail now = record {
    reached = λ w h x e. frees.released at reason detail now w h;
  }

  succeeded-Ends :
      (reason : Option String) (now : ℕ)
      → Ends Fine (λ _. Freed) (write_back (mark_succeeded view.id reason now tok))
  unfolding write_back mark_succeeded
  succeeded-Ends reason now = record {
    reached = λ w h x e. frees.marked succeeded reason now refl w h;
  }

  terminal-Ends :
      (reason : String) (now : ℕ)
      → Ends Fine (λ _. Freed) (write_back (mark_terminal view.id reason now tok))
  unfolding write_back mark_terminal
  terminal-Ends reason now = record {
    reached = λ w h x e. frees.marked failed_terminal (some reason) now refl w h;
  }

  expired-Ends :
      (reason : Option String) (now : ℕ)
      → Ends Fine (λ _. Freed) (write_back (mark_expired view.id reason now tok))
  unfolding write_back mark_expired
  expired-Ends reason now = record { reached = λ w h x e. frees.marked expired reason now refl w h }

  pub abandoned-Ends :
      (reason : String) (now : ℕ)
      → Ends Fine (λ _. Freed) (write_back (mark_abandoned view.id reason now tok))
  unfolding write_back mark_abandoned
  abandoned-Ends reason now = record {
    reached = λ w h x e. frees.marked abandoned (some reason) now refl w h;
  }

module _ {P : World → Type 0} where
  -- A step that keeps what holds, in front of the rest.
  pub keeping :
      {A B : Type 0} {Q : B → World → Type 0} (step : Step A) (rest : A → Step B)
      → Preserves P step
      → ((x : A) → Ends P Q (rest x))
      → Ends P Q (step >>= rest)
  keeping step rest kept then_on = Ends-bind (λ _. P) step rest (Ends-kept step kept) then_on

  -- A step that reaches what is wanted, in front of steps that keep it.
  pub reaching :
      {A B : Type 0} {R : World → Type 0} (step : Step A) (rest : A → Step B)
      → Ends P (λ _. R) step
      → ((x : A) → Preserves R (rest x))
      → Ends P (λ _. R) (step >>= rest)
  reaching {R = R} step rest first kept =
      Ends-bind (λ _. R) step rest first λ x. Ends-kept (rest x) (kept x)

module _ {Fine Freed : World → Type 0} {env : Env} (now : ℕ) (pre : Preflight)
    (frees : Frees Fine Freed env pre.view pre.claim_token)
    (fine : Parts Fine env pre.view pre.claim_token)
    (freed : Parts Freed env pre.view pre.claim_token) where
  -- What the first check says of the row: it has ended, or goes on with data.
  abbrev Settled : Option PrData → Bool → World → Type 0
  Settled o true = Freed
  Settled none false = λ w. ⊥
  Settled (some d) false = Fine

  then_true :
      (o : Option PrData) (f : Counts → Counts) → Ends Freed (Settled o) (count_up f >> pure true)
  then_true o f = keeping _ _ (count_up-Preserves freed f) λ _. Ends-pure true (λ w h. h)

  settle_before_merge-Ends :
      (o : Option PrData) → Ends Fine (Settled o) (settle_before_merge env now pre o)
  unfolding settle_before_merge
  settle_before_merge-Ends none =
      Ends-bind (λ _. Freed) _ _ (release-Ends frees _ _ _ _) λ _. then_true none add_released
  settle_before_merge-Ends (some d) =
      Ends-if d.merged _ _
        (λ _. keeping _ _ (log_merged-Preserves fine env pre.view _) λ _.
          Ends-bind (λ _. Freed) _ _ (succeeded-Ends frees _ _)
            λ _. then_true (some d) add_succeeded)
        (λ _.
          Ends-if (is_drifted pre.view d) _ _
            (λ _. keeping _ _ (log_failure-Preserves fine pre.view _ _) λ _.
              Ends-bind (λ _. Freed) _ _ (abandoned-Ends frees _ _)
                λ _. then_true (some d) add_abandoned)
            (λ _. Ends-pure false (λ w h. h)))

  record_merged-Ends : Ends Fine (λ _. Freed) (record_merged env pre)
  unfolding record_merged
  record_merged-Ends =
      keeping _ _ (log_merged-Preserves fine env pre.view _)
        λ _. succeeded-Ends frees none env.utc_now

  record_retry_stop-Ends :
      (reason : Option String) (tag : String) (terminal : Bool)
      → Ends Fine (λ _. Freed) (record_retry_stop env pre reason tag terminal)
  unfolding record_retry_stop
  record_retry_stop-Ends reason tag terminal =
      keeping _ _ (log_failure-Preserves fine pre.view _ reason) λ _.
        Ends-if terminal _ _ (λ _. terminal-Ends frees tag env.utc_now)
          (λ _. expired-Ends frees (some tag) env.utc_now)

  stop_retrying-Ends :
      (reason : Option String) (tag : String) (terminal : Bool)
      → Ends Fine (λ _. Freed) (stop_retrying env pre reason tag terminal)
  unfolding stop_retrying
  stop_retrying-Ends reason tag terminal =
      reaching _ _ (record_retry_stop-Ends reason tag terminal) λ _. search part_rules

  back_off-Ends :
      (reason : Option String) (tag : String)
      → Ends Fine (λ _. Freed) (back_off env now pre reason tag)
  unfolding back_off
  back_off-Ends reason tag = reaching _ _ (release-Ends frees _ _ _ _) λ _. search part_rules

  handle_merge_failure-Ends :
      (d : PrData) (reason : Option String)
      → Ends Fine (λ _. Freed) (handle_merge_failure env now pre d reason)
  unfolding handle_merge_failure
  handle_merge_failure-Ends d reason =
      keeping _ _ (get_ci_status_safe-Preserves fine pre.token pre.view d.base_ref) λ ci.
        let tag = parse_reason_tag reason in
        let stops = not (should_retry tag ci) in
        Ends-if (stops || is_expired pre.view.created_at now env.settings.merge_retry_max_age_hours)
          (stop_retrying env pre reason tag stops) (back_off env now pre reason tag)
          (λ _. stop_retrying-Ends reason tag stops) (λ _. back_off-Ends reason tag)

  call_merge_pr-Ends : Ends Fine (λ _. Fine) (call_merge_pr env pre)
  unfolding call_merge_pr await
  call_merge_pr-Ends = record {
    reached = λ w h x e. fine.others _ (from_merge _ _ _ _) _ (frees.called _ w h);
  }

  merge_or_handle-Ends : (d : PrData) → Ends Fine (λ _. Freed) (merge_or_handle env now pre d)
  unfolding merge_or_handle
  merge_or_handle-Ends d =
      Ends-bind (λ _. Fine) _ _ call_merge_pr-Ends
        λ outcome.
          Ends-if outcome.0 _ _ (λ _. reaching _ _ record_merged-Ends λ _. search part_rules)
            (λ _. handle_merge_failure-Ends d outcome.1)

  after_settling-Ends :
      (o : Option PrData) (b : Bool)
      → Ends (Settled o b) (λ _. Freed) (after_settling env now pre o b)
  unfolding after_settling
  after_settling-Ends o true = Ends-pure tt (λ w h. h)
  after_settling-Ends none false = record { reached = λ w h x e. absurd h }
  after_settling-Ends (some d) false = merge_or_handle-Ends d

  to_merge-Ends :
      Ends Fine
        (λ _. Freed)
        (do
          pulled ← get_pr_data env pre.token pre.view
          settled ← settle_before_merge env now pre pulled
          after_settling env now pre pulled settled)
  to_merge-Ends = keeping _ _ (get_pr_data-Preserves fine pre.token pre.view) λ pulled.
      Ends-bind (Settled pulled) _ _ (settle_before_merge-Ends pulled) (after_settling-Ends pulled)

  -- A row whose settings have changed is freed before its notice goes out.
  pub after_preflight-Ends :
      Ends
        (λ w. Fine w × (pre.config_changed ≡ true → Freed w))
        (λ _. Freed)
        (after_preflight env now (some pre))
  unfolding after_preflight
  after_preflight-Ends =
      Ends-if pre.config_changed _ _
        (λ e. Ends-weaken _ (λ w h. h.1 e) (Ends-kept _ (search part_rules)))
        (λ e. Ends-weaken _ (λ w h. h.0) to_merge-Ends)
