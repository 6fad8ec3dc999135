-- ===== src/RetryWorker/Progress.antt =====
-- A turn that is not disturbed gives its claim up, on every path.
use mathlib.Core.Path.{subst₂}
use scamanager.Prelude.{
  ℕ, String, Option, none, some, Bool, true, false, leb, ◌≡◌, ◌≢◌, refl, sym, ◌∙◌, subst, inl, inr,
  Bool-cases, Option-cases,
}
use scamanager.RetryQueue.Row.{Queue, Row, is_pending}
use scamanager.RetryQueue.Defs.{get}
use scamanager.RetryQueue.Lookup.{get-mem}
use scamanager.RetryQueue.Claim.{mark_abandoned}
use scamanager.RetryWorker.World.{
  Answer, returned, send_error, unexpected, World, Env, add_abandoned, ◌>>◌, pure, count_up,
  write_back,
}
use scamanager.Prelude.Ends.{Ends, Ends-pure, Ends-if, Ends-bind}
use scamanager.RetryWorker.Parts.{Parts, count_up-Preserves, log_failure-Preserves}
use scamanager.RetryWorker.Turn.{process_single_retry-Preserves}
use scamanager.RetryWorker.Released.{
  Frees, release-Ends, abandoned-Ends, keeping, after_preflight-Ends,
}
use scamanager.RetryWorker.Outcome.{
  IsHeld, IsFreed, IsFine, LeavesRow, release-frees, mark-frees, IsFine-Parts, IsFreed-Parts,
}
use scamanager.RetryWorker.Defs.{
  Preflight, config_is_changed, check_config, preflight_retry, log_failure, resolve_github_token,
}
use scamanager.RetryWorker.Process.{
  after_preflight, process_single_retry, recover_and_release, turn_result, process_turn,
}

module _ {Fine Freed : World → Type 0} {env : Env} (now : ℕ) {view : Row} {tok : Option String}
    (frees : Frees Fine Freed env view tok) (fine : Parts Fine env view tok)
    (freed : Parts Freed env view tok) where
  -- After the first stage the row is freed, or it goes on as itself.
  abbrev Passed : Option Preflight → World → Type 0
  Passed none w = Freed w
  Passed (some pre) w =
      (pre.view ≡ view) × (pre.claim_token ≡ tok) × Fine w × (pre.config_changed ≡ true → Freed w)

  check_config-Ends :
      (freed_fine : (w : World) → Freed w → Fine w) (token : String)
      → Ends Fine Passed (check_config env view tok token)
  unfolding check_config
  check_config-Ends freed_fine token =
      Ends-if (config_is_changed view (env.repo_config view.repo_full_name)) _ _
        (λ e. keeping _ _ (log_failure-Preserves fine view _ _) λ _.
          Ends-bind (λ _. Freed) _ _ (abandoned-Ends frees _ _)
            λ _. Ends-pure _ (λ w h. (refl, refl, freed_fine w h, λ _. h)))
        (λ e. Ends-pure _ (λ w h. (refl, refl, h, λ f. cc (e, f))))

  over_cap-Ends : Ends Fine Passed (do
    log_failure view view.threshold_at_enqueue (some "max_attempts_exceeded")
    write_back (mark_abandoned view.id "max_attempts_exceeded" env.utc_now tok)
    count_up add_abandoned
    pure none)
  over_cap-Ends = keeping _ _ (log_failure-Preserves fine view _ _) λ _.
      Ends-bind (λ _. Freed) _ _ (abandoned-Ends frees _ _)
        λ _. keeping _ _ (count_up-Preserves freed _) λ _. Ends-pure none (λ w h. h)

  preflight_retry-Ends :
      (freed_fine : (w : World) → Freed w → Fine w)
      → Ends Fine Passed (preflight_retry env now view tok)
  unfolding preflight_retry
  preflight_retry-Ends freed_fine =
      elim (Option-cases (resolve_github_token env view.repo_full_name)) [
        | inl t ↦
            rw (t, preflight_retry)
              (Ends-if (leb view.max_attempts view.attempts_count) _ _ (λ _. over_cap-Ends)
                (λ _.
                  Ends-bind (λ _. Freed) _ _ (release-Ends frees _ _ _ _)
                    λ _. keeping _ _ (count_up-Preserves freed _) λ _. Ends-pure none (λ w h. h)))
        | inr (token, t) ↦
            rw (t, preflight_retry)
              (Ends-if (leb view.max_attempts view.attempts_count) _ _ (λ _. over_cap-Ends)
                (λ _. check_config-Ends freed_fine token))
      ]

  pub process_single_retry-Ends :
      (freed_fine : (w : World) → Freed w → Fine w)
      → Ends Fine (λ _. Freed) (process_single_retry env now view tok)
  unfolding process_single_retry
  process_single_retry-Ends freed_fine = Ends-bind Passed _ _ (preflight_retry-Ends freed_fine) go
    where
      go : (o : Option Preflight) → Ends (Passed o) (λ _. Freed) (after_preflight env now o)
      go none = unfold after_preflight in Ends-pure tt (λ w h. h)
      go (some pre) = record {
        reached = λ w (v, t, ok, changed) x e.
            (after_preflight-Ends now pre (subst₂ (Frees Fine Freed env) (sym v) (sym t) frees)
                (subst₂ (Parts Fine env) (sym v) (sym t) fine)
                (subst₂ (Parts Freed env) (sym v) (sym t) freed)).reached
              w (ok, changed) x e;
      }

same_row_found : {o : Option Row} {r s : Row} → o ≡ some r → o ≡ some s → r ≡ s
same_row_found e f = some_eq (sym e ∙ f)
  where
    some_eq : {r s : Row} → some r ≡ some s → r ≡ s
    some_eq e = cc

module _ (row_id : ℕ) (tok : String) (q : Queue) where
  in_table : IsFine row_id tok q → get q row_id ≢ none
  in_table (inl (sound, (r, found, held, live))) e = cc
  in_table (inr (sound, (r, found, free))) e = cc

  -- A fine row that has ended is free.
  ended_free :
      {r : Row}
      → get q row_id ≡ some r
      → is_pending r.status ≡ false
      → IsFine row_id tok q
      → IsFreed row_id q
  ended_free e ended (inl (sound, (s, found, held, live))) =
      absurd (
        clash (subst (λ (x : Row). is_pending x.status ≡ false) (same_row_found e found) ended)
          live)
    where
      clash : {b : Bool} → b ≡ false → b ≡ true → ⊥
      clash f t = cc
  ended_free e ended (inr h) = h

module _ (env : Env) (now row_id : ℕ) (tok : String) where
  recover-frees :
      (reason : String) (w : World)
      → IsFine row_id tok w.queue
      → IsFreed row_id (recover_and_release env now row_id reason (some tok) w).queue
  unfolding recover_and_release
  recover-frees reason w h = elim (Option-cases (get w.queue row_id)) [
    | inl e ↦ absurd (in_table row_id tok w.queue h e)
    | inr (row, e) ↦ elim (Bool-cases (is_pending row.status)) [
      | inl s ↦
          rw (e, s, recover_and_release, (get-mem w.queue row_id e).1)
            (release-frees row_id tok _ _ _ _ w.queue h)
      | inr s ↦ rw (e, s, recover_and_release) (ended_free row_id tok w.queue e s h)
    ]
  ]

  turn_result-frees :
      (r : Answer (Unit {0}) × World)
      → IsFine row_id tok r.1.queue
      → ((x : Unit {0}) → r.0 ≡ returned x → IsFreed row_id r.1.queue)
      → IsFreed row_id (turn_result env now row_id (some tok) r).queue
  unfolding turn_result
  turn_result-frees (returned u, w) h got = got u refl
  turn_result-frees (send_error, w) h got = recover-frees _ w h
  turn_result-frees (unexpected, w) h got = recover-frees _ w h

-- Every write of the worker frees the row that it holds.
IsFine-Frees :
    (env : Env) (view : Row) (tok : String)
    → Frees (λ w. IsFine view.id tok w.queue) (λ w. IsFreed view.id w.queue) env view (some tok)
IsFine-Frees env view tok = record {
  released = λ at reason detail now w h. release-frees view.id tok at reason detail now w.queue h;
  marked = λ status reason now ends w h. mark-frees view.id tok status reason now w.queue ends h;
  called = λ calls w h. h;
}

-- A turn of a worker that holds the claim of its pending row, in a sound table, always ends with the
-- row in the table and free of any claim, whatever
-- GitHub and Telegram answer and whatever raises, if the other sessions keep the table sound and leave
-- the row as it is meanwhile.
pub process_turn_frees :
    (env : Env) (now row_id : ℕ) (tok : String) (w : World)
    → LeavesRow row_id env
    → IsHeld row_id tok w.queue
    → IsFreed row_id (process_turn env now row_id (some tok) w).queue
unfolding process_turn
process_turn_frees env now row_id tok w leaves (sound, (view, found, held, live)) =
    rw (found, process_turn)
      (turn_result-frees env now row_id tok _
        (subst (λ (n : ℕ). IsFine n tok (process_single_retry env now view (some tok) w).1.queue)
          same ((process_single_retry-Preserves env now view (some tok) fine).left w start))
        (λ x e.
          subst (λ (n : ℕ). IsFreed n (process_single_retry env now view (some tok) w).1.queue) same
            ((process_single_retry-Ends now (IsFine-Frees env view tok) fine freed
                (λ v h. inr h)).reached
              w start x e)))
  where
    same : view.id ≡ row_id
    same = (get-mem w.queue row_id found).1

    fine : Parts (λ v. IsFine view.id tok v.queue) env view (some tok)
    fine = IsFine-Parts env view tok (subst (λ (n : ℕ). LeavesRow n env) (sym same) leaves)

    freed : Parts (λ v. IsFreed view.id v.queue) env view (some tok)
    freed = IsFreed-Parts env view tok (subst (λ (n : ℕ). LeavesRow n env) (sym same) leaves)

    start : IsFine view.id tok w.queue
    start =
        subst (λ (n : ℕ). IsFine n tok w.queue) (sym same) (inl (sound, (view, found, held, live)))
