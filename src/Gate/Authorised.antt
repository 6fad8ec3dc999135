-- ===== src/Gate/Authorised.antt =====
-- Every merge and every review that the gate asks for is authorised.
use scamanager.Prelude.{
  ℕ, ◌≡◌, refl, ap, ◌∙◌, inl, inr, String, Option, Bool, true, false, ◌&&◌, Bool-cases,
}
use scamanager.Prelude.Int.{pos}
use scamanager.Prelude.Text.{is_empty}
use scamanager.Prelude.Effects.{Answer, returned, ◌>>=◌}
use scamanager.Prelude.Preserves.{
  Preserves, Preserves-pure, Preserves-if, Preserves-bind, Preserves-bind_when,
}
use scamanager.MergeMetrics.{or_none}
use scamanager.Gate.World.{Call, GateEnv, GateWorld, Gate}
use scamanager.Gate.GithubReview.{or_default, or_else}
use scamanager.Gate.Guards.{sensitive_paths_block_merge}
use scamanager.Gate.Engine.{
  Job, has_drifted, merge_at, run_auto_merge_retry, log_legacy, run_auto_merge_legacy, is_eligible,
  merge_unless_blocked, verify_and_merge, run_auto_merge, is_native,
}
use scamanager.Gate.Clearance.{PathsPassed, sensitive_paths-IsDecided, IsDecided}
use scamanager.Gate.Verified.{VerifierPassed, verifier_blocks_merge-IsDecided}
use scamanager.Gate.Binding.{Allows, look-Bound, IsExpected, enable_or_fallback-Bound}
use scamanager.Gate.Kept.{
  IsFree, Keeps, on_listed_error-Kept, log_for-Kept, after_outcome-Kept, sensitive_paths-Kept,
  verifier-Kept, notified-Kept,
}

-- What is given as the expected SHA, where it is not empty.
given : (x : String) → is_empty x ≡ false → or_default (or_none x) "" ≡ x
given x f = rw f refl

given_IsExpected : (x sha : String) → is_empty x ≡ false → IsExpected (or_none x) sha → sha ≡ x
given_IsExpected x sha f (there, inl h) = absurd (cc (f, h, ap is_empty (given x f)))
given_IsExpected x sha f (there, inr h) = h ∙ given x f

same-IsExpected :
    (analyzed : Option String) (sha : String)
    → IsExpected (or_none (or_default analyzed "")) sha
    → IsExpected analyzed sha
same-IsExpected analyzed sha h = elim (Bool-cases (is_empty (or_default analyzed ""))) [
  | inl e ↦ (h.0, inl e)
  | inr f ↦ (h.0, inr (given_IsExpected _ sha f h))
]

-- A SHA that `or_none (or_else a b)` expects is one that `a` expects.
narrowed :
    (analyzed : Option String) (head sha : String)
    → IsExpected (or_none (or_else (or_default analyzed "") head)) sha
    → IsExpected analyzed sha
narrowed analyzed head sha h = elim (Bool-cases (is_empty (or_default analyzed ""))) [
  | inl e ↦ (h.0, inl e)
  | inr f ↦ same-IsExpected analyzed sha (rw f at h)
]

widen :
    {P Q : String → Type 0} {repo : String} {pr : ℕ} {Fine : Call → Type 0}
    → ((sha : String) → Q sha → P sha)
    → Allows P repo pr Fine
    → Allows Q repo pr Fine
widen implied a = record {
  looks = a.looks;
  merges = λ sha q. a.merges sha (implied sha q);
  enables = λ node sha q. a.enables node sha (implied sha q);
}

module _ (env : GateEnv) (job : Job) where
  -- What has passed before a merge.
  abbrev pub MayMerge : Type 0
  MayMerge =
      (is_eligible job ≡ true)
      × PathsPassed env job.repo job.pr
      × VerifierPassed env job.repo job.pr (pos job.score) job.config.merge_threshold

module _ (env : GateEnv) (job : Job) (K : GateWorld → Type 0) (Fine : Call → Type 0)
    (keeps : Keeps env job K Fine) (free : (c : Call) → IsFree c → Fine c) where
  module _ (allows : Allows (IsExpected job.analyzed_sha) job.repo job.pr Fine) where
    run_auto_merge_retry-Kept : Preserves K (run_auto_merge_retry env job)
    unfolding run_auto_merge_retry merge_at
    run_auto_merge_retry-Kept =
        Preserves-bind _ _
          (look-Bound env (IsExpected job.analyzed_sha) job.repo job.pr Fine allows K keeps.calls)
          λ seen.
            Preserves-if (has_drifted job seen.head_sha) _ _ (λ _. Preserves-pure tt)
              λ _.
                Preserves-bind _ _
                  (enable_or_fallback-Bound env job.repo job.pr _ Fine
                    (widen (narrowed job.analyzed_sha seen.head_sha) allows) K keeps.calls)
                  (after_outcome-Kept env job K Fine keeps free _)

    run_auto_merge_legacy-Kept : Preserves K (run_auto_merge_legacy env job)
    unfolding run_auto_merge_legacy log_legacy
    run_auto_merge_legacy-Kept =
        Preserves-bind _ _
          (enable_or_fallback-Bound env job.repo job.pr _ Fine
            (widen (same-IsExpected job.analyzed_sha) allows) K keeps.calls)
          λ o.
            Preserves-bind _ _
              (Preserves-if (o.ok && is_native o) _ _
                (λ _. log_for-Kept env job K Fine keeps free _ _ _ _)
                λ _.
                  Preserves-if o.ok _ _ (λ _. log_for-Kept env job K Fine keeps free _ _ _ _)
                    (λ _. log_for-Kept env job K Fine keeps free _ _ _ _))
              λ _.
                Preserves-if o.ok _ _ (λ _. Preserves-pure tt)
                  (λ _. notified-Kept env job K Fine keeps free)

  decided_false :
      (Passed : Type 0) (a : Answer Bool) → IsDecided Passed a → a ≡ returned false → Passed
  decided_false Passed a (inl t) e = absurd (cc (t, e))
  decided_false Passed a (inr (f, passed)) e = passed

  -- Whatever is done after a guard that let the merge pass may use what the guard saw.
  passed_on :
      {A : Type 0} (Passed : Type 0) (guard : Gate Bool) (rest : Bool → Gate A)
      → ((w : GateWorld) → IsDecided Passed (guard w).0)
      → Preserves K guard
      → Preserves K (rest true)
      → (Passed → Preserves K (rest false))
      → Preserves K (guard >>= rest)
  passed_on Passed guard rest decided kept stopped goes_on =
      Preserves-bind_when (IsFor Passed) guard rest (λ w x e. meaning x (guard w).0 (decided w) e)
        kept each
    where
      IsFor : Type 0 → Bool → Type 0
      IsFor P true = Unit {0}
      IsFor P false = P

      meaning : (x : Bool) (a : Answer Bool) → IsDecided Passed a → a ≡ returned x → IsFor Passed x
      meaning true a d e = tt
      meaning false a d e = decided_false Passed a d e

      each : (x : Bool) → IsFor Passed x → Preserves K (rest x)
      each true h = stopped
      each false h = goes_on h

  pub run_auto_merge-Kept :
      (MayMerge env job → Allows (IsExpected job.analyzed_sha) job.repo job.pr Fine)
      → Preserves K (run_auto_merge env job)
  unfolding run_auto_merge verify_and_merge merge_unless_blocked
  run_auto_merge-Kept allowed =
      Preserves-if (is_eligible job) _ _
        (λ eligible.
          passed_on (PathsPassed env job.repo job.pr)
            (sensitive_paths_block_merge env job.repo job.pr) (verify_and_merge env job)
            (sensitive_paths-IsDecided env job.repo job.pr)
            (sensitive_paths-Kept env job K Fine keeps free job.repo job.pr) (Preserves-pure tt)
            λ paths.
              passed_on
                (VerifierPassed env job.repo job.pr (pos job.score) job.config.merge_threshold) _
                (merge_unless_blocked env job)
                (verifier_blocks_merge-IsDecided env job.repo job.pr _ _)
                (verifier-Kept env job K Fine keeps free job.repo job.pr _ _) (Preserves-pure tt)
                λ verified.
                  let a = allowed (eligible, paths, verified) in
                  Preserves-if env.settings.merge_retry_enabled _ _
                    (λ _.
                      on_listed_error-Kept env job K Fine keeps free _
                        (run_auto_merge_retry-Kept a))
                    (λ _.
                      on_listed_error-Kept env job K Fine keeps free _
                        (run_auto_merge_legacy-Kept a)))
        (λ _. Preserves-pure tt)
