-- ===== src/Gate/Kept.antt =====
-- The parts of the gate's automatic merge that make no merge and no review keep what holds of the calls.
use Prim.Native.String.{◌++◌}
use scamanager.Prelude.{
  ℕ, ◌≡◌, refl, ◌⊎◌, inl, inr, String, Option, none, some, Bool, true, false, List, [], ◌∷◌,
  Bool-cases,
}
use scamanager.Prelude.Int.{ℤ}
use scamanager.Prelude.Text.{is_empty}
use scamanager.Prelude.Effects.{Answer, ◌>>◌, pure}
use scamanager.Prelude.Preserves.{Preserves, Preserves-pure, Preserves-if, Preserves-bind}
use scamanager.MergeReasons.{is_retriable_tag}
use scamanager.RetryPolicy.Defs.{parse_reason_tag, should_retry}
use scamanager.MergeMetrics.{MergeAttempt}
use scamanager.MergeAttempts.Defs.{legacy}
use scamanager.Gate.World.{
  Call, get_pull, put_merge, enable_auto_merge, post_review, send_telegram, create_issue,
  get_required_checks, get_checks, list_filenames, list_files, post_comment, ask_verifier, GateEnv,
  GateWorld, Gate, call,
}
use scamanager.Gate.GithubReview.{or_default, or_else, get_pr_base_ref}
use scamanager.Gate.NativeAutomerge.{MergeOutcome}
use scamanager.Gate.Guards.{
  on_any_error, sensitive_paths_block_merge, verifier_blocks_merge, withhold, holds_back,
  listed_names, prepare, judge, ask, verify_merge_safety, should_verify, is_cleared,
  sensitive_paths_in, Prepared, unprepared, over_cap, prompted,
}
use scamanager.Gate.Engine.{
  Job, log_for, notify_merge_failure, notify_merge_deferred, create_failure_issue,
  handle_terminal_merge_failure, ci_status_safe, enqueue, enqueue_and_notify, enqueue_merge_retry,
  deferral_of, log_success, defer_or_end, after_outcome, has_no_chat, is_native, on_listed_error,
}
use scamanager.Gate.Binding.{Calls, on_send_error-Kept}

-- A call that is no merge and no review.
abbrev pub IsFree : Call → Type 0
IsFree (put_merge r p s) = ⊥
IsFree (enable_auto_merge node s) = ⊥
IsFree (post_review r p e s) = ⊥
IsFree c = Unit {0}

-- A SHA that a row may be queued under: the analysed one if it is known.
abbrev pub IsKey : Option String → String → Type 0
IsKey analyzed sha = (is_empty (or_default analyzed "") ≡ true) ⊎ (sha ≡ or_default analyzed "")

or_else-IsKey :
    (analyzed : Option String) (other : String)
    → IsKey analyzed (or_else (or_default analyzed "") other)
or_else-IsKey analyzed other = elim (Bool-cases (is_empty (or_default analyzed ""))) [
  | inl e ↦ inl e
  | inr f ↦ inr (rw f refl)
]

-- What the gate's calls, records and deferrals keep.
pub record Keeps (env : GateEnv) (job : Job) (K : GateWorld → Type 0) (Fine : Call → Type 0)
    : Type 1 where
  pub calls : Calls env K Fine
  pub logs : (w : GateWorld) (table : List MergeAttempt) → K w → K (record w { attempts = table })
  pub defers :
      (a : ℕ) (sha : String)
      → IsKey job.analyzed_sha sha
      → Preserves K (enqueue env (deferral_of env job a sha))

module _ (env : GateEnv) (job : Job) (K : GateWorld → Type 0) (Fine : Call → Type 0)
    (keeps : Keeps env job K Fine) (free : (c : Call) → IsFree c → Fine c) where
  abbrev pub Kept : {A : Type 0} → Gate A → Type 0
  Kept m = Preserves K m

  pub call-Kept :
      {A : Type 0} (c : Call) (reply : ℕ → Answer A) → IsFree c → Kept (call env c reply)
  call-Kept c reply h = keeps.calls.keep c reply (free c h)

  pub on_any_error-Kept :
      {A : Type 0} (other : A) (m : Gate A) → Kept m → Kept (on_any_error other m)
  unfolding on_any_error
  on_any_error-Kept other m kept = record { left = λ w h. kept.left w h }

  pub on_listed_error-Kept : (m : Gate (Unit {0})) → Kept m → Kept (on_listed_error env m)
  unfolding on_listed_error
  on_listed_error-Kept m kept = record { left = λ w h. kept.left w h }

  pub log_for-Kept :
      (success : Bool) (reason : Option String) (state : String) (enabled_at : Option ℕ)
      → Kept (log_for job success reason state enabled_at)
  unfolding log_for
  log_for-Kept success reason state enabled_at = by_id job.analysis_id
    where
      by_id :
          (i : Option ℕ)
          → Kept (log_for (record job { analysis_id = i }) success reason state enabled_at)
      by_id none = record { left = λ w h. h }
      by_id (some a) = record { left = λ w h. keeps.logs w _ h }

  pub telegram-Kept : (chat : String) → Kept (call env (send_telegram chat) env.done)
  telegram-Kept chat = call-Kept (send_telegram chat) env.done tt

  -- The notice of a failure and the issue about it.
  pub notified-Kept : Kept (notify_merge_failure env job >> create_failure_issue env job)
  unfolding notify_merge_failure create_failure_issue
  notified-Kept =
      Preserves-bind _ _
        (Preserves-if (has_no_chat env job) _ _ (λ _. Preserves-pure tt)
          (λ _. on_send_error-Kept tt _ (telegram-Kept _)))
        λ _.
          Preserves-if job.config.auto_merge_issue_on_failure _ _
            (λ _. on_any_error-Kept tt _ (call-Kept (create_issue job.repo job.pr) env.done tt))
            (λ _. Preserves-pure tt)

  failed-Kept : (reason : Option String) → Kept (handle_terminal_merge_failure env job reason)
  unfolding handle_terminal_merge_failure
  failed-Kept reason = Preserves-bind _ _ (log_for-Kept _ _ _ _) (λ _. notified-Kept)

  enqueue_and_notify-Kept :
      (a : ℕ) (sha : String)
      → IsKey job.analyzed_sha sha
      → Kept (enqueue_and_notify env job (deferral_of env job a sha))
  unfolding enqueue_and_notify notify_merge_deferred
  enqueue_and_notify-Kept a sha key =
      Preserves-bind (enqueue env (deferral_of env job a sha)) _ (keeps.defers a sha key)
        λ is_first.
          Preserves-if is_first _ _
            (λ _.
              Preserves-if (has_no_chat env job) _ _ (λ _. Preserves-pure tt)
                (λ _. on_any_error-Kept tt _ (telegram-Kept _)))
            (λ _. Preserves-pure tt)

  enqueue_merge_retry-Kept :
      (sha tag : String) → IsKey job.analyzed_sha sha → Kept (enqueue_merge_retry env job sha tag)
  unfolding enqueue_merge_retry
  enqueue_merge_retry-Kept sha tag key = by_id job.analysis_id
    where
      by_id :
          (i : Option ℕ)
          → Kept (elim i as (λ _. Gate (Unit {0})) [
            | none ↦ pure tt
            | some a ↦ (do
              log_for job false (some (tag ++ (":" ++ "deferred"))) legacy none
              on_any_error tt (enqueue_and_notify env job (deferral_of env job a sha)))
          ])
      by_id none = Preserves-pure tt
      by_id (some a) =
          Preserves-bind _ _ (log_for-Kept _ _ _ _)
            λ _. on_any_error-Kept tt _ (enqueue_and_notify-Kept a sha key)

  ci_status_safe-Kept : (repo sha base : String) → Kept (ci_status_safe env repo sha base)
  unfolding ci_status_safe
  ci_status_safe-Kept repo sha base =
      Preserves-bind _ _ (call-Kept (get_required_checks repo base) _ tt)
        λ required. on_send_error-Kept "unknown" _ (call-Kept (get_checks repo sha _) _ tt)

  pub get_pr_base_ref-Kept : (repo : String) (pr : ℕ) → Kept (get_pr_base_ref env repo pr)
  unfolding get_pr_base_ref
  get_pr_base_ref-Kept repo pr =
      on_send_error-Kept "main" _
        (Preserves-bind _ _ (call-Kept (get_pull repo pr) _ tt) (λ d. Preserves-pure _))

  pub after_outcome-Kept :
      (merge_sha : String) (o : MergeOutcome) → Kept (after_outcome env job merge_sha o)
  unfolding after_outcome log_success defer_or_end
  after_outcome-Kept merge_sha o =
      Preserves-if o.ok _ _
        (λ _.
          Preserves-if (is_native o) _ _ (λ _. log_for-Kept _ _ _ _) (λ _. log_for-Kept _ _ _ _))
        λ _.
          Preserves-if (is_retriable_tag (parse_reason_tag o.reason)) _ _
            (λ _. Preserves-bind _ _ (get_pr_base_ref-Kept job.repo job.pr) λ base.
              Preserves-bind _ _ (ci_status_safe-Kept job.repo _ base) λ ci.
                Preserves-if (should_retry (parse_reason_tag o.reason) ci) _ _
                  (λ _. enqueue_merge_retry-Kept _ _ (or_else-IsKey job.analyzed_sha _))
                  (λ _. failed-Kept o.reason))
            (λ _. failed-Kept o.reason)

  withhold-Kept : (repo : String) (pr : ℕ) (why : String) → Kept (withhold env repo pr why)
  unfolding withhold
  withhold-Kept repo pr why =
      Preserves-bind _ _ (on_any_error-Kept tt _ (call-Kept (post_comment repo pr why) env.done tt))
        (λ _. Preserves-pure true)

  pub sensitive_paths-Kept :
      (repo : String) (pr : ℕ) → Kept (sensitive_paths_block_merge env repo pr)
  unfolding sensitive_paths_block_merge listed_names
  sensitive_paths-Kept repo pr =
      Preserves-if env.settings.sensitive_path_guard_disabled _ _ (λ _. Preserves-pure false)
        λ _.
          Preserves-bind _ _
            (on_any_error-Kept none _ (
              Preserves-bind _ _ (call-Kept (list_filenames repo pr) _ tt)
                (λ names. Preserves-pure _)))
            by_names
    where
      by_hits :
          (hits : List String)
          → Kept (elim hits as (λ _. Gate Bool) [
            | [] ↦ pure false
            | _ ∷ _ ↦ withhold env repo pr "sensitive_path_hold"
          ])
      by_hits [] = Preserves-pure false
      by_hits (x ∷ xs) = withhold-Kept repo pr "sensitive_path_hold"

      by_names : (o : Option (List String)) → Kept (holds_back env repo pr o)
      by_names none = Preserves-pure true
      by_names (some names) = by_hits (sensitive_paths_in env.is_sensitive names)

  judge-Kept : (p : Prepared) → Kept (judge env p)
  unfolding judge ask
  judge-Kept unprepared = Preserves-pure _
  judge-Kept over_cap = Preserves-pure _
  judge-Kept (prompted prompt) =
      on_any_error-Kept _ _
        (Preserves-bind _ _ (call-Kept (ask_verifier prompt) _ tt) (λ text. Preserves-pure _))

  pub verifier-Kept :
      (repo : String) (pr : ℕ) (score merge_threshold : ℤ)
      → Kept (verifier_blocks_merge env repo pr score merge_threshold)
  unfolding verifier_blocks_merge verify_merge_safety prepare
  verifier-Kept repo pr score merge_threshold =
      Preserves-if (should_verify env score merge_threshold) _ _
        (λ _.
          Preserves-bind _ _
            (Preserves-bind _ _
              (on_any_error-Kept unprepared _ (
                Preserves-bind _ _ (call-Kept (list_files repo pr) _ tt)
                  (λ patches. Preserves-pure _)))
              judge-Kept)
            λ v.
              Preserves-if (is_cleared v) _ _ (λ _. Preserves-pure false)
                (λ _. withhold-Kept repo pr _))
        (λ _. Preserves-pure false)
