-- ===== src/Gate/Clicks.antt =====
-- What a click on a button of the gate keeps, of the calls and of the decisions.
use scamanager.Prelude.{
  ℕ, ◌≡◌, refl, ◌⊎◌, inl, inr, String, Option, none, some, Bool, true, false, List, str_eq, ◌&&◌,
  not, and_left, and_right, Bool-cases,
}
use scamanager.Prelude.Text.{is_empty}
use scamanager.Prelude.Effects.{Answer, returned, send_error, unexpected, pure}
use scamanager.Prelude.Preserves.{Preserves, Preserves-pure, Preserves-if, Preserves-bind}
use scamanager.GateDecisions.Defs.{GateDecision, claim_post_attempt}
use scamanager.GateDecisions.Manual.{Click, claims, leases, posts, releases, click}
use scamanager.Gate.World.{
  Call, post_review, get_pull, send_notice, send_notice, GateEnv, GateWorld, Gate,
}
use scamanager.Gate.GithubReview.{
  or_default, Posted, posted, head_moved, get_pr_mergeable_state, post_bound, post_github_review,
  event_of,
}
use scamanager.Gate.Binding.{Calls, Allows, IsExpected, on_send_error-Kept}
use scamanager.Gate.Engine.{Job, on_listed_error}
use scamanager.Gate.Kept.{Keeps, IsFree}
use scamanager.Gate.Authorised.{MayMerge, run_auto_merge-Kept}
use scamanager.Gate.Actions.{GateContext, is_unreliable, job_of}
use scamanager.Gate.Callback.{
  Analysis, Repository, Records, Press, notify, notify_replay_blocked, release, settle, report,
  after_error, guarded, context_of, merge_approved, after_post, post_claimed, claim_and_post,
  same_user, user_of, pressed, in_repository, on_analysis, handle_gate_callback,
}

-- The commit that a review is bound to: the analysed one, unless that is the empty text.
abbrev pub IsBound : GateContext → Option String → Type 0
IsBound ctx sha =
    ((is_empty (or_default ctx.commit_sha "") ≡ true) × (sha ≡ none))
    ⊎ (sha ≡ some (or_default ctx.commit_sha ""))

-- What a claimed decision may be followed by.
pub record Follows (env : GateEnv) (ctx : GateContext) (decision : String) (Fine : Call → Type 0)
    : Type 0 where
  pub reviews :
      (sha : Option String)
      → IsBound ctx sha
      → Fine (post_review ctx.repo_name ctx.pr_number (event_of decision) sha)
  pub merges :
      str_eq decision "approve" ≡ true
      → is_unreliable ctx.result ≡ false
      → MayMerge env (job_of ctx)
      → Allows (IsExpected ctx.commit_sha) ctx.repo_name ctx.pr_number Fine

-- The row that a click gets to post.
abbrev pub claimed_by : GateEnv → Press → List GateDecision → Option GateDecision
claimed_by env press table =
    (claim_post_attempt press.analysis_id env.utc_now
      (click (claims press.analysis_id press.decision "manual" (some press.decided_by)) table)).0

negated : (b : Bool) → not b ≡ true → b ≡ false
negated true h = cc h
negated false h = refl

module _ (env : GateEnv) (press : Press) (K : GateWorld → Type 0) (Fine : Call → Type 0)
    (calls : Calls env K Fine) (keeps : (job : Job) → Keeps env job K Fine)
    (free : (c : Call) → IsFree c → Fine c)
    (clicked : (c : Click) (w : GateWorld)
      → K w
      → K (record w { decisions = click c w.decisions })) where
  abbrev Kept : {A : Type 0} → Gate A → Type 0
  Kept m = Preserves K m

  notify-Kept : (chat : Option String) (key : String) → Kept (notify env chat key)
  unfolding notify
  notify-Kept none key = Preserves-pure tt
  notify-Kept (some c) key =
      on_send_error-Kept tt _ (calls.keep _ env.done (free (send_notice c key) tt))

  release-Kept : (i : ℕ) → Kept (release i)
  unfolding release click
  release-Kept i = record { left = λ w h. clicked (releases i) w h }

  settle-Kept : (i : ℕ) → Kept (settle i)
  unfolding settle click
  settle-Kept i = record { left = λ w h. clicked (posts i) w h }

  report-Kept : (key : String) → Kept (report env press key)
  unfolding report
  report-Kept key =
      Preserves-bind _ _ (release-Kept press.analysis_id) (λ _. notify-Kept press.chat_id key)

  raised-Kept : (key : String) → Kept (after_error env press key unexpected)
  raised-Kept key =
      Preserves-if env.listed _ _ (λ _. report-Kept key) (λ _. record { left = λ w h. h })

  after_error-Kept :
      (key : String) (answer : Answer (Unit {0})) → Kept (after_error env press key answer)
  after_error-Kept key (returned x) = Preserves-pure x
  after_error-Kept key send_error = report-Kept key
  after_error-Kept key unexpected = raised-Kept key

  guarded-Kept : (key : String) (m : Gate (Unit {0})) → Kept m → Kept (guarded env press key m)
  unfolding guarded
  guarded-Kept key m kept = record {
    left = λ w h. (after_error-Kept key (m w).0).left (m w).1 (kept.left w h);
  }

  module _ (ctx : GateContext) (decision : String) (follows : Follows env ctx decision Fine) where
    post-Kept :
        (sha : Option String)
        → IsBound ctx sha
        → Kept (post_bound env ctx.repo_name ctx.pr_number (event_of decision) sha)
    unfolding post_bound
    post-Kept sha bound =
        Preserves-bind _ _ (calls.keep _ env.done (follows.reviews sha bound))
          (λ _. Preserves-pure posted)

    review-Kept : Kept (post_github_review env ctx.repo_name ctx.pr_number decision ctx.commit_sha)
    unfolding post_github_review get_pr_mergeable_state
    review-Kept =
        Preserves-if (is_empty (or_default ctx.commit_sha "")) _ _
          (λ e. post-Kept none (inl (e, refl)))
          λ _.
            Preserves-bind _ _
              (Preserves-bind _ _ (calls.keep _ _ (free (get_pull ctx.repo_name ctx.pr_number) tt))
                (λ p. Preserves-pure _))
              λ seen.
                Preserves-if (str_eq seen.head_sha (or_default ctx.commit_sha "")) _ _
                  (λ _. post-Kept _ (inr refl)) (λ _. Preserves-pure head_moved)

    merge_approved-Kept : Kept (merge_approved env ctx decision)
    unfolding merge_approved
    merge_approved-Kept =
        Preserves-if
          (str_eq decision "approve" && (ctx.config.auto_merge && not (is_unreliable ctx.result))) _
          _
          (λ e. run_auto_merge-Kept env (job_of ctx) K Fine (keeps (job_of ctx)) free (
            follows.merges (and_left _ _ e) (
              negated (is_unreliable ctx.result)
                (and_right ctx.config.auto_merge _ (and_right (str_eq decision "approve") _ e)))))
          (λ _. Preserves-pure tt)

    after_post-Kept : (answer : Answer Posted) → Kept (after_post env press ctx decision answer)
    unfolding after_post
    after_post-Kept (returned posted) =
        Preserves-bind _ _ (settle-Kept press.analysis_id)
          (λ _. guarded-Kept _ _ merge_approved-Kept)
    after_post-Kept (returned head_moved) = report-Kept _
    after_post-Kept send_error = report-Kept _
    after_post-Kept unexpected = raised-Kept _

  post_claimed-Kept :
      (ctx : GateContext) (claimed : Option GateDecision)
      → ((d : GateDecision) → claimed ≡ some d → Follows env ctx d.decision Fine)
      → Kept (post_claimed env press ctx claimed)
  unfolding post_claimed notify_replay_blocked on_listed_error
  post_claimed-Kept ctx none follows = record {
    left = λ w h. (notify-Kept press.chat_id "notifier.gate.callback_already_decided").left w h;
  }
  post_claimed-Kept ctx (some c) follows = record {
    left = λ w h.
        let review = post_github_review env ctx.repo_name ctx.pr_number c.decision ctx.commit_sha in
        let f = follows c refl in
        (after_post-Kept ctx c.decision f (review w).0).left (review w).1
          ((review-Kept ctx c.decision f).left w h);
  }

  claim_and_post-left :
      (ctx : GateContext) (w : GateWorld)
      → ((d : GateDecision)
          → claimed_by env press w.decisions ≡ some d
          → Follows env ctx d.decision Fine)
      → K w
      → K (claim_and_post env press ctx w).1
  unfolding claim_and_post click
  claim_and_post-left ctx w follows h =
      let i = press.analysis_id in
      let c = claims i press.decision "manual" (some press.decided_by) in
      let table = click c w.decisions in
      (post_claimed-Kept ctx (claim_post_attempt i env.utc_now table).0 follows).left
        (record w { decisions = (claim_post_attempt i env.utc_now table).1 })
        (clicked (leases i env.utc_now) (record w { decisions = table }) (clicked c w h))

  module _ (records : Records) (w : GateWorld)
      (follows : (a : Analysis) (repo : Repository) (pr : ℕ) (d : GateDecision)
        → records.analysis press.analysis_id ≡ some a
        → records.repository a.repo_id ≡ some repo
        → same_user (user_of records press.telegram_user_id) repo.user_id ≡ true
        → a.pr_number ≡ some pr
        → claimed_by env press w.decisions ≡ some d
        → Follows env (context_of records press a repo pr) d.decision Fine)
      (h : K w) where
    on_pr :
        (a : Analysis) (repo : Repository) (pr : Option ℕ)
        → records.analysis press.analysis_id ≡ some a
        → records.repository a.repo_id ≡ some repo
        → same_user (user_of records press.telegram_user_id) repo.user_id ≡ true
        → a.pr_number ≡ pr
        → K (pressed env records press a repo pr w).1
    unfolding pure
    on_pr a repo none ea er eu ep = h
    on_pr a repo (some pr) ea er eu ep =
        claim_and_post-left (context_of records press a repo pr) w
          (λ d claimed. follows a repo pr d ea er eu ep claimed) h

    owned :
        (a : Analysis) (repo : Option Repository)
        → records.analysis press.analysis_id ≡ some a
        → records.repository a.repo_id ≡ repo
        → K (in_repository env records press a repo w).1
    unfolding pure
    owned a none ea er = h
    owned a (some repo) ea er =
        elim (Bool-cases (same_user (user_of records press.telegram_user_id) repo.user_id)) [
          | inl e ↦ rw e (on_pr a repo a.pr_number ea er e refl)
          | inr f ↦ rw f h
        ]

    found :
        (a : Option Analysis)
        → records.analysis press.analysis_id ≡ a
        → K (on_analysis env records press a w).1
    unfolding pure
    found none ea = h
    found (some a) ea = owned a (records.repository a.repo_id) ea refl

    pub callback-left : K (handle_gate_callback env records press w).1
    unfolding handle_gate_callback
    callback-left = found (records.analysis press.analysis_id) refl
