-- ===== src/Gate/Rules.antt =====
-- When the gate may merge and when it may review.
use scamanager.Prelude.{
  ℕ, ◌≡◌, refl, ap, ◌⊎◌, inl, inr, String, Option, none, some, true, false, length, Bool-cases,
  str_eq, eq_iff,
}
use scamanager.Prelude.Int.{pos, leb_int}
use scamanager.Prelude.Text.{is_empty}
use scamanager.Prelude.Effects.{Answer, returned, send_error, unexpected, continue, ◌>>=◌, pure}
use scamanager.Gate.World.{
  Pull, Call, put_merge, enable_auto_merge, post_review, GateEnv, GateWorld, call,
}
use scamanager.Gate.GithubReview.{or_default, Seen, seen_of, get_pr_mergeable_state, event_of}
use scamanager.Gate.Binding.{IsExpected}
use scamanager.Gate.Kept.{IsFree}
use scamanager.Gate.Authorised.{MayMerge}
use scamanager.Gate.Actions.{GateContext, is_unreliable, decision_of, job_of}

module _ (env : GateEnv) (ctx : GateContext) where
  -- A review by its event and its commit: the settings approve automatically, the analysis is reliable, the
  -- score is at least the threshold of an approval or below that of a rejection, and the
  -- review is bound to the analysed commit, which GitHub has shown as the head, where that is known.
  abbrev pub MayReview : String → Option String → Type 0
  MayReview event commit_id =
      (ctx.config.approve_mode ≡ "auto")
      × (is_unreliable ctx.result ≡ false)
      × ((event ≡ "APPROVE") × (leb_int ctx.config.approve_threshold (pos ctx.result.score) ≡ true)
          ⊎ (event ≡ "REQUEST_CHANGES")
            × (leb_int ctx.config.reject_threshold (pos ctx.result.score) ≡ false))
      × ((commit_id ≡ none) × (is_empty (or_default ctx.commit_sha "") ≡ true)
          ⊎ (commit_id ≡ some (or_default ctx.commit_sha ""))
            × ((t : ℕ) × (d : Pull) × (env.pull t ctx.repo_name ctx.pr_number ≡ returned d)
                × ((seen_of d).head_sha ≡ or_default ctx.commit_sha "")))

  -- A merge: the analysis is reliable, the settings merge automatically at its score, and both guards have
  -- let it pass.
  abbrev pub MayMergeNow : Type 0
  MayMergeNow = (is_unreliable ctx.result ≡ false) × MayMerge env (job_of ctx)

  abbrev pub IsAuthorised : Call → Type 0
  IsAuthorised (put_merge r p s) =
      (r ≡ ctx.repo_name)
      × (p ≡ ctx.pr_number)
      × ((sha : String) × (s ≡ some sha) × IsExpected ctx.commit_sha sha)
      × MayMergeNow
  IsAuthorised (enable_auto_merge node s) =
      ((sha : String) × (s ≡ some sha) × IsExpected ctx.commit_sha sha) × MayMergeNow
  IsAuthorised (post_review r p event s) =
      (r ≡ ctx.repo_name) × (p ≡ ctx.pr_number) × MayReview event s
  IsAuthorised c = Unit {0}

  pub free : (c : Call) → IsFree c → IsAuthorised c
  free (Call.get_pull r p) h = tt
  free (put_merge r p s) h = absurd h
  free (enable_auto_merge n s) h = absurd h
  free (post_review r p e s) h = absurd h
  free (Call.list_filenames r p) h = tt
  free (Call.list_files r p) h = tt
  free (Call.post_comment r p y) h = tt
  free (Call.ask_verifier y) h = tt
  free (Call.get_required_checks r b) h = tt
  free (Call.get_checks r s c) h = tt
  free (Call.send_telegram c) h = tt
  free (Call.send_notice c key) h = tt
  free (Call.create_issue r p) h = tt

  abbrev pub IsSeen : Seen → Type 0
  IsSeen s =
      (t : ℕ) × (d : Pull) × (env.pull t ctx.repo_name ctx.pr_number ≡ returned d)
      × ((seen_of d).head_sha ≡ s.head_sha)

  pub seen-IsSeen :
      (w : GateWorld) (s : Seen)
      → (get_pr_mergeable_state env ctx.repo_name ctx.pr_number w).0 ≡ returned s
      → IsSeen s
  unfolding get_pr_mergeable_state call ◌>>=◌ pure
  seen-IsSeen w s e = by_answer (env.pull (length w.calls) ctx.repo_name ctx.pr_number) refl _ e
    where
      by_answer :
          (a : Answer Pull)
          → env.pull (length w.calls) ctx.repo_name ctx.pr_number ≡ a
          → (w1 : GateWorld) → (continue a (λ d. pure (seen_of d)) w1).0 ≡ returned s
          → IsSeen s
      by_answer (returned d) shown w1 e' =
          let same : seen_of d ≡ s = cc in (length w.calls, d, shown, ap (λ x. x.head_sha) same)
      by_answer send_error shown w1 e' = absurd (cc e')
      by_answer unexpected shown w1 e' = absurd (cc e')

module _ (ctx : GateContext) where
  -- What is known of a review before its commit is looked at.
  abbrev pub Deserved : String → Type 0
  Deserved event =
      (ctx.config.approve_mode ≡ "auto")
      × (is_unreliable ctx.result ≡ false)
      × ((event ≡ "APPROVE") × (leb_int ctx.config.approve_threshold (pos ctx.result.score) ≡ true)
          ⊎ (event ≡ "REQUEST_CHANGES")
            × (leb_int ctx.config.reject_threshold (pos ctx.result.score) ≡ false))

  pub decision-Deserved :
      str_eq ctx.config.approve_mode "auto" ≡ true
      → is_unreliable ctx.result ≡ false
      → str_eq (decision_of ctx) "skip" ≡ false
      → Deserved (event_of (decision_of ctx))
  decision-Deserved mode reliable decided = (
    (eq_iff ctx.config.approve_mode "auto").0 mode,
    reliable,
    elim (Bool-cases (leb_int ctx.config.approve_threshold (pos ctx.result.score))) [
      | inl a ↦ inl (rw a (refl, refl))
      | inr a ↦ elim (Bool-cases (leb_int ctx.config.reject_threshold (pos ctx.result.score))) [
        | inl r ↦ absurd (skipped (rw (a, r) at decided))
        | inr r ↦ inr (rw (a, r) (refl, refl))
      ]
    ],
  )
    where
      skipped : true ≡ false → ⊥
      skipped e = cc e
