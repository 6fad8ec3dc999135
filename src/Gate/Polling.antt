-- ===== src/Gate/Polling.antt =====
-- How often the merge looks at the pull request, and what it does with what it saw.
use mathlib.Core.List.{append-nil, append_assoc}
use scamanager.Prelude.{
  ℕ, zero, suc, ◌≤◌, max, ◌≡◌, refl, sym, ap, ◌∙◌, inl, inr, String, Option, true, false, List, [],
  ◌∷◌, ◌++◌, length, arith, Bool-cases, if◌then◌else◌,
}
use scamanager.Prelude.Effects.{Answer, returned, send_error, unexpected, continue, ◌>>=◌, pure}
use scamanager.Gate.World.{Pull, Call, get_pull, put_merge, GateEnv, GateWorld, call}
use scamanager.Gate.GithubReview.{
  Seen, seen_of, get_pr_mergeable_state, on_send_error, look, poll, is_unknown, unseen, put,
  MergeResult, merge_answer, failed, merge_seen, merge_pr, is_blocking,
}

module _ (env : GateEnv) (repo : String) (pr : ℕ) where
  -- So many looks at the pull request.
  abbrev pub gets : ℕ → List Call
  gets zero = []
  gets (suc n) = get_pull repo pr ∷ gets n

  -- A state that GitHub did show at some time.
  abbrev pub IsShown : Seen → Type 0
  IsShown s = (t : ℕ) × (d : Pull) × (env.pull t repo pr ≡ returned d) × (seen_of d ≡ s)

  -- What one look comes to.
  seen_answer : Answer Pull → Answer Seen
  seen_answer (returned d) = returned (seen_of d)
  seen_answer send_error = returned unseen
  seen_answer unexpected = unexpected

  abbrev looked : GateWorld → GateWorld
  looked w = record w {
    queue = env.meanwhile (length w.calls) w.queue;
    calls = w.calls ++ (get_pull repo pr ∷ []);
  }

  look_lem :
      (w : GateWorld)
      → look env repo pr w ≡ (seen_answer (env.pull (length w.calls) repo pr), looked w)
  unfolding look on_send_error get_pr_mergeable_state call ◌>>=◌ pure seen_answer
  look_lem w = by_answer (env.pull (length w.calls) repo pr) (looked w)
    where
      by_answer :
          (a : Answer Pull) (w1 : GateWorld)
          → on_send_error unseen (λ _. continue a (λ d. pure (seen_of d)) w1) w1
            ≡ (seen_answer a, w1)
      by_answer (returned d) w1 = refl
      by_answer send_error w1 = refl
      by_answer unexpected w1 = refl

  seen_answer-IsShown :
      (t : ℕ) (s : Seen)
      → seen_answer (env.pull t repo pr) ≡ returned s
      → is_unknown s ≡ false
      → IsShown s
  unfolding seen_answer
  seen_answer-IsShown t s e k = by_answer (env.pull t repo pr) refl e
    where
      by_answer :
          (a : Answer Pull) → env.pull t repo pr ≡ a → seen_answer a ≡ returned s → IsShown s
      by_answer (returned d) shown e' = (t, d, shown, cc)
      by_answer send_error shown e' = let same : unseen ≡ s = cc in absurd (cc (k, same))
      by_answer unexpected shown e' = absurd (cc e')

  -- The end of the loop: some looks, and a state that was shown if it is a known one.
  abbrev IsPolled : ℕ → GateWorld → Answer Seen × GateWorld → Type 0
  IsPolled n w (a, w') =
      (i : ℕ) × (i ≤ n)
      × (w'.calls ≡ w.calls ++ gets i)
      × ((s : Seen) → a ≡ returned s → is_unknown s ≡ false → IsShown s)

  one_more :
      (n : ℕ) (w : GateWorld) (r : Answer Seen × GateWorld)
      → IsPolled n (looked w) r
      → IsPolled (suc n) w r
  one_more n w (a, w') (i, few, calls, shown) = (
    suc i,
    omega (arith, few),
    calls ∙ append_assoc w.calls (get_pull repo pr ∷ []) (gets i),
    shown,
  )

  poll_lem :
      (n : ℕ) (last : Seen) (w : GateWorld)
      → is_unknown last ≡ true
      → IsPolled n w (poll env repo pr n last w)
  unfolding poll ◌>>=◌ pure
  poll_lem zero last w u = (
    0,
    omega arith,
    sym (append-nil w.calls),
    λ s e k. let same : last ≡ s = cc in absurd (cc (k, u, ap is_unknown same)),
  )
  poll_lem (suc n) last w u = rw (look_lem w) (
      after (λ seen t. poll_lem n seen (looked w) t)
        (seen_answer (env.pull (length w.calls) repo pr)) refl)
    where
      after :
          ((seen : Seen)
            → is_unknown seen ≡ true
            → IsPolled n (looked w) (poll env repo pr n seen (looked w)))
          → (a : Answer Seen) → seen_answer (env.pull (length w.calls) repo pr) ≡ a
          → IsPolled (suc n) w (
              continue a
                (λ seen. if is_unknown seen then poll env repo pr n seen else pure seen)
                (looked w))
      after again (returned seen) e = elim (Bool-cases (is_unknown seen)) [
        | inl t ↦ rw t (one_more n w (poll env repo pr n seen (looked w)) (again seen t))
        | inr f ↦ rw f (
          1,
          omega arith,
          refl,
          λ s e' k.
              let same : seen ≡ s = cc in
              seen_answer-IsShown (length w.calls) s (e ∙ ap returned same) k,
        )
      ]
      after again send_error e = (1, omega arith, refl, λ s e' k. absurd (cc e'))
      after again unexpected e = (1, omega arith, refl, λ s e' k. absurd (cc e'))

  -- What becomes of a merge: it is given up after the looks, or it is asked for once, last, after a state
  -- was shown that is known and does not block; GitHub's answer to that is the answer.
  pub data IsMerge (sha : Option String) (w : GateWorld)
      : Answer MergeResult × GateWorld → Type 0 where
    given_up :
        {a : Answer MergeResult} {w' : GateWorld} (i : ℕ)
        → i ≤ max 1 env.settings.merge_unknown_retry_limit
        → w'.calls ≡ w.calls ++ gets i
        → ((r : MergeResult) → a ≡ returned r → r.ok ≡ false)
        → IsMerge sha w (a, w')
    asked :
        {a : Answer MergeResult} {w' : GateWorld} (i t : ℕ) (s : Seen)
        → i ≤ max 1 env.settings.merge_unknown_retry_limit
        → w'.calls ≡ w.calls ++ (gets i ++ (put_merge repo pr sha ∷ []))
        → IsShown s
        → is_unknown s ≡ false
        → is_blocking s.state ≡ false
        → a ≡ merge_answer s.head_sha (env.merge_reply t repo pr sha)
        → IsMerge sha w (a, w')

  refused :
      (reason head : String) (r : MergeResult)
      → returned (failed reason head) ≡ returned r
      → r.ok ≡ false
  refused reason head r e = let same : failed reason head ≡ r = cc in ap (λ x. x.ok) (sym same)

  after_poll :
      (sha : Option String) (w : GateWorld) (a : Answer Seen) (w1 : GateWorld)
      → IsPolled (max 1 env.settings.merge_unknown_retry_limit) w (a, w1)
      → IsMerge sha w (continue a (merge_seen env repo pr sha) w1)
  unfolding merge_seen put call pure
  after_poll sha w (returned s) w1 (i, few, calls, shown) =
      elim (Bool-cases (is_blocking s.state)) [
        | inl e ↦ rw e (given_up i few calls (refused _ s.head_sha))
        | inr e ↦ elim (Bool-cases (is_unknown s)) [
          | inl k ↦ rw (e, k) (given_up i few calls (refused _ s.head_sha))
          | inr k ↦
              rw (e, k)
                (asked i (length w1.calls) s few
                  (ap (λ c. c ++ (put_merge repo pr sha ∷ [])) calls
                    ∙ append_assoc w.calls (gets i) _)
                  (shown s refl k) k e refl)
        ]
      ]
  after_poll sha w send_error w1 (i, few, calls, shown) =
      given_up i few calls (λ r e. absurd (cc e))
  after_poll sha w unexpected w1 (i, few, calls, shown) =
      given_up i few calls (λ r e. absurd (cc e))

  pub merge_pr-IsMerge :
      (sha : Option String) (w : GateWorld) → IsMerge sha w (merge_pr env repo pr sha w)
  unfolding merge_pr ◌>>=◌
  merge_pr-IsMerge sha w =
      let polled = poll env repo pr (max 1 env.settings.merge_unknown_retry_limit) unseen w in
      after_poll sha w polled.0 polled.1
        (poll_lem (max 1 env.settings.merge_unknown_retry_limit) unseen w refl)
