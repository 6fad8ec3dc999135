-- ===== src/Gate/Ordered.antt =====
-- A click on a button of the gate: the decisions that stand stay, and what it asks for is ordered.
use scamanager.Prelude.{
  ℕ, ◌≡◌, refl, ◌⊎◌, inl, inr, All, String, Option, some, true, false, List, str_eq,
}
use scamanager.GateDecisions.Defs.{GateDecision, find_by_analysis_id}
use scamanager.GateDecisions.Manual.{
  Click, click, IsKeptIn, IsKeptBy-trans, click-IsKeptIn, same-IsKeptBy,
}
use scamanager.Gate.World.{
  Call, put_merge, enable_auto_merge, post_review, GateEnv, GateWorld, call,
}
use scamanager.Gate.GithubReview.{event_of}
use scamanager.Gate.Binding.{AllCalls, call-AllCalls, IsExpected}
use scamanager.Gate.Engine.{enqueue}
use scamanager.Gate.Kept.{IsFree}
use scamanager.Gate.Authorised.{MayMerge}
use scamanager.Gate.Actions.{GateContext, is_unreliable, job_of}
use scamanager.Gate.Callback.{
  Analysis, Repository, Records, Press, context_of, same_user, user_of, handle_gate_callback,
}
use scamanager.Gate.Clicks.{IsBound, claimed_by, callback-left}

clicked_again :
    (c : Click) (j : ℕ) (d : GateDecision) (table : List GateDecision)
    → IsKeptIn j d table
    → IsKeptIn j d (click c table)
clicked_again c j d table (d', found, kept) =
    let (d'', found', kept') = click-IsKeptIn c j table found in
    (d'', found', IsKeptBy-trans d d' d'' kept kept')

-- Whoever clicks on whatever button, and whatever GitHub, OpenAI and Telegram answer: a decision that
-- stood in the table is still found for its analysis, with the same decision, mode and decider; and if it
-- had been posted, it is posted.
pub handle_gate_callback-IsKeptIn :
    (env : GateEnv) (records : Records) (press : Press) (j : ℕ) (w : GateWorld) {d : GateDecision}
    → find_by_analysis_id j w.decisions ≡ some d
    → IsKeptIn j d (handle_gate_callback env records press w).1.decisions
handle_gate_callback-IsKeptIn env records press j w {d} h =
    callback-left env press (λ v. IsKeptIn j d v.decisions) (λ _. Unit {0})
      (record { keep = λ c reply fine. unfold call in record { left = λ v held. held } })
      (λ job. record {
        calls = record { keep = λ c reply fine. unfold call in record { left = λ v held. held } };
        logs = λ v table held. held;
        defers = λ a sha key. unfold enqueue in record { left = λ v held. held };
      })
      (λ c fine. tt) (λ c v held. clicked_again c j d v.decisions held) records w
      (λ a repo pr e ea er eu ep claimed. record {
        reviews = λ sha bound. tt;
        merges = λ approved reliable may. record {
          looks = tt;
          merges = λ sha p. tt;
          enables = λ node sha p. tt;
        };
      })
      (d, h, same-IsKeptBy d)

-- What a merge by a click needs.
abbrev pub IsMergeOf : GateEnv → GateContext → GateDecision → Option String → Type 0
IsMergeOf env ctx d bound =
    ((sha : String) × (bound ≡ some sha) × IsExpected ctx.commit_sha sha)
    × (str_eq d.decision "approve" ≡ true)
    × (is_unreliable ctx.result ≡ false)
    × MayMerge env (job_of ctx)

-- A review or a merge that a click orders, or a call that is neither.
abbrev pub IsOrder : GateEnv → GateContext → GateDecision → Call → Type 0
IsOrder env ctx d (post_review r p e sha) =
    (r ≡ ctx.repo_name) × (p ≡ ctx.pr_number) × (e ≡ event_of d.decision) × IsBound ctx sha
IsOrder env ctx d (put_merge r p sha) =
    (r ≡ ctx.repo_name) × (p ≡ ctx.pr_number) × IsMergeOf env ctx d sha
IsOrder env ctx d (enable_auto_merge node sha) = IsMergeOf env ctx d sha
IsOrder env ctx d c = Unit {0}

abbrev pub IsOrdered : GateEnv → Records → Press → List GateDecision → Call → Type 0
IsOrdered env records press table c =
    IsFree c
    ⊎ ((a : Analysis) × (repo : Repository) × (pr : ℕ) × (d : GateDecision) × (records.analysis
            press.analysis_id
          ≡ some a)
        × (records.repository a.repo_id ≡ some repo)
        × (same_user (user_of records press.telegram_user_id) repo.user_id ≡ true)
        × (a.pr_number ≡ some pr)
        × (claimed_by env press table ≡ some d)
        × IsOrder env (context_of records press a repo pr) d c)

-- Whatever GitHub, OpenAI and Telegram answer: if the calls so far are ordered so, then so are all after a
-- click. Each review and each merge is for a click by the owner of the repository, of the pull request of
-- the clicked analysis, bound to its commit if that is not empty, and follows the decision that stands in
-- the row whose posting this click has claimed: a review says it, and a merge is only made where it is an
-- approval, after a reliable analysis at a score that the settings merge at, and after both guards let it pass.
pub handle_gate_callback-IsOrdered :
    (env : GateEnv) (records : Records) (press : Press) (w : GateWorld)
    → All (IsOrdered env records press w.decisions) w.calls
    → All
        (IsOrdered env records press w.decisions)
        (handle_gate_callback env records press w).1.calls
handle_gate_callback-IsOrdered env records press w h =
    let Fine = IsOrdered env records press w.decisions in
    callback-left env press (AllCalls Fine) Fine
      (record { keep = λ c reply fine. call-AllCalls Fine env c reply fine })
      (λ job. record {
        calls = record { keep = λ c reply fine. call-AllCalls Fine env c reply fine };
        logs = λ v table held. held;
        defers = λ a sha key. unfold enqueue in record { left = λ v held. held };
      })
      (λ c fine. inl fine) (λ c v held. held) records w
      (λ a repo pr d ea er eu ep claimed. record {
        reviews =
            λ sha bound. inr (a, repo, pr, d, ea, er, eu, ep, claimed, (refl, refl, refl, bound));
        merges = λ approved reliable may. record {
          looks = inl tt;
          merges = λ sha p. inr (
            a,
            repo,
            pr,
            d,
            ea,
            er,
            eu,
            ep,
            claimed,
            (refl, refl, ((sha, refl, p), approved, reliable, may)),
          );
          enables = λ node sha p.
              inr (
                a,
                repo,
                pr,
                d,
                ea,
                er,
                eu,
                ep,
                claimed,
                ((sha, refl, p), approved, reliable, may),
              );
        };
      })
      h
