-- ===== src/GateDecisions/Tests.antt =====
-- A table with a decision that waits for its post and one that is posted.
use scamanager.Prelude.{◌+◌, ◌≡◌, refl, arith, none, some, false, List, [], ◌∷◌}
use scamanager.RetryPolicy.Defs.{seconds}
use scamanager.GateDecisions.Defs.{
  GateDecision, pending_post, posted_state, find_by_analysis_id, claim_decision, claim_post_attempt,
  mark_posted, release_post_claim,
}
use scamanager.GateDecisions.Manual.{Click, claims, leases, posts, releases, click, clicks}
use scamanager.GateDecisions.Lease.{claim_post_attempt_again}

abbrev waiting : GateDecision
waiting = record {
  analysis_id = 4;
  decision = "approve";
  mode = "manual";
  decided_by = some "kim";
  state = pending_post;
  post_claimed_at = none;
}

abbrev done : GateDecision
done = record {
  analysis_id = 9;
  decision = "reject";
  mode = "manual";
  decided_by = some "lee";
  state = posted_state;
  post_claimed_at = none;
}

abbrev table : List GateDecision
table = waiting ∷ done ∷ []

-- A second click wants to flip the decision, and the post fails once.
abbrev story : List Click
story =
    claims 4 "reject" "manual" (some "lee")
    ∷ leases 4 (seconds 100)
    ∷ releases 4
    ∷ leases 4 (seconds 110)
    ∷ posts 4
    ∷ claims 5 "reject" "manual" none
    ∷ []

second_claim_loses : claim_decision 4 "reject" "manual" none table ≡ (false, table)
unfolding claim_decision
second_claim_loses = refl

posted_at_last :
    find_by_analysis_id 4 (clicks story table) ≡ some (record waiting { state = posted_state })
unfolding find_by_analysis_id clicks click claim_decision claim_post_attempt mark_posted
    release_post_claim
posted_at_last = refl

posted_not_leased : claim_post_attempt 9 (seconds 100) table ≡ (none, table)
unfolding claim_post_attempt
posted_not_leased = refl

-- A lease of exactly a minute still holds; a microsecond later it is taken over.
stale_lease_taken :
    (claim_post_attempt 4 (seconds 160 + 1) (claim_post_attempt 4 (seconds 100) table).1).0
    ≡ some (record waiting { post_claimed_at = some (seconds 160 + 1) })
unfolding claim_post_attempt find_by_analysis_id
stale_lease_taken = refl

claim_post_attempt_again_example :
    claim_post_attempt 4 (seconds 160) (claim_post_attempt 4 (seconds 100) table).1
    ≡ (none, (claim_post_attempt 4 (seconds 100) table).1)
unfolding claim_post_attempt find_by_analysis_id
claim_post_attempt_again_example =
    claim_post_attempt_again 4 (seconds 100) (seconds 160) table refl refl (ground arith)
