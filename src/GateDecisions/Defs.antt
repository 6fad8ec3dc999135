-- ===== src/GateDecisions/Defs.antt =====
-- src/repositories/gate_decision_repo.py: the decision on an analysis and the lease of posting it. A time
-- is a number of microseconds; `post_claimed_at < now - lease` is written `post_claimed_at + lease < now`.
-- `analysis_id` is unique, so a change of the row that is found is one of every row of the analysis.
-- `decided_at`, which nothing reads here, is left out.
use scamanager.Prelude.{
  ℕ, ◌+◌, String, Option, none, some, Bool, true, false, not, ◌&&◌, ◌==◌, List, [], ◌∷◌, ◌++◌,
  find?, any, count, update_where, ltb, str_eq, if◌then◌else◌,
}
use scamanager.RetryPolicy.Defs.{seconds}

abbrev pub pending_post : String
pending_post = "pending_post"

abbrev pub posted_state : String
posted_state = "posted"

-- `int(HTTP_CLIENT_TIMEOUT) * 6`, with the timeout of ten seconds.
abbrev pub post_lease_seconds : ℕ
post_lease_seconds = 60

pub record GateDecision : Type 0 where
  pub analysis_id : ℕ
  pub decision : String
  pub mode : String
  pub decided_by : Option String
  pub state : String
  pub post_claimed_at : Option ℕ

abbrev pub is_of_analysis : ℕ → GateDecision → Bool
is_of_analysis i d = d.analysis_id == i

unfoldable pub find_by_analysis_id : ℕ → List GateDecision → Option GateDecision
find_by_analysis_id i table = find? (is_of_analysis i) table

abbrev pub new_decision : ℕ → String → String → Option String → String → GateDecision
new_decision i decision mode decided_by state = record {
  analysis_id = i;
  decision = decision;
  mode = mode;
  decided_by = decided_by;
  state = state;
  post_claimed_at = none;
}

-- The INSERT fails on the unique `analysis_id`.
unfoldable pub claim_decision :
    ℕ → String → String → Option String → List GateDecision → Bool × List GateDecision
claim_decision i decision mode decided_by table =
    if any (is_of_analysis i) table
    then (false, table)
    else (true, table ++ (new_decision i decision mode decided_by pending_post ∷ []))

abbrev pub overwritten : String → String → Option String → GateDecision → GateDecision
overwritten decision mode decided_by d = record d {
  decision = decision;
  mode = mode;
  decided_by = decided_by;
  state = posted_state;
}

unfoldable pub upsert_decision :
    ℕ → String → String → Option String → List GateDecision → List GateDecision
upsert_decision i decision mode decided_by table =
    if any (is_of_analysis i) table
    then update_where (is_of_analysis i) (overwritten decision mode decided_by) table
    else table ++ (new_decision i decision mode decided_by posted_state ∷ [])

-- The lease is free, or older than it may be.
abbrev pub is_lapsed : ℕ → Option ℕ → Bool
is_lapsed now none = true
is_lapsed now (some t) = ltb (t + seconds post_lease_seconds) now

abbrev pub is_postable : ℕ → ℕ → GateDecision → Bool
is_postable i now d =
    is_of_analysis i d && (str_eq d.state pending_post && is_lapsed now d.post_claimed_at)

abbrev pub leased : ℕ → GateDecision → GateDecision
leased now d = record d { post_claimed_at = some now }

-- The conditional UPDATE, and the row if it changed exactly one.
unfoldable pub claim_post_attempt :
    ℕ → ℕ → List GateDecision → Option GateDecision × List GateDecision
unfolding find_by_analysis_id
claim_post_attempt i now table =
    let table' = update_where (is_postable i now) (leased now) table in
    (if count (is_postable i now) table == 1 then find_by_analysis_id i table' else none, table')

abbrev pub settled : GateDecision → GateDecision
settled d = record d { state = posted_state; post_claimed_at = none }

unfoldable pub mark_posted : ℕ → List GateDecision → List GateDecision
mark_posted i table = update_where (is_of_analysis i) settled table

abbrev pub is_releasable : ℕ → GateDecision → Bool
is_releasable i d = is_of_analysis i d && not (str_eq d.state posted_state)

abbrev pub freed : GateDecision → GateDecision
freed d = record d { post_claimed_at = none }

unfoldable pub release_post_claim : ℕ → List GateDecision → List GateDecision
release_post_claim i table = update_where (is_releasable i) freed table
