-- ===== src/Gate/Buttons.antt =====
-- Clicks on the buttons of the gate: by the owner, by somebody else, and once more after the post.
use scamanager.Prelude.{◌≡◌, refl, String, none, some, [], ◌∷◌, All, str_eq, if◌then◌else◌}
use scamanager.Prelude.Effects.{◌>>=◌, pure, returned}
use scamanager.ConfigManager.{default_config}
use scamanager.GateDecisions.Defs.{
  pending_post, posted_state, GateDecision, find_by_analysis_id, claim_decision, claim_post_attempt,
  mark_posted,
}
use scamanager.GateDecisions.Manual.{IsKeptIn}
use scamanager.Gate.World.{get_pull, post_review, send_notice, GateWorld, call}
use scamanager.Gate.GithubReview.{
  get_pr_mergeable_state, post_bound, post_github_review, on_send_error,
}
use scamanager.Gate.Engine.{on_listed_error}
use scamanager.Gate.Actions.{is_unreliable}
use scamanager.Gate.Callback.{
  Analysis, Repository, Records, Press, handle_gate_callback, claim_and_post, post_claimed,
  after_post, settle, guarded, merge_approved, notify, notify_replay_blocked, result_of,
}
use scamanager.Gate.Ordered.{
  IsOrdered, handle_gate_callback-IsOrdered, handle_gate_callback-IsKeptIn,
}
use scamanager.Gate.Tests.{env_at, start}

abbrev analysis : Analysis
analysis = record {
  repo_id = 2;
  pr_number = some 9;
  commit_sha = "abc";
  score = some 90;
  result = none;
}

abbrev repository : Repository
repository = record { full_name = "o/r"; user_id = some 7 }

abbrev records : Records
records = record {
  analysis = λ i. some analysis;
  repository = λ i. some repository;
  telegram_user = λ t. if str_eq t "owner" then some 7 else some 8;
  config = λ name. default_config name;
}

abbrev press : String → Press
press user = record {
  analysis_id = 5;
  decision = "reject";
  decided_by = "kim";
  telegram_user_id = some user;
  chat_id = some "1";
}

-- An approval that was decided but not posted.
abbrev waiting : GateDecision
waiting = record {
  analysis_id = 5;
  decision = "approve";
  mode = "manual";
  decided_by = some "kim";
  state = pending_post;
  post_claimed_at = none;
}

abbrev retry : GateWorld
retry = record start { decisions = waiting ∷ [] }

-- The claimed approval is posted, though the click says reject.
claimed_is_posted :
    (handle_gate_callback (env_at "clean") records (press "owner") retry).1.calls
    ≡ get_pull "o/r" 9 ∷ post_review "o/r" 9 "APPROVE" (some "abc") ∷ []
unfolding handle_gate_callback claim_and_post post_claimed after_post settle guarded merge_approved
    claim_decision claim_post_attempt find_by_analysis_id mark_posted post_github_review post_bound
    get_pr_mergeable_state ◌>>=◌ pure call is_unreliable result_of default_config
claimed_is_posted = refl

stranger :
    handle_gate_callback (env_at "clean") records (press "other") retry ≡ (returned tt, retry)
unfolding handle_gate_callback pure
stranger = refl

abbrev done : GateWorld
done = record start { decisions = record waiting { state = posted_state } ∷ [] }

posted_once :
    (handle_gate_callback (env_at "clean") records (press "owner") done).1.calls
    ≡ send_notice "1" "notifier.gate.callback_already_decided" ∷ []
unfolding handle_gate_callback claim_and_post post_claimed notify_replay_blocked notify
    claim_decision claim_post_attempt on_listed_error on_send_error call
posted_once = refl

handle_gate_callback-IsKeptIn_example :
    IsKeptIn 5 waiting
      (handle_gate_callback (env_at "clean") records (press "owner") retry).1.decisions
unfolding find_by_analysis_id
handle_gate_callback-IsKeptIn_example =
    handle_gate_callback-IsKeptIn (env_at "clean") records (press "owner") 5 retry refl

handle_gate_callback-IsOrdered_example :
    All
      (IsOrdered (env_at "clean") records (press "owner") retry.decisions)
      (handle_gate_callback (env_at "clean") records (press "owner") retry).1.calls
handle_gate_callback-IsOrdered_example =
    handle_gate_callback-IsOrdered (env_at "clean") records (press "owner") retry tt
