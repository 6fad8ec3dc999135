-- ===== src/Gate/GithubReview.antt =====
-- src/gate/github_review.py: the calls of GitHub's pull request, review and merge interfaces.
use Prim.Native.String.{◌++◌}
use scamanager.Prelude.{
  ℕ, zero, suc, max, String, Option, none, some, Bool, true, false, ◌||◌, str_eq, if◌then◌else◌,
}
use scamanager.Prelude.Text.{is_empty}
use scamanager.Prelude.Effects.{Answer, returned, send_error, unexpected, ◌>>=◌, ◌>>◌, pure}
use scamanager.MergeReasons.{
  network_error, unknown_state_timeout, http_status_to_reason, mergeable_state_to_reason,
}
use scamanager.Gate.World.{
  Pull, MergeReply, merged, http_error, not_sent, raised, get_pull, put_merge, post_review, GateEnv,
  Gate, call,
}

-- `data.get(key, default)` of a text.
abbrev pub or_default : Option String → String → String
or_default none default = default
or_default (some s) default = s

-- A state and the head that was seen with it.
pub record Seen : Type 0 where
  pub state : String
  pub head_sha : String

abbrev pub seen_of : Pull → Seen
seen_of d = record {
  state = or_default d.mergeable_state "unknown";
  head_sha = or_default d.head_sha "";
}

unfoldable pub get_pr_mergeable_state : GateEnv → String → ℕ → Gate Seen
get_pr_mergeable_state env repo pr = do
  d ← call env (get_pull repo pr) (λ n. env.pull n repo pr)
  pure (seen_of d)

-- `except HTTPX_SEND_ERRORS`: another value is returned.
unfoldable pub on_send_error : {A : Type 0} → A → Gate A → Gate A
on_send_error other m w =
    let (answer, w') = m w in
    (
      elim answer [
        | returned a ↦ returned a
        | send_error ↦ returned other
        | unexpected ↦ unexpected
      ],
      w',
    )

-- `text or fallback`.
abbrev pub or_else : String → String → String
or_else text fallback = if is_empty text then fallback else text

abbrev pub base_ref_of : Pull → String
base_ref_of d = or_else (or_default d.base_ref "main") "main"

unfoldable pub get_pr_base_ref : GateEnv → String → ℕ → Gate String
get_pr_base_ref env repo pr =
    on_send_error "main"
      (do d ← call env (get_pull repo pr) (λ n. env.pull n repo pr); pure (base_ref_of d))

-- The end of a review: it was posted, or the head had moved and nothing was posted.
pub data Posted : Type 0 where
  posted head_moved : Posted

unfoldable pub post_bound : GateEnv → String → ℕ → String → Option String → Gate Posted
post_bound env repo pr event commit_id = do
  call env (post_review repo pr event commit_id) env.done
  pure posted

abbrev pub event_of : String → String
event_of decision = if str_eq decision "approve" then "APPROVE" else "REQUEST_CHANGES"

unfoldable pub post_github_review : GateEnv → String → ℕ → String → Option String → Gate Posted
post_github_review env repo pr decision commit_id =
    let sha = or_default commit_id "" in
    if is_empty sha then post_bound env repo pr (event_of decision) none else (do
      seen ← get_pr_mergeable_state env repo pr
      if str_eq seen.head_sha sha
          then post_bound env repo pr (event_of decision) (some sha)
          else pure head_moved)

-- Membership in `_MERGEABLE_BLOCK`.
unfoldable pub is_blocking : String → Bool
is_blocking state =
    str_eq state "dirty"
    || str_eq state "blocked"
    || str_eq state "behind"
    || str_eq state "draft"
    || str_eq state "unstable"

abbrev pub unseen : Seen
unseen = record { state = "unknown"; head_sha = "" }

abbrev pub is_unknown : Seen → Bool
is_unknown s = str_eq s.state "unknown"

-- One round of the loop: an error of sending counts as an unknown state.
unfoldable pub look : GateEnv → String → ℕ → Gate Seen
look env repo pr = on_send_error unseen (get_pr_mergeable_state env repo pr)

-- `for attempt in range(retry_limit)` with its `break`: the rounds left and what was seen last.
unfoldable pub poll : GateEnv → String → ℕ → ℕ → Seen → Gate Seen
poll env repo pr zero last = pure last
poll env repo pr (suc rounds) last = do
  seen ← look env repo pr
  if is_unknown seen then poll env repo pr rounds seen else pure seen

-- `(ok, reason, head_sha)`.
pub record MergeResult : Type 0 where
  pub ok : Bool
  pub reason : Option String
  pub head_sha : String

abbrev pub failed : String → String → MergeResult
failed reason head = record { ok = false; reason = some reason; head_sha = head }

-- `f"{reason_tag}: {gh_msg or str(exc)}"`.
unfoldable pub interpret_merge_error : ℕ → String → String → String
interpret_merge_error code message text =
    http_status_to_reason code ++ (":" ++ (" " ++ or_else message text))

abbrev pub network_reason : String → String
network_reason text = network_error ++ (":" ++ (" " ++ text))

abbrev pub merge_answer : String → MergeReply → Answer MergeResult
merge_answer head merged = returned (record { ok = true; reason = none; head_sha = head })
merge_answer head (http_error code message text) =
    returned (failed (interpret_merge_error code message text) head)
merge_answer head (not_sent text) = returned (failed (network_reason text) head)
merge_answer head raised = unexpected

unfoldable pub put : GateEnv → String → ℕ → Option String → String → Gate MergeResult
put env repo pr expected_sha head =
    call env (put_merge repo pr expected_sha)
      (λ n. merge_answer head (env.merge_reply n repo pr expected_sha))

unfoldable pub merge_seen : GateEnv → String → ℕ → Option String → Seen → Gate MergeResult
merge_seen env repo pr expected_sha seen =
    if is_blocking seen.state
    then pure (failed (mergeable_state_to_reason seen.state) seen.head_sha)
    else if is_unknown seen
    then pure (failed unknown_state_timeout seen.head_sha)
    else put env repo pr expected_sha seen.head_sha

unfoldable pub merge_pr : GateEnv → String → ℕ → Option String → Gate MergeResult
merge_pr env repo pr expected_sha = do
  seen ← poll env repo pr (max 1 env.settings.merge_unknown_retry_limit) unseen
  merge_seen env repo pr expected_sha seen
