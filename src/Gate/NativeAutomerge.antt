-- ===== src/Gate/NativeAutomerge.antt =====
-- src/gate/native_automerge.py: GitHub's own automatic merge, with the merge call to fall back on, and
-- `get_pr_node_id` of src/github_client/graphql.py.
use Prim.Native.String.{◌++◌}
use scamanager.Prelude.{
  ℕ, String, Option, none, some, Bool, true, false, not, ◌&&◌, ◌||◌, ◌==◌, str_eq, if◌then◌else◌,
}
use Prim.Native.Char.{code}
use scamanager.Prelude.Text.{is_empty}
use scamanager.Prelude.Effects.{◌>>=◌, pure}
use scamanager.MergeReasons.{network_error}
use scamanager.MergeMetrics.{or_none}
use scamanager.Gate.World.{EnableResult, get_pull, enable_auto_merge, GateEnv, Gate, call}
use scamanager.Gate.GithubReview.{or_default, look, on_send_error, MergeResult, merge_pr}

abbrev pub path_native_enable : String
path_native_enable = "native_enable"

abbrev pub path_rest_fallback : String
path_rest_fallback = "rest_fallback"

abbrev pub path_no_attempt : String
path_no_attempt = "no_attempt"

abbrev pub enable_ok : String
enable_ok = "ok"

abbrev pub enable_force_pushed : String
enable_force_pushed = "force_pushed"

pub record MergeOutcome : Type 0 where
  pub ok : Bool
  pub reason : Option String
  pub head_sha : String
  pub path : String

abbrev pub from_merge : MergeResult → MergeOutcome
from_merge r = record {
  ok = r.ok;
  reason = r.reason;
  head_sha = r.head_sha;
  path = path_rest_fallback;
}

-- `rstrip(": ")`: colons and spaces at the end go.
unfoldable pub strip_colons : String → String
strip_colons String.[] = ""
strip_colons (String.◌∷◌ c s) =
    let rest = strip_colons s in
    if is_empty rest && (code c == b':' || code c == b' ') then "" else String.◌∷◌ c rest

abbrev pub refusal : String → EnableResult → MergeOutcome
refusal head r = record {
  ok = false;
  reason = some (strip_colons (r.status ++ (":" ++ (" " ++ or_default r.detail ""))));
  head_sha = head;
  path = path_no_attempt;
}

abbrev pub enabled : String → MergeOutcome
enabled head = record { ok = true; reason = none; head_sha = head; path = path_native_enable }

abbrev pub no_head : MergeOutcome
no_head = record { ok = false; reason = some network_error; head_sha = ""; path = path_no_attempt }

unfoldable pub get_pr_node_id : GateEnv → String → ℕ → Gate (Option String)
get_pr_node_id env repo pr =
    on_send_error none
      (do d ← call env (get_pull repo pr) (λ n. env.pull n repo pr); pure d.node_id)

unfoldable pub fall_back : GateEnv → String → ℕ → String → Gate MergeOutcome
fall_back env repo pr head = do r ← merge_pr env repo pr (or_none head); pure (from_merge r)

unfoldable pub after_enable : GateEnv → String → ℕ → String → EnableResult → Gate MergeOutcome
after_enable env repo pr head r =
    if str_eq r.status enable_ok
    then pure (enabled head)
    else if str_eq r.status enable_force_pushed
    then pure (refusal head r)
    else fall_back env repo pr head

unfoldable pub with_node : GateEnv → String → ℕ → String → Option String → Gate MergeOutcome
with_node env repo pr head none = fall_back env repo pr head
with_node env repo pr head (some node) = do
  r ← call env (enable_auto_merge node (or_none head)) (λ n. env.enable_reply n node (or_none head))
  after_enable env repo pr head r

unfoldable pub with_head : GateEnv → String → ℕ → String → Gate MergeOutcome
with_head env repo pr head = do node ← get_pr_node_id env repo pr; with_node env repo pr head node

unfoldable pub enable_or_fallback_with_path :
    GateEnv → String → ℕ → Option String → Gate MergeOutcome
enable_or_fallback_with_path env repo pr expected_sha =
    let head = or_default expected_sha "" in
    if not (is_empty head) then with_head env repo pr head else (do
      seen ← look env repo pr
      if is_empty seen.head_sha then pure no_head else with_head env repo pr seen.head_sha)

-- The older interface, without the path.
unfoldable pub enable_or_fallback : GateEnv → String → ℕ → Option String → Gate MergeResult
enable_or_fallback env repo pr expected_sha = do
  o ← enable_or_fallback_with_path env repo pr expected_sha
  pure (record { ok = o.ok; reason = o.reason; head_sha = o.head_sha })
