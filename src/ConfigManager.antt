-- ===== src/ConfigManager.antt =====
-- src/config_manager/manager.py: a repository's settings, their defaults, their validation and
-- their storage. An integer is a ℤ, since the settings form stores what the user typed.
pub mod Laws
pub mod Tests
use scamanager.Prelude.{
  ℕ, String, Option, none, some, Bool, true, false, not, ◌&&◌, List, [], ◌∷◌, ◌++◌, find?, any,
  update_where, str_eq, if◌then◌else◌,
}
use scamanager.Prelude.Int.{ℤ, pos, leb_int}

pub record RepoConfigData : Type 0 where
  pub repo_full_name : String
  pub pr_review_comment : Bool
  pub approve_mode : String
  pub approve_threshold : ℤ
  pub reject_threshold : ℤ
  pub notify_chat_id : Option String
  pub n8n_webhook_url : Option String
  pub discord_webhook_url : Option String
  pub slack_webhook_url : Option String
  pub custom_webhook_url : Option String
  pub email_recipients : Option String
  pub auto_merge : Bool
  pub merge_threshold : ℤ
  pub commit_comment : Bool
  pub create_issue : Bool
  pub railway_deploy_alerts : Bool
  pub auto_merge_issue_on_failure : Bool
  pub notification_language : Option String
  pub review_model : Option String
  pub disabled_tools : List String
  pub ai_review_enabled : Bool

-- `RepoConfigData(repo_full_name=…)`: the defaults of the dataclass.
unfoldable pub default_config : String → RepoConfigData
default_config repo = record {
  repo_full_name = repo;
  pr_review_comment = true;
  approve_mode = "disabled";
  approve_threshold = pos 75;
  reject_threshold = pos 50;
  notify_chat_id = none;
  n8n_webhook_url = none;
  discord_webhook_url = none;
  slack_webhook_url = none;
  custom_webhook_url = none;
  email_recipients = none;
  auto_merge = false;
  merge_threshold = pos 75;
  commit_comment = false;
  create_issue = false;
  railway_deploy_alerts = false;
  auto_merge_issue_on_failure = false;
  notification_language = none;
  review_model = none;
  disabled_tools = [];
  ai_review_enabled = true;
}

-- The table `repo_configs`; a row has the fields of the dataclass.
abbrev pub Configs : Type 0
Configs = List RepoConfigData

abbrev pub is_for : String → RepoConfigData → Bool
is_for repo c = str_eq c.repo_full_name repo

unfoldable pub get_repo_config : Configs → String → RepoConfigData
unfolding default_config
get_repo_config table repo = elim (find? (is_for repo) table) [
  | none ↦ default_config repo
  | some found ↦ found
]

abbrev pub in_range : ℤ → Bool
in_range value = leb_int (pos 0) value && leb_int value (pos 100)

-- The exceptions are all `ValueError`; the constructors tell which test raised it.
pub data ThresholdError : Type 0 where
  out_of_range approve_below_reject merge_below_reject : ThresholdError

unfoldable pub validate_thresholds : RepoConfigData → Option ThresholdError
validate_thresholds c =
    if not (in_range c.approve_threshold)
    then some out_of_range
    else if not (in_range c.reject_threshold)
    then some out_of_range
    else if not (in_range c.merge_threshold)
    then some out_of_range
    else if not (leb_int c.reject_threshold c.approve_threshold)
    then some approve_below_reject
    else if not (leb_int c.reject_threshold c.merge_threshold)
    then some merge_below_reject
    else none

-- INSERT where no row has the name, UPDATE of the fields where one has.
unfoldable pub store_config : RepoConfigData → Configs → Configs
store_config c table = elim (find? (is_for c.repo_full_name) table) [
  | none ↦ table ++ (c ∷ [])
  | some _ ↦ update_where (is_for c.repo_full_name) (λ _. c) table
]

unfoldable pub upsert_repo_config : RepoConfigData → Configs → Option ThresholdError × Configs
unfolding validate_thresholds store_config
upsert_repo_config c table = elim (validate_thresholds c) [
  | some e ↦ (some e, table)
  | none ↦ (none, store_config c table)
]
