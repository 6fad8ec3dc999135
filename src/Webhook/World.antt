-- ===== src/Webhook/World.antt =====
-- src/webhook/providers/github.py: a request, what it reads, and what it may change. Once its body is there, a
-- request runs without an await on anything but its own functions, so it is one step.
use scamanager.Prelude.{ℕ, String, Option, Bool, List}
use scamanager.RetryQueue.Row.{Queue}
use scamanager.MergeAttempts.Defs.{Attempts}
use scamanager.LoopGuard.Defs.{Sender, Tracked}
use scamanager.Webhook.Secrets.{SecretLookup, CachedSecret}

-- The parts of a payload that are read. An absent or null text is "", an absent object has empty parts.
pub record PullData : Type 0 where
  pub merged : Bool
  pub number : Option ℕ
  pub head_sha : String
  pub base_ref : String
  pub title : String
  pub body : String

pub record EventData : Type 0 where
  pub full_name : String
  pub default_branch : String
  pub action : String
  pub number : Option ℕ
  pub pull_request : PullData
  pub commit_message : String
  pub check_suite_sha : String
  pub after : String
  pub sender : Option Sender

pub record Request : Type 0 where
  pub payload : String
  pub signature : Option String
  pub event : Option String

-- A background task, which runs after the answer. A relay has the URL, the repository, the action and the
-- repository's token, or "".
pub data Task : Type 0 where
  run_analysis_pipeline : String → EventData → Task
  close_referenced_issues : String → List ℕ → Task
  notify_n8n_issue : String → String → String → String → Task
  trigger_retry_for_sha : String → String → Task

-- `HTTPException`, the status with its reason, or an exception that leaves the handler, for which the framework
-- answers with 500.
pub data Response : Type 0 where
  refused : ℕ → String → Response
  replied : String → Option String → Response
  crashed : Response

-- What `json.loads` and the reading of the repository's name come to: an exception that is not caught, as for a body
-- that is not UTF-8; or the data, none where they are false or an exception is caught.
pub data Parsed : Type 0 where
  undecodable : Parsed
  decoded : Option EventData → Parsed

pub record WebhookSettings : Type 0 where
  pub github_webhook_secret : String
  pub scamanager_self_analysis_disabled : Bool
  pub merge_retry_check_suite_webhook_enabled : Bool
  pub n8n_relay_repo_token : Bool
  pub n8n_webhook_secret : String

-- `parse` is `json.loads` with the reading of the name: none where the payload is no JSON, where it or its
-- repository is no object, and for an empty object. `hexdigest` is the HMAC, `lower` Python's, and
-- `closing_numbers` the numbers that the regular expression finds. `n8n_url` and `owner_token` are read from the
-- database, "" for none. The times are those of the reads of the clocks in a request.
pub record WebhookEnv : Type 0 where
  pub settings : WebhookSettings
  pub parse : String → Parsed
  pub hexdigest : String → String → String
  pub lower : String → String
  pub closing_numbers : String → List ℕ
  pub secret_of : String → SecretLookup
  pub n8n_url : String → String
  pub owner_token : String → String
  pub utc_now : ℕ
  pub secret_time : ℕ
  pub sweep_time : ℕ
  pub debounce_time : ℕ
  pub limit_time : ℕ

-- An entry of `_check_suite_debounce`.
pub record Processed : Type 0 where
  pub repo : String
  pub sha : String
  pub at : ℕ

pub record WebhookWorld : Type 0 where
  pub secrets : List CachedSecret
  pub debounce : List Processed
  pub limiter : List Tracked
  pub queue : Queue
  pub attempts : Attempts
  pub tasks : List Task
