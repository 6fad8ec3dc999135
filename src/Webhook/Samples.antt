-- ===== src/Webhook/Samples.antt =====
-- An event of a repository, a signed request with it, and a small state.
use scamanager.Prelude.{ℕ, String, none, some, true, false, [], ◌∷◌}
use scamanager.RetryQueue.Samples.{queue}
use scamanager.MergeAttempts.Tests.{sample}
use scamanager.Webhook.Secrets.{looked_up}
use scamanager.Webhook.World.{decoded, EventData, Request, WebhookEnv, WebhookWorld}

abbrev pub event : String → EventData
event action = record {
  full_name = "o/r";
  default_branch = "main";
  action = action;
  number = some 7;
  pull_request = record {
    merged = true;
    number = some 7;
    head_sha = "def";
    base_ref = "main";
    title = "A change";
    body = "";
  };
  commit_message = "";
  check_suite_sha = "abc";
  after = "";
  sender = none;
}

-- The payload is the action, and the digest is the secret in front of the payload's name.
abbrev pub env : ℕ → WebhookEnv
env time = record {
  settings = record {
    github_webhook_secret = "global";
    scamanager_self_analysis_disabled = false;
    merge_retry_check_suite_webhook_enabled = true;
    n8n_relay_repo_token = false;
    n8n_webhook_secret = "";
  };
  parse = λ payload. decoded (some (event payload));
  hexdigest = λ secret payload. secret;
  lower = λ s. s;
  closing_numbers = λ s. 3 ∷ 4 ∷ 3 ∷ [];
  secret_of = λ name. looked_up (some "own");
  n8n_url = λ name. "";
  owner_token = λ name. "";
  utc_now = 400;
  secret_time = time;
  sweep_time = time;
  debounce_time = time;
  limit_time = time;
}

abbrev pub signed : String → String → Request
signed name action = record { payload = action; signature = some "sha256=own"; event = some name }

abbrev pub world : WebhookWorld
world = record {
  secrets = [];
  debounce = [];
  limiter = [];
  queue = queue;
  attempts = sample;
  tasks = [];
}

abbrev pub later : ℕ
later = 100000000
