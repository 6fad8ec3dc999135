-- ===== src/RetryWorker/World.antt =====
-- src/services/merge_retry_service.py: what the worker reads and writes. The database is the queue
-- and the list of recorded attempts; what GitHub and Telegram answer comes from an environment.
use scamanager.Prelude.{ℕ, ◌+◌, String, Option, Bool, List}
use scamanager.Prelude.Int.{ℤ}
use scamanager.Prelude.Effects.{Effect}
pub use scamanager.Prelude.Effects.{Answer, returned, send_error, unexpected, continue, ◌>>◌}
unfoldable pub use scamanager.Prelude.Effects.{◌>>=◌, pure}
use scamanager.RetryQueue.Row.{Queue}
use scamanager.MergeMetrics.{MergeAttempt}
use scamanager.ConfigManager.{RepoConfigData}

-- An awaited call: its answer, and what other sessions commit to the queue meanwhile.
pub record Reply (A : Type 0) : Type 0 where
  pub answer : Answer A
  pub meanwhile : Queue → Queue

-- The parts of GitHub's pull request that the worker reads; an absent `head.sha` is "", an absent
-- `base.ref` is "main".
pub record PrData : Type 0 where
  pub merged : Bool
  pub head_sha : String
  pub base_ref : String

pub record Settings : Type 0 where
  pub github_token : String
  pub telegram_bot_token : String
  pub telegram_chat_id : String
  pub merge_retry_max_age_hours : ℕ
  pub merge_retry_initial_backoff_seconds : ℕ
  pub merge_retry_max_backoff_seconds : ℕ

-- What a Telegram message says. Its HTML, its language and GitHub's links are not modelled.
pub data Notice : Type 0 where
  retry_stopped : String → ℕ → Notice
  retry_succeeded : String → ℕ → ℕ → ℕ → Notice
  retry_terminal : String → ℕ → ℕ → ℕ → String → String → Notice

-- `user_id` of the repository with a name, and the token of a user.
pub record Env : Type 0 where
  pub settings : Settings
  pub find_by_full_name : String → Option (Option ℕ)
  pub find_by_id : ℕ → Option String
  pub repo_config : String → RepoConfigData
  pub get_pull : String → String → ℕ → Reply PrData
  pub merge_pr : String → String → ℕ → String → Reply (Bool × Option String)
  pub required_check_contexts : String → String → String → Reply (List String)
  pub get_ci_status : String → String → String → Option (List String) → Reply String
  pub telegram_post_message : String → String → Notice → Reply (Unit {0})
  pub create_merge_failure_issue : String → String → ℕ → Reply (Unit {0})
  pub utc_now : ℕ
  pub jitter : ℤ
  pub exc_detail : String

pub record Counts : Type 0 where
  pub claimed : ℕ
  pub succeeded : ℕ
  pub terminal : ℕ
  pub expired : ℕ
  pub abandoned : ℕ
  pub released : ℕ
  pub skipped : ℕ

-- A call of `merge_pr`: repository, number and the SHA it is bound to.
pub record MergeCall : Type 0 where
  pub repo : String
  pub pr : ℕ
  pub expected_sha : String

pub record World : Type 0 where
  pub queue : Queue
  pub attempts : List MergeAttempt
  pub counts : Counts
  pub merge_calls : List MergeCall

abbrev pub Step : Type 0 → Type 0
Step = Effect World

unfoldable pub await : {A : Type 0} → Reply A → Step A
await r w = (r.answer, record w { queue = r.meanwhile w.queue })

-- A write-back to the queue; the worker does not look at its answer.
unfoldable pub write_back : (Queue → Bool × Queue) → Step (Unit {0})
write_back f w = (returned tt, record w { queue = (f w.queue).1 })

unfoldable pub count_up : (Counts → Counts) → Step (Unit {0})
count_up f w = (returned tt, record w { counts = f w.counts })

abbrev pub add_succeeded : Counts → Counts
add_succeeded c = record c { succeeded = c.succeeded + 1 }

abbrev pub add_terminal : Counts → Counts
add_terminal c = record c { terminal = c.terminal + 1 }

abbrev pub add_expired : Counts → Counts
add_expired c = record c { expired = c.expired + 1 }

abbrev pub add_abandoned : Counts → Counts
add_abandoned c = record c { abandoned = c.abandoned + 1 }

abbrev pub add_released : Counts → Counts
add_released c = record c { released = c.released + 1 }
