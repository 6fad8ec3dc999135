-- ===== src/Gate/World.antt =====
-- src/gate: the state of a run of the gate and its environment. The state is the retry queue, the
-- recorded attempts, the gate decisions and every call that was made of GitHub, OpenAI and Telegram.
-- The token is the same in all calls of GitHub and is left out.
use scamanager.Prelude.{ℕ, String, Option, Bool, List, [], ◌∷◌, ◌++◌, length}
use scamanager.Prelude.Effects.{Answer, Effect}
use scamanager.GateDecisions.Defs.{GateDecision}
use scamanager.MergeMetrics.{MergeAttempt}
use scamanager.RetryQueue.Row.{Queue}
use scamanager.RetryQueue.Defs.{Others}

-- The parts of `GET pulls/N` that are read; a key may be absent.
pub record Pull : Type 0 where
  pub mergeable_state : Option String
  pub head_sha : Option String
  pub base_ref : Option String
  pub node_id : Option String

-- What `PUT pulls/N/merge` comes to: a success, an HTTP error with GitHub's message (or "") and the
-- exception's own text, an error of sending with its text, or any other exception.
pub data MergeReply : Type 0 where
  merged : MergeReply
  http_error : ℕ → String → String → MergeReply
  not_sent : String → MergeReply
  raised : MergeReply

-- `EnableAutoMergeResult`.
pub record EnableResult : Type 0 where
  pub status : String
  pub detail : Option String

-- A file of the pull request: its name and its hunks.
pub record ChangedFile : Type 0 where
  pub filename : String
  pub patch : String

-- What `json.loads` makes of OpenAI's text, as far as it is looked at: no JSON, no object, or an object
-- whose keys may be absent and whose values may be of any type. A Boolean is `some`; another type is none.
pub record RawVerdict : Type 0 where
  pub safe : Option (Option Bool)
  pub manipulation_detected : Option (Option Bool)
  pub reasons : Option (List String)

pub data VerifierText : Type 0 where
  not_json : VerifierText
  not_object : VerifierText
  object : RawVerdict → VerifierText

pub data Call : Type 0 where
  get_pull : String → ℕ → Call
  put_merge : String → ℕ → Option String → Call
  enable_auto_merge : String → Option String → Call
  post_review : String → ℕ → String → Option String → Call
  list_filenames : String → ℕ → Call
  list_files : String → ℕ → Call
  post_comment : String → ℕ → String → Call
  ask_verifier : String → Call
  get_required_checks : String → String → Call
  get_checks : String → String → Option (List String) → Call
  send_telegram : String → Call
  send_notice : String → String → Call
  create_issue : String → ℕ → Call

pub record GateSettings : Type 0 where
  pub merge_retry_enabled : Bool
  pub merge_unknown_retry_limit : ℕ
  pub merge_retry_max_attempts : ℕ
  pub merge_retry_initial_backoff_seconds : ℕ
  pub telegram_bot_token : String
  pub telegram_chat_id : String
  pub openai_api_key : String
  pub sensitive_path_guard_disabled : Bool
  pub merge_verifier_disabled : Bool

-- Every answer may depend on how many calls were made before it: that number is its first argument.
-- `done` is what a call without a result comes to, `meanwhile` what other sessions commit to the queue during a call. `listed` tells whether an
-- unexpected exception is a KeyError, a RuntimeError or a ValueError.
pub record GateEnv : Type 0 where
  pub settings : GateSettings
  pub pull : ℕ → String → ℕ → Answer Pull
  pub merge_reply : ℕ → String → ℕ → Option String → MergeReply
  pub enable_reply : ℕ → String → Option String → Answer EnableResult
  pub done : ℕ → Answer (Unit {0})
  pub files : ℕ → String → ℕ → Answer (List ChangedFile)
  pub filenames : ℕ → String → ℕ → Answer (List String)
  pub is_sensitive : String → Bool
  pub verifier_prompt : List ChangedFile → Answer String
  pub verifier_reply : ℕ → String → Answer VerifierText
  pub required_check_contexts : ℕ → String → String → Answer (List String)
  pub ci_status : ℕ → String → String → Option (List String) → Answer String
  pub utc_now : ℕ
  pub listed : Bool
  pub meanwhile : ℕ → Queue → Queue
  pub others : Others

pub record GateWorld : Type 0 where
  pub queue : Queue
  pub attempts : List MergeAttempt
  pub decisions : List GateDecision
  pub calls : List Call

abbrev pub Gate : Type 0 → Type 0
Gate = Effect GateWorld

-- A call: it is noted, other sessions go on meanwhile, and it is answered.
unfoldable pub call : {A : Type 0} → GateEnv → Call → (ℕ → Answer A) → Gate A
call env c reply w = (
  reply (length w.calls),
  record w { queue = env.meanwhile (length w.calls) w.queue; calls = w.calls ++ (c ∷ []) },
)
