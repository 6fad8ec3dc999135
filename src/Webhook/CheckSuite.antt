-- ===== src/Webhook/CheckSuite.antt =====
-- src/webhook/providers/github.py: a finished check suite, with its debounce.
use scamanager.Prelude.{
  ℕ, ◌+◌, ◌*◌, String, Option, none, some, Bool, not, ◌&&◌, ◌||◌, List, [], ◌∷◌, ◌++◌, filter,
  find?, any, update_where, ltb, str_eq, if◌then◌else◌,
}
use scamanager.Prelude.Text.{is_empty}
use scamanager.Webhook.World.{
  EventData, trigger_retry_for_sha, replied, WebhookEnv, Processed, WebhookWorld,
}
use scamanager.Webhook.PullRequest.{Answered, ignored, accepted, add_task}

abbrev pub check_suite_debounce_ttl : ℕ
check_suite_debounce_ttl = 30

abbrev pub is_recent : ℕ → ℕ → Bool
is_recent now at = ltb now (at + check_suite_debounce_ttl * 1000000)

abbrev pub is_processed : String → String → Processed → Bool
is_processed repo sha p = str_eq p.repo repo && str_eq p.sha sha

unfoldable pub sweep : ℕ → List Processed → List Processed
sweep now entries = filter (λ p. is_recent now p.at) entries

-- `get(key, 0.0)`.
abbrev pub time_or_zero : Option Processed → ℕ
time_or_zero none = 0
time_or_zero (some p) = p.at

unfoldable pub last_processed : String → String → List Processed → ℕ
last_processed repo sha entries = time_or_zero (find? (is_processed repo sha) entries)

abbrev pub processed_at : ℕ → Processed → Processed
processed_at now p = record p { at = now }

unfoldable pub put_processed : String → String → ℕ → List Processed → List Processed
put_processed repo sha now entries =
    if any (is_processed repo sha) entries
    then update_where (is_processed repo sha) (processed_at now) entries
    else entries ++ (record { repo = repo; sha = sha; at = now } ∷ [])

-- The part of `_handle_check_suite_completed` after the tests of the payload.
unfoldable pub debounced_trigger : WebhookEnv → String → String → WebhookWorld → Answered
unfolding last_processed put_processed
debounced_trigger env repo sha w =
    if is_recent env.debounce_time (last_processed repo sha w.debounce)
    then (replied "debounced" none, w)
    else (
      accepted,
      add_task (trigger_retry_for_sha repo sha)
          (record w { debounce = put_processed repo sha env.debounce_time w.debounce }),
    )

abbrev pub swept : WebhookEnv → WebhookWorld → WebhookWorld
swept env w = record w { debounce = sweep env.sweep_time w.debounce }

unfoldable pub handle_check_suite_completed : WebhookEnv → EventData → WebhookWorld → Answered
unfolding debounced_trigger sweep
handle_check_suite_completed env d w =
    if not env.settings.merge_retry_check_suite_webhook_enabled
    then (replied "disabled" none, w)
    else if not (str_eq d.action "completed")
    then (ignored, swept env w)
    else if is_empty d.check_suite_sha || is_empty d.full_name
    then (ignored, swept env w)
    else debounced_trigger env d.full_name d.check_suite_sha (swept env w)
