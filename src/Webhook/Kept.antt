-- ===== src/Webhook/Kept.antt =====
-- What a request keeps of the state: the bounds, the sound queue, the lifecycle of the attempts; and what one
-- without a right signature leaves.
use scamanager.Prelude.{
  ◌∙◌, ℕ, ◌≤◌, ◌≡◌, refl, sym, subst, ap, ◌⊎◌, inl, inr, String, Option, none, some, true, false,
  length, Bool-cases,
}
use scamanager.Prelude.Text.{is_empty}
use scamanager.Prelude.Lengths.{if_holds}
use scamanager.RetryQueue.Invariant.{IsSound}
use scamanager.RetryQueue.Sound.{abandon_stale_for_pr-IsSound}
use scamanager.MergeAttempts.Defs.{AttemptRow, Attempts, find_latest_for_pr}
use scamanager.MergeAttempts.Lifecycle.{
  Event, merged, disabled, apply, lookup, IsSuccessor, IsSuccessor-trans, apply-IsSuccessor,
}
use scamanager.LoopGuard.Bounds.{IsSmall, allow-IsSmall}
use scamanager.Webhook.Secrets.{webhook_secret_cache_max, verify_github_signature}
use scamanager.Webhook.World.{EventData, Request, decoded, refused, WebhookEnv, WebhookWorld}
use scamanager.Webhook.PullRequest.{mark_merged, inferred_reason}
use scamanager.Webhook.Github.{name_of, secret_for, authenticated, after_parse, github_webhook}
use scamanager.Webhook.Cache.{get_webhook_secret_small}
use scamanager.Webhook.Requests.{name_in, secret_at, github_webhook_kept}

-- The cache of secrets and the limiter are within their caps, and the retry queue is sound.
pub record IsWellFormed (w : WebhookWorld) : Type 0 where
  pub few_secrets : length w.secrets ≤ webhook_secret_cache_max
  pub small_limiter : IsSmall w.limiter
  pub sound_queue : IsSound w.queue

-- Any request, signed or not, keeps the cache of secrets within 2048 entries, the limiter within 4096
-- repositories of six events each, and the retry queue sound.
pub github_webhook-IsWellFormed :
    (env : WebhookEnv) (request : Request) (w : WebhookWorld)
    → IsWellFormed w
    → IsWellFormed (github_webhook env request w).1
github_webhook-IsWellFormed env request w h =
    github_webhook_kept env request IsWellFormed w
      (λ event d e f signed. record {
        merged = λ pr v k. record {
          few_secrets = k.few_secrets;
          small_limiter = k.small_limiter;
          sound_queue = k.sound_queue;
        };
        disabled = λ i v k. record {
          few_secrets = k.few_secrets;
          small_limiter = k.small_limiter;
          sound_queue = k.sound_queue;
        };
        abandoned = λ pr sha v k. record {
          few_secrets = k.few_secrets;
          small_limiter = k.small_limiter;
          sound_queue =
              abandon_stale_for_pr-IsSound d.full_name pr sha "sha_drift" env.utc_now k.sound_queue;
        };
        limited = λ v k. record {
          few_secrets = k.few_secrets;
          small_limiter = allow-IsSmall env.limit_time d.full_name v.limiter k.small_limiter;
          sound_queue = k.sound_queue;
        };
        debounced = λ entries v k. record {
          few_secrets = k.few_secrets;
          small_limiter = k.small_limiter;
          sound_queue = k.sound_queue;
        };
        task = λ t v fine k. record {
          few_secrets = k.few_secrets;
          small_limiter = k.small_limiter;
          sound_queue = k.sound_queue;
        };
      })
      (λ name v k. record {
        few_secrets =
            get_webhook_secret_small env.settings.github_webhook_secret name env.secret_time
              (env.secret_of name) v.secrets k.few_secrets;
        small_limiter = k.small_limiter;
        sound_queue = k.sound_queue;
      })
      h

-- A row and what stands under its id.
abbrev pub HasSuccessor : ℕ → AttemptRow → Attempts → Type 0
HasSuccessor i r table = (r' : AttemptRow) × (lookup i table ≡ some r') × IsSuccessor r r'

HasSuccessor-apply :
    (e : Event) (i : ℕ) (r : AttemptRow) (table : Attempts)
    → HasSuccessor i r table
    → HasSuccessor i r (apply e table).1
HasSuccessor-apply e i r table (r', found, s) =
    let (r'', found', s') = apply-IsSuccessor e i table found in
    (r'', found', IsSuccessor-trans r r' r'' s s')

HasSuccessor-merged :
    (now i : ℕ) (r : AttemptRow) (latest : Option AttemptRow) (table : Attempts)
    → HasSuccessor i r table
    → HasSuccessor i r (mark_merged now latest table)
unfolding apply
HasSuccessor-merged now i r none table h = h
HasSuccessor-merged now i r (some latest) table h =
    HasSuccessor-apply (merged latest.id now) i r table h

-- Whatever a request says, signed or not: a recorded attempt that stood under its id, as it was or changed by
-- one allowed transition, does so after the request.
pub github_webhook-HasSuccessor :
    (env : WebhookEnv) (request : Request) (w : WebhookWorld) (i : ℕ) (r : AttemptRow)
    → HasSuccessor i r w.attempts
    → HasSuccessor i r (github_webhook env request w).1.attempts
unfolding apply
github_webhook-HasSuccessor env request w i r h =
    github_webhook_kept env request (λ v. HasSuccessor i r v.attempts) w
      (λ event d e f signed. record {
        merged = λ pr v k.
            HasSuccessor-merged env.utc_now i r (find_latest_for_pr d.full_name pr v.attempts)
              v.attempts k;
        disabled = λ j v k.
            HasSuccessor-apply (disabled j env.utc_now (some (inferred_reason d.sender))) i r
              v.attempts k;
        abandoned = λ pr sha v k. k;
        limited = λ v k. k;
        debounced = λ entries v k. k;
        task = λ t v fine k. k;
      })
      (λ name v k. k) h

-- All but the cache of secrets is the same.
abbrev pub IsSameButSecrets : WebhookWorld → WebhookWorld → Type 0
IsSameButSecrets w v = record v { secrets = w.secrets } ≡ w

pub secret_for-IsSame :
    (env : WebhookEnv) (name : String) (w : WebhookWorld)
    → IsSameButSecrets w (secret_for env name w).1
unfolding secret_for
secret_for-IsSame env name w =
    if_holds {A = String × WebhookWorld} (λ r. IsSameButSecrets w r.1) (is_empty name)
      (env.settings.github_webhook_secret, w) _ (λ _. refl) (λ _. refl)

-- There is no secret, or the signature is not that of the payload under it.
abbrev IsWrong : WebhookEnv → Request → String → Type 0
IsWrong env request secret =
    (is_empty secret ≡ true)
    ⊎ (verify_github_signature env.hexdigest request.payload request.signature secret ≡ false)

authenticated-refused :
    (env : WebhookEnv) (request : Request) (d : Option EventData) (checked : String × WebhookWorld)
    → (is_empty checked.0 ≡ true)
      ⊎ (verify_github_signature env.hexdigest request.payload request.signature checked.0 ≡ false)
    → (detail : String) × (authenticated env request d checked ≡ (refused 401 detail, checked.1))
unfolding authenticated
authenticated-refused env request d (secret, w) (inl e) =
    ("Webhook secret not configured", rw e refl)
authenticated-refused env request d (secret, w) (inr e) = elim (Bool-cases (is_empty secret)) [
  | inl t ↦ ("Webhook secret not configured", rw t refl)
  | inr t ↦ ("Invalid signature", rw (t, e) refl)
]

-- A request whose repository has no secret, and no global one stands in, or whose signature is not that of its
-- payload under the secret, is answered with 401, and changes nothing but the cache of secrets, provided that
-- reading its body raises no exception that the handler does not catch, as it does where the body is not UTF-8.
pub github_webhook-refused :
    (env : WebhookEnv) (request : Request) (d : Option EventData) (w : WebhookWorld)
    → env.parse request.payload ≡ decoded d
    → (is_empty (secret_at env request w) ≡ true)
      ⊎ (verify_github_signature env.hexdigest request.payload request.signature
            (secret_at env request w)
          ≡ false)
    → ((detail : String) × ((github_webhook env request w).0 ≡ refused 401 detail))
      × IsSameButSecrets w (github_webhook env request w).1
unfolding github_webhook
github_webhook-refused env request d w parsed h =
    let checked = secret_for env (name_of d) w in
    let wrong : IsWrong env request checked.0 =
      subst (λ p. IsWrong env request (secret_for env (name_in p) w).0) parsed h in
    let (detail, e) = authenticated-refused env request d checked wrong in
    let answer = ap (λ p. after_parse env request p w) parsed ∙ e in
    (
      (detail, ap (λ r. r.0) answer),
      subst (λ r. IsSameButSecrets w r.1) (sym answer) (secret_for-IsSame env (name_of d) w),
    )
