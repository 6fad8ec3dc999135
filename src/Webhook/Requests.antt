-- ===== src/Webhook/Requests.antt =====
-- A whole request of GitHub's, and the tasks that it leaves.
use scamanager.Prelude.{
  All-append, ◌≡◌, refl, String, Option, none, some, true, false, not, [], ◌∷◌, All, arith,
}
use scamanager.Prelude.Text.{is_empty}
use scamanager.Prelude.Lengths.{if_holds}
use scamanager.Webhook.Secrets.{get_webhook_secret, verify_github_signature}
use scamanager.Webhook.World.{
  EventData, Request, Parsed, undecodable, decoded, Task, refused, WebhookEnv, WebhookWorld,
}
use scamanager.Webhook.PullRequest.{Answered}
use scamanager.Webhook.Github.{
  name_of, secret_for, dispatch, authenticated, after_parse, github_webhook,
}
use scamanager.Webhook.Changes.{IsTaskFor, KeepsHandled}
use scamanager.Webhook.Carried.{event_kept}

-- The signature of a request is that of its payload under a secret.
abbrev pub IsSigned : WebhookEnv → Request → String → Type 0
IsSigned env request secret =
    (is_empty secret ≡ false)
    × (verify_github_signature env.hexdigest request.payload request.signature secret ≡ true)

-- The repository that a payload names.
abbrev pub name_in : Parsed → String
name_in undecodable = ""
name_in (decoded d) = name_of d

-- The secret that a request is checked with, if its body is decoded.
abbrev pub secret_at : WebhookEnv → Request → WebhookWorld → String
secret_at env request w = (secret_for env (name_in (env.parse request.payload)) w).0

module _ (env : WebhookEnv) (request : Request) (K : WebhookWorld → Type 0) where
  abbrev pub Handlers : String → Type 0
  Handlers secret =
      (event : String) (d : EventData)
      → env.parse request.payload ≡ decoded (some d)
      → request.event ≡ some event
      → IsSigned env request secret
      → KeepsHandled env event d K

  dispatched :
      (secret : String) (handlers : Handlers secret) (event : Option String) (d : Option EventData)
      → env.parse request.payload ≡ decoded d
      → request.event ≡ event
      → IsSigned env request secret
      → (w : WebhookWorld) → K w
      → K (dispatch env event d w).1
  dispatched secret handlers event none e f signed w k = k
  dispatched secret handlers none (some d) e f signed w k = k
  dispatched secret handlers (some event) (some d) e f signed w k =
      event_kept env d K event (handlers event d e f signed) w k

  authenticated_kept :
      (checked : String × WebhookWorld) (d : Option EventData)
      → env.parse request.payload ≡ decoded d
      → Handlers checked.0
      → K checked.1
      → K (authenticated env request d checked).1
  unfolding authenticated
  authenticated_kept (secret, w) d parsed handlers k =
      if_holds {A = Answered} (λ r. K r.1) (is_empty secret)
        (refused 401 "Webhook secret not configured", w) _ (λ _. k)
        (λ given.
          if_holds {A = Answered} (λ r. K r.1)
            (not (verify_github_signature env.hexdigest request.payload request.signature secret))
            (refused 401 "Invalid signature", w) _ (λ _. k)
            (λ right.
              dispatched secret handlers request.event d parsed refl (given, ground arith) w k))

  secret_kept :
      ((name : String) (w : WebhookWorld)
        → K w
        → K (record w {
          secrets =
              (get_webhook_secret env.settings.github_webhook_secret name env.secret_time
                (env.secret_of name)
                w.secrets).1;
        }))
      → (name : String) (w : WebhookWorld) → K w
      → K (secret_for env name w).1
  unfolding secret_for
  secret_kept cached name w k =
      if_holds {A = String × WebhookWorld} (λ r. K r.1) (is_empty name)
        (env.settings.github_webhook_secret, w) _ (λ _. k) (λ _. cached name w k)

  pub github_webhook_kept :
      (w : WebhookWorld)
      → Handlers (secret_at env request w)
      → ((name : String) (v : WebhookWorld)
          → K v
          → K (record v {
            secrets =
                (get_webhook_secret env.settings.github_webhook_secret name env.secret_time
                  (env.secret_of name)
                  v.secrets).1;
          }))
      → K w
      → K (github_webhook env request w).1
  unfolding github_webhook
  github_webhook_kept w handlers cached k = parsed_kept (env.parse request.payload) refl handlers
    where
      parsed_kept :
          (p : Parsed)
          → env.parse request.payload ≡ p
          → Handlers (secret_for env (name_in p) w).0
          → K (after_parse env request p w).1
      parsed_kept undecodable e on = k
      parsed_kept (decoded d) e on =
          authenticated_kept (secret_for env (name_of d) w) d e on
            (secret_kept cached (name_of d) w k)

-- A task is for the event of a request that is signed under `secret`.
abbrev pub IsAllowed : WebhookEnv → Request → String → Task → Type 0
IsAllowed env request secret task =
    IsSigned env request secret
    × ((event : String) × ((d : EventData) × (env.parse request.payload ≡ decoded (some d))
          × (request.event ≡ some event)
          × IsTaskFor env event d task))

-- If every task so far is as said here, so is every task after a request: it is for an event that the request
-- is signed for, under its repository's secret. An analysis is run only for a push, or a pull request that was
-- opened, reopened or got new commits, and only if the guard lets it through: the switch is off, the sender
-- is no bot that is not listed, and there is no skip marker. Issues are closed, each once, only for a pull
-- request that was merged and whose base is not known to be another branch than the default one; a relay gets
-- a token only if that is switched on and the relay is signed; and the retries of a commit are triggered only
-- by a check suite of it that is completed.
pub github_webhook-IsAllowed :
    (env : WebhookEnv) (request : Request) (w : WebhookWorld)
    → All (IsAllowed env request (secret_at env request w)) w.tasks
    → All (IsAllowed env request (secret_at env request w)) (github_webhook env request w).1.tasks
github_webhook-IsAllowed env request w h =
    let Fine = IsAllowed env request (secret_at env request w) in
    github_webhook_kept env request (λ v. All Fine v.tasks) w
      (λ event d e f signed. record {
        merged = λ pr v k. k;
        disabled = λ i v k. k;
        abandoned = λ pr sha v k. k;
        limited = λ v k. k;
        debounced = λ entries v k. k;
        task = λ t v fine k.
            All-append Fine v.tasks (t ∷ []) k ((signed, (event, (d, e, f, fine))), tt);
      })
      (λ name v k. k) h
