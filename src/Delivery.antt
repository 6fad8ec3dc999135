-- ===== src/Delivery.antt =====
-- src/webhook/providers/github.py and src/worker/pipeline.py together: a request, and the analyses among the
-- background tasks that it leaves.
mod Tests
use scamanager.Prelude.{
  ◌≡◌, refl, sym, ap, ◌∙◌, subst, ◌⊎◌, inl, inr, String, Option, none, some, List, [], ◌∷◌, ◌++◌,
}
use scamanager.Prelude.Effects.{returned, ◌>>=◌, ◌>>◌, pure}
use scamanager.Webhook.World.{
  EventData, Request, decoded, Task, run_analysis_pipeline, close_referenced_issues,
  notify_n8n_issue, trigger_retry_for_sha, WebhookEnv, WebhookWorld,
}
use scamanager.Webhook.PullRequest.{Answered, accepted}
use scamanager.Webhook.Github.{github_webhook}
use scamanager.Webhook.Requests.{IsSigned, secret_at}
use scamanager.Webhook.Accepted.{LetsThrough, IsDecided, IsAnalysable, github_webhook-IsDecided}
use scamanager.Pipeline.World.{Payload, PipelineEnv, PipelineWorld, Pipe, swallow}
use scamanager.Pipeline.Body.{extract_event_metadata, analyse, run_pipeline_body}
use scamanager.Pipeline.Analysed.{IsNewCommit}
use scamanager.Pipeline.Analysed.Stored.{IsStored}
use scamanager.Pipeline.NewCommit.{static_of, run_pipeline_body-IsStored}

-- The payload as the pipeline reads it. An absent text is "" for both.
abbrev pub payload_of : EventData → Payload
payload_of d = record {
  full_name = some d.full_name;
  number = d.number;
  head_sha = some d.pull_request.head_sha;
  after = some d.after;
}

-- The analyses among the tasks, one after the other as the tasks run. The other tasks write to none of the
-- tables of the pipeline.
unfoldable pub run_analyses : PipelineEnv → List Task → Pipe (Unit {0})
run_analyses env [] = pure tt
run_analyses env (run_analysis_pipeline event d ∷ tasks) =
    run_pipeline_body env event (payload_of d) >> run_analyses env tasks
run_analyses env (close_referenced_issues repo numbers ∷ tasks) = run_analyses env tasks
run_analyses env (notify_n8n_issue url repo action token ∷ tasks) = run_analyses env tasks
run_analyses env (trigger_retry_for_sha repo sha ∷ tasks) = run_analyses env tasks

run_analyses-one :
    (env : PipelineEnv) (event : String) (d : EventData) (v : PipelineWorld)
    → (run_analyses env (run_analysis_pipeline event d ∷ []) v).1
      ≡ (run_pipeline_body env event (payload_of d) v).1
unfolding run_analyses run_pipeline_body swallow pure ◌>>=◌
run_analyses-one env event d v = refl

decided-tasks :
    (env : WebhookEnv) (event : String) (d : EventData) (w : WebhookWorld) (answer : Answered)
    → w.tasks ≡ []
    → LetsThrough env d w
    → IsDecided env event d w answer
    → (answer.0 ≡ accepted) × (answer.1.tasks ≡ run_analysis_pipeline event d ∷ [])
decided-tasks env event d w answer fresh lets (inl (l, e, t)) =
    (e, t ∙ ap (λ tasks. tasks ++ (run_analysis_pipeline event d ∷ [])) fresh)
decided-tasks env event d w answer fresh lets (inr (refused, e, t)) = absurd (refused lets)

-- From a signed request to the stored analysis: a push, or a pull request that was opened, reopened or got new
-- commits, which the guard against loops lets through, is answered with `accepted`. When its tasks have run, its
-- commit has one new analysis as IsStored says: with the score that the static results and the review come to,
-- unless the review failed, and with the markers of both; no trace; a run of the gate with that score and those
-- markers if it is a pull request; and one notice. The conditions are that the commit is new in a known
-- repository, that the calls for it return, that the changed files are not empty, and that no other session
-- writes meanwhile.
pub github_webhook-IsStored :
    (env : WebhookEnv) (request : Request) (w : WebhookWorld) (event : String) (d : EventData)
    (pipeline : PipelineEnv) (v : PipelineWorld)
    → w.tasks ≡ []
    → IsSigned env request (secret_at env request w)
    → env.parse request.payload ≡ decoded (some d)
    → request.event ≡ some event
    → IsAnalysable event d
    → LetsThrough env d w
    → (new : IsNewCommit pipeline (extract_event_metadata event (payload_of d)) v.tables)
    → ((github_webhook env request w).0 ≡ accepted)
      × IsStored
          (extract_event_metadata event (payload_of d))
          new.repo.id
          new.config
          (static_of pipeline (extract_event_metadata event (payload_of d)) v.tables new).0
          (static_of pipeline (extract_event_metadata event (payload_of d)) v.tables new).1
          new.review
          v
          (run_analyses pipeline (github_webhook env request w).1.tasks v).1
github_webhook-IsStored env request w event d pipeline v fresh signed parsed named analysable lets
      new =
    let (answer, tasks) =
      decided-tasks env event d w (github_webhook env request w) fresh lets
        (github_webhook-IsDecided env request w event d signed parsed named analysable) in
    let stored = run_pipeline_body-IsStored pipeline event (payload_of d) v new in
    (
      answer,
      subst
          (λ u.
            IsStored (extract_event_metadata event (payload_of d)) new.repo.id new.config
              (static_of pipeline (extract_event_metadata event (payload_of d)) v.tables new).0
              (static_of pipeline (extract_event_metadata event (payload_of d)) v.tables new).1
              new.review v u)
          (sym
            (ap (λ ts. (run_analyses pipeline ts v).1) tasks ∙ run_analyses-one pipeline event d v))
          stored,
    )
