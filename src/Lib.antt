-- ===== src/Lib.antt =====
-- SCAManager: from GitHub's webhook over the analysis of a change and its score to the pull request gate
-- with the deferred merges.
--
-- When a pull request has been analysed, the gate may comment on it, approve or reject it, and merge
-- it, as the repository's settings say. When one that scored high enough cannot be merged yet, because
-- its checks still run or GitHub has not computed its state, the gate puts it into a queue
-- (`merge_retry_queue`). A worker,
-- started by a timer and by finished check suites, claims a batch of the due rows, and for each asks
-- GitHub again: it ends the row, or puts it back with a later due time. Several workers and sessions
-- use the table at once. This library models GitHub's webhook with its guard against loops
-- of bot events, the pipeline that analyses a change, the score, the gate, the queue and the worker, with
-- what they stand on.
--
-- - MergeReasons: src/gate/merge_reasons.py, the tags of a failed merge.
-- - RetryPolicy: src/gate/retry_policy.py. Defs has the four functions; Tags is about which failures are
--   retried, Backoff about when.
-- - RetryQueue: src/models/merge_retry.py (Row: the row, the table and its partial unique index) and
--   src/repositories/merge_retry_repo.py (Defs: queries, `enqueue_or_bump`, deletion; Claim:
--   `claim_batch`, `release_claim`, the marks, `abandon_stale_for_pr`). Invariant says when a table is sound and Sound
--   that the operations keep it so; Selection, Claims and Granted are about the claim, Lookup and Ownership
--   about the write-backs, Enqueue about the race of two inserts, Cleanup about abandoning and purging.
-- - ConfigManager: src/config_manager/manager.py, a repository's settings. Laws is about their storage.
-- - MergeMetrics: src/shared/merge_metrics.py, the record of an attempt.
-- - RetryWorker: src/services/merge_retry_service.py. World has the state of a run (queue, recorded
--   attempts, counts, calls of `merge_pr`) and the environment (GitHub, Telegram, settings, users,
--   time and the random draw); Defs and Process have the functions in the source's order;
--   `process_turn` is the body of the loop of `process_pending_retries` with its two handlers. Parts,
--   Checks and Turn carry an invariant through a turn, for Safety. Outcome has the states of a row in a
--   turn; Released and Progress follow the turn to its end.
-- - MergeAttempts: src/gate/_merge_attempt_states.py and src/repositories/merge_attempt_repo.py, the
--   table of attempts with its queries and transitions. Lifecycle is about the states of a row,
--   Reports and Counts about the queries.
-- - GateDecisions: src/models/gate_decision.py and src/repositories/gate_decision_repo.py, the decision on
--   an analysis. Manual follows a person's clicks through the table, Lease is about the exclusive claim
--   of posting a review. The gate's automatic path uses the upsert only.
-- - Gate: src/gate. World has the state of a run (queue, attempts, decisions, every call that was made)
--   and the environment; GithubReview (github_review.py), NativeAutomerge (native_automerge.py), Guards
--   (sensitive_paths.py and merge_verifier.py), Engine (engine.py) and Actions (actions/) have the
--   functions in the source's order. Polling and Retriable are about one merge, Clearance and Verified
--   about the guards. Binding, Kept and Authorised carry an invariant through the automatic merge, Rules
--   says when the gate may merge and review, and Safety that it does so only then. Twins compares
--   the gate's reading of the CI state with the worker's. Callback is `handle_gate_callback` of
--   src/webhook/providers/telegram.py, a click on a button of the gate; Clicks carries an invariant
--   through it, for Ordered, and Buttons runs it.
-- - Pipeline: src/worker/pipeline.py, from a webhook's payload to the notices. Tables has the tables of
--   repositories, analyses and traces with the queries of src/repositories/repository_repo.py, analysis_repo.py
--   and analysis_attempt_repo.py, and src/scorer/reliability.py; Static the static analysis under its
--   deadline; World the state and the environment; Save `_ensure_repo`, the two ways back to the gate, the
--   superseding of a CLI hook's analysis and `_save_and_gate`; Body the rest. Ops, Steps and Carried carry an
--   invariant through a run, for Sound, FirstWriter (with Rows) and Ordered (with Ordered/Known); Complete is about Static, Again
--   about a commit that comes twice, Analysed (with Idle and Begun) runs a new one,
--   and NewCommit says what it comes to (Stored, and Results for the languages and the flag). Slots has the slots that
--   bound the number of runs, in Semaphores what `asyncio.Semaphore` does for them: Taken and Permits are about
--   its queue, Fair carries the count of permits through the steps, for Safety; Turns is about a hand-over.
-- - Webhook: src/webhook/providers/github.py with _helpers.py and validator.py. Secrets has the cache of the
--   repositories' secrets and the signature, World a request, its environment and the state, PullRequest and
--   CheckSuite the handlers of those events, Github the rest and `github_webhook` itself, Trigger the task
--   that runs the worker. Changes names each change that a request makes, Carried and Requests (with Numbers)
--   carry a property through it, for Kept; Cache and Freshness are about Secrets, Debounce about CheckSuite,
--   Accepted (with Guard) about which events are analysed.
-- - Delivery: a request to the webhook with the analyses among its background tasks, from the two parts above.
-- - Scorer: src/scorer/calculator.py with the numbers of src/constants.py. Laws has the bounds of a score.
-- - LoopGuard: src/webhook/loop_guard.py, the senders and the limiter of bot events. Window follows one repository's events
--   through a call, Limit says what is let through, Bounds how much is kept.
-- - Prelude: the shared names, Boolean tests, lists, Python's text operations and signed numbers; Effects
--   has steps that may raise, Preserves and Ends the rules for what such steps keep and reach.
--
-- A module called Tests, or Buttons, runs the definitions on small inputs.
--
-- How the code is modelled:
--
-- - A time is a number of microseconds of naive UTC. A cutoff such as `now - timedelta(...)` is cut at
--   0; no time is below 0, so no comparison with it changes. Scores are
--   natural; a threshold is an integer. The draw of `random.uniform` is an argument, bounded
--   by `IsJitter`.
-- - `.first()` takes the first row in the table's order. A write is a function that returns its
--   result and the new table. An update by primary key changes the rows with that id.
-- - What other sessions commit while one awaits, or between its statements, is a function on the table:
--   `Others` for `enqueue_or_bump`, and the field `meanwhile` of each answer for the worker. Rows that
--   `SKIP LOCKED` passes over are the argument `locked`. A turn reads its row once, when it starts.
-- - A call of GitHub, OpenAI or Telegram is a parameter that returns, fails to send, or raises something
--   else. In the gate each answer may depend on how many calls were made before it. Whether a path is
--   sensitive, and the text of the verifier's prompt, are parameters as well.
-- - In the pipeline what stands between two awaits is one transaction, as the code runs on one event loop.
--   Other sessions change its tables at each await, and between the statements where the code expects
--   another session's INSERT.
-- - A request to the webhook is one step once its body is there: its functions await nothing but each other.
--   The parsing of JSON, the HMAC, lower-casing and the regular expression are parameters.
-- - The slots of the pipelines are those of one event loop. A step on them is what a task does between two
--   awaits; a task that is cancelled while it waits leaves the queue at once.
-- - The actions of the gate, which the source starts together, run one after the other; they share no
--   state but GitHub's.
-- - The loop of `merge_pr` is a recursion on the rounds left. No definition runs on fuel but the decimal
--   digits of a number, which has one more than the number.
--
-- Not modelled: failures of the database, foreign keys, the other columns' lengths, log lines, message
-- texts and their language, the session's expiry of loaded rows, pauses between two calls, the GraphQL
-- request behind GitHub's automatic merge; and the rest of the program (the analyzers, other webhooks,
-- services, pages and clients).
pub mod Prelude
pub mod MergeReasons
pub mod RetryPolicy
pub mod MergeMetrics
pub mod RetryQueue
pub mod ConfigManager
pub mod RetryWorker
pub mod Scorer
pub mod LoopGuard
pub mod MergeAttempts
pub mod GateDecisions
pub mod Gate
pub mod Pipeline
pub mod Webhook
pub mod Delivery
