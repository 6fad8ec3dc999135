-- ===== src/Webhook/Trigger.antt =====
-- src/webhook/providers/github.py: the background task of a finished check suite, which runs the worker on the
-- rows of the commit and then on all that are due.
use scamanager.Prelude.{ℕ, String, Option, none, some, Bool, List, [], ◌∷◌, map}
use scamanager.RetryQueue.Defs.{find_pending_by_sha}
use scamanager.RetryQueue.Invariant.{IsSound}
use scamanager.RetryWorker.World.{Env, World}
use scamanager.RetryWorker.Process.{process_pending_retries}
use scamanager.RetryWorker.Safety.{KeepsSound, process_pending_retries-IsSound}

-- What a run of the worker gets from outside: the answers for each row, its time, the rows that others have
-- locked, and its token.
pub record Sweep : Type 0 where
  pub envs : ℕ → Env
  pub now : ℕ
  pub locked : ℕ → Bool
  pub tok : String

abbrev pub pending_limit : ℕ
pending_limit = 50

unfoldable pub run_sweep : Sweep → Option (List ℕ) → World → World
run_sweep s only_ids w =
    process_pending_retries s.envs s.now pending_limit only_ids s.locked s.tok w

abbrev pub process_ids : Sweep → List ℕ → World → World
process_ids s [] w = w
process_ids s (i ∷ ids) w = run_sweep s (some (i ∷ ids)) w

unfoldable pub retry_for_sha : Sweep → Sweep → String → String → World → World
unfolding run_sweep
retry_for_sha first second repo sha w =
    run_sweep second none
      (process_ids first (map (λ r. r.id) (find_pending_by_sha w.queue repo sha)) w)

run_sweep-IsSound :
    (s : Sweep) (only_ids : Option (List ℕ)) (w : World)
    → ((n : ℕ) → KeepsSound (s.envs n))
    → IsSound w.queue
    → IsSound (run_sweep s only_ids w).queue
unfolding run_sweep
run_sweep-IsSound s only_ids w fair h =
    process_pending_retries-IsSound s.envs s.now pending_limit only_ids s.locked s.tok w fair h

process_ids-IsSound :
    (s : Sweep) (ids : List ℕ) (w : World)
    → ((n : ℕ) → KeepsSound (s.envs n))
    → IsSound w.queue
    → IsSound (process_ids s ids w).queue
process_ids-IsSound s [] w fair h = h
process_ids-IsSound s (i ∷ ids) w fair h = run_sweep-IsSound s (some (i ∷ ids)) w fair h

-- The task of a finished check suite, both its runs of the worker together, keeps a sound queue sound, if the
-- other sessions do, whatever is answered and whatever raises.
pub retry_for_sha-IsSound :
    (first second : Sweep) (repo sha : String) (w : World)
    → ((n : ℕ) → KeepsSound (first.envs n))
    → ((n : ℕ) → KeepsSound (second.envs n))
    → IsSound w.queue
    → IsSound (retry_for_sha first second repo sha w).queue
unfolding retry_for_sha
retry_for_sha-IsSound first second repo sha w fair fair' h =
    run_sweep-IsSound second none _ fair'
      (process_ids-IsSound first (map (λ r. r.id) (find_pending_by_sha w.queue repo sha)) w fair h)
