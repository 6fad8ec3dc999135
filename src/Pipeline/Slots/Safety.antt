-- ===== src/Pipeline/Slots/Safety.antt =====
-- What the slots promise: never more than two pipelines, no permit lost, and nobody overtaken or left waiting.
use scamanager.Prelude.{
  ℕ, zero, suc, ◌+◌, ◌≤◌, ◌≡◌, refl, sym, ◌⊎◌, inl, inr, String, true, ◌==◌, List, count, length,
  any, arith,
}
use scamanager.Prelude.Lengths.{if_holds}
use scamanager.Prelude.Effects.{returned, pure}
use scamanager.Pipeline.World.{Payload, PipelineEnv, PipelineWorld, swallow}
use scamanager.Pipeline.Body.{guarded_body, run_pipeline_body}
use scamanager.Pipeline.Slots.{
  pipeline_max_concurrency, Semaphore, SlotGeneration, SlotWorld, is_done, is_locked, current_slots,
  Entry, nested, runs_free, entered, queued, pipeline_slot, enter_now, queue_up,
  has_no_commit_to_analyse, run_analysis_pipeline, Reached,
}
use scamanager.Pipeline.Slots.Taken.{IsOrdered}
use scamanager.Pipeline.Slots.Permits.{not_locked}
use scamanager.Pipeline.Slots.Fair.{IsFair, current_slots-IsFair, Reached-IsFair}

-- The slots of a state are shared out: how the two permits are used, and who is counted.
pub record IsShared (g : SlotGeneration) (holders : List ℕ) : Type 0 where
  pub is_bounded : length holders ≤ pipeline_max_concurrency
  pub is_conserved :
      g.semaphore.value + count is_done g.semaphore.waiters + length holders
      ≡ pipeline_max_concurrency
  pub is_counted : g.waiting ≡ length g.semaphore.waiters

reached_slots :
    {event_loop : ℕ} {w : SlotWorld}
    → Reached event_loop w
    → IsFair event_loop (current_slots event_loop w.current) w.holders
reached_slots {event_loop} {w} reached =
    current_slots-IsFair event_loop w.current w.holders (Reached-IsFair event_loop reached)

-- In whatever order pipelines are called, wait, are cancelled while they wait, and end: at most two of them hold a
-- slot; each of the two permits is free, on its way to somebody in the queue, or held, so that none is lost;
-- and the count of those waiting is the length of the queue.
pub Reached-IsShared :
    {event_loop : ℕ} {w : SlotWorld}
    → Reached event_loop w
    → IsShared (current_slots event_loop w.current) w.holders
Reached-IsShared reached =
    let fair = reached_slots reached in
    record {
      is_bounded = omega (arith, fair.is_shared);
      is_conserved = omega (arith, fair.is_shared, fair.in_queue.conserved);
      is_counted = sym fair.in_queue.queued;
    }

-- The call does not get a slot at once, or nobody waits.
abbrev pub IsBehind : Semaphore → Entry × SlotWorld → Type 0
IsBehind s (entered, w) = length s.waiters ≡ 0
IsBehind s (nested, w) = Unit
IsBehind s (runs_free, w) = Unit
IsBehind s (queued, w) = Unit

run_analysis_pipeline-IsBehind :
    (event_loop task : ℕ) (event : String) (data' : Payload) (w : SlotWorld)
    → IsBehind
        (current_slots event_loop w.current).semaphore
        (run_analysis_pipeline event_loop task event data' w)
unfolding run_analysis_pipeline pipeline_slot
run_analysis_pipeline-IsBehind event_loop task event data' w =
    let g = current_slots event_loop w.current in
    let is_behind : Entry × SlotWorld → Type 0 = IsBehind g.semaphore in
    if_holds {A = Entry × SlotWorld} is_behind (has_no_commit_to_analyse event data') (runs_free, w)
      _ (λ _. tt)
      (λ _.
        if_holds {A = Entry × SlotWorld} is_behind (any (λ t. t == task) w.holders) (nested, w) _
          (λ _. tt)
          (λ _.
            if_holds {A = Entry × SlotWorld} is_behind (is_locked g.semaphore)
              (queued, queue_up task g w) (entered, enter_now task g w) (λ _. tt)
              (λ room. (not_locked g.semaphore room).1)))

-- Who waits is served in turn.
pub record IsInTurn (event_loop : ℕ) (w : SlotWorld) : Type 0 where
  pub is_ordered : IsOrdered (current_slots event_loop w.current).semaphore.waiters
  pub is_behind :
      (task : ℕ) (event : String) (data' : Payload)
      → IsBehind
          (current_slots event_loop w.current).semaphore
          (run_analysis_pipeline event_loop task event data' w)
  pub is_moving :
      (length (current_slots event_loop w.current).semaphore.waiters ≡ 0)
      ⊎ (length w.holders ≡ pipeline_max_concurrency)
      ⊎ (1 ≤ count is_done (current_slots event_loop w.current).semaphore.waiters)

-- In every state that is reached the pipelines that wait are served in turn: in the queue those that were handed a
-- permit stand before those that were not, a call gets a slot at once only if nobody waits, and if somebody waits
-- then both slots are held or somebody in the queue was handed a permit and goes on, so that nobody waits in vain.
pub Reached-IsInTurn :
    {event_loop : ℕ} {w : SlotWorld} → Reached event_loop w → IsInTurn event_loop w
Reached-IsInTurn {event_loop} {w} reached =
    let fair = reached_slots reached in
    let queue = fair.in_queue in
    record {
      is_ordered = queue.ordered;
      is_behind = λ task event data'. run_analysis_pipeline-IsBehind event_loop task event data' w;
      is_moving = moving _ queue.handed_on queue.conserved fair.is_shared;
    }
  where
    moving :
        {value waiting permits held : ℕ} (done : ℕ)
        → (value ≡ 0) ⊎ (waiting ≡ 0) ⊎ (1 ≤ done)
        → value + done ≡ permits
        → permits + held ≡ pipeline_max_concurrency
        → (waiting ≡ 0) ⊎ (held ≡ pipeline_max_concurrency) ⊎ (1 ≤ done)
    moving zero (inl z) e f = inr (inl (omega (arith, z, e, f)))
    moving (suc done) (inl z) e f = inr (inr (omega arith))
    moving done (inr (inl z)) e f = inl z
    moving done (inr (inr c)) e f = inr (inr c)

not_free :
    (event_loop task : ℕ) (w : SlotWorld) → (pipeline_slot event_loop task w).0 ≡ runs_free → ⊥
unfolding pipeline_slot
not_free event_loop task w =
    let g = current_slots event_loop w.current in
    if_holds {A = Entry × SlotWorld} (λ r. r.0 ≡ runs_free → ⊥) (any (λ t. t == task) w.holders)
      (nested, w) _ (λ _ e. cc)
      (λ _.
        if_holds {A = Entry × SlotWorld} (λ r. r.0 ≡ runs_free → ⊥) (is_locked g.semaphore)
          (queued, queue_up task g w) (entered, enter_now task g w) (λ _ e. cc) (λ _ e. cc))

blank_body :
    (env : PipelineEnv) (event : String) (data' : Payload) (v : PipelineWorld)
    → has_no_commit_to_analyse event data' ≡ true
    → run_pipeline_body env event data' v ≡ (returned tt, v)
unfolding has_no_commit_to_analyse run_pipeline_body swallow guarded_body pure
blank_body env event data' v blank = rw blank refl

-- An event that takes no slot is one for which the body does nothing: it returns, and changes nothing, calls nothing
-- and sends nothing, whatever is in the tables.
pub run_analysis_pipeline_free :
    (env : PipelineEnv) (event_loop task : ℕ) (event : String) (data' : Payload) (w : SlotWorld)
    (v : PipelineWorld)
    → (run_analysis_pipeline event_loop task event data' w).0 ≡ runs_free
    → run_pipeline_body env event data' v ≡ (returned tt, v)
unfolding run_analysis_pipeline
run_analysis_pipeline_free env event_loop task event data' w v =
    if_holds {A = Entry × SlotWorld}
      (λ r. r.0 ≡ runs_free → run_pipeline_body env event data' v ≡ (returned tt, v))
      (has_no_commit_to_analyse event data') (runs_free, w) _
      (λ blank _. blank_body env event data' v blank) (λ _ e. absurd (not_free event_loop task w e))
