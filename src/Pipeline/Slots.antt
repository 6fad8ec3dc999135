-- ===== src/Pipeline/Slots.antt =====
-- src/worker/pipeline.py: the slots that bound the number of pipelines at work.
mod Semaphores
mod Taken
pub mod Permits
pub mod Fair
pub mod Safety
pub mod Turns
mod Tests
unfoldable pub use Semaphores.*
use scamanager.Prelude.{
  ℕ, zero, suc, ◌+◌, ◌-◌, String, Option, none, some, Bool, true, false, ◌||◌, ◌==◌, List, [], ◌∷◌,
  ◌++◌, any, if◌then◌else◌,
}
use scamanager.Pipeline.World.{Payload}
use scamanager.Pipeline.Body.{extract_event_metadata, is_blank_sha}

abbrev pub pipeline_max_concurrency : ℕ
pipeline_max_concurrency = 2

pub record SlotGeneration : Type 0 where
  pub event_loop : ℕ
  pub limit : ℕ
  pub semaphore : Semaphore
  pub waiting : ℕ

-- `_slot_state`, and the tasks that hold a slot.
pub record SlotWorld : Type 0 where
  pub current : Option SlotGeneration
  pub holders : List ℕ

abbrev pub new_slots : ℕ → SlotGeneration
new_slots event_loop = record {
  event_loop = event_loop;
  limit = pipeline_max_concurrency;
  semaphore = record { value = pipeline_max_concurrency; waiters = [] };
  waiting = 0;
}

-- `_current_slots`.
unfoldable pub current_slots : ℕ → Option SlotGeneration → SlotGeneration
current_slots event_loop none = new_slots event_loop
current_slots event_loop (some g) = if g.event_loop == event_loop then g else new_slots event_loop

-- How a call of the entry point starts: with a RuntimeError, without a slot, with a slot, or in the queue.
pub data Entry : Type 0 where
  nested : Entry
  runs_free : Entry
  entered : Entry
  queued : Entry

abbrev pub enter_now : ℕ → SlotGeneration → SlotWorld → SlotWorld
enter_now task g w = record {
  current = some (record g { semaphore = record g.semaphore { value = g.semaphore.value - 1 } });
  holders = task ∷ w.holders;
}

abbrev pub queue_up : ℕ → SlotGeneration → SlotWorld → SlotWorld
queue_up task g w = record w {
  current = some (record g {
    semaphore = record g.semaphore {
      waiters = g.semaphore.waiters ++ (record { task = task; done = false } ∷ []);
    };
    waiting = suc g.waiting;
  });
}

-- `_pipeline_slot` until it waits or its block runs.
unfoldable pub pipeline_slot : ℕ → ℕ → SlotWorld → Entry × SlotWorld
unfolding current_slots is_locked
pipeline_slot event_loop task w =
    let g = current_slots event_loop w.current in
    if any (λ t. t == task) w.holders
    then (nested, w)
    else if is_locked g.semaphore
    then (queued, queue_up task g w)
    else (entered, enter_now task g w)

-- The first element that passes the test, and the others.
unfoldable pub take_first {ℓ} : {A : Type ℓ} → (A → Bool) → List A → Option (A × List A)
take_first p [] = none
take_first p (x ∷ xs) =
    let rest = take_first p xs in
    if p x then some (x, xs) else elim rest [ none ↦ none | some (y, ys) ↦ some (y, x ∷ ys) ]

abbrev pub left_queue : Semaphore → SlotGeneration → SlotGeneration
left_queue s g = record g { semaphore = s; waiting = g.waiting - 1 }

-- A task that was handed a permit goes on; one that was not waits.
abbrev pub resume_taken : ℕ → SlotGeneration → Option (Waiter × List Waiter) → SlotWorld → SlotWorld
resume_taken task g none w = w
resume_taken task g (some (x, rest)) w =
    if x.done
    then record {
      current = some (left_queue (wake_up g.semaphore.value rest) g);
      holders = task ∷ w.holders;
    }
    else w

-- A task is cancelled while it waits; if it was handed a permit already, the permit goes back.
abbrev pub cancel_taken : SlotGeneration → Option (Waiter × List Waiter) → SlotWorld → SlotWorld
cancel_taken g none w = w
cancel_taken g (some (x, rest)) w = record w {
  current =
      some
        (left_queue (wake_up (if x.done then suc g.semaphore.value else g.semaphore.value) rest) g);
}

-- The block of a task that holds a slot ends, whether it returns, raises or is cancelled.
abbrev pub leave_taken : SlotGeneration → Option (ℕ × List ℕ) → SlotWorld → SlotWorld
leave_taken g none w = w
leave_taken g (some (t, rest)) w = record {
  current = some (record g { semaphore = release_permit g.semaphore });
  holders = rest;
}

abbrev pub on_slots : (SlotGeneration → SlotWorld → SlotWorld) → SlotWorld → SlotWorld
on_slots f w = elim w.current [ none ↦ w | some g ↦ f g w ]

unfoldable pub resume : ℕ → SlotWorld → SlotWorld
unfolding wake_up take_first
resume task w =
    on_slots (λ g. resume_taken task g (take_first (is_of_task task) g.semaphore.waiters)) w

unfoldable pub cancel : ℕ → SlotWorld → SlotWorld
unfolding wake_up take_first
cancel task w = on_slots (λ g. cancel_taken g (take_first (is_of_task task) g.semaphore.waiters)) w

unfoldable pub leave : ℕ → SlotWorld → SlotWorld
unfolding release_permit take_first
leave task w = on_slots (λ g. leave_taken g (take_first (λ t. t == task) w.holders)) w

-- `_has_no_commit_to_analyse`.
unfoldable pub has_no_commit_to_analyse : String → Payload → Bool
has_no_commit_to_analyse event data' = is_blank_sha (extract_event_metadata event data').commit_sha

-- The entry point until it waits or the body runs.
unfoldable pub run_analysis_pipeline : ℕ → ℕ → String → Payload → SlotWorld → Entry × SlotWorld
unfolding pipeline_slot has_no_commit_to_analyse
run_analysis_pipeline event_loop task event data' w =
    if has_no_commit_to_analyse event data' then (runs_free, w) else pipeline_slot event_loop task w

-- What may happen next to the slots of an event loop: a call, or the end of one.
pub data SlotStep (event_loop : ℕ) : SlotWorld → SlotWorld → Type 0 where
  calls :
      (task : ℕ) (event : String) (data' : Payload) (w : SlotWorld)
      → SlotStep event_loop w (run_analysis_pipeline event_loop task event data' w).1
  resumes : (task : ℕ) (w : SlotWorld) → SlotStep event_loop w (resume task w)
  cancelled : (task : ℕ) (w : SlotWorld) → SlotStep event_loop w (cancel task w)
  leaves : (task : ℕ) (w : SlotWorld) → SlotStep event_loop w (leave task w)

abbrev pub no_slots : SlotWorld
no_slots = record { current = none; holders = [] }

-- The states that are reached in an event loop.
pub data Reached (event_loop : ℕ) : SlotWorld → Type 0 where
  start : Reached event_loop no_slots
  next : {v w : SlotWorld} → Reached event_loop v → SlotStep event_loop v w → Reached event_loop w
