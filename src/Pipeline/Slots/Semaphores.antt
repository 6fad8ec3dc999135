-- ===== src/Pipeline/Slots/Semaphores.antt =====
-- What `asyncio.Semaphore` of Python 3.12 does for the slots of src/worker/pipeline.py. A task is a number.
use scamanager.Prelude.{
  ℕ, zero, suc, Option, none, some, Bool, true, ◌||◌, ◌==◌, List, [], ◌∷◌, any, if◌then◌else◌,
}

-- A task in the queue of the semaphore; it is done waiting when it was handed a permit.
pub record Waiter : Type 0 where
  pub task : ℕ
  pub done : Bool

pub record Semaphore : Type 0 where
  pub value : ℕ
  pub waiters : List Waiter

abbrev pub is_done : Waiter → Bool
is_done x = x.done

abbrev pub is_of_task : ℕ → Waiter → Bool
is_of_task task x = x.task == task

abbrev pub granted : Waiter → Waiter
granted x = record x { done = true }

-- The first waiter that is not done gets a permit.
unfoldable pub wake_first : List Waiter → Option (List Waiter)
wake_first [] = none
wake_first (x ∷ xs) =
    let rest = wake_first xs in
    if x.done then elim rest [ none ↦ none | some ys ↦ some (x ∷ ys) ] else some (granted x ∷ xs)

-- The permit goes to a waiter, or is free.
abbrev pub handed_to : Semaphore → Option (List Waiter) → Semaphore
handed_to s none = record s { value = suc s.value }
handed_to s (some ys) = record s { waiters = ys }

-- `Semaphore.release`.
unfoldable pub release_permit : Semaphore → Semaphore
unfolding wake_first
release_permit s = handed_to s (wake_first s.waiters)

-- The end of `Semaphore.acquire` for a task that waited: the permits that are left are handed on.
unfoldable pub wake_up : ℕ → List Waiter → Semaphore
unfolding wake_first
wake_up zero xs = record { value = 0; waiters = xs }
wake_up (suc n) xs = elim (wake_first xs) [
  | none ↦ record { value = suc n; waiters = xs }
  | some ys ↦ wake_up n ys
]

-- `Semaphore.locked`; who was cancelled is in the queue no more.
unfoldable pub is_locked : Semaphore → Bool
is_locked s = s.value == 0 || any (λ x. true) s.waiters
