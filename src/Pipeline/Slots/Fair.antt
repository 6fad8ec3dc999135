-- ===== src/Pipeline/Slots/Fair.antt =====
-- The slots in every state that an event loop reaches.
use scamanager.Prelude.{
  ℕ, suc, ◌+◌, ◌-◌, ◌≡◌, refl, ◌∙◌, inl, inr, Option, none, some, false, ◌==◌, List, count, length,
  any, arith,
}
use scamanager.Prelude.Lengths.{if_holds}
use scamanager.Pipeline.Slots.{
  pipeline_max_concurrency, Waiter, Semaphore, SlotGeneration, SlotWorld, is_done, is_of_task,
  is_locked, wake_up, current_slots, Entry, nested, runs_free, entered, queued, enter_now, queue_up,
  pipeline_slot, take_first, resume_taken, cancel_taken, leave_taken, on_slots, resume, cancel,
  leave, has_no_commit_to_analyse, run_analysis_pipeline, SlotStep, calls, resumes, cancelled,
  leaves, Reached, start, next,
}
use scamanager.Pipeline.Slots.Taken.{
  Taken, take_first-Taken, count-Taken, count-Taken-not, length-Taken, IsOrdered, IsOrdered-Taken,
}
use scamanager.Pipeline.Slots.Permits.{
  HasPermits, wake_up-HasPermits, release_permit-HasPermits, queue_up-HasPermits, not_locked,
  enter-HasPermits,
}

-- Each of the two permits is free, was handed to somebody in the queue, or is held by a task.
pub record IsFair (event_loop : ℕ) (g : SlotGeneration) (holders : List ℕ) : Type 0 where
  pub is_loop : g.event_loop ≡ event_loop
  pub permits : ℕ
  pub is_shared : permits + length holders ≡ pipeline_max_concurrency
  pub in_queue : HasPermits permits g.waiting g.semaphore

abbrev pub IsFairly : ℕ → Option SlotGeneration → List ℕ → Type 0
IsFairly event_loop none holders = length holders ≡ 0
IsFairly event_loop (some g) holders = IsFair event_loop g holders

HasPermits-same :
    {m n k l : ℕ} {s : Semaphore} → m ≡ n → k ≡ l → HasPermits m k s → HasPermits n l s
HasPermits-same e f h = record {
  conserved = h.conserved ∙ e;
  queued = h.queued ∙ f;
  ordered = h.ordered;
  handed_on = h.handed_on;
}

-- A queue that somebody leaves, when the permits that are left are handed on.
left_queue-HasPermits :
    (value permits waiting : ℕ) {x : Waiter} {xs rest : List Waiter}
    → Taken x xs rest
    → value + count is_done rest ≡ permits
    → IsOrdered xs
    → length xs ≡ waiting
    → HasPermits permits (waiting - 1) (wake_up value rest)
left_queue-HasPermits value permits waiting {x} {xs} {rest} t total ordered long =
    HasPermits-same total (omega (arith, length-Taken t))
      (wake_up-HasPermits value rest (IsOrdered-Taken t ordered))

module _ (event_loop : ℕ) where
  pub current_slots-IsFair :
      (o : Option SlotGeneration) (holders : List ℕ)
      → IsFairly event_loop o holders
      → IsFair event_loop (current_slots event_loop o) holders
  unfolding current_slots IsOrdered
  current_slots-IsFair none holders h = record {
    is_loop = refl;
    permits = pipeline_max_concurrency;
    is_shared = omega arith;
    in_queue = record { conserved = refl; queued = refl; ordered = tt; handed_on = inr (inl refl) };
  }
  current_slots-IsFair (some g) holders h =
      if_holds (λ v. IsFair event_loop v holders) (g.event_loop == event_loop) g _ (λ _. h)
        (λ e. absurd (other h.is_loop e))
    where
      other : {m n : ℕ} → m ≡ n → (m == n) ≡ false → ⊥
      other e f = ground arith

  enter_now-IsFairly :
      (task : ℕ) (g : SlotGeneration) (w : SlotWorld)
      → is_locked g.semaphore ≡ false
      → IsFair event_loop g w.holders
      → IsFairly event_loop (enter_now task g w).current (enter_now task g w).holders
  enter_now-IsFairly task g w room h =
      let (free, nobody) = not_locked g.semaphore room in
      record {
        is_loop = h.is_loop;
        permits = h.permits - 1;
        is_shared = omega (arith, h.is_shared, h.in_queue.conserved, free);
        in_queue =
            enter-HasPermits (h.permits - 1) g.waiting g.semaphore room
              (HasPermits-same (omega (arith, h.in_queue.conserved, free)) refl h.in_queue);
      }

  -- A step on the slots, if there are any.
  at_slots :
      (f : SlotGeneration → SlotWorld → SlotWorld) (current : Option SlotGeneration)
      (holders : List ℕ)
      → ((g : SlotGeneration)
          → IsFair event_loop g holders
          → IsFairly event_loop
              (f g (record { current = some g; holders = holders })).current
              (f g (record { current = some g; holders = holders })).holders)
      → IsFairly event_loop current holders
      → IsFairly event_loop
          (on_slots f (record { current = current; holders = holders })).current
          (on_slots f (record { current = current; holders = holders })).holders
  at_slots f none holders each h = h
  at_slots f (some g) holders each h = each g h

  pipeline_slot-IsFair :
      (task : ℕ) (w : SlotWorld)
      → IsFairly event_loop w.current w.holders
      → IsFairly event_loop
          (pipeline_slot event_loop task w).1.current
          (pipeline_slot event_loop task w).1.holders
  unfolding pipeline_slot
  pipeline_slot-IsFair task w h =
      let g = current_slots event_loop w.current in
      let fair = current_slots-IsFair w.current w.holders h in
      if_holds {A = Entry × SlotWorld} (λ r. IsFairly event_loop r.1.current r.1.holders)
        (any (λ t. t == task) w.holders) (nested, w) _ (λ _. h)
        (λ _.
          if_holds {A = Entry × SlotWorld} (λ r. IsFairly event_loop r.1.current r.1.holders)
            (is_locked g.semaphore) (queued, queue_up task g w) (entered, enter_now task g w)
            (λ full. record {
              is_loop = fair.is_loop;
              permits = fair.permits;
              is_shared = fair.is_shared;
              in_queue =
                  queue_up-HasPermits fair.permits g.waiting task g.semaphore full fair.in_queue;
            })
            (λ room. enter_now-IsFairly task g w room fair))

  -- The world of a step is fair.
  abbrev IsFairIn : SlotWorld → Type 0
  IsFairIn w = IsFairly event_loop w.current w.holders

  resume_taken-IsFair :
      (task : ℕ) (g : SlotGeneration) (holders : List ℕ) (o : Option (Waiter × List Waiter))
      → take_first (is_of_task task) g.semaphore.waiters ≡ o
      → IsFair event_loop g holders
      → IsFairIn (resume_taken task g o (record { current = some g; holders = holders }))
  resume_taken-IsFair task g holders none e h = h
  resume_taken-IsFair task g holders (some (x, rest)) e h =
      if_holds {A = SlotWorld} IsFairIn x.done _ (record { current = some g; holders = holders })
        (λ done.
          let t : Taken x g.semaphore.waiters rest =
            take_first-Taken (is_of_task task) g.semaphore.waiters e in
          record {
            is_loop = h.is_loop;
            permits = g.semaphore.value + count is_done rest;
            is_shared =
                omega (arith, h.is_shared, h.in_queue.conserved, count-Taken is_done t done);
            in_queue =
                left_queue-HasPermits g.semaphore.value _ g.waiting t refl h.in_queue.ordered
                  h.in_queue.queued;
          })
        (λ _. h)

  cancel_taken-IsFair :
      (task : ℕ) (g : SlotGeneration) (holders : List ℕ) (o : Option (Waiter × List Waiter))
      → take_first (is_of_task task) g.semaphore.waiters ≡ o
      → IsFair event_loop g holders
      → IsFairIn (cancel_taken g o (record { current = some g; holders = holders }))
  cancel_taken-IsFair task g holders none e h = h
  cancel_taken-IsFair task g holders (some (x, rest)) e h =
      let t : Taken x g.semaphore.waiters rest =
        take_first-Taken (is_of_task task) g.semaphore.waiters e in
      record {
        is_loop = h.is_loop;
        permits = h.permits;
        is_shared = h.is_shared;
        in_queue =
            left_queue-HasPermits _ h.permits g.waiting t
              (if_holds (λ n. n + count is_done rest ≡ h.permits) x.done (suc g.semaphore.value)
                g.semaphore.value
                (λ done. omega (arith, h.in_queue.conserved, count-Taken is_done t done))
                (λ waits. omega (arith, h.in_queue.conserved, count-Taken-not is_done t waits)))
              h.in_queue.ordered h.in_queue.queued;
      }

  leave_taken-IsFair :
      (task : ℕ) (g : SlotGeneration) (holders : List ℕ) (o : Option (ℕ × List ℕ))
      → take_first (λ t. t == task) holders ≡ o
      → IsFair event_loop g holders
      → IsFairIn (leave_taken g o (record { current = some g; holders = holders }))
  leave_taken-IsFair task g holders none e h = h
  leave_taken-IsFair task g holders (some (x, rest)) e h = record {
    is_loop = h.is_loop;
    permits = suc h.permits;
    is_shared =
        omega (arith, h.is_shared, length-Taken (take_first-Taken (λ t. t == task) holders e));
    in_queue = release_permit-HasPermits h.permits g.waiting g.semaphore h.in_queue;
  }

  SlotStep-IsFairly : {v w : SlotWorld} → SlotStep event_loop v w → IsFairIn v → IsFairIn w
  unfolding run_analysis_pipeline resume cancel leave
  SlotStep-IsFairly (calls task event data' w) h =
      if_holds {A = Entry × SlotWorld} (λ r. IsFairIn r.1) (has_no_commit_to_analyse event data')
        (runs_free, w) _ (λ _. h) (λ _. pipeline_slot-IsFair task w h)
  SlotStep-IsFairly (resumes task w) h =
      at_slots (λ g. resume_taken task g (take_first (is_of_task task) g.semaphore.waiters))
        w.current w.holders (λ g f. resume_taken-IsFair task g w.holders _ refl f) h
  SlotStep-IsFairly (cancelled task w) h =
      at_slots (λ g. cancel_taken g (take_first (is_of_task task) g.semaphore.waiters)) w.current
        w.holders (λ g f. cancel_taken-IsFair task g w.holders _ refl f) h
  SlotStep-IsFairly (leaves task w) h =
      at_slots (λ g. leave_taken g (take_first (λ t. t == task) w.holders)) w.current w.holders
        (λ g f. leave_taken-IsFair task g w.holders _ refl f) h

  pub Reached-IsFair : {w : SlotWorld} → Reached event_loop w → IsFairIn w
  Reached-IsFair start = refl
  Reached-IsFair (next reached step) = SlotStep-IsFairly step (Reached-IsFair reached)
