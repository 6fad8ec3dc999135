-- ===== src/Pipeline/Slots/Turns.antt =====
-- A slot that is given back goes to the first in the queue.
use scamanager.Prelude.{
  ℕ, ◌≡◌, refl, ap, sym, ◌∙◌, subst, Option, none, some, Bool, true, ◌==◌, List, [], ◌∷◌, any,
  arith, Bool-cases, inl, inr,
}
use scamanager.Pipeline.Slots.{
  Waiter, Semaphore, SlotGeneration, is_of_task, granted, wake_first, handed_to, release_permit,
  take_first, resume, leave,
}
use scamanager.Pipeline.Slots.Taken.{IsWoken, Woken, woken, behind, wake_first-IsWoken}

-- The waiter in front is the one that was there, and has a permit.
abbrev IsServed : Waiter → List Waiter → Type 0
IsServed x xs =
    (y : Waiter) × (ys : List Waiter) × (xs ≡ y ∷ ys) × (y.task ≡ x.task) × (y.done ≡ true)

-- `xs` has the waiter in front.
abbrev Fronts : Waiter → List Waiter → List Waiter → Type 0
Fronts x [] ys = Unit
Fronts x (z ∷ zs) ys = z ≡ x → IsServed x ys

Woken-Fronts : (x : Waiter) {xs ys : List Waiter} → Woken xs ys → Fronts x xs ys
Woken-Fronts x (woken z zs f) = λ e. (granted z, zs, refl, ap (λ (v : Waiter). v.task) e, refl)
Woken-Fronts x (behind z {ys = ys} f t) = λ e. (z, ys, refl, ap (λ (v : Waiter). v.task) e, f)

handed_to-IsServed :
    (s : Semaphore) (x : Waiter) (rest : List Waiter) (o : Option (List Waiter))
    → s.waiters ≡ x ∷ rest
    → IsWoken (x ∷ rest) o
    → IsServed x (handed_to s o).waiters
handed_to-IsServed s x rest none e done = (x, rest, e, refl, done.0)
handed_to-IsServed s x rest (some ys) e t = Woken-Fronts x t refl

release_permit-IsServed :
    (s : Semaphore) (x : Waiter) (rest : List Waiter)
    → s.waiters ≡ x ∷ rest
    → IsServed x (release_permit s).waiters
unfolding release_permit
release_permit-IsServed s x rest e =
    handed_to-IsServed s x rest (wake_first s.waiters) e
      (subst (λ xs. IsWoken xs (wake_first s.waiters)) e (wake_first-IsWoken s.waiters))

take_front :
    (task : ℕ) (y : Waiter) (ys : List Waiter)
    → y.task ≡ task
    → take_first (is_of_task task) (y ∷ ys) ≡ some (y, ys)
unfolding take_first
take_front task y ys e = let own : (y.task == task) ≡ true = ground arith in rw own refl

holds_first : (task : ℕ) (holders : List ℕ) → any (λ h. h == task) (task ∷ holders) ≡ true
holds_first task holders = let same : (task == task) ≡ true = ground arith in rw same refl

-- The task in front goes on.
resume_front :
    (task : ℕ) (g : SlotGeneration) (holders : List ℕ) (x : Waiter)
    → x.task ≡ task
    → IsServed x g.semaphore.waiters
    → any (λ h. h == task) (resume task (record { current = some g; holders = holders })).holders
      ≡ true
unfolding resume
resume_front task g holders x e (y, ys, front, same, done) =
    rw (front, take_front task y ys (same ∙ e), done) (holds_first task holders)

take_first-any :
    {A : Type 0} (p : A → Bool) (xs : List A)
    → any p xs ≡ true
    → (taken : A × List A) × (take_first p xs ≡ some taken)
unfolding take_first
take_first-any p [] h = cc
take_first-any p (x ∷ xs) h = elim (Bool-cases (p x)) [
  | inl e ↦ ((x, xs), rw e refl)
  | inr e ↦
      let ((y, ys), found) = take_first-any p xs (rw e at h) in ((y, x ∷ ys), rw (e, found) refl)
]

leave_holder :
    (task : ℕ) (g : SlotGeneration) (holders : List ℕ)
    → any (λ h. h == task) holders ≡ true
    → (left : List ℕ) × (leave task (record { current = some g; holders = holders }) ≡ record {
      current = some (record g { semaphore = release_permit g.semaphore });
      holders = left;
    })
unfolding leave
leave_holder task g holders holds =
    let ((t, left), found) = take_first-any (λ h. h == task) holders holds in (left, rw found refl)

-- A slot is handed over in turn: when a task that holds a slot ends, and then the task in front of the queue goes on,
-- that task holds a slot.
pub leave-resume :
    (task : ℕ) (g : SlotGeneration) (holders : List ℕ) (x : Waiter) (rest : List Waiter)
    → g.semaphore.waiters ≡ x ∷ rest
    → any (λ h. h == task) holders ≡ true
    → any
        (λ h. h == x.task)
        (resume x.task (leave task (record { current = some g; holders = holders }))).holders
      ≡ true
leave-resume task g holders x rest queue holds =
    let (left, e) = leave_holder task g holders holds in
    subst (λ w. any (λ h. h == x.task) (resume x.task w).holders ≡ true) (sym e)
      (resume_front x.task (record g { semaphore = release_permit g.semaphore }) left x refl
        (release_permit-IsServed g.semaphore x rest queue))
