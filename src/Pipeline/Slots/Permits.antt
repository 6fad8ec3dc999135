-- ===== src/Pipeline/Slots/Permits.antt =====
-- The permits of the semaphore: they are conserved, and who waits gets them in the order of the queue.
use scamanager.Prelude.{
  ℕ, zero, suc, ◌+◌, ◌-◌, ◌≤◌, ◌≡◌, refl, ap, ◌∙◌, ◌⊎◌, inl, inr, Option, none, some, true, false,
  ◌==◌, List, [], ◌∷◌, ◌++◌, count, length, any, All, arith, or_false, or_cases,
}
use scamanager.Prelude.Lengths.{length-snoc}
use scamanager.Prelude.Lookups.{count-snoc_not}
use scamanager.Pipeline.Slots.{
  Waiter, Semaphore, is_done, wake_first, handed_to, release_permit, wake_up, is_locked,
}
use scamanager.Pipeline.Slots.Taken.{
  IsOrdered, IsOrdered-snoc, IsWoken, Woken, wake_first-IsWoken, count-Woken, length-Woken,
  IsOrdered-Woken,
}

-- `permits` permits are free or were handed to somebody in the queue of `queue` waiters. A permit is free
-- while somebody waits only until a waiter that got one goes on, who hands it on.
pub record HasPermits (permits queue : ℕ) (s : Semaphore) : Type 0 where
  pub conserved : s.value + count is_done s.waiters ≡ permits
  pub queued : length s.waiters ≡ queue
  pub ordered : IsOrdered s.waiters
  pub handed_on : (s.value ≡ 0) ⊎ (length s.waiters ≡ 0) ⊎ (1 ≤ count is_done s.waiters)

-- Where all have a permit, nobody waits or one of them goes on.
all_done :
    (xs : List Waiter) → All (λ x. x.done ≡ true) xs → (length xs ≡ 0) ⊎ (1 ≤ count is_done xs)
all_done [] h = inl refl
all_done (x ∷ xs) h = inr (rw h.0 (omega arith))

wake_up_at :
    (n : ℕ) (xs : List Waiter) (o : Option (List Waiter))
    → IsWoken xs o
    → IsOrdered xs
    → ((ys : List Waiter)
        → Woken xs ys
        → HasPermits (suc n + count is_done xs) (length xs) (wake_up n ys))
    → HasPermits
        (suc n + count is_done xs)
        (length xs)
        (elim o [ none ↦ record { value = suc n; waiters = xs } | some ys ↦ wake_up n ys ])
wake_up_at n xs none done ordered rest = record {
  conserved = refl;
  queued = refl;
  ordered = ordered;
  handed_on = inr (all_done xs done);
}
wake_up_at n xs (some ys) woken ordered rest = rest ys woken

pub wake_up-HasPermits :
    (n : ℕ) (xs : List Waiter)
    → IsOrdered xs
    → HasPermits (n + count is_done xs) (length xs) (wake_up n xs)
unfolding wake_up
wake_up-HasPermits zero xs ordered = record {
  conserved = omega arith;
  queued = refl;
  ordered = ordered;
  handed_on = inl refl;
}
wake_up-HasPermits (suc n) xs ordered =
    wake_up_at n xs (wake_first xs) (wake_first-IsWoken xs) ordered (λ ys woken.
      same (count-Woken woken) (length-Woken woken)
        (wake_up-HasPermits n ys (IsOrdered-Woken woken ordered)))
  where
    same :
        {m k c d : ℕ} {s : Semaphore}
        → d ≡ suc c
        → k ≡ m
        → HasPermits (n + d) k s
        → HasPermits (suc n + c) m s
    same e f h = record {
      conserved = omega (arith, h.conserved);
      queued = omega (arith, h.queued);
      ordered = h.ordered;
      handed_on = h.handed_on;
    }

released :
    (n q : ℕ) (s : Semaphore) (o : Option (List Waiter))
    → IsWoken s.waiters o
    → HasPermits n q s
    → HasPermits (suc n) q (handed_to s o)
released n q s none done h = record {
  conserved = omega (arith, h.conserved);
  queued = h.queued;
  ordered = h.ordered;
  handed_on = inr (all_done s.waiters done);
}
released n q s (some ys) woken h = record {
  conserved = omega (arith, h.conserved, count-Woken woken);
  queued = length-Woken woken ∙ h.queued;
  ordered = IsOrdered-Woken woken h.ordered;
  handed_on = inr (inr (omega (arith, count-Woken woken)));
}

pub release_permit-HasPermits :
    (n q : ℕ) (s : Semaphore) → HasPermits n q s → HasPermits (suc n) q (release_permit s)
unfolding release_permit
release_permit-HasPermits n q s h =
    released n q s (wake_first s.waiters) (wake_first-IsWoken s.waiters) h

is_empty_queue : (xs : List Waiter) → any (λ x. true) xs ≡ false → length xs ≡ 0
is_empty_queue [] e = refl
is_empty_queue (x ∷ xs) e = cc

is_queue : (xs : List Waiter) → any (λ x. true) xs ≡ true → 1 ≤ length xs
is_queue [] e = cc
is_queue (x ∷ xs) e = omega arith

is_locked_lem : (s : Semaphore) → is_locked s ≡ true → (s.value ≡ 0) ⊎ (1 ≤ length s.waiters)
unfolding is_locked
is_locked_lem s e = elim (or_cases (s.value == 0) (any (λ x. true) s.waiters) e) [
  | inl z ↦ inl (ground arith)
  | inr w ↦ inr (is_queue s.waiters w)
]

-- A task that finds the semaphore locked goes to the end of the queue.
pub queue_up-HasPermits :
    (n q task : ℕ) (s : Semaphore)
    → is_locked s ≡ true
    → HasPermits n q s
    → HasPermits n
        (suc q)
        (record s { waiters = s.waiters ++ (record { task = task; done = false } ∷ []) })
queue_up-HasPermits n q task s e h = record {
  conserved = rw same h.conserved;
  queued = length-snoc s.waiters _ ∙ ap suc h.queued;
  ordered = IsOrdered-snoc s.waiters _ refl h.ordered;
  handed_on = handed (is_locked_lem s e) h.handed_on;
}
  where
    same :
        count is_done (s.waiters ++ (record { task = task; done = false } ∷ []))
        ≡ count is_done s.waiters
    same = count-snoc_not is_done s.waiters (record { task = task; done = false }) refl

    handed :
        (s.value ≡ 0) ⊎ (1 ≤ length s.waiters)
        → (s.value ≡ 0) ⊎ (length s.waiters ≡ 0) ⊎ (1 ≤ count is_done s.waiters)
        → (s.value ≡ 0)
          ⊎ (length (s.waiters ++ (record { task = task; done = false } ∷ [])) ≡ 0)
          ⊎ (1 ≤ count is_done (s.waiters ++ (record { task = task; done = false } ∷ [])))
    handed e (inl z) = inl z
    handed (inl z) (inr (inl f)) = inl z
    handed (inr w) (inr (inl f)) = absurd (omega arith)
    handed e (inr (inr c)) = inr (inr (rw same c))

-- A task that does not finds a free permit and an empty queue.
pub not_locked : (s : Semaphore) → is_locked s ≡ false → (1 ≤ s.value) × (length s.waiters ≡ 0)
unfolding is_locked
not_locked s e =
    let (value, waiters) = or_false (s.value == 0) (any (λ x. true) s.waiters) e in
    (ground arith, is_empty_queue s.waiters waiters)

pub enter-HasPermits :
    (n q : ℕ) (s : Semaphore)
    → is_locked s ≡ false
    → HasPermits (suc n) q s
    → HasPermits n q (record s { value = s.value - 1 })
enter-HasPermits n q s e h =
    let (some_left, nobody) = not_locked s e in
    record {
      conserved = omega (arith, h.conserved, some_left);
      queued = h.queued;
      ordered = h.ordered;
      handed_on = inr (inl nobody);
    }
