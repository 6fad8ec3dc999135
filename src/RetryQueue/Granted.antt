-- ===== src/RetryQueue/Granted.antt =====
-- Which rows a batch returns, and how.
use scamanager.Prelude.{
  ℕ, zero, suc, ◌+◌, ◌-◌, ◌*◌, ◌≤◌, ◌<◌, ◌≡◌, refl, sym, ap, ◌∙◌, subst, ◌⊎◌, inl, inr, Option,
  none, some, String, Bool, true, false, not, ◌&&◌, List, [], ◌∷◌, Memᴰ, All, All-imp, length,
  length-map, map, take, and_left, and_right, arith, ◌==◌, leb, leb→le, Bool-cases,
}
use scamanager.RetryPolicy.Defs.{seconds}
use scamanager.RetryQueue.Row.{Row, Queue, pending, is_pending}
use scamanager.RetryQueue.Defs.{order_by_due, insert_by_due}
use scamanager.RetryQueue.Claim.{
  is_claimable, is_free, is_due, claim_row, select_claimable, commit_claims, claim_batch, member,
}
use scamanager.RetryQueue.Cleanup.{kept_by_filter, is_pending-true}
use scamanager.RetryQueue.Selection.{IsSelected, IsDueOrdered}
use scamanager.RetryQueue.Claims.{claim_batch-granted}

-- No worker holds the row, or its claim is older than `stale` seconds.
abbrev pub IsUnclaimed : ℕ → ℕ → Row → Type 0
IsUnclaimed now stale r =
    (r.claimed_at ≡ none) ⊎ ((t : ℕ) × (r.claimed_at ≡ some t) × (t + stale * 1000000 < now))

-- The row is among the given ids, or due if none are given.
abbrev pub IsDueFor : ℕ → Option (List ℕ) → Row → Type 0
IsDueFor now none r = r.next_retry_at ≤ now
IsDueFor now (some []) r = r.next_retry_at ≤ now
IsDueFor now (some (i ∷ ids)) r = Memᴰ r.id (i ∷ ids)

abbrev pub IsEligible : ℕ → ℕ → Option (List ℕ) → (ℕ → Bool) → Queue → Row → Type 0
IsEligible now stale only_ids locked q r =
    Memᴰ r q.rows
    × (r.status ≡ pending)
    × IsUnclaimed now stale r
    × IsDueFor now only_ids r
    × (locked r.id ≡ false)

-- The row with the claim and one more attempt.
abbrev pub claimed_as : ℕ → String → Row → Row
claimed_as now tok r = record r {
  claimed_at = some now;
  claim_token = some tok;
  attempts_count = r.attempts_count + 1;
  last_attempt_at = some now;
  updated_at = now;
}

member-Memᴰ : (ids : List ℕ) (n : ℕ) → member ids n ≡ true → Memᴰ n ids
member-Memᴰ [] n e = cc
member-Memᴰ (m ∷ ids) n e = elim (Bool-cases (m == n)) [
  | inl s ↦ Memᴰ.head (ground arith)
  | inr s ↦ Memᴰ.tail (member-Memᴰ ids n (ground arith))
]

Memᴰ-member : (ids : List ℕ) (n : ℕ) → Memᴰ n ids → member ids n ≡ true
Memᴰ-member [] n m = elim m [ ]
Memᴰ-member (i ∷ ids) n (Memᴰ.head e) = ground arith
Memᴰ-member (i ∷ ids) n (Memᴰ.tail m) = let rest = Memᴰ-member ids n m in ground arith

is_free-IsUnclaimed :
    (now stale : ℕ) (r : Row)
    → is_free (now - seconds stale) r.claimed_at ≡ true
    → IsUnclaimed now stale r
is_free-IsUnclaimed now stale r = by_claim r.claimed_at
  where
    by_claim :
        (c : Option ℕ)
        → is_free (now - seconds stale) c ≡ true
        → (c ≡ none) ⊎ ((t : ℕ) × (c ≡ some t) × (t + stale * 1000000 < now))
    by_claim none e = inl refl
    by_claim (some t) e = inr (t, refl, ground arith)

IsUnclaimed-is_free :
    (now stale : ℕ) (r : Row)
    → IsUnclaimed now stale r
    → is_free (now - seconds stale) r.claimed_at ≡ true
IsUnclaimed-is_free now stale r (inl e) = rw e refl
IsUnclaimed-is_free now stale r (inr (t, e, old)) = rw e (ground arith)

is_due-IsDueFor :
    (now : ℕ) (only_ids : Option (List ℕ)) (r : Row)
    → is_due now only_ids r ≡ true
    → IsDueFor now only_ids r
is_due-IsDueFor now none r e = leb→le _ _ e
is_due-IsDueFor now (some []) r e = leb→le _ _ e
is_due-IsDueFor now (some (i ∷ ids)) r e = member-Memᴰ (i ∷ ids) r.id e

IsDueFor-is_due :
    (now : ℕ) (only_ids : Option (List ℕ)) (r : Row)
    → IsDueFor now only_ids r
    → is_due now only_ids r ≡ true
IsDueFor-is_due now none r le = ground arith
IsDueFor-is_due now (some []) r le = ground arith
IsDueFor-is_due now (some (i ∷ ids)) r m = Memᴰ-member (i ∷ ids) r.id m

IsSelected-IsEligible :
    (now limit stale : ℕ) (only_ids : Option (List ℕ)) (locked : ℕ → Bool) (q : Queue) (r : Row)
    → IsSelected now limit stale only_ids locked q r
    → IsEligible now stale only_ids locked q r
unfolding is_claimable
IsSelected-IsEligible now limit stale only_ids locked q r (m, e, free) =
    let waits = is_pending r.status in
    let unclaimed = is_free (now - seconds stale) r.claimed_at in
    let front = and_left (waits && unclaimed) (is_due now only_ids r) e in
    (
      m,
      is_pending-true r.status (and_left waits unclaimed front),
      is_free-IsUnclaimed now stale r (and_right waits unclaimed front),
      is_due-IsDueFor now only_ids r (and_right (waits && unclaimed) (is_due now only_ids r) e),
      free,
    )

IsEligible-claimable :
    (now stale : ℕ) (only_ids : Option (List ℕ)) (locked : ℕ → Bool) (q : Queue) (r : Row)
    → IsEligible now stale only_ids locked q r
    → (is_claimable now stale only_ids r && not (locked r.id)) ≡ true
unfolding is_claimable
IsEligible-claimable now stale only_ids locked q r (m, waits, unclaimed, due, free) =
    rw
      (
        ap is_pending waits,
        IsUnclaimed-is_free now stale r unclaimed,
        IsDueFor-is_due now only_ids r due,
        free,
      )
      refl

Memᴰ-insert_by_due :
    (r s : Row) (rows : List Row) → Memᴰ r (s ∷ rows) → Memᴰ r (insert_by_due s rows)
unfolding insert_by_due
Memᴰ-insert_by_due r s [] m = m
Memᴰ-insert_by_due r s (x ∷ rows) m = elim (Bool-cases (leb s.next_retry_at x.next_retry_at)) [
  | inl e ↦ rw e m
  | inr e ↦ rw e (past m (λ n. Memᴰ-insert_by_due r s rows n))
]
  where
    past :
        {out : List Row}
        → Memᴰ r (s ∷ x ∷ rows)
        → (Memᴰ r (s ∷ rows) → Memᴰ r out)
        → Memᴰ r (x ∷ out)
    past (Memᴰ.head e) on = Memᴰ.tail (on (Memᴰ.head e))
    past (Memᴰ.tail (Memᴰ.head e)) on = Memᴰ.head e
    past (Memᴰ.tail (Memᴰ.tail m)) on = Memᴰ.tail (on (Memᴰ.tail m))

Memᴰ-order_by_due : (r : Row) (rows : List Row) → Memᴰ r rows → Memᴰ r (order_by_due rows)
unfolding order_by_due
Memᴰ-order_by_due r [] m = m
Memᴰ-order_by_due r (x ∷ rows) (Memᴰ.head e) = Memᴰ-insert_by_due r x _ (Memᴰ.head e)
Memᴰ-order_by_due r (x ∷ rows) (Memᴰ.tail m) =
    Memᴰ-insert_by_due r x _ (Memᴰ.tail (Memᴰ-order_by_due r rows m))

-- What is taken, or so many that it was cut off.
Memᴰ-take :
    (n : ℕ) (rows : List Row) {r : Row}
    → Memᴰ r rows
    → (length (take n rows) ≡ n) ⊎ Memᴰ r (take n rows)
Memᴰ-take zero rows m = inl refl
Memᴰ-take (suc n) [] m = elim m [ ]
Memᴰ-take (suc n) (x ∷ rows) (Memᴰ.head e) = inr (Memᴰ.head e)
Memᴰ-take (suc n) (x ∷ rows) (Memᴰ.tail m) = elim (Memᴰ-take n rows m) [
  | inl e ↦ inl (ap suc e)
  | inr t ↦ inr (Memᴰ.tail t)
]

Memᴰ-mapped : (f : Row → Row) (rows : List Row) {r : Row} → Memᴰ r rows → Memᴰ (f r) (map f rows)
Memᴰ-mapped f [] m = elim m [ ]
Memᴰ-mapped f (x ∷ rows) (Memᴰ.head e) = Memᴰ.head (ap f e)
Memᴰ-mapped f (x ∷ rows) (Memᴰ.tail m) = Memᴰ.tail (Memᴰ-mapped f rows m)

commit_claims-mapped :
    (now : ℕ) (tok : String) (q : Queue) (rows : List Row)
    → (commit_claims now tok q rows).0 ≡ map (claim_row now tok) rows
unfolding commit_claims
commit_claims-mapped now tok q [] = refl
commit_claims-mapped now tok q (r ∷ rows) = refl

module _ (now limit stale : ℕ) (only_ids : Option (List ℕ)) (locked : ℕ → Bool) (tok : String) where
  -- Each row that a batch returns was in the table and eligible: pending, not claimed or claimed more than
  -- `stale` seconds ago, due or among the given ids if there are any, and not locked. It is returned with the claim
  -- of this batch at this time under its token, and one more attempt. There are at most `limit`, in the order
  -- of their due times.
  pub claim_batch_lem :
      (q : Queue)
      → let claimed = (claim_batch now limit stale only_ids locked tok q).0 in
        All
          (λ c. (r : Row) × IsEligible now stale only_ids locked q r × (c ≡ claimed_as now tok r))
          claimed
        × (length claimed ≤ limit)
        × IsDueOrdered claimed
  claim_batch_lem q =
      let (each, few, ordered) = claim_batch-granted now limit stale only_ids locked tok q in
      (
        All-imp _ _
            (λ c (r, s, e). (r, IsSelected-IsEligible now limit stale only_ids locked q r s, e)) _
            each,
        few,
        ordered,
      )

  -- A batch passes over no eligible row, unless it has as many rows as it may: such a row is returned with the claim.
  pub claim_batch_complete :
      (q : Queue) (r : Row)
      → IsEligible now stale only_ids locked q r
      → let claimed = (claim_batch now limit stale only_ids locked tok q).0 in
        (length claimed ≡ limit) ⊎ Memᴰ (claimed_as now tok r) claimed
  unfolding claim_batch select_claimable
  claim_batch_complete q r h =
      let rows = select_claimable now limit stale only_ids locked q in
      let same = commit_claims-mapped now tok q rows in
      let found = Memᴰ-take limit _ (
        Memᴰ-order_by_due r _ (
          kept_by_filter (λ s. is_claimable now stale only_ids s && not (locked s.id)) q.rows h.0
            (IsEligible-claimable now stale only_ids locked q r h))) in
      elim found [
        | inl e ↦ inl (ap length same ∙ length-map rows (claim_row now tok) ∙ e)
        | inr m ↦ inr (
            subst (Memᴰ (claimed_as now tok r)) (sym same) (Memᴰ-mapped (claim_row now tok) rows m))
      ]
