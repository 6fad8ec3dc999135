-- ===== src/RetryQueue/Claims.antt =====
-- What a claim gives its worker, and what it keeps from the others.
use scamanager.Prelude.{
  ℕ, ◌+◌, ◌-◌, ◌≤◌, ◌≡◌, refl, ap, subst, Option, some, String, Bool, true, false, List, [], ◌∷◌,
  Memᴰ, All, All-imp, All-elim, All-map, All-Memᴰ, All-update_where_cases, length, length-map, map,
  arith, ◌==◌, Bool-cases, inl, inr,
}
use scamanager.RetryPolicy.Defs.{seconds}
use scamanager.RetryQueue.Row.{Row, Queue, is_pending}
use scamanager.RetryQueue.Claim.{
  is_claimable, is_free, claim_row, select_claimable, commit_claims, claim_batch, member, row_ids,
}
use scamanager.RetryQueue.Invariant.{HasFairClaim, IsSound, update_where-IsSound, same_row}
use scamanager.RetryQueue.Sound.{claim_row-IsTame}
use scamanager.RetryQueue.Selection.{
  IsSelected, IsDueOrdered, All-select_claimable, length-select_claimable,
  select_claimable-IsDueOrdered,
}

member-row_ids :
    (rows : List Row) (n : ℕ)
    → member (row_ids rows) n ≡ true
    → (s : Row) × Memᴰ s rows × (s.id ≡ n)
member-row_ids [] n h = cc
member-row_ids (r ∷ rows) n h = elim (Bool-cases (r.id == n)) [
  | inl e ↦ (r, Memᴰ.head refl, ground arith)
  | inr e ↦ let (s, m, p) = member-row_ids rows n (ground arith) in (s, Memᴰ.tail m, p)
]

is_claimable-pending :
    (now stale : ℕ) (only_ids : Option (List ℕ)) (r : Row)
    → is_claimable now stale only_ids r ≡ true
    → is_pending r.status ≡ true
unfolding is_claimable
is_claimable-pending now stale only_ids r h = ground arith

is_claimable-free :
    (now stale : ℕ) (only_ids : Option (List ℕ)) (r : Row)
    → is_claimable now stale only_ids r ≡ true
    → is_free (now - seconds stale) r.claimed_at ≡ true
unfolding is_claimable
is_claimable-free now stale only_ids r h = ground arith

commit_claims-IsSound :
    (now : ℕ) (tok : String) {q : Queue} (rows : List Row)
    → All (λ s. Memᴰ s q.rows × (is_pending s.status ≡ true)) rows
    → IsSound q
    → IsSound (commit_claims now tok q rows).1
unfolding commit_claims
commit_claims-IsSound now tok [] chosen h = h
commit_claims-IsSound now tok {q} (r ∷ rest) chosen h =
    update_where-IsSound (λ s. member (row_ids (r ∷ rest)) s.id) (claim_row now tok)
      (claim_row-IsTame now tok)
      (All-imp (λ s. Memᴰ s q.rows)
        (λ s. member (row_ids (r ∷ rest)) s.id ≡ true → HasFairClaim (claim_row now tok s))
        (λ s m e. (refl, λ ended. cc (ended, is_chosen s m e))) q.rows (All-Memᴰ q.rows))
      h
  where
    is_chosen :
        (s : Row)
        → Memᴰ s q.rows
        → member (row_ids (r ∷ rest)) s.id ≡ true
        → is_pending s.status ≡ true
    is_chosen s m e =
        let (t, n, p) = member-row_ids (r ∷ rest) s.id e in
        let c = All-elim (λ s. Memᴰ s q.rows × (is_pending s.status ≡ true)) (r ∷ rest) chosen n in
        subst (λ (x : Row). is_pending x.status ≡ true) (same_row q.rows h.apart c.0 m p) c.1

IsDueOrdered-claim_row :
    (now : ℕ) (tok : String) (rows : List Row)
    → IsDueOrdered rows
    → IsDueOrdered (map (claim_row now tok) rows)
IsDueOrdered-claim_row now tok [] h = tt
IsDueOrdered-claim_row now tok (r ∷ rows) h =
    (All-map _ (claim_row now tok) rows h.0, IsDueOrdered-claim_row now tok rows h.1)

commit_claims-granted :
    (now : ℕ) (tok : String) (q : Queue) (Selected : Row → Type 0) (limit : ℕ) (rows : List Row)
    → All Selected rows
    → length rows ≤ limit
    → IsDueOrdered rows
    → let claimed = (commit_claims now tok q rows).0 in
      All (λ c. (r : Row) × Selected r × (c ≡ claim_row now tok r)) claimed
      × (length claimed ≤ limit)
      × IsDueOrdered claimed
unfolding commit_claims
commit_claims-granted now tok q Selected limit [] h k d = (tt, k, tt)
commit_claims-granted now tok q Selected limit (r ∷ rest) h k d = (
  All-map _ (claim_row now tok) (r ∷ rest) (All-imp Selected _ (λ s c. (s, c, refl)) (r ∷ rest) h),
  rw (length-map rest (claim_row now tok)) k,
  IsDueOrdered-claim_row now tok (r ∷ rest) d,
)

module _ (now limit stale : ℕ) (only_ids : Option (List ℕ)) (locked : ℕ → Bool) (tok : String) where
  -- A batch keeps a sound table sound.
  pub claim_batch-IsSound :
      {q : Queue} → IsSound q → IsSound (claim_batch now limit stale only_ids locked tok q).1
  unfolding claim_batch
  claim_batch-IsSound {q} h =
      commit_claims-IsSound now tok (select_claimable now limit stale only_ids locked q)
        (All-imp _ _ (λ r s. (s.0, is_claimable-pending now stale only_ids r s.1)) _
          (All-select_claimable now limit stale only_ids locked q))
        h

  -- Each row that a batch returns was in the table, claimable and not locked, and is returned with the
  -- batch's claim and one more attempt. There are at most `limit`, in the order of their due times.
  pub claim_batch-granted :
      (q : Queue)
      → let claimed = (claim_batch now limit stale only_ids locked tok q).0 in
        All
          (λ c.
            (r : Row) × IsSelected now limit stale only_ids locked q r × (c ≡ claim_row now tok r))
          claimed
        × (length claimed ≤ limit)
        × IsDueOrdered claimed
  unfolding claim_batch
  claim_batch-granted q =
      commit_claims-granted now tok q (IsSelected now limit stale only_ids locked q) limit
        (select_claimable now limit stale only_ids locked q)
        (All-select_claimable now limit stale only_ids locked q)
        (length-select_claimable now limit stale only_ids locked q)
        (select_claimable-IsDueOrdered now limit stale only_ids locked q)

module _ (now : ℕ) (tok : String) where
  row_ids-claim_row : (rows : List Row) → row_ids (map (claim_row now tok) rows) ≡ row_ids rows
  row_ids-claim_row [] = refl
  row_ids-claim_row (r ∷ rows) = ap (λ ids. r.id ∷ ids) (row_ids-claim_row rows)

  -- After the UPDATE every row of the table with the id of a claimed one carries the claim.
  commit_claims-claimed_at :
      (q : Queue) (rows : List Row)
      → All
          (λ r.
            member (row_ids (commit_claims now tok q rows).0) r.id ≡ true → r.claimed_at ≡ some now)
          (commit_claims now tok q rows).1.rows
  unfolding commit_claims
  commit_claims-claimed_at q [] =
      All-imp (λ r. Memᴰ r q.rows) _ (λ r _ e. cc) q.rows (All-Memᴰ q.rows)
  commit_claims-claimed_at q (r ∷ rest) = rw (row_ids-claim_row rest) (
      All-update_where_cases
        (λ s. member (row_ids (r ∷ rest)) s.id ≡ true → s.claimed_at ≡ some now)
        (λ s. member (row_ids (r ∷ rest)) s.id) (claim_row now tok) (λ s e _. refl) (λ s f e. cc)
        q.rows)

is_free_fresh :
    (cutoff now : ℕ) (c : Option ℕ) → cutoff ≤ now → c ≡ some now → is_free cutoff c ≡ false
is_free_fresh cutoff now c le e = rw e (ground arith)

claim_batch-claimed_at :
    (now limit stale : ℕ) (only_ids : Option (List ℕ)) (locked : ℕ → Bool) (tok : String)
    (q : Queue)
    → let (first, q') = claim_batch now limit stale only_ids locked tok q in
      All (λ r. member (row_ids first) r.id ≡ true → r.claimed_at ≡ some now) q'.rows
unfolding claim_batch
claim_batch-claimed_at now limit stale only_ids locked tok q =
    commit_claims-claimed_at now tok q (select_claimable now limit stale only_ids locked q)

-- While a claim is fresh no other worker gets its row: a second batch on the table that the first
-- left, with whatever limit, ids, locks and token, at most `stale` seconds later, returns no row of
-- the first.
pub claim_batch_exclusive :
    (now limit stale : ℕ) (only_ids : Option (List ℕ)) (locked : ℕ → Bool) (tok : String)
    (q : Queue) (later limit' : ℕ) (only_ids' : Option (List ℕ)) (locked' : ℕ → Bool)
    (tok' : String)
    → later ≤ now + seconds stale
    → let (first, q') = claim_batch now limit stale only_ids locked tok q in
      All
        (λ r. member (row_ids first) r.id ≡ false)
        (claim_batch later limit' stale only_ids' locked' tok' q').0
claim_batch_exclusive now limit stale only_ids locked tok q later limit' only_ids' locked' tok'
      soon =
    let (first, q') = claim_batch now limit stale only_ids locked tok q in
    All-imp
      (λ c.
        (r : Row) × IsSelected later limit' stale only_ids' locked' q' r
        × (c ≡ claim_row later tok' r))
      (λ c. member (row_ids first) c.id ≡ false) (λ c (r, s, e). rw e (not_first r s.0 s.1)) _
      (claim_batch-granted later limit' stale only_ids' locked' tok' q').0
  where
    not_first :
        (r : Row)
        → Memᴰ r (claim_batch now limit stale only_ids locked tok q).1.rows
        → is_claimable later stale only_ids' r ≡ true
        → member (row_ids (claim_batch now limit stale only_ids locked tok q).0) r.id ≡ false
    not_first r m c =
        elim (Bool-cases
          (member (row_ids (claim_batch now limit stale only_ids locked tok q).0) r.id)) [
            | inr e ↦ e
            | inl e ↦ cc (
              is_claimable-free later stale only_ids' r c,
              is_free_fresh (later - seconds stale) now r.claimed_at (omega arith) (
                  All-elim
                    (λ r.
                      member (row_ids (claim_batch now limit stale only_ids locked tok q).0) r.id
                        ≡ true
                      → r.claimed_at ≡ some now)
                    _ (claim_batch-claimed_at now limit stale only_ids locked tok q) m e),
            )
          ]
