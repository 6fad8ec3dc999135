-- ===== src/RetryQueue/Selection.antt =====
-- What the SELECT of `claim_batch` returns.
use scamanager.Prelude.{
  ℕ, ◌≤◌, ◌≡◌, Option, Bool, true, false, not, ◌&&◌, List, [], ◌∷◌, Memᴰ, All, All-imp, All-take,
  All-pair, All-filter, All-filter_self, All-Memᴰ, length, length-take, filter, take, arith, leb,
  leb→lt, leb→le, Bool-cases, inl, inr, and_left,
}
use scamanager.RetryQueue.Row.{Row, Queue}
use scamanager.RetryQueue.Defs.{order_by_due, insert_by_due}
use scamanager.RetryQueue.Claim.{is_claimable, select_claimable}

module _ (P : Row → Type 0) where
  All-insert_by_due : (r : Row) (rows : List Row) → P r → All P rows → All P (insert_by_due r rows)
  unfolding insert_by_due
  All-insert_by_due r [] h k = (h, tt)
  All-insert_by_due r (s ∷ rows) h k = elim (Bool-cases (leb r.next_retry_at s.next_retry_at)) [
    | inl e ↦ rw e (h, k)
    | inr e ↦ rw e (k.0, All-insert_by_due r rows h k.1)
  ]

  All-order_by_due : (rows : List Row) → All P rows → All P (order_by_due rows)
  unfolding order_by_due
  All-order_by_due [] h = tt
  All-order_by_due (r ∷ rows) h =
      All-insert_by_due r (order_by_due rows) h.0 (All-order_by_due rows h.1)

-- The rows come in the order of their due times.
abbrev pub IsDueOrdered : List Row → Type 0
IsDueOrdered [] = Unit
IsDueOrdered (r ∷ rows) = All (λ s. r.next_retry_at ≤ s.next_retry_at) rows × IsDueOrdered rows

insert_by_due-IsDueOrdered :
    (r : Row) (rows : List Row) → IsDueOrdered rows → IsDueOrdered (insert_by_due r rows)
unfolding insert_by_due
insert_by_due-IsDueOrdered r [] h = (tt, tt)
insert_by_due-IsDueOrdered r (s ∷ rows) h =
    elim (Bool-cases (leb r.next_retry_at s.next_retry_at)) [
      | inl e ↦ rw e (
        (
          leb→le _ _ e,
          All-imp _ _ (λ t le. omega (arith, leb→le r.next_retry_at s.next_retry_at e)) rows h.0,
        ),
        h,
      )
      | inr e ↦ rw e (
        All-insert_by_due (λ t. s.next_retry_at ≤ t.next_retry_at) r rows
            (omega (arith, leb→lt r.next_retry_at s.next_retry_at e)) h.0,
        insert_by_due-IsDueOrdered r rows h.1,
      )
    ]

order_by_due-IsDueOrdered : (rows : List Row) → IsDueOrdered (order_by_due rows)
unfolding order_by_due
order_by_due-IsDueOrdered [] = tt
order_by_due-IsDueOrdered (r ∷ rows) =
    insert_by_due-IsDueOrdered r (order_by_due rows) (order_by_due-IsDueOrdered rows)

take-IsDueOrdered : (n : ℕ) (rows : List Row) → IsDueOrdered rows → IsDueOrdered (take n rows)
take-IsDueOrdered ℕ.zero rows h = tt
take-IsDueOrdered (ℕ.suc n) [] h = tt
take-IsDueOrdered (ℕ.suc n) (r ∷ rows) h = (All-take _ n rows h.0, take-IsDueOrdered n rows h.1)

module _ (now limit stale : ℕ) (only_ids : Option (List ℕ)) (locked : ℕ → Bool) (q : Queue) where
  -- Each selected row is in the table, claimable and not locked.
  abbrev pub IsSelected : Row → Type 0
  IsSelected r = Memᴰ r q.rows × (is_claimable now stale only_ids r ≡ true) × (locked r.id ≡ false)

  pub All-select_claimable : All IsSelected (select_claimable now limit stale only_ids locked q)
  unfolding select_claimable
  All-select_claimable = All-take IsSelected limit _ (
      All-order_by_due IsSelected _ (
        All-imp
          (λ r. Memᴰ r q.rows × ((is_claimable now stale only_ids r && not (locked r.id)) ≡ true))
          IsSelected (λ r h. (h.0, and_left _ _ h.1, ground (arith, h.1))) _
          (All-pair _ _ _ (All-filter _ _ q.rows (All-Memᴰ q.rows)) (All-filter_self _ q.rows))))

  pub length-select_claimable : length (select_claimable now limit stale only_ids locked q) ≤ limit
  unfolding select_claimable
  length-select_claimable = length-take limit _

  pub select_claimable-IsDueOrdered :
      IsDueOrdered (select_claimable now limit stale only_ids locked q)
  unfolding select_claimable
  select_claimable-IsDueOrdered = take-IsDueOrdered limit _ (
      order_by_due-IsDueOrdered
        (filter (λ r. is_claimable now stale only_ids r && not (locked r.id)) q.rows))
