-- ===== src/RetryQueue/Cleanup.antt =====
-- The three operations that clean up: after a force-push, by age, and with the repository.
use scamanager.Prelude.{
  refl, ◌≢◌, str_eq, eq_iff, none, some, and_left, and_right, ◌&&◌, ◌==◌, ℕ, ◌+◌, ◌-◌, ◌≡◌, ◌⊎◌,
  String, Bool, true, false, not, List, [], ◌∷◌, Memᴰ, All, All-imp, All-filter_self,
  All-update_where_cases, filter, count, length, update_where, arith, Bool-cases, inl, inr, ap, sym,
  ◌∙◌,
}
use scamanager.RetryQueue.Row.{
  Row, Queue, Status, pending, succeeded, failed_terminal, abandoned, expired, is_pending,
}
use scamanager.Prelude.Lengths.{length-update_where}
use scamanager.RetryQueue.Defs.{is_purgeable, days, purge_terminal}
use scamanager.RetryQueue.Claim.{marked_row, is_stale_for, abandon_stale_for_pr}

module _ (p : Row → Bool) where
  pub kept_by_filter :
      (rows : List Row) {r : Row} → Memᴰ r rows → p r ≡ true → Memᴰ r (filter p rows)
  kept_by_filter [] m t = elim m [ ]
  kept_by_filter (x ∷ rows) {r} (Memᴰ.head e) t = rw (ap p (sym e) ∙ t) (Memᴰ.head e)
  kept_by_filter (x ∷ rows) (Memᴰ.tail m) t = elim (Bool-cases (p x)) [
    | inl e ↦ rw e (Memᴰ.tail (kept_by_filter rows m t))
    | inr e ↦ rw e (kept_by_filter rows m t)
  ]

  kept_by_update :
      (f : Row → Row) (rows : List Row) {r : Row}
      → Memᴰ r rows
      → p r ≡ false
      → Memᴰ r (update_where p f rows)
  kept_by_update f [] m t = elim m [ ]
  kept_by_update f (x ∷ rows) {r} (Memᴰ.head e) t = Memᴰ.head (rw (ap p (sym e) ∙ t) e)
  kept_by_update f (x ∷ rows) (Memᴰ.tail m) t = Memᴰ.tail (kept_by_update f rows m t)

  count-filter :
      (rows : List Row) → count p rows + length (filter (λ r. not (p r)) rows) ≡ length rows
  count-filter [] = omega arith
  count-filter (x ∷ rows) = elim (Bool-cases (p x)) [
    | inl e ↦ rw e (omega (arith, count-filter rows))
    | inr e ↦ rw e (omega (arith, count-filter rows))
  ]

-- A row of another repository, of another pull request, of the current commit, or one that is not pending.
abbrev pub IsSpared : String → ℕ → String → Row → Type 0
IsSpared repo pr current_sha r =
    (r.repo_full_name ≢ repo)
    ⊎ (r.pr_number ≢ pr)
    ⊎ (r.status ≢ pending)
    ⊎ (r.commit_sha ≡ current_sha)

-- A pending row of the pull request at another commit.
abbrev pub IsOutdated : String → ℕ → String → Row → Type 0
IsOutdated repo pr current_sha r =
    (r.repo_full_name ≡ repo)
    × (r.pr_number ≡ pr)
    × (r.status ≡ pending)
    × (r.commit_sha ≢ current_sha)

-- The row as it is abandoned: its claim and its token are gone.
abbrev pub abandoned_as : String → ℕ → Row → Row
abandoned_as reason now r = record r {
  status = abandoned;
  last_failure_reason = some reason;
  claimed_at = none;
  claim_token = none;
  updated_at = now;
}

not_both : {A : Type 0} {b : Bool} → b ≡ true → b ≡ false → A
not_both t f = absurd (clash t f)
  where
    clash : {b : Bool} → b ≡ true → b ≡ false → ⊥
    clash t f = cc

pub is_pending-true : (s : Status) → is_pending s ≡ true → s ≡ pending
is_pending-true pending e = refl
is_pending-true succeeded e = cc
is_pending-true failed_terminal e = cc
is_pending-true abandoned e = cc
is_pending-true expired e = cc

different : (a b : String) → str_eq a b ≡ false → a ≢ b
different a b e same = not_both ((eq_iff a b).1 same) e

is_stale_for-IsOutdated :
    (repo : String) (pr : ℕ) (current_sha : String) (r : Row)
    → is_stale_for repo pr current_sha r ≡ true
    → IsOutdated repo pr current_sha r
is_stale_for-IsOutdated repo pr current_sha r e =
    let same_repo = str_eq r.repo_full_name repo in
    let same_pr = r.pr_number == pr in
    let (front, other) = both (same_repo && same_pr && is_pending r.status) _ e in
    let (key, waits) = both (same_repo && same_pr) _ front in
    let (a, b) = both same_repo same_pr key in
    (
      (eq_iff r.repo_full_name repo).0 a,
      ground arith,
      is_pending-true r.status waits,
      different r.commit_sha current_sha (negated other),
    )
  where
    both : (a b : Bool) → (a && b) ≡ true → (a ≡ true) × (b ≡ true)
    both a b e = (and_left a b e, and_right a b e)

    negated : {b : Bool} → not b ≡ true → b ≡ false
    negated e = ground arith

is_stale_for-IsSpared :
    (repo : String) (pr : ℕ) (current_sha : String) (r : Row)
    → is_stale_for repo pr current_sha r ≡ false
    → IsSpared repo pr current_sha r
is_stale_for-IsSpared repo pr current_sha r e = elim (Bool-cases (str_eq r.repo_full_name repo)) [
  | inr a ↦ inl (different r.repo_full_name repo a)
  | inl a ↦ elim (Bool-cases (r.pr_number == pr)) [
    | inr b ↦ inr (inl (λ same. ground arith))
    | inl b ↦ elim (Bool-cases (is_pending r.status)) [
      | inr c ↦ inr (inr (inl (λ same. not_both (ap is_pending same) c)))
      | inl c ↦ elim (Bool-cases (str_eq r.commit_sha current_sha)) [
        | inl d ↦ inr (inr (inr ((eq_iff r.commit_sha current_sha).0 d)))
        | inr d ↦ not_both (all_true a b c d) e
      ]
    ]
  ]
]
  where
    all_true :
        {a b c d : Bool}
        → a ≡ true
        → b ≡ true
        → c ≡ true
        → d ≡ false
        → (a && b && c && not d) ≡ true
    all_true a b c d = ground (arith, a, b, c, d)

abandoned-IsSpared :
    (repo : String) (pr : ℕ) (current_sha reason : String) (now : ℕ) (r : Row)
    → IsSpared repo pr current_sha (abandoned_as reason now r)
abandoned-IsSpared repo pr current_sha reason now r = inr (inr (inl (λ same. cc same)))

abandoned_in :
    (p : Row → Bool) (f : Row → Row) (rows : List Row) {r : Row}
    → Memᴰ r rows
    → p r ≡ true
    → Memᴰ (f r) (update_where p f rows)
abandoned_in p f [] m t = elim m [ ]
abandoned_in p f (x ∷ rows) (Memᴰ.head e) t = Memᴰ.head (rw (ap p (sym e) ∙ t) (ap f e))
abandoned_in p f (x ∷ rows) (Memᴰ.tail m) t = Memᴰ.tail (abandoned_in p f rows m t)

-- After a force-push each row of the table that is a pending one of the pull request at another commit than the
-- current one is in the table as abandoned, with the reason, without its claim and its token; each other
-- row of the table is still in it, unchanged; the table has as many rows as before; and no pending row of the
-- pull request is left at another commit.
pub abandon_stale_for_pr_lem :
    (repo : String) (pr : ℕ) (current_sha reason : String) (now : ℕ) (q : Queue) (r : Row)
    → Memᴰ r q.rows
    → let q' = (abandon_stale_for_pr repo pr current_sha reason now q).1 in
      (IsOutdated repo pr current_sha r × Memᴰ (abandoned_as reason now r) q'.rows
        ⊎ IsSpared repo pr current_sha r × Memᴰ r q'.rows)
      × (length q'.rows ≡ length q.rows)
      × All (IsSpared repo pr current_sha) q'.rows
unfolding abandon_stale_for_pr
abandon_stale_for_pr_lem repo pr current_sha reason now q r m = (
  elim (Bool-cases (is_stale_for repo pr current_sha r)) [
    | inl e ↦ inl (
      is_stale_for-IsOutdated repo pr current_sha r e,
      abandoned_in (is_stale_for repo pr current_sha) (marked_row abandoned (some reason) now)
          q.rows m e,
    )
    | inr e ↦ inr (
      is_stale_for-IsSpared repo pr current_sha r e,
      kept_by_update (is_stale_for repo pr current_sha) _ q.rows m e,
    )
  ],
  length-update_where (is_stale_for repo pr current_sha) (marked_row abandoned (some reason) now)
      q.rows,
  All-update_where_cases _ (is_stale_for repo pr current_sha) _
      (λ s e. abandoned-IsSpared repo pr current_sha reason now s)
      (λ s e. is_stale_for-IsSpared repo pr current_sha s e) q.rows,
)

-- The purge deletes no row of the table but those that are ended and older than the cutoff, leaves
-- none of those, and returns how many rows are gone.
pub purge_terminal_lem :
    (older_than_days now : ℕ) (q : Queue) (r : Row)
    → Memᴰ r q.rows
    → let (deleted, q') = purge_terminal q older_than_days now in
      ((is_purgeable (now - days older_than_days) r ≡ true) ⊎ Memᴰ r q'.rows)
      × All (λ s. is_purgeable (now - days older_than_days) s ≡ false) q'.rows
      × (deleted + length q'.rows ≡ length q.rows)
unfolding purge_terminal
purge_terminal_lem older_than_days now q r m = (
  elim (Bool-cases (is_purgeable (now - days older_than_days) r)) [
    | inl e ↦ inl e
    | inr e ↦ inr (kept_by_filter _ q.rows m (ap not e))
  ],
  All-imp _ _ (λ s e. ground (arith, e)) _
      (All-filter_self (λ s. not (is_purgeable (now - days older_than_days) s)) q.rows),
  count-filter (is_purgeable (now - days older_than_days)) q.rows,
)
