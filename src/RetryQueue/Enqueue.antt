-- ===== src/RetryQueue/Enqueue.antt =====
-- What `enqueue_or_bump` promises, also when another session inserts at the same time.
use scamanager.Prelude.{
  ℕ, ◌≡◌, refl, ◌≢◌, ◌↔◌, Option, none, some, Bool, true, false, List, [], ◌∷◌, find?, any, arith,
  eq_iff, eq_refl, ◌++◌, find?-update_where, Bool-cases, Option-cases, inl, inr, sym, ◌∙◌,
}
use scamanager.RetryQueue.Row.{Row, Queue, has_key, conflicts, violates_active, insert_row}
use scamanager.RetryQueue.Defs.{
  Deferral, Others, EnqueueResult, has_id, new_row, bump, bump_row, bump_winner, insert_or_recover,
  enqueue_or_bump, is_active_for, next_retry,
}

-- The pending row of a key.
abbrev pub active : Deferral → Queue → Option Row
active d q = find? (is_active_for d) q.rows

-- The index rejects the new row exactly when the key has a pending row.
violates_active-new_row :
    (d : Deferral) (now at n : ℕ) (rows : List Row)
    → violates_active (new_row d now at n) rows ≡ any (is_active_for d) rows
unfolding violates_active conflicts new_row
violates_active-new_row d now at n [] = refl
violates_active-new_row d now at n (r ∷ rows) =
    ground (arith, violates_active-new_row d now at n rows)

any-find? : (p : Row → Bool) (rows : List Row) → any p rows ≡ false → find? p rows ≡ none
any-find? p [] h = refl
any-find? p (r ∷ rows) h = ground (arith, any-find? p rows)

any-find?_some : (p : Row → Bool) (rows : List Row) → any p rows ≡ true → find? p rows ≢ none
any-find?_some p [] h e = cc
any-find?_some p (r ∷ rows) h e = ground (arith, any-find?_some p rows)

find?-snoc :
    (p : Row → Bool) (rows : List Row) (new : Row)
    → any p rows ≡ false
    → p new ≡ true
    → find? p (rows ++ (new ∷ [])) ≡ some new
find?-snoc p [] new h t = rw t
find?-snoc p (r ∷ rows) new h t = ground (arith, find?-snoc p rows new)

is_active_for-new_row : (d : Deferral) (now at n : ℕ) → is_active_for d (new_row d now at n) ≡ true
unfolding new_row has_key
is_active_for-new_row d now at n = ground (
  arith,
  eq_iff d.repo_full_name d.repo_full_name,
  eq_iff d.commit_sha d.commit_sha,
  eq_refl d.repo_full_name,
  eq_refl d.commit_sha,
)

is_active_for-bump_row :
    (d : Deferral) (now : ℕ) (r : Row) → is_active_for d (bump_row d now r) ≡ is_active_for d r
unfolding has_key
is_active_for-bump_row d now r = refl

-- The row that a call returns is the pending row of its key in the table that the call leaves, and
-- it is due after the initial delay.
abbrev pub Deferred : Deferral → ℕ → Option EnqueueResult × Queue → Type 0
Deferred d now (none, q) = Unit
Deferred d now (some result, q) =
    (active d q ≡ some result.row) × (result.row.next_retry_at ≡ next_retry d now)

bump-Deferred :
    (d : Deferral) (now : ℕ) (q : Queue) (r : Row)
    → active d q ≡ some r
    → Deferred d now (bump d now r q)
unfolding bump
bump-Deferred d now q r e = (
  find?-update_where (is_active_for d) (has_id r.id) (bump_row d now) (is_active_for-bump_row d now)
        q.rows
      ∙ rw e (ground arith),
  refl,
)

bump_winner-Deferred : (d : Deferral) (now : ℕ) (q : Queue) → Deferred d now (bump_winner d now q)
unfolding bump_winner
bump_winner-Deferred d now q = elim (Option-cases (active d q)) [
  | inl e ↦ rw (e, bump_winner) tt
  | inr (w, e) ↦ rw (e, bump_winner) (bump-Deferred d now q w e)
]

insert_or_recover-Deferred :
    (d : Deferral) (now at : ℕ) (others : Others) (q : Queue)
    → Deferred d now (insert_or_recover d now at others q)
unfolding insert_or_recover
insert_or_recover-Deferred d now at others q =
    elim (Bool-cases (violates_active (new_row d now at q.next_id) q.rows)) [
      | inl e ↦ rw e (bump_winner-Deferred d now (others.before_requery q))
      | inr e ↦ rw e (
        unfold insert_row in
            find?-snoc (is_active_for d) q.rows _
              (sym (violates_active-new_row d now at q.next_id q.rows) ∙ e)
              (is_active_for-new_row d now at q.next_id),
        unfold new_row in refl,
      )
    ]

-- Whatever other sessions commit between its statements, a call that returns leaves its key with a
-- pending row: the row it returns, due after the initial delay.
pub enqueue_or_bump-Deferred :
    (d : Deferral) (now at : ℕ) (others : Others) (q : Queue)
    → Deferred d now (enqueue_or_bump d now at others q)
unfolding enqueue_or_bump
enqueue_or_bump-Deferred d now at others q = elim (Option-cases (active d q)) [
  | inl e ↦
      rw (e, enqueue_or_bump) (insert_or_recover-Deferred d now at others (others.before_insert q))
  | inr (r, e) ↦ rw (e, enqueue_or_bump) (bump-Deferred d now q r e)
]

bump-some : (d : Deferral) (now : ℕ) (r : Row) (q : Queue) → (bump d now r q).0 ≢ none
unfolding bump
bump-some d now r q e = cc

bump_winner-none :
    (d : Deferral) (now : ℕ) (q : Queue) → ((bump_winner d now q).0 ≡ none) ↔ (active d q ≡ none)
unfolding bump_winner
bump_winner-none d now q = elim (Option-cases (active d q)) [
  | inl e ↦ rw (e, bump_winner) ((λ h. refl), λ h. refl)
  | inr (w, e) ↦ rw (e, bump_winner) ((λ h. absurd (bump-some d now w q h)), λ h. cc)
]

insert_or_recover-none :
    (d : Deferral) (now at : ℕ) (others : Others) (q : Queue)
    → ((insert_or_recover d now at others q).0 ≡ none)
      ↔ ((active d q ≢ none) × (active d (others.before_requery q) ≡ none))
unfolding insert_or_recover
insert_or_recover-none d now at others q =
    let seen = violates_active-new_row d now at q.next_id q.rows in
    elim (Bool-cases (violates_active (new_row d now at q.next_id) q.rows)) [
      | inl e ↦
          let stage = bump_winner-none d now (others.before_requery q) in
          rw e (
            (λ h. (any-find?_some (is_active_for d) q.rows (sym seen ∙ e), stage.0 h)),
            λ h. stage.1 h.1,
          )
      | inr e ↦
          rw e ((λ h. cc), λ h. absurd (h.0 (any-find? (is_active_for d) q.rows (sym seen ∙ e))))
    ]

-- A call raises exactly when its key had no pending row at first, another session's pending row
-- made the INSERT fail, and that row was gone again when the handler looked for it.
pub enqueue_or_bump_raises_iff :
    (d : Deferral) (now at : ℕ) (others : Others) (q : Queue)
    → let inserting = others.before_insert q in
      ((enqueue_or_bump d now at others q).0 ≡ none) ↔ (
        (active d q ≡ none)
        × (active d inserting ≢ none)
        × (active d (others.before_requery inserting) ≡ none))
unfolding enqueue_or_bump
enqueue_or_bump_raises_iff d now at others q = elim (Option-cases (active d q)) [
  | inl e ↦
      let stage = insert_or_recover-none d now at others (others.before_insert q) in
      rw (e, enqueue_or_bump) ((λ h. (refl, (stage.0 h).0, (stage.0 h).1)), λ h. stage.1 (h.1, h.2))
  | inr (r, e) ↦ rw (e, enqueue_or_bump) ((λ h. absurd (bump-some d now r q h)), λ h. cc)
]
