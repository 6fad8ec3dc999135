-- ===== src/RetryQueue/Sound.antt =====
-- Every operation of the repository keeps the table sound.
use scamanager.Prelude.{
  ℕ, ◌+◌, ◌<◌, ◌≡◌, refl, Option, some, String, false, List, [], ◌∷◌, ◌++◌, All, All-imp,
  All-append, find?, any, arith, Option-cases, Bool-cases, inl, inr,
}
use scamanager.RetryQueue.Row.{
  Status, Row, Queue, abandoned, is_pending, conflicts, violates_active, insert_row,
}
use scamanager.RetryQueue.Defs.{
  Deferral, Others, has_id, new_row, bump, bump_row, bump_winner, insert_or_recover,
  enqueue_or_bump, is_active_for, delete_all_for_repo, purge_terminal,
}
use scamanager.RetryQueue.Claim.{
  claim_row, is_owned, update_owned, released_row, release_claim, marked_row, mark_status,
  abandon_stale_for_pr,
}
use scamanager.RetryQueue.Invariant.{
  Apart, AllApart, HasFairClaim, IsSound, IsTame, update_where-IsSound, filter-IsSound,
}

bump_row-IsTame : (d : Deferral) (now : ℕ) → IsTame (bump_row d now)
bump_row-IsTame d now = record {
  id_kept = λ r. refl;
  repo_kept = λ r. refl;
  pr_kept = λ r. refl;
  sha_kept = λ r. refl;
  ended = λ r h. h;
}

pub claim_row-IsTame : (now : ℕ) (tok : String) → IsTame (claim_row now tok)
claim_row-IsTame now tok = record {
  id_kept = λ r. refl;
  repo_kept = λ r. refl;
  pr_kept = λ r. refl;
  sha_kept = λ r. refl;
  ended = λ r h. h;
}

released_row-IsTame :
    (at : ℕ) (reason detail : Option String) (now : ℕ) → IsTame (released_row at reason detail now)
released_row-IsTame at reason detail now = record {
  id_kept = λ r. refl;
  repo_kept = λ r. refl;
  pr_kept = λ r. refl;
  sha_kept = λ r. refl;
  ended = λ r h. h;
}

marked_row-IsTame :
    (status : Status) (reason : Option String) (now : ℕ)
    → is_pending status ≡ false
    → IsTame (marked_row status reason now)
marked_row-IsTame status reason now ends = record {
  id_kept = λ r. refl;
  repo_kept = λ r. refl;
  pr_kept = λ r. refl;
  sha_kept = λ r. refl;
  ended = λ r h. ends;
}

pub delete_all_for_repo-IsSound :
    (repo : String) {q : Queue} → IsSound q → IsSound (delete_all_for_repo q repo).1
unfolding delete_all_for_repo
delete_all_for_repo-IsSound repo h = filter-IsSound _ h

pub purge_terminal-IsSound :
    (older_than_days now : ℕ) {q : Queue}
    → IsSound q
    → IsSound (purge_terminal q older_than_days now).1
unfolding purge_terminal
purge_terminal-IsSound older_than_days now h = filter-IsSound _ h

pub bump-IsSound :
    (d : Deferral) (now : ℕ) (existing : Row) {q : Queue}
    → IsSound q
    → IsSound (bump d now existing q).1
unfolding bump
bump-IsSound d now existing {q} h =
    update_where-IsSound (has_id existing.id) (bump_row d now) (bump_row-IsTame d now)
      (All-imp _ _ (λ r fair e. fair) q.rows h.claims) h

Apart-new_row :
    (new : Row) (rows : List Row)
    → any (λ r. conflicts r new) rows ≡ false
    → All (λ r. r.id < new.id) rows
    → All (λ r. Apart r new) rows
Apart-new_row new [] h k = tt
Apart-new_row new (r ∷ rows) h k =
    ((omega arith, ground arith), Apart-new_row new rows (ground arith) k.1)

AllApart-snoc :
    (rows : List Row) (new : Row)
    → AllApart rows
    → All (λ r. Apart r new) rows
    → AllApart (rows ++ (new ∷ []))
AllApart-snoc [] new h k = (tt, tt)
AllApart-snoc (r ∷ rows) new h k =
    (All-append (Apart r) rows (new ∷ []) h.0 (k.0, tt), AllApart-snoc rows new h.1 k.1)

pub insert_row-IsSound :
    (new : Row) {q : Queue}
    → new.id ≡ q.next_id
    → HasFairClaim new
    → violates_active new q.rows ≡ false
    → IsSound q
    → IsSound (insert_row new q)
unfolding insert_row violates_active
insert_row-IsSound new {q} e fair accepted h = record {
  apart = AllApart-snoc q.rows new h.apart (Apart-new_row new q.rows accepted (rw e h.fresh));
  fresh =
      All-append (λ r. r.id < q.next_id + 1) q.rows (new ∷ [])
        (All-imp _ _ (λ r lt. omega arith) q.rows h.fresh) (omega arith, tt);
  claims = All-append HasFairClaim q.rows (new ∷ []) h.claims (fair, tt);
}

-- The other sessions keep the table sound.
pub record AreSound (others : Others) : Type 0 where
  pub before_insert : {q : Queue} → IsSound q → IsSound (others.before_insert q)
  pub before_requery : {q : Queue} → IsSound q → IsSound (others.before_requery q)

bump_winner-IsSound :
    (d : Deferral) (now : ℕ) {q : Queue} → IsSound q → IsSound (bump_winner d now q).1
unfolding bump_winner
bump_winner-IsSound d now {q} h = elim (Option-cases (find? (is_active_for d) q.rows)) [
  | inl e ↦ rw (e, bump_winner) h
  | inr (w, e) ↦ rw (e, bump_winner) (bump-IsSound d now w h)
]

insert_or_recover-IsSound :
    (d : Deferral) (now inserted_at : ℕ) (others : Others) {q : Queue}
    → AreSound others
    → IsSound q
    → IsSound (insert_or_recover d now inserted_at others q).1
unfolding insert_or_recover
insert_or_recover-IsSound d now inserted_at others {q} ok h =
    elim (Bool-cases (violates_active (new_row d now inserted_at q.next_id) q.rows)) [
      | inl e ↦ rw e (bump_winner-IsSound d now (ok.before_requery h))
      | inr e ↦
          rw e (
            insert_row-IsSound _ (unfold new_row in refl) (unfold new_row in (refl, λ p. refl)) e h)
    ]

-- A call keeps a sound table sound, also when it raises, if the other sessions do.
pub enqueue_or_bump-IsSound :
    (d : Deferral) (now inserted_at : ℕ) (others : Others) {q : Queue}
    → AreSound others
    → IsSound q
    → IsSound (enqueue_or_bump d now inserted_at others q).1
unfolding enqueue_or_bump
enqueue_or_bump-IsSound d now inserted_at others {q} ok h =
    elim (Option-cases (find? (is_active_for d) q.rows)) [
      | inl e ↦
          rw (e, enqueue_or_bump)
            (insert_or_recover-IsSound d now inserted_at others ok (ok.before_insert h))
      | inr (r, e) ↦ rw (e, enqueue_or_bump) (bump-IsSound d now r h)
    ]

-- A release, and each mark, writes no claim.
pub update_owned-IsSound :
    (row_id : ℕ) (expected : Option String) (change : Row → Row) {q : Queue}
    → IsTame change
    → ((r : Row) → HasFairClaim (change r))
    → IsSound q
    → IsSound (update_owned row_id expected change q).1
unfolding update_owned
update_owned-IsSound row_id expected change {q} tame fair h =
    elim (Option-cases (find? (is_owned row_id expected) q.rows)) [
      | inl e ↦ rw (e, update_owned) h
      | inr (r, e) ↦
          rw (e, update_owned)
            (update_where-IsSound (has_id r.id) change tame
              (All-imp _ _ (λ s _ _. fair s) q.rows h.claims) h)
    ]

pub release_claim-IsSound :
    (row_id at : ℕ) (reason detail expected : Option String) (now : ℕ) {q : Queue}
    → IsSound q
    → IsSound (release_claim row_id at reason detail expected now q).1
unfolding release_claim
release_claim-IsSound row_id at reason detail expected now =
    update_owned-IsSound row_id expected (released_row at reason detail now)
      (released_row-IsTame at reason detail now) (λ r. (refl, λ p. refl))

pub mark_status-IsSound :
    (row_id : ℕ) (status : Status) (reason : Option String) (now : ℕ) (expected : Option String)
    {q : Queue}
    → is_pending status ≡ false
    → IsSound q
    → IsSound (mark_status row_id status reason now expected q).1
unfolding mark_status
mark_status-IsSound row_id status reason now expected ends =
    update_owned-IsSound row_id expected (marked_row status reason now)
      (marked_row-IsTame status reason now ends) (λ r. (refl, λ p. refl))

pub abandon_stale_for_pr-IsSound :
    (repo : String) (pr : ℕ) (current_sha reason : String) (now : ℕ) {q : Queue}
    → IsSound q
    → IsSound (abandon_stale_for_pr repo pr current_sha reason now q).1
unfolding abandon_stale_for_pr
abandon_stale_for_pr-IsSound repo pr current_sha reason now {q} h =
    update_where-IsSound _ _ (marked_row-IsTame abandoned (some reason) now refl)
      (All-imp _ _ (λ r _ _. (refl, λ p. refl)) q.rows h.claims) h
