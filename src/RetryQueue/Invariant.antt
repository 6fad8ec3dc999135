-- ===== src/RetryQueue/Invariant.antt =====
-- What holds of the table between two transactions, and how a change of rows or a deletion keeps it.
use scamanager.Prelude.{
  ◌<◌, ◌≡◌, refl, ◌≢◌, Option, none, some, Bool, true, false, ◌&&◌, List, [], ◌∷◌, All, All-imp,
  All-elim, All-filter, Memᴰ, ◌∙◌, sym, ap, All-update_where, filter, update_where, touch, arith,
  Bool-cases, inl, inr,
}
use scamanager.RetryQueue.Row.{Row, Queue, is_pending, conflicts}

-- Two rows that the primary key and the partial unique index allow together.
abbrev pub Apart : Row → Row → Type 0
Apart r s = (r.id ≢ s.id) × (conflicts r s ≡ false)

abbrev pub AllApart : List Row → Type 0
AllApart [] = Unit
AllApart (r ∷ rows) = All (Apart r) rows × AllApart rows

abbrev pub is_none {ℓ} : {A : Type ℓ} → Option A → Bool
is_none none = true
is_none (some a) = false

-- A claim is a time with a token, and only a pending row has one.
abbrev pub HasFairClaim : Row → Type 0
HasFairClaim r =
    (is_none r.claimed_at ≡ is_none r.claim_token)
    × (is_pending r.status ≡ false → r.claim_token ≡ none)

pub record IsSound (q : Queue) : Type 0 where
  pub apart : AllApart q.rows
  pub fresh : All (λ r. r.id < q.next_id) q.rows
  pub claims : All HasFairClaim q.rows

-- A change that keeps a row's identity and never makes a row pending again.
pub record IsTame (f : Row → Row) : Type 0 where
  pub id_kept : (r : Row) → (f r).id ≡ r.id
  pub repo_kept : (r : Row) → (f r).repo_full_name ≡ r.repo_full_name
  pub pr_kept : (r : Row) → (f r).pr_number ≡ r.pr_number
  pub sha_kept : (r : Row) → (f r).commit_sha ≡ r.commit_sha
  pub ended : (r : Row) → is_pending r.status ≡ false → is_pending (f r).status ≡ false

and_weaken :
    (a b k a' b' : Bool)
    → (a ≡ false → a' ≡ false)
    → (b ≡ false → b' ≡ false)
    → (a && b && k) ≡ false
    → (a' && b' && k) ≡ false
and_weaken true true k a' b' f g h = rw h (both a' b')
  where
    both : (a b : Bool) → (a && b && false) ≡ false
    both a b = ground arith
and_weaken true false k a' b' f g h = rw (g refl) (both a' k)
  where
    both : (a k : Bool) → (a && false && k) ≡ false
    both a k = ground arith
and_weaken false b k a' b' f g h = rw (f refl)

module _ (g : Row → Row) (t : IsTame g) where
  pub conflicts-tame : (r s : Row) → conflicts r s ≡ false → conflicts (g r) (g s) ≡ false
  unfolding conflicts
  conflicts-tame r s h =
      rw (t.repo_kept r, t.repo_kept s, t.pr_kept r, t.pr_kept s, t.sha_kept r, t.sha_kept s)
        (and_weaken _ _ _ _ _ (t.ended r) (t.ended s) h)

  Apart-tame : (r s : Row) → Apart r s → Apart (g r) (g s)
  Apart-tame r s h = (rw (t.id_kept r, t.id_kept s) h.0, conflicts-tame r s h.1)

module _ (p : Row → Bool) (f : Row → Row) (t : IsTame f) where
  touch-IsTame : IsTame (touch p f)
  touch-IsTame = record {
    id_kept = λ r. ground (arith, t.id_kept r);
    repo_kept = λ r. ground (arith, t.repo_kept r);
    pr_kept = λ r. ground (arith, t.pr_kept r);
    sha_kept = λ r. ground (arith, t.sha_kept r);
    ended = λ r h. ground (arith, t.ended r h);
  }

  Apart-touch : (r s : Row) → Apart r s → Apart (touch p f r) (touch p f s)
  Apart-touch = Apart-tame (touch p f) touch-IsTame

  All-Apart-touch :
      (r : Row) (rows : List Row)
      → All (Apart r) rows
      → All (Apart (touch p f r)) (update_where p f rows)
  All-Apart-touch r [] h = tt
  All-Apart-touch r (s ∷ rows) h = (Apart-touch r s h.0, All-Apart-touch r rows h.1)

  pub AllApart-update_where : (rows : List Row) → AllApart rows → AllApart (update_where p f rows)
  AllApart-update_where [] h = tt
  AllApart-update_where (r ∷ rows) h = (All-Apart-touch r rows h.0, AllApart-update_where rows h.1)

  -- A tame change of some rows that keeps their claims fair keeps the table sound.
  pub update_where-IsSound :
      {q : Queue}
      → All (λ r. p r ≡ true → HasFairClaim (f r)) q.rows
      → IsSound q
      → IsSound (record q { rows = update_where p f q.rows })
  update_where-IsSound {q} fair h = record {
    apart = AllApart-update_where q.rows h.apart;
    fresh =
        All-update_where (λ r. r.id < q.next_id) p f q.rows
          (All-imp _ _ (λ r lt e. rw (t.id_kept r) lt) q.rows h.fresh) h.fresh;
    claims = All-update_where HasFairClaim p f q.rows fair h.claims;
  }

AllApart-filter : (p : Row → Bool) (rows : List Row) → AllApart rows → AllApart (filter p rows)
AllApart-filter p [] h = tt
AllApart-filter p (r ∷ rows) h = elim (Bool-cases (p r)) [
  | inl e ↦ rw e (All-filter (Apart r) p rows h.0, AllApart-filter p rows h.1)
  | inr e ↦ rw e (AllApart-filter p rows h.1)
]

-- A DELETE keeps the table sound.
pub filter-IsSound :
    (p : Row → Bool) {q : Queue} → IsSound q → IsSound (record q { rows = filter p q.rows })
filter-IsSound p {q} h = record {
  apart = AllApart-filter p q.rows h.apart;
  fresh = All-filter (λ r. r.id < q.next_id) p q.rows h.fresh;
  claims = All-filter HasFairClaim p q.rows h.claims;
}

-- A row is determined by its id.
pub same_row :
    (rows : List Row)
    → AllApart rows
    → {r s : Row} → Memᴰ r rows
    → Memᴰ s rows
    → r.id ≡ s.id
    → r ≡ s
same_row [] h m n e = elim m [ ]
same_row (x ∷ rows) h (Memᴰ.head p) (Memᴰ.head q) e = p ∙ sym q
same_row (x ∷ rows) h {s = s} (Memᴰ.head p) (Memᴰ.tail n) e =
    absurd ((All-elim (Apart x) rows h.0 n).0 (ap (λ (r : Row). r.id) (sym p) ∙ e))
same_row (x ∷ rows) h (Memᴰ.tail m) (Memᴰ.head q) e =
    absurd ((All-elim (Apart x) rows h.0 m).0 (ap (λ (r : Row). r.id) (sym q) ∙ sym e))
same_row (x ∷ rows) h (Memᴰ.tail m) (Memᴰ.tail n) e = same_row rows h.1 m n e
