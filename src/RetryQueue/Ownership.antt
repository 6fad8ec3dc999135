-- ===== src/RetryQueue/Ownership.antt =====
-- Compare-and-set: a write-back needs the claim that it was made under.
use mathlib.Core.Option
use scamanager.Prelude.{
  ℕ, ◌≡◌, refl, ◌≢◌, Option, none, some, String, true, false, Memᴰ, All-imp, All-Memᴰ, find?,
  find?-some, find?-none, All-find?-none, All-elim, arith, eq_iff, eq_refl, Bool-cases,
  Option-cases, update_where, touch, inl, inr, if◌then◌else◌, ◌==◌, ap, ◌∙◌,
}
use scamanager.RetryQueue.Row.{Row, Queue, Status}
use scamanager.RetryQueue.Defs.{has_id, get}
use scamanager.RetryQueue.Claim.{
  holds_token, is_owned, update_owned, released_row, release_claim, marked_row, mark_status,
}
use scamanager.RetryQueue.Invariant.{IsSound, same_row}
use scamanager.RetryQueue.Lookup.{get-mem, get-update_where}

-- No row is owned: nothing is written and the answer is False.
lost_when :
    (row_id : ℕ) (expected : Option String) (change : Row → Row) {q : Queue}
    → IsSound q
    → {r : Row} → get q row_id ≡ some r
    → holds_token expected r.claim_token ≡ false
    → update_owned row_id expected change q ≡ (false, q)
unfolding update_owned
lost_when row_id expected change {q} h {r} found lost = rw (none_owned, update_owned)
  where
    not_owned : (s : Row) → Memᴰ s q.rows → is_owned row_id expected s ≡ false
    not_owned s m = elim (Bool-cases (has_id row_id s)) [
      | inr e ↦ rw e
      | inl e ↦
          let (n, p) = get-mem q row_id found in
          let same : s ≡ r = same_row q.rows h.apart m n (ground (arith, p, e)) in rw (e, same) lost
    ]

    none_owned : find? (is_owned row_id expected) q.rows ≡ none
    none_owned =
        find?-none (is_owned row_id expected) q.rows
          (All-imp _ _ not_owned q.rows (All-Memᴰ q.rows))

find_owned :
    (row_id : ℕ) (expected : Option String) {q : Queue}
    → IsSound q
    → {r : Row} → get q row_id ≡ some r
    → holds_token expected r.claim_token ≡ true
    → find? (is_owned row_id expected) q.rows ≡ some r
find_owned row_id expected {q} h {r} found held =
    let (n, p) = get-mem q row_id found in
    elim (Option-cases (find? (is_owned row_id expected) q.rows)) [
      | inl e ↦ absurd (
          ground (
            arith,
            p,
            held,
            All-elim _ q.rows (All-find?-none (is_owned row_id expected) q.rows e) n,
          ))
      | inr (s, e) ↦
          let (m, t) = find?-some (is_owned row_id expected) q.rows e in
          e ∙ ap some (same_row q.rows h.apart m n (ground (arith, p, t)))
    ]

get_changed :
    (row_id : ℕ) (change : Row → Row) (q : Queue) {r : Row}
    → get q row_id ≡ some r
    → (n : ℕ)
    → Option.map (touch (has_id row_id) change) (get q n)
      ≡ (if n == row_id then some (change r) else get q n)
get_changed row_id change q {r} found n = elim (Bool-cases (n == row_id)) [
  | inl e ↦
      let same : n ≡ row_id = ground (arith, e) in
      rw (same, found) (ground (arith, (get-mem q row_id found).1))
  | inr e ↦ elim (Option-cases (get q n)) [
    | inl f ↦ rw (e, f) refl
    | inr (s, f) ↦ rw (e, f) (ground (arith, (get-mem q n f).1, e))
  ]
]

-- The row is owned: it is changed, every other row is as it was, and the answer is True.
owned_when :
    (row_id : ℕ) (expected : Option String) (change : Row → Row) {q : Queue}
    → IsSound q
    → ((r : Row) → (change r).id ≡ r.id)
    → {r : Row} → get q row_id ≡ some r
    → holds_token expected r.claim_token ≡ true
    → ((update_owned row_id expected change q).0 ≡ true)
      × ((n : ℕ)
          → get (update_owned row_id expected change q).1 n
            ≡ (if n == row_id then some (change r) else get q n))
unfolding update_owned
owned_when row_id expected change {q} h kept {r} found held =
    rw (find_owned row_id expected h found held, update_owned)
      (
        refl,
        λ n.
            ap (λ i. get (record q { rows = update_where (has_id i) change q.rows }) n)
              (get-mem q row_id found).1
            ∙ get-update_where q n (has_id row_id) change kept
            ∙ get_changed row_id change q found n,
      )

-- In a sound table, a release or a mark with a token that its row does not hold, since another worker
-- has taken the row over or the claim was given up, writes nothing and answers False.
pub write_back_lost :
    (row_id : ℕ) (tok : String) {q : Queue} {r : Row}
    → IsSound q
    → get q row_id ≡ some r
    → r.claim_token ≢ some tok
    → ((at : ℕ) (reason detail : Option String) (now : ℕ)
        → release_claim row_id at reason detail (some tok) now q ≡ (false, q))
      × ((status : Status) (reason : Option String) (now : ℕ)
          → mark_status row_id status reason now (some tok) q ≡ (false, q))
unfolding release_claim mark_status
write_back_lost row_id tok {q} {r} h found lost = (
  λ at reason detail now. lost_when row_id (some tok) _ h found not_held,
  λ status reason now. lost_when row_id (some tok) _ h found not_held,
)
  where
    not_held : holds_token (some tok) r.claim_token ≡ false
    not_held = elim (Option-cases r.claim_token) [
      | inl e ↦ rw e
      | inr (held, e) ↦
          rw e (ground (arith, eq_iff held tok, λ (p : held ≡ tok). lost (e ∙ ap some p)))
    ]

-- In a sound table, a mark with the token that the row holds answers True, sets the status of exactly
-- that row and gives the claim up; every other lookup is as before.
pub mark_status_owned :
    (row_id : ℕ) (tok : String) (status : Status) (reason : Option String) (now : ℕ) {q : Queue}
    {r : Row}
    → IsSound q
    → get q row_id ≡ some r
    → r.claim_token ≡ some tok
    → ((mark_status row_id status reason now (some tok) q).0 ≡ true)
      × ((n : ℕ)
          → get (mark_status row_id status reason now (some tok) q).1 n
            ≡ (if n == row_id then some (marked_row status reason now r) else get q n))
unfolding mark_status
mark_status_owned row_id tok status reason now h found held =
    owned_when row_id (some tok) _ h (λ r. refl) found (rw held (eq_refl tok))

-- In a sound table, a release with the token that the row holds answers True and changes exactly that
-- row, which is free again at its new time; every other lookup is as before.
pub release_claim_owned :
    (row_id : ℕ) (tok : String) (at : ℕ) (reason detail : Option String) (now : ℕ) {q : Queue}
    {r : Row}
    → IsSound q
    → get q row_id ≡ some r
    → r.claim_token ≡ some tok
    → ((release_claim row_id at reason detail (some tok) now q).0 ≡ true)
      × ((n : ℕ)
          → get (release_claim row_id at reason detail (some tok) now q).1 n
            ≡ (if n == row_id then some (released_row at reason detail now r) else get q n))
unfolding release_claim
release_claim_owned row_id tok at reason detail now h found held =
    owned_when row_id (some tok) _ h (λ r. refl) found (rw held (eq_refl tok))
