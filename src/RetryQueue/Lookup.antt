-- ===== src/RetryQueue/Lookup.antt =====
-- Lookups by id, before and after a change of rows.
use mathlib.Core.Option
use scamanager.Prelude.{
  ℕ, ◌≡◌, refl, some, Bool, true, List, [], ◌∷◌, Memᴰ, find?, find?-some, update_where, touch,
  find?-update_where, arith, Bool-cases, inl, inr, ◌==◌, ap, ◌∙◌,
}
use scamanager.RetryQueue.Row.{Row, Queue}
use scamanager.RetryQueue.Defs.{has_id, get}
use scamanager.RetryQueue.Invariant.{IsSound, same_row}

-- A lookup after a change finds the changed row.
pub get-update_where :
    (q : Queue) (n : ℕ) (p : Row → Bool) (f : Row → Row)
    → ((r : Row) → (f r).id ≡ r.id)
    → get (record q { rows = update_where p f q.rows }) n ≡ Option.map (touch p f) (get q n)
unfolding get
get-update_where q n p f kept =
    find?-update_where (has_id n) p f (λ r. ap (λ i. i == n) (kept r)) q.rows

pub get-mem : (q : Queue) (n : ℕ) {r : Row} → get q n ≡ some r → Memᴰ r q.rows × (r.id ≡ n)
unfolding get
get-mem q n {r} e = let (m, t) = find?-some (has_id n) q.rows e in (m, ground (arith, t))

same_id : (r s : Row) → has_id r.id s ≡ true → s.id ≡ r.id
same_id r s t = ground arith

mem_found :
    (r : Row) (rows : List Row) → Memᴰ r rows → (s : Row) × (find? (has_id r.id) rows ≡ some s)
mem_found r [] m = elim m [ ]
mem_found r (s ∷ rows) (Memᴰ.head e) = (s, rw (ap (λ (x : Row). x.id) e) (ground arith))
mem_found r (s ∷ rows) (Memᴰ.tail m) = elim (Bool-cases (has_id r.id s)) [
  | inl e ↦ (s, rw e refl)
  | inr e ↦ let (t, f) = mem_found r rows m in (t, rw e f)
]

-- In a sound table a lookup by the id of a row finds that row.
pub get-of_mem : {q : Queue} → IsSound q → (r : Row) → Memᴰ r q.rows → get q r.id ≡ some r
unfolding get
get-of_mem {q} h r m =
    let (s, e) = mem_found r q.rows m in
    let (n, t) = find?-some (has_id r.id) q.rows e in
    e ∙ ap some (same_row q.rows h.apart n m (same_id r s t))
