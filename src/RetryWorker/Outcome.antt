-- ===== src/RetryWorker/Outcome.antt =====
-- The states of one row during a turn, and that every write of the worker frees it.
use scamanager.Prelude.{
  ℕ, String, Option, none, some, true, false, ◌≡◌, ◌≢◌, refl, sym, ◌∙◌, ◌⊎◌, inl, inr,
  if◌then◌else◌, ◌==◌, arith,
}
use scamanager.RetryQueue.Row.{Queue, Row, Status, is_pending}
use scamanager.RetryQueue.Defs.{get}
use scamanager.RetryQueue.Claim.{release_claim, released_row, mark_status, marked_row}
use scamanager.RetryQueue.Invariant.{IsSound}
use scamanager.RetryQueue.Sound.{release_claim-IsSound, mark_status-IsSound}
use scamanager.RetryQueue.Ownership.{write_back_lost, mark_status_owned, release_claim_owned}
use scamanager.RetryWorker.World.{Env}
use scamanager.RetryWorker.Parts.{Parts, FromEnv}

-- The worker still has its claim on the row.
abbrev pub IsHeld : ℕ → String → Queue → Type 0
IsHeld row_id tok q =
    IsSound q
    × ((r : Row) × (get q row_id ≡ some r)
        × (r.claim_token ≡ some tok)
        × (is_pending r.status ≡ true))

-- The row is in the table and nobody claims it.
abbrev pub IsFreed : ℕ → Queue → Type 0
IsFreed row_id q = IsSound q × ((r : Row) × (get q row_id ≡ some r) × (r.claim_token ≡ none))

abbrev pub IsFine : ℕ → String → Queue → Type 0
IsFine row_id tok q = IsHeld row_id tok q ⊎ IsFreed row_id q

-- The other sessions keep the table sound and leave the row as it is.
abbrev pub LeavesRow : ℕ → Env → Type 0
LeavesRow row_id env =
    (m : Queue → Queue)
    → FromEnv env m
    → (q : Queue) → IsSound q
    → IsSound (m q) × (get (m q) row_id ≡ get q row_id)

own_row : {A : Type 0} (n : ℕ) (x y : A) → (if n == n then x else y) ≡ x
own_row n x y = ground arith

module _ (row_id : ℕ) (tok : String) where
  unclaimed : (held : Option String) → held ≡ none → held ≢ some tok
  unclaimed held e f = none_some (sym e ∙ f)
    where
      none_some : {t : String} → none ≡ some t → ⊥
      none_some e = cc

  -- A release under the claim frees the row, and one without it changes nothing.
  pub release-frees :
      (at : ℕ) (reason detail : Option String) (now : ℕ) (q : Queue)
      → IsFine row_id tok q
      → IsFreed row_id (release_claim row_id at reason detail (some tok) now q).1
  release-frees at reason detail now q (inl (sound, (r, found, held, live))) = (
    release_claim-IsSound row_id at reason detail (some tok) now sound,
    (
      released_row at reason detail now r,
      (release_claim_owned row_id tok at reason detail now sound found held).1 row_id
          ∙ own_row row_id _ _,
      refl,
    ),
  )
  release-frees at reason detail now q (inr (sound, (r, found, free))) =
      rw ((write_back_lost row_id tok sound found (unclaimed _ free)).0 at reason detail now)
        (sound, (r, found, free))

  pub mark-frees :
      (status : Status) (reason : Option String) (now : ℕ) (q : Queue)
      → is_pending status ≡ false
      → IsFine row_id tok q
      → IsFreed row_id (mark_status row_id status reason now (some tok) q).1
  mark-frees status reason now q ends (inl (sound, (r, found, held, live))) = (
    mark_status-IsSound row_id status reason now (some tok) ends sound,
    (
      marked_row status reason now r,
      (mark_status_owned row_id tok status reason now sound found held).1 row_id
          ∙ own_row row_id _ _,
      refl,
    ),
  )
  mark-frees status reason now q ends (inr (sound, (r, found, free))) =
      rw ((write_back_lost row_id tok sound found (unclaimed _ free)).1 status reason now)
        (sound, (r, found, free))

module _ (env : Env) (view : Row) (tok : String) (leaves : LeavesRow view.id env) where
  others-IsFreed :
      (m : Queue → Queue) → FromEnv env m → (q : Queue) → IsFreed view.id q → IsFreed view.id (m q)
  others-IsFreed m from q (sound, (r, found, free)) =
      let (s, e) = leaves m from q sound in (s, (r, e ∙ found, free))

  others-IsFine :
      (m : Queue → Queue)
      → FromEnv env m
      → (q : Queue) → IsFine view.id tok q
      → IsFine view.id tok (m q)
  others-IsFine m from q (inl (sound, (r, found, held, live))) =
      let (s, e) = leaves m from q sound in inl (s, (r, e ∙ found, held, live))
  others-IsFine m from q (inr h) = inr (others-IsFreed m from q h)

  -- All parts of the turn keep it fine, and keep a freed row free.
  pub IsFine-Parts : Parts (λ w. IsFine view.id tok w.queue) env view (some tok)
  IsFine-Parts = record {
    released =
        λ at reason detail now w h. inr (release-frees view.id tok at reason detail now w.queue h);
    marked =
        λ status reason now ends w h. inr (mark-frees view.id tok status reason now w.queue ends h);
    logged = λ table w h. h;
    counted = λ c w h. h;
    called = λ call ok w h. h;
    others = λ m from w h. others-IsFine m from w.queue h;
  }

  pub IsFreed-Parts : Parts (λ w. IsFreed view.id w.queue) env view (some tok)
  IsFreed-Parts = record {
    released =
        λ at reason detail now w h. release-frees view.id tok at reason detail now w.queue (inr h);
    marked =
        λ status reason now ends w h. mark-frees view.id tok status reason now w.queue ends (inr h);
    logged = λ table w h. h;
    counted = λ c w h. h;
    called = λ call ok w h. h;
    others = λ m from w h. others-IsFreed m from w.queue h;
  }
