-- ===== src/RetryWorker/Safety.antt =====
-- What holds of a turn and of a batch whatever GitHub and Telegram answer: which merges are asked for,
-- that the table stays sound, and that a worker whose claim is gone writes nothing.
use scamanager.Prelude.{
  ℕ, String, Option, some, Bool, false, List, [], ◌∷◌, ◌≡◌, ◌≢◌, sym, subst, All, All-append,
  Bool-cases, Option-cases, inl, inr,
}
use scamanager.RetryQueue.Row.{Queue, Row, Status, is_pending}
use scamanager.RetryQueue.Defs.{get}
use scamanager.RetryQueue.Claim.{release_claim, mark_status}
use scamanager.RetryQueue.Invariant.{IsSound}
use scamanager.RetryQueue.Sound.{release_claim-IsSound, mark_status-IsSound}
use scamanager.RetryQueue.Claims.{claim_batch-IsSound}
use scamanager.RetryQueue.Lookup.{get-mem}
use scamanager.RetryQueue.Ownership.{write_back_lost}
use scamanager.RetryWorker.World.{Answer, returned, send_error, unexpected, World, Env, Counts}
use scamanager.RetryWorker.Parts.{Parts, Authorised, FromEnv}
use scamanager.RetryWorker.Turn.{process_single_retry-Preserves}
use scamanager.RetryWorker.Defs.{retry_soon}
use scamanager.RetryWorker.Process.{
  recover_and_release, turn_result, process_turn, process_claimed, process_pending_retries,
  add_released_if,
}

module _ {P : World → Type 0} (env : Env) (now row_id : ℕ) (tok : Option String)
    (released : (at : ℕ) (reason detail : Option String) (at' : ℕ) (w : World)
      → P w
      → P (record w { queue = (release_claim row_id at reason detail tok at' w.queue).1 }))
    (counted : (c : Counts) (w : World) → P w → P (record w { counts = c })) where
  recover-Preserves :
      (reason : String) (w : World) → P w → P (recover_and_release env now row_id reason tok w)
  unfolding recover_and_release
  recover-Preserves reason w h = elim (Option-cases (get w.queue row_id)) [
    | inl e ↦ rw (e, recover_and_release) h
    | inr (row, e) ↦ elim (Bool-cases (is_pending row.status)) [
      | inl s ↦
          rw (e, s, recover_and_release)
            (subst
              (λ (n : ℕ). P (record w {
                queue =
                    (release_claim n (retry_soon now) (some reason) (some env.exc_detail) tok
                      env.utc_now w.queue).1;
                counts =
                    add_released_if
                      (release_claim n (retry_soon now) (some reason) (some env.exc_detail) tok
                        env.utc_now w.queue).0
                      w.counts;
              }))
              (sym (get-mem w.queue row_id e).1) (counted _ _ (released _ _ _ _ w h)))
      | inr s ↦ rw (e, s, recover_and_release) h
    ]
  ]

  turn_result-Preserves :
      (r : Answer (Unit {0}) × World) → P r.1 → P (turn_result env now row_id tok r)
  unfolding turn_result
  turn_result-Preserves (returned u, w) h = h
  turn_result-Preserves (send_error, w) h = recover-Preserves _ w h
  turn_result-Preserves (unexpected, w) h = recover-Preserves _ w h

  process_turn-Preserves :
      (w : World)
      → ((view : Row) → get w.queue row_id ≡ some view → Parts P env view tok)
      → P w
      → P (process_turn env now row_id tok w)
  unfolding process_turn
  process_turn-Preserves w parts h = elim (Option-cases (get w.queue row_id)) [
    | inl e ↦ rw (e, process_turn) (turn_result-Preserves (unexpected, w) h)
    | inr (view, e) ↦
        rw (e, process_turn)
          (turn_result-Preserves _
            ((process_single_retry-Preserves env now view tok (parts view e)).left w h))
  ]

-- Every merge that a turn asks for is authorised by the row as the turn found it: it is bound to the
-- row's repository, number and queued commit, attempts are left, the settings still merge
-- automatically at the row's score, and GitHub has shown the pull request unmerged with a head that
-- is the queued commit or absent. This holds whatever GitHub, Telegram and other sessions do.
pub process_turn-Authorised :
    (env : Env) (now row_id : ℕ) (tok : Option String) (w : World)
    → w.merge_calls ≡ []
    → All
        (λ c. (view : Row) × (get w.queue row_id ≡ some view) × Authorised env view c)
        (process_turn env now row_id tok w).merge_calls
process_turn-Authorised env now row_id tok w e =
    process_turn-Preserves
      {P = λ v.
        All (λ c. (view : Row) × (get w.queue row_id ≡ some view) × Authorised env view c)
          v.merge_calls}
      env now row_id tok (λ at reason detail at' v h. h) (λ c v h. h) w
      (λ view f. record {
        released = λ at reason detail at' v h. h;
        marked = λ status reason at' ends v h. h;
        logged = λ table v h. h;
        counted = λ c v h. h;
        called = λ call ok v h. All-append _ v.merge_calls (call ∷ []) h ((view, f, ok), tt);
        others = λ m from v h. h;
      })
      (rw e tt)

-- The other sessions keep the table sound whenever they run.
abbrev pub KeepsSound : Env → Type 0
KeepsSound env = (m : Queue → Queue) → FromEnv env m → (q : Queue) → IsSound q → IsSound (m q)

pub process_turn-IsSound :
    (env : Env) (now row_id : ℕ) (tok : Option String) (w : World)
    → KeepsSound env
    → IsSound w.queue
    → IsSound (process_turn env now row_id tok w).queue
process_turn-IsSound env now row_id tok w fair h =
    process_turn-Preserves {P = λ v. IsSound v.queue} env now row_id tok
      (λ at reason detail at' v k. release_claim-IsSound row_id at reason detail tok at' k)
      (λ c v k. k) w
      (λ view f. record {
        released =
            λ at reason detail at' v k. release_claim-IsSound view.id at reason detail tok at' k;
        marked =
            λ status reason at' ends v k. mark_status-IsSound view.id status reason at' tok ends k;
        logged = λ table v k. k;
        counted = λ c v k. k;
        called = λ call ok v k. k;
        others = λ m from v k. fair m from v.queue k;
      })
      h

process_claimed-IsSound :
    (envs : ℕ → Env) (now : ℕ) (rows : List Row) (w : World)
    → ((n : ℕ) → KeepsSound (envs n))
    → IsSound w.queue
    → IsSound (process_claimed envs now rows w).queue
unfolding process_claimed
process_claimed-IsSound envs now [] w fair h = h
process_claimed-IsSound envs now (r ∷ rows) w fair h =
    process_claimed-IsSound envs now rows _ fair
      (process_turn-IsSound (envs r.id) now r.id r.claim_token w (fair r.id) h)

-- A whole batch keeps a sound table sound, if the other sessions do, whatever is answered and whatever
-- raises.
pub process_pending_retries-IsSound :
    (envs : ℕ → Env) (now limit : ℕ) (only_ids : Option (List ℕ)) (locked : ℕ → Bool) (tok : String)
    (w : World)
    → ((n : ℕ) → KeepsSound (envs n))
    → IsSound w.queue
    → IsSound (process_pending_retries envs now limit only_ids locked tok w).queue
unfolding process_pending_retries
process_pending_retries-IsSound envs now limit only_ids locked tok w fair h =
    process_claimed-IsSound envs now _ _ fair
      (claim_batch-IsSound now limit 300 only_ids locked tok h)

-- The row has been taken over or given up: it is in the table and does not hold the token.
abbrev pub IsLost : ℕ → String → Queue → Type 0
IsLost row_id tok q = IsSound q × ((r : Row) × (get q row_id ≡ some r) × (r.claim_token ≢ some tok))

-- A worker whose claim is lost writes nothing to the queue in a whole turn, errors included: what
-- holds of the queue before, and is kept by the other sessions along with the loss, holds after it.
pub process_turn_lost :
    (P : Queue → Type 0) (env : Env) (now row_id : ℕ) (tok : String) (w : World)
    → ((m : Queue → Queue)
        → FromEnv env m
        → (q : Queue) → IsLost row_id tok q × P q
        → IsLost row_id tok (m q) × P (m q))
    → IsLost row_id tok w.queue
    → P w.queue
    → P (process_turn env now row_id (some tok) w).queue
process_turn_lost P env now row_id tok w fair lost h =
    (process_turn-Preserves {P = λ v. IsLost row_id tok v.queue × P v.queue} env now row_id
      (some tok) (λ at reason detail at' v k. unchanged k ((nothing k).0 at reason detail at'))
      (λ c v k. k) w
      (λ view f.
        let e = (get-mem w.queue row_id f).1 in
        record {
          released =
              λ at reason detail at' v k. rw e (unchanged k ((nothing k).0 at reason detail at'));
          marked =
              λ status reason at' ends v k. rw e (unchanged k ((nothing k).1 status reason at'));
          logged = λ table v k. k;
          counted = λ c v k. k;
          called = λ call ok v k. k;
          others = λ m from v k. fair m from v.queue k;
        })
      (lost, h)).1
  where
    unchanged :
        {q : Queue} {r : Bool × Queue}
        → IsLost row_id tok q × P q
        → r ≡ (false, q)
        → IsLost row_id tok r.1 × P r.1
    unchanged k e = rw e k

    nothing :
        {q : Queue}
        → IsLost row_id tok q × P q
        → ((at : ℕ) (reason detail : Option String) (now : ℕ)
            → release_claim row_id at reason detail (some tok) now q ≡ (false, q))
          × ((status : Status) (reason : Option String) (now : ℕ)
              → mark_status row_id status reason now (some tok) q ≡ (false, q))
    nothing ((sound, (r, found, other)), k) = write_back_lost row_id tok sound found other
