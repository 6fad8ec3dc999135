-- ===== src/RetryQueue/Tests.antt =====
-- The retry queue on small tables: each law at rows for which its conditions hold.
use scamanager.Prelude.{
  inl, ◌⊎◌, ℕ, ◌≡◌, refl, ◌≢◌, ◌↔◌, ◌⊎◌, ◌≤◌, Option, none, some, String, true, false, List, [],
  ◌∷◌, Memᴰ, All, arith, length,
}
use scamanager.RetryQueue.Row.{Row, Queue, Status, has_key, violates_active, conflicts}
use scamanager.RetryQueue.Defs.{
  insert_by_due, order_by_due, enqueue_or_bump, purge_terminal, insert_or_recover, new_row,
}
use scamanager.RetryQueue.Claim.{
  claim_batch, claim_row, select_claimable, is_claimable, commit_claims, release_claim, mark_status,
  member, row_ids, abandon_stale_for_pr,
}
use scamanager.RetryQueue.Selection.{IsDueOrdered}
use scamanager.RetryQueue.Granted.{IsEligible, claimed_as, claim_batch_lem, claim_batch_complete}
use scamanager.RetryQueue.Claims.{claim_batch_exclusive}
use scamanager.RetryQueue.Ownership.{write_back_lost}
use scamanager.RetryQueue.Enqueue.{
  Deferred, active, enqueue_or_bump-Deferred, enqueue_or_bump_raises_iff,
}
use scamanager.RetryQueue.Cleanup.{IsSpared, IsOutdated, abandoned_as, abandon_stale_for_pr_lem}
use scamanager.RetryQueue.Samples.{
  free_row, queue, queue-IsSound, deferral, alone, locked_none, get_claimed, other_token,
}

-- The worker "w" claims the free row at 200, with a limit of 5.
abbrev claimed : List Row × Queue
claimed = claim_batch 200 5 300 none locked_none "w" queue

claim_batch_test : claimed.0 ≡ claim_row 200 "w" free_row ∷ []
unfolding claim_batch select_claimable is_claimable commit_claims order_by_due insert_by_due
claim_batch_test = refl

enqueue_or_bump_test :
    (enqueue_or_bump deferral 300 310 alone queue).0
    ≡ some (record { row = new_row deferral 300 310 4; is_first_deferral = true })
unfolding enqueue_or_bump insert_or_recover new_row violates_active conflicts has_key
enqueue_or_bump_test = refl

claim_batch_lem_example :
    All
      (λ c. (r : Row) × IsEligible 200 300 none locked_none queue r × (c ≡ claimed_as 200 "w" r))
      claimed.0
    × (length claimed.0 ≤ 5)
    × IsDueOrdered claimed.0
claim_batch_lem_example = claim_batch_lem 200 5 300 none locked_none "w" queue

claim_batch_complete_example : (length claimed.0 ≡ 5) ⊎ Memᴰ (claimed_as 200 "w" free_row) claimed.0
claim_batch_complete_example =
    claim_batch_complete 200 5 300 none locked_none "w" queue free_row
      (Memᴰ.head refl, refl, inl refl, omega arith, refl)

-- A second worker ten seconds later, with the row's id named.
claim_batch_exclusive_example :
    All
      (λ r. member (row_ids claimed.0) r.id ≡ false)
      (claim_batch 10000200 5 300 (some (1 ∷ 2 ∷ [])) locked_none "v" claimed.1).0
claim_batch_exclusive_example =
    claim_batch_exclusive 200 5 300 none locked_none "w" queue 10000200 5 (some (1 ∷ 2 ∷ []))
      locked_none "v" (omega arith)

enqueue_or_bump-Deferred_example :
    Deferred deferral 300 (enqueue_or_bump deferral 300 310 alone queue)
enqueue_or_bump-Deferred_example = enqueue_or_bump-Deferred deferral 300 310 alone queue

enqueue_or_bump_raises_iff_example : ((enqueue_or_bump deferral 300 310 alone queue).0 ≡ none) ↔ (
    (active deferral queue ≡ none)
    × (active deferral queue ≢ none)
    × (active deferral queue ≡ none))
enqueue_or_bump_raises_iff_example = enqueue_or_bump_raises_iff deferral 300 310 alone queue

write_back_lost_example :
    ((at : ℕ) (reason detail : Option String) (now : ℕ)
      → release_claim 2 at reason detail (some "old") now queue ≡ (false, queue))
    × ((status : Status) (reason : Option String) (now : ℕ)
        → mark_status 2 status reason now (some "old") queue ≡ (false, queue))
write_back_lost_example = write_back_lost 2 "old" queue-IsSound get_claimed other_token

abandon_stale_for_pr_example :
    let q' = (abandon_stale_for_pr "o/r" 7 "def" "pr_sha_changed" 400 queue).1 in
    (IsOutdated "o/r" 7 "def" free_row × Memᴰ (abandoned_as "pr_sha_changed" 400 free_row) q'.rows
      ⊎ IsSpared "o/r" 7 "def" free_row × Memᴰ free_row q'.rows)
    × (length q'.rows ≡ length queue.rows)
    × All (IsSpared "o/r" 7 "def") q'.rows
abandon_stale_for_pr_example =
    abandon_stale_for_pr_lem "o/r" 7 "def" "pr_sha_changed" 400 queue free_row (Memᴰ.head refl)

purge_terminal_test : (purge_terminal queue 30 3000000000000).0 ≡ 1
unfolding purge_terminal
purge_terminal_test = refl
