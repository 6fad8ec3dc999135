-- ===== src/Pipeline/Slots/Tests.antt =====
-- Three pipelines at a time, and the claims about the slots at them.
use scamanager.Prelude.{ℕ, ◌≡◌, refl, some, false, [], ◌∷◌}
use scamanager.Pipeline.Samples.{payload, pushed}
use scamanager.Pipeline.World.{Payload}
use scamanager.Pipeline.Body.{extract_event_metadata, is_blank_sha}
use scamanager.Pipeline.Slots.{
  SlotGeneration, SlotWorld, Entry, runs_free, current_slots, is_locked, pipeline_slot, resume,
  leave, has_no_commit_to_analyse, run_analysis_pipeline, calls, leaves, resumes, no_slots, Reached,
  start, next,
}
use scamanager.Pipeline.Slots.Safety.{IsShared, Reached-IsShared, IsInTurn, Reached-IsInTurn}

abbrev call : ℕ → SlotWorld → Entry × SlotWorld
call task w = run_analysis_pipeline 0 task "pull_request" payload w

-- Two pipelines are at work, and the third waits.
abbrev crowded : SlotWorld
crowded = (call 3 (call 2 (call 1 no_slots).1).1).1

abbrev full : SlotGeneration
full = record {
  event_loop = 0;
  limit = 2;
  semaphore = record { value = 0; waiters = record { task = 3; done = false } ∷ [] };
  waiting = 1;
}

crowded_test : crowded ≡ record { current = some full; holders = 2 ∷ 1 ∷ [] }
unfolding run_analysis_pipeline has_no_commit_to_analyse extract_event_metadata is_blank_sha
    pipeline_slot current_slots is_locked
crowded_test = refl

crowded-Reached : Reached 0 crowded
crowded-Reached =
    next
      (next (next start (calls 1 "pull_request" payload no_slots))
        (calls 2 "pull_request" payload (call 1 no_slots).1))
      (calls 3 "pull_request" payload (call 2 (call 1 no_slots).1).1)

Reached-IsShared_example : IsShared (current_slots 0 crowded.current) crowded.holders
Reached-IsShared_example = Reached-IsShared crowded-Reached

Reached-IsInTurn_example : IsInTurn 0 (resume 3 (leave 1 crowded))
Reached-IsInTurn_example =
    Reached-IsInTurn (next (next crowded-Reached (leaves 1 crowded)) (resumes 3 (leave 1 crowded)))

-- The branch was deleted.
abbrev deleted : Payload
deleted = record pushed { after = some "0000" }

deleted_free : (run_analysis_pipeline 0 3 "push" deleted no_slots).0 ≡ runs_free
unfolding run_analysis_pipeline has_no_commit_to_analyse extract_event_metadata is_blank_sha
deleted_free = refl
