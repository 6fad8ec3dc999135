-- ===== src/Pipeline/Static.antt =====
-- src/worker/pipeline.py: the static analysis of the changed files under a deadline. A time is a number of
-- microseconds of the event loop's clock.
use scamanager.Prelude.{
  ℕ, suc, ◌+◌, ◌*◌, String, Bool, true, false, ◌||◌, ◌==◌, List, [], ◌∷◌, any, length, leb,
  if◌then◌else◌,
}
use scamanager.Scorer.Defs.{StaticAnalysisResult, found_in}

abbrev pub pipeline_analysis_timeout : ℕ
pipeline_analysis_timeout = 60

-- `ChangedFile`, with the flag of a content that could not be fetched for now.
pub record SourceFile : Type 0 where
  pub filename : String
  pub patch : String
  pub fetch_failed : Bool

-- What the analysis of one file in its thread comes to before the deadline.
pub data FileOutcome : Type 0 where
  finished : StaticAnalysisResult → FileOutcome
  deadline_reached : FileOutcome
  raised : FileOutcome

pub record StaticRun : Type 0 where
  pub results : List StaticAnalysisResult
  pub incomplete : Bool
  pub failed : ℕ

abbrev pub stopped : StaticRun
stopped = record { results = []; incomplete = true; failed = 0 }

abbrev pub with_result : StaticAnalysisResult → StaticRun → StaticRun
with_result r run = record run { results = r ∷ run.results }

abbrev pub with_failure : SourceFile → StaticRun → StaticRun
with_failure f run = record {
  results = found_in f.filename [] ∷ run.results;
  incomplete = run.incomplete;
  failed = suc run.failed;
}

abbrev pub after_file : SourceFile → FileOutcome → StaticRun → StaticRun
after_file f (finished r) rest = with_result r rest
after_file f deadline_reached rest = stopped
after_file f raised rest = with_failure f rest

-- The loop over the files, from the file with number n. `clock` is what `loop.time()` says in a round.
unfoldable pub run_files :
    (ℕ → ℕ) → (ℕ → SourceFile → FileOutcome) → ℕ → ℕ → List SourceFile → StaticRun
run_files clock outcome deadline n [] = record { results = []; incomplete = false; failed = 0 }
run_files clock outcome deadline n (f ∷ files) =
    let rest = run_files clock outcome deadline (suc n) files in
    if leb deadline (clock n) then stopped else after_file f (outcome n f) rest

abbrev pub is_empty_list {ℓ} : {A : Type ℓ} → List A → Bool
is_empty_list [] = true
is_empty_list (x ∷ xs) = false

abbrev pub all_failed : List SourceFile → StaticRun → Bool
all_failed [] run = false
all_failed (f ∷ files) run = run.failed == length (f ∷ files)

abbrev pub has_timed_out : StaticAnalysisResult → Bool
has_timed_out r = r.incomplete

abbrev pub is_unfetched : SourceFile → Bool
is_unfetched f = f.fetch_failed

unfoldable pub run_static_with_timeout :
    ℕ
    → (ℕ → ℕ)
    → (ℕ → SourceFile → FileOutcome)
    → List SourceFile
    → List StaticAnalysisResult × Bool
unfolding run_files
run_static_with_timeout start clock outcome files =
    let run = run_files clock outcome (start + pipeline_analysis_timeout * 1000000) 0 files in
    (
      run.results,
      run.incomplete
          || all_failed files run
          || any has_timed_out run.results
          || any is_unfetched files,
    )
