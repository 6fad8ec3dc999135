-- ===== src/Pipeline/Tests.antt =====
-- Runs of the pipeline for one pull request, and the claims about them at small tables.
use scamanager.Prelude.{
  ℕ, zero, suc, arith, ◌+◌, ◌*◌, ◌≡◌, ◌⊎◌, ◌↔◌, refl, inl, inr, Option, none, some, false, [], ◌∷◌,
  length, All,
}
use scamanager.Prelude.Effects.{returned, ◌>>=◌, pure}
use scamanager.Scorer.Defs.{found_in}
use scamanager.Gate.Tests.{config}
use scamanager.Pipeline.Tables.{
  AnalysisRow, find_by_id, find_by_sha, find_by_full_name, insert_repo, insert_analysis,
  begin_attempt, finish_attempt,
}
use scamanager.Pipeline.Static.{
  pipeline_analysis_timeout, SourceFile, FileOutcome, finished, raised, run_static_with_timeout,
}
use scamanager.Pipeline.World.{PipelineWorld, transact, look, await, read_config, notify, swallow}
use scamanager.Pipeline.Save.{
  build_analysis_result_dict, ensure_repo, register, registered, save_and_gate, store, save_new,
  after_save, gate_saved,
}
use scamanager.Pipeline.Body.{
  extract_event_metadata, is_blank_sha, begin, finish, params_of, analyse, after_save_and_gate,
  analyse_and_save, guarded_body, run_pipeline_body,
}
use scamanager.Pipeline.Sound.{IsSound}
use scamanager.Pipeline.Rows.{IsKeptIn}
use scamanager.Pipeline.FirstWriter.{run_pipeline_body-IsKeptIn}
use scamanager.Pipeline.Ordered.{IsCallFor, run_pipeline_body-IsCallFor}
use scamanager.Pipeline.Complete.{AllReached, AnyFinished, run_static_with_timeout_lem}
use scamanager.Pipeline.Analysed.{IsNewCommit}
use scamanager.Pipeline.Analysed.Stored.{IsStored}
use scamanager.Pipeline.NewCommit.{run_pipeline_body-IsStored}
use scamanager.Pipeline.Again.{IsAnalysed, run_pipeline_body_again}
use scamanager.Pipeline.Samples.{
  file, review, env, payload, pushed, empty, world, stored_with, registered_only,
}

abbrev outcome_of : PipelineWorld → ℕ × ℕ × ℕ × ℕ × ℕ
outcome_of w = (
  length w.tables.repos,
  length w.tables.analyses,
  length w.tables.attempts,
  length w.gate_runs,
  length w.notified,
)

abbrev after_first : ℕ × ℕ × ℕ × ℕ × ℕ
after_first = outcome_of (run_pipeline_body env "push" pushed (world empty)).1

-- A new commit that was pushed is stored and announced without a gate, and its trace is gone.
first_test : after_first ≡ (1, 1, 0, 0, 1)
unfolding run_pipeline_body swallow guarded_body extract_event_metadata is_blank_sha ensure_repo
    look register find_by_full_name find_by_sha registered transact insert_repo await begin
    begin_attempt analyse_and_save read_config save_and_gate store save_new insert_analysis
    after_save gate_saved after_save_and_gate finish finish_attempt notify ◌>>=◌ pure analyse
    params_of
first_test = refl

abbrev row : AnalysisRow
row = record {
  id = 5;
  repo_id = 1;
  commit_sha = "abc";
  pr_number = none;
  score = some 89;
  grade = some "B";
  result = none;
  score_unreliable = false;
}

stored-IsSound : (pr : Option ℕ) → IsSound (stored_with pr)
stored-IsSound pr = record {
  analyses = (tt, tt);
  analysis_ids = (ground arith, tt);
  repos = (tt, tt);
  repo_ids = (ground arith, tt);
  attempts = tt;
  attempt_ids = tt;
}

row-IsKeptIn : IsKeptIn row (stored_with none)
unfolding find_by_id
row-IsKeptIn = (row, refl, inl refl)

run_pipeline_body-IsKeptIn_example :
    IsKeptIn row (run_pipeline_body env "pull_request" payload (world (stored_with none))).1.tables
run_pipeline_body-IsKeptIn_example =
    run_pipeline_body-IsKeptIn env "pull_request" payload row refl (λ n t h. h) (λ n t h k. k)
      (world (stored_with none)) (stored-IsSound none) row-IsKeptIn

run_pipeline_body-IsCallFor_example :
    All
      (IsCallFor env (λ d. d.source ≡ "pr") (extract_event_metadata "pull_request" payload))
      (run_pipeline_body env "pull_request" payload (world empty)).1.gate.calls
unfolding analyse build_analysis_result_dict extract_event_metadata
run_pipeline_body-IsCallFor_example =
    run_pipeline_body-IsCallFor env "pull_request" payload (world empty) (λ d. d.source ≡ "pr")
      (λ n t h. h) (λ files config review. refl) tt tt

-- The second of two files raises.
abbrev mixed : ℕ → SourceFile → FileOutcome
mixed zero f = finished (found_in f.filename [])
mixed (suc n) f = raised

run_static_with_timeout_example :
    ((run_static_with_timeout 1000 env.file_clock mixed (file ∷ file ∷ [])).1 ≡ false) ↔ (
      AllReached env.file_clock mixed
        (1000 + pipeline_analysis_timeout * 1000000)
        0
        (file ∷ file ∷ [])
        (run_static_with_timeout 1000 env.file_clock mixed (file ∷ file ∷ [])).0
      × (((file ∷ file ∷ []) ≡ [])
          ⊎ AnyFinished env.file_clock mixed
              (1000 + pipeline_analysis_timeout * 1000000)
              0
              (file ∷ file ∷ []))
      × All
          (λ r. r.incomplete ≡ false)
          (run_static_with_timeout 1000 env.file_clock mixed (file ∷ file ∷ [])).0
      × All (λ f. f.fetch_failed ≡ false) (file ∷ file ∷ []))
run_static_with_timeout_example =
    run_static_with_timeout_lem 1000 env.file_clock mixed (file ∷ file ∷ [])

pushed-IsAnalysed : IsAnalysed (extract_event_metadata "push" pushed) row (stored_with none)
unfolding extract_event_metadata find_by_full_name find_by_sha
pushed-IsAnalysed = record {
  repo = record { id = 1; full_name = "o/r" };
  is_repo = refl;
  is_row = refl;
}

run_pipeline_body_again_example :
    run_pipeline_body env "push" pushed (world (stored_with none))
    ≡ (returned tt, world (stored_with none))
run_pipeline_body_again_example =
    run_pipeline_body_again env "push" pushed row (world (stored_with none)) refl pushed-IsAnalysed
      (inr refl)

new_commit : IsNewCommit env (extract_event_metadata "pull_request" payload) registered_only
unfolding extract_event_metadata is_blank_sha find_by_full_name find_by_sha
new_commit = record {
  repo = record { id = 1; full_name = "o/r" };
  config = config;
  file = file;
  files = [];
  review = review;
  idle = λ n t. refl;
  is_sha = refl;
  is_repo = refl;
  is_unseen = refl;
  is_config = λ n. refl;
  is_changed = λ n. refl;
  is_review = λ n. refl;
}

run_pipeline_body-IsStored_example :
    IsStored
      (extract_event_metadata "pull_request" payload)
      1
      config
      (run_static_with_timeout env.loop_time env.file_clock
        (env.file_outcome (some config))
        (file ∷ [])).0
      (run_static_with_timeout env.loop_time env.file_clock
        (env.file_outcome (some config))
        (file ∷ [])).1
      review
      (world registered_only)
      (run_pipeline_body env "pull_request" payload (world registered_only)).1
unfolding new_commit
run_pipeline_body-IsStored_example =
    run_pipeline_body-IsStored env "pull_request" payload (world registered_only) new_commit
