-- ===== src/Pipeline/Complete.antt =====
-- When the static analysis of a change counts as complete.
use scamanager.Prelude.{
  ℕ, suc, ◌+◌, ◌*◌, ◌≤◌, ◌<◌, ◌≡◌, refl, ◌⊎◌, ◌↔◌, inl, inr, Bool, false, ◌||◌, List, [], ◌∷◌, any,
  length, leb, leb→lt, All, arith, Bool-cases, or_false,
}
use scamanager.Scorer.Defs.{StaticAnalysisResult, found_in}
use scamanager.Pipeline.Static.{
  pipeline_analysis_timeout, SourceFile, FileOutcome, finished, deadline_reached, raised, StaticRun,
  after_file, run_files, all_failed, has_timed_out, is_unfetched, run_static_with_timeout,
}

-- The result that stands for a file.
abbrev pub Yields : SourceFile → FileOutcome → StaticAnalysisResult → Type 0
Yields f (finished x) r = r ≡ x
Yields f deadline_reached r = ⊥
Yields f raised r = r ≡ found_in f.filename []

abbrev pub IsFinished : FileOutcome → Type 0
IsFinished (finished x) = Unit {0}
IsFinished deadline_reached = ⊥
IsFinished raised = ⊥

no_some_failed : {n m : ℕ} → n ≡ suc m → n ≤ m → ⊥
no_some_failed e h = omega arith

module _ (clock : ℕ → ℕ) (outcome : ℕ → SourceFile → FileOutcome) (deadline : ℕ) where
  -- Each file was started before the deadline and has its result, in the order of the files.
  abbrev pub AllReached : ℕ → List SourceFile → List StaticAnalysisResult → Type 0
  AllReached n [] [] = Unit {0}
  AllReached n [] (r ∷ rs) = ⊥
  AllReached n (f ∷ fs) [] = ⊥
  AllReached n (f ∷ fs) (r ∷ rs) =
      (clock n < deadline) × Yields f (outcome n f) r × AllReached (suc n) fs rs

  -- Some file's analysis ended without an exception.
  abbrev pub AnyFinished : ℕ → List SourceFile → Type 0
  AnyFinished n [] = ⊥
  AnyFinished n (f ∷ fs) = IsFinished (outcome n f) ⊎ AnyFinished (suc n) fs

  abbrev run : ℕ → List SourceFile → StaticRun
  run n files = run_files clock outcome deadline n files

  after-AllReached :
      (n : ℕ) (f : SourceFile) (fs : List SourceFile) (o : FileOutcome)
      → outcome n f ≡ o
      → clock n < deadline
      → ((run (suc n) fs).incomplete ≡ false → AllReached (suc n) fs (run (suc n) fs).results)
      → (after_file f o (run (suc n) fs)).incomplete ≡ false
      → AllReached n (f ∷ fs) (after_file f o (run (suc n) fs)).results
  after-AllReached n f fs (finished x) e lt ih h = (lt, rw e refl, ih h)
  after-AllReached n f fs deadline_reached e lt ih h = cc
  after-AllReached n f fs raised e lt ih h = (lt, rw e refl, ih h)

  run_files-AllReached :
      (n : ℕ) (files : List SourceFile)
      → (run n files).incomplete ≡ false
      → AllReached n files (run n files).results
  unfolding run_files
  run_files-AllReached n [] h = tt
  run_files-AllReached n (f ∷ fs) h = elim (Bool-cases (leb deadline (clock n))) [
    | inl e ↦ cc (rw e at h)
    | inr e ↦ rw e (
        after-AllReached n f fs (outcome n f) refl (leb→lt _ _ e) (run_files-AllReached (suc n) fs)
          (rw e at h))
  ]

  reached-after :
      (n : ℕ) (f : SourceFile) (fs : List SourceFile) (o : FileOutcome)
      → outcome n f ≡ o
      → (AllReached (suc n) fs (run (suc n) fs).results → (run (suc n) fs).incomplete ≡ false)
      → AllReached n (f ∷ fs) (after_file f o (run (suc n) fs)).results
      → (after_file f o (run (suc n) fs)).incomplete ≡ false
  reached-after n f fs (finished x) e ih h = ih h.2
  reached-after n f fs deadline_reached e ih h = absurd h
  reached-after n f fs raised e ih h = ih h.2

  AllReached-run_files :
      (n : ℕ) (files : List SourceFile)
      → AllReached n files (run n files).results
      → (run n files).incomplete ≡ false
  unfolding run_files
  AllReached-run_files n [] h = refl
  AllReached-run_files n (f ∷ fs) h = elim (Bool-cases (leb deadline (clock n))) [
    | inl e ↦ absurd (rw e at h)
    | inr e ↦
        rw e (reached-after n f fs (outcome n f) refl (AllReached-run_files (suc n) fs) (rw e at h))
  ]

  after_failed-le :
      (f : SourceFile) (o : FileOutcome) (r : StaticRun) (k : ℕ)
      → r.failed ≤ k
      → (after_file f o r).failed ≤ suc k
  after_failed-le f (finished x) r k h = omega arith
  after_failed-le f deadline_reached r k h = omega arith
  after_failed-le f raised r k h = omega arith

  failed-le-length : (n : ℕ) (files : List SourceFile) → (run n files).failed ≤ length files
  unfolding run_files
  failed-le-length n [] = omega arith
  failed-le-length n (f ∷ fs) = elim (Bool-cases (leb deadline (clock n))) [
    | inl e ↦ rw e (omega arith)
    | inr e ↦
        rw e (
          after_failed-le f (outcome n f) (run (suc n) fs) (length fs)
            (failed-le-length (suc n) fs))
  ]

  -- Not every file failed exactly if some file was finished.
  finished_after :
      (n : ℕ) (f : SourceFile) (fs : List SourceFile) (o : FileOutcome)
      → outcome n f ≡ o
      → ((run (suc n) fs).incomplete ≡ false
          → (run (suc n) fs).failed < length fs
          → AnyFinished (suc n) fs)
      → (after_file f o (run (suc n) fs)).incomplete ≡ false
      → (after_file f o (run (suc n) fs)).failed < suc (length fs)
      → AnyFinished n (f ∷ fs)
  finished_after n f fs (finished x) e ih h lt = inl (rw e tt)
  finished_after n f fs deadline_reached e ih h lt = cc
  finished_after n f fs raised e ih h lt = inr (ih h (omega arith))

  AnyFinished-run_files :
      (n : ℕ) (files : List SourceFile)
      → (run n files).incomplete ≡ false
      → (run n files).failed < length files
      → AnyFinished n files
  unfolding run_files
  AnyFinished-run_files n [] h lt = absurd (omega arith)
  AnyFinished-run_files n (f ∷ fs) h lt = elim (Bool-cases (leb deadline (clock n))) [
    | inl e ↦ cc (rw e at h)
    | inr e ↦
        finished_after n f fs (outcome n f) refl (AnyFinished-run_files (suc n) fs) (rw e at h)
          (rw e at lt)
  ]

  failed_after :
      (n : ℕ) (f : SourceFile) (fs : List SourceFile) (o : FileOutcome)
      → outcome n f ≡ o
      → (AnyFinished (suc n) fs → (run (suc n) fs).failed < length fs)
      → AnyFinished n (f ∷ fs)
      → (after_file f o (run (suc n) fs)).failed < suc (length fs)
  failed_after n f fs (finished x) e ih h = let le = failed-le-length (suc n) fs in omega arith
  failed_after n f fs deadline_reached e ih h = omega arith
  failed_after n f fs raised e ih (inl h) = absurd (rw e at h)
  failed_after n f fs raised e ih (inr h) = let lt = ih h in omega arith

  failed-lt-length :
      (n : ℕ) (files : List SourceFile) → AnyFinished n files → (run n files).failed < length files
  unfolding run_files
  failed-lt-length n [] h = absurd h
  failed-lt-length n (f ∷ fs) h = elim (Bool-cases (leb deadline (clock n))) [
    | inl e ↦ rw e (omega arith)
    | inr e ↦ rw e (failed_after n f fs (outcome n f) refl (failed-lt-length (suc n) fs) h)
  ]

  not_all_failed :
      (files : List SourceFile)
      → (run 0 files).incomplete ≡ false
      → all_failed files (run 0 files) ≡ false
      → (files ≡ []) ⊎ AnyFinished 0 files
  not_all_failed [] h e = inl refl
  not_all_failed (f ∷ fs) h e =
      let le = failed-le-length 0 (f ∷ fs) in
      inr (AnyFinished-run_files 0 (f ∷ fs) h (ground arith))

  all_failed-not :
      (files : List SourceFile)
      → (files ≡ []) ⊎ AnyFinished 0 files
      → all_failed files (run 0 files) ≡ false
  all_failed-not [] h = refl
  all_failed-not (f ∷ fs) (inl e) = cc
  all_failed-not (f ∷ fs) (inr h) = let lt = failed-lt-length 0 (f ∷ fs) h in ground arith

all_false {ℓ} :
    {A : Type ℓ} (p : A → Bool) (xs : List A) → any p xs ≡ false → All (λ x. p x ≡ false) xs
all_false p [] h = tt
all_false p (x ∷ xs) h = let (a, b) = or_false (p x) (any p xs) h in (a, all_false p xs b)

none_true {ℓ} :
    {A : Type ℓ} (p : A → Bool) (xs : List A) → All (λ x. p x ≡ false) xs → any p xs ≡ false
none_true p [] h = refl
none_true p (x ∷ xs) h = rw h.0 (none_true p xs h.1)

-- The static analysis is complete exactly if every file was started before the deadline, sixty seconds after
-- the start, and has its own result in the order of the files; if there are files, the analysis of one of
-- them at least ended without an exception; no tool ran out of time; and no content failed to be fetched.
pub run_static_with_timeout_lem :
    (start : ℕ) (clock : ℕ → ℕ) (outcome : ℕ → SourceFile → FileOutcome) (files : List SourceFile)
    → (((run_static_with_timeout start clock outcome files).1 ≡ false) ↔ (
        AllReached clock outcome
          (start + pipeline_analysis_timeout * 1000000)
          0
          files
          (run_static_with_timeout start clock outcome files).0
        × ((files ≡ [])
            ⊎ AnyFinished clock outcome (start + pipeline_analysis_timeout * 1000000) 0 files)
        × All (λ r. r.incomplete ≡ false) (run_static_with_timeout start clock outcome files).0
        × All (λ f. f.fetch_failed ≡ false) files))
unfolding run_static_with_timeout
run_static_with_timeout_lem start clock outcome files =
    let deadline = start + pipeline_analysis_timeout * 1000000 in
    let r = run_files clock outcome deadline 0 files in
    (
      λ h.
          let (rest, d) =
            or_false (r.incomplete || all_failed files r || any has_timed_out r.results)
              (any is_unfetched files) h in
          let (rest', c) =
            or_false (r.incomplete || all_failed files r) (any has_timed_out r.results) rest in
          let (a, b) = or_false r.incomplete (all_failed files r) rest' in
          (
            run_files-AllReached clock outcome deadline 0 files a,
            not_all_failed clock outcome deadline files a b,
            all_false has_timed_out r.results c,
            all_false is_unfetched files d,
          ),
      λ h.
          rw
            (
              AllReached-run_files clock outcome deadline 0 files h.0,
              all_failed-not clock outcome deadline files h.1,
              none_true has_timed_out r.results h.2,
              none_true is_unfetched files h.3,
            )
            refl,
    )
