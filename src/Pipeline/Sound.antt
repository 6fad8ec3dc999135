-- ===== src/Pipeline/Sound.antt =====
-- The unique columns of the three tables, and that a run of the pipeline keeps them.
use scamanager.Prelude.{
  ℕ, ◌+◌, ◌<◌, ◌≡◌, refl, String, Option, none, some, Bool, true, false, ◌||◌, ◌==◌, List, [], ◌∷◌,
  any, update_where, All, All-imp, All-append, All-filter, All-update_where, arith, Bool-cases, inl,
  inr,
}
use scamanager.Prelude.Distinct.{
  AllDistinct, AllDistinct-snoc, AllDistinct-filter, AllDistinct-update_where,
}
use scamanager.Pipeline.Tables.{
  ResultDict, AnalysisRow, RepositoryRow, AnalysisAttempt, Tables, has_sha, has_analysis_id,
  has_full_name, is_trace_of, find_by_sha, find_by_id, insert_analysis, insert_repo, begin_attempt,
  finish_attempt, is_cli_only,
}
use scamanager.Pipeline.World.{Payload, PipelineEnv, PipelineWorld, run_gate, swallow}
use scamanager.Pipeline.Save.{
  SaveParams, try_insert_repo, try_insert, with_pr, set_pr, adopt_pushed, find_pushed, adopt_raced,
  superseded, supersede_locked, claim_and_supersede_cli, is_some, same_pr,
}
use scamanager.Pipeline.Body.{extract_event_metadata, run_pipeline_body}
use scamanager.Pipeline.Ops.{
  Op, registers, stores, regates, races, supersedes, begins, finishes, apply,
}
use scamanager.Pipeline.Carried.{guarded_body-Kept}

abbrev pub clash_analysis : AnalysisRow → AnalysisRow → Bool
clash_analysis a b = a.id == b.id || has_sha b.repo_id b.commit_sha a

abbrev pub clash_repo : RepositoryRow → RepositoryRow → Bool
clash_repo a b = a.id == b.id || has_full_name b.full_name a

abbrev pub clash_attempt : AnalysisAttempt → AnalysisAttempt → Bool
clash_attempt a b = a.id == b.id || is_trace_of b.repo_id b.commit_sha a

-- The ids and the unique columns of each table differ from row to row, and the sequences are ahead.
pub record IsSound (t : Tables) : Type 0 where
  pub analyses : AllDistinct clash_analysis t.analyses
  pub analysis_ids : All (λ a. a.id < t.next_analysis) t.analyses
  pub repos : AllDistinct clash_repo t.repos
  pub repo_ids : All (λ r. r.id < t.next_repo) t.repos
  pub attempts : AllDistinct clash_attempt t.attempts
  pub attempt_ids : All (λ a. a.id < t.next_attempt) t.attempts

-- A new row whose id is the sequence's and whose key no row has.
module _ {A : Type 0} (id : A → ℕ) (key : A → Bool) where
  Distinct-new :
      (xs : List A) (next : ℕ)
      → any key xs ≡ false
      → All (λ x. id x < next) xs
      → All (λ x. (id x == next || key x) ≡ false) xs
  Distinct-new [] next h k = tt
  Distinct-new (x ∷ xs) next h k =
      (other x next (ground (arith, h)) k.0, Distinct-new xs next (ground (arith, h)) k.1)
    where
      other : (x : A) (next : ℕ) → key x ≡ false → id x < next → (id x == next || key x) ≡ false
      other x next e lt = ground arith

  ids_ahead : (xs : List A) (next : ℕ) → All (λ x. id x < next) xs → All (λ x. id x < next + 1) xs
  ids_ahead xs next h = All-imp _ _ (λ x lt. omega arith) xs h

insert_analysis-IsSound :
    (new : AnalysisRow) (t : Tables) → IsSound t → IsSound (try_insert new t).1
unfolding insert_analysis
insert_analysis-IsSound new t h =
    elim (Bool-cases (any (has_sha new.repo_id new.commit_sha) t.analyses)) [
      | inl e ↦ rw (e, try_insert) h
      | inr e ↦
          let stored = record new { id = t.next_analysis } in
          rw (e, try_insert)
            (record {
              analyses = AllDistinct-snoc clash_analysis t.analyses stored h.analyses (
                  Distinct-new (λ a. a.id) (has_sha new.repo_id new.commit_sha) t.analyses
                    t.next_analysis e h.analysis_ids);
              analysis_ids =
                  All-append _ t.analyses (stored ∷ [])
                    (ids_ahead (λ a. a.id) (λ a. true) t.analyses t.next_analysis h.analysis_ids)
                    (omega arith, tt);
              repos = h.repos;
              repo_ids = h.repo_ids;
              attempts = h.attempts;
              attempt_ids = h.attempt_ids;
            })
    ]

insert_repo-IsSound : (name : String) (t : Tables) → IsSound t → IsSound (try_insert_repo name t).1
unfolding insert_repo
insert_repo-IsSound name t h = elim (Bool-cases (any (has_full_name name) t.repos)) [
  | inl e ↦ rw (e, try_insert_repo) h
  | inr e ↦
      let stored : RepositoryRow = record { id = t.next_repo; full_name = name } in
      rw (e, try_insert_repo)
        (record {
          analyses = h.analyses;
          analysis_ids = h.analysis_ids;
          repos =
              AllDistinct-snoc clash_repo t.repos stored h.repos
                (Distinct-new (λ r. r.id) (has_full_name name) t.repos t.next_repo e h.repo_ids);
          repo_ids =
              All-append _ t.repos (stored ∷ [])
                (ids_ahead (λ r. r.id) (λ r. true) t.repos t.next_repo h.repo_ids)
                (omega arith, tt);
          attempts = h.attempts;
          attempt_ids = h.attempt_ids;
        })
]

begin_attempt-IsSound :
    (repo_id : ℕ) (sha : String) (pr : Option ℕ) (event : String) (now : ℕ) (t : Tables)
    → IsSound t
    → IsSound (begin_attempt repo_id sha pr event now t).1
unfolding begin_attempt
begin_attempt-IsSound repo_id sha pr event now t h =
    elim (Bool-cases (any (is_trace_of repo_id sha) t.attempts)) [
      | inl e ↦ rw e h
      | inr e ↦ rw e (record {
        analyses = h.analyses;
        analysis_ids = h.analysis_ids;
        repos = h.repos;
        repo_ids = h.repo_ids;
        attempts = AllDistinct-snoc clash_attempt t.attempts _ h.attempts (
            Distinct-new (λ a. a.id) (is_trace_of repo_id sha) t.attempts t.next_attempt e
              h.attempt_ids);
        attempt_ids =
            All-append _ t.attempts (_ ∷ [])
              (ids_ahead (λ a. a.id) (λ a. true) t.attempts t.next_attempt h.attempt_ids)
              (omega arith, tt);
      })
    ]

finish_attempt-IsSound :
    (repo_id : ℕ) (sha : String) (t : Tables) → IsSound t → IsSound (finish_attempt repo_id sha t)
unfolding finish_attempt
finish_attempt-IsSound repo_id sha t h = record {
  analyses = h.analyses;
  analysis_ids = h.analysis_ids;
  repos = h.repos;
  repo_ids = h.repo_ids;
  attempts = AllDistinct-filter clash_attempt _ t.attempts h.attempts;
  attempt_ids = All-filter _ _ t.attempts h.attempt_ids;
}

-- A change of one analysis that keeps its id, its repository and its commit.
module _ (i : ℕ) (change : AnalysisRow → AnalysisRow)
    (kept : (a : AnalysisRow)
      → ((change a).id ≡ a.id)
        × ((change a).repo_id ≡ a.repo_id)
        × ((change a).commit_sha ≡ a.commit_sha)) where
  update-IsSound :
      (t : Tables)
      → IsSound t
      → IsSound (record t { analyses = update_where (has_analysis_id i) change t.analyses })
  update-IsSound t h = record {
    analyses =
        AllDistinct-update_where clash_analysis (has_analysis_id i) change
          (λ x y. rw ((kept x).0, (kept x).1, (kept x).2) refl)
          (λ x y. rw ((kept y).0, (kept y).1, (kept y).2) refl) t.analyses h.analyses;
    analysis_ids =
        All-update_where _ (has_analysis_id i) change t.analyses
          (All-imp _ _ (λ a lt e. rw (kept a).0 lt) t.analyses h.analysis_ids) h.analysis_ids;
    repos = h.repos;
    repo_ids = h.repo_ids;
    attempts = h.attempts;
    attempt_ids = h.attempt_ids;
  }

set_pr-IsSound : (i pr : ℕ) (t : Tables) → IsSound t → IsSound (set_pr i pr t)
unfolding set_pr
set_pr-IsSound i pr t h = update-IsSound i (with_pr pr) (λ a. (refl, refl, refl)) t h

-- What `adopt_pushed` and `adopt_raced` do to the tables: nothing, or a number for one row.
adopt_pushed-IsSound :
    (pr : ℕ) (a : Option AnalysisRow) (t : Tables) → IsSound t → IsSound (adopt_pushed pr a t).1
unfolding adopt_pushed
adopt_pushed-IsSound pr none t h = h
adopt_pushed-IsSound pr (some a) t h = elim (Bool-cases (same_pr a.pr_number pr)) [
  | inl e ↦ rw e h
  | inr e ↦ elim (Bool-cases (is_cli_only a)) [
    | inl c ↦ rw (e, c) h
    | inr c ↦ elim (Bool-cases (is_some a.pr_number)) [
      | inl n ↦ rw (e, c, n) h
      | inr n ↦ rw (e, c, n) (set_pr-IsSound a.id pr t h)
    ]
  ]
]

adopt_raced-IsSound :
    (pr : Option ℕ) (a : Option AnalysisRow) (t : Tables)
    → IsSound t
    → IsSound (adopt_raced pr a t).1
unfolding adopt_raced
adopt_raced-IsSound pr none t h = h
adopt_raced-IsSound none (some a) t h = h
adopt_raced-IsSound (some pr) (some a) t h = elim (Bool-cases (is_some a.pr_number)) [
  | inl e ↦ rw e h
  | inr e ↦ elim (Bool-cases (is_some a.result)) [
    | inl r ↦ rw (e, r) (set_pr-IsSound a.id pr t h)
    | inr r ↦ rw (e, r) h
  ]
]

supersede-IsSound :
    (params : SaveParams) (d : ResultDict) (a : Option AnalysisRow) (t : Tables)
    → IsSound t
    → IsSound (supersede_locked params d a t).1
supersede-IsSound params d none t h = h
supersede-IsSound params d (some a) t h = elim (Bool-cases (is_cli_only a)) [
  | inl c ↦
      rw (c, supersede_locked)
        (update-IsSound a.id (superseded params d) (λ b. (refl, refl, refl)) t h)
  | inr c ↦ rw (c, supersede_locked) h
]

pub apply-IsSound : (o : Op) (t : Tables) → IsSound t → IsSound (apply o t)
unfolding apply claim_and_supersede_cli
apply-IsSound (registers name) t h = insert_repo-IsSound name t h
apply-IsSound (stores new) t h = insert_analysis-IsSound new t h
apply-IsSound (regates pr name sha) t h = adopt_pushed-IsSound pr (find_pushed name sha t) t h
apply-IsSound (races pr sha repo_id) t h = adopt_raced-IsSound pr (find_by_sha sha repo_id t) t h
apply-IsSound (supersedes id params d) t h = supersede-IsSound params d (find_by_id id t) t h
apply-IsSound (begins repo_id sha pr event now) t h =
    begin_attempt-IsSound repo_id sha pr event now t h
apply-IsSound (finishes repo_id sha) t h = finish_attempt-IsSound repo_id sha t h

-- A run of the pipeline, whatever it is answered and whatever raises, keeps the tables sound if the other
-- sessions do: no repository has two analyses of a commit, no name two repositories, no commit two traces.
pub run_pipeline_body-IsSound :
    (env : PipelineEnv) (event : String) (payload : Payload)
    → ((n : ℕ) (t : Tables) → IsSound t → IsSound (env.others n t))
    → (w : PipelineWorld) → IsSound w.tables
    → IsSound (run_pipeline_body env event payload w).1.tables
unfolding run_pipeline_body swallow
run_pipeline_body-IsSound env event payload others w h =
    (guarded_body-Kept env (λ v. IsSound v.tables) (λ d. Unit {0}) (λ name sha pr d c. Unit {0})
        (record {
          others = λ v k. others v.tick v.tables k;
          written = λ o known v k. apply-IsSound o v.tables k;
          pushed = λ pr name sha v k a e d f. tt;
          raced = λ pr sha repo_id v k a e d f. tt;
          gated = λ name sha pr id result config allowed.
              unfold run_gate in record { left = λ v k. others v.tick v.tables k };
          noticed = λ c v k. k;
        })
        (extract_event_metadata event payload) (λ n e d known c read. tt)
        (λ files config review. tt) event).left
      w h
