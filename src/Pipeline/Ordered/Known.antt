-- ===== src/Pipeline/Ordered/Known.antt =====
-- What the stored results are known to be, through the transactions of a run.
use scamanager.Prelude.{
  ℕ, ◌≡◌, inl, inr, String, Option, none, some, some_eq, [], ◌∷◌, any, subst, All, All-imp,
  All-append, All-update_where, All-elim, Bool-cases,
}
use scamanager.Pipeline.Tables.{
  ResultDict, AnalysisRow, Tables, has_sha, has_analysis_id, has_full_name, is_trace_of,
  find_by_sha, find_by_id, insert_analysis, insert_repo, begin_attempt, finish_attempt, is_cli_only,
}
use scamanager.Pipeline.Save.{
  SaveParams, try_insert_repo, try_insert, with_pr, set_pr, adopt_pushed, find_pushed, adopt_raced,
  superseded, supersede_locked, claim_and_supersede_cli, is_some, same_pr,
}
use scamanager.Pipeline.Ops.{
  Op, registers, stores, regates, races, supersedes, begins, finishes, apply, IsKnownRow, IsKnownOp,
}
use scamanager.Pipeline.FirstWriter.{found_member, pushed_member}

-- The results of all the stored analyses are known.
abbrev pub AreKnownRows : (ResultDict → Type 0) → Tables → Type 0
AreKnownRows Known t = All (IsKnownRow Known) t.analyses

module _ (Known : ResultDict → Type 0) where
  insert_known :
      (new : AnalysisRow) (t : Tables)
      → IsKnownRow Known new
      → AreKnownRows Known t
      → AreKnownRows Known (try_insert new t).1
  unfolding insert_analysis
  insert_known new t known h =
      elim (Bool-cases (any (has_sha new.repo_id new.commit_sha) t.analyses)) [
        | inl e ↦ rw (e, try_insert) h
        | inr e ↦
            rw (e, try_insert) (All-append (IsKnownRow Known) t.analyses (_ ∷ []) h (known, tt))
      ]

  repo_known :
      (name : String) (t : Tables)
      → AreKnownRows Known t
      → AreKnownRows Known (try_insert_repo name t).1
  unfolding insert_repo
  repo_known name t h = elim (Bool-cases (any (has_full_name name) t.repos)) [
    | inl e ↦ rw (e, try_insert_repo) h
    | inr e ↦ rw (e, try_insert_repo) h
  ]

  trace_known :
      (repo_id : ℕ) (sha : String) (pr : Option ℕ) (event : String) (now : ℕ) (t : Tables)
      → AreKnownRows Known t
      → AreKnownRows Known (begin_attempt repo_id sha pr event now t).1
  unfolding begin_attempt
  trace_known repo_id sha pr event now t h =
      elim (Bool-cases (any (is_trace_of repo_id sha) t.attempts)) [
        | inl e ↦ rw e h
        | inr e ↦ rw e h
      ]

  set_pr_known : (i pr : ℕ) (t : Tables) → AreKnownRows Known t → AreKnownRows Known (set_pr i pr t)
  unfolding set_pr
  set_pr_known i pr t h =
      All-update_where (IsKnownRow Known) (has_analysis_id i) (with_pr pr) t.analyses
        (All-imp _ _ (λ a k e. k) t.analyses h) h

  -- The row that a push left is given the number and goes back to the gate, or nothing happens.
  adopt_pushed_known :
      (pr : ℕ) (o : Option AnalysisRow) (t : Tables)
      → AreKnownRows Known t
      → AreKnownRows Known (adopt_pushed pr o t).1
        × ((a : AnalysisRow) → (adopt_pushed pr o t).0 ≡ some a → o ≡ some a)
  unfolding adopt_pushed
  adopt_pushed_known pr none t h = (h, λ a e. e)
  adopt_pushed_known pr (some a) t h = elim (Bool-cases (same_pr a.pr_number pr)) [
    | inl e ↦ rw e (h, λ b q. cc q)
    | inr e ↦ elim (Bool-cases (is_cli_only a)) [
      | inl c ↦ rw (e, c) (h, λ b q. cc q)
      | inr c ↦ elim (Bool-cases (is_some a.pr_number)) [
        | inl n ↦ rw (e, c, n) (h, λ b q. cc q)
        | inr n ↦ rw (e, c, n) (set_pr_known a.id pr t h, λ b q. q)
      ]
    ]
  ]

  adopt_raced_known :
      (pr : Option ℕ) (o : Option AnalysisRow) (t : Tables)
      → AreKnownRows Known t
      → AreKnownRows Known (adopt_raced pr o t).1
        × ((a : AnalysisRow) → (adopt_raced pr o t).0 ≡ some a → o ≡ some a)
  unfolding adopt_raced
  adopt_raced_known pr none t h = (h, λ a e. e)
  adopt_raced_known none (some a) t h = (h, λ b q. cc q)
  adopt_raced_known (some pr) (some a) t h = elim (Bool-cases (is_some a.pr_number)) [
    | inl e ↦ rw e (h, λ b q. cc q)
    | inr e ↦ elim (Bool-cases (is_some a.result)) [
      | inl r ↦ rw (e, r) (set_pr_known a.id pr t h, λ b q. q)
      | inr r ↦ rw (e, r) (h, λ b q. cc q)
    ]
  ]

  supersede_known :
      (params : SaveParams) (d : ResultDict) (o : Option AnalysisRow) (t : Tables)
      → Known d
      → AreKnownRows Known t
      → AreKnownRows Known (supersede_locked params d o t).1
  supersede_known params d none t known h = h
  supersede_known params d (some a) t known h = elim (Bool-cases (is_cli_only a)) [
    | inl c ↦
        rw (c, supersede_locked)
          (All-update_where (IsKnownRow Known) (has_analysis_id a.id) (superseded params d)
            t.analyses (All-imp _ _ (λ b k e x q. subst Known (some_eq q) known) t.analyses h) h)
    | inr c ↦ rw (c, supersede_locked) h
  ]

  pub apply-AreKnownRows :
      (o : Op) (t : Tables)
      → IsKnownOp Known o
      → AreKnownRows Known t
      → AreKnownRows Known (apply o t)
  unfolding apply claim_and_supersede_cli
  apply-AreKnownRows (registers name) t known h = repo_known name t h
  apply-AreKnownRows (stores new) t known h = insert_known new t known h
  apply-AreKnownRows (regates pr name sha) t known h =
      (adopt_pushed_known pr (find_pushed name sha t) t h).0
  apply-AreKnownRows (races pr sha repo_id) t known h =
      (adopt_raced_known pr (find_by_sha sha repo_id t) t h).0
  apply-AreKnownRows (supersedes id params d) t known h =
      supersede_known params d (find_by_id id t) t known h
  apply-AreKnownRows (begins repo_id sha pr event now) t known h =
      trace_known repo_id sha pr event now t h
  apply-AreKnownRows (finishes repo_id sha) t known h = unfold finish_attempt in h

  pub pushed_known :
      (pr : ℕ) (name sha : String) (t : Tables)
      → AreKnownRows Known t
      → (a : AnalysisRow) → (adopt_pushed pr (find_pushed name sha t) t).0 ≡ some a
      → IsKnownRow Known a
  pushed_known pr name sha t h a e =
      All-elim (IsKnownRow Known) t.analyses h
        (pushed_member name sha t a ((adopt_pushed_known pr (find_pushed name sha t) t h).1 a e))

  pub raced_known :
      (pr : Option ℕ) (sha : String) (repo_id : ℕ) (t : Tables)
      → AreKnownRows Known t
      → (a : AnalysisRow) → (adopt_raced pr (find_by_sha sha repo_id t) t).0 ≡ some a
      → IsKnownRow Known a
  raced_known pr sha repo_id t h a e =
      All-elim (IsKnownRow Known) t.analyses h (
        found_member sha repo_id t a ((adopt_raced_known pr (find_by_sha sha repo_id t) t h).1 a e))
