-- ===== src/Pipeline/Again.antt =====
-- The pipeline is given a commit a second time.
use scamanager.Prelude.{
  ℕ, ◌≡◌, refl, ◌⊎◌, inl, inr, ap, String, Option, none, some, true, false, arith, Bool-cases,
}
use scamanager.Prelude.Effects.{returned, ◌>>=◌, pure}
use scamanager.Pipeline.Tables.{
  AnalysisRow, RepositoryRow, Tables, find_by_sha, find_by_full_name, is_cli_only,
}
use scamanager.Pipeline.World.{Payload, PipelineEnv, PipelineWorld, transact, look, swallow}
use scamanager.Pipeline.Save.{
  is_some, register, ensure_repo, adopt_pushed, find_pushed, regate_pr_if_needed,
}
use scamanager.Pipeline.Body.{
  EventMetadata, is_pull_request, extract_event_metadata, is_blank_sha, regate, after_ensure,
  guarded_body, run_pipeline_body,
}

-- The commit of an event has the analysis `a` in the tables.
pub record IsAnalysed (m : EventMetadata) (a : AnalysisRow) (t : Tables) : Type 0 where
  pub repo : RepositoryRow
  pub is_repo : find_by_full_name m.repo_name t ≡ some repo
  pub is_row : find_by_sha m.commit_sha repo.id t ≡ some a

ensure_repo_again :
    (env : PipelineEnv) (m : EventMetadata) (a : AnalysisRow) (w : PipelineWorld)
    → is_cli_only a ≡ false
    → IsAnalysed m a w.tables
    → ensure_repo env m.repo_name m.commit_sha w ≡ (returned none, w)
unfolding ensure_repo look register pure ◌>>=◌
ensure_repo_again env m a w cli h = rw (h.is_repo, h.is_row, cli) refl

adopt_pushed_numbered :
    (pr : ℕ) (a : AnalysisRow) (t : Tables)
    → is_cli_only a ≡ false
    → is_some a.pr_number ≡ true
    → adopt_pushed pr (some a) t ≡ (none, t)
unfolding adopt_pushed
adopt_pushed_numbered pr a t cli numbered = rw (cli, numbered) (ground arith)

find_pushed_again :
    (m : EventMetadata) (a : AnalysisRow) (t : Tables)
    → IsAnalysed m a t
    → find_pushed m.repo_name m.commit_sha t ≡ some a
find_pushed_again m a t h = rw (h.is_repo, find_pushed) h.is_row

regate_again :
    (env : PipelineEnv) (m : EventMetadata) (pr : Option ℕ) (a : AnalysisRow) (w : PipelineWorld)
    → is_cli_only a ≡ false
    → IsAnalysed m a w.tables
    → is_some a.pr_number ≡ true
    → regate env m pr w ≡ (returned tt, w)
unfolding regate_pr_if_needed transact pure ◌>>=◌
regate_again env m none a w cli h numbered = refl
regate_again env m (some n) a w cli h numbered =
    rw (find_pushed_again m a w.tables h, adopt_pushed_numbered n a w.tables cli numbered) refl

after_ensure_again :
    (env : PipelineEnv) (event : String) (m : EventMetadata) (a : AnalysisRow) (w : PipelineWorld)
    → is_cli_only a ≡ false
    → IsAnalysed m a w.tables
    → (is_some a.pr_number ≡ true) ⊎ (is_pull_request event ≡ false)
    → after_ensure env event m none w ≡ (returned tt, w)
unfolding pure
after_ensure_again env event m a w cli h (inr e) = rw e refl
after_ensure_again env event m a w cli h (inl numbered) =
    elim (Bool-cases (is_pull_request event)) [
      | inl e ↦ rw e (regate_again env m m.pr_number a w cli h numbered)
      | inr e ↦ rw e refl
    ]

guarded_body_again :
    (env : PipelineEnv) (event : String) (m : EventMetadata) (a : AnalysisRow) (w : PipelineWorld)
    → is_cli_only a ≡ false
    → IsAnalysed m a w.tables
    → (is_some a.pr_number ≡ true) ⊎ (is_pull_request event ≡ false)
    → guarded_body env event m w ≡ (returned tt, w)
unfolding guarded_body pure ◌>>=◌
guarded_body_again env event m a w cli h known = elim (Bool-cases (is_blank_sha m.commit_sha)) [
  | inl e ↦ rw e refl
  | inr e ↦
      rw (e, ensure_repo_again env m a w cli h, after_ensure_again env event m a w cli h known) refl
]

-- A commit whose analysis is stored, by the pipeline and not by the CLI hook, is not analysed again: a second
-- event of it changes nothing, calls nothing, and sends nothing, provided that the analysis has its number of
-- a pull request or the event is not one of a pull request.
pub run_pipeline_body_again :
    (env : PipelineEnv) (event : String) (payload : Payload) (a : AnalysisRow) (w : PipelineWorld)
    → is_cli_only a ≡ false
    → IsAnalysed (extract_event_metadata event payload) a w.tables
    → (is_some a.pr_number ≡ true) ⊎ (is_pull_request event ≡ false)
    → run_pipeline_body env event payload w ≡ (returned tt, w)
unfolding run_pipeline_body swallow
run_pipeline_body_again env event payload a w cli h known =
    ap (λ r. (returned tt, r.1))
      (guarded_body_again env event (extract_event_metadata event payload) a w cli h known)
