-- ===== src/Pipeline/Carried.antt =====
-- An invariant is carried through the body of the pipeline.
use scamanager.Prelude.{ℕ, ◌≡◌, refl, String, Option, none, some, List}
use scamanager.Prelude.Preserves.{Preserves, Preserves-pure, Preserves-if, Preserves-bind}
use scamanager.ConfigManager.{RepoConfigData}
use scamanager.Scorer.Defs.{AiReviewResult}
use scamanager.Pipeline.Tables.{ResultDict, RepositoryRow}
use scamanager.Pipeline.Static.{SourceFile, is_empty_list}
use scamanager.Pipeline.World.{NotifyContext, PipelineEnv, PipelineWorld, Pipe, notify}
use scamanager.Pipeline.Save.{save_and_gate, build_analysis_result_dict}
use scamanager.Pipeline.Body.{
  EventMetadata, is_pull_request, is_blank_sha, begin, finish, params_of, analyse, notify_saved,
  after_save_and_gate, analyse_and_save, after_ensure, guarded_body,
}
use scamanager.Pipeline.Ops.{begins, finishes, apply, Keeps, IsSetting}
use scamanager.Pipeline.Steps.{
  await-Kept, config-Kept, transact-Kept, ensure_repo-Kept, regate-Kept, save_and_gate-Kept,
}

module _ (env : PipelineEnv) (K : PipelineWorld → Type 0) (Known : ResultDict → Type 0)
    (Allowed : String → String → ℕ → ResultDict → RepoConfigData → Type 0)
    (keeps : Keeps env K Known Allowed) (m : EventMetadata)
    (allowed : (n : ℕ)
      → m.pr_number ≡ some n
      → (d : ResultDict) → Known d
      → (c : RepoConfigData) → IsSetting env m.repo_name c
      → Allowed m.repo_name m.commit_sha n d c)
    (own : (files : List SourceFile) (config : Option RepoConfigData) (review : AiReviewResult)
      → Known (build_analysis_result_dict (analyse env m files config review))) where
  abbrev Kept : {A : Type 0} → Pipe A → Type 0
  Kept step = Preserves K step

  begin-Kept :
      (repo_id : ℕ) (sha : String) (pr : Option ℕ) (event : String)
      → Kept (begin env repo_id sha pr event)
  unfolding begin apply
  begin-Kept repo_id sha pr event =
      transact-Kept env K Known Allowed keeps (begins repo_id sha pr event env.now) _ tt (λ t. refl)

  finish-Kept : (repo_id : ℕ) (sha : String) → Kept (finish repo_id sha)
  unfolding finish apply
  finish-Kept repo_id sha =
      transact-Kept env K Known Allowed keeps (finishes repo_id sha) _ tt (λ t. refl)

  notify-Kept : (c : NotifyContext) → Kept (notify env c)
  unfolding notify
  notify-Kept c = record { left = λ w h. keeps.noticed c w h }

  notify_saved-Kept :
      (config : Option RepoConfigData) (o : Option (ℕ × ResultDict))
      → Kept (notify_saved env m config o)
  notify_saved-Kept config none = Preserves-pure tt
  notify_saved-Kept config (some (id, d)) = notify-Kept _

  save-Kept :
      (files : List SourceFile) (config : Option RepoConfigData) (review : AiReviewResult)
      → Kept (save_and_gate env (analyse env m files config review))
  unfolding analyse params_of
  save-Kept files config review =
      save_and_gate-Kept env K Known Allowed keeps _ allowed (own files config review)

  analyse_and_save-Kept :
      (repo_id : ℕ) (files : List SourceFile) → Kept (analyse_and_save env m repo_id files)
  unfolding analyse_and_save after_save_and_gate
  analyse_and_save-Kept repo_id files =
      Preserves-if (is_empty_list files) _ _ (λ _. finish-Kept repo_id m.commit_sha)
        (λ _. Preserves-bind _ _ (config-Kept env K Known Allowed keeps _) (λ config.
          Preserves-bind _ _ (await-Kept env K Known Allowed keeps _) (λ review.
            Preserves-bind _ _ (save-Kept files config review) (λ saved.
              Preserves-bind _ _ (finish-Kept repo_id m.commit_sha)
                (λ _. notify_saved-Kept saved.config saved.analysis)))))

  after_ensure-Kept :
      (event : String) (r : Option RepositoryRow) → Kept (after_ensure env event m r)
  after_ensure-Kept event none =
      Preserves-if (is_pull_request event) _ _
        (λ _. regate-Kept env K Known Allowed keeps m m.pr_number allowed) (λ _. Preserves-pure tt)
  after_ensure-Kept event (some r) =
      Preserves-bind _ _ (begin-Kept r.id m.commit_sha m.pr_number event) (λ _.
        Preserves-bind _ _ (await-Kept env K Known Allowed keeps _)
          (λ files. analyse_and_save-Kept r.id files))

  pub guarded_body-Kept : (event : String) → Kept (guarded_body env event m)
  unfolding guarded_body
  guarded_body-Kept event =
      Preserves-if (is_blank_sha m.commit_sha) _ _ (λ _. Preserves-pure tt)
        (λ _.
          Preserves-bind _ _ (ensure_repo-Kept env K Known Allowed keeps m.repo_name m.commit_sha)
            (λ r. after_ensure-Kept event r))
