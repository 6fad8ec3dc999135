-- ===== src/Pipeline/Analysed/Idle.antt =====
-- The stages of a run of the pipeline while no other session writes, each as the world that it leaves.
use scamanager.Prelude.{
  ℕ, ◌+◌, ◌≡◌, refl, ap, inl, inr, String, Option, none, some, Bool, true, false, List, [], ◌∷◌,
  ◌++◌, any, find?, Bool-cases,
}
use scamanager.Prelude.Effects.{Answer, returned, ◌>>=◌, pure}
use scamanager.ConfigManager.{RepoConfigData}
use scamanager.Scorer.Defs.{AiReviewResult}
use scamanager.Gate.Actions.{GateContext, run_gate_check}
use scamanager.Pipeline.Tables.{
  ResultDict, AnalysisRow, RepositoryRow, Tables, has_sha, find_by_sha, find_by_full_name,
  insert_analysis,
}
use scamanager.Pipeline.Static.{SourceFile}
use scamanager.Pipeline.World.{
  PipelineEnv, PipelineWorld, transact, look, await, read_config, run_gate, swallow,
}
use scamanager.Pipeline.Save.{
  SaveParams, build_analysis_result_dict, register, ensure_repo, context_for, gate, new_analysis,
  try_insert, save_new, gate_new, gate_saved, after_save, store, save_and_gate,
}
use scamanager.Pipeline.Body.{
  EventMetadata, params_of, analyse, after_save_and_gate, analyse_and_save,
}

abbrev pub with_tables : Tables → PipelineWorld → PipelineWorld
with_tables t w = record w { tables = t }

abbrev pub waited : PipelineWorld → PipelineWorld
waited w = record w { tick = w.tick + 1 }

abbrev pub gated : PipelineEnv → Option GateContext → PipelineWorld → PipelineWorld
gated env none w = w
gated env (some ctx) w = record w {
  gate = (run_gate_check env.gate ctx w.gate).1;
  gate_runs = w.gate_runs ++ (ctx ∷ []);
  tick = w.tick + 1;
}

-- The context of the gate for a pull request.
abbrev pub gate_context_of :
    SaveParams → Option ℕ → ℕ → ResultDict → RepoConfigData → Option GateContext
gate_context_of params none id d config = none
gate_context_of params (some pr) id d config =
    some (context_for params.repo_name params.commit_sha pr id d config)

abbrev pub in_list {ℓ} : {A : Type ℓ} → Option A → List A
in_list none = []
in_list (some a) = a ∷ []

-- The row under its id.
abbrev pub stored_row : SaveParams → ℕ → Tables → AnalysisRow
stored_row params repo_id t =
    record (new_analysis params repo_id (build_analysis_result_dict params)) {
      id = t.next_analysis;
    }

abbrev pub with_row : SaveParams → ℕ → Tables → Tables
with_row params repo_id t = record t {
  analyses = t.analyses ++ (stored_row params repo_id t ∷ []);
  next_analysis = t.next_analysis + 1;
}

find?-any_not : {A : Type 0} (p : A → Bool) (xs : List A) → find? p xs ≡ none → any p xs ≡ false
find?-any_not p [] h = refl
find?-any_not p (x ∷ xs) h = elim (Bool-cases (p x)) [
  | inl e ↦ absurd (some_not_none (rw e at h))
  | inr e ↦ rw e (find?-any_not p xs (rw e at h))
]
  where
    some_not_none : {A : Type 0} {x : A} → some x ≡ none → ⊥
    some_not_none e = cc e

module _ (env : PipelineEnv) (idle : (n : ℕ) (t : Tables) → env.others n t ≡ t) where
  pub await_idle :
      {A : Type 0} (reply : ℕ → Answer A) (a : A) (w : PipelineWorld)
      → reply w.tick ≡ returned a
      → await env reply w ≡ (returned a, waited w)
  unfolding await
  await_idle reply a w e = rw (e, idle w.tick w.tables) refl

  run_gate_idle :
      (ctx : GateContext) (w : PipelineWorld) → (run_gate env ctx w).1 ≡ gated env (some ctx) w
  unfolding run_gate
  run_gate_idle ctx w = rw (idle w.tick w.tables) refl

  gate_new_idle :
      (params : SaveParams) (pr : Option ℕ) (id : ℕ) (d : ResultDict) (config : RepoConfigData)
      (w : PipelineWorld)
      → gate_new env params pr id d (some config) w
        ≡ (returned tt, gated env (gate_context_of params pr id d config) w)
  unfolding gate swallow pure
  gate_new_idle params none id d config w = refl
  gate_new_idle params (some pr) id d config w =
      ap (λ v. (returned tt, v))
        (run_gate_idle (context_for params.repo_name params.commit_sha pr id d config) w)

  gate_saved_idle :
      (params : SaveParams) (d : ResultDict) (id : ℕ) (config : RepoConfigData) (w : PipelineWorld)
      → env.config w.tick params.repo_name ≡ some config
      → gate_saved env params d id w ≡ (
        returned (record { config = some config; analysis = some (id, d) }),
        gated env (gate_context_of params params.pr_number id d config) w,
      )
  unfolding gate_saved read_config pure ◌>>=◌
  gate_saved_idle params d id config w e =
      rw (e, gate_new_idle params params.pr_number id d config w) refl

  save_new_idle :
      (params : SaveParams) (repo_id : ℕ) (w : PipelineWorld)
      → find_by_sha params.commit_sha repo_id w.tables ≡ none
      → save_new env (new_analysis params repo_id (build_analysis_result_dict params)) w ≡ (
        returned (stored_row params repo_id w.tables, true),
        with_tables (with_row params repo_id w.tables) w,
      )
  unfolding save_new transact insert_analysis find_by_sha pure ◌>>=◌
  save_new_idle params repo_id w unseen =
      rw (find?-any_not (has_sha repo_id params.commit_sha) w.tables.analyses unseen, try_insert)
        refl

  save_and_gate_idle :
      (params : SaveParams) (r : RepositoryRow) (config : RepoConfigData) (w : PipelineWorld)
      → find_by_full_name params.repo_name w.tables ≡ some r
      → find_by_sha params.commit_sha r.id w.tables ≡ none
      → ((n : ℕ) → env.config n params.repo_name ≡ some config)
      → save_and_gate env params w ≡ (
        returned (record {
          config = some config;
          analysis = some (w.tables.next_analysis, build_analysis_result_dict params);
        }),
        gated env
            (gate_context_of params params.pr_number w.tables.next_analysis
              (build_analysis_result_dict params)
              config)
            (with_tables (with_row params r.id w.tables) (waited w)),
      )
  unfolding save_and_gate store after_save look ◌>>=◌
  save_and_gate_idle params r config w known unseen reads =
      rw
        (
          known,
          unseen,
          await_idle (λ n. returned tt) tt w refl,
          save_new_idle params r.id (waited w) unseen,
          gate_saved_idle params (build_analysis_result_dict params) w.tables.next_analysis config
              (with_tables (with_row params r.id w.tables) (waited w)) (reads (w.tick + 1)),
        )
        refl

  pub analyse_and_save_idle :
      (m : EventMetadata) (r : RepositoryRow) (f : SourceFile) (files : List SourceFile)
      (config : RepoConfigData) (review : AiReviewResult) (w : PipelineWorld)
      → find_by_full_name m.repo_name w.tables ≡ some r
      → find_by_sha m.commit_sha r.id w.tables ≡ none
      → ((n : ℕ) → env.config n m.repo_name ≡ some config)
      → ((n : ℕ) → env.ai_review n (some config) (f ∷ files) ≡ returned review)
      → analyse_and_save env m r.id (f ∷ files) w
        ≡ after_save_and_gate env m r.id
            (record {
              config = some config;
              analysis = some (
                w.tables.next_analysis,
                build_analysis_result_dict (analyse env m (f ∷ files) (some config) review),
              );
            })
            (gated env
              (gate_context_of
                (analyse env m (f ∷ files) (some config) review)
                m.pr_number
                w.tables.next_analysis
                (build_analysis_result_dict (analyse env m (f ∷ files) (some config) review))
                config)
              (with_tables
                (with_row (analyse env m (f ∷ files) (some config) review) r.id w.tables)
                (waited (waited w))))
  unfolding analyse_and_save read_config analyse params_of ◌>>=◌
  analyse_and_save_idle m r f files config review w known unseen reads reviewed =
      rw
        (
          reads w.tick,
          await_idle (λ n. env.ai_review n (some config) (f ∷ files)) review w (reviewed w.tick),
          save_and_gate_idle (analyse env m (f ∷ files) (some config) review) r config (waited w)
              known unseen reads,
        )
        refl

pub ensure_repo_new :
    (env : PipelineEnv) (name sha : String) (r : RepositoryRow) (w : PipelineWorld)
    → find_by_full_name name w.tables ≡ some r
    → find_by_sha sha r.id w.tables ≡ none
    → ensure_repo env name sha w ≡ (returned (some r), w)
unfolding ensure_repo look register pure ◌>>=◌
ensure_repo_new env name sha r w known unseen = rw (known, unseen) refl
