-- ===== src/Pipeline/Steps.antt =====
-- An invariant is carried through the storing of an analysis and the gate after it.
use scamanager.Prelude.{
  some_eq, ◌∙◌, ℕ, ◌≡◌, refl, sym, subst, String, Option, none, some, Bool, true, false,
}
use scamanager.Prelude.Effects.{Answer, returned, ◌>>=◌}
use scamanager.Prelude.Preserves.{
  Preserves, Preserves-pure, Preserves-if, Preserves-bind, Preserves-bind_from,
}
use scamanager.ConfigManager.{RepoConfigData}
use scamanager.Pipeline.Tables.{ResultDict, AnalysisRow, RepositoryRow, Tables, is_cli_only}
use scamanager.Pipeline.World.{
  PipelineEnv, PipelineWorld, Pipe, transact, look, await, read_config, raise, swallow,
}
use scamanager.Pipeline.Save.{
  SaveParams, try_insert_repo, raise_if_none, registered, register, unless_analysed, ensure_repo,
  gate_with, gate, gate_row, regate_row, regate_pr_if_needed, gate_raced, race_recover_existing,
  new_analysis, found_existing, inserted, save_new, recovered, gate_new, gate_saved, after_claim,
  after_save, store, unless_saved, save_in, save_and_gate, build_analysis_result_dict,
}
use scamanager.Pipeline.Body.{EventMetadata, regate}
use scamanager.Pipeline.Ops.{
  Op, registers, stores, regates, races, supersedes, apply, Keeps, IsSetting, IsKnownRow, IsKnownOp,
}

module _ (env : PipelineEnv) (K : PipelineWorld → Type 0) (Known : ResultDict → Type 0)
    (Allowed : String → String → ℕ → ResultDict → RepoConfigData → Type 0)
    (keeps : Keeps env K Known Allowed) where
  abbrev pub Kept : {A : Type 0} → Pipe A → Type 0
  Kept m = Preserves K m

  look-Kept : {A : Type 0} (f : Tables → A) → Kept (look f)
  unfolding look
  look-Kept f = record { left = λ w h. h }

  pub await-Kept : {A : Type 0} (reply : ℕ → Answer A) → Kept (await env reply)
  unfolding await
  await-Kept reply = record { left = λ w h. keeps.others w h }

  raise-Kept : {A : Type 0} → Preserves K {A = A} raise
  raise-Kept = record { left = λ w h. h }

  pub config-Kept : (name : String) → Kept (read_config env name)
  unfolding read_config
  config-Kept name = record { left = λ w h. h }

  -- What settings that may be missing are read from.
  abbrev pub AreSettings : String → Option RepoConfigData → Type 0
  AreSettings name config = (c : RepoConfigData) → config ≡ some c → IsSetting env name c

  -- The rest may use that the settings were read.
  pub config-bind :
      {A : Type 0} (name : String) (rest : Option RepoConfigData → Pipe A)
      → ((config : Option RepoConfigData) → AreSettings name config → Kept (rest config))
      → Kept (read_config env name >>= rest)
  unfolding read_config
  config-bind name rest then_on =
      Preserves-bind_from (AreSettings name) (read_config env name) rest
        (λ w h x e c f. (w.tick, answered e ∙ f)) (config-Kept name) then_on
    where
      answered : {x y : Option RepoConfigData} → returned x ≡ returned y → x ≡ y
      answered e = cc

  pub swallow-Kept : (m : Pipe (Unit {0})) → Kept m → Kept (swallow m)
  unfolding swallow
  swallow-Kept m kept = record { left = λ w h. kept.left w h }

  -- A transaction whose tables are those of `o`.
  pub transact-Kept :
      {A : Type 0} (o : Op) (f : Tables → A × Tables)
      → IsKnownOp Known o
      → ((t : Tables) → (f t).1 ≡ apply o t)
      → Kept (transact f)
  unfolding transact
  transact-Kept o f known same = record {
    left = λ w h.
        subst (λ t. K (record w { tables = t })) (sym (same w.tables)) (keeps.written o known w h);
  }

  raise_if_none-Kept : (r : Option RepositoryRow) → Kept (raise_if_none r)
  raise_if_none-Kept none = raise-Kept
  raise_if_none-Kept (some r) = Preserves-pure r

  registered-Kept : (name : String) (r : Option RepositoryRow) → Kept (registered env name r)
  unfolding registered
  registered-Kept name (some r) = Preserves-pure r
  registered-Kept name none =
      Preserves-bind _ _ (await-Kept _)
        (λ _. Preserves-bind _ _ (look-Kept _) (λ r. raise_if_none-Kept r))

  register-Kept : (name : String) (r : Option RepositoryRow) → Kept (register env name r)
  unfolding register apply
  register-Kept name (some r) = Preserves-pure r
  register-Kept name none = Preserves-bind _ _ (await-Kept _) (λ _.
      Preserves-bind _ _ (transact-Kept (registers name) (try_insert_repo name) tt (λ t. refl))
        (λ r. registered-Kept name r))

  pub ensure_repo-Kept : (name sha : String) → Kept (ensure_repo env name sha)
  unfolding ensure_repo
  ensure_repo-Kept name sha = Preserves-bind _ _ (look-Kept _) (λ known.
      Preserves-bind _ _ (register-Kept name known)
        (λ r. Preserves-bind _ _ (look-Kept _) (λ existing. Preserves-pure _)))

  -- The result of the row, if there are both, is known.
  abbrev pub AreKnown : Option AnalysisRow → Type 0
  AreKnown o = (a : AnalysisRow) → o ≡ some a → IsKnownRow Known a

  -- The rest may use what is known of the row that a transaction found.
  found-bind :
      {B : Type 0} (f : Tables → Option AnalysisRow × Tables) (rest : Option AnalysisRow → Pipe B)
      → ((w : PipelineWorld) → K w → AreKnown (f w.tables).0)
      → Kept (transact f)
      → ((a : Option AnalysisRow) → AreKnown a → Kept (rest a))
      → Kept (transact f >>= rest)
  unfolding transact
  found-bind f rest known kept then_on =
      Preserves-bind_from AreKnown (transact f) rest
        (λ w h x e a found. known w h a (answered e ∙ found)) kept then_on
    where
      answered : {x y : Option AnalysisRow} → returned x ≡ returned y → x ≡ y
      answered e = cc

  gate_with-Kept :
      (name sha : String) (pr id : ℕ) (result : ResultDict) (config : Option RepoConfigData)
      → ((c : RepoConfigData) → config ≡ some c → Allowed name sha pr result c)
      → Kept (gate_with env name sha pr id result config)
  gate_with-Kept name sha pr id result none allowed = raise-Kept
  gate_with-Kept name sha pr id result (some c) allowed =
      keeps.gated name sha pr id result c (allowed c refl)

  -- A gate may be run for these with whatever known result and whatever settings that were read.
  abbrev pub AllowedFor : String → String → ℕ → Type 0
  AllowedFor name sha pr =
      (d : ResultDict)
      → Known d
      → (c : RepoConfigData) → IsSetting env name c
      → Allowed name sha pr d c

  gate-Kept :
      (name sha : String) (pr id : ℕ) (result : ResultDict) (config : Option RepoConfigData)
      → AllowedFor name sha pr
      → Known result
      → AreSettings name config
      → Kept (gate env name sha pr id result config)
  unfolding gate
  gate-Kept name sha pr id result (some c) allowed known settings =
      keeps.gated name sha pr id result c (allowed result known c (settings c refl))
  gate-Kept name sha pr id result none allowed known settings =
      config-bind name _ (λ o read.
        gate_with-Kept name sha pr id result o (λ c e. allowed result known c (read c e)))

  gate_row-Kept :
      (name sha : String) (pr id : ℕ) (result : Option ResultDict) (config : Option RepoConfigData)
      → AllowedFor name sha pr
      → ((d : ResultDict) → result ≡ some d → Known d)
      → AreSettings name config
      → Kept (gate_row env name sha pr id result config)
  gate_row-Kept name sha pr id none config allowed known settings = Preserves-pure tt
  gate_row-Kept name sha pr id (some d) config allowed known settings =
      swallow-Kept _ (gate-Kept name sha pr id d config allowed (known d refl) settings)

  regate_row-Kept :
      (name sha : String) (pr : ℕ) (a : Option AnalysisRow)
      → AllowedFor name sha pr
      → AreKnown a
      → Kept (regate_row env name sha pr a)
  regate_row-Kept name sha pr none allowed known = Preserves-pure tt
  regate_row-Kept name sha pr (some a) allowed known =
      gate_row-Kept name sha pr a.id a.result none allowed (known a refl) (λ c e. cc)

  pub regate-Kept :
      (m : EventMetadata) (pr : Option ℕ)
      → ((n : ℕ) → pr ≡ some n → AllowedFor m.repo_name m.commit_sha n)
      → Kept (regate env m pr)
  unfolding regate_pr_if_needed apply
  regate-Kept m none allowed = Preserves-pure tt
  regate-Kept m (some n) allowed =
      found-bind _ _ (λ w h. keeps.pushed n m.repo_name m.commit_sha w h)
        (transact-Kept (regates n m.repo_name m.commit_sha) _ tt (λ t. refl))
        (λ a known. regate_row-Kept m.repo_name m.commit_sha n a (allowed n refl) known)

  module _ (params : SaveParams)
      (allowed : (n : ℕ)
        → params.pr_number ≡ some n
        → AllowedFor params.repo_name params.commit_sha n)
      (own : Known (build_analysis_result_dict params)) where
    gate_raced-Kept :
        (pr : Option ℕ) (a : Option AnalysisRow) (config : Option RepoConfigData)
        → params.pr_number ≡ pr
        → AreKnown a
        → AreSettings params.repo_name config
        → Kept (gate_raced env params pr a config)
    gate_raced-Kept none a config e known settings = Preserves-pure tt
    gate_raced-Kept (some pr) none config e known settings = Preserves-pure tt
    gate_raced-Kept (some pr) (some a) config e known settings =
        gate_row-Kept params.repo_name params.commit_sha pr a.id a.result config (allowed pr e)
          (known a refl) settings

    recovered-Kept : (repo_id : ℕ) → Kept (recovered env params repo_id)
    unfolding recovered race_recover_existing apply
    recovered-Kept repo_id =
        Preserves-bind _ _
          (config-bind _ _ (λ config settings.
            found-bind _ _ (λ w h. keeps.raced params.pr_number params.commit_sha repo_id w h)
              (transact-Kept (races params.pr_number params.commit_sha repo_id) _ tt (λ t. refl))
              (λ a known.
                Preserves-bind _ _ (gate_raced-Kept params.pr_number a config refl known settings)
                  (λ _. Preserves-pure _))))
          (λ config. Preserves-pure _)

    gate_new-Kept :
        (pr : Option ℕ) (id : ℕ) (d : ResultDict) (config : Option RepoConfigData)
        → params.pr_number ≡ pr
        → Known d
        → AreSettings params.repo_name config
        → Kept (gate_new env params pr id d config)
    gate_new-Kept none id d config e known settings = Preserves-pure tt
    gate_new-Kept (some pr) id d config e known settings =
        swallow-Kept _ (
          gate-Kept params.repo_name params.commit_sha pr id d config (allowed pr e) known settings)

    gate_saved-Kept : (d : ResultDict) (id : ℕ) → Known d → Kept (gate_saved env params d id)
    unfolding gate_saved
    gate_saved-Kept d id known = config-bind _ _ (λ config settings.
        Preserves-bind _ _ (gate_new-Kept params.pr_number id d config refl known settings)
          (λ _. Preserves-pure _))

    after_claim-Kept :
        (d : ResultDict) (repo_id : ℕ) (a : Option AnalysisRow)
        → Known d
        → Kept (after_claim env params d repo_id a)
    after_claim-Kept d repo_id none known = recovered-Kept repo_id
    after_claim-Kept d repo_id (some a) known = gate_saved-Kept d a.id known

    after_save-Kept :
        (d : ResultDict) (repo_id : ℕ) (saved : AnalysisRow × Bool)
        → Known d
        → Kept (after_save env params d repo_id saved)
    unfolding after_save apply
    after_save-Kept d repo_id (a, true) known = gate_saved-Kept d a.id known
    after_save-Kept d repo_id (a, false) known =
        Preserves-if (is_cli_only a) _ _
          (λ _. Preserves-bind _ _ (await-Kept _) (λ _.
            Preserves-bind _ _ (transact-Kept (supersedes a.id params d) _ known (λ t. refl))
              (λ claimed. after_claim-Kept d repo_id claimed known)))
          (λ _. recovered-Kept repo_id)

    inserted-Kept : (new : AnalysisRow) (a : Option AnalysisRow) → Kept (inserted env new a)
    inserted-Kept new (some a) = Preserves-pure _
    inserted-Kept new none =
        Preserves-bind _ _ (await-Kept _)
          (λ _. Preserves-bind _ _ (look-Kept _) (λ existing. found existing))
      where
        found : (o : Option AnalysisRow) → Kept (found_existing o)
        found none = raise-Kept
        found (some a) = Preserves-pure _

    store-Kept : (repo_id : ℕ) → Kept (store env params repo_id)
    unfolding store save_new apply
    store-Kept repo_id =
        let new = new_analysis params repo_id (build_analysis_result_dict params) in
        Preserves-bind _ _ (await-Kept _) (λ _.
          Preserves-bind _ _
            (Preserves-bind _ _ (transact-Kept (stores new) _ own_row (λ t. refl))
              (λ a. inserted-Kept new a))
            (λ saved. after_save-Kept _ repo_id saved own))
      where
        own_row : IsKnownRow Known (new_analysis params repo_id (build_analysis_result_dict params))
        own_row d e = subst Known (some_eq e) own

    pub save_and_gate-Kept : Kept (save_and_gate env params)
    unfolding save_and_gate
    save_and_gate-Kept = Preserves-bind _ _ (look-Kept _) (λ repo. in_repo repo)
      where
        unless : (repo_id : ℕ) (r : Option RepositoryRow) → Kept (unless_saved env params repo_id r)
        unless repo_id none = recovered-Kept repo_id
        unless repo_id (some r) = store-Kept repo_id

        in_repo : (r : Option RepositoryRow) → Kept (save_in env params r)
        in_repo none = Preserves-pure _
        in_repo (some r) =
            Preserves-bind _ _ (look-Kept _) (λ existing. unless r.id (unless_analysed r existing))
