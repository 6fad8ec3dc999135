-- ===== src/Pipeline/Ops.antt =====
-- The transactions of a run of the pipeline as data, and what an invariant has to be kept by.
use scamanager.Prelude.{◌≡◌, some, ℕ, ◌+◌, String, Option, [], ◌∷◌, ◌++◌}
use scamanager.Prelude.Preserves.{Preserves}
use scamanager.ConfigManager.{RepoConfigData}
use scamanager.Pipeline.Tables.{
  ResultDict, AnalysisRow, Tables, find_by_sha, begin_attempt, finish_attempt,
}
use scamanager.Pipeline.World.{NotifyContext, PipelineEnv, PipelineWorld, run_gate}
use scamanager.Pipeline.Save.{
  SaveParams, try_insert_repo, context_for, adopt_pushed, find_pushed, adopt_raced,
  claim_and_supersede_cli, try_insert,
}

-- A transaction of a run.
pub data Op : Type 0 where
  registers : String → Op
  stores : AnalysisRow → Op
  regates : ℕ → String → String → Op
  races : Option ℕ → String → ℕ → Op
  supersedes : ℕ → SaveParams → ResultDict → Op
  begins : ℕ → String → Option ℕ → String → ℕ → Op
  finishes : ℕ → String → Op

unfoldable pub apply : Op → Tables → Tables
apply (registers name) t = (try_insert_repo name t).1
apply (stores new) t = (try_insert new t).1
apply (regates pr name sha) t = (adopt_pushed pr (find_pushed name sha t) t).1
apply (races pr sha repo_id) t = (adopt_raced pr (find_by_sha sha repo_id t) t).1
apply (supersedes id params d) t = (claim_and_supersede_cli id params d t).1
apply (begins repo_id sha pr event now) t = (begin_attempt repo_id sha pr event now t).1
apply (finishes repo_id sha) t = finish_attempt repo_id sha t

-- A result of the row, if it has one, is known.
abbrev pub IsKnownRow : (ResultDict → Type 0) → AnalysisRow → Type 0
IsKnownRow Known a = (d : ResultDict) → a.result ≡ some d → Known d

-- A transaction stores no result but a known one.
abbrev pub IsKnownOp : (ResultDict → Type 0) → Op → Type 0
IsKnownOp Known (stores new) = IsKnownRow Known new
IsKnownOp Known (supersedes id params d) = Known d
IsKnownOp Known (registers name) = Unit
IsKnownOp Known (regates pr name sha) = Unit
IsKnownOp Known (races pr sha repo_id) = Unit
IsKnownOp Known (begins repo_id sha pr event now) = Unit
IsKnownOp Known (finishes repo_id sha) = Unit

-- The settings are what a reading of the repository's gave.
abbrev pub IsSetting : PipelineEnv → String → RepoConfigData → Type 0
IsSetting env name config = (n : ℕ) × (env.config n name ≡ some config)

-- `K` says that the results of the rows that go back to the gate are known, and is kept by other sessions, by the
-- transactions that store known results, by the gate's runs that `Allowed` allows, and by notices.
pub record Keeps (env : PipelineEnv) (K : PipelineWorld → Type 0) (Known : ResultDict → Type 0)
    (Allowed : String → String → ℕ → ResultDict → RepoConfigData → Type 0) : Type 0 where
  pub others :
      (w : PipelineWorld)
      → K w
      → K (record w { tables = env.others w.tick w.tables; tick = w.tick + 1 })
  pub written :
      (o : Op)
      → IsKnownOp Known o
      → (w : PipelineWorld) → K w
      → K (record w { tables = apply o w.tables })
  pub pushed :
      (pr : ℕ) (name sha : String) (w : PipelineWorld)
      → K w
      → (a : AnalysisRow) → (adopt_pushed pr (find_pushed name sha w.tables) w.tables).0 ≡ some a
      → IsKnownRow Known a
  pub raced :
      (pr : Option ℕ) (sha : String) (repo_id : ℕ) (w : PipelineWorld)
      → K w
      → (a : AnalysisRow) → (adopt_raced pr (find_by_sha sha repo_id w.tables) w.tables).0 ≡ some a
      → IsKnownRow Known a
  pub gated :
      (name sha : String) (pr id : ℕ) (result : ResultDict) (config : RepoConfigData)
      → Allowed name sha pr result config
      → Preserves K (run_gate env (context_for name sha pr id result config))
  pub noticed :
      (c : NotifyContext) (w : PipelineWorld)
      → K w
      → K (record w { notified = w.notified ++ (c ∷ []) })
