-- ===== src/Pipeline/World.antt =====
-- src/worker/pipeline.py: the state of a run and its environment. The state is the tables, the gate's state,
-- the contexts that the gate was run with, and the notices that were sent out.
use scamanager.Prelude.{ℕ, ◌+◌, String, Option, List, [], ◌∷◌, ◌++◌}
use scamanager.Prelude.Effects.{Answer, returned, unexpected, Effect}
use scamanager.ConfigManager.{RepoConfigData}
use scamanager.Scorer.Defs.{AiReviewResult}
use scamanager.Gate.World.{GateEnv, GateWorld}
use scamanager.Gate.Actions.{GateContext, run_gate_check}
use scamanager.Pipeline.Tables.{ResultDict, Tables}
use scamanager.Pipeline.Static.{SourceFile, FileOutcome}

-- The parts of a webhook's payload that the pipeline reads; an absent or null key is none.
pub record Payload : Type 0 where
  pub full_name : Option String
  pub number : Option ℕ
  pub head_sha : Option String
  pub after : Option String

-- `NotifyContext`, without what only the texts of the notices need.
pub record NotifyContext : Type 0 where
  pub repo_name : String
  pub commit_sha : String
  pub pr_number : Option ℕ
  pub analysis_id : ℕ
  pub result_dict : ResultDict
  pub config : Option RepoConfigData

-- An answer may depend on how many awaits were made before it: that number is its first argument.
-- `others` is what other sessions commit meanwhile, `config` a repository's settings, or none where their
-- reading fails. `loop_time`, `file_clock` and `file_outcome` are for the loop over the files.
pub record PipelineEnv : Type 0 where
  pub gate : GateEnv
  pub others : ℕ → Tables → Tables
  pub now : ℕ
  pub loop_time : ℕ
  pub config : ℕ → String → Option RepoConfigData
  pub changed_files : ℕ → String → String → Option ℕ → Answer (List SourceFile)
  pub file_clock : ℕ → ℕ
  pub file_outcome : Option RepoConfigData → ℕ → SourceFile → FileOutcome
  pub ai_review : ℕ → Option RepoConfigData → List SourceFile → Answer AiReviewResult
  pub notifies : NotifyContext → Answer (Unit {0})

pub record PipelineWorld : Type 0 where
  pub tables : Tables
  pub gate : GateWorld
  pub gate_runs : List GateContext
  pub notified : List NotifyContext
  pub tick : ℕ

abbrev pub Pipe : Type 0 → Type 0
Pipe = Effect PipelineWorld

-- A transaction of this session.
unfoldable pub transact : {A : Type 0} → (Tables → A × Tables) → Pipe A
transact f w = (returned (f w.tables).0, record w { tables = (f w.tables).1 })

unfoldable pub look : {A : Type 0} → (Tables → A) → Pipe A
look f w = (returned (f w.tables), w)

-- An await, or a point between two statements where the code expects another session's INSERT.
unfoldable pub await : {A : Type 0} → PipelineEnv → (ℕ → Answer A) → Pipe A
await env reply w =
    (reply w.tick, record w { tables = env.others w.tick w.tables; tick = w.tick + 1 })

abbrev pub elsewhere : PipelineEnv → Pipe (Unit {0})
elsewhere env = await env (λ n. returned tt)

unfoldable pub read_config : PipelineEnv → String → Pipe (Option RepoConfigData)
read_config env name w = (returned (env.config w.tick name), w)

unfoldable pub run_gate : PipelineEnv → GateContext → Pipe (Unit {0})
run_gate env ctx w =
    let (answer, gate) = run_gate_check env.gate ctx w.gate in
    (
      answer,
      record w {
        tables = env.others w.tick w.tables;
        gate = gate;
        gate_runs = w.gate_runs ++ (ctx ∷ []);
        tick = w.tick + 1;
      },
    )

unfoldable pub notify : PipelineEnv → NotifyContext → Pipe (Unit {0})
notify env ctx w = (env.notifies ctx, record w { notified = w.notified ++ (ctx ∷ []) })

abbrev pub raise : {A : Type 0} → Pipe A
raise w = (unexpected, w)

-- `except Exception` around the rest of a step.
unfoldable pub swallow : Pipe (Unit {0}) → Pipe (Unit {0})
swallow m w = (returned tt, (m w).1)
