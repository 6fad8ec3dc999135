-- ===== src/Pipeline/Ordered.antt =====
-- What the pipeline asks GitHub for: the gate's calls, each under the authority of a run of the gate.
mod Known
use scamanager.Prelude.{ℕ, ◌≡◌, refl, ap, String, Option, some, List, All, filter}
use scamanager.ConfigManager.{RepoConfigData}
use scamanager.Scorer.Defs.{AiReviewResult}
use scamanager.Gate.World.{Call, GateWorld}
use scamanager.Gate.Binding.{AllCalls, call-AllCalls}
use scamanager.Gate.Rules.{IsAuthorised}
use scamanager.Gate.Engine.{enqueue}
use scamanager.Gate.Actions.{GateContext, run_gate_check, is_applicable, gate_actions}
use scamanager.Gate.Safety.{run_actions-Held}
use scamanager.Pipeline.Tables.{ResultDict, Tables}
use scamanager.Pipeline.Static.{SourceFile}
use scamanager.Pipeline.World.{Payload, PipelineEnv, PipelineWorld, run_gate, swallow}
use scamanager.Pipeline.Body.{EventMetadata, extract_event_metadata, analyse, run_pipeline_body}
use scamanager.Pipeline.Save.{build_analysis_result_dict, context_for}
use scamanager.Pipeline.Ops.{IsSetting}
use scamanager.Pipeline.Carried.{guarded_body-Kept}
use scamanager.Pipeline.Ordered.Known.{AreKnownRows, apply-AreKnownRows, pushed_known, raced_known}

-- A run of the gate for an event: its repository, its pull request, its commit, the settings that a reading of the
-- repository's gave, and the score and the markers of a known result.
abbrev pub IsRunFor : PipelineEnv → (ResultDict → Type 0) → EventMetadata → GateContext → Type 0
IsRunFor env Known m ctx =
    (ctx.repo_name ≡ m.repo_name)
    × (ctx.commit_sha ≡ some m.commit_sha)
    × (m.pr_number ≡ some ctx.pr_number)
    × ((n : ℕ) × (env.config n m.repo_name ≡ some ctx.config))
    × ((d : ResultDict) × Known d
        × (ctx.result.score ≡ d.score)
        × (ctx.result.static_analysis_incomplete ≡ d.static_analysis_incomplete)
        × (ctx.result.ai_review_truncated ≡ d.ai_review_truncated)
        × (ctx.result.ai_review_status ≡ some d.ai_review_status))

abbrev pub IsCallFor : PipelineEnv → (ResultDict → Type 0) → EventMetadata → Call → Type 0
IsCallFor env Known m c =
    (ctx : GateContext) × IsRunFor env Known m ctx × IsAuthorised env.gate ctx c

gate_calls :
    (env : PipelineEnv) (Known : ResultDict → Type 0) (m : EventMetadata) (ctx : GateContext)
    → IsRunFor env Known m ctx
    → (g : GateWorld) → All (IsCallFor env Known m) g.calls
    → All (IsCallFor env Known m) (run_gate_check env.gate ctx g).1.calls
unfolding run_gate_check
gate_calls env Known m ctx run g h =
    let Fine = IsCallFor env Known m in
    (run_actions-Held env.gate ctx (AllCalls Fine) Fine
        (record {
          calls = record { keep = λ c reply fine. call-AllCalls Fine env.gate c reply fine };
          logs = λ v table held. held;
          defers = λ a sha key. unfold enqueue in record { left = λ v held. held };
        })
        (λ c fine. (ctx, run, fine)) (λ v table held. held)
        (filter (is_applicable ctx.config) gate_actions)).left
      g h

-- Take any property of results that the stored results have at first, that the other sessions keep for them, and
-- that the result of any analysis for this event has. Then, whatever is answered and whatever raises: if each call
-- so far stands under the authority of a run of the gate for this event, so does each call after the pipeline; and
-- such a run is for the event's repository, pull request and commit, with settings that a reading of the
-- repository's gave, and with the score and the markers of a result that has the property. A merge is then bound to
-- the event's commit if that is not empty, after a reliable result at a score that these settings merge at and after
-- both guards let it pass; a review is deserved by such a score and bound to that commit.
pub run_pipeline_body-IsCallFor :
    (env : PipelineEnv) (event : String) (payload : Payload) (w : PipelineWorld)
    (Known : ResultDict → Type 0)
    → ((n : ℕ) (t : Tables) → AreKnownRows Known t → AreKnownRows Known (env.others n t))
    → ((files : List SourceFile) (config : Option RepoConfigData) (review : AiReviewResult)
        → Known (
            build_analysis_result_dict
              (analyse env (extract_event_metadata event payload) files config review)))
    → AreKnownRows Known w.tables
    → All (IsCallFor env Known (extract_event_metadata event payload)) w.gate.calls
    → All
        (IsCallFor env Known (extract_event_metadata event payload))
        (run_pipeline_body env event payload w).1.gate.calls
unfolding run_pipeline_body swallow
run_pipeline_body-IsCallFor env event payload w Known others own rows h =
    let m = extract_event_metadata event payload in
    ((guarded_body-Kept env
        (λ v. AreKnownRows Known v.tables × All (IsCallFor env Known m) v.gate.calls) Known
        (λ name commit pr d c.
          (name ≡ m.repo_name)
          × (commit ≡ m.commit_sha)
          × (m.pr_number ≡ some pr)
          × IsSetting env m.repo_name c
          × Known d)
        (record {
          others = λ v k. (others v.tick v.tables k.0, k.1);
          written = λ o known v k. (apply-AreKnownRows Known o v.tables known k.0, k.1);
          pushed = λ pr name sha v k. pushed_known Known pr name sha v.tables k.0;
          raced = λ pr sha repo_id v k. raced_known Known pr sha repo_id v.tables k.0;
          gated = λ name commit pr id result config allowed.
              unfold run_gate in
              record {
                left = λ v k. (
                  others v.tick v.tables k.0,
                  gate_calls env Known m (context_for name commit pr id result config)
                      (
                        allowed.0,
                        ap some allowed.1,
                        allowed.2,
                        allowed.3,
                        (result, allowed.4, refl, refl, refl, refl),
                      )
                      v.gate k.1,
                );
              };
          noticed = λ c v k. k;
        })
        m (λ n e d known c read. (refl, refl, e, read, known)) own event).left
      w (rows, h)).1
