-- ===== src/Pipeline/FirstWriter.antt =====
-- The first writer wins: a stored analysis is not written over, and keeps its first pull request.
use scamanager.Prelude.{ℕ, ◌≡◌, inl, inr, String, Option, none, some, false, find?-some, Bool-cases}
use scamanager.Pipeline.Tables.{
  AnalysisRow, RepositoryRow, Tables, has_sha, has_analysis_id, find_by_sha, find_by_id,
  find_by_full_name, insert_repo, begin_attempt, finish_attempt, is_cli_only, has_full_name,
  is_trace_of,
}
use scamanager.Prelude.{any, Memᴰ}
use scamanager.Pipeline.Sound.{IsSound, apply-IsSound}
use scamanager.Pipeline.World.{Payload, PipelineEnv, PipelineWorld, run_gate, swallow}
use scamanager.Pipeline.Save.{try_insert_repo, find_pushed, claim_and_supersede_cli}
use scamanager.Pipeline.Body.{extract_event_metadata, run_pipeline_body}
use scamanager.Pipeline.Ops.{
  Op, registers, stores, regates, races, supersedes, begins, finishes, apply,
}
use scamanager.Pipeline.Carried.{guarded_body-Kept}
use scamanager.Pipeline.Rows.{
  IsKeptIn, insert-IsKeptIn, adopt_pushed-IsKeptIn, adopt_raced-IsKeptIn, supersede-IsKeptIn,
}

pub found_member :
    (sha : String) (repo_id : ℕ) (t : Tables) (d : AnalysisRow)
    → find_by_sha sha repo_id t ≡ some d
    → Memᴰ d t.analyses
unfolding find_by_sha
found_member sha repo_id t d e = (find?-some (has_sha repo_id sha) t.analyses e).0

id_member : (i : ℕ) (t : Tables) (d : AnalysisRow) → find_by_id i t ≡ some d → Memᴰ d t.analyses
unfolding find_by_id
id_member i t d e = (find?-some (has_analysis_id i) t.analyses e).0

pub pushed_member :
    (name sha : String) (t : Tables) (d : AnalysisRow)
    → find_pushed name sha t ≡ some d
    → Memᴰ d t.analyses
pushed_member name sha t d e = by_repo (find_by_full_name name t) e
  where
    by_repo :
        (o : Option RepositoryRow)
        → (elim o [ none ↦ none | some r ↦ find_by_sha sha r.id t ]) ≡ some d
        → Memᴰ d t.analyses
    by_repo none e = cc e
    by_repo (some r) e = found_member sha r.id t d e

repo_kept :
    (name : String) (a : AnalysisRow) (t : Tables)
    → IsKeptIn a t
    → IsKeptIn a (try_insert_repo name t).1
unfolding insert_repo find_by_id
repo_kept name a t k = elim (Bool-cases (any (has_full_name name) t.repos)) [
  | inl e ↦ rw (e, try_insert_repo) k
  | inr e ↦ rw (e, try_insert_repo) k
]

trace_kept :
    (repo_id : ℕ) (sha : String) (pr : Option ℕ) (event : String) (now : ℕ) (a : AnalysisRow)
    (t : Tables)
    → IsKeptIn a t
    → IsKeptIn a (begin_attempt repo_id sha pr event now t).1
unfolding begin_attempt find_by_id
trace_kept repo_id sha pr event now a t k =
    elim (Bool-cases (any (is_trace_of repo_id sha) t.attempts)) [ inl e ↦ rw e k | inr e ↦ rw e k ]

apply-IsKeptIn :
    (o : Op) (a : AnalysisRow) (t : Tables)
    → IsSound t
    → is_cli_only a ≡ false
    → IsKeptIn a t
    → IsKeptIn a (apply o t)
unfolding apply claim_and_supersede_cli
apply-IsKeptIn (registers name) a t h full k = repo_kept name a t k
apply-IsKeptIn (stores new) a t h full k = insert-IsKeptIn a new t k
apply-IsKeptIn (regates pr name sha) a t h full k =
    adopt_pushed-IsKeptIn a pr (find_pushed name sha t) t h (pushed_member name sha t) k
apply-IsKeptIn (races pr sha repo_id) a t h full k =
    adopt_raced-IsKeptIn a pr (find_by_sha sha repo_id t) t h (found_member sha repo_id t) k
apply-IsKeptIn (supersedes id params d) a t h full k =
    supersede-IsKeptIn a params d (find_by_id id t) t h (id_member id t) full k
apply-IsKeptIn (begins repo_id sha pr event now) a t h full k =
    trace_kept repo_id sha pr event now a t k
apply-IsKeptIn (finishes repo_id sha) a t h full k = unfold finish_attempt find_by_id in k

-- A stored analysis that is not the CLI hook's is still found by its id after a run of the pipeline for any
-- event, whatever is answered and whatever raises, and is the row it was, or, if it had no pull request, the
-- same row with one; if the tables are sound and the other sessions keep both.
pub run_pipeline_body-IsKeptIn :
    (env : PipelineEnv) (event : String) (payload : Payload) (a : AnalysisRow)
    → is_cli_only a ≡ false
    → ((n : ℕ) (t : Tables) → IsSound t → IsSound (env.others n t))
    → ((n : ℕ) (t : Tables) → IsSound t → IsKeptIn a t → IsKeptIn a (env.others n t))
    → (w : PipelineWorld) → IsSound w.tables
    → IsKeptIn a w.tables
    → IsKeptIn a (run_pipeline_body env event payload w).1.tables
unfolding run_pipeline_body swallow
run_pipeline_body-IsKeptIn env event payload a full sound stays w h k =
    ((guarded_body-Kept env (λ v. IsSound v.tables × IsKeptIn a v.tables) (λ d. Unit {0})
        (λ name sha pr d c. Unit {0})
        (record {
          others = λ v s. (sound v.tick v.tables s.0, stays v.tick v.tables s.0 s.1);
          written = λ o known v s.
              (apply-IsSound o v.tables s.0, apply-IsKeptIn o a v.tables s.0 full s.1);
          pushed = λ pr name sha v k a e d f. tt;
          raced = λ pr sha repo_id v k a e d f. tt;
          gated = λ name sha pr id result config allowed.
              unfold run_gate in
              record { left = λ v s. (sound v.tick v.tables s.0, stays v.tick v.tables s.0 s.1) };
          noticed = λ c v s. s;
        })
        (extract_event_metadata event payload) (λ n e d known c read. tt)
        (λ files config review. tt) event).left
      w (h, k)).1
