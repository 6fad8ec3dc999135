-- ===== src/Pipeline/Save/Register.antt =====
-- src/worker/pipeline.py: the repository of an event.
use scamanager.Prelude.{String, Option, none, some, if◌then◌else◌}
use scamanager.Prelude.Effects.{◌>>=◌, ◌>>◌, pure}
use scamanager.Pipeline.Tables.{
  AnalysisRow, RepositoryRow, Tables, find_by_sha, find_by_full_name, insert_repo, is_cli_only,
}
use scamanager.Pipeline.World.{PipelineEnv, Pipe, transact, look, elsewhere, raise}

abbrev pub raise_if_none : {A : Type 0} → Option A → Pipe A
raise_if_none none = raise
raise_if_none (some a) = pure a

abbrev pub try_insert_repo : String → Tables → Option RepositoryRow × Tables
try_insert_repo name t = elim (insert_repo name t) [
  | none ↦ (none, t)
  | some (r, t') ↦ (some r, t')
]

-- The row was inserted, or another session was first and it is read again.
unfoldable pub registered : PipelineEnv → String → Option RepositoryRow → Pipe RepositoryRow
registered env name (some r) = pure r
registered env name none = do elsewhere env; r ← look (find_by_full_name name); raise_if_none r

unfoldable pub register : PipelineEnv → String → Option RepositoryRow → Pipe RepositoryRow
register env name (some r) = pure r
register env name none = do
  elsewhere env
  r ← transact (try_insert_repo name)
  registered env name r

-- A result of the CLI hook does not count.
abbrev pub unless_analysed : RepositoryRow → Option AnalysisRow → Option RepositoryRow
unless_analysed r none = some r
unless_analysed r (some a) = if is_cli_only a then some r else none

unfoldable pub ensure_repo : PipelineEnv → String → String → Pipe (Option RepositoryRow)
ensure_repo env name sha = do
  known ← look (find_by_full_name name)
  r ← register env name known
  existing ← look (find_by_sha sha r.id)
  pure (unless_analysed r existing)
