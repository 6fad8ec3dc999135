-- ===== src/Pipeline/Samples.antt =====
-- A pull request with one file, what is answered for it, and small tables.
use scamanager.Prelude.{ℕ, ◌+◌, Option, none, some, false, [], ◌∷◌}
use scamanager.Prelude.Int.{pos}
use scamanager.Prelude.Effects.{returned}
use scamanager.Scorer.Defs.{AiReviewResult, found_in}
use scamanager.Gate.Tests.{env_at, config, start}
use scamanager.Pipeline.Tables.{Tables}
use scamanager.Pipeline.Static.{SourceFile, finished}
use scamanager.Pipeline.World.{Payload, PipelineEnv, PipelineWorld}

abbrev pub file : SourceFile
file = record { filename = "a.py"; patch = "+x"; fetch_failed = false }

abbrev pub review : AiReviewResult
review = record {
  status = "success";
  commit_score = pos 15;
  ai_score = pos 15;
  test_score = pos 10;
  truncated = false;
}

abbrev pub env : PipelineEnv
env = record {
  gate = env_at "clean";
  others = λ n t. t;
  now = 7000000;
  loop_time = 1000;
  config = λ n name. some config;
  changed_files = λ n name sha pr. returned (file ∷ []);
  file_clock = λ n. 2000 + n;
  file_outcome = λ c n f. finished (found_in f.filename []);
  ai_review = λ n c files. returned review;
  notifies = λ c. returned tt;
}

abbrev pub payload : Payload
payload = record { full_name = some "o/r"; number = some 9; head_sha = some "abc"; after = none }

abbrev pub pushed : Payload
pushed = record payload { number = none; head_sha = none; after = some "abc" }

abbrev pub empty : Tables
empty = record {
  repos = [];
  next_repo = 1;
  analyses = [];
  next_analysis = 5;
  attempts = [];
  next_attempt = 1;
}

abbrev pub world : Tables → PipelineWorld
world t = record { tables = t; gate = start; gate_runs = []; notified = []; tick = 0 }

abbrev pub stored_with : Option ℕ → Tables
stored_with pr = record empty {
  repos = record { id = 1; full_name = "o/r" } ∷ [];
  next_repo = 2;
  analyses =
      record {
        id = 5;
        repo_id = 1;
        commit_sha = "abc";
        pr_number = pr;
        score = some 89;
        grade = some "B";
        result = none;
        score_unreliable = false;
      }
      ∷ [];
  next_analysis = 6;
}

abbrev pub registered_only : Tables
registered_only = record empty { repos = record { id = 1; full_name = "o/r" } ∷ []; next_repo = 2 }
