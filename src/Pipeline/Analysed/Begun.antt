-- ===== src/Pipeline/Analysed/Begun.antt =====
-- What the trace of a commit that is begun leaves of the tables.
use scamanager.Prelude.{
  eq_refl, ℕ, ◌≡◌, refl, ap, inl, inr, String, Option, true, false, not, ◌&&◌, ◌==◌, any, find?,
  str_eq, arith, Bool-cases,
}
use scamanager.Pipeline.Tables.{
  Tables, has_sha, has_full_name, find_by_sha, find_by_full_name, is_trace_of, begin_attempt,
  finish_attempt,
}
use scamanager.Prelude.Lookups.{filter-snoc_not}

-- The tables with a trace, but for the traces as they were.
pub record IsBegun (repo_id : ℕ) (sha : String) (t t' : Tables) : Type 0 where
  pub is_repos : t'.repos ≡ t.repos
  pub is_analyses : t'.analyses ≡ t.analyses
  pub is_next : t'.next_analysis ≡ t.next_analysis
  pub is_left : (finish_attempt repo_id sha t').attempts ≡ (finish_attempt repo_id sha t).attempts

pub begin_attempt-IsBegun :
    (repo_id : ℕ) (sha : String) (pr : Option ℕ) (event : String) (now : ℕ) (t : Tables)
    → IsBegun repo_id sha t (begin_attempt repo_id sha pr event now t).1
unfolding begin_attempt finish_attempt
begin_attempt-IsBegun repo_id sha pr event now t =
    elim (Bool-cases (any (is_trace_of repo_id sha) t.attempts)) [
      | inl e ↦
          rw e (record { is_repos = refl; is_analyses = refl; is_next = refl; is_left = refl })
      | inr e ↦ rw e (record {
        is_repos = refl;
        is_analyses = refl;
        is_next = refl;
        is_left =
            filter-snoc_not (λ a. not (is_trace_of repo_id sha a)) t.attempts _ (own_trace repo_id);
      })
    ]
  where
    same_id : (n : ℕ) → (n == n) ≡ true
    same_id n = ground arith

    own_trace : (n : ℕ) → not (n == n && str_eq sha sha) ≡ false
    own_trace n = rw (same_id n, eq_refl sha) refl

pub found_begun :
    (repo_id : ℕ) (sha name : String) (t t' : Tables)
    → IsBegun repo_id sha t t'
    → (find_by_full_name name t' ≡ find_by_full_name name t)
      × (find_by_sha sha repo_id t' ≡ find_by_sha sha repo_id t)
unfolding find_by_full_name find_by_sha
found_begun repo_id sha name t t' begun = (
  ap (λ rows. find? (has_full_name name) rows) begun.is_repos,
  ap (λ rows. find? (has_sha repo_id sha) rows) begun.is_analyses,
)
