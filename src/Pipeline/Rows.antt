-- ===== src/Pipeline/Rows.antt =====
-- What a run of the pipeline leaves of a stored analysis: the first pull request that it is given stays.
use scamanager.Prelude.{
  ℕ, ◌≡◌, refl, sym, ap, ◌∙◌, ◌⊎◌, inl, inr, Option, none, some, true, false, ◌==◌, find?-some,
  update_where, touch, find?-update_where, arith, Bool-cases,
}
use scamanager.Prelude.Lookups.{find?-append}
use mathlib.Core.Option
use scamanager.Pipeline.Tables.{
  ResultDict, AnalysisRow, Tables, has_sha, has_analysis_id, find_by_id, insert_analysis,
  is_cli_only,
}
use scamanager.Prelude.{any, Memᴰ}
use scamanager.Prelude.Distinct.{AllDistinct-same}
use scamanager.Pipeline.Sound.{IsSound, clash_analysis}
use scamanager.Pipeline.Save.{
  SaveParams, try_insert, with_pr, set_pr, adopt_pushed, adopt_raced, superseded, supersede_locked,
  is_some, same_pr,
}

-- The row as it was, or the same row that got its first pull request.
abbrev pub IsSameOrNumbered : AnalysisRow → AnalysisRow → Type 0
IsSameOrNumbered a b = (b ≡ a) ⊎ ((a.pr_number ≡ none) × ((pr : ℕ) × (b ≡ with_pr pr a)))

-- It is found by its id.
abbrev pub IsKeptIn : AnalysisRow → Tables → Type 0
IsKeptIn a t = (b : AnalysisRow) × (find_by_id a.id t ≡ some b) × IsSameOrNumbered a b

find_by_id-id : (i : ℕ) (t : Tables) {b : AnalysisRow} → find_by_id i t ≡ some b → b.id ≡ i
unfolding find_by_id
find_by_id-id i t {b} h = let (m, e) = find?-some (has_analysis_id i) t.analyses h in ground arith

pub insert-IsKeptIn :
    (a : AnalysisRow) (new : AnalysisRow) (t : Tables)
    → IsKeptIn a t
    → IsKeptIn a (try_insert new t).1
unfolding insert_analysis find_by_id
insert-IsKeptIn a new t (b, found, same) =
    elim (Bool-cases (any (has_sha new.repo_id new.commit_sha) t.analyses)) [
      | inl e ↦ rw (e, try_insert) (b, found, same)
      | inr e ↦ rw (e, try_insert) (b, find?-append (has_analysis_id a.id) t.analyses _ found, same)
    ]

-- A change of the row with an id, after which what stands in the table was changed as said.
update-IsKeptIn :
    (a : AnalysisRow) (i : ℕ) (change : AnalysisRow → AnalysisRow)
    → ((c : AnalysisRow) → (change c).id ≡ c.id)
    → (t : Tables)
    → ((b : AnalysisRow)
        → find_by_id a.id t ≡ some b
        → i ≡ b.id
        → IsSameOrNumbered a b
        → IsSameOrNumbered a (change b))
    → IsKeptIn a t
    → IsKeptIn a (record t { analyses = update_where (has_analysis_id i) change t.analyses })
unfolding find_by_id
update-IsKeptIn a i change id_kept t changed (b, found, same) = (
  touch (has_analysis_id i) change b,
  find?-update_where (has_analysis_id a.id) (has_analysis_id i) change
        (λ c. ap (λ n. n == a.id) (id_kept c)) t.analyses
      ∙ ap (λ o. Option.map (touch (has_analysis_id i) change) o) found,
  elim (Bool-cases (has_analysis_id i b)) [
    | inl e ↦ rw e (changed b found (ground arith) same)
    | inr e ↦ rw e same
  ],
)

-- Two rows of a sound table with one id are the same.
same_row :
    (t : Tables)
    → IsSound t
    → {b c : AnalysisRow} → Memᴰ b t.analyses
    → Memᴰ c t.analyses
    → b.id ≡ c.id
    → b ≡ c
same_row t h m n e =
    AllDistinct-same clash_analysis (λ r. r.id) (λ x y k. ground (arith, k)) t.analyses h.analyses m
      n e

-- The row that a search by id finds is the row with that id which the table is known to have.
found_is :
    (t : Tables)
    → IsSound t
    → (i : ℕ) {b c : AnalysisRow} → find_by_id i t ≡ some b
    → Memᴰ c t.analyses
    → c.id ≡ b.id
    → b ≡ c
unfolding find_by_id
found_is t h i found m e =
    same_row t h (find?-some (has_analysis_id i) t.analyses found).0 m (sym e)

module _ (a : AnalysisRow) where
  numbered :
      (pr : ℕ) (b : AnalysisRow)
      → b.pr_number ≡ none
      → IsSameOrNumbered a b
      → IsSameOrNumbered a (with_pr pr b)
  numbered pr b e (inl s) =
      inr (ap (λ (r : AnalysisRow). r.pr_number) (sym s) ∙ e, (pr, ap (with_pr pr) s))
  numbered pr b e (inr (n, (p, s))) =
      absurd (not_some (sym (ap (λ (r : AnalysisRow). r.pr_number) s) ∙ e))
    where
      not_some : {p : ℕ} → some p ≡ none → ⊥
      not_some e = cc e

  set_pr-IsKeptIn :
      (pr : ℕ) (c : AnalysisRow) (t : Tables)
      → IsSound t
      → Memᴰ c t.analyses
      → c.pr_number ≡ none
      → IsKeptIn a t
      → IsKeptIn a (set_pr c.id pr t)
  unfolding set_pr
  set_pr-IsKeptIn pr c t h m e kept =
      update-IsKeptIn a c.id (with_pr pr) (λ r. refl) t
        (λ b found same_id same.
          numbered pr b
            (ap (λ (r : AnalysisRow). r.pr_number) (found_is t h a.id found m same_id) ∙ e) same)
        kept

  none_of : {A : Type 0} (o : Option A) → is_some o ≡ false → o ≡ none
  none_of none e = refl
  none_of (some x) e = cc e

  pub adopt_pushed-IsKeptIn :
      (pr : ℕ) (c : Option AnalysisRow) (t : Tables)
      → IsSound t
      → ((d : AnalysisRow) → c ≡ some d → Memᴰ d t.analyses)
      → IsKeptIn a t
      → IsKeptIn a (adopt_pushed pr c t).1
  unfolding adopt_pushed
  adopt_pushed-IsKeptIn pr none t h member k = k
  adopt_pushed-IsKeptIn pr (some c) t h member k = elim (Bool-cases (same_pr c.pr_number pr)) [
    | inl e ↦ rw e k
    | inr e ↦ elim (Bool-cases (is_cli_only c)) [
      | inl l ↦ rw (e, l) k
      | inr l ↦ elim (Bool-cases (is_some c.pr_number)) [
        | inl n ↦ rw (e, l, n) k
        | inr n ↦ rw (e, l, n) (set_pr-IsKeptIn pr c t h (member c refl) (none_of c.pr_number n) k)
      ]
    ]
  ]

  pub adopt_raced-IsKeptIn :
      (pr : Option ℕ) (c : Option AnalysisRow) (t : Tables)
      → IsSound t
      → ((d : AnalysisRow) → c ≡ some d → Memᴰ d t.analyses)
      → IsKeptIn a t
      → IsKeptIn a (adopt_raced pr c t).1
  unfolding adopt_raced
  adopt_raced-IsKeptIn pr none t h member k = k
  adopt_raced-IsKeptIn none (some c) t h member k = k
  adopt_raced-IsKeptIn (some pr) (some c) t h member k = elim (Bool-cases (is_some c.pr_number)) [
    | inl e ↦ rw e k
    | inr e ↦ elim (Bool-cases (is_some c.result)) [
      | inl r ↦ rw (e, r) (set_pr-IsKeptIn pr c t h (member c refl) (none_of c.pr_number e) k)
      | inr r ↦ rw (e, r) k
    ]
  ]

  result_kept : (b : AnalysisRow) → IsSameOrNumbered a b → b.result ≡ a.result
  result_kept b (inl s) = ap (λ (r : AnalysisRow). r.result) s
  result_kept b (inr (n, (p, s))) = ap (λ (r : AnalysisRow). r.result) s

  -- A row of the CLI hook is another one.
  pub supersede-IsKeptIn :
      (params : SaveParams) (d : ResultDict) (c : Option AnalysisRow) (t : Tables)
      → IsSound t
      → ((e : AnalysisRow) → c ≡ some e → Memᴰ e t.analyses)
      → is_cli_only a ≡ false
      → IsKeptIn a t
      → IsKeptIn a (supersede_locked params d c t).1
  supersede-IsKeptIn params d none t h member full k = k
  supersede-IsKeptIn params d (some c) t h member full k = elim (Bool-cases (is_cli_only c)) [
    | inl l ↦
        rw (l, supersede_locked)
          (update-IsKeptIn a c.id (superseded params d) (λ r. refl) t
            (λ b found same_id same. absurd (
              not_cli b c (found_is t h a.id found (member c refl) same_id) (result_kept b same) l
                full))
            k)
    | inr l ↦ rw (l, supersede_locked) k
  ]
    where
      not_cli :
          (b c : AnalysisRow)
          → b ≡ c
          → b.result ≡ a.result
          → is_cli_only c ≡ true
          → is_cli_only a ≡ false
          → ⊥
      not_cli b c s r l full = cc
