-- ===== src/MergeAttempts/Reports.antt =====
-- The queries on recorded attempts: the merge rate's predicate, the latest attempt and the counts.
use scamanager.Prelude.{
  ℕ, ◌≤◌, ◌≡◌, ◌↔◌, refl, inl, inr, String, Option, none, some, Bool, true, false, ◌&&◌, List, [],
  ◌∷◌, filter, leb, str_eq, arith, Bool-cases, if◌then◌else◌, Memᴰ, All, All-imp, All-elim,
  All-filter, All-filter_self, All-Memᴰ, tests, leb→le, leb→lt,
}
use scamanager.MergeAttempts.Defs.{
  is_merged, is_merged_state, truthy, merged_sql_predicate, sql_true, sql_null, sql_of, sql_or,
  sql_and, legacy, AttemptRow, Attempts, insert_by_latest, order_by_latest, find_latest_for_pr,
  is_for_pr, first,
}

by_truth :
    (m l s : Bool)
    → (sql_or (sql_of m) (sql_and (sql_of l) (sql_of s)) ≡ sql_true)
      ↔ ((if m then true else l && s) ≡ true)
by_truth true l s = ((λ _. refl), (λ _. refl))
by_truth false true true = ((λ _. refl), (λ _. refl))
by_truth false true false = ((λ e. cc e), (λ e. cc e))
by_truth false false s = ((λ e. cc e), (λ e. cc e))

by_null : (s : Bool) → ¬ (sql_or sql_null (sql_and sql_null (sql_of s)) ≡ sql_true)
by_null true e = cc e
by_null false e = cc e

-- The SQL predicate selects a row, whatever its columns hold and NULL included, exactly if
-- `is_merged` counts it.
pub merged_sql_predicate-is_merged :
    (state : Option String) (success : Option Bool)
    → (merged_sql_predicate state success ≡ sql_true) ↔ (is_merged state success ≡ true)
unfolding merged_sql_predicate is_merged
merged_sql_predicate-is_merged none success =
    ((λ e. absurd (by_null (truthy success) e)), (λ e. cc e))
merged_sql_predicate-is_merged (some s) success =
    by_truth (is_merged_state s) (str_eq s legacy) (truthy success)

-- The first row of a list is the latest of it.
abbrev IsHeaded : List AttemptRow → List AttemptRow → Type 0
IsHeaded all [] = all ≡ []
IsHeaded all (r ∷ rs) = Memᴰ r all × All (λ x. x.attempted_at ≤ r.attempted_at) all

headed :
    (r : AttemptRow) (all xs : List AttemptRow)
    → IsHeaded all xs
    → IsHeaded (r ∷ all) (insert_by_latest r xs)
unfolding insert_by_latest
headed r all [] e = rw e (Memᴰ.head refl, (omega arith, tt))
headed r all (x ∷ xs) (m, h) = elim (Bool-cases (leb x.attempted_at r.attempted_at)) [
  | inl e ↦ rw e (
    Memᴰ.head refl,
    (omega arith, All-imp _ _ (λ y k. omega (tests, leb→le, leb→lt, k, leb→le _ _ e)) all h),
  )
  | inr e ↦ rw e (Memᴰ.tail m, (omega (arith, leb→lt _ _ e), h))
]

order_by_latest-IsHeaded : (xs : List AttemptRow) → IsHeaded xs (order_by_latest xs)
unfolding order_by_latest
order_by_latest-IsHeaded [] = refl
order_by_latest-IsHeaded (r ∷ rs) = headed r rs (order_by_latest rs) (order_by_latest-IsHeaded rs)

All-unfilter :
    (P : AttemptRow → Type 0) (p : AttemptRow → Bool) (xs : List AttemptRow)
    → All P (filter p xs)
    → All (λ x. p x ≡ true → P x) xs
All-unfilter P p [] h = tt
All-unfilter P p (x ∷ xs) h = elim (Bool-cases (p x)) [
  | inl e ↦
      let (here, rest) : All P (x ∷ filter p xs) = rw e at h in
      ((λ _. here), All-unfilter P p xs rest)
  | inr e ↦ ((λ t. cc (e, t)), All-unfilter P p xs (rw e at h))
]

All-refuted :
    (p : AttemptRow → Bool) (xs : List AttemptRow) → filter p xs ≡ [] → All (λ x. p x ≡ false) xs
All-refuted p [] e = tt
All-refuted p (x ∷ xs) e = elim (Bool-cases (p x)) [
  | inl t ↦ absurd (cons_not_nil (rw t at e))
  | inr f ↦ (f, All-refuted p xs (rw f at e))
]
  where
    cons_not_nil : {y : AttemptRow} {ys : List AttemptRow} → (y ∷ ys) ≡ [] → ⊥
    cons_not_nil e = cc e

-- A latest row of the pull request, or none where it has none.
abbrev pub IsLatestFor : String → ℕ → List AttemptRow → Option AttemptRow → Type 0
IsLatestFor repo pr rows none = All (λ x. is_for_pr repo pr x ≡ false) rows
IsLatestFor repo pr rows (some r) =
    Memᴰ r rows
    × (is_for_pr repo pr r ≡ true)
    × All (λ x. is_for_pr repo pr x ≡ true → x.attempted_at ≤ r.attempted_at) rows

first-IsLatestFor :
    (repo : String) (pr : ℕ) (rows sorted : List AttemptRow)
    → IsHeaded (filter (is_for_pr repo pr) rows) sorted
    → IsLatestFor repo pr rows (first sorted)
first-IsLatestFor repo pr rows [] h = All-refuted (is_for_pr repo pr) rows h
first-IsLatestFor repo pr rows (r ∷ rs) (m, h) = (
  All-elim _ _ (All-filter _ (is_for_pr repo pr) rows (All-Memᴰ rows)) m,
  All-elim _ _ (All-filter_self (is_for_pr repo pr) rows) m,
  All-unfilter _ (is_for_pr repo pr) rows h,
)

-- find_latest_for_pr answers with a row of the table that is of the pull request and than which no
-- other row of it is later, and with none only if the pull request has no row.
pub find_latest_for_pr_lem :
    (repo : String) (pr : ℕ) (table : Attempts)
    → IsLatestFor repo pr table.rows (find_latest_for_pr repo pr table)
unfolding find_latest_for_pr
find_latest_for_pr_lem repo pr table =
    first-IsLatestFor repo pr table.rows _
      (order_by_latest-IsHeaded (filter (is_for_pr repo pr) table.rows))
