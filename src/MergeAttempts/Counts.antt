-- ===== src/MergeAttempts/Counts.antt =====
-- The counts of failures by their reason.
use mathlib.Core.Option
use scamanager.Prelude.{
  ℕ, zero, suc, ◌+◌, ◌≡◌, refl, sym, ap, ◌∙◌, inl, inr, String, Option, none, some, Bool, true,
  false, List, [], ◌∷◌, find?, find?-some, count, any, touch, find?-update_where, ◌==◌, str_eq,
  eq_iff, eq_refl, arith, Bool-cases, if◌then◌else◌,
}
use scamanager.MergeAttempts.Defs.{
  AttemptRow, Attempts, failed_reason, has_reason, ReasonCount, is_reason, add_reason,
  group_reasons, count_failures_by_reason,
}

-- The entry that a number of rows gives.
abbrev pub entry : String → ℕ → Option ReasonCount
entry tag n = if n == 0 then none else some (record { reason = tag; total = n })

find?-any :
    (tag : String) (groups : List ReasonCount)
    → any (is_reason tag) groups ≡ false
    → find? (is_reason tag) groups ≡ none
find?-any tag [] h = refl
find?-any tag (g ∷ gs) h = elim (Bool-cases (is_reason tag g)) [
  | inl e ↦ cc (rw e at h)
  | inr e ↦ rw e (find?-any tag gs (rw e at h))
]

not_none : {g : ReasonCount} → some g ≡ none → ⊥
not_none e = cc e

str_eq_comm : (a b : String) → str_eq a b ≡ str_eq b a
str_eq_comm a b = elim (Bool-cases (str_eq a b)) [
  | inl e ↦ let same : a ≡ b = (eq_iff a b).0 e in rw same refl
  | inr e ↦ elim (Bool-cases (str_eq b a)) [
    | inl f ↦ let same : b ≡ a = (eq_iff b a).0 f in rw same refl
    | inr f ↦ e ∙ sym f
  ]
]

abbrev bump : ReasonCount → ReasonCount
bump g = record g { total = g.total + 1 }

entry-suc :
    (tag : String) (n : ℕ) → entry tag (suc n) ≡ some (record { reason = tag; total = suc n })
entry-suc tag n = let e : (suc n == 0) ≡ false = ground arith in rw e refl

entry-none : (tag : String) (n : ℕ) → entry tag n ≡ none → n ≡ 0
entry-none tag zero e = refl
entry-none tag (suc n) e = absurd (not_none (sym (entry-suc tag n) ∙ e))

missing :
    (tag : String) (groups : List ReasonCount)
    → find? (is_reason tag) groups ≡ none
    → any (is_reason tag) groups ≡ false
missing tag [] e = refl
missing tag (g ∷ gs) e = elim (Bool-cases (is_reason tag g)) [
  | inl t ↦ absurd (not_none (rw t at e))
  | inr f ↦ rw f (missing tag gs (rw f at e))
]

bump_found :
    (tag : String) (groups : List ReasonCount) (n : ℕ)
    → find? (is_reason tag) groups ≡ entry tag n
    → any (is_reason tag) groups ≡ true
    → Option.map (touch (is_reason tag) bump) (find? (is_reason tag) groups) ≡ entry tag (n + 1)
bump_found tag groups zero h k = cc (missing tag groups h, k)
bump_found tag groups (suc n) h k =
    let up : suc n + 1 ≡ suc (suc n) = omega arith in
    ap (Option.map (touch (is_reason tag) bump)) (h ∙ entry-suc tag n)
    ∙ rw (eq_refl tag, up) (sym (entry-suc tag (suc n)))

keep_found :
    (tag t : String) (o : Option ReasonCount)
    → str_eq t tag ≡ false
    → ((g : ReasonCount) → o ≡ some g → is_reason tag g ≡ true)
    → Option.map (touch (is_reason t) bump) o ≡ o
keep_found tag t none apart found = refl
keep_found tag t (some g) apart found =
    let same : g.reason ≡ tag = (eq_iff g.reason tag).0 (found g refl) in
    rw (same, str_eq_comm tag t, apart)

-- The groups after one more row of this reason.
add_same :
    (tag : String) (groups : List ReasonCount) (n : ℕ)
    → find? (is_reason tag) groups ≡ entry tag n
    → find? (is_reason tag) (add_reason (some tag) groups) ≡ entry tag (n + 1)
unfolding add_reason
add_same tag groups n h = elim (Bool-cases (any (is_reason tag) groups)) [
  | inl k ↦ rw k (
      find?-update_where (is_reason tag) (is_reason tag) bump (λ x. refl) groups
      ∙ bump_found tag groups n h k)
  | inr k ↦
      let empty : n ≡ 0 = entry-none tag n (sym h ∙ find?-any tag groups k) in
      rw (k, eq_refl tag, empty)
]

-- A row of another reason.
add_other :
    (tag t : String) (groups : List ReasonCount)
    → str_eq t tag ≡ false
    → find? (is_reason tag) (add_reason (some t) groups) ≡ find? (is_reason tag) groups
unfolding add_reason
add_other tag t groups e = elim (Bool-cases (any (is_reason t) groups)) [
  | inl k ↦ rw k (
      find?-update_where (is_reason tag) (is_reason t) bump (λ x. refl) groups
      ∙ keep_found tag t _ e (λ g f. (find?-some (is_reason tag) groups f).1))
  | inr k ↦ rw (k, e) refl
]

add_reason-entry :
    (tag : String) (r : Option String) (groups : List ReasonCount) (n : ℕ)
    → find? (is_reason tag) groups ≡ entry tag n
    → find? (is_reason tag) (add_reason r groups)
      ≡ entry tag (if has_reason tag r then n + 1 else n)
unfolding add_reason
add_reason-entry tag none groups n h = h
add_reason-entry tag (some t) groups n h = elim (Bool-cases (str_eq t tag)) [
  | inl e ↦ let same : t ≡ tag = (eq_iff t tag).0 e in rw (e, same) (add_same tag groups n h)
  | inr e ↦ rw e (add_other tag t groups e ∙ h)
]

group_reasons-entry :
    (tag : String) (since : Option ℕ) (rows : List AttemptRow)
    → find? (is_reason tag) (group_reasons since rows)
      ≡ entry tag (count (λ r. has_reason tag (failed_reason since r)) rows)
unfolding group_reasons
group_reasons-entry tag since [] = refl
group_reasons-entry tag since (r ∷ rs) =
    let n = count (λ r. has_reason tag (failed_reason since r)) rs in
    add_reason-entry tag (failed_reason since r) (group_reasons since rs) n
      (group_reasons-entry tag since rs)
    ∙ ap (entry tag) (one_more (has_reason tag (failed_reason since r)) n)
  where
    one_more : (b : Bool) (n : ℕ) → (if b then n + 1 else n) ≡ (if b then suc n else n)
    one_more true n = omega arith
    one_more false n = refl

-- The count that is reported for a reason is the number of failed rows with it, since the time if one
-- is given; a reason that no such row has is not reported.
pub count_failures_by_reason_lem :
    (tag : String) (since : Option ℕ) (table : Attempts)
    → find? (is_reason tag) (count_failures_by_reason since table)
      ≡ entry tag (count (λ r. has_reason tag (failed_reason since r)) table.rows)
unfolding count_failures_by_reason
count_failures_by_reason_lem tag since table = group_reasons-entry tag since table.rows
