-- ===== src/MergeAttempts/Lifecycle.antt =====
-- The lifecycle of a row under any sequence of inserts and marks.
use scamanager.Prelude.{
  ℕ, ◌≡◌, refl, sym, ap, subst, ◌∙◌, ◌⊎◌, inl, inr, String, Option, some, Bool, true, false, ◌&&◌,
  or_cases, and_left, and_right, ◌==◌, List, [], ◌∷◌, find?, update_where, count-none,
  update_where-none, touch, All, find?-update_where, str_eq, eq_iff, arith, Bool-cases,
}
use scamanager.Prelude.Lookups.{find?-append}
use mathlib.Core.Option
use scamanager.MergeMetrics.{MergeAttempt}
use scamanager.MergeAttempts.Defs.{
  allowed_transition, is_terminal, is_markable, merged_row, disabled_row, mark_where, AttemptRow,
  Attempts, create, mark_actually_merged, mark_disabled_externally, enabled_pending_merge,
  actually_merged, disabled_externally,
}

-- What the program does to the table: an INSERT, and the two marks of a webhook.
pub data Event : Type 0 where
  inserted : ℕ → MergeAttempt → Event
  merged : ℕ → ℕ → Event
  disabled : ℕ → ℕ → Option String → Event

unfoldable pub apply : Event → Attempts → Bool × Attempts
apply (inserted now attempt) table = (true, (create now attempt table).1)
apply (merged i merged_at) table = mark_actually_merged i merged_at table
apply (disabled i disabled_at reason) table = mark_disabled_externally i disabled_at reason table

unfoldable pub run : List Event → Attempts → Attempts
run [] table = table
run (e ∷ es) table = run es (apply e table).1

abbrev pub has_id : ℕ → AttemptRow → Bool
has_id i r = r.id == i

abbrev pub lookup : ℕ → Attempts → Option AttemptRow
lookup i table = find? (has_id i) table.rows

-- A row and what became of it.
abbrev pub IsSuccessor : AttemptRow → AttemptRow → Type 0
IsSuccessor r r' = (r' ≡ r) ⊎ (allowed_transition r.state r'.state ≡ true)

pub allowed_transition-is_terminal :
    (s t : String)
    → allowed_transition s t ≡ true
    → (is_terminal s ≡ false) × (is_terminal t ≡ true)
unfolding allowed_transition is_terminal
allowed_transition-is_terminal s t h =
    let from : s ≡ enabled_pending_merge = (eq_iff s enabled_pending_merge).0 (and_left _ _ h) in
    elim (or_cases _ _ (and_right _ _ h)) [
      | inl e ↦
          let to : t ≡ actually_merged = (eq_iff t actually_merged).0 e in
          rw (from, to) (refl, refl)
      | inr e ↦
          let to : t ≡ disabled_externally = (eq_iff t disabled_externally).0 e in
          rw (from, to) (refl, refl)
    ]

pub IsSuccessor-trans :
    (r r' r'' : AttemptRow) → IsSuccessor r r' → IsSuccessor r' r'' → IsSuccessor r r''
IsSuccessor-trans r r' r'' (inl e) k = subst (λ x. IsSuccessor x r'') e k
IsSuccessor-trans r r' r'' (inr h) (inl e) = subst (λ x. IsSuccessor r x) (sym e) (inr h)
IsSuccessor-trans r r' r'' (inr h) (inr k) = cc (
  (allowed_transition-is_terminal r.state r'.state h).1,
  (allowed_transition-is_terminal r'.state r''.state k).0,
)

abbrev IsEnd : String → Type 0
IsEnd t = (t ≡ actually_merged) ⊎ (t ≡ disabled_externally)

-- Any change that a mark makes to a row.
abbrev IsMark : (AttemptRow → AttemptRow) → Type 0
IsMark change = (r : AttemptRow) → ((change r).id ≡ r.id) × IsEnd (change r).state

merged_row-IsMark : (merged_at : ℕ) → IsMark (merged_row merged_at)
merged_row-IsMark merged_at r = (refl, inl refl)

disabled_row-IsMark :
    (disabled_at : ℕ) (reason : Option String) → IsMark (disabled_row disabled_at reason)
disabled_row-IsMark disabled_at reason r = (refl, inr refl)

allowed_of : (s t : String) → s ≡ enabled_pending_merge → IsEnd t → allowed_transition s t ≡ true
unfolding allowed_transition
allowed_of s t from (inl to) = rw (from, to)
allowed_of s t from (inr to) = rw (from, to)

ended : (t : String) → IsEnd t → str_eq t enabled_pending_merge ≡ false
ended t (inl to) = rw to
ended t (inr to) = rw to

and_false : (a b : Bool) → b ≡ false → (a && b) ≡ false
and_false a b h = ground arith

module _ (i : ℕ) (change : AttemptRow → AttemptRow) (mark : IsMark change) where
  touch-IsSuccessor : (r : AttemptRow) → IsSuccessor r (touch (is_markable i) change r)
  touch-IsSuccessor r = elim (Bool-cases (is_markable i r)) [
    | inl e ↦
        let from : r.state ≡ enabled_pending_merge =
          (eq_iff r.state enabled_pending_merge).0 (and_right (r.id == i) _ e) in
        inr (rw e (allowed_of r.state (change r).state from (mark r).1))
    | inr e ↦ inl (rw e)
  ]

  -- Every row that is looked up after a mark is the touched one.
  lookup-mark_where :
      (j : ℕ) (table : Attempts)
      → lookup j (mark_where i change table).1
        ≡ Option.map (touch (is_markable i) change) (lookup j table)
  unfolding mark_where
  lookup-mark_where j table =
      find?-update_where (has_id j) (is_markable i) change (λ x. ap (λ n. n == j) (mark x).0)
        table.rows

  -- A row that was changed is not changed again.
  touch-unmarkable : (r : AttemptRow) → is_markable i (touch (is_markable i) change r) ≡ false
  touch-unmarkable r = elim (Bool-cases (is_markable i r)) [
    | inl e ↦ rw e (and_false ((change r).id == i) _ (ended (change r).state (mark r).1))
    | inr e ↦ rw (e, e)
  ]

  unmarkable-mark_where :
      (rows : List AttemptRow)
      → All (λ r. is_markable i r ≡ false) (update_where (is_markable i) change rows)
  unmarkable-mark_where [] = tt
  unmarkable-mark_where (r ∷ rows) = (touch-unmarkable r, unmarkable-mark_where rows)

  mark_where_idle :
      (table : Attempts)
      → All (λ r. is_markable i r ≡ false) table.rows
      → mark_where i change table ≡ (false, table)
  unfolding mark_where
  mark_where_idle table h =
      rw
        (
          count-none (is_markable i) table.rows h,
          update_where-none (is_markable i) change table.rows h,
        )
        refl

marked :
    (i : ℕ) (change : AttemptRow → AttemptRow)
    → IsMark change
    → (j : ℕ) (table : Attempts) {r : AttemptRow} → lookup j table ≡ some r
    → (r' : AttemptRow) × (lookup j (mark_where i change table).1 ≡ some r') × IsSuccessor r r'
marked i change mark j table {r} e = (
  touch (is_markable i) change r,
  lookup-mark_where i change mark j table ∙ ap (Option.map (touch (is_markable i) change)) e,
  touch-IsSuccessor i change mark r,
)

pub apply-IsSuccessor :
    (e : Event) (j : ℕ) (table : Attempts) {r : AttemptRow}
    → lookup j table ≡ some r
    → (r' : AttemptRow) × (lookup j (apply e table).1 ≡ some r') × IsSuccessor r r'
unfolding apply create mark_actually_merged mark_disabled_externally
apply-IsSuccessor (inserted now attempt) j table {r} h =
    (r, find?-append (has_id j) table.rows _ h, inl refl)
apply-IsSuccessor (merged i merged_at) j table h =
    marked i (merged_row merged_at) (merged_row-IsMark merged_at) j table h
apply-IsSuccessor (disabled i disabled_at reason) j table h =
    marked i (disabled_row disabled_at reason) (disabled_row-IsMark disabled_at reason) j table h

-- After any sequence of inserts and marks a row is still found by its id, and is the row it was, or
-- differs from it by one allowed transition.
pub run-IsSuccessor :
    (es : List Event) (j : ℕ) (table : Attempts) {r : AttemptRow}
    → lookup j table ≡ some r
    → (r' : AttemptRow) × (lookup j (run es table) ≡ some r') × IsSuccessor r r'
unfolding run
run-IsSuccessor [] j table {r} h = (r, h, inl refl)
run-IsSuccessor (e ∷ es) j table {r} h =
    let (r', h', s') = apply-IsSuccessor e j table h in
    let (r'', h'', s'') = run-IsSuccessor es j (apply e table).1 h' in
    (r'', h'', IsSuccessor-trans r r' r'' s' s'')

unmoved : (r r' : AttemptRow) → is_terminal r.state ≡ true → IsSuccessor r r' → r' ≡ r
unmoved r r' h (inl e) = e
unmoved r r' h (inr a) = cc (h, (allowed_transition-is_terminal r.state r'.state a).0)

-- A row in a terminal state is the same row after any sequence of inserts and marks.
pub run-is_terminal :
    (es : List Event) (j : ℕ) (table : Attempts) {r : AttemptRow}
    → lookup j table ≡ some r
    → is_terminal r.state ≡ true
    → lookup j (run es table) ≡ some r
run-is_terminal es j table {r} h t =
    let (r', h', s) = run-IsSuccessor es j table h in h' ∙ ap some (unmoved r r' t s)

-- A mark of the row with an id, of either kind.
pub data Mark : Type 0 where
  to_merged : ℕ → Mark
  to_disabled : ℕ → Option String → Mark

unfoldable pub mark_as : Mark → ℕ → Attempts → Bool × Attempts
mark_as (to_merged merged_at) i table = mark_actually_merged i merged_at table
mark_as (to_disabled disabled_at reason) i table =
    mark_disabled_externally i disabled_at reason table

change_of : Mark → AttemptRow → AttemptRow
change_of (to_merged merged_at) = merged_row merged_at
change_of (to_disabled disabled_at reason) = disabled_row disabled_at reason

change_of-IsMark : (m : Mark) → IsMark (change_of m)
unfolding change_of
change_of-IsMark (to_merged merged_at) = merged_row-IsMark merged_at
change_of-IsMark (to_disabled disabled_at reason) = disabled_row-IsMark disabled_at reason

mark_as-mark_where :
    (m : Mark) (i : ℕ) (table : Attempts) → mark_as m i table ≡ mark_where i (change_of m) table
unfolding mark_as change_of mark_actually_merged mark_disabled_externally
mark_as-mark_where (to_merged merged_at) i table = refl
mark_as-mark_where (to_disabled disabled_at reason) i table = refl

-- After a mark of an id, a second mark of it, of either kind, answers False and writes nothing; so a
-- webhook that is sent twice, or after the other one, changes nothing.
pub mark_as_again :
    (m n : Mark) (i : ℕ) (table : Attempts)
    → mark_as n i (mark_as m i table).1 ≡ (false, (mark_as m i table).1)
mark_as_again m n i table =
    rw (mark_as-mark_where m i table, mark_as-mark_where n i (mark_where i (change_of m) table).1)
      (mark_where_idle i (change_of n) (change_of-IsMark n) (mark_where i (change_of m) table).1 (
        unfold mark_where in unmarkable-mark_where i (change_of m) (change_of-IsMark m) table.rows))
