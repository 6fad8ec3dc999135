-- ===== src/GateDecisions/Lease.antt =====
-- claim_post_attempt of src/repositories/gate_decision_repo.py: one poster at a time.
use scamanager.Prelude.{
  ℕ, ◌+◌, ◌≤◌, ◌≡◌, refl, inl, inr, Option, none, some, Bool, true, false, ◌&&◌, ◌==◌, List, [],
  ◌∷◌, count, update_where, All, count-none, update_where-none, ltb, leb, str_eq, arith, Bool-cases,
  if◌then◌else◌,
}
use scamanager.RetryPolicy.Defs.{seconds}
use scamanager.GateDecisions.Defs.{
  GateDecision, pending_post, post_lease_seconds, is_of_analysis, is_postable, leased,
  claim_post_attempt,
}

and_false : (a b : Bool) → b ≡ false → (a && b) ≡ false
and_false a b h = ground arith

false_and : (a b : Bool) → a ≡ false → (a && b) ≡ false
false_and a b h = ground arith

-- No row of the analysis.
absent :
    (i : ℕ) (table : List GateDecision)
    → count (is_of_analysis i) table ≡ 0
    → All (λ d. is_of_analysis i d ≡ false) table
absent i [] h = tt
absent i (x ∷ rows) h = elim (Bool-cases (is_of_analysis i x)) [
  | inl t ↦ absurd (let e = rw t at h in (omega arith))
  | inr f ↦ (f, absent i rows (rw f at h))
]

absent-is_postable :
    (i now : ℕ) (table : List GateDecision)
    → All (λ d. is_of_analysis i d ≡ false) table
    → All (λ d. is_postable i now d ≡ false) table
absent-is_postable i now [] h = tt
absent-is_postable i now (x ∷ rows) h =
    (false_and (is_of_analysis i x) _ h.0, absent-is_postable i now rows h.1)

no_row : {n : ℕ} → n ≡ 0 → n ≡ 1 → ⊥
no_row e k = omega arith

eq_of : {n : ℕ} → (n == 1) ≡ true → n ≡ 1
eq_of h = ground arith

module _ (i now later : ℕ) (within : later ≤ now + seconds post_lease_seconds) where
  leased_now : (d : GateDecision) → is_postable i later (leased now d) ≡ false
  leased_now d = and_false (is_of_analysis i d) _ (
      and_false (str_eq d.state pending_post) _
        (let e : ltb (now + seconds post_lease_seconds) later ≡ false = ground arith in e))

  held :
      (table : List GateDecision)
      → leb (count (is_of_analysis i) table) 1 ≡ true
      → count (is_postable i now) table ≡ 1
      → All
          (λ d. is_postable i later d ≡ false)
          (update_where (is_postable i now) (leased now) table)
  held [] u h = tt
  held (x ∷ rows) u h = elim (Bool-cases (is_of_analysis i x)) [
    | inl t ↦
        let none_left : count (is_of_analysis i) rows ≡ 0 = let e = rw t at u in ground arith in
        let gone = absent i rows none_left in
        let idle = absent-is_postable i now rows gone in
        elim (Bool-cases (is_postable i now x)) [
          | inl e ↦
              rw (e, update_where-none (is_postable i now) (leased now) rows idle)
                (leased_now x, absent-is_postable i later rows gone)
          | inr e ↦ absurd (no_row (count-none (is_postable i now) rows idle) (rw e at h))
        ]
    | inr f ↦
        let p : is_postable i now x ≡ false = false_and (is_of_analysis i x) _ f in
        rw p (false_and (is_of_analysis i x) _ f, held rows (rw f at u) (rw p at h))
  ]

some_if :
    (b : Bool) (o : Option GateDecision) {d : GateDecision}
    → (if b then o else none) ≡ some d
    → b ≡ true
some_if true o h = refl
some_if false o h = cc h

-- Where an analysis has at most one row: once its posting is claimed, every further claim of it within
-- the lease answers None and writes nothing.
pub claim_post_attempt_again :
    (i now later : ℕ) (table : List GateDecision) {d : GateDecision}
    → leb (count (is_of_analysis i) table) 1 ≡ true
    → (claim_post_attempt i now table).0 ≡ some d
    → later ≤ now + seconds post_lease_seconds
    → claim_post_attempt i later (claim_post_attempt i now table).1
      ≡ (none, (claim_post_attempt i now table).1)
unfolding claim_post_attempt
claim_post_attempt_again i now later table u h within =
    let one : count (is_postable i now) table ≡ 1 =
      eq_of (some_if (count (is_postable i now) table == 1) _ h) in
    let idle = held i now later within table u one in
    rw
      (
        count-none (is_postable i later) (update_where (is_postable i now) (leased now) table) idle,
        update_where-none (is_postable i later) (leased later)
            (update_where (is_postable i now) (leased now) table) idle,
      )
      refl
