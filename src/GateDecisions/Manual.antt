-- ===== src/GateDecisions/Manual.antt =====
-- The path of a decision that a person makes: it is claimed, its posting is leased, and it is marked as
-- posted or its lease is given up.
use mathlib.Core.Option
use scamanager.Prelude.{
  ℕ, ◌≡◌, refl, ap, ◌∙◌, ◌⊎◌, inl, inr, String, Option, some, Bool, true, false, ◌==◌, List, [],
  ◌∷◌, any, update_where, touch, find?-update_where, str_eq, eq_iff, Bool-cases,
}
use scamanager.Prelude.Lookups.{find?-append}
use scamanager.GateDecisions.Defs.{
  GateDecision, posted_state, is_of_analysis, find_by_analysis_id, claim_decision, is_postable,
  leased, claim_post_attempt, settled, mark_posted, is_releasable, freed, release_post_claim,
}

-- The calls of that path.
pub data Click : Type 0 where
  claims : ℕ → String → String → Option String → Click
  leases : ℕ → ℕ → Click
  posts : ℕ → Click
  releases : ℕ → Click

unfoldable pub click : Click → List GateDecision → List GateDecision
click (claims i decision mode decided_by) table =
    (claim_decision i decision mode decided_by table).1
click (leases i now) table = (claim_post_attempt i now table).1
click (posts i) table = mark_posted i table
click (releases i) table = release_post_claim i table

unfoldable pub clicks : List Click → List GateDecision → List GateDecision
clicks [] table = table
clicks (c ∷ cs) table = clicks cs (click c table)

-- What becomes of a row: what was decided, how and by whom stays, and so does that it was posted.
abbrev pub IsKeptBy : GateDecision → GateDecision → Type 0
IsKeptBy d d' =
    (d'.decision ≡ d.decision)
    × (d'.mode ≡ d.mode)
    × (d'.decided_by ≡ d.decided_by)
    × ((str_eq d.state posted_state ≡ false) ⊎ (d'.state ≡ posted_state))

pub same-IsKeptBy : (d : GateDecision) → IsKeptBy d d
same-IsKeptBy d = elim (Bool-cases (str_eq d.state posted_state)) [
  | inl e ↦ (refl, refl, refl, inr ((eq_iff d.state posted_state).0 e))
  | inr e ↦ (refl, refl, refl, inl e)
]

still_posted :
    (d d' d'' : GateDecision)
    → (str_eq d.state posted_state ≡ false) ⊎ (d'.state ≡ posted_state)
    → (str_eq d'.state posted_state ≡ false) ⊎ (d''.state ≡ posted_state)
    → (str_eq d.state posted_state ≡ false) ⊎ (d''.state ≡ posted_state)
still_posted d d' d'' (inl e) k = inl e
still_posted d d' d'' (inr e) (inr k) = inr k
still_posted d d' d'' (inr e) (inl k) =
    let t : str_eq d'.state posted_state ≡ true = (eq_iff d'.state posted_state).1 e in cc (t, k)

pub IsKeptBy-trans : (d d' d'' : GateDecision) → IsKeptBy d d' → IsKeptBy d' d'' → IsKeptBy d d''
IsKeptBy-trans d d' d'' (a, b, c, e) (a', b', c', e') =
    (a' ∙ a, b' ∙ b, c' ∙ c, still_posted d d' d'' e e')

-- A change of a row that keeps its key, its decision and that it was posted.
abbrev IsKeeping : (GateDecision → GateDecision) → Type 0
IsKeeping change =
    (d : GateDecision) → ((change d).analysis_id ≡ d.analysis_id) × IsKeptBy d (change d)

leased-IsKeeping : (now : ℕ) → IsKeeping (leased now)
leased-IsKeeping now d = (refl, same-IsKeptBy d)

settled-IsKeeping : IsKeeping settled
settled-IsKeeping d = (refl, (refl, refl, refl, inr refl))

freed-IsKeeping : IsKeeping freed
freed-IsKeeping d = (refl, same-IsKeptBy d)

-- What is found afterwards.
abbrev pub IsKeptIn : ℕ → GateDecision → List GateDecision → Type 0
IsKeptIn j d table = (d' : GateDecision) × (find_by_analysis_id j table ≡ some d') × IsKeptBy d d'

touch-IsKeptBy :
    (p : GateDecision → Bool) (change : GateDecision → GateDecision)
    → IsKeeping change
    → (d : GateDecision) → IsKeptBy d (touch p change d)
touch-IsKeptBy p change keep d = elim (Bool-cases (p d)) [
  | inl e ↦ rw e (keep d).1
  | inr e ↦ rw e (same-IsKeptBy d)
]

update_where-IsKeptIn :
    (p : GateDecision → Bool) (change : GateDecision → GateDecision)
    → IsKeeping change
    → (j : ℕ) (table : List GateDecision) {d : GateDecision} → find_by_analysis_id j table ≡ some d
    → IsKeptIn j d (update_where p change table)
unfolding find_by_analysis_id
update_where-IsKeptIn p change keep j table {d} h = (
  touch p change d,
  find?-update_where (is_of_analysis j) p change (λ x. ap (λ n. n == j) (keep x).0) table
      ∙ ap (λ o. Option.map (touch p change) o) h,
  touch-IsKeptBy p change keep d,
)

claim_decision-IsKeptIn :
    (i : ℕ) (decision mode : String) (decided_by : Option String) (j : ℕ)
    (table : List GateDecision) {d : GateDecision}
    → find_by_analysis_id j table ≡ some d
    → IsKeptIn j d (claim_decision i decision mode decided_by table).1
unfolding claim_decision find_by_analysis_id
claim_decision-IsKeptIn i decision mode decided_by j table {d} h =
    elim (Bool-cases (any (is_of_analysis i) table)) [
      | inl e ↦ rw e (d, h, same-IsKeptBy d)
      | inr e ↦ rw e (d, find?-append (is_of_analysis j) table _ h, same-IsKeptBy d)
    ]

pub click-IsKeptIn :
    (c : Click) (j : ℕ) (table : List GateDecision) {d : GateDecision}
    → find_by_analysis_id j table ≡ some d
    → IsKeptIn j d (click c table)
unfolding click claim_post_attempt mark_posted release_post_claim
click-IsKeptIn (claims i decision mode decided_by) j table h =
    claim_decision-IsKeptIn i decision mode decided_by j table h
click-IsKeptIn (leases i now) j table h =
    update_where-IsKeptIn (is_postable i now) (leased now) (leased-IsKeeping now) j table h
click-IsKeptIn (posts i) j table h =
    update_where-IsKeptIn (is_of_analysis i) settled settled-IsKeeping j table h
click-IsKeptIn (releases i) j table h =
    update_where-IsKeptIn (is_releasable i) freed freed-IsKeeping j table h

-- After any sequence of decisions, leases, posts and releases, a decision that stood in the table is
-- still found for its analysis, with the same decision, mode and decider; and if it had been posted, it
-- is posted.
pub clicks-IsKeptIn :
    (cs : List Click) (j : ℕ) (table : List GateDecision) {d : GateDecision}
    → find_by_analysis_id j table ≡ some d
    → IsKeptIn j d (clicks cs table)
unfolding clicks
clicks-IsKeptIn [] j table {d} h = (d, h, same-IsKeptBy d)
clicks-IsKeptIn (c ∷ cs) j table {d} h =
    let (d', found, kept) = click-IsKeptIn c j table h in
    let (d'', found', kept') = clicks-IsKeptIn cs j (click c table) found in
    (d'', found', IsKeptBy-trans d d' d'' kept kept')
