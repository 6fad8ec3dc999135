-- ===== src/Prelude/Lookups.antt =====
-- What a search and a count say of a list that was filtered or has one more element.
use Prim.Native.Nat.{suc, ◌≤◌}
use mathlib.Core.Path.{◌≡◌, refl, ap, ◌∙◌}
use mathlib.Core.Bool.{Bool, true, false}
use mathlib.Core.Logic.{inl, inr}
use mathlib.Core.Option.{some}
use mathlib.Core.List.{List, [], ◌∷◌, ◌++◌}
use native.Mathlib.Omega.{arith}
use scamanager.Prelude.Tests.{Bool-cases, or_false}
use scamanager.Prelude.Lists.{filter, find?, any, count, some_eq}
use scamanager.Prelude.Lengths.{if_holds}

module _ {ℓ} {A : Type ℓ} (p : A → Bool) where
  pub find?-filter :
      (q : A → Bool) (xs : List A) {x : A}
      → find? p xs ≡ some x
      → q x ≡ true
      → find? p (filter q xs) ≡ some x
  find?-filter q [] h t = cc
  find?-filter q (y ∷ xs) {x} h t = elim (Bool-cases (p y)) [
    | inl e ↦
        let same : some y ≡ some x = rw e at h in
        let kept : q y ≡ true = ap q (some_eq same) ∙ t in rw (kept, e) same
    | inr e ↦ elim (Bool-cases (q y)) [
      | inl k ↦ rw (k, e) (find?-filter q xs (rw e at h) t)
      | inr k ↦ rw k (find?-filter q xs (rw e at h) t)
    ]
  ]

  pub find?-append :
      (xs more : List A) {x : A} → find? p xs ≡ some x → find? p (xs ++ more) ≡ some x
  find?-append [] more h = cc
  find?-append (y ∷ xs) more h = elim (Bool-cases (p y)) [
    | inl e ↦ rw e (rw e at h)
    | inr e ↦ rw e (find?-append xs more (rw e at h))
  ]

  pub any-find? : (xs : List A) → any p xs ≡ true → (x : A) × (find? p xs ≡ some x) × (p x ≡ true)
  any-find? [] h = cc
  any-find? (y ∷ xs) h = elim (Bool-cases (p y)) [
    | inl e ↦ (y, rw e refl, e)
    | inr e ↦ let (x, found, t) = any-find? xs (rw e at h) in (x, rw e found, t)
  ]

  pub find?-new :
      (xs : List A) (new : A)
      → any p xs ≡ false
      → p new ≡ true
      → find? p (xs ++ (new ∷ [])) ≡ some new
  find?-new [] new h t = rw t refl
  find?-new (y ∷ xs) new h t =
      let (e, rest) = or_false (p y) (any p xs) h in rw e (find?-new xs new rest t)

  pub count-snoc_not :
      (xs : List A) (new : A) → p new ≡ false → count p (xs ++ (new ∷ [])) ≡ count p xs
  count-snoc_not [] new h = rw h refl
  count-snoc_not (y ∷ xs) new h = elim (Bool-cases (p y)) [
    | inl e ↦ rw e (ap suc (count-snoc_not xs new h))
    | inr e ↦ rw e (count-snoc_not xs new h)
  ]

  pub count-snoc : (xs : List A) (new : A) → count p (xs ++ (new ∷ [])) ≤ suc (count p xs)
  count-snoc [] new = if_holds (λ n. n ≤ 1) (p new) 1 0 (λ _. omega arith) (λ _. omega arith)
  count-snoc (y ∷ xs) new = elim (Bool-cases (p y)) [
    | inl e ↦ rw e (omega (arith, count-snoc xs new))
    | inr e ↦ rw e (count-snoc xs new)
  ]

  pub filter-snoc_not :
      (xs : List A) (new : A) → p new ≡ false → filter p (xs ++ (new ∷ [])) ≡ filter p xs
  filter-snoc_not [] new h = rw h refl
  filter-snoc_not (y ∷ xs) new h = elim (Bool-cases (p y)) [
    | inl e ↦ rw e (ap (λ l. y ∷ l) (filter-snoc_not xs new h))
    | inr e ↦ rw e (filter-snoc_not xs new h)
  ]
