-- ===== src/Prelude/Lengths.antt =====
-- How list operations change a length, and a property of both branches of a test.
use Prim.Native.Nat.{suc, ◌≤◌, ◌<◌}
use mathlib.Core.Path.{◌≡◌, refl, ap}
use mathlib.Core.Bool.{Bool, true, false, not}
use mathlib.Core.Logic.{inl, inr}
use mathlib.Core.List.{List, [], ◌∷◌, ◌++◌}
use native.Mathlib.Omega.{arith}
use scamanager.Prelude.Tests.{if◌then◌else◌, Bool-cases}
use scamanager.Prelude.Lists.{length, filter, any, update_where}

module _ {ℓ} {A : Type ℓ} where
  pub length-update_where :
      (p : A → Bool) (f : A → A) (xs : List A) → length (update_where p f xs) ≡ length xs
  length-update_where p f [] = refl
  length-update_where p f (x ∷ xs) = ap suc (length-update_where p f xs)

  pub length-snoc : (xs : List A) (x : A) → length (xs ++ (x ∷ [])) ≡ suc (length xs)
  length-snoc [] x = refl
  length-snoc (y ∷ xs) x = ap suc (length-snoc xs x)

  pub length-filter : (p : A → Bool) (xs : List A) → length (filter p xs) ≤ length xs
  length-filter p [] = omega arith
  length-filter p (x ∷ xs) = elim (Bool-cases (p x)) [
    | inl e ↦ rw e (omega (arith, length-filter p xs))
    | inr e ↦ rw e (omega (arith, length-filter p xs))
  ]

  -- A filter that drops something.
  pub length-filter-not :
      (p : A → Bool) (xs : List A)
      → any p xs ≡ true
      → length (filter (λ x. not (p x)) xs) < length xs
  length-filter-not p [] h = cc
  length-filter-not p (x ∷ xs) h = elim (Bool-cases (p x)) [
    | inl e ↦ rw e (omega (arith, length-filter (λ y. not (p y)) xs))
    | inr e ↦ rw e (omega (arith, length-filter-not p xs (rw e at h)))
  ]

pub if_holds {ℓ ℓ'} :
    {A : Type ℓ} (P : A → Type ℓ') (b : Bool) (x y : A)
    → (b ≡ true → P x)
    → (b ≡ false → P y)
    → P (if b then x else y)
if_holds P b x y when_true when_false = elim (Bool-cases b) [
  | inl e ↦ rw e (when_true e)
  | inr e ↦ rw e (when_false e)
]
