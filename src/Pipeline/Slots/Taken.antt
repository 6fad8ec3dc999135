-- ===== src/Pipeline/Slots/Taken.antt =====
-- A list of which one element was taken, and a queue of which the first without a permit was given one.
use scamanager.Prelude.{
  suc, ◌≡◌, refl, ap, inl, inr, Option, none, some, Bool, true, false, List, [], ◌∷◌, count, length,
  All, All-append, ◌++◌, subst, Bool-cases,
}
use scamanager.Prelude.Lengths.{if_holds}
use scamanager.Pipeline.Slots.{take_first, Waiter, is_done, wake_first, granted}

pub data Taken {ℓ} {A : Type ℓ} (y : A) : List A → List A → Type ℓ where
  here : (xs : List A) → Taken y (y ∷ xs) xs
  there : (x : A) {xs ys : List A} → Taken y xs ys → Taken y (x ∷ xs) (x ∷ ys)

module _ {A : Type 0} where
  abbrev IsTaken : List A → Option (A × List A) → Type 0
  IsTaken xs none = Unit
  IsTaken xs (some (y, ys)) = Taken y xs ys

  IsTaken-there :
      (x : A) (xs : List A) (o : Option (A × List A))
      → IsTaken xs o
      → IsTaken (x ∷ xs) (elim o [ none ↦ none | some (y, ys) ↦ some (y, x ∷ ys) ])
  IsTaken-there x xs none t = tt
  IsTaken-there x xs (some (y, ys)) t = there x t

  take_first-IsTaken : (p : A → Bool) (xs : List A) → IsTaken xs (take_first p xs)
  unfolding take_first
  take_first-IsTaken p [] = tt
  take_first-IsTaken p (x ∷ xs) =
      if_holds (IsTaken (x ∷ xs)) (p x) (some (x, xs)) _ (λ t. here xs)
        (λ f. IsTaken-there x xs (take_first p xs) (take_first-IsTaken p xs))

  pub take_first-Taken :
      (p : A → Bool) (xs : List A) {taken : A × List A}
      → take_first p xs ≡ some taken
      → Taken taken.0 xs taken.1
  take_first-Taken p xs e = subst (IsTaken xs) e (take_first-IsTaken p xs)

  pub count-Taken :
      (q : A → Bool) {y : A} {xs ys : List A}
      → Taken y xs ys
      → q y ≡ true
      → count q xs ≡ suc (count q ys)
  count-Taken q (here xs) e = rw e refl
  count-Taken q (there x t) e = elim (Bool-cases (q x)) [
    | inl f ↦ rw f (ap suc (count-Taken q t e))
    | inr f ↦ rw f (count-Taken q t e)
  ]

  pub count-Taken-not :
      (q : A → Bool) {y : A} {xs ys : List A}
      → Taken y xs ys
      → q y ≡ false
      → count q xs ≡ count q ys
  count-Taken-not q (here xs) e = rw e refl
  count-Taken-not q (there x t) e = elim (Bool-cases (q x)) [
    | inl f ↦ rw f (ap suc (count-Taken-not q t e))
    | inr f ↦ rw f (count-Taken-not q t e)
  ]

  pub length-Taken : {y : A} {xs ys : List A} → Taken y xs ys → length xs ≡ suc (length ys)
  length-Taken (here xs) = refl
  length-Taken (there x t) = ap suc (length-Taken t)

  pub All-Taken : (P : A → Type 0) {y : A} {xs ys : List A} → Taken y xs ys → All P xs → All P ys
  All-Taken P (here xs) h = h.1
  All-Taken P (there x t) h = (h.0, All-Taken P t h.1)

-- A queue whose waiters with a permit stand in front.
unfoldable pub IsOrdered : List Waiter → Type 0
IsOrdered [] = Unit
IsOrdered (x ∷ xs) = (x.done ≡ false → All (λ y. y.done ≡ false) xs) × IsOrdered xs

pub IsOrdered-Taken :
    {y : Waiter} {xs ys : List Waiter} → Taken y xs ys → IsOrdered xs → IsOrdered ys
unfolding IsOrdered
IsOrdered-Taken (here xs) h = h.1
IsOrdered-Taken (there x t) h =
    (λ e. All-Taken (λ y. y.done ≡ false) t (h.0 e), IsOrdered-Taken t h.1)

pub IsOrdered-snoc :
    (xs : List Waiter) (y : Waiter) → y.done ≡ false → IsOrdered xs → IsOrdered (xs ++ (y ∷ []))
unfolding IsOrdered
IsOrdered-snoc [] y e h = (λ _. tt, tt)
IsOrdered-snoc (x ∷ xs) y e h =
    (λ f. All-append (λ z. z.done ≡ false) xs (y ∷ []) (h.0 f) (e, tt), IsOrdered-snoc xs y e h.1)

-- `ys` is `xs` with a permit for the first that had none.
pub data Woken : List Waiter → List Waiter → Type 0 where
  woken : (x : Waiter) (xs : List Waiter) → x.done ≡ false → Woken (x ∷ xs) (granted x ∷ xs)
  behind :
      (x : Waiter) {xs ys : List Waiter} → x.done ≡ true → Woken xs ys → Woken (x ∷ xs) (x ∷ ys)

-- The first without a permit gets one, or all have one.
abbrev pub IsWoken : List Waiter → Option (List Waiter) → Type 0
IsWoken xs none = All (λ x. x.done ≡ true) xs
IsWoken xs (some ys) = Woken xs ys

IsWoken-behind :
    (x : Waiter) (xs : List Waiter) (o : Option (List Waiter))
    → x.done ≡ true
    → IsWoken xs o
    → IsWoken (x ∷ xs) (elim o [ none ↦ none | some ys ↦ some (x ∷ ys) ])
IsWoken-behind x xs none e h = (e, h)
IsWoken-behind x xs (some ys) e h = behind x e h

pub wake_first-IsWoken : (xs : List Waiter) → IsWoken xs (wake_first xs)
unfolding wake_first
wake_first-IsWoken [] = tt
wake_first-IsWoken (x ∷ xs) =
    if_holds (IsWoken (x ∷ xs)) x.done _ (some (granted x ∷ xs))
      (λ e. IsWoken-behind x xs (wake_first xs) e (wake_first-IsWoken xs)) (λ f. woken x xs f)

pub count-Woken : {xs ys : List Waiter} → Woken xs ys → count is_done ys ≡ suc (count is_done xs)
count-Woken (woken x xs e) = rw e refl
count-Woken (behind x e t) = rw e (ap suc (count-Woken t))

pub length-Woken : {xs ys : List Waiter} → Woken xs ys → length ys ≡ length xs
length-Woken (woken x xs e) = refl
length-Woken (behind x e t) = ap suc (length-Woken t)

pub IsOrdered-Woken : {xs ys : List Waiter} → Woken xs ys → IsOrdered xs → IsOrdered ys
unfolding IsOrdered
IsOrdered-Woken (woken x xs e) h = (λ f. cc, h.1)
IsOrdered-Woken (behind x e t) h = (λ f. absurd (both e f), IsOrdered-Woken t h.1)
  where
    both : {b : Bool} → b ≡ true → b ≡ false → ⊥
    both e f = cc
