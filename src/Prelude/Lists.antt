-- ===== src/Prelude/Lists.antt =====
-- Lists filtered by Boolean tests and measured by the native numbers, with the predicate `All`.
use Prim.Native.Nat.{ℕ, zero, suc, ◌≤◌}
use mathlib.Core.Path.{◌≡◌, refl, sym, ap, subst}
use mathlib.Core.Bool.{Bool, true, false, ◌||◌}
use mathlib.Core.Logic.{inl, inr}
use mathlib.Core.List.{List, [], ◌∷◌, ◌++◌, map, Memᴰ}
use mathlib.Core.Option
use mathlib.Core.Option.{Option, none, some}
use native.Mathlib.Omega.{arith}
use scamanager.Prelude.Tests.{if◌then◌else◌, Bool-cases}

module _ {ℓ} {A : Type ℓ} where
  abbrev pub length : List A → ℕ
  length [] = 0
  length (x ∷ xs) = suc (length xs)

  abbrev pub take : ℕ → List A → List A
  take zero xs = []
  take (suc n) [] = []
  take (suc n) (x ∷ xs) = x ∷ take n xs

  abbrev pub filter : (A → Bool) → List A → List A
  filter p [] = []
  filter p (x ∷ xs) = let rest = filter p xs in if p x then x ∷ rest else rest

  -- The first element that passes the test.
  abbrev pub find? : (A → Bool) → List A → Option A
  find? p [] = none
  find? p (x ∷ xs) = let rest = find? p xs in if p x then some x else rest

  abbrev pub any : (A → Bool) → List A → Bool
  any p [] = false
  any p (x ∷ xs) = p x || any p xs

  abbrev pub count : (A → Bool) → List A → ℕ
  count p [] = 0
  count p (x ∷ xs) = let rest = count p xs in if p x then suc rest else rest

  -- `f` applied to the elements that pass the test, the others left as they are.
  abbrev pub update_where : (A → Bool) → (A → A) → List A → List A
  update_where p f [] = []
  update_where p f (x ∷ xs) = (if p x then f x else x) ∷ update_where p f xs

module _ {ℓ κ} {A : Type ℓ} (P : A → Type κ) where
  abbrev pub All : List A → Type κ
  All [] = Unit
  All (x ∷ xs) = P x × All xs

module _ {ℓ} {A : Type ℓ} where
  pub length-take : (n : ℕ) (xs : List A) → length (take n xs) ≤ n
  length-take zero xs = omega arith
  length-take (suc n) [] = omega arith
  length-take (suc n) (x ∷ xs) = omega (arith, length-take n xs)

  -- What passes the filter passes the test.
  pub All-filter_self : (p : A → Bool) (xs : List A) → All (λ x. p x ≡ true) (filter p xs)
  All-filter_self p [] = tt
  All-filter_self p (x ∷ xs) = elim (Bool-cases (p x)) [
    | inl e ↦ rw e (e, All-filter_self p xs)
    | inr e ↦ rw e (All-filter_self p xs)
  ]

  pub length-map {κ} : {B : Type κ} (xs : List A) (f : A → B) → length (map f xs) ≡ length xs
  length-map [] f = refl
  length-map (x ∷ xs) f = ap suc (length-map xs f)

  pub All-imp {κ μ} :
      (P : A → Type κ) (Q : A → Type μ)
      → ((x : A) → P x → Q x)
      → (xs : List A) → All P xs
      → All Q xs
  All-imp P Q f [] h = tt
  All-imp P Q f (x ∷ xs) h = (f x h.0, All-imp P Q f xs h.1)

  pub All-pair {κ μ} :
      (P : A → Type κ) (Q : A → Type μ) (xs : List A)
      → All P xs
      → All Q xs
      → All (λ x. P x × Q x) xs
  All-pair P Q [] h k = tt
  All-pair P Q (x ∷ xs) h k = ((h.0, k.0), All-pair P Q xs h.1 k.1)

  pub All-Memᴰ : (xs : List A) → All (λ x. Memᴰ x xs) xs
  All-Memᴰ [] = tt
  All-Memᴰ (x ∷ xs) = (Memᴰ.head refl, All-imp _ _ (λ y m. Memᴰ.tail m) xs (All-Memᴰ xs))

pub some_eq {ℓ} : {A : Type ℓ} {x y : A} → some x ≡ some y → x ≡ y
some_eq e = cc

not_none {ℓ} : {A : Type ℓ} {x : A} → some x ≡ none → ⊥
not_none e = cc

module _ {ℓ} {A : Type ℓ} (p : A → Bool) where
  -- What `find?` finds is in the list and passes the test.
  pub find?-some : (xs : List A) {x : A} → find? p xs ≡ some x → Memᴰ x xs × (p x ≡ true)
  find?-some [] e = cc
  find?-some (y ∷ ys) {x} e = elim (Bool-cases (p y)) [
    | inl t ↦
        let here : y ≡ x = some_eq (rw (t, find?) at e) in
        (Memᴰ.head (sym here), subst (λ z. p z ≡ true) here t)
    | inr f ↦ let (m, t) = find?-some ys (rw f at e) in (Memᴰ.tail m, t)
  ]

  pub find?-none : (xs : List A) → All (λ x. p x ≡ false) xs → find? p xs ≡ none
  find?-none [] h = refl
  find?-none (x ∷ xs) h = rw h.0 (find?-none xs h.1)

  pub All-find?-none : (xs : List A) → find? p xs ≡ none → All (λ x. p x ≡ false) xs
  All-find?-none [] e = tt
  All-find?-none (x ∷ xs) e = elim (Bool-cases (p x)) [
    | inl t ↦ absurd (not_none (rw t at e))
    | inr f ↦ (f, All-find?-none xs (rw f at e))
  ]

module _ {ℓ} {A : Type ℓ} where
  abbrev pub touch : (A → Bool) → (A → A) → A → A
  touch c f x = if c x then f x else x

  -- A change that the test does not see commutes with the search.
  pub find?-update_where :
      (p c : A → Bool) (f : A → A)
      → ((x : A) → p (f x) ≡ p x)
      → (xs : List A) → find? p (update_where c f xs) ≡ Option.map (touch c f) (find? p xs)
  find?-update_where p c f kept [] = refl
  find?-update_where p c f kept (x ∷ xs) = ground (arith, kept x, find?-update_where p c f kept xs)

-- Where no element passes the test there is nothing to count and nothing to change.
module _ {ℓ} {A : Type ℓ} (p : A → Bool) where
  pub count-none : (xs : List A) → All (λ x. p x ≡ false) xs → count p xs ≡ 0
  count-none [] h = refl
  count-none (x ∷ xs) h = rw h.0 (count-none xs h.1)

  pub update_where-none :
      (f : A → A) (xs : List A) → All (λ x. p x ≡ false) xs → update_where p f xs ≡ xs
  update_where-none f [] h = refl
  update_where-none f (x ∷ xs) h = rw h.0 (ap (λ r. x ∷ r) (update_where-none f xs h.1))

module _ {ℓ κ} {A : Type ℓ} (P : A → Type κ) where
  pub All-take : (n : ℕ) (xs : List A) → All P xs → All P (take n xs)
  All-take zero xs h = tt
  All-take (suc n) [] h = tt
  All-take (suc n) (x ∷ xs) h = (h.0, All-take n xs h.1)

  pub All-map : (f : A → A) (xs : List A) → All (λ x. P (f x)) xs → All P (map f xs)
  All-map f [] h = tt
  All-map f (x ∷ xs) h = (h.0, All-map f xs h.1)

  pub All-append : (xs ys : List A) → All P xs → All P ys → All P (xs ++ ys)
  All-append [] ys h k = k
  All-append (x ∷ xs) ys h k = (h.0, All-append xs ys h.1 k)

  pub All-filter : (p : A → Bool) (xs : List A) → All P xs → All P (filter p xs)
  All-filter p [] h = tt
  All-filter p (x ∷ xs) h = elim (Bool-cases (p x)) [
    | inl e ↦ rw e (h.0, All-filter p xs h.1)
    | inr e ↦ rw e (All-filter p xs h.1)
  ]

  pub All-elim : (xs : List A) → All P xs → {x : A} → Memᴰ x xs → P x
  All-elim [] h m = elim m [ ]
  All-elim (y ∷ ys) h (Memᴰ.head e) = subst P (sym e) h.0
  All-elim (y ∷ ys) h (Memᴰ.tail m) = All-elim ys h.1 m

  pub All-update_where :
      (p : A → Bool) (f : A → A) (xs : List A)
      → All (λ x. p x ≡ true → P (f x)) xs
      → All P xs
      → All P (update_where p f xs)
  All-update_where p f [] keep h = tt
  All-update_where p f (x ∷ xs) keep h = elim (Bool-cases (p x)) [
    | inl e ↦ rw e (keep.0 e, All-update_where p f xs keep.1 h.1)
    | inr e ↦ rw e (h.0, All-update_where p f xs keep.1 h.1)
  ]

  -- The changed and the unchanged elements, each by its own reason.
  pub All-update_where_cases :
      (p : A → Bool) (f : A → A)
      → ((x : A) → p x ≡ true → P (f x))
      → ((x : A) → p x ≡ false → P x)
      → (xs : List A) → All P (update_where p f xs)
  All-update_where_cases p f changed kept [] = tt
  All-update_where_cases p f changed kept (x ∷ xs) = elim (Bool-cases (p x)) [
    | inl e ↦ rw e (changed x e, All-update_where_cases p f changed kept xs)
    | inr e ↦ rw e (kept x e, All-update_where_cases p f changed kept xs)
  ]
