-- ===== src/Prelude/Distinct.antt =====
-- Lists in which no two elements clash, as a table with unique columns is.
use mathlib.Core.Path.{◌≡◌, ◌∙◌, sym, ap}
use mathlib.Core.Bool.{Bool, true, false}
use mathlib.Core.Logic.{inl, inr}
use mathlib.Core.List.{List, [], ◌∷◌, ◌++◌}
use scamanager.Prelude.Tests.{Bool-cases}
use mathlib.Core.List.{Memᴰ}
use scamanager.Prelude.Lists.{All, All-append, All-filter, All-elim, filter, update_where, touch}

module _ {ℓ} {A : Type ℓ} (clash : A → A → Bool) where
  abbrev pub AllDistinct : List A → Type ℓ
  AllDistinct [] = Unit
  AllDistinct (x ∷ xs) = All (λ y. clash x y ≡ false) xs × AllDistinct xs

  pub AllDistinct-snoc :
      (xs : List A) (new : A)
      → AllDistinct xs
      → All (λ x. clash x new ≡ false) xs
      → AllDistinct (xs ++ (new ∷ []))
  AllDistinct-snoc [] new h k = (tt, tt)
  AllDistinct-snoc (x ∷ xs) new h k = (
    All-append (λ y. clash x y ≡ false) xs (new ∷ []) h.0 (k.0, tt),
    AllDistinct-snoc xs new h.1 k.1,
  )

  pub AllDistinct-filter : (p : A → Bool) (xs : List A) → AllDistinct xs → AllDistinct (filter p xs)
  AllDistinct-filter p [] h = tt
  AllDistinct-filter p (x ∷ xs) h = elim (Bool-cases (p x)) [
    | inl e ↦ rw e (All-filter (λ y. clash x y ≡ false) p xs h.0, AllDistinct-filter p xs h.1)
    | inr e ↦ rw e (AllDistinct-filter p xs h.1)
  ]

  -- Two elements with the same key are one, where elements with the same key clash.
  pub AllDistinct-same :
      {K : Type 0} (key : A → K)
      → ((x y : A) → key x ≡ key y → clash x y ≡ true)
      → (xs : List A) → AllDistinct xs
      → {x y : A} → Memᴰ x xs
      → Memᴰ y xs
      → key x ≡ key y
      → x ≡ y
  AllDistinct-same key clashes [] h m n e = elim m [ ]
  AllDistinct-same key clashes (z ∷ zs) h (Memᴰ.head p) (Memᴰ.head q) e = p ∙ sym q
  AllDistinct-same key clashes (z ∷ zs) h {y = y} (Memᴰ.head p) (Memᴰ.tail n) e =
      cc (clashes z y (ap key (sym p) ∙ e), All-elim (λ y. clash z y ≡ false) zs h.0 n)
  AllDistinct-same key clashes (z ∷ zs) h {x = x} (Memᴰ.tail m) (Memᴰ.head q) e =
      cc (clashes z x (ap key (sym q) ∙ sym e), All-elim (λ y. clash z y ≡ false) zs h.0 m)
  AllDistinct-same key clashes (z ∷ zs) h (Memᴰ.tail m) (Memᴰ.tail n) e =
      AllDistinct-same key clashes zs h.1 m n e

  -- A change that the clash does not see.
  module _ (p : A → Bool) (f : A → A) (left : (x y : A) → clash (f x) y ≡ clash x y)
      (right : (x y : A) → clash x (f y) ≡ clash x y) where
    clash-touch_left : (x y : A) → clash (touch p f x) y ≡ clash x y
    clash-touch_left x y = elim (Bool-cases (p x)) [ inl e ↦ rw e (left x y) | inr e ↦ rw e ]

    clash-touch_right : (x y : A) → clash x (touch p f y) ≡ clash x y
    clash-touch_right x y = elim (Bool-cases (p y)) [ inl e ↦ rw e (right x y) | inr e ↦ rw e ]

    All-touch :
        (x : A) (ys : List A)
        → All (λ y. clash x y ≡ false) ys
        → All (λ y. clash (touch p f x) y ≡ false) (update_where p f ys)
    All-touch x [] h = tt
    All-touch x (y ∷ ys) h =
        (clash-touch_left x (touch p f y) ∙ clash-touch_right x y ∙ h.0, All-touch x ys h.1)

    pub AllDistinct-update_where :
        (xs : List A) → AllDistinct xs → AllDistinct (update_where p f xs)
    AllDistinct-update_where [] h = tt
    AllDistinct-update_where (x ∷ xs) h = (All-touch x xs h.0, AllDistinct-update_where xs h.1)
