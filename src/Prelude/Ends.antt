-- ===== src/Prelude/Ends.antt =====
-- What a step ends with when it returns.
use mathlib.Core.Path.{◌≡◌, refl}
use mathlib.Core.Bool.{Bool, true, false}
use mathlib.Core.Logic.{inl, inr}
use scamanager.Prelude.Tests.{Bool-cases, if◌then◌else◌}
use scamanager.Prelude.Effects.{
  Answer, returned, send_error, unexpected, Effect, continue, ◌>>=◌, pure,
}
use scamanager.Prelude.Preserves.{Preserves}

-- From a world with `P`, a step that returns `x` leaves a world with `Q x`.
pub record Ends {W : Type 0} (P : W → Type 0) {A : Type 0} (Q : A → W → Type 0) (step : Effect W A)
    : Type 0 where
  pub reached : (w : W) → P w → (x : A) → (step w).0 ≡ returned x → Q x (step w).1

after_returned :
    {W A B : Type 0} (R : A → W → Type 0) (Q : B → W → Type 0) (rest : A → Effect W B)
    (answer : Answer A) (w : W)
    → ((x : A) → answer ≡ returned x → R x w)
    → ((x : A) → Ends (R x) Q (rest x))
    → (y : B) → (continue answer rest w).0 ≡ returned y
    → Q y (continue answer rest w).1
after_returned R Q rest (returned x) w got then_on y e = (then_on x).reached w (got x refl) y e
after_returned R Q rest send_error w got then_on y e = cc
after_returned R Q rest unexpected w got then_on y e = cc

module _ {W : Type 0} {P : W → Type 0} {A : Type 0} where
  pub Ends-weaken :
      {R : W → Type 0} {Q : A → W → Type 0} (step : Effect W A)
      → ((w : W) → P w → R w)
      → Ends R Q step
      → Ends P Q step
  Ends-weaken step implied ends = record { reached = λ w h x e. ends.reached w (implied w h) x e }

  pub Ends-kept : (step : Effect W A) → Preserves P step → Ends P (λ _. P) step
  Ends-kept step kept = record { reached = λ w h x e. kept.left w h }

  pub Ends-pure : {Q : A → W → Type 0} (x : A) → ((w : W) → P w → Q x w) → Ends P Q (pure x)
  unfolding pure
  Ends-pure {Q} x implied = record { reached = λ w h y e. subst_answer y e (implied w h) }
    where
      same : {y z : A} → returned y ≡ returned z → y ≡ z
      same e = cc

      subst_answer : {w : W} (y : A) → returned x ≡ returned y → Q x w → Q y w
      subst_answer y e q = rw (same e) at q

  pub Ends-if :
      {Q : A → W → Type 0} (test : Bool) (m n : Effect W A)
      → (test ≡ true → Ends P Q m)
      → (test ≡ false → Ends P Q n)
      → Ends P Q (if test then m else n)
  Ends-if test m n when_true when_false = elim (Bool-cases test) [
    | inl e ↦ rw e (when_true e)
    | inr e ↦ rw e (when_false e)
  ]

  pub Ends-bind :
      {B : Type 0} (R : A → W → Type 0) {Q : B → W → Type 0} (step : Effect W A)
      (rest : A → Effect W B)
      → Ends P R step
      → ((x : A) → Ends (R x) Q (rest x))
      → Ends P Q (step >>= rest)
  unfolding ◌>>=◌
  Ends-bind R {Q} step rest first then_on = record {
    reached = λ w h y e.
        let (answer, w') = step w in
        after_returned R Q rest answer w' (first.reached w h) then_on y e;
  }
