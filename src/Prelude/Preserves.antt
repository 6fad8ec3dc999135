-- ===== src/Prelude/Preserves.antt =====
-- What a step leaves true: one rule for each way to build a step.
use mathlib.Core.Path.{◌≡◌, refl}
use mathlib.Core.Bool.{Bool, true, false}
use mathlib.Core.Logic.{inl, inr}
use scamanager.Prelude.Tests.{Bool-cases, if◌then◌else◌}
use scamanager.Prelude.Effects.{
  Answer, returned, send_error, unexpected, Effect, continue, ◌>>=◌, pure,
}

-- Where `P` holds of the world before the step it holds of the world that the step leaves, also if the
-- step raises.
pub record Preserves {W : Type 0} (P : W → Type 0) {A : Type 0} (step : Effect W A) : Type 0 where
  pub left : (w : W) → P w → P (step w).1

module _ {W : Type 0} {P : W → Type 0} {A : Type 0} where
  pub Preserves-pure : (x : A) → Preserves P (pure x)
  unfolding pure
  Preserves-pure x = record { left = λ w held. held }

  pub Preserves-if :
      (test : Bool) (holds fails : Effect W A)
      → (test ≡ true → Preserves P holds)
      → (test ≡ false → Preserves P fails)
      → Preserves P (if test then holds else fails)
  Preserves-if test holds fails when_true when_false = elim (Bool-cases test) [
    | inl e ↦ rw e (when_true e)
    | inr e ↦ rw e (when_false e)
  ]

  -- The rest may use what a returned value says.
  after_answer :
      {B : Type 0} (rest : A → Effect W B) (answer : Answer A) (w : W)
      → P w
      → ((x : A) → answer ≡ returned x → Preserves P (rest x))
      → P (continue answer rest w).1
  after_answer rest (returned x) w held goes_on = (goes_on x refl).left w held
  after_answer rest send_error w held goes_on = held
  after_answer rest unexpected w held goes_on = held

  pub Preserves-bind_from :
      {B : Type 0} (R : A → Type 0) (step : Effect W A) (rest : A → Effect W B)
      → ((w : W) → P w → (x : A) → (step w).0 ≡ returned x → R x)
      → Preserves P step
      → ((x : A) → R x → Preserves P (rest x))
      → Preserves P (step >>= rest)
  unfolding ◌>>=◌
  Preserves-bind_from R step rest says first then_on = record {
    left = λ w held.
        let (answer, w') = step w in
        after_answer rest answer w' (first.left w held) (λ x e. then_on x (says w held x e));
  }

  pub Preserves-bind_when :
      {B : Type 0} (R : A → Type 0) (step : Effect W A) (rest : A → Effect W B)
      → ((w : W) (x : A) → (step w).0 ≡ returned x → R x)
      → Preserves P step
      → ((x : A) → R x → Preserves P (rest x))
      → Preserves P (step >>= rest)
  Preserves-bind_when R step rest says first then_on =
      Preserves-bind_from R step rest (λ w h x e. says w x e) first then_on

  pub Preserves-bind :
      {B : Type 0} (step : Effect W A) (rest : A → Effect W B)
      → Preserves P step
      → ((x : A) → Preserves P (rest x))
      → Preserves P (step >>= rest)
  Preserves-bind step rest first then_on =
      Preserves-bind_when (λ _. Unit {0}) step rest (λ w x e. tt) first (λ x _. then_on x)

pub ruleset preserves_rules = (Preserves-pure, Preserves-if, Preserves-bind)
