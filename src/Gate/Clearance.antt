-- ===== src/Gate/Clearance.antt =====
-- What the two guards of an automatic merge have seen when they let it pass, and that they always answer.
use scamanager.Prelude.{
  ℕ, ◌≡◌, refl, sym, ap, subst, ◌⊎◌, inl, inr, String, Option, none, some, Bool, true, false, List,
  [], ◌∷◌, if◌then◌else◌, length,
}
use scamanager.Prelude.Effects.{Answer, returned, send_error, unexpected, continue, ◌>>=◌, pure}
use scamanager.Gate.World.{post_comment, GateEnv, GateWorld, Gate, call}
use scamanager.Gate.Guards.{
  on_any_error, sensitive_paths_in, withhold, holds_back, listed_names, sensitive_paths_block_merge,
}

-- A step that answers, whatever it calls.
abbrev pub Answers : {A : Type 0} → Gate A → Type 0
Answers {A} m = (w : GateWorld) → (x : A) × ((m w).0 ≡ returned x)

module _ {A B : Type 0} where
  -- A returned value is handed on.
  pub bind_returned :
      (m : Gate A) (f : A → Gate B) (w : GateWorld) (x : A)
      → (m w).0 ≡ returned x
      → (m >>= f) w ≡ f x (m w).1
  unfolding ◌>>=◌
  bind_returned m f w x e = rw e refl

pub on_any_error-Answers : {A : Type 0} (other : A) (m : Gate A) → Answers (on_any_error other m)
unfolding on_any_error
on_any_error-Answers {A} other m w = by_answer (m w).0
  where
    by_answer : (a : Answer A) → (x : A) × ((on_any_error other (λ v. (a, v)) w).0 ≡ returned x)
    by_answer (returned a) = (a, refl)
    by_answer send_error = (other, refl)
    by_answer unexpected = (other, refl)

-- Where the handler gives another value than its own, the step returned it.
pub on_any_error_returned :
    {A : Type 0} (other : A) (m : Gate A) (w : GateWorld) (x : A)
    → (on_any_error other m w).0 ≡ returned x
    → ((m w).0 ≡ returned x) ⊎ (x ≡ other)
unfolding on_any_error
on_any_error_returned {A} other m w x e = by_answer (m w).0 e
  where
    by_answer :
        (a : Answer A)
        → (on_any_error other (λ v. (a, v)) w).0 ≡ returned x
        → (a ≡ returned x) ⊎ (x ≡ other)
    by_answer (returned a) e' = inl e'
    by_answer send_error e' = inr cc
    by_answer unexpected e' = inr cc

-- An answered question, with its answer's meaning where it is False.
abbrev pub IsDecided : Type 0 → Answer Bool → Type 0
IsDecided Passed a = (a ≡ returned true) ⊎ ((a ≡ returned false) × Passed)

pub IsDecided-after :
    {A : Type 0} (Passed : Type 0) (m : Gate A) (f : A → Gate Bool) (w : GateWorld) (x : A)
    → (m w).0 ≡ returned x
    → IsDecided Passed (f x (m w).1).0
    → IsDecided Passed ((m >>= f) w).0
IsDecided-after Passed m f w x e h =
    subst (λ r. IsDecided Passed r.0) (sym (bind_returned m f w x e)) h

pub IsDecided-if :
    (Passed : Type 0) (b : Bool) (m n : Gate Bool) (w : GateWorld)
    → (b ≡ true → IsDecided Passed (m w).0)
    → (b ≡ false → IsDecided Passed (n w).0)
    → IsDecided Passed ((if b then m else n) w).0
IsDecided-if Passed true m n w h k = h refl
IsDecided-if Passed false m n w h k = k refl

module _ (env : GateEnv) (repo : String) (pr : ℕ) where
  pub withhold_answers :
      (why : String) (w : GateWorld) → (withhold env repo pr why w).0 ≡ returned true
  unfolding withhold pure
  withhold_answers why w =
      let (u, e) = on_any_error-Answers tt (call env (post_comment repo pr why) env.done) w in
      ap (λ r. r.0)
        (bind_returned (on_any_error tt (call env (post_comment repo pr why) env.done))
          (λ _. pure true) w u e)

  -- The guard of paths is switched off, or GitHub listed the files and none of them is sensitive.
  abbrev pub PathsPassed : Type 0
  PathsPassed =
      (env.settings.sensitive_path_guard_disabled ≡ true)
      ⊎ ((t : ℕ) × (names : List String) × (env.filenames t repo pr ≡ returned names)
          × (sensitive_paths_in env.is_sensitive names ≡ []))

  -- A list that came from GitHub.
  AreListed : Option (List String) → Type 0
  AreListed none = Unit {0}
  AreListed (some names) = (t : ℕ) × (env.filenames t repo pr ≡ returned names)

  listed_names-AreListed :
      (w : GateWorld)
      → (o : Option (List String)) × ((listed_names env repo pr w).0 ≡ returned o) × AreListed o
  unfolding listed_names on_any_error call ◌>>=◌ pure AreListed
  listed_names-AreListed w = by_answer (env.filenames (length w.calls) repo pr) refl _
    where
      by_answer :
          (a : Answer (List String))
          → env.filenames (length w.calls) repo pr ≡ a
          → (w1 : GateWorld)
          → (o : Option (List String)) × ((on_any_error none
                (λ _. continue a (λ names. pure (some names)) w1)
                w1).0
              ≡ returned o)
            × AreListed o
      by_answer (returned names) e w1 = (some names, refl, (length w.calls, e))
      by_answer send_error e w1 = (none, refl, tt)
      by_answer unexpected e w1 = (none, refl, tt)

  holds_back-IsDecided :
      (o : Option (List String)) (w : GateWorld)
      → AreListed o
      → IsDecided PathsPassed (holds_back env repo pr o w).0
  unfolding AreListed pure
  holds_back-IsDecided none w h = inl refl
  holds_back-IsDecided (some names) w (t, e) =
      by_hits (sensitive_paths_in env.is_sensitive names) refl
    where
      by_hits :
          (hits : List String)
          → sensitive_paths_in env.is_sensitive names ≡ hits
          → IsDecided PathsPassed
              ((elim hits as (λ _. Gate Bool) [
                | [] ↦ pure false
                | _ ∷ _ ↦ withhold env repo pr "sensitive_path_hold"
              ])
                w).0
      by_hits [] clear = inr (refl, inr (t, names, e, clear))
      by_hits (x ∷ xs) found = inl (withhold_answers "sensitive_path_hold" w)

  -- The guard of paths always answers, whatever GitHub does: it withholds the merge, or it is switched off,
  -- or GitHub listed the files and none of them is sensitive.
  pub sensitive_paths-IsDecided :
      (w : GateWorld) → IsDecided PathsPassed (sensitive_paths_block_merge env repo pr w).0
  unfolding sensitive_paths_block_merge pure
  sensitive_paths-IsDecided w =
      let (o, answered, listed) = listed_names-AreListed w in
      IsDecided-if PathsPassed env.settings.sensitive_path_guard_disabled _ _ w
        (λ e. inr (refl, inl e))
        (λ e.
          IsDecided-after PathsPassed (listed_names env repo pr) (holds_back env repo pr) w o
            answered (holds_back-IsDecided o (listed_names env repo pr w).1 listed))
