-- ===== src/Prelude/Effects.antt =====
-- Steps on a state that may raise, as the asynchronous functions of the program are modelled.
-- A call returns, fails to reach the other side, or raises anything else.
pub data Answer (A : Type 0) : Type 0 where
  returned : A → Answer A
  send_error : Answer A
  unexpected : Answer A

-- A step that may raise; what it wrote before the raise stays written.
abbrev pub Effect : Type 0 → Type 0 → Type 0
Effect W A = W → Answer A × W

module _ {W : Type 0} where
  abbrev pub continue : {A B : Type 0} → Answer A → (A → Effect W B) → Effect W B
  continue (returned a) f w = f a w
  continue send_error f w = (send_error, w)
  continue unexpected f w = (unexpected, w)

  infixl 10 ◌>>=◌ ◌>>◌
  unfoldable pub ◌>>=◌ : {A B : Type 0} → Effect W A → (A → Effect W B) → Effect W B
  ◌>>=◌ m f w = let (a, w') = m w in continue a f w'

  abbrev pub ◌>>◌ : {A B : Type 0} → Effect W A → Effect W B → Effect W B
  m >> n = m >>= λ _. n

  unfoldable pub pure : {A : Type 0} → A → Effect W A
  pure a w = (returned a, w)
