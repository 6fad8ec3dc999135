-- ===== src/Prelude/Text.antt =====
-- Python's text operations that the program uses: `split(":")[0]`, `strip()`, and a number in an
-- f-string. A `String` is a list of characters.
use Prim.Native.Nat.{ℕ, zero, suc, ◌/◌, ◌%◌}
use Prim.Native.String.append
use Prim.Native.Char.{code}
use Prim.Native.String.{String, [], ◌∷◌, ◌++◌}
use mathlib.Core.Path.{◌≡◌, refl, ap, ◌∙◌}
use mathlib.Core.Bool.{Bool, true, false, not, ◌&&◌, ◌||◌}
use native.Mathlib.Omega.{arith}
use scamanager.Prelude.Tests.{ltb, leb, ◌==◌, if◌then◌else◌, and_left, and_right}

-- The characters that `str.strip` removes (`str.isspace`).
abbrev pub is_space : ℕ → Bool
is_space c =
    leb 9 c && leb c 13
    || leb 28 c && leb c 32
    || c == 133
    || c == 160
    || c == 5760
    || leb 8192 c && leb c 8202
    || c == 8232
    || c == 8233
    || c == 8239
    || c == 8287
    || c == 12288

-- The part in front of the first colon, or the whole text.
unfoldable pub before_colon : String → String
before_colon [] = []
before_colon (c ∷ s) = let rest = c ∷ before_colon s in if code c == b':' then [] else rest

unfoldable pub left_strip : String → String
left_strip [] = []
left_strip (c ∷ s) = let rest = left_strip s in if is_space (code c) then rest else c ∷ s

abbrev pub is_empty : String → Bool
is_empty [] = true
is_empty (c ∷ s) = false

-- `s.startswith(prefix)`, and `part in s`.
unfoldable pub starts_with : String → String → Bool
starts_with [] s = true
starts_with (c ∷ p) [] = false
starts_with (c ∷ p) (d ∷ s) = code c == code d && starts_with p s

unfoldable pub is_part_of : String → String → Bool
unfolding starts_with
is_part_of part [] = is_empty part
is_part_of part (c ∷ s) = starts_with part (c ∷ s) || is_part_of part s

abbrev pub join : String → String → String
join s t = s ++ t

-- A space goes only where nothing but spaces follows it.
unfoldable pub right_strip : String → String
right_strip [] = []
right_strip (c ∷ s) =
    let rest = right_strip s in if is_empty rest && is_space (code c) then [] else c ∷ rest

unfoldable pub strip : String → String
unfolding left_strip right_strip
strip s = right_strip (left_strip s)

-- A character that a tag may have: no colon and no space.
abbrev pub is_plain : ℕ → Bool
is_plain c = not (c == b':') && not (is_space c)

abbrev pub all_plain : String → Bool
all_plain [] = true
all_plain (c ∷ s) = is_plain (code c) && all_plain s

is_refuted : (b : Bool) → not b ≡ true → b ≡ false
is_refuted b h = ground arith

plain-colon : (c : ℕ) → is_plain c ≡ true → (c == b':') ≡ false
plain-colon c h = is_refuted (c == b':') (and_left _ _ h)

plain-space : (c : ℕ) → is_plain c ≡ true → is_space c ≡ false
plain-space c h = is_refuted (is_space c) (and_right _ _ h)

-- A text of plain characters in front of a colon is what `before_colon` finds.
pub before_colon-append : (s t : String) → all_plain s ≡ true → before_colon (s ++ (":" ++ t)) ≡ s
unfolding before_colon
before_colon-append [] t h = rw append.nil (unfold before_colon in rw append.cons)
before_colon-append (c ∷ s) t h = rw append.cons (
    rw (plain-colon (code c) (and_left _ _ h))
      (ap (λ r. c ∷ r) (before_colon-append s t (and_right (is_plain (code c)) _ h))))

pub before_colon-plain : (s : String) → all_plain s ≡ true → before_colon s ≡ s
unfolding before_colon
before_colon-plain [] h = refl
before_colon-plain (c ∷ s) h =
    rw (plain-colon (code c) (and_left _ _ h))
      (ap (λ r. c ∷ r) (before_colon-plain s (and_right (is_plain (code c)) _ h)))

and_false : (b : Bool) → (b && false) ≡ false
and_false b = ground arith

right_strip-plain : (s : String) → all_plain s ≡ true → right_strip s ≡ s
unfolding right_strip
right_strip-plain [] h = refl
right_strip-plain (c ∷ s) h = rw (plain-space (code c) (and_left _ _ h)) (
    rw (and_false (is_empty (right_strip s)))
      (ap (λ r. c ∷ r) (right_strip-plain s (and_right (is_plain (code c)) _ h))))

pub strip-plain : (s : String) → all_plain s ≡ true → strip s ≡ s
unfolding strip
strip-plain [] h = refl
strip-plain (c ∷ s) h = rw (plain-space (code c) (and_left _ _ h)) (right_strip-plain (c ∷ s) h)

-- A number in decimal digits.
digit : ℕ → String
digit d =
    if d == 0
    then "0"
    else if d == 1
    then "1"
    else if d == 2
    then "2"
    else if d == 3
    then "3"
    else if d == 4
    then "4"
    else if d == 5
    then "5"
    else if d == 6
    then "6"
    else if d == 7
    then "7"
    else if d == 8
    then "8"
    else "9"

decimal : ℕ → ℕ → String
decimal zero n = ""
decimal (suc fuel) n =
    let rest = decimal fuel (n / 10) in if ltb n 10 then digit n else rest ++ digit (n % 10)

unfoldable pub show_int : ℕ → String
unfolding digit decimal
show_int n = decimal (suc n) n

pub all_plain-append :
    (s t : String) → all_plain s ≡ true → all_plain t ≡ true → all_plain (s ++ t) ≡ true
all_plain-append [] t h k = ap all_plain (append.nil t) ∙ k
all_plain-append (c ∷ s) t h k =
    rw (append.cons, and_left (is_plain (code c)) (all_plain s) h)
      (all_plain-append s t (and_right (is_plain (code c)) _ h) k)

plain-if :
    (b : Bool) (s t : String)
    → all_plain s ≡ true
    → all_plain t ≡ true
    → all_plain (if b then s else t) ≡ true
plain-if true s t h k = h
plain-if false s t h k = k

digit-plain : (d : ℕ) → all_plain (digit d) ≡ true
unfolding digit
digit-plain d = search (plain-if, refl) depth 12

decimal-plain : (fuel n : ℕ) → all_plain (decimal fuel n) ≡ true
unfolding decimal
decimal-plain zero n = refl
decimal-plain (suc fuel) n = plain-if (ltb n 10) _ _ (digit-plain n) (
    all_plain-append (decimal fuel (n / 10)) (digit (n % 10)) (decimal-plain fuel (n / 10))
      (digit-plain (n % 10)))

pub show_int-plain : (n : ℕ) → all_plain (show_int n) ≡ true
unfolding show_int
show_int-plain n = decimal-plain (suc n) n
