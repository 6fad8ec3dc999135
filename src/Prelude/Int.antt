-- ===== src/Prelude/Int.antt =====
-- Signed numbers: `negsuc n` is -(n + 1).
use Prim.Native.Nat.{ℕ, suc, ◌+◌, ◌-◌, max}
use mathlib.Core.Bool.{Bool, true, false}
use scamanager.Prelude.Tests.{leb}

pub data ℤ : Type 0 where
  pos : ℕ → ℤ
  negsuc : ℕ → ℤ

abbrev pub magnitude : ℤ → ℕ
magnitude (pos n) = n
magnitude (negsuc n) = suc n

abbrev pub leb_int : ℤ → ℤ → Bool
leb_int (pos m) (pos n) = leb m n
leb_int (pos m) (negsuc n) = false
leb_int (negsuc m) (pos n) = true
leb_int (negsuc m) (negsuc n) = leb n m

-- `max(base + offset, floor)` of a natural floor.
abbrev pub add_at_least : ℕ → ℕ → ℤ → ℕ
add_at_least floor base (pos n) = max (base + n) floor
add_at_least floor base (negsuc n) = max (base - suc n) floor
