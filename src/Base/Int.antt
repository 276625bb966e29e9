-- ===== src/Base/Int.antt =====
-- The integers that an `i32` ranges over. `negsuc n` is -(n + 1); its range is a separate fact.
use freematics_gui.Base.Tests.{ltb, if◌then◌else◌}
use Prim.Native.Nat.{ℕ, suc, ◌+◌, ◌-◌, ◌^◌, ◌≤◌, ◌<◌}
use mathlib.Core.Bool.{Bool}

pub data ℤ : Type 0 where
  pos : ℕ → ℤ
  negsuc : ℕ → ℤ

abbrev pub pos_part : ℤ → ℕ
pos_part (pos n) = n
pos_part (negsuc n) = 0

abbrev pub neg_part : ℤ → ℕ
neg_part (pos n) = 0
neg_part (negsuc n) = suc n

-- -n
abbrev pub neg : ℕ → ℤ
neg n = if ltb 0 n then negsuc (n - 1) else pos 0

abbrev pub ltb_ℤ : ℤ → ℤ → Bool
ltb_ℤ a b = ltb (pos_part a + neg_part b) (pos_part b + neg_part a)

infix 50 ◌≤ℤ◌
abbrev pub ◌≤ℤ◌ : ℤ → ℤ → Type 0
a ≤ℤ b = pos_part a + neg_part b ≤ pos_part b + neg_part a

-- What fits `i32`.
abbrev pub IsI32 : ℤ → Type 0
IsI32 a = (pos_part a < 2 ^ 31) × (neg_part a ≤ 2 ^ 31)
