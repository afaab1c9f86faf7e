-- ===== src/Prelude/Int.antt =====
-- The C `int` values that the runtime computes with, as integers over the native numbers (the
-- library's ℤ stands on the unary ℕ), and their conversions to unsigned words.
use Prim.Native.Nat.{ℕ, zero, suc, ◌+◌, ◌-◌, ◌%◌, ◌^◌, ◌<◌}
use mathlib.Core.Path.{◌≡◌, ap}
use mathlib.Core.Bool.{Bool, true, false}
use mathlib.Core.Option.{Option, none, some}
use native.Mathlib.Omega.{arith}
use xkomp.Prelude.Tests.{ltb, leb, ◌==◌, if◌then◌else◌}

-- `negsuc n` is -(n + 1).
pub data ℤ : Type 0 where
  pos : ℕ → ℤ
  negsuc : ℕ → ℤ

abbrev pub pos_part : ℤ → ℕ
pos_part (pos n) = n
pos_part (negsuc n) = 0

abbrev pub neg_part : ℤ → ℕ
neg_part (pos n) = 0
neg_part (negsuc n) = suc n

-- a - b, as an integer.
abbrev pub sub_ℕ : ℕ → ℕ → ℤ
sub_ℕ a b = if leb b a then pos (a - b) else negsuc (b - a - 1)

infixl 65 ◌+ℤ◌
infix 50 ◌==ℤ◌
abbrev pub ◌+ℤ◌ : ℤ → ℤ → ℤ
a +ℤ b = sub_ℕ (pos_part a + pos_part b) (neg_part a + neg_part b)

abbrev pub ◌==ℤ◌ : ℤ → ℤ → Bool
a ==ℤ b = pos_part a + neg_part b == pos_part b + neg_part a

abbrev pub ltb_ℤ : ℤ → ℤ → Bool
ltb_ℤ a b = ltb (pos_part a + neg_part b) (pos_part b + neg_part a)

-- `a % n` on `int` for a divisor `n` that is not negative: the sign is that of `a`, and the
-- remainder by zero is undefined.
abbrev pub rem : ℤ → ℕ → Option ℤ
rem (pos a) zero = none
rem (pos a) (suc n) = some (pos (a % suc n))
rem (negsuc a) zero = none
rem (negsuc a) (suc n) = some (sub_ℕ 0 (suc a % suc n))

abbrev pub u32_mod : ℕ
u32_mod = 2 ^ 32

-- The conversion from `int` to `unsigned int`: the residue modulo 2 ^ 32.
abbrev pub to_u32 : ℤ → ℕ
to_u32 (pos n) = n % u32_mod
to_u32 (negsuc n) = u32_mod - 1 - n % u32_mod

-- The conversion from `unsigned int` to `int`, which keeps the bits.
abbrev pub to_i32 : ℕ → ℤ
to_i32 w = if ltb w (2 ^ 31) then pos w else negsuc (u32_mod - w - 1)

pub to_u32-lt : (a : ℤ) → to_u32 a < u32_mod
to_u32-lt (pos n) = omega arith
to_u32-lt (negsuc n) = omega arith

pub to_u32-to_i32 : (w : ℕ) → w < u32_mod → to_u32 (to_i32 w) ≡ w
to_u32-to_i32 w h = ground arith

pub to_i32-injective : (v w : ℕ) → v < u32_mod → w < u32_mod → (to_i32 v ==ℤ to_i32 w) ≡ (v == w)
to_i32-injective v w p q = ground arith

pub ==ℤ_eq : (a b : ℤ) → (a ==ℤ b) ≡ true → a ≡ b
==ℤ_eq (pos a) (pos b) h = ground arith
==ℤ_eq (pos a) (negsuc b) h = ground arith
==ℤ_eq (negsuc a) (pos b) h = ground arith
==ℤ_eq (negsuc a) (negsuc b) h = ground arith

pub ==ℤ_refl : (a : ℤ) → (a ==ℤ a) ≡ true
==ℤ_refl a = ground arith

pub ==ℤ_ne : (a b : ℤ) → (a ==ℤ b) ≡ false → a ≡ b → ⊥
==ℤ_ne a b h e = cc (h, ==ℤ_refl b, ap (λ z. z ==ℤ b) e)
