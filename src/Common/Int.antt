-- ===== src/Common/Int.antt =====
-- Signed integers over the native numbers, and Rust's `i128` as the integers that it wraps to.
use Prim.Native.Nat.{ℕ, suc, ◌+◌, ◌-◌, ◌*◌, ◌/◌, ◌%◌, ◌^◌, ◌≤◌, ◌<◌}
use mathlib.Core.Path.{◌≡◌}
use mathlib.Core.Bool.{Bool}
use native.Mathlib.Omega.{arith}
use soroban_cron.Common.Tests.{ltb, leb, ◌==◌, if◌then◌else◌}

-- `negsuc n` is -(n + 1).
pub data ℤ : Type 0 where
  pos : ℕ → ℤ
  negsuc : ℕ → ℤ

abbrev pub pos_part : ℤ → ℕ
pos_part (pos n) = n
pos_part (negsuc n) = 0

abbrev pub neg_part : ℤ → ℕ
neg_part (pos n) = 0
neg_part (negsuc n) = suc n

-- a - b, as an integer.
abbrev pub sub_ℕ : ℕ → ℕ → ℤ
sub_ℕ a b = if leb b a then pos (a - b) else negsuc (b - a - 1)

infixl 65 ◌+ℤ◌ ◌-ℤ◌
infixl 70 ◌*ℤ◌
infix 50 ◌≤ℤ◌ ◌<ℤ◌
unfoldable pub ◌+ℤ◌ : ℤ → ℤ → ℤ
a +ℤ b = sub_ℕ (pos_part a + pos_part b) (neg_part a + neg_part b)

unfoldable pub ◌-ℤ◌ : ℤ → ℤ → ℤ
a -ℤ b = sub_ℕ (pos_part a + neg_part b) (neg_part a + pos_part b)

unfoldable pub ◌*ℤ◌ : ℤ → ℤ → ℤ
a *ℤ b =
    sub_ℕ (pos_part a * pos_part b + neg_part a * neg_part b)
      (pos_part a * neg_part b + neg_part a * pos_part b)

-- Division by a positive constant, rounded toward zero as Rust's `/` does.
unfoldable pub quot : ℤ → ℕ → ℤ
quot (pos n) d = pos (n / d)
quot (negsuc n) d = sub_ℕ 0 (suc n / d)

abbrev pub ◌≤ℤ◌ : ℤ → ℤ → Type 0
a ≤ℤ b = pos_part a + neg_part b ≤ pos_part b + neg_part a

abbrev pub ◌<ℤ◌ : ℤ → ℤ → Type 0
a <ℤ b = pos_part a + neg_part b < pos_part b + neg_part a

abbrev pub ltb_ℤ : ℤ → ℤ → Bool
ltb_ℤ a b = ltb (pos_part a + neg_part b) (pos_part b + neg_part a)

abbrev pub leb_ℤ : ℤ → ℤ → Bool
leb_ℤ a b = leb (pos_part a + neg_part b) (pos_part b + neg_part a)

abbrev pub eqb_ℤ : ℤ → ℤ → Bool
eqb_ℤ a b = pos_part a + neg_part b == pos_part b + neg_part a

pub +ℤ_parts :
    (a b : ℤ)
    → pos_part (a +ℤ b) + neg_part a + neg_part b ≡ neg_part (a +ℤ b) + pos_part a + pos_part b
unfolding ◌+ℤ◌
+ℤ_parts a b = ground arith

pub -ℤ_parts :
    (a b : ℤ)
    → pos_part (a -ℤ b) + neg_part a + pos_part b ≡ neg_part (a -ℤ b) + pos_part a + neg_part b
unfolding ◌-ℤ◌
-ℤ_parts a b = ground arith

pub eq_of_parts : (a b : ℤ) → pos_part a + neg_part b ≡ pos_part b + neg_part a → a ≡ b
eq_of_parts a b h = ground arith

pub ruleset int_laws = (arith, +ℤ_parts, -ℤ_parts, eq_of_parts)

abbrev pub i128_half : ℕ
i128_half = 2 ^ 127

-- What an `i128` can hold.
abbrev pub IsI128 : ℤ → Type 0
IsI128 z = (pos_part z < i128_half) × (neg_part z ≤ i128_half)

-- The residue of an integer modulo 2 ^ 128.
abbrev residue : ℤ → ℕ
residue (pos n) = n % 2 ^ 128
residue (negsuc n) = 2 ^ 128 - 1 - n % 2 ^ 128

abbrev signed : ℕ → ℤ
signed r = if ltb r i128_half then pos r else negsuc (2 ^ 128 - 1 - r)

-- A result outside the range wraps, as it does in a build without overflow checks.
unfoldable pub wrap_i128 : ℤ → ℤ
wrap_i128 z = signed (residue z)

pub wrap_i128-id : (z : ℤ) → IsI128 z → wrap_i128 z ≡ z
unfolding wrap_i128
wrap_i128-id z h = ground arith

pub wrap_i128-IsI128 : (z : ℤ) → IsI128 (wrap_i128 z)
unfolding wrap_i128
wrap_i128-IsI128 z = ground arith

unfoldable pub add_i128 : ℤ → ℤ → ℤ
unfolding ◌+ℤ◌ wrap_i128
add_i128 a b = wrap_i128 (a +ℤ b)

unfoldable pub sub_i128 : ℤ → ℤ → ℤ
unfolding ◌-ℤ◌ wrap_i128
sub_i128 a b = wrap_i128 (a -ℤ b)

unfoldable pub mul_i128 : ℤ → ℤ → ℤ
unfolding ◌*ℤ◌ wrap_i128
mul_i128 a b = wrap_i128 (a *ℤ b)

pub +ℤ-zero : (a : ℤ) → a +ℤ pos 0 ≡ a
+ℤ-zero a = omega int_laws

pub -ℤ-zero : (a : ℤ) → a -ℤ pos 0 ≡ a
-ℤ-zero a = omega int_laws
