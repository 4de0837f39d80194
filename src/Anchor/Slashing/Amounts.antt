-- ===== src/Anchor/Slashing/Amounts.antt =====
-- The arithmetic of a slash: floor division, and how the amounts relate.
use soroban_cron.Common.{ℕ, ◌+◌, ◌-◌, ◌*◌, ◌/◌, ◌≤◌, ◌<◌, ◌≡◌, refl, arith}
use soroban_cron.Common.Int.{pos, i128_half, sub_i128, add_i128}
use soroban_cron.Anchor.Slashing.{slash_of, secondary_of}

-- A non-negative sum or difference within the range is exact.
pub add_i128-pos : (a b : ℕ) → a + b < i128_half → add_i128 (pos a) (pos b) ≡ pos (a + b)
unfolding add_i128
add_i128-pos a b h = ground arith

pub sub_i128-pos : (a b : ℕ) → b ≤ a → a < i128_half → sub_i128 (pos a) (pos b) ≡ pos (a - b)
unfolding sub_i128
sub_i128-pos a b h k = ground arith

-- With room for the multiplication by 5, a slash is the floor of 5 %.
pub slash_of-pos : (n : ℕ) → n * 5 < i128_half → slash_of (pos n) ≡ pos (n * 5 / 100)
unfolding slash_of
slash_of-pos n h = ground arith

pub secondary_of-pos : (n : ℕ) → secondary_of (pos n) ≡ pos (n / 2)
unfolding secondary_of
secondary_of-pos n = refl

-- What is left of a stake is its ceiling of 95 %.
pub left_of-pos :
    (n : ℕ) → n * 5 < i128_half → sub_i128 (pos n) (slash_of (pos n)) ≡ pos (n - n * 5 / 100)
left_of-pos n h = rw (slash_of-pos n h) (sub_i128-pos n (n * 5 / 100) (omega arith) (omega arith))

-- The treasury's part is the slash without the secondary keeper's.
pub portion-pos :
    (n : ℕ)
    → n * 5 < i128_half
    → sub_i128 (slash_of (pos n)) (secondary_of (slash_of (pos n)))
      ≡ pos (n * 5 / 100 - n * 5 / 100 / 2)
portion-pos n m =
    rw (slash_of-pos n m, secondary_of-pos (n * 5 / 100))
      (sub_i128-pos (n * 5 / 100) (n * 5 / 100 / 2) (omega arith) (omega arith))
