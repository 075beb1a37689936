-- ===== src/Core/SpscQueue/Mask.antt =====
-- The mask of a power of two as the step from one index of a ring to the next.
use Prim.Native.Nat.{bit_and, digits, bit_and-bitwise}
use cubesat_fsw_gnc.Prelude.{
  ℕ, zero, suc, ◌+◌, ◌-◌, ◌/◌, ◌^◌, ◌≤◌, ◌<◌, min, ◌≡◌, refl, arith, if◌then◌else◌, ◌==◌,
}

-- The next index of a ring, without bits.
unfoldable pub step : ℕ → ℕ → ℕ
step capacity i = if suc i == capacity then 0 else suc i

abbrev and_upto : ℕ → ℕ → ℕ → ℕ
and_upto n a b = digits (λ b. zero) min n a b

and_upto-zero : (n mask : ℕ) → and_upto n 0 mask ≡ 0
and_upto-zero zero mask = refl
and_upto-zero (suc n) mask = refl

pub power-positive : (k : ℕ) → 1 ≤ 2 ^ k
power-positive zero = omega arith
power-positive (suc k) = omega (arith, power-positive k)

-- Below the power, the mask keeps a number.
mask_below : (k n x mask : ℕ) → suc mask ≡ 2 ^ k → x ≤ mask → x ≤ n → and_upto n x mask ≡ x
mask_below k zero zero mask e h l = refl
mask_below k zero (suc x) mask e h l = absurd (omega arith)
mask_below k (suc n) zero mask e h l = refl
mask_below zero (suc n) (suc x) mask e h l = absurd (omega arith)
mask_below (suc k) (suc n) (suc x) mask e h l = omega (
  arith,
  power-positive k,
  mask_below k n (suc x / 2) (mask / 2) (omega (arith, power-positive k)) (omega arith)
      (omega arith),
)

-- At the power itself, the mask leaves nothing.
mask_at : (k n x mask : ℕ) → suc mask ≡ 2 ^ k → x ≡ 2 ^ k → x ≤ n → and_upto n x mask ≡ 0
mask_at k zero x mask e h l = refl
mask_at k (suc n) zero mask e h l = refl
mask_at zero (suc n) (suc zero) mask e h l = omega (arith, and_upto-zero n (mask / 2))
mask_at zero (suc n) (suc (suc x)) mask e h l = absurd (omega arith)
mask_at (suc k) (suc n) (suc x) mask e h l = omega (
  arith,
  power-positive k,
  mask_at k n (suc x / 2) (mask / 2) (omega (arith, power-positive k))
      (omega (arith, power-positive k)) (omega arith),
)

pub bit_and-step : (k i : ℕ) → i < 2 ^ k → bit_and (i + 1) (2 ^ k - 1) ≡ step (2 ^ k) i
unfolding step
bit_and-step k i h = ground (
  arith,
  power-positive k,
  bit_and-bitwise (i + 1) (2 ^ k - 1),
  mask_at k (i + 1) (i + 1) (2 ^ k - 1),
  mask_below k (i + 1) (i + 1) (2 ^ k - 1),
)
