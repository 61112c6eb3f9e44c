-- ===== src/Base/Bits.antt =====
-- A number whose low bits are clear, joined with a smaller one by `bit_or`.
use Prim.Native.Nat.{
  ℕ, zero, suc, ◌+◌, ◌*◌, ◌/◌, ◌^◌, ◌≤◌, ◌<◌, max, bit_or, digits, bit_or-bitwise,
}
use mathlib.Core.Path.{◌≡◌, refl, ap, ◌∙◌}
use native.Mathlib.Omega.{arith}

-- The native operation as it computes, with `fuel` for its first number.
joined :
    (fuel k high a low : ℕ)
    → a ≡ high * 2 ^ k
    → low < 2 ^ k
    → a ≤ fuel
    → digits (λ bit. bit) max fuel a low ≡ a + low
joined zero k high zero low clear small enough = omega arith
joined zero k high (suc a) low clear small enough = absurd (omega arith)
joined (suc fuel) k high zero low clear small enough = omega arith
joined (suc fuel) zero high (suc a) low clear small enough = omega (
  arith,
  joined fuel zero (suc a / 2) (suc a / 2) (low / 2) (omega arith) (omega arith) (omega arith),
)
joined (suc fuel) (suc k) high (suc a) low clear small enough = omega (
  arith,
  joined fuel k high (suc a / 2) (low / 2) (omega (arith, even)) (omega arith) (omega arith),
  even,
)
  where
    twice : 2 ^ suc k ≡ 2 * 2 ^ k
    twice = omega arith

    even : suc a ≡ 2 * (high * 2 ^ k)
    even = omega (arith, clear, ap (λ (t : ℕ). high * t) twice)

-- A high part shifted over a low part that fits below it.
pub bit_or-eq-add : (k high low : ℕ) → low < 2 ^ k → bit_or (high * 2 ^ k) low ≡ high * 2 ^ k + low
bit_or-eq-add k high low small =
    bit_or-bitwise (high * 2 ^ k) low
    ∙ joined (high * 2 ^ k) k high (high * 2 ^ k) low refl small (omega arith)
