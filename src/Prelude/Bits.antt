-- ===== src/Prelude/Bits.antt =====
-- `|` of a shifted high part and a low part that fits below it, as a sum.
use Prim.Native.Nat.{ℕ, zero, suc, ◌+◌, ◌*◌, ◌/◌, ◌^◌, ◌≤◌, ◌<◌, bit_or}
use mathlib.Core.Path.{◌≡◌, refl, ap}
use native.Mathlib.Nat.{pow-suc}
use native.Mathlib.Omega.{arith}
use libkzr.Prelude.Binary.{or_step}

bit_or-zero_depth : (n a : ℕ) → a ≤ n → bit_or a 0 ≡ a
bit_or-zero_depth n zero h = refl
bit_or-zero_depth zero (suc a) h = absurd (omega arith)
bit_or-zero_depth (suc n) (suc a) h =
    omega (arith, or_step (suc a) 0, bit_or-zero_depth n (suc a / 2) (omega arith))

pub bit_or-shifted : (k high low : ℕ) → low < 2 ^ k → bit_or (high * 2 ^ k) low ≡ high * 2 ^ k + low
bit_or-shifted zero high low h =
    let empty : low ≡ 0 = omega arith in
    omega (
      arith,
      bit_or-zero_depth high high (omega arith),
      ap (λ (t : ℕ). bit_or (high * 1) t) empty,
      ap (λ (t : ℕ). bit_or t 0) (one high),
    )
  where
    one : (t : ℕ) → t * 1 ≡ t
    one t = omega arith
bit_or-shifted (suc k) high low h = omega (
  arith,
  or_step (high * 2 ^ suc k) low,
  doubled,
  ap (λ (t : ℕ). bit_or t (low / 2)) half,
  bit_or-shifted k high (low / 2) (omega (arith, pow-suc 2 k)),
)
  where
    doubled : high * 2 ^ suc k ≡ 2 * (high * 2 ^ k)
    doubled = omega (arith, ap (λ (t : ℕ). high * t) (pow-suc 2 k))

    half : high * 2 ^ suc k / 2 ≡ high * 2 ^ k
    half = omega (arith, doubled)
