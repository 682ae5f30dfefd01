-- ===== src/Prelude/Binary.antt =====
-- Numbers by their binary digits: what `&`, `|`, `~`, shifts and conversions do to each digit, and that
-- the digits determine the number.
use Prim.Native.Nat.{
  ℕ, zero, suc, ◌+◌, ◌-◌, ◌*◌, ◌/◌, ◌%◌, ◌^◌, ◌≤◌, ◌<◌, min, max, bit_and, bit_or, digits,
  bit_and-bitwise, bit_or-bitwise,
}
use mathlib.Core.Path.{◌≡◌, refl, ap, ap₂, ◌∙◌, sym}
use native.Mathlib.Nat.{
  pow-suc, pow-succ', one-le-pow, mod-lt, mod-eq_of_lt, mul-add-mod_self_left, div-add-mod,
  div-div-eq-div-mul,
}
use native.Mathlib.Omega.{arith}

-- Digit `i`, from the lowest.
unfoldable pub bit : ℕ → ℕ → ℕ
bit zero n = n % 2
bit (suc i) n = bit i (n / 2)

pub bit-le : (i n : ℕ) → bit i n ≤ 1
unfolding bit
bit-le zero n = omega arith
bit-le (suc i) n = bit-le i (n / 2)

pub bit-zero : (i : ℕ) → bit i 0 ≡ 0
unfolding bit
bit-zero zero = refl
bit-zero (suc i) = bit-zero i

-- The digit recursion of the native operations does not depend on its depth, once that is enough.
module _ (last : ℕ → ℕ) (op : ℕ → ℕ → ℕ) where
  pub digits_depth : (n m a b : ℕ) → a ≤ n → a ≤ m → digits last op n a b ≡ digits last op m a b
  digits_depth zero zero a b p q = refl
  digits_depth zero (suc m) zero b p q = refl
  digits_depth zero (suc m) (suc a) b p q = absurd (omega arith)
  digits_depth (suc n) zero zero b p q = refl
  digits_depth (suc n) zero (suc a) b p q = absurd (omega arith)
  digits_depth (suc n) (suc m) zero b p q = refl
  digits_depth (suc n) (suc m) (suc a) b p q =
      omega (arith, digits_depth n m (suc a / 2) (b / 2) (omega arith) (omega arith))

and_step : (a b : ℕ) → bit_and a b ≡ bit_and (a / 2) (b / 2) * 2 + min (a % 2) (b % 2)
and_step zero b = omega (arith, bit_and-bitwise 0 b, bit_and-bitwise 0 (b / 2))
and_step (suc a) b = omega (
  arith,
  bit_and-bitwise (suc a) b,
  bit_and-bitwise (suc a / 2) (b / 2),
  digits_depth (λ b. zero) min a (suc a / 2) (suc a / 2) (b / 2) (omega arith) (omega arith),
)

pub or_step : (a b : ℕ) → bit_or a b ≡ bit_or (a / 2) (b / 2) * 2 + max (a % 2) (b % 2)
or_step zero b = omega (arith, bit_or-bitwise 0 b, bit_or-bitwise 0 (b / 2))
or_step (suc a) b = omega (
  arith,
  bit_or-bitwise (suc a) b,
  bit_or-bitwise (suc a / 2) (b / 2),
  digits_depth (λ b. b) max a (suc a / 2) (suc a / 2) (b / 2) (omega arith) (omega arith),
)

pub bit-bit_and : (i a b : ℕ) → bit i (bit_and a b) ≡ min (bit i a) (bit i b)
unfolding bit
bit-bit_and zero a b = omega (arith, and_step a b)
bit-bit_and (suc i) a b =
    let half : bit_and a b / 2 ≡ bit_and (a / 2) (b / 2) = omega (arith, and_step a b) in
    ap (bit i) half ∙ bit-bit_and i (a / 2) (b / 2)

pub bit-bit_or : (i a b : ℕ) → bit i (bit_or a b) ≡ max (bit i a) (bit i b)
unfolding bit
bit-bit_or zero a b = omega (arith, or_step a b)
bit-bit_or (suc i) a b =
    let half : bit_or a b / 2 ≡ bit_or (a / 2) (b / 2) = omega (arith, or_step a b) in
    ap (bit i) half ∙ bit-bit_or i (a / 2) (b / 2)

-- Numbers with the same digits are the same.
bit_ext_below : (n a b : ℕ) → a ≤ n → b ≤ n → ((i : ℕ) → bit i a ≡ bit i b) → a ≡ b
unfolding bit
bit_ext_below zero a b p q same = omega arith
bit_ext_below (suc n) a b p q same =
    omega (
      arith,
      same 0,
      bit_ext_below n (a / 2) (b / 2) (omega arith) (omega arith) (λ i. same (suc i)),
    )

pub bit_ext : (a b : ℕ) → ((i : ℕ) → bit i a ≡ bit i b) → a ≡ b
bit_ext a b same = bit_ext_below (a + b) a b (omega arith) (omega arith) same

-- A number below 2 ^ w has no digit from `w` on.
pub bit_big : (w i n : ℕ) → n < 2 ^ w → w ≤ i → bit i n ≡ 0
unfolding bit
bit_big zero i n h le = let none : n ≡ 0 = omega arith in ap (bit i) none ∙ bit-zero i
bit_big (suc w) zero n h le = absurd (omega arith)
bit_big (suc w) (suc i) n h le = bit_big w i (n / 2) (omega (arith, pow-suc 2 w)) (omega arith)

-- Conversion to `w` digits.
mod_split : (n c : ℕ) → 0 < c → n % (2 * c) ≡ 2 * (n / 2 % c) + n % 2
mod_split n c pos =
    let q = n / 2 in
    let small : 2 * (q % c) + n % 2 < 2 * c = omega (arith, mod-lt q pos) in
    let split : n ≡ 2 * c * (q / c) + (2 * (q % c) + n % 2) = omega (arith, div-add-mod q c) in
    ap (λ (t : ℕ). t % (2 * c)) split
    ∙ (mul-add-mod_self_left (2 * c) (q / c) (2 * (q % c) + n % 2) ∙ mod-eq_of_lt small)

mod_pow_split : (w n : ℕ) → n % 2 ^ suc w ≡ 2 * (n / 2 % 2 ^ w) + n % 2
mod_pow_split w n =
    ap (λ (t : ℕ). n % t) (pow-succ' 2 w) ∙ mod_split n (2 ^ w) (one-le-pow w 2 (omega arith))

pub bit-mod_low : (w i n : ℕ) → i < w → bit i (n % 2 ^ w) ≡ bit i n
unfolding bit
bit-mod_low zero i n h = absurd (omega arith)
bit-mod_low (suc w) zero n h = omega (arith, mod_pow_split w n)
bit-mod_low (suc w) (suc i) n h =
    let half : n % 2 ^ suc w / 2 ≡ n / 2 % 2 ^ w = omega (arith, mod_pow_split w n) in
    ap (bit i) half ∙ bit-mod_low w i (n / 2) (omega arith)

pub bit-mod_high : (w i n : ℕ) → w ≤ i → bit i (n % 2 ^ w) ≡ 0
bit-mod_high w i n h = bit_big w i (n % 2 ^ w) (mod-lt n (one-le-pow w 2 (omega arith))) h

-- Shifts.
pub bit-shift_right : (s i n : ℕ) → bit i (n / 2 ^ s) ≡ bit (s + i) n
unfolding bit
bit-shift_right zero i n =
    let none : i ≡ 0 + i = omega arith in let same : n / 1 ≡ n = omega arith in ap₂ bit none same
bit-shift_right (suc s) i n =
    let next : suc (s + i) ≡ suc s + i = omega arith in
    let shifted : n / 2 ^ suc s ≡ n / 2 / 2 ^ s =
      ap (λ (t : ℕ). n / t) (pow-succ' 2 s) ∙ sym (div-div-eq-div-mul n 2 (2 ^ s)) in
    ap (bit i) shifted ∙ (bit-shift_right s i (n / 2) ∙ ap (λ (t : ℕ). bit t n) next)

pub bit-shift_left : (s i n : ℕ) → bit (s + i) (n * 2 ^ s) ≡ bit i n
unfolding bit
bit-shift_left zero i n =
    let none : 0 + i ≡ i = omega arith in let same : n * 1 ≡ n = omega arith in ap₂ bit none same
bit-shift_left (suc s) i n =
    let next : suc s + i ≡ suc (s + i) = omega arith in
    let half : n * 2 ^ suc s / 2 ≡ n * 2 ^ s = omega (arith, ap (λ (t : ℕ). n * t) (pow-suc 2 s)) in
    ap (λ (t : ℕ). bit t (n * 2 ^ suc s)) next ∙ (ap (bit (s + i)) half ∙ bit-shift_left s i n)

-- The complement in `w` digits.
pub bit-complement : (w i m : ℕ) → m < 2 ^ w → i < w → bit i (2 ^ w - 1 - m) ≡ 1 - bit i m
unfolding bit
bit-complement zero i m h lt = absurd (omega arith)
bit-complement (suc w) zero m h lt = omega (arith, pow-suc 2 w, one-le-pow w 2 (omega arith))
bit-complement (suc w) (suc i) m h lt =
    let half : (2 ^ suc w - 1 - m) / 2 ≡ 2 ^ w - 1 - m / 2 =
      omega (arith, pow-suc 2 w, one-le-pow w 2 (omega arith)) in
    ap (bit i) half ∙ bit-complement w i (m / 2) (omega (arith, pow-suc 2 w)) (omega arith)

-- `k` digits 1.
pub bit-ones_low : (k i : ℕ) → i < k → bit i (2 ^ k - 1) ≡ 1
bit-ones_low k i h =
    let whole : 2 ^ k - 1 - 0 ≡ 2 ^ k - 1 = omega arith in
    sym (ap (bit i) whole)
    ∙ (bit-complement k i 0 (one-le-pow k 2 (omega arith)) h ∙ ap (λ t. 1 - t) (bit-zero i))

-- Below the shift there are no digits.
pub bit-shift_empty : (s i n : ℕ) → i < s → bit i (n * 2 ^ s) ≡ 0
unfolding bit
bit-shift_empty zero i n h = absurd (omega arith)
bit-shift_empty (suc s) zero n h = omega (arith, ap (λ (t : ℕ). n * t) (pow-suc 2 s))
bit-shift_empty (suc s) (suc i) n h =
    let half : n * 2 ^ suc s / 2 ≡ n * 2 ^ s = omega (arith, ap (λ (t : ℕ). n * t) (pow-suc 2 s)) in
    ap (bit i) half ∙ bit-shift_empty s i n (omega arith)

pub two_pow_sum : (s k : ℕ) → 2 ^ (s + k) ≡ 2 ^ k * 2 ^ s
two_pow_sum zero k =
    let none : 0 + k ≡ k = omega arith in
    let once : 2 ^ k ≡ 2 ^ k * 1 = omega arith in ap (λ (t : ℕ). 2 ^ t) none ∙ once
two_pow_sum (suc s) k =
    let next : suc s + k ≡ suc (s + k) = omega arith in
    ap (λ (t : ℕ). 2 ^ t) next
    ∙ omega (arith, pow-suc 2 (s + k), two_pow_sum s k, ap (λ (t : ℕ). 2 ^ k * t) (pow-suc 2 s))
