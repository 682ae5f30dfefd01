-- ===== src/Exception/Decimal.antt =====
-- The decimal digits of a number determine it.
use libkzr.Prelude.{
  lt_or_le, ℕ, zero, suc, ◌+◌, ◌-◌, ◌*◌, ◌/◌, ◌%◌, ◌≤◌, ◌<◌, ◌≡◌, refl, [], ◌∷◌, ◌++◌, All, lt→ltb,
  le→ltb, inl, inr, arith,
}
use libkzr.MessageStream.{Text}
use libkzr.Exception.{digits_of, decimal}

-- The number that digits stand for, behind a number that was read already.
unfoldable pub read_digits : ℕ → Text → ℕ
read_digits n [] = n
read_digits n (c ∷ cs) = read_digits (10 * n + (c - b'0')) cs

read_digits-append :
    (n : ℕ) (cs ds : Text) → read_digits n (cs ++ ds) ≡ read_digits (read_digits n cs) ds
unfolding read_digits
read_digits-append n [] ds = refl
read_digits-append n (c ∷ cs) ds = read_digits-append (10 * n + (c - b'0')) cs ds

read_digits-digits_of : (fuel n : ℕ) → n ≤ fuel → read_digits 0 (digits_of fuel n) ≡ n
unfolding read_digits digits_of
read_digits-digits_of zero n h = omega arith
read_digits-digits_of (suc fuel) n h = elim (lt_or_le n 10) [
  | inl small ↦ rw (lt→ltb n 10 small) (omega arith)
  | inr large ↦ rw (le→ltb n 10 large) (
      rw (read_digits-append 0 (digits_of fuel (n / 10)) ((n % 10 + b'0') ∷ []))
        (rw (read_digits-digits_of fuel (n / 10) (omega arith)) (omega arith)))
]

-- A number read from its decimal digits is the number: the fuel is enough for every number.
pub read_digits-decimal : (n : ℕ) → read_digits 0 (decimal n) ≡ n
unfolding decimal
read_digits-decimal n = read_digits-digits_of n n (omega arith)

pub All-append :
    (xs ys : Text) → All (λ c. 0 < c) xs → All (λ c. 0 < c) ys → All (λ c. 0 < c) (xs ++ ys)
All-append [] ys h k = k
All-append (x ∷ xs) ys (h, hs) k = (h, All-append xs ys hs k)

-- Decimal digits are no NULs.
digits_of_positive : (fuel n : ℕ) → All (λ c. 0 < c) (digits_of fuel n)
unfolding digits_of
digits_of_positive zero n = omega arith
digits_of_positive (suc fuel) n = elim (lt_or_le n 10) [
  | inl small ↦ rw (lt→ltb n 10 small) (omega arith)
  | inr large ↦
      rw (le→ltb n 10 large) (All-append _ _ (digits_of_positive fuel (n / 10)) (omega arith))
]

pub decimal_positive : (n : ℕ) → All (λ c. 0 < c) (decimal n)
unfolding decimal
decimal_positive n = digits_of_positive n n
