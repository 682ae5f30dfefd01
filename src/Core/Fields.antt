-- ===== src/Core/Fields.antt =====
-- What a field is when it is read back, and what becomes of the other bits.
use libkzr.Prelude.{
  ℕ, ◌+◌, ◌-◌, ◌*◌, ◌/◌, ◌%◌, ◌^◌, ◌≤◌, ◌<◌, ◌≡◌, sym, ap, ◌∙◌, ◌⊎◌, inl, inr, min, max, bit_and,
  arith,
}
use libkzr.Prelude.Binary.{
  bit, bit-le, bit-zero, bit_ext, bit_big, bit-bit_and, bit-bit_or, bit-mod_low, bit-mod_high,
  bit-shift_right, bit-shift_left, bit-complement, bit-ones_low, two_pow_sum,
}
use libkzr.Core.{decode_bits, encode_bits}
use native.Mathlib.Nat.{one-le-pow, pow-le-pow_right, mod-eq_of_lt, mul-lt-mul_of_pos_right}

-- Digit `i` of an encoded value: the mask decides between the old value and what is inserted.
bit-encode_bits :
    (w mask shift value insert i : ℕ)
    → mask < 2 ^ w
    → i < w
    → bit i (encode_bits w mask shift value insert)
      ≡ max
          (min (bit i value) (1 - bit i mask))
          (min (bit i (insert % 2 ^ w * 2 ^ shift)) (bit i mask))
unfolding encode_bits
bit-encode_bits w mask shift value insert i fits h = rw (bit-mod_low w i _ h) (
    rw (bit-bit_or i _ _) (
      rw (bit-bit_and i value _) (
        rw (bit-bit_and i (insert % 2 ^ w * 2 ^ shift % 2 ^ w) mask)
          (rw (bit-complement w i mask fits h) (rw (bit-mod_low w i _ h))))))

-- Above the width there are no digits.
bit-encode_bits_high :
    (w mask shift value insert i : ℕ) → w ≤ i → bit i (encode_bits w mask shift value insert) ≡ 0
unfolding encode_bits
bit-encode_bits_high w mask shift value insert i h = bit-mod_high w i _ h

-- An encoded value under its mask is what was inserted under the mask.
masked-encode_bits :
    (w mask shift value insert : ℕ)
    → mask < 2 ^ w
    → bit_and (encode_bits w mask shift value insert) mask
      ≡ bit_and (insert % 2 ^ w * 2 ^ shift) mask
masked-encode_bits w mask shift value insert fits = bit_ext _ _ λ i.
    rw (bit-bit_and i (encode_bits w mask shift value insert) mask)
      (rw (bit-bit_and i (insert % 2 ^ w * 2 ^ shift) mask) (digit i (split i)))
  where
    split : (i : ℕ) → (i < w) ⊎ (w ≤ i)
    split i = omega arith

    digit :
        (i : ℕ)
        → (i < w) ⊎ (w ≤ i)
        → min (bit i (encode_bits w mask shift value insert)) (bit i mask)
          ≡ min (bit i (insert % 2 ^ w * 2 ^ shift)) (bit i mask)
    digit i (inl h) = omega (
      arith,
      bit-encode_bits w mask shift value insert i fits h,
      bit-le i mask,
      bit-le i value,
      bit-le i (insert % 2 ^ w * 2 ^ shift),
    )
    digit i (inr h) = omega (arith, bit_big w i mask fits h)

-- The mask of a field of `k` bits at the shift.
abbrev pub field_mask : ℕ → ℕ → ℕ
field_mask k shift = (2 ^ k - 1) * 2 ^ shift

field_mask_fits : (w k shift : ℕ) → shift + k ≤ w → field_mask k shift < 2 ^ w
field_mask_fits w k shift h = omega (
  arith,
  mul-lt-mul_of_pos_right {m = 2 ^ k - 1} {n = 2 ^ k} {k = 2 ^ shift}
      (omega (arith, one-le-pow k 2 (omega arith))) (one-le-pow shift 2 (omega arith)),
  two_pow_sum shift k,
  pow-le-pow_right {n = 2} (omega arith) h,
)

field_digits :
    (w k shift insert : ℕ)
    → k ≤ w
    → insert < 2 ^ k
    → bit_and (insert % 2 ^ w * 2 ^ shift) (field_mask k shift) / 2 ^ shift ≡ insert
field_digits w k shift insert h small = bit_ext _ insert λ i.
    rw (bit-shift_right shift i (bit_and (insert % 2 ^ w * 2 ^ shift) (field_mask k shift))) (
      rw (bit-bit_and (shift + i) (insert % 2 ^ w * 2 ^ shift) (field_mask k shift)) (
        rw (bit-shift_left shift i (insert % 2 ^ w), bit-shift_left shift i (2 ^ k - 1))
          (rw whole (digit i (split i)))))
  where
    whole : insert % 2 ^ w ≡ insert
    whole = mod-eq_of_lt (omega (arith, pow-le-pow_right {n = 2} (omega arith) h))

    split : (i : ℕ) → (i < k) ⊎ (k ≤ i)
    split i = omega arith

    digit : (i : ℕ) → (i < k) ⊎ (k ≤ i) → min (bit i insert) (bit i (2 ^ k - 1)) ≡ bit i insert
    digit i (inl h) = omega (arith, bit-ones_low k i h, bit-le i insert)
    digit i (inr h) = omega (arith, bit_big k i insert small h)

-- A field of `k` bits that lies within the T, read into an R of at least `k` bits, is the number that
-- was put there, if that has `k` bits.
pub decode-encode_bits :
    (r w k shift value insert : ℕ)
    → shift + k ≤ w
    → k ≤ r
    → insert < 2 ^ k
    → decode_bits r
        (field_mask k shift)
        shift
        (encode_bits w (field_mask k shift) shift value insert)
      ≡ insert
unfolding decode_bits
decode-encode_bits r w k shift value insert inside wide small =
    rw
      (masked-encode_bits w (field_mask k shift) shift value insert
        (field_mask_fits w k shift inside))
      (rw (field_digits w k shift insert (omega arith) small)
        (mod-eq_of_lt (omega (arith, pow-le-pow_right {n = 2} (omega arith) wide))))

-- Encoding a field leaves a field whose mask shares no bit with it, whatever their shapes.
pub decode-encode_bits_other :
    (r w mask shift other place value insert : ℕ)
    → mask < 2 ^ w
    → other < 2 ^ w
    → bit_and mask other ≡ 0
    → decode_bits r other place (encode_bits w mask shift value insert)
      ≡ decode_bits r other place value
unfolding decode_bits
decode-encode_bits_other r w mask shift other place value insert fits inside apart =
    ap (λ (t : ℕ). t / 2 ^ place % 2 ^ r) kept
  where
    split : (i : ℕ) → (i < w) ⊎ (w ≤ i)
    split i = omega arith

    never : (i : ℕ) → min (bit i mask) (bit i other) ≡ 0
    never i = sym (bit-bit_and i mask other) ∙ (ap (bit i) apart ∙ bit-zero i)

    digit :
        (i : ℕ)
        → (i < w) ⊎ (w ≤ i)
        → min (bit i (encode_bits w mask shift value insert)) (bit i other)
          ≡ min (bit i value) (bit i other)
    digit i (inl h) = omega (
      arith,
      bit-encode_bits w mask shift value insert i fits h,
      never i,
      bit-le i mask,
      bit-le i other,
      bit-le i value,
      bit-le i (insert % 2 ^ w * 2 ^ shift),
    )
    digit i (inr h) = omega (arith, bit_big w i other inside h)

    kept : bit_and (encode_bits w mask shift value insert) other ≡ bit_and value other
    kept = bit_ext _ _ λ i.
        rw (bit-bit_and i (encode_bits w mask shift value insert) other)
          (rw (bit-bit_and i value other) (digit i (split i)))

-- The digits of a decoded field.
bit-decode_bits :
    (r mask shift value i : ℕ)
    → i < r
    → bit i (decode_bits r mask shift value) ≡ min (bit (shift + i) value) (bit (shift + i) mask)
unfolding decode_bits
bit-decode_bits r mask shift value i h =
    bit-mod_low r i _ h
    ∙ (bit-shift_right shift i (bit_and value mask) ∙ bit-bit_and (shift + i) value mask)

-- Under the mask, the decoded field shifted back is the value.
read_back :
    (r w mask shift value i : ℕ)
    → mask / 2 ^ shift < 2 ^ r
    → i < w
    → shift ≤ i
    → min (bit i (decode_bits r mask shift value % 2 ^ w * 2 ^ shift)) (bit i mask)
      ≡ min (bit i value) (bit i mask)
read_back r w mask shift value i wide h above =
    let j = i - shift in
    let place : shift + j ≡ i = omega arith in
    rw (← place) (
      rw (bit-shift_left shift j (decode_bits r mask shift value % 2 ^ w))
        (rw (bit-mod_low w j (decode_bits r mask shift value) (omega arith)) (digit j (split j))))
  where
    split : (j : ℕ) → (j < r) ⊎ (r ≤ j)
    split j = omega arith

    digit :
        (j : ℕ)
        → (j < r) ⊎ (r ≤ j)
        → min (bit j (decode_bits r mask shift value)) (bit (shift + j) mask)
          ≡ min (bit (shift + j) value) (bit (shift + j) mask)
    digit j (inl low) = omega (arith, bit-decode_bits r mask shift value j low)
    digit j (inr high) =
        omega (arith, bit-shift_right shift j mask, bit_big r j (mask / 2 ^ shift) wide high)

-- Encoding a field with what was decoded from it changes nothing, where the mask has no bits below the
-- shift and the R takes all bits of the field.
encode-decode_bits :
    (r w mask shift value : ℕ)
    → value < 2 ^ w
    → mask < 2 ^ w
    → mask % 2 ^ shift ≡ 0
    → mask / 2 ^ shift < 2 ^ r
    → encode_bits w mask shift value (decode_bits r mask shift value) ≡ value
encode-decode_bits r w mask shift value inside fits low wide =
    bit_ext _ value λ i. digit i (split i)
  where
    split : (i : ℕ) → ((i < w) × ((i < shift) ⊎ (shift ≤ i))) ⊎ (w ≤ i)
    split i = omega arith

    digit :
        (i : ℕ)
        → ((i < w) × ((i < shift) ⊎ (shift ≤ i))) ⊎ (w ≤ i)
        → bit i (encode_bits w mask shift value (decode_bits r mask shift value)) ≡ bit i value
    digit i (inl (h, inl below)) = omega (
      arith,
      bit-encode_bits w mask shift value (decode_bits r mask shift value) i fits h,
      bit-mod_low shift i mask below,
      ap (bit i) low,
      bit-zero i,
      bit-le i value,
    )
    digit i (inl (h, inr above)) = omega (
      arith,
      bit-encode_bits w mask shift value (decode_bits r mask shift value) i fits h,
      read_back r w mask shift value i wide h above,
      bit-le i mask,
      bit-le i value,
    )
    digit i (inr h) = omega (
      arith,
      bit-encode_bits_high w mask shift value (decode_bits r mask shift value) i h,
      bit_big w i value inside h,
    )
