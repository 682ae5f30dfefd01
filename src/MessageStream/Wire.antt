-- ===== src/MessageStream/Wire.antt =====
-- The bytes that each kind of value stands for on the wire, and what decoding them gives.
use libkzr.Prelude.{
  ℕ, suc, ◌+◌, ◌*◌, ◌/◌, ◌%◌, ◌^◌, ◌<◌, ◌≡◌, refl, ap, ap₂, List, [], ◌∷◌, ◌++◌, map, length, All,
  arith,
}
use libkzr.Prelude.Bytes.{Byte, little_endian}
use libkzr.Prelude.Bits.{bit_or-shifted}
use libkzr.MessageStream.{
  Text, build_u16, build_u32, build_u32_from_bytes, build_u64, overlay, ArgumentOrder,
  left_to_right, right_to_left,
}

abbrev pub IsText : Text → Type 0
IsText s = All (λ c. c < 2 ^ 8) s × (length s < 2 ^ 16)

abbrev pub chars_bytes : Text → List Byte
chars_bytes s = map (λ c. c % 256) s

unfoldable pub string_bytes : Text → List Byte
string_bytes s = little_endian 2 (length s) ++ chars_bytes s

module _ {A : Type 0} where
  abbrev pub elements_bytes : (A → List Byte) → List A → List Byte
  elements_bytes bytes [] = []
  elements_bytes bytes (x ∷ xs) = bytes x ++ elements_bytes bytes xs

  unfoldable pub vector_bytes : (A → List Byte) → List A → List Byte
  vector_bytes bytes xs = little_endian 2 (length xs) ++ elements_bytes bytes xs

-- What a uint64_t reads back as: if the second half is read first, the halves trade places.
unfoldable pub u64_as_read : ArgumentOrder → ℕ → ℕ
u64_as_read left_to_right v = v
u64_as_read right_to_left v = v / 2 ^ 32 + v % 2 ^ 32 * 2 ^ 32

pub build_u16-halves : (low high : ℕ) → low < 2 ^ 8 → build_u16 low high ≡ high * 2 ^ 8 + low
unfolding build_u16
build_u16-halves low high h = bit_or-shifted 8 high low h

pub build_u16-bytes : (v : ℕ) → v < 2 ^ 16 → build_u16 (v % 256) (v / 256 % 256) ≡ v
build_u16-bytes v h = omega (arith, build_u16-halves (v % 256) (v / 256 % 256) (omega arith))

pub build_u32-halves : (low high : ℕ) → low < 2 ^ 16 → build_u32 low high ≡ high * 2 ^ 16 + low
unfolding build_u32
build_u32-halves low high h = bit_or-shifted 16 high low h

pub build_u64-halves : (low high : ℕ) → low < 2 ^ 32 → build_u64 low high ≡ high * 2 ^ 32 + low
unfolding build_u64
build_u64-halves low high h = bit_or-shifted 32 high low h

pub build_u32-bytes :
    (v : ℕ)
    → v < 2 ^ 32
    → build_u32_from_bytes
        (v % 256)
        (v / 256 % 256)
        (v / 256 / 256 % 256)
        (v / 256 / 256 / 256 % 256)
      ≡ v
unfolding build_u32_from_bytes
build_u32-bytes v h =
    rw (low, high) (rw (build_u32-halves (v % 2 ^ 16) (v / 2 ^ 16) (omega arith)) (omega arith))
  where
    low : build_u16 (v % 256) (v / 256 % 256) ≡ v % 2 ^ 16
    low = omega (arith, build_u16-halves (v % 256) (v / 256 % 256) (omega arith))

    high : build_u16 (v / 256 / 256 % 256) (v / 256 / 256 / 256 % 256) ≡ v / 2 ^ 16
    high =
        omega
          (arith, build_u16-halves (v / 256 / 256 % 256) (v / 256 / 256 / 256 % 256) (omega arith))

pub overlay-nil : (s : Text) → overlay s [] ≡ []
overlay-nil s = refl

-- A text goes over a target of its own length unchanged.
pub overlay_same : (s t : Text) → length s ≡ length t → overlay s t ≡ s
overlay_same [] [] h = refl
overlay_same [] (d ∷ t) h = absurd (omega arith)
overlay_same (c ∷ s) [] h = absurd (omega arith)
overlay_same (c ∷ s) (d ∷ t) h = ap (λ u. c ∷ u) (overlay_same s t (omega arith))

pub length-overlay : (s t : Text) → length (overlay s t) ≡ length t
length-overlay s [] = refl
length-overlay [] (d ∷ t) = refl
length-overlay (c ∷ s) (d ∷ t) = ap suc (length-overlay s t)

pub chars_bytes-text : (s : Text) → All (λ c. c < 2 ^ 8) s → chars_bytes s ≡ s
chars_bytes-text [] h = refl
chars_bytes-text (c ∷ s) (hc, h) = ap₂ (λ x y. x ∷ y) (omega arith) (chars_bytes-text s h)

pub length-chars_bytes : (s : Text) → length (chars_bytes s) ≡ length s
length-chars_bytes [] = refl
length-chars_bytes (c ∷ s) = ap suc (length-chars_bytes s)

-- The halves of a number, one after the other, are its bytes.
pub split_u32 :
    (v : ℕ)
    → little_endian 2 (v % 2 ^ 16) ++ little_endian 2 (v / 2 ^ 16 % 2 ^ 16) ≡ little_endian 4 v
split_u32 v = ground arith

pub split_u64 :
    (v : ℕ)
    → little_endian 4 (v % 2 ^ 32) ++ little_endian 4 (v / 2 ^ 32 % 2 ^ 32) ≡ little_endian 8 v
split_u64 v = ground arith
