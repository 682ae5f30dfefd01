-- ===== src/Prelude/Bytes.antt =====
-- Numbers as bytes, lowest byte first.
use Prim.Native.Nat.{ℕ, zero, suc, ◌/◌, ◌%◌}
use mathlib.Core.Path.{◌≡◌, refl, ap}
use mathlib.Core.List.{List, [], ◌∷◌}
use libkzr.Prelude.Lists.{length}

abbrev pub Byte : Type 0
Byte = ℕ

-- The `n` low bytes of a number.
abbrev pub little_endian : ℕ → ℕ → List Byte
little_endian zero v = []
little_endian (suc n) v = (v % 256) ∷ little_endian n (v / 256)

pub length-little_endian : (n v : ℕ) → length (little_endian n v) ≡ n
length-little_endian zero v = refl
length-little_endian (suc n) v = ap suc (length-little_endian n (v / 256))
