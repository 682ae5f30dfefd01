-- ===== src/Core.antt =====
-- Core.h: bit fields of an unsigned integer. `w` is the width of the type T of the whole value and `r`
-- that of the type R of the field; mask and shift are arguments of a template or of a function, and the
-- code is the same.
pub mod Fields
use libkzr.Prelude.{ℕ, ◌-◌, ◌*◌, ◌/◌, ◌%◌, ◌^◌, bit_and, bit_or}

-- `~mask` as a T.
abbrev pub complement : ℕ → ℕ → ℕ
complement w mask = 2 ^ w - 1 - mask

unfoldable pub decode_bits : ℕ → ℕ → ℕ → ℕ → ℕ
decode_bits r mask shift value = bit_and value mask / 2 ^ shift % 2 ^ r

unfoldable pub encode_bits : ℕ → ℕ → ℕ → ℕ → ℕ → ℕ
encode_bits w mask shift value insert =
    bit_or (bit_and value (complement w mask)) (bit_and (insert % 2 ^ w * 2 ^ shift % 2 ^ w) mask)
    % 2 ^ w
