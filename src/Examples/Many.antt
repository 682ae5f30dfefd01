-- ===== src/Examples/Many.antt =====
-- Long inputs for the tests.
use libkzr.Prelude.{ℕ, ◌≡◌, List, length, replicate, length-replicate}
use libkzr.Prelude.Bytes.{Byte}

-- `n` bytes, shut, so that a long text is never computed.
pub many : ℕ → List Byte
many n = replicate n b'x'

pub length-many : (n : ℕ) → length (many n) ≡ n
unfolding many
length-many n = length-replicate {A = Byte} n b'x'
