-- ===== src/Connection/Framing.antt =====
-- `Connection::write` over any connection: what is handed to `rawWrite`, and every way it can end.
use libkzr.Prelude.{
  ℕ, ◌+◌, ◌-◌, ◌%◌, ◌^◌, ◌≤◌, ◌<◌, ◌≡◌, refl, ap, ◌++◌, length, ◌==◌, eq→==, ne→==, if◌then◌else◌,
  arith,
}
use libkzr.Prelude.Bytes.{little_endian}
use libkzr.Outcome.{returns, throws, pure, throw, ◌>>=◌, message_too_long, only_wrote}
use libkzr.StringStream.{StringStream}
use libkzr.MessageStream.{Text, str}
use libkzr.MessageStream.Wire.{build_u32-bytes}
use libkzr.Connection.{RawConnection, framed, message_size, write}

pub framed-little_endian :
    (size : ℕ) (contents : Text) → framed size contents ≡ little_endian 4 size ++ contents
unfolding framed
framed-little_endian size contents = ground arith

-- The size that `read` finds in front of what `write` sends is the size that was put there, if that
-- fits 32 bits.
pub message_size-framed :
    (size : ℕ) (contents : Text)
    → size < 2 ^ 32
    → message_size (framed size contents) ≡ returns size
unfolding message_size
message_size-framed size contents h =
    rw (framed-little_endian size contents) (ap returns (build_u32-bytes size h))

module _ {C : Type 0} (raw : RawConnection C) where
  -- A message whose size with the four bytes in front fits 32 bits goes out in one call, as the size
  -- and then the contents. `write` returns if the connection took that many bytes, and throws if not.
  pub write-framed :
      (msg : StringStream) (c : C)
      → length (str msg) + 4 < 2 ^ 32
      → write raw msg c
        ≡ (raw.raw_write (framed (length (str msg) + 4) (str msg)) >>= λ n.
              if n == length (str msg) + 4
              then pure tt
              else throw (only_wrote n (length (str msg) + 4)))
            c
  unfolding write
  write-framed msg c fits =
      let same : length (str msg) % 2 ^ 32 ≡ length (str msg) = omega arith in
      let sum : (length (str msg) + 4) % 2 ^ 32 ≡ length (str msg) + 4 = omega arith in
      rw same (rw (eq→== (length (str msg)) (length (str msg)) refl, sum))

  -- In the last four sizes that 32 bits hold, the size in front wraps round, and a connection that
  -- takes all of the frame is reported as having failed.
  pub write_wraps :
      (msg : StringStream) (c c' : C)
      → 2 ^ 32 ≤ length (str msg) + 4
      → length (str msg) < 2 ^ 32
      → raw.raw_write (framed (length (str msg) + 4 - 2 ^ 32) (str msg)) c
        ≡ (returns (length (str msg) + 4), c')
      → write raw msg c
        ≡ (throws (only_wrote (length (str msg) + 4) (length (str msg) + 4 - 2 ^ 32)), c')
  unfolding write ◌>>=◌
  write_wraps msg c c' big small sent =
      let len = length (str msg) in
      let same : len % 2 ^ 32 ≡ len = omega arith in
      let sum : (len + 4) % 2 ^ 32 ≡ len + 4 - 2 ^ 32 = omega arith in
      rw same (
        rw (eq→== len len refl, sum)
          (rw sent (rw (ne→== (len + 4) (len + 4 - 2 ^ 32) (omega arith)))))

  -- A longer message is refused before anything is sent.
  pub write_too_long :
      (msg : StringStream) (c : C)
      → 2 ^ 32 ≤ length (str msg)
      → write raw msg c ≡ (throws message_too_long, c)
  unfolding write
  write_too_long msg c big = rw (ne→== (length (str msg)) (length (str msg) % 2 ^ 32) (omega arith))
