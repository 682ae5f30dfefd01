-- ===== src/Connection.antt =====
-- Connection.h and Connection.cc: messages over a connection, behind a length. The two virtual
-- functions `rawWrite` and `rawRead` are an interface; a subclass fills it.
pub mod Framing
pub mod Reading
pub mod Channel
use libkzr.Prelude.{
  ℕ, zero, suc, ◌+◌, ◌-◌, ◌/◌, ◌%◌, ◌^◌, Bool, true, false, Option, none, some, List, [], ◌∷◌, ◌++◌,
  length, replicate, ◌==◌, ltb, if◌then◌else◌,
}
use libkzr.Prelude.Bytes.{Byte}
use libkzr.Outcome.{
  Outcome, returns, throws, undefined, Action, pure, throw, continue, ◌>>=◌, message_too_long,
  only_wrote, expected_four_bytes, size_below_four, only_read, not_enough_bytes,
}
use libkzr.StringStream.{StringStream}
use libkzr.MessageStream
use libkzr.MessageStream.{Text, str, build_u32_from_bytes}

-- `C` is the connection object with what lies behind it. `raw_read` is given the string that it reads
-- into, and returns its count and that string.
pub record RawConnection (C : Type 0) : Type 0 where
  pub raw_write : Text → Action C ℕ
  pub raw_read : Text → Action C (ℕ × Text)

-- The size, lowest byte first, and the contents.
unfoldable pub framed : ℕ → Text → Text
framed size contents =
    (size % 2 ^ 8)
    ∷ (size / 2 ^ 8 % 2 ^ 8)
    ∷ (size / 2 ^ 16 % 2 ^ 8)
    ∷ (size / 2 ^ 24 % 2 ^ 8)
    ∷ contents

-- `s[i]`: the terminator stands at the size, and nothing behind it.
abbrev pub char_at : ℕ → Text → Option Byte
char_at zero [] = some 0
char_at (suc i) [] = none
char_at zero (c ∷ s) = some c
char_at (suc i) (c ∷ s) = char_at i s

abbrev pub from_chars : Option Byte → Option Byte → Option Byte → Option Byte → Outcome ℕ
from_chars (some a) (some b) (some c) (some d) = returns (build_u32_from_bytes a b c d)
from_chars _ _ _ _ = undefined

unfoldable pub message_size : Text → Outcome ℕ
message_size s = from_chars (char_at 0 s) (char_at 1 s) (char_at 2 s) (char_at 3 s)

-- `std::string(' ', n)` is 32 characters of code n: the count and the character stand in the wrong order.
unfoldable pub spaces : ℕ → Text
spaces n = replicate 32 (n % 2 ^ 8)

-- The part of `read` behind the second `rawRead`.
unfoldable pub finish_read : ℕ → ℕ → ℕ → Text → Action StringStream (Unit {0})
finish_read bytes_read size bytes_read2 storage =
    if bytes_read2 == size
    then (if (bytes_read2 + bytes_read) % 2 ^ 64 == size
        then MessageStream.write storage
        else throw not_enough_bytes)
    else throw (only_read bytes_read2 size)

abbrev pub after_payload :
    {C : Type 0}
    → ℕ
    → ℕ
    → StringStream
    → Outcome (ℕ × Text) × C
    → Outcome (Unit {0}) × (C × StringStream)
after_payload bytes_read size msg (returns (bytes_read2, storage), c) =
    let (r, msg') = finish_read bytes_read size bytes_read2 storage msg in (r, (c, msg'))
after_payload bytes_read size msg (throws e, c) = (throws e, (c, msg))
after_payload bytes_read size msg (undefined, c) = (undefined, (c, msg))

module _ {C : Type 0} (raw : RawConnection C) where
  unfoldable pub write : StringStream → Action C (Unit {0})
  unfolding framed
  write msg =
      let contents = str msg in
      let len = length contents in
      let actual_len = (len % 2 ^ 32 + 4) % 2 ^ 32 in
      if len == len % 2 ^ 32
      then (raw.raw_write (framed actual_len contents) >>= λ bytes_written.
          if bytes_written == actual_len
          then pure tt
          else throw (only_wrote bytes_written actual_len))
      else throw message_too_long

  abbrev pub after_size : ℕ → StringStream → C → Outcome ℕ → Outcome (Unit {0}) × (C × StringStream)
  after_size bytes_read msg c (returns size) =
      if ltb size 4
      then (throws size_below_four, (c, msg))
      else after_payload bytes_read size msg (raw.raw_read (spaces (size - 4)) c)
  after_size bytes_read msg c (throws e) = (throws e, (c, msg))
  after_size bytes_read msg c undefined = (undefined, (c, msg))

  abbrev pub after_header :
      StringStream → Outcome (ℕ × Text) × C → Outcome (Unit {0}) × (C × StringStream)
  after_header msg (returns (bytes_read, size_acquire), c) =
      if bytes_read == 4
      then after_size bytes_read msg c (message_size size_acquire)
      else (throws (expected_four_bytes bytes_read), (c, msg))
  after_header msg (throws e, c) = (throws e, (c, msg))
  after_header msg (undefined, c) = (undefined, (c, msg))

  -- The connection and the message change together.
  unfoldable pub read : C × StringStream → Outcome (Unit {0}) × (C × StringStream)
  unfolding finish_read
  read (c, msg) = after_header msg (raw.raw_read (spaces 4) c)
